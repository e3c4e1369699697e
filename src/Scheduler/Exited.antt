-- ===== src/Scheduler/Exited.antt =====
-- A thread that has ended never gets control again.
use mathlib.Core.Path.{subst}
use termob_kernel.Base.{
  ℕ, zero, suc, ◌≡◌, ◌≢◌, refl, ap, ◌∙◌, Bool, true, false, ◌⊎◌, inl, inr, arith, ◌==◌, Bool-cases,
}
use termob_kernel.Scheduler.{
  Scheduler, TaskState, idle_task, is_ready, handle_tick, dispatch, dispatch_to, dispatch_return,
  start_task, mark_task_corrupt, exit_task, exit_current_task, leave_task, yield, yield_return,
  pick_loop, pick_next_task, next_task_after,
}
use termob_kernel.Scheduler.System.{Control, Machine, Step, Agrees, IsConsistent, Reachable}
use termob_kernel.Scheduler.Invariant.{
  create_kernel_thread-others, dispatch-switches, yield-returned,
}
use termob_kernel.Scheduler.Reach.{Reachable-IsConsistent}

pick_loop-ready :
    (s : Scheduler) (prefer : Bool) (rounds p : ℕ)
    → (is_ready (s.tasks (pick_loop s prefer rounds p)).state ≡ true)
      ⊎ (pick_loop s prefer rounds p ≡ idle_task)
unfolding pick_loop
pick_loop-ready s prefer zero p = inr refl
pick_loop-ready s prefer (suc rounds) p =
    ground (arith, pick_loop-ready s prefer rounds (next_task_after s p))

pick_next_task-ready :
    (s : Scheduler)
    → (is_ready (s.tasks (pick_next_task s)).state ≡ true) ⊎ (pick_next_task s ≡ idle_task)
unfolding pick_next_task
pick_next_task-ready s = elim (Bool-cases (s.head == 0)) [
  | inl none_there ↦ rw none_there (inr refl)
  | inr some_there ↦ rw some_there (pick_loop-ready s _ s.total_tasks (next_task_after s s.last))
]

start_task-exited :
    (s : Scheduler) (t p : ℕ)
    → is_ready (s.tasks t).state ≡ true
    → (s.tasks p).state ≡ TaskState.exited
    → ((start_task s t).tasks p).state ≡ TaskState.exited
unfolding start_task
start_task-exited s t p ready ended = ground (arith, ap (λ q. (s.tasks q).state))

dispatch_stay-exited :
    (s : Scheduler) (p : ℕ)
    → (dispatch s).0 ≡ false
    → (s.tasks p).state ≡ TaskState.exited
    → ((dispatch s).1.tasks p).state ≡ TaskState.exited
unfolding dispatch dispatch_to mark_task_corrupt
dispatch_stay-exited s p stays ended = ground arith

dispatch_return-state :
    (s : Scheduler) (p : ℕ) → ((dispatch_return s).tasks p).state ≡ (s.tasks p).state
unfolding dispatch_return
dispatch_return-state s p = ground arith

handle_tick-state : (s : Scheduler) (p : ℕ) → ((handle_tick s).tasks p).state ≡ (s.tasks p).state
unfolding handle_tick
handle_tick-state s p = ground arith

yield_return-exited :
    (s : Scheduler) (t p : ℕ)
    → (s.tasks p).state ≡ TaskState.exited
    → ((yield_return s t).tasks p).state ≡ TaskState.exited
unfolding yield_return
yield_return-exited s t p ended = ground arith

yield-exited :
    (s : Scheduler) (p : ℕ)
    → p ≢ s.current
    → (s.tasks p).state ≡ TaskState.exited
    → ((yield s).1.tasks p).state ≡ TaskState.exited
unfolding yield leave_task exit_current_task exit_task mark_task_corrupt
yield-exited s p other ended = ground arith

exit-exited :
    (s : Scheduler) (p : ℕ)
    → (s.tasks p).state ≡ TaskState.exited
    → ((exit_current_task s).1.tasks p).state ≡ TaskState.exited
unfolding exit_current_task exit_task
exit-exited s p ended = ground arith

switch-exited :
    (s : Scheduler) (p : ℕ)
    → (s.tasks idle_task).is_idle ≡ true
    → (dispatch s).0 ≡ true
    → (s.tasks p).state ≡ TaskState.exited
    → ((dispatch s).1.tasks p).state ≡ TaskState.exited
switch-exited s p marked switches ended =
    let (to, there, busy, guard) = dispatch-switches s switches in
    let ready : is_ready (s.tasks (pick_next_task s)).state ≡ true = elim (pick_next_task-ready s) [
      | inl ready ↦ ready
      | inr idle ↦ absurd (ground (arith, ap (λ q. (s.tasks q).is_idle) idle))
    ] in
    ap (λ x. (x.tasks p).state) to ∙ start_task-exited s (pick_next_task s) p ready ended

-- A thread with control is running, so it is not one that has ended.
not_current :
    (t : ℕ) (s : Scheduler) (p : ℕ)
    → Agrees (Control.thread t) s
    → (s.tasks p).state ≡ TaskState.exited
    → p ≢ s.current
not_current t s p (flag, here, there, runs, busy, others) ended e =
    let same : (s.tasks p).state ≡ TaskState.running =
      ap (λ q. (s.tasks q).state) (e ∙ here) ∙ runs in
    ground (arith, same, ended)

Step-exited :
    {m m' : Machine} (p : ℕ)
    → Step m m'
    → IsConsistent m
    → (m.scheduler.tasks p).state ≡ TaskState.exited
    → (m'.scheduler.tasks p).state ≡ TaskState.exited
Step-exited p (Step.tick c s) h ended = handle_tick-state s p ∙ ended
Step-exited p (Step.write_memory c s w) h ended = ended
Step-exited p (Step.create c s q new) h ended =
    let other : p ≢ q.task = λ e. ground (arith, ap (λ t. (s.tasks t).state) e) in
    let (state, idle) = create_kernel_thread-others s q p other in state ∙ ended
Step-exited p (Step.stay s stays) h ended = dispatch_stay-exited s p stays ended
Step-exited p (Step.begin s switches) h ended = switch-exited s p h.idle_marked switches ended
Step-exited p (Step.go_on s switches) h ended =
    yield_return-exited (dispatch s).1 (dispatch s).1.current p
      (switch-exited s p h.idle_marked switches ended)
Step-exited p (Step.keep_on t s stays) h ended =
    ap (λ x. (x.tasks p).state) (yield-returned s stays) ∙ ended
Step-exited p (Step.yields t s leaves) h ended =
    dispatch_return-state (yield s).1 p ∙ yield-exited s p (not_current t s p h.agrees ended) ended
Step-exited p (Step.exits t s leaves) h ended =
    dispatch_return-state (exit_current_task s).1 p ∙ exit-exited s p ended

-- Any number of steps.
pub data Steps (m : Machine) : Machine → Type 0 where
  none : Steps m m
  more : {u v : Machine} → Steps m u → Step u v → Steps m v

Steps-Reachable : {m m' : Machine} → Reachable m → Steps m m' → Reachable m'
Steps-Reachable r Steps.none = r
Steps-Reachable r (Steps.more steps step) = Reachable.next (Steps-Reachable r steps) step

Steps-exited :
    {m m' : Machine} (p : ℕ)
    → Reachable m
    → Steps m m'
    → (m.scheduler.tasks p).state ≡ TaskState.exited
    → (m'.scheduler.tasks p).state ≡ TaskState.exited
Steps-exited p r Steps.none ended = ended
Steps-exited p r (Steps.more steps step) ended =
    Step-exited p step (Reachable-IsConsistent (Steps-Reachable r steps))
      (Steps-exited p r steps ended)

-- Once a thread has exited, or was ended for a broken stack guard, it stays so however the machine
-- goes on, and it never has control again.
pub exited_never_runs :
    {m m' : Machine} (p : ℕ)
    → Reachable m
    → (m.scheduler.tasks p).state ≡ TaskState.exited
    → Steps m m'
    → ((m'.scheduler.tasks p).state ≡ TaskState.exited) × (m'.control ≢ Control.thread p)
exited_never_runs {m'} p r ended steps =
    let still = Steps-exited p r steps ended in
    let consistent = Reachable-IsConsistent (Steps-Reachable r steps) in
    (
      still,
      λ control.
          let (flag, here, there, runs, busy, others) =
            subst (λ c. Agrees c m'.scheduler) control consistent.agrees in
          ground (arith, still, runs),
    )
