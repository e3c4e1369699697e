-- ===== src/Scheduler/Invariant.antt =====
-- Every step keeps the scheduler's variables in agreement with who has control.
use mathlib.Core.Path.{subst}
use termob_kernel.Base.{
  ℕ, ◌≡◌, ◌≢◌, refl, sym, ap, ◌∙◌, true, false, not, ◌||◌, inl, inr, arith, Bool-cases,
}
use termob_kernel.Scheduler.{
  Scheduler, TaskState, handle_tick, dispatch, dispatch_to, dispatch_return, start_task,
  mark_task_corrupt, exit_task, exit_current_task, leave_task, Yielded, yield, yield_return,
  stack_guard_ok, pick_next_task, link_task,
}
use termob_kernel.Scheduler.Create.{Request, create_kernel_thread}
use termob_kernel.Scheduler.System.{Control, Machine, Step, Agrees}

-- A record of the facts that the timer, the creation of a thread and a write to memory keep.
handle_tick-frame : (s : Scheduler) (p : ℕ) → ((handle_tick s).tasks p).state ≡ (s.tasks p).state
unfolding handle_tick
handle_tick-frame s p = ground arith

handle_tick-flags :
    (s : Scheduler)
    → ((handle_tick s).is_on ≡ s.is_on)
      × ((handle_tick s).current ≡ s.current)
      × ((handle_tick s).in_thread_context ≡ s.in_thread_context)
unfolding handle_tick
handle_tick-flags s = ground arith

handle_tick-idle : (s : Scheduler) (p : ℕ) → ((handle_tick s).tasks p).is_idle ≡ (s.tasks p).is_idle
unfolding handle_tick
handle_tick-idle s p = ground arith

tick-Agrees : (c : Control) (s : Scheduler) → Agrees c s → Agrees c (handle_tick s)
tick-Agrees Control.kernel s (a, b, others) =
    let (on, current, flag) = handle_tick-flags s in
    (flag ∙ a, current ∙ b, λ p e. others p (sym (handle_tick-frame s p) ∙ e))
tick-Agrees (Control.thread t) s (a, b, some_task, runs, busy, others) =
    let (on, current, flag) = handle_tick-flags s in
    (
      flag ∙ a,
      current ∙ b,
      some_task,
      handle_tick-frame s t ∙ runs,
      handle_tick-idle s t ∙ busy,
      λ p ne e. others p ne (sym (handle_tick-frame s p) ∙ e),
    )

pub create_kernel_thread-flags :
    (s : Scheduler) (q : Request)
    → ((create_kernel_thread s q).1.is_on ≡ s.is_on)
      × ((create_kernel_thread s q).1.current ≡ s.current)
      × ((create_kernel_thread s q).1.in_thread_context ≡ s.in_thread_context)
unfolding create_kernel_thread link_task
create_kernel_thread-flags s q = ground arith

pub create_kernel_thread-others :
    (s : Scheduler) (q : Request) (p : ℕ)
    → p ≢ q.task
    → (((create_kernel_thread s q).1.tasks p).state ≡ (s.tasks p).state)
      × (((create_kernel_thread s q).1.tasks p).is_idle ≡ (s.tasks p).is_idle)
unfolding create_kernel_thread link_task
create_kernel_thread-others s q p new = ground arith

create_kernel_thread-running :
    (s : Scheduler) (q : Request) (p : ℕ)
    → (s.tasks p).state ≢ TaskState.running
    → ((create_kernel_thread s q).1.tasks p).state ≢ TaskState.running
unfolding create_kernel_thread link_task
create_kernel_thread-running s q p h = ground arith

create-Agrees :
    (c : Control) (s : Scheduler) (q : Request)
    → (s.tasks q.task).state ≡ TaskState.idle
    → Agrees c s
    → Agrees c (create_kernel_thread s q).1
create-Agrees Control.kernel s q new (a, b, others) =
    let (on, current, flag) = create_kernel_thread-flags s q in
    (flag ∙ a, current ∙ b, λ p. create_kernel_thread-running s q p (others p))
create-Agrees (Control.thread t) s q new (a, b, some_task, runs, busy, others) =
    let (on, current, flag) = create_kernel_thread-flags s q in
    let other : t ≢ q.task = λ e.
      let same : (s.tasks t).state ≡ (s.tasks q.task).state = ap (λ p. (s.tasks p).state) e in
      ground arith in
    let (state, idle) = create_kernel_thread-others s q t other in
    (
      flag ∙ a,
      current ∙ b,
      some_task,
      state ∙ runs,
      idle ∙ busy,
      λ p ne. create_kernel_thread-running s q p (others p ne),
    )

-- The kernel's half of a dispatch. Without a switch nothing runs; with one the chosen task does.
dispatch_to-stay :
    (s : Scheduler) (p : ℕ)
    → Agrees Control.kernel s
    → (dispatch_to s p).0 ≡ false
    → Agrees Control.kernel (dispatch_to s p).1
unfolding dispatch_to mark_task_corrupt
dispatch_to-stay s p h stays = ground arith

dispatch_to-true :
    (s : Scheduler) (p : ℕ)
    → (dispatch_to s p).0 ≡ true
    → ((dispatch_to s p).1 ≡ start_task s p)
      × (p ≢ 0)
      × ((s.tasks p).is_idle ≡ false)
      × (stack_guard_ok s p ≡ true)
unfolding dispatch_to
dispatch_to-true s p h = ground arith

dispatch-true :
    (s : Scheduler) → (dispatch s).0 ≡ true → dispatch s ≡ dispatch_to s (pick_next_task s)
unfolding dispatch
dispatch-true s h = ground arith

-- A dispatch switches to the task that `pick_next_task` gives: never to the idle task, and never to
-- a task whose stack guard is broken.
pub dispatch-switches :
    (s : Scheduler)
    → (dispatch s).0 ≡ true
    → ((dispatch s).1 ≡ start_task s (pick_next_task s))
      × (pick_next_task s ≢ 0)
      × ((s.tasks (pick_next_task s)).is_idle ≡ false)
      × (stack_guard_ok s (pick_next_task s) ≡ true)
dispatch-switches s h =
    let e = dispatch-true s h in
    let (to, there, busy, guard) =
      dispatch_to-true s (pick_next_task s) (ap (λ x. x.0) (sym e) ∙ h) in
    (ap (λ x. x.1) e ∙ to, there, busy, guard)

dispatch_stay-Agrees :
    (s : Scheduler)
    → Agrees Control.kernel s
    → (dispatch s).0 ≡ false
    → Agrees Control.kernel (dispatch s).1
unfolding dispatch
dispatch_stay-Agrees s h stays =
    elim (Bool-cases (not s.is_on || (s.in_thread_context || not s.reschedule_pending))) [
      | inl off ↦ rw off h
      | inr on ↦ rw on (dispatch_to-stay s (pick_next_task s) h (ground (arith, stays)))
    ]

start_task-Agrees :
    (s : Scheduler) (p : ℕ)
    → Agrees Control.kernel s
    → p ≢ 0
    → (s.tasks p).is_idle ≡ false
    → Agrees (Control.thread p) (start_task s p)
unfolding start_task
start_task-Agrees s p h some_task busy = ground arith

yield_return-Agrees :
    (s : Scheduler) (p : ℕ)
    → Agrees (Control.thread p) s
    → Agrees (Control.thread p) (yield_return s p)
unfolding yield_return
yield_return-Agrees s p h = ground arith

dispatch_return-Agrees :
    (s : Scheduler)
    → ((p : ℕ) → (s.tasks p).state ≢ TaskState.running)
    → Agrees Control.kernel (dispatch_return s)
unfolding dispatch_return
dispatch_return-Agrees s h = ground arith

leave-none_running :
    (s : Scheduler) (t : ℕ)
    → Agrees (Control.thread t) s
    → (yield s).0 ≢ Yielded.returned
    → (p : ℕ) → ((yield s).1.tasks p).state ≢ TaskState.running
unfolding yield leave_task exit_current_task exit_task mark_task_corrupt
leave-none_running s t (flag, here, some_task, runs, busy, others) ends p = ground (arith, others p)

exit-none_running :
    (s : Scheduler) (t : ℕ)
    → Agrees (Control.thread t) s
    → (exit_current_task s).0 ≡ true
    → (p : ℕ) → ((exit_current_task s).1.tasks p).state ≢ TaskState.running
unfolding exit_current_task exit_task
exit-none_running s t (flag, here, some_task, runs, busy, others) ends p = ground (arith, others p)

pub yield-returned : (s : Scheduler) → (yield s).0 ≡ Yielded.returned → (yield s).1 ≡ s
unfolding yield
yield-returned s h = ground arith

start_task-current : (s : Scheduler) (p : ℕ) → (start_task s p).current ≡ p
unfolding start_task
start_task-current s p = refl

-- A switch hands control to the current task, which then runs.
switch-Agrees :
    (s : Scheduler)
    → Agrees Control.kernel s
    → (dispatch s).0 ≡ true
    → Agrees (Control.thread (dispatch s).1.current) (dispatch s).1
switch-Agrees s h switches =
    let (to, there, busy, guard) = dispatch-switches s switches in
    let p : ℕ = pick_next_task s in
    let e : (dispatch s).1.current ≡ p = ap (λ x. x.current) to ∙ start_task-current s p in
    subst (λ c. Agrees (Control.thread c) (dispatch s).1) (sym e)
      (subst (Agrees (Control.thread p)) (sym to) (start_task-Agrees s p h there busy))

pub Step-Agrees :
    {m m' : Machine} → Step m m' → Agrees m.control m.scheduler → Agrees m'.control m'.scheduler
Step-Agrees (Step.tick c s) h = tick-Agrees c s h
Step-Agrees (Step.write_memory Control.kernel s w) h = h
Step-Agrees (Step.write_memory (Control.thread t) s w) h = h
Step-Agrees (Step.create c s q new) h = create-Agrees c s q new h
Step-Agrees (Step.stay s stays) h = dispatch_stay-Agrees s h stays
Step-Agrees (Step.begin s switches) h = switch-Agrees s h switches
Step-Agrees (Step.go_on s switches) h =
    yield_return-Agrees (dispatch s).1 (dispatch s).1.current (switch-Agrees s h switches)
Step-Agrees (Step.keep_on p s stays) h =
    subst (Agrees (Control.thread p)) (sym (yield-returned s stays)) h
Step-Agrees (Step.yields p s leaves) h =
    dispatch_return-Agrees (yield s).1 (leave-none_running s p h leaves)
Step-Agrees (Step.exits p s leaves) h =
    dispatch_return-Agrees (exit_current_task s).1 (exit-none_running s p h leaves)
