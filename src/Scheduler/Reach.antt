-- ===== src/Scheduler/Reach.antt =====
-- The consistency of every reachable machine; a thread that has ended never gets control again.
use termob_kernel.Base.{ℕ, ◌≡◌, ◌≢◌, refl, ap, ◌∙◌, true, false, arith}
use termob_kernel.Scheduler.{
  Scheduler, TaskState, idle_task, handle_tick, dispatch, dispatch_to, dispatch_return, start_task,
  mark_task_corrupt, exit_task, exit_current_task, leave_task, yield, yield_return, link_task,
}
use termob_kernel.Scheduler.Create.{Request, init, create_kernel_thread}
use termob_kernel.Scheduler.System.{Control, Machine, Step, Agrees, IsConsistent, Reachable}
use termob_kernel.Scheduler.Invariant.{
  create_kernel_thread-flags, create_kernel_thread-others, Step-Agrees,
}

-- What each operation keeps of the idle task, and that the scheduler is on.
abbrev pub IdleKept : Scheduler → Type 0
IdleKept s =
    (s.is_on ≡ true)
    × ((s.tasks idle_task).is_idle ≡ true)
    × ((s.tasks idle_task).state ≡ TaskState.ready)

dispatch-IdleKept : (s : Scheduler) → IdleKept s → IdleKept (dispatch s).1
unfolding dispatch dispatch_to start_task mark_task_corrupt
dispatch-IdleKept s h = ground arith

dispatch_return-IdleKept : (s : Scheduler) → IdleKept s → IdleKept (dispatch_return s)
unfolding dispatch_return
dispatch_return-IdleKept s h = ground arith

yield-IdleKept : (s : Scheduler) → IdleKept s → IdleKept (yield s).1
unfolding yield leave_task exit_current_task exit_task mark_task_corrupt
yield-IdleKept s h = ground arith

exit-IdleKept : (s : Scheduler) → IdleKept s → IdleKept (exit_current_task s).1
unfolding exit_current_task exit_task
exit-IdleKept s h = ground arith

handle_tick-IdleKept : (s : Scheduler) → IdleKept s → IdleKept (handle_tick s)
unfolding handle_tick
handle_tick-IdleKept s h = ground arith

create-IdleKept :
    (s : Scheduler) (q : Request)
    → (s.tasks q.task).state ≡ TaskState.idle
    → IdleKept s
    → IdleKept (create_kernel_thread s q).1
create-IdleKept s q new (on, idle, ready) =
    let other : idle_task ≢ q.task = λ e.
      let same : (s.tasks idle_task).state ≡ (s.tasks q.task).state =
        ap (λ p. (s.tasks p).state) e in
      ground arith in
    let (state, marked) = create_kernel_thread-others s q idle_task other in
    let (flag, current, thread_flag) = create_kernel_thread-flags s q in
    (flag ∙ on, marked ∙ idle, state ∙ ready)

yield_return-IdleKept :
    (s : Scheduler) (p : ℕ) → (s.tasks p).is_idle ≡ false → IdleKept s → IdleKept (yield_return s p)
unfolding yield_return
yield_return-IdleKept s p busy h = ground arith

Step-IdleKept :
    {m m' : Machine}
    → Step m m'
    → Agrees m.control m.scheduler
    → IdleKept m.scheduler
    → IdleKept m'.scheduler
Step-IdleKept (Step.tick c s) a h = handle_tick-IdleKept s h
Step-IdleKept (Step.write_memory c s w) a h = h
Step-IdleKept (Step.create c s q new) a h = create-IdleKept s q new h
Step-IdleKept (Step.stay s stays) a h = dispatch-IdleKept s h
Step-IdleKept (Step.begin s switches) a h = dispatch-IdleKept s h
Step-IdleKept (Step.go_on s switches) a h =
    let (flag, current, there, runs, busy, others) = Step-Agrees (Step.begin s switches) a in
    yield_return-IdleKept (dispatch s).1 (dispatch s).1.current busy (dispatch-IdleKept s h)
Step-IdleKept (Step.keep_on p s stays) a h = yield-IdleKept s h
Step-IdleKept (Step.yields p s leaves) a h =
    dispatch_return-IdleKept (yield s).1 (yield-IdleKept s h)
Step-IdleKept (Step.exits p s leaves) a h =
    dispatch_return-IdleKept (exit_current_task s).1 (exit-IdleKept s h)

init-Agrees :
    (s : Scheduler)
    → ((p : ℕ) → (s.tasks p).state ≡ TaskState.idle)
    → Agrees Control.kernel (init s)
unfolding init link_task
init-Agrees s h = (refl, refl, λ p. ground (arith, h p))

init-IdleKept : (s : Scheduler) → IdleKept (init s)
unfolding init link_task
init-IdleKept s = (refl, refl, refl)

-- In every machine that can be reached, whatever the order of the timer, the threads and the kernel,
-- the scheduler is on, its flag and its current task say who has control, that task is the only one
-- that is running, and the idle task stays ready.
pub Reachable-IsConsistent : {m : Machine} → Reachable m → IsConsistent m
Reachable-IsConsistent (Reachable.start s h) =
    let (on, marked, ready) = init-IdleKept s in
    record { on = on; idle_marked = marked; idle_ready = ready; agrees = init-Agrees s h }
Reachable-IsConsistent (Reachable.next r step) =
    let h = Reachable-IsConsistent r in
    let (on, marked, ready) = Step-IdleKept step h.agrees (h.on, h.idle_marked, h.idle_ready) in
    record { on = on; idle_marked = marked; idle_ready = ready; agrees = Step-Agrees step h.agrees }
