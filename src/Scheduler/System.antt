-- ===== src/Scheduler/System.antt =====
-- The machine around core/scheduler.c: who has control, and what can happen next. The calls of the
-- scheduler are put together here with the switches of boot/scheduler.asm between their halves.
use termob_kernel.Base.{ℕ, ◌≡◌, ◌≢◌, true, false}
use termob_kernel.Scheduler.{
  Scheduler, TaskState, idle_task, handle_tick, dispatch, dispatch_return, exit_current_task,
  Yielded, yield, yield_return,
}
use termob_kernel.Scheduler.Create.{Request, init, create_kernel_thread}

-- The kernel's loop has control, or the code of the task at an address.
pub data Control : Type 0 where
  kernel : Control
  thread : ℕ → Control

pub record Machine : Type 0 where
  pub control : Control
  pub scheduler : Scheduler

-- What can happen. The timer and the creation of a thread come at any time; memory is written by
-- everybody. A task that is switched to begins its entry function or goes on behind its last yield.
-- The heap gives a new task memory that holds none, and is no task's, so its state is `idle`, which
-- no task on the list has.
pub data Step : Machine → Machine → Type 0 where
  tick :
      (c : Control) (s : Scheduler)
      → Step
          (record { control = c; scheduler = s })
          (record { control = c; scheduler = handle_tick s })
  write_memory :
      (c : Control) (s : Scheduler) (w : ℕ → ℕ)
      → Step
          (record { control = c; scheduler = s })
          (record { control = c; scheduler = record s { words = w } })
  create :
      (c : Control) (s : Scheduler) (q : Request)
      → (s.tasks q.task).state ≡ TaskState.idle
      → Step
          (record { control = c; scheduler = s })
          (record { control = c; scheduler = (create_kernel_thread s q).1 })
  stay :
      (s : Scheduler)
      → (dispatch s).0 ≡ false
      → Step
          (record { control = kernel; scheduler = s })
          (record { control = kernel; scheduler = (dispatch s).1 })
  begin :
      (s : Scheduler)
      → (dispatch s).0 ≡ true
      → Step
          (record { control = kernel; scheduler = s })
          (record { control = thread (dispatch s).1.current; scheduler = (dispatch s).1 })
  go_on :
      (s : Scheduler)
      → (dispatch s).0 ≡ true
      → Step
          (record { control = kernel; scheduler = s })
          (record {
            control = thread (dispatch s).1.current;
            scheduler = yield_return (dispatch s).1 (dispatch s).1.current;
          })
  keep_on :
      (p : ℕ) (s : Scheduler)
      → (yield s).0 ≡ Yielded.returned
      → Step
          (record { control = thread p; scheduler = s })
          (record { control = thread p; scheduler = (yield s).1 })
  yields :
      (p : ℕ) (s : Scheduler)
      → (yield s).0 ≢ Yielded.returned
      → Step
          (record { control = thread p; scheduler = s })
          (record { control = kernel; scheduler = dispatch_return (yield s).1 })
  exits :
      (p : ℕ) (s : Scheduler)
      → (exit_current_task s).0 ≡ true
      → Step
          (record { control = thread p; scheduler = s })
          (record { control = kernel; scheduler = dispatch_return (exit_current_task s).1 })

-- What the scheduler's variables say agrees with who has control: the flag and the current task, and
-- that task alone is running.
abbrev pub Agrees : Control → Scheduler → Type 0
Agrees kernel s =
    (s.in_thread_context ≡ false)
    × (s.current ≡ idle_task)
    × ((p : ℕ) → (s.tasks p).state ≢ TaskState.running)
Agrees (thread t) s =
    (s.in_thread_context ≡ true)
    × (s.current ≡ t)
    × (t ≢ 0)
    × ((s.tasks t).state ≡ TaskState.running)
    × ((s.tasks t).is_idle ≡ false)
    × ((p : ℕ) → p ≢ t → (s.tasks p).state ≢ TaskState.running)

pub record IsConsistent (m : Machine) : Type 0 where
  pub on : m.scheduler.is_on ≡ true
  pub idle_marked : (m.scheduler.tasks idle_task).is_idle ≡ true
  pub idle_ready : (m.scheduler.tasks idle_task).state ≡ TaskState.ready
  pub agrees : Agrees m.control m.scheduler

-- Before the first call the statics and the heap hold no running task.
pub data Reachable : Machine → Type 0 where
  start :
      (s : Scheduler)
      → ((p : ℕ) → (s.tasks p).state ≡ TaskState.idle)
      → Reachable (record { control = kernel; scheduler = init s })
  next : {m m' : Machine} → Reachable m → Step m m' → Reachable m'
