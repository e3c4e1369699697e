-- ===== src/Scheduler/Tests.antt =====
-- Runs of core/scheduler.c with two threads, and the theorems applied to them.
use termob_kernel.Base.{ℕ, zero, suc, ◌+◌, ◌<◌, ◌≡◌, ◌≢◌, refl, true, false, arith}
use termob_kernel.Base.Arrays.{set}
use termob_kernel.Scheduler.{
  Scheduler, TaskState, idle_task, is_candidate, link_task, pick_loop, any_candidate,
  has_ready_non_idle_task, next_task_after, pick_next_task, dispatch, dispatch_to, dispatch_return,
  start_task, stack_guard_ok, exit_current_task, exit_task,
}
use termob_kernel.Base.Bits.{align_up}
use termob_kernel.Scheduler.Ring.{IsRing}
use termob_kernel.Scheduler.Pick.{IsRun, distance, pick_next_task-first, no_starvation}
use termob_kernel.Scheduler.System.{Control, Machine, Step, IsConsistent, Reachable}
use termob_kernel.Scheduler.Create.{
  Request, init, create_kernel_thread, stack_bytes, idle_record, init-IsRing,
}
use termob_kernel.Scheduler.Grow.{Grantable, create_kernel_thread-IsRing}
use termob_kernel.Scheduler.Reach.{Reachable-IsConsistent}
use termob_kernel.Scheduler.Exited.{Steps, exited_never_runs}

-- The machine before the first call: zeroed memory.
abbrev blank : Scheduler
blank = record {
  tasks = λ _. record idle_record { state = TaskState.idle; is_idle = false };
  words = λ _. 0;
  head = 0;
  tail = 0;
  current = 0;
  last = 0;
  next_task_id = 0;
  total_tasks = 0;
  tick_counter = 0;
  total_dispatches = 0;
  total_yields = 0;
  is_on = false;
  reschedule_pending = false;
  in_thread_context = false;
}

abbrev request : (task stack : ℕ) → Request
request task stack = record {
  thread_name = 7;
  thread_entry = 9;
  thread_context = 0;
  size = 3000;
  bootstrap = 11;
  task = task;
  stack = stack;
}

abbrev first_request : Request
first_request = request 0x1000 0x2000

abbrev second_request : Request
second_request = request 0x4000 0x5000

abbrev one_thread : Scheduler
one_thread = (create_kernel_thread (init blank) first_request).1

abbrev two_threads : Scheduler
two_threads = (create_kernel_thread one_thread second_request).1

abbrev node_one : ℕ → ℕ
node_one = set (λ _. idle_task) 1 0x1000

abbrev node_two : ℕ → ℕ
node_two = set node_one 2 0x4000

first_granted : Grantable (init blank) (λ _. idle_task) first_request
unfolding init link_task
first_granted = record {
  is_on = refl;
  named = omega arith;
  entered = omega arith;
  task_there = omega arith;
  stack_there = omega arith;
  new = λ i h. omega arith;
  room = omega arith;
  word_size = omega arith;
}

create_kernel_thread-IsRing_example :
    ((create_kernel_thread (init blank) first_request).0 ≡ 0x1000)
    × IsRing
        (create_kernel_thread (init blank) first_request).1
        (set (λ _. idle_task) (init blank).total_tasks 0x1000)
    × ((create_kernel_thread (init blank) first_request).1.total_tasks
        ≡ (init blank).total_tasks + 1)
    × (is_candidate (create_kernel_thread (init blank) first_request).1 0x1000 ≡ true)
    × (stack_guard_ok (create_kernel_thread (init blank) first_request).1 0x1000 ≡ true)
    × ((create_kernel_thread (init blank) first_request).1.reschedule_pending ≡ true)
create_kernel_thread-IsRing_example = create_kernel_thread-IsRing (init-IsRing blank) first_granted

one_thread-IsRing : IsRing one_thread node_one
unfolding init link_task
one_thread-IsRing =
    let (at, r, total, ready, guard, again) =
      create_kernel_thread-IsRing (init-IsRing blank) first_granted in
    r

second_granted : Grantable one_thread node_one second_request
unfolding init link_task create_kernel_thread
second_granted = record {
  is_on = refl;
  named = omega arith;
  entered = omega arith;
  task_there = omega arith;
  stack_there = omega arith;
  new = λ i h. ground arith;
  room = omega arith;
  word_size = omega arith;
}

two_threads-IsRing : IsRing two_threads node_two
unfolding init link_task create_kernel_thread
two_threads-IsRing =
    let (at, r, total, ready, guard, again) =
      create_kernel_thread-IsRing one_thread-IsRing second_granted in
    r

-- The idle task ran last; the first thread comes next.
pick_two : pick_next_task two_threads ≡ 0x1000
unfolding init link_task create_kernel_thread pick_next_task pick_loop next_task_after
    has_ready_non_idle_task any_candidate
pick_two = refl

pick_next_task-first_example :
    (p : ℕ) × (p < 3)
    × (pick_next_task two_threads ≡ node_two p)
    × (is_candidate two_threads (node_two p) ≡ true)
    × ((q : ℕ)
        → q < 3
        → distance 3 0 q < distance 3 0 p
        → is_candidate two_threads (node_two q) ≡ false)
unfolding init link_task create_kernel_thread
pick_next_task-first_example =
    pick_next_task-first two_threads-IsRing (omega arith) refl 2 (omega arith) refl

-- The states in which a task is chosen, when both threads yield each time that they run.
abbrev turns : ℕ → Scheduler
turns zero = two_threads
turns (suc i) = record two_threads { last = pick_next_task (turns i) }

turns-total : (i : ℕ) → (turns i).total_tasks ≡ 3
unfolding init link_task create_kernel_thread
turns-total zero = refl
turns-total (suc i) = refl

turns-IsRing : (i : ℕ) → IsRing (turns i) node_two
turns-IsRing zero = two_threads-IsRing
turns-IsRing (suc i) = record {
  some_task = two_threads-IsRing.some_task;
  few = two_threads-IsRing.few;
  head = two_threads-IsRing.head;
  tail = two_threads-IsRing.tail;
  link = two_threads-IsRing.link;
  ends = two_threads-IsRing.ends;
  non_null = two_threads-IsRing.non_null;
  distinct = two_threads-IsRing.distinct;
  first = two_threads-IsRing.first;
  idle_first = two_threads-IsRing.idle_first;
  others = two_threads-IsRing.others;
}

turns-IsRun : IsRun turns node_two 3
turns-IsRun = record { rings = turns-IsRing; total = turns-total; follows = λ i. refl }

turns-ready : (i : ℕ) → is_candidate (turns i) (node_two 2) ≡ true
unfolding init link_task create_kernel_thread
turns-ready zero = refl
turns-ready (suc i) = refl

turns-last : (turns 0).last ≡ node_two 0
unfolding init link_task create_kernel_thread
turns-last = refl

no_starvation_example : (i : ℕ) × (i < 3) × (pick_next_task (turns i) ≡ node_two 2)
no_starvation_example =
    no_starvation 0 2 turns-IsRun (omega arith) turns-last (omega arith) turns-ready

two_switches : (dispatch two_threads).0 ≡ true
unfolding init link_task create_kernel_thread pick_next_task pick_loop next_task_after
    has_ready_non_idle_task any_candidate dispatch dispatch_to stack_guard_ok stack_bytes align_up
two_switches = refl

-- Both threads are created, the first is switched to, and it exits.
abbrev machine : Control → Scheduler → Machine
machine c s = record { control = c; scheduler = s }

abbrev first_runs : Scheduler
first_runs = (dispatch two_threads).1

abbrev first_ended : Scheduler
first_ended = dispatch_return (exit_current_task first_runs).1

reach_two : Reachable (machine Control.kernel two_threads)
unfolding init link_task create_kernel_thread
reach_two =
    Reachable.next
      (Reachable.next (Reachable.start blank (λ p. refl))
        (Step.create Control.kernel (init blank) first_request refl))
      (Step.create Control.kernel one_thread second_request refl)

reach_run : Reachable (machine (Control.thread first_runs.current) first_runs)
reach_run = Reachable.next reach_two (Step.begin two_threads two_switches)

first_exits : (exit_current_task first_runs).0 ≡ true
unfolding init link_task create_kernel_thread pick_next_task pick_loop next_task_after
    has_ready_non_idle_task any_candidate dispatch dispatch_to stack_guard_ok stack_bytes align_up
    start_task exit_current_task
first_exits = refl

reach_end : Reachable (machine Control.kernel first_ended)
reach_end = Reachable.next reach_run (Step.exits first_runs.current first_runs first_exits)

Reachable-IsConsistent_example :
    IsConsistent (machine (Control.thread first_runs.current) first_runs)
Reachable-IsConsistent_example = Reachable-IsConsistent reach_run

first_exited : (first_ended.tasks 0x1000).state ≡ TaskState.exited
unfolding init link_task create_kernel_thread pick_next_task pick_loop next_task_after
    has_ready_non_idle_task any_candidate dispatch dispatch_to stack_guard_ok stack_bytes align_up
    start_task exit_current_task exit_task dispatch_return
first_exited = refl

second_switches : (dispatch first_ended).0 ≡ true
unfolding init link_task create_kernel_thread pick_next_task pick_loop next_task_after
    has_ready_non_idle_task any_candidate dispatch dispatch_to stack_guard_ok stack_bytes align_up
    start_task exit_current_task exit_task dispatch_return
second_switches = refl

exited_never_runs_example :
    (((dispatch first_ended).1.tasks 0x1000).state ≡ TaskState.exited)
    × (Control.thread (dispatch first_ended).1.current ≢ Control.thread 0x1000)
exited_never_runs_example =
    exited_never_runs 0x1000 reach_end first_exited
      (Steps.more Steps.none (Step.begin first_ended second_switches))
