-- ===== src/Scheduler/Create.antt =====
-- `scheduler_init` and `scheduler_create_kernel_thread`: the stack that a thread gets and how the
-- ring of tasks grows. What `kcalloc` returns for the task and for its stack, 0 when it fails, and
-- the address of `scheduler_task_bootstrap` are arguments.
use termob_kernel.Base.{
  ℕ, ◌+◌, ◌%◌, ◌^◌, ◌≤◌, ◌<◌, ◌≡◌, refl, true, false, not, ◌||◌, arith, ltb, ◌==◌, if◌then◌else◌,
}
use termob_kernel.Base.Arrays.{set}
use termob_kernel.Base.Words.{add32}
use termob_kernel.Base.Bits.{align_up, align_down, align_up_sixteen, align_down_sixteen}
use termob_kernel.Scheduler.{
  Scheduler, Task, Context, TaskState, idle_task, default_timeslice, guard_magic, link_task,
}
use termob_kernel.Scheduler.Ring.{IsRing}

-- SCHEDULER_DEFAULT_STACK_BYTES, SCHEDULER_MIN_STACK_BYTES, SCHEDULER_STACK_ALIGNMENT
abbrev pub default_stack_bytes : ℕ
default_stack_bytes = 4096

abbrev pub min_stack_bytes : ℕ
min_stack_bytes = 2048

abbrev pub stack_alignment : ℕ
stack_alignment = 16

-- The bytes that a thread's stack gets.
unfoldable pub stack_bytes : ℕ → ℕ
stack_bytes size =
    let asked = if size == 0 then default_stack_bytes else size in
    let rounded = align_up asked stack_alignment in
    if ltb rounded min_stack_bytes then min_stack_bytes else rounded

unfoldable pub first_context : (bootstrap stack size : ℕ) → Context
first_context bootstrap stack size = record {
  esp = align_down (add32 stack size) stack_alignment;
  ebp = 0;
  ebx = 0;
  esi = 0;
  edi = 0;
  eflags = 0x202;
  eip = bootstrap;
}

-- The words that a thread is created from.
pub record Request : Type 0 where
  pub thread_name : ℕ
  pub thread_entry : ℕ
  pub thread_context : ℕ
  pub size : ℕ
  pub bootstrap : ℕ
  pub task : ℕ
  pub stack : ℕ

abbrev pub new_task : Scheduler → Request → Task
new_task s q = record {
  task_id = s.next_task_id;
  name = q.thread_name;
  entry = q.thread_entry;
  context = q.thread_context;
  state = TaskState.ready;
  timeslice_ticks = default_timeslice;
  slice_ticks = 0;
  total_ticks = 0;
  dispatch_count = 0;
  yield_count = 0;
  exit_count = 0;
  stack_size_bytes = stack_bytes q.size;
  stack_base = q.stack;
  cpu_context = first_context q.bootstrap q.stack (stack_bytes q.size);
  is_idle = false;
  next = 0;
}

abbrev pub with_task : Scheduler → Request → Scheduler
with_task s q = record s {
  tasks = set s.tasks q.task (new_task s q);
  words = set s.words q.stack guard_magic;
  next_task_id = add32 s.next_task_id 1;
}

unfoldable pub create_kernel_thread : Scheduler → Request → ℕ × Scheduler
create_kernel_thread s q =
    if (not s.is_on) || ((q.thread_name == 0) || (q.thread_entry == 0))
    then (0, s)
    else if q.task == 0
    then (0, s)
    else if q.stack == 0
    then (0, s)
    else (
      q.task,
      record (link_task (with_task s q) q.task) {
        total_tasks = add32 s.total_tasks 1;
        reschedule_pending = true;
      },
    )

abbrev pub idle_record : Task
idle_record = record {
  task_id = 0;
  name = 1;
  entry = 0;
  context = 0;
  state = TaskState.ready;
  timeslice_ticks = default_timeslice;
  slice_ticks = 0;
  total_ticks = 0;
  dispatch_count = 0;
  yield_count = 0;
  exit_count = 0;
  stack_size_bytes = 0;
  stack_base = 0;
  cpu_context = record { esp = 0; ebp = 0; ebx = 0; esi = 0; edi = 0; eflags = 0x202; eip = 0 };
  is_idle = true;
  next = 0;
}

-- `scheduler_init`, whatever the statics were before.
unfoldable pub init : Scheduler → Scheduler
init s =
    record (link_task
      (record s {
        tasks = set s.tasks idle_task idle_record;
        head = 0;
        tail = 0;
        next_task_id = 1;
        tick_counter = 0;
        total_dispatches = 0;
        total_yields = 0;
        in_thread_context = false;
      })
      idle_task) {
        total_tasks = 1;
        current = idle_task;
        last = idle_task;
        is_on = true;
        reschedule_pending = true;
      }

-- A thread's stack has at least 2048 bytes, in whole units of 16, and at least as many as were asked
-- for, except in the last 15 sizes below 4 GiB: rounding these up wraps, and the thread gets 2048 bytes.
pub stack_bytes_lem :
    (size : ℕ)
    → size < 2 ^ 32
    → (2048 ≤ stack_bytes size)
      × (stack_bytes size % 16 ≡ 0)
      × (size ≤ 0xfffffff0 → size ≤ stack_bytes size)
      × (0xfffffff0 < size → stack_bytes size ≡ 2048)
unfolding stack_bytes
stack_bytes_lem size h = ground (arith, align_up_sixteen size, align_up_sixteen 4096)

-- The first stack pointer of a thread is aligned, and it is the end of its stack when the stack
-- itself is aligned.
pub first_context-esp :
    (bootstrap stack size : ℕ)
    → stack + stack_bytes size < 2 ^ 32
    → size < 2 ^ 32
    → ((first_context bootstrap stack (stack_bytes size)).esp % 16 ≡ 0)
      × ((first_context bootstrap stack (stack_bytes size)).esp ≤ stack + stack_bytes size)
      × (stack < (first_context bootstrap stack (stack_bytes size)).esp)
unfolding first_context
first_context-esp bootstrap stack size h h' =
    let e = align_down_sixteen (add32 stack (stack_bytes size)) (omega arith) in
    let big = (stack_bytes_lem size h').0 in ground arith

pub init-IsRing : (s : Scheduler) → IsRing (init s) (λ _. idle_task)
unfolding init link_task
init-IsRing s = record {
  some_task = omega arith;
  few = omega arith;
  head = refl;
  tail = refl;
  link = λ i h. absurd (omega arith);
  ends = λ i h. refl;
  non_null = λ i h. omega arith;
  distinct = λ i j h h' e. omega arith;
  first = refl;
  idle_first = refl;
  others = λ i h h'. absurd (omega arith);
}
