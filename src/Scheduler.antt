-- ===== src/Scheduler.antt =====
-- src/kernel/core/scheduler.c: cooperative kernel threads in round-robin order.
-- A task pointer is a number, 0 for the null pointer; the task structures stand in a store. The
-- first words of the stacks, where the guard is, are words of a memory. What the code logs is left
-- out. `scheduler_context_switch` (boot/scheduler.asm) moves control: the functions that call it
-- are cut in two there, and `System` puts the parts together.
pub mod Ring
pub mod Pick
pub mod System
pub mod Invariant
pub mod Reach
pub mod Exited
pub mod Create
pub mod Grow
mod Tests
use termob_kernel.Base.{
  ℕ, zero, suc, ◌+◌, ◌^◌, Bool, true, false, not, ◌&&◌, ◌||◌, bit_and, ltb, leb, ◌==◌,
  if◌then◌else◌,
}
use termob_kernel.Base.Arrays.{set}
use termob_kernel.Base.Words.{add32, sub32, not32}

-- `scheduler_task_state_t`
pub data TaskState : Type 0 where
  idle ready running exited : TaskState

abbrev pub is_ready : TaskState → Bool
is_ready TaskState.ready = true
is_ready _ = false

abbrev pub is_running : TaskState → Bool
is_running TaskState.running = true
is_running _ = false

abbrev pub is_exited : TaskState → Bool
is_exited TaskState.exited = true
is_exited _ = false

-- `scheduler_context_t`
pub record Context : Type 0 where
  pub esp : ℕ
  pub ebp : ℕ
  pub ebx : ℕ
  pub esi : ℕ
  pub edi : ℕ
  pub eflags : ℕ
  pub eip : ℕ

-- `struct scheduler_task`; names, entries and contexts are addresses.
pub record Task : Type 0 where
  pub task_id : ℕ
  pub name : ℕ
  pub entry : ℕ
  pub context : ℕ
  pub state : TaskState
  pub timeslice_ticks : ℕ
  pub slice_ticks : ℕ
  pub total_ticks : ℕ
  pub dispatch_count : ℕ
  pub yield_count : ℕ
  pub exit_count : ℕ
  pub stack_size_bytes : ℕ
  pub stack_base : ℕ
  pub cpu_context : Context
  pub is_idle : Bool
  pub next : ℕ

-- The static variables of the file, the store of tasks and the guard words.
pub record Scheduler : Type 0 where
  pub tasks : ℕ → Task
  pub words : ℕ → ℕ
  pub head : ℕ
  pub tail : ℕ
  pub current : ℕ
  pub last : ℕ
  pub next_task_id : ℕ
  pub total_tasks : ℕ
  pub tick_counter : ℕ
  pub total_dispatches : ℕ
  pub total_yields : ℕ
  pub is_on : Bool
  pub reschedule_pending : Bool
  pub in_thread_context : Bool

-- `&scheduler_idle_task`: an address that is not null, and no multiple of 16 as those of the heap.
abbrev pub idle_task : ℕ
idle_task = 1

-- SCHEDULER_DEFAULT_TIMESLICE_TICKS, SCHEDULER_STACK_GUARD_MAGIC
abbrev pub default_timeslice : ℕ
default_timeslice = 5

abbrev pub guard_magic : ℕ
guard_magic = 0x54424b54

-- `task->field = …`
abbrev pub update_task : Scheduler → ℕ → (Task → Task) → Scheduler
update_task s p f = record s { tasks = set s.tasks p (f (s.tasks p)) }

unfoldable pub link_task : Scheduler → ℕ → Scheduler
link_task s p =
    if s.head == 0
    then update_task (record s { head = p; tail = p }) p (λ t. record t { next = 0 })
    else update_task (record (update_task s s.tail (λ t. record t { next = p })) { tail = p }) p
        (λ t. record t { next = 0 })

unfoldable pub next_task_after : Scheduler → ℕ → ℕ
next_task_after s p = if (p == 0) || ((s.tasks p).next == 0) then s.head else (s.tasks p).next

unfoldable pub stack_guard_ok : Scheduler → ℕ → Bool
stack_guard_ok s p =
    if (p == 0) || (s.tasks p).is_idle
    then true
    else if ((s.tasks p).stack_base == 0) || ltb (s.tasks p).stack_size_bytes 4
    then false
    else s.words (s.tasks p).stack_base == guard_magic

unfoldable pub mark_task_corrupt : Scheduler → ℕ → Scheduler
mark_task_corrupt s p =
    if (p == 0) || is_exited (s.tasks p).state
    then s
    else record (update_task s p (λ t. record t { state = TaskState.exited })) {
      reschedule_pending = true;
    }

-- A ready task that is not the idle one.
abbrev pub is_candidate : Scheduler → ℕ → Bool
is_candidate s p = not (s.tasks p).is_idle && is_ready (s.tasks p).state

-- The loop of `scheduler_has_ready_non_idle_task`; the fuel is `total_tasks`.
unfoldable pub any_candidate : Scheduler → (rounds p : ℕ) → Bool
any_candidate s zero p = false
any_candidate s (suc rounds) p =
    let rest = any_candidate s rounds (s.tasks p).next in
    if p == 0 then false else if is_candidate s p then true else rest

unfoldable pub has_ready_non_idle_task : Scheduler → Bool
has_ready_non_idle_task s = any_candidate s s.total_tasks s.head

-- The loop of `scheduler_pick_next_task`, over the rounds that are left.
unfoldable pub pick_loop : Scheduler → (prefer : Bool) → (rounds p : ℕ) → ℕ
pick_loop s prefer zero p = idle_task
pick_loop s prefer (suc rounds) p =
    let rest = pick_loop s prefer rounds (next_task_after s p) in
    if p == 0
    then idle_task
    else if is_ready (s.tasks p).state && (not prefer || not (s.tasks p).is_idle)
    then p
    else rest

unfoldable pub pick_next_task : Scheduler → ℕ
pick_next_task s =
    if s.head == 0
    then idle_task
    else pick_loop s (has_ready_non_idle_task s) s.total_tasks (next_task_after s s.last)

unfoldable pub handle_tick : Scheduler → Scheduler
handle_tick s =
    if not s.is_on || (s.current == 0)
    then s
    else (let t = s.tasks s.current in
        let slice = add32 t.slice_ticks 1 in
        let spent = not (t.timeslice_ticks == 0) && leb t.timeslice_ticks slice in
        record (update_task s s.current (λ t. record t {
          total_ticks = add32 t.total_ticks 1;
          slice_ticks = if spent then 0 else slice;
        })) {
          tick_counter = add32 s.tick_counter 1;
          reschedule_pending = if spent then true else s.reschedule_pending;
        })

-- `scheduler_dispatch` up to its context switch. The flag says whether the switch is made, to the
-- task `current`; without it the function has returned.
unfoldable pub start_task : Scheduler → ℕ → Scheduler
start_task s p =
    record (update_task s p (λ t. record t {
      state = TaskState.running;
      slice_ticks = 0;
      dispatch_count = add32 t.dispatch_count 1;
    })) {
      last = p;
      current = p;
      total_dispatches = add32 s.total_dispatches 1;
      reschedule_pending = false;
      in_thread_context = true;
    }

unfoldable pub dispatch_to : Scheduler → ℕ → Bool × Scheduler
dispatch_to s p =
    if (p == 0) || (s.tasks p).is_idle
    then (false, record s { current = idle_task; reschedule_pending = false })
    else if not (stack_guard_ok s p)
    then (false, mark_task_corrupt s p)
    else (true, start_task s p)

unfoldable pub dispatch : Scheduler → Bool × Scheduler
dispatch s =
    if not s.is_on || (s.in_thread_context || not s.reschedule_pending)
    then (false, s)
    else dispatch_to s (pick_next_task s)

-- The rest of `scheduler_dispatch`, when control is back in the kernel.
unfoldable pub dispatch_return : Scheduler → Scheduler
dispatch_return s =
    let back = record s { in_thread_context = false; current = idle_task } in
    if has_ready_non_idle_task back then record back { reschedule_pending = true } else back

-- `scheduler_exit_current_task` up to its context switch; with the idle task or none as current
-- it halts.
unfoldable pub exit_task : Scheduler → ℕ → Scheduler
exit_task s p =
    record (update_task s p (λ t. record t {
      state = TaskState.exited;
      slice_ticks = 0;
      exit_count = add32 t.exit_count 1;
    })) { reschedule_pending = true; in_thread_context = false; current = idle_task }

unfoldable pub exit_current_task : Scheduler → Bool × Scheduler
exit_current_task s =
    if (s.current == 0) || (s.tasks s.current).is_idle
    then (false, s)
    else (true, exit_task s s.current)

-- `scheduler_yield` up to its context switch: to the kernel, after the task has yielded or has been
-- ended for a broken stack guard.
pub data Yielded : Type 0 where
  returned left ended : Yielded

unfoldable pub leave_task : Scheduler → ℕ → Scheduler
leave_task s p =
    record (update_task s p (λ t. record t {
      yield_count = add32 t.yield_count 1;
      state = TaskState.ready;
      slice_ticks = 0;
    })) {
      total_yields = add32 s.total_yields 1;
      reschedule_pending = true;
      in_thread_context = false;
      current = idle_task;
    }

unfoldable pub yield : Scheduler → Yielded × Scheduler
yield s =
    if not s.is_on || not s.in_thread_context
    then (returned, s)
    else if (s.current == 0) || (s.tasks s.current).is_idle
    then (returned, s)
    else if not (stack_guard_ok s s.current)
    then (ended, (exit_current_task (mark_task_corrupt s s.current)).1)
    else (left, leave_task s s.current)

-- The rest of `scheduler_yield` in task `p`, when it has been dispatched again.
unfoldable pub yield_return : Scheduler → ℕ → Scheduler
yield_return s p =
    let back = record s { in_thread_context = true; current = p } in
    if is_exited (s.tasks p).state
    then back
    else update_task back p (λ t. record t { state = TaskState.running })
