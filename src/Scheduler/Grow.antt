-- ===== src/Scheduler/Grow.antt =====
-- `scheduler_create_kernel_thread` puts the new thread at the end of the ring.
use termob_kernel.Base.{
  ℕ, ◌+◌, ◌-◌, ◌^◌, ◌<◌, ◌≡◌, ◌≢◌, refl, sym, ap, ◌∙◌, true, false, not, ◌&&◌, inl, inr, arith, ltb,
  ◌==◌, Bool-cases,
}
use termob_kernel.Base.Arrays.{set}
use termob_kernel.Base.Words.{add32}
use termob_kernel.Scheduler.{
  Scheduler, is_ready, is_candidate, update_task, link_task, stack_guard_ok,
}
use termob_kernel.Scheduler.Ring.{IsRing}
use termob_kernel.Scheduler.Create.{
  Request, new_task, with_task, create_kernel_thread, stack_bytes, stack_bytes_lem,
}

-- A request for a thread that can be granted: the scheduler is on, the name and the entry are there,
-- and the heap has memory for the task, behind none of the tasks there are, and for its stack.
pub record Grantable (s : Scheduler) (node : ℕ → ℕ) (q : Request) : Type 0 where
  pub is_on : s.is_on ≡ true
  pub named : q.thread_name ≢ 0
  pub entered : q.thread_entry ≢ 0
  pub task_there : q.task ≢ 0
  pub stack_there : q.stack ≢ 0
  pub new : (i : ℕ) → i < s.total_tasks → node i ≢ q.task
  pub room : s.total_tasks + 1 < 2 ^ 32
  pub word_size : q.size < 2 ^ 32

module _ {s : Scheduler} {node : ℕ → ℕ} {q : Request} (r : IsRing s node)
    (g : Grantable s node q) where
  abbrev n : ℕ
  n = s.total_tasks

  -- The scheduler behind a granted request, written out.
  abbrev grown : Scheduler
  grown =
      record (update_task
        (record (update_task (with_task s q) s.tail (λ t. record t { next = q.task })) {
          tail = q.task;
        })
        q.task (λ t. record t { next = 0 })) {
          total_tasks = add32 s.total_tasks 1;
          reschedule_pending = true;
        }

  granted : create_kernel_thread s q ≡ (q.task, grown)
  unfolding create_kernel_thread link_task
  granted =
      let named : (q.thread_name == 0) ≡ false = ground (arith, g.named) in
      let entered : (q.thread_entry == 0) ≡ false = ground (arith, g.entered) in
      let task : (q.task == 0) ≡ false = ground (arith, g.task_there) in
      let stack : (q.stack == 0) ≡ false = ground (arith, g.stack_there) in
      let some_head : (s.head == 0) ≡ false = ground (arith, r.head, r.non_null 0 r.some_task) in
      rw (g.is_on, named, entered, task, stack, some_head)

  -- The tasks after a granted request: the new one, the one that was last, the others.
  grown-new : grown.tasks q.task ≡ new_task s q
  grown-new =
      let here : (q.task == q.task) ≡ true = ground arith in
      let last : (q.task == s.tail) ≡ false =
        ground (arith, r.tail, g.new (n - 1) (omega (arith, r.some_task))) in
      rw (here, last)

  grown-last : grown.tasks s.tail ≡ record (s.tasks s.tail) { next = q.task }
  grown-last =
      let here : (s.tail == s.tail) ≡ true = ground arith in
      let last : (s.tail == q.task) ≡ false =
        ground (arith, r.tail, g.new (n - 1) (omega (arith, r.some_task))) in
      rw (last, here)

  grown-other : (p : ℕ) → p ≢ q.task → p ≢ s.tail → grown.tasks p ≡ s.tasks p
  grown-other p new last =
      let new' : (p == q.task) ≡ false = ground arith in
      let last' : (p == s.tail) ≡ false = ground arith in rw (new', last')

  -- The tasks that were there keep all but the link of the last one.
  grown-idle : (i : ℕ) → i < n → (grown.tasks (node i)).is_idle ≡ (s.tasks (node i)).is_idle
  grown-idle i h = elim (Bool-cases (node i == s.tail)) [
    | inl last ↦
        let e : node i ≡ s.tail = ground arith in
        ap (λ p. (grown.tasks p).is_idle) e
        ∙ ap (λ t. t.is_idle) grown-last
        ∙ ap (λ p. (s.tasks p).is_idle) (sym e)
    | inr other ↦ ap (λ t. t.is_idle) (grown-other (node i) (g.new i h) (ground arith))
  ]

  grown-link : (i : ℕ) → i + 1 < n → (grown.tasks (node i)).next ≡ node (i + 1)
  grown-link i h =
      let early : node i ≢ s.tail =
        λ e. omega (arith, r.distinct i (n - 1) (omega arith) (omega arith) (e ∙ r.tail)) in
      ap (λ t. t.next) (grown-other (node i) (g.new i (omega arith)) early) ∙ r.link i h

  grown-tail : (grown.tasks (node (n - 1))).next ≡ q.task
  grown-tail = ap (λ p. (grown.tasks p).next) (sym r.tail) ∙ ap (λ t. t.next) grown-last

  abbrev nodes : ℕ → ℕ
  nodes = set node n q.task

  nodes-old : (i : ℕ) → i < n → nodes i ≡ node i
  nodes-old i h = let old : (i == n) ≡ false = ground arith in rw old

  nodes-new : nodes n ≡ q.task
  nodes-new = let new : (n == n) ≡ true = ground arith in rw new

  nodes-distinct : (i j : ℕ) → i < n + 1 → j < n + 1 → nodes i ≡ nodes j → i ≡ j
  nodes-distinct i j h h' e = elim (Bool-cases (i == n)) [
    | inl a ↦ elim (Bool-cases (j == n)) [
      | inl b ↦ ground arith
      | inr b ↦ absurd (
          g.new j (ground arith)
            (sym (nodes-old j (ground arith)) ∙ sym e ∙ ap nodes (ground arith) ∙ nodes-new))
    ]
    | inr a ↦ elim (Bool-cases (j == n)) [
      | inl b ↦ absurd (
          g.new i (ground arith)
            (sym (nodes-old i (ground arith)) ∙ e ∙ ap nodes (ground arith) ∙ nodes-new))
      | inr b ↦
          r.distinct i j (ground arith) (ground arith)
            (sym (nodes-old i (ground arith)) ∙ e ∙ nodes-old j (ground arith))
    ]
  ]

  grown-IsRing : IsRing grown nodes
  grown-IsRing =
      let total : add32 n 1 ≡ n + 1 = omega (arith, g.room) in
      let last : node (n - 1) ≡ nodes (n - 1) =
        sym (nodes-old (n - 1) (omega (arith, r.some_task))) in
      record {
        some_task = omega arith;
        few = omega arith;
        head = r.head ∙ sym (nodes-old 0 r.some_task);
        tail = let e : add32 n 1 - 1 ≡ n = omega arith in sym nodes-new ∙ ap nodes (sym e);
        link = λ i h. elim (Bool-cases (i + 1 == n)) [
          | inl at_end ↦
              let e : i ≡ n - 1 = ground arith in
              let e' : i + 1 ≡ n = ground arith in
              ap (λ j. (grown.tasks (nodes j)).next) e
              ∙ ap (λ p. (grown.tasks p).next) (sym last)
              ∙ grown-tail
              ∙ sym nodes-new
              ∙ ap nodes (sym e')
          | inr inside ↦
              ap (λ p. (grown.tasks p).next) (nodes-old i (ground arith))
              ∙ grown-link i (ground arith)
              ∙ sym (nodes-old (i + 1) (ground arith))
        ];
        ends = λ i h.
            let e : i ≡ n = omega arith in
            ap (λ j. (grown.tasks (nodes j)).next) e
            ∙ ap (λ p. (grown.tasks p).next) nodes-new
            ∙ ap (λ t. t.next) grown-new;
        non_null = λ i h. elim (Bool-cases (i == n)) [
          | inl new ↦
              let e : i ≡ n = ground arith in
              λ z. g.task_there (sym nodes-new ∙ ap nodes (sym e) ∙ z)
          | inr old ↦ λ z. r.non_null i (ground arith) (sym (nodes-old i (ground arith)) ∙ z)
        ];
        distinct = λ i j h h' e. nodes-distinct i j (omega arith) (omega arith) e;
        first = nodes-old 0 r.some_task ∙ r.first;
        idle_first =
            ap (λ p. (grown.tasks p).is_idle) (sym r.first)
            ∙ grown-idle 0 r.some_task
            ∙ ap (λ p. (s.tasks p).is_idle) r.first
            ∙ r.idle_first;
        others = λ i h h'. elim (Bool-cases (i == n)) [
          | inl new ↦
              let e : i ≡ n = ground arith in
              ap (λ j. (grown.tasks (nodes j)).is_idle) e
              ∙ ap (λ p. (grown.tasks p).is_idle) nodes-new
              ∙ ap (λ t. t.is_idle) grown-new
          | inr old ↦
              ap (λ p. (grown.tasks p).is_idle) (nodes-old i (ground arith))
              ∙ grown-idle i (ground arith)
              ∙ r.others i h (ground arith)
        ];
      }

  grown-guard : stack_guard_ok grown q.task ≡ true
  unfolding stack_guard_ok
  grown-guard =
      let big = (stack_bytes_lem q.size g.word_size).0 in
      let task : (q.task == 0) ≡ false = ground (arith, g.task_there) in
      let stack : (q.stack == 0) ≡ false = ground (arith, g.stack_there) in
      let here : (q.stack == q.stack) ≡ true = ground arith in
      let room : ltb (stack_bytes q.size) 4 ≡ false = ground arith in
      let same : (q.task == q.task) ≡ true = ground arith in
      let last : (q.task == s.tail) ≡ false =
        ground (arith, r.tail, g.new (n - 1) (omega (arith, r.some_task))) in
      rw (same, last, task, stack, room, here)

  -- A request that can be granted puts the new thread at the end of the ring, ready to be
  -- chosen, with its stack guard in place; it asks for a new choice.
  pub create_kernel_thread-IsRing :
      ((create_kernel_thread s q).0 ≡ q.task)
      × IsRing (create_kernel_thread s q).1 (set node s.total_tasks q.task)
      × ((create_kernel_thread s q).1.total_tasks ≡ s.total_tasks + 1)
      × (is_candidate (create_kernel_thread s q).1 q.task ≡ true)
      × (stack_guard_ok (create_kernel_thread s q).1 q.task ≡ true)
      × ((create_kernel_thread s q).1.reschedule_pending ≡ true)
  create_kernel_thread-IsRing = rw granted (
    refl,
    grown-IsRing,
    omega (arith, g.room),
    ap (λ t. not t.is_idle && is_ready t.state) grown-new,
    grown-guard,
    refl,
  )
