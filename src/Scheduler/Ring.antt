-- ===== src/Scheduler/Ring.antt =====
-- The linked list of tasks as a ring of positions, and the walks along it.
use termob_kernel.Base.{
  ℕ, zero, suc, ◌+◌, ◌-◌, ◌^◌, ◌≤◌, ◌<◌, ◌≡◌, ◌≢◌, sym, ap, ◌∙◌, true, false, inl, inr, arith, ltb,
  ◌==◌, Bool-cases, if◌then◌else◌,
}
use termob_kernel.Scheduler.{Scheduler, idle_task, is_candidate, next_task_after, any_candidate}

-- The tasks stand at `node 0`, …, `node (n - 1)`, linked in this order from head to tail; the first
-- is the idle task, and the only idle one.
pub record IsRing (s : Scheduler) (node : ℕ → ℕ) : Type 0 where
  pub some_task : 0 < s.total_tasks
  pub few : s.total_tasks < 2 ^ 32
  pub head : s.head ≡ node 0
  pub tail : s.tail ≡ node (s.total_tasks - 1)
  pub link : (i : ℕ) → i + 1 < s.total_tasks → (s.tasks (node i)).next ≡ node (i + 1)
  pub ends : (i : ℕ) → i + 1 ≡ s.total_tasks → (s.tasks (node i)).next ≡ 0
  pub non_null : (i : ℕ) → i < s.total_tasks → node i ≢ 0
  pub distinct : (i j : ℕ) → i < s.total_tasks → j < s.total_tasks → node i ≡ node j → i ≡ j
  pub first : node 0 ≡ idle_task
  pub idle_first : (s.tasks idle_task).is_idle ≡ true
  pub others : (i : ℕ) → 0 < i → i < s.total_tasks → (s.tasks (node i)).is_idle ≡ false

-- The position `x` on a ring of `n`, once round at most.
abbrev pub wrap : ℕ → ℕ → ℕ
wrap n x = if ltb x n then x else x - n

module _ {s : Scheduler} {node : ℕ → ℕ} (r : IsRing s node) where
  abbrev n : ℕ
  n = s.total_tasks

  pub next_task_after-node :
      (i : ℕ) → i < s.total_tasks → next_task_after s (node i) ≡ node (wrap s.total_tasks (i + 1))
  unfolding next_task_after
  next_task_after-node i h = elim (Bool-cases (ltb (i + 1) s.total_tasks)) [
    | inl inside ↦
        let here : (node i == 0) ≡ false = ground (arith, r.non_null i h) in
        let there : (node (i + 1) == 0) ≡ false = ground (arith, r.non_null (i + 1)) in
        rw (inside, r.link i (ground arith), here, there)
    | inr last ↦
        let back : i + 1 - s.total_tasks ≡ 0 = ground arith in
        let here : (node i == 0) ≡ false = ground (arith, r.non_null i h) in
        rw (last, r.ends i (ground arith), here, back) r.head
  ]

  -- The walk from position `i` to the end of the list finds a candidate exactly if there is one.
  pub any_candidate-true :
      (rounds i p : ℕ)
      → i + rounds ≡ s.total_tasks
      → (0 < rounds → p ≡ node i)
      → any_candidate s rounds p ≡ true
      → (j : ℕ) × (i ≤ j) × (j < s.total_tasks) × (is_candidate s (node j) ≡ true)
  unfolding any_candidate
  any_candidate-true zero i p e at found = ground arith
  any_candidate-true (suc rounds) i p e at found =
      let here : p ≡ node i = at (omega arith) in
      elim (Bool-cases (is_candidate s p)) [
        | inl yes_here ↦ (i, omega arith, omega arith, ap (is_candidate s) (sym here) ∙ yes_here)
        | inr not_here ↦
            let (j, low, high, c) =
              any_candidate-true rounds (i + 1) (s.tasks p).next (omega arith)
                (λ more. ap (λ q. (s.tasks q).next) here ∙ r.link i (omega arith)) (ground arith) in
            (j, omega arith, high, c)
      ]

  pub any_candidate-false :
      (rounds i p : ℕ)
      → i + rounds ≡ s.total_tasks
      → (0 < rounds → p ≡ node i)
      → any_candidate s rounds p ≡ false
      → (j : ℕ) → i ≤ j
      → j < s.total_tasks
      → is_candidate s (node j) ≡ false
  unfolding any_candidate
  any_candidate-false zero i p e at found j low high = absurd (omega arith)
  any_candidate-false (suc rounds) i p e at found j low high =
      let here : p ≡ node i = at (omega arith) in
      let non_null : (p == 0) ≡ false = ground (arith, r.non_null i (omega arith)) in
      elim (Bool-cases (i == j)) [
        | inl same ↦
            let e' : i ≡ j = ground arith in
            ap (λ k. is_candidate s (node k)) (sym e')
            ∙ ap (is_candidate s) (sym here)
            ∙ ground arith
        | inr later ↦
            any_candidate-false rounds (i + 1) (s.tasks p).next (omega arith)
              (λ more. ap (λ q. (s.tasks q).next) here ∙ r.link i (omega arith)) (ground arith) j
              (ground arith) high
      ]
