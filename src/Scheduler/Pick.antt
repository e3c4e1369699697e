-- ===== src/Scheduler/Pick.antt =====
-- The round-robin choice of `scheduler_pick_next_task`.
use termob_kernel.Base.{
  ℕ, zero, suc, ◌+◌, ◌-◌, ◌≤◌, ◌<◌, ◌≡◌, ◌≢◌, refl, sym, ap, ◌∙◌, Bool, true, false, not, ◌&&◌,
  ◌||◌, ◌⊎◌, inl, inr, arith, ltb, ◌==◌, Bool-cases, ltb→lt, ltb-false, if◌then◌else◌,
}
use termob_kernel.Scheduler.{
  Scheduler, idle_task, is_ready, is_candidate, next_task_after, has_ready_non_idle_task, pick_loop,
  pick_next_task,
}
use termob_kernel.Scheduler.Ring.{
  IsRing, wrap, next_task_after-node, any_candidate-true, any_candidate-false,
}

-- What the loop accepts.
abbrev pub eligible : Scheduler → Bool → ℕ → Bool
eligible s prefer p = is_ready (s.tasks p).state && (not prefer || not (s.tasks p).is_idle)

-- A fact at 0 and at the successors of the numbers below a bound.
shifted :
    (P : ℕ → Type 0) (bound : ℕ)
    → P 0
    → ((e : ℕ) → e < bound → P (suc e))
    → (e : ℕ) → e < suc bound
    → P e
shifted P bound base later zero lt = base
shifted P bound base later (suc e) lt = later e (omega arith)

module _ {s : Scheduler} {node : ℕ → ℕ} (r : IsRing s node) where
  -- The first eligible task from position `k` on, `d` places further.
  abbrev FirstFrom : (prefer : Bool) (k d p : ℕ) → Type 0
  FirstFrom prefer k d p =
      (p ≡ node (wrap s.total_tasks (k + d)))
      × (eligible s prefer p ≡ true)
      × ((e : ℕ) → e < d → eligible s prefer (node (wrap s.total_tasks (k + e))) ≡ false)

  pick_loop-first :
      (prefer : Bool) (rounds k : ℕ)
      → k < s.total_tasks
      → rounds ≤ s.total_tasks
      → ((d : ℕ) × (d < rounds) × FirstFrom prefer k d (pick_loop s prefer rounds (node k)))
        ⊎ ((pick_loop s prefer rounds (node k) ≡ idle_task)
            × ((e : ℕ)
                → e < rounds
                → eligible s prefer (node (wrap s.total_tasks (k + e))) ≡ false))
  unfolding pick_loop
  pick_loop-first prefer zero k h few = inr (refl, λ e lt. absurd (omega arith))
  pick_loop-first prefer (suc rounds) k h few =
      let here : wrap s.total_tasks (k + 0) ≡ k = ground arith in
      let non_null : (node k == 0) ≡ false = ground (arith, r.non_null k h) in
      elim (Bool-cases (eligible s prefer (node k))) [
        | inl good ↦ inl (
          0,
          omega arith,
          (rw (non_null, good, here), rw (non_null, good) good, λ e lt. absurd (omega arith)),
        )
        | inr bad ↦
            let next : ℕ = wrap s.total_tasks (k + 1) in
            let moved : (e : ℕ)
                → e < rounds
                → wrap s.total_tasks (next + e) ≡ wrap s.total_tasks (k + suc e) =
              λ e lt. ground arith in
            let base : eligible s prefer (node (wrap s.total_tasks (k + 0))) ≡ false =
              ap (λ i. eligible s prefer (node i)) here ∙ bad in
            rw (non_null, bad, next_task_after-node r k h)
              (elim (pick_loop-first prefer rounds next (ground arith) (omega arith)) [
                | inl (d, lt, (at, good, before)) ↦ inl (
                  suc d,
                  omega arith,
                  (
                    at ∙ ap node (moved d lt),
                    good,
                    shifted (λ e. eligible s prefer (node (wrap s.total_tasks (k + e))) ≡ false) d
                        base
                        (λ e lt'.
                          ap (λ i. eligible s prefer (node i)) (sym (moved e (omega arith)))
                          ∙ before e lt'),
                  ),
                )
                | inr (at, none_good) ↦ inr (
                  at,
                  shifted (λ e. eligible s prefer (node (wrap s.total_tasks (k + e))) ≡ false)
                      rounds base
                      (λ e lt'.
                        ap (λ i. eligible s prefer (node i)) (sym (moved e lt')) ∙ none_good e lt'),
                )
              ])
      ]

-- How many places behind the one after `l` position `t` comes, going round.
abbrev pub distance : (n l t : ℕ) → ℕ
distance n l t = if ltb l t then t - l - 1 else t + n - l - 1

module _ {s : Scheduler} {node : ℕ → ℕ} (r : IsRing s node) {l : ℕ} (inside : l < s.total_tasks)
    (at : s.last ≡ node l) where
  has_candidate :
      (t : ℕ)
      → t < s.total_tasks
      → is_candidate s (node t) ≡ true
      → has_ready_non_idle_task s ≡ true
  unfolding has_ready_non_idle_task
  has_candidate t h c = elim (Bool-cases (has_ready_non_idle_task s)) [
    | inl found ↦ found
    | inr missed ↦
        let no_candidate =
          any_candidate-false r s.total_tasks 0 s.head (omega arith) (λ _. r.head) missed t
            (omega arith) h in
        cc
  ]

  pick_from :
      pick_next_task s
      ≡ pick_loop s (has_ready_non_idle_task s) s.total_tasks (node (wrap s.total_tasks (l + 1)))
  unfolding pick_next_task
  pick_from =
      let head : (s.head == 0) ≡ false = ground (arith, r.head, r.non_null 0 r.some_task) in
      rw head (
        ap (pick_loop s (has_ready_non_idle_task s) s.total_tasks)
          (ap (next_task_after s) at ∙ next_task_after-node r l inside))

  -- With a ready task besides the idle one, the next task is the first such task behind the last
  -- one that ran: it is a candidate, and no position that comes sooner holds one.
  pub pick_next_task-first :
      (t : ℕ)
      → t < s.total_tasks
      → is_candidate s (node t) ≡ true
      → (p : ℕ) × (p < s.total_tasks)
        × (pick_next_task s ≡ node p)
        × (is_candidate s (node p) ≡ true)
        × ((q : ℕ)
            → q < s.total_tasks
            → distance s.total_tasks l q < distance s.total_tasks l p
            → is_candidate s (node q) ≡ false)
  pick_next_task-first t h c =
      let n : ℕ = s.total_tasks in
      let k : ℕ = wrap n (l + 1) in
      let prefer = has_candidate t h c in
      let place : (q : ℕ) → q < n → wrap n (k + distance n l q) ≡ q = λ q lt. ground arith in
      let early : (q : ℕ) → q < n → distance n l q < n = λ q lt. ground arith in
      rw (pick_from, prefer)
        (elim (pick_loop-first r true n k (ground arith) (omega arith)) [
          | inl (d, lt, (where_, good, before)) ↦
              let p : ℕ = wrap n (k + d) in
              (
                p,
                ground arith,
                where_,
                ap (is_candidate s) (sym where_) ∙ ground arith,
                λ q inside_q sooner.
                    let e : ℕ = distance n l q in
                    let bad : eligible s true (node (wrap n (k + e))) ≡ false =
                      before e (ground arith) in
                    let bad' : eligible s true (node q) ≡ false =
                      ap (λ i. eligible s true (node i)) (sym (place q inside_q)) ∙ bad in
                    ground arith,
              )
          | inr (gone, none_good) ↦
              let bad : eligible s true (node t) ≡ false =
                ap (λ i. eligible s true (node i)) (sym (place t h))
                ∙ none_good (distance n l t) (early t h) in
              ground arith
        ])

  none_preferred :
      ((t : ℕ) → t < s.total_tasks → is_candidate s (node t) ≡ false)
      → has_ready_non_idle_task s ≡ false
  unfolding has_ready_non_idle_task
  none_preferred none_ready = elim (Bool-cases (has_ready_non_idle_task s)) [
    | inl found ↦
        let (j, low, high, c) =
          any_candidate-true r s.total_tasks 0 s.head (omega arith) (λ _. r.head) found in
        let bad = none_ready j high in cc
    | inr missed ↦ missed
  ]

  -- With no ready task besides the idle one, the idle task is chosen.
  pub pick_next_task-idle :
      ((t : ℕ) → t < s.total_tasks → is_candidate s (node t) ≡ false) → pick_next_task s ≡ idle_task
  pick_next_task-idle none_ready =
      let n : ℕ = s.total_tasks in
      let k : ℕ = wrap n (l + 1) in
      rw (pick_from, none_preferred none_ready)
        (elim (pick_loop-first r false n k (ground arith) (omega arith)) [
          | inl (d, lt, (where_, good, before)) ↦ elim (Bool-cases (wrap n (k + d) == 0)) [
            | inl start ↦
                let at_first : wrap n (k + d) ≡ 0 = ground arith in
                where_ ∙ ap node at_first ∙ r.first
            | inr behind ↦
                let p : ℕ = wrap n (k + d) in
                let bad : is_candidate s (node p) ≡ false = none_ready p (ground arith) in
                let busy : (s.tasks (node p)).is_idle ≡ false =
                  r.others p (ground arith) (ground arith) in
                let good' : eligible s false (node p) ≡ true =
                  ap (eligible s false) (sym where_) ∙ good in
                ground arith
          ]
          | inr (gone, none_good) ↦ gone
        ])

-- Sooner or later, as a number of rounds: a step to the first candidate does not pass `t`.
distance_falls :
    (n l p t : ℕ)
    → l < n
    → p < n
    → t < n
    → p ≢ t
    → distance n l p ≤ distance n l t
    → distance n p t < distance n l t
distance_falls n l p t hl hp ht ne le = ground arith

-- A run of the scheduler as the states in which it chooses a task: each remembers the choice of the
-- one before as the last task, and the tasks stay on one ring.
pub record IsRun (states : ℕ → Scheduler) (node : ℕ → ℕ) (n : ℕ) : Type 0 where
  pub rings : (i : ℕ) → IsRing (states i) node
  pub total : (i : ℕ) → (states i).total_tasks ≡ n
  pub follows : (i : ℕ) → (states (suc i)).last ≡ pick_next_task (states i)

IsRun-suc :
    {states : ℕ → Scheduler} {node : ℕ → ℕ} {n : ℕ}
    → IsRun states node n
    → IsRun (λ i. states (suc i)) node n
IsRun-suc run = record {
  rings = λ i. run.rings (suc i);
  total = λ i. run.total (suc i);
  follows = λ i. run.follows (suc i);
}

wait_below :
    (bound : ℕ) {states : ℕ → Scheduler} {node : ℕ → ℕ} {n : ℕ} (l t : ℕ)
    → IsRun states node n
    → l < n
    → (states 0).last ≡ node l
    → t < n
    → ((i : ℕ) → is_candidate (states i) (node t) ≡ true)
    → distance n l t < bound
    → (i : ℕ) × (i < bound) × (pick_next_task (states i) ≡ node t)
wait_below zero l t run hl at ht c small = absurd (omega arith)
wait_below (suc bound) {states} {node} {n} l t run hl at ht c small =
    let total : (states 0).total_tasks ≡ n = run.total 0 in
    let (p, inside, chosen, good, sooner) =
      pick_next_task-first (run.rings 0) (omega arith) at t (omega arith) (c 0) in
    elim (Bool-cases (p == t)) [
      | inl same ↦ (0, omega arith, chosen ∙ ap node (ground arith))
      | inr other ↦
          let order : distance n l p ≤ distance n l t =
            elim (Bool-cases (ltb (distance n l t) (distance n l p))) [
              | inl before ↦
                  let bad = sooner t (omega arith) (rw total (ltb→lt _ _ before)) in
                  let ready = c 0 in absurd cc
              | inr late ↦ ltb-false _ _ late
            ] in
          let falls = distance_falls n l p t hl (omega arith) ht (ground arith) order in
          let (i, lt, done) =
            wait_below bound p t (IsRun-suc run) (omega arith) (run.follows 0 ∙ chosen) ht
              (λ i. c (suc i)) (omega arith) in
          (suc i, omega arith, done)
    ]

-- No starvation: a task that stays ready is chosen within as many choices as there are tasks.
pub no_starvation :
    {states : ℕ → Scheduler} {node : ℕ → ℕ} {n : ℕ} (l t : ℕ)
    → IsRun states node n
    → l < n
    → (states 0).last ≡ node l
    → t < n
    → ((i : ℕ) → is_candidate (states i) (node t) ≡ true)
    → (i : ℕ) × (i < n) × (pick_next_task (states i) ≡ node t)
no_starvation {n} l t run hl at ht c = wait_below n l t run hl at ht c (ground arith)
