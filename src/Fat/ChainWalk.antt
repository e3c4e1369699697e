-- ===== src/Fat/ChainWalk.antt =====
-- The walk along a chain of clusters always ends, and on a sound chain it visits the sectors of all
-- its clusters in order.
use termob_kernel.Base.{
  ℕ, zero, suc, ◌+◌, ◌≤◌, ◌<◌, ◌≡◌, ◌≢◌, refl, ap, ◌∙◌, Bool, true, false, not, ◌⊎◌, inl, inr,
  arith, Option, none, some, List, [], ◌∷◌, ◌++◌, leb, Bool-cases, Option-cases,
}
use termob_kernel.Base.Arrays.{set}
use termob_kernel.Base.Lists.{length}
use termob_kernel.Base.Words.{add32}
use termob_kernel.Block.{Block}
use termob_kernel.Fat.{Fs, cluster_is_valid, cluster_first_lba, read_sector}
use termob_kernel.Fat.Lfn.{LfnState, lfn_reset}
use termob_kernel.Fat.Dir.{Dirent, Visit, visit_sector_entries}
use termob_kernel.Fat.Cursor.{was_visited}
use termob_kernel.Fat.Chain.{
  max_visited_clusters, Exit, Next, next_cluster, Walk, walk_sectors, walk_chain, walk_from,
}

-- The sectors of a cluster.
abbrev pub sectors_of : (rounds lba : ℕ) → List ℕ
sectors_of zero lba = []
sectors_of (suc rounds) lba = lba ∷ sectors_of rounds (add32 lba 1)

abbrev pub sectors_of_chain : Fs → List ℕ → List ℕ
sectors_of_chain fs [] = []
sectors_of_chain fs (c ∷ cs) =
    sectors_of fs.sectors_per_cluster (cluster_first_lba fs c) ++ sectors_of_chain fs cs

-- The table leads from the first of these clusters through all of them to its end mark.
pub data IsChain (blocks : Block) (fs : Fs) : List ℕ → Type 0 where
  last : (c : ℕ) → next_cluster blocks fs c ≡ Next.exit Exit.ended → IsChain blocks fs (c ∷ [])
  link :
      (c d : ℕ) (cs : List ℕ)
      → next_cluster blocks fs c ≡ Next.goes_to d
      → IsChain blocks fs (d ∷ cs)
      → IsChain blocks fs (c ∷ d ∷ cs)

-- A chain of clusters of the volume, each once and few enough for the table of visited clusters.
abbrev pub Fresh : ℕ → List ℕ → Type 0
Fresh c [] = Unit
Fresh c (d ∷ ds) = (c ≢ d) × Fresh c ds

abbrev pub AllFresh : Fs → List ℕ → Type 0
AllFresh fs [] = Unit
AllFresh fs (c ∷ cs) = (cluster_is_valid fs c ≡ true) × Fresh c cs × AllFresh fs cs

module _ {U R : Type 0} (blocks : Block) (fs : Fs) (callback : Dirent → U → Bool × U)
    (judge : Visit U → Option R) (result : Exit → U → R) where
  -- The walk over a plain list of sectors.
  unfoldable pub walk_list : List ℕ → LfnState → U → Walk U R
  walk_list [] lfn user = Walk.further lfn user
  walk_list (lba ∷ lbas) lfn user = elim (read_sector blocks fs lba) [
    | none ↦ Walk.over (result Exit.read_failed user)
    | some sector ↦
        let visit = visit_sector_entries fs callback sector lfn user in
        elim (judge visit) [ some r ↦ Walk.over r | none ↦ walk_list lbas visit.lfn visit.user ]
  ]

  -- … and what it gives at the end of a directory.
  abbrev pub finish : Walk U R → R
  finish (Walk.over r) = r
  finish (Walk.further lfn user) = result Exit.ended user

  Walk-cases :
      (w : Walk U R)
      → ((r : R) × (w ≡ Walk.over r))
        ⊎ ((lfn : LfnState) × (user : U) × (w ≡ Walk.further lfn user))
  Walk-cases (Walk.over r) = inl (r, refl)
  Walk-cases (Walk.further lfn user) = inr (lfn, user, refl)

  Next-cases : (n : Next) → ((e : Exit) × (n ≡ Next.exit e)) ⊎ ((c : ℕ) × (n ≡ Next.goes_to c))
  Next-cases (Next.exit e) = inl (e, refl)
  Next-cases (Next.goes_to c) = inr (c, refl)

  -- Each round but the last puts one more cluster into the table of 256.
  walk_chain-some :
      (fuel : ℕ) (visited : ℕ → ℕ) (count cluster : ℕ) (lfn : LfnState) (user : U)
      → max_visited_clusters < fuel + count
      → count ≤ max_visited_clusters
      → (r : R) × (walk_chain blocks fs callback judge result fuel visited count cluster lfn user
          ≡ some r)
  unfolding walk_chain
  walk_chain-some zero visited count cluster lfn user enough small = absurd (omega arith)
  walk_chain-some (suc fuel) visited count cluster lfn user enough small =
      elim (Bool-cases (not (cluster_is_valid fs cluster))) [
        | inl bad ↦ rw (bad, walk_chain) (_, refl)
        | inr good ↦ elim (Bool-cases (was_visited visited count cluster)) [
          | inl loop ↦ rw (good, loop, walk_chain) (_, refl)
          | inr new ↦ elim (Bool-cases (leb max_visited_clusters count)) [
            | inl full ↦ rw (good, new, full, walk_chain) (_, refl)
            | inr room ↦
                elim (Walk-cases (
                  walk_sectors blocks fs callback judge result fs.sectors_per_cluster
                    (cluster_first_lba fs cluster) lfn user)) [
                      | inl (r, done) ↦ rw (good, new, room, done, walk_chain) (r, refl)
                      | inr (lfn', user', on) ↦ elim (Next-cases (next_cluster blocks fs cluster)) [
                        | inl (e, out) ↦ rw (good, new, room, on, out, walk_chain) (_, refl)
                        | inr (c, next) ↦
                            rw (good, new, room, on, next, walk_chain)
                              (walk_chain-some fuel (set visited count cluster) (count + 1) c lfn'
                                user' (omega arith) (ground arith))
                      ]
                    ]
          ]
        ]
      ]

  -- A walk along a chain ends after at most 256 clusters, whatever the medium holds: also on a chain
  -- that runs in a circle.
  pub walk_from-terminates :
      (cluster : ℕ) (user : U)
      → (r : R) × (walk_from blocks fs callback judge result cluster user ≡ some r)
  unfolding walk_from
  walk_from-terminates cluster user =
      walk_chain-some (max_visited_clusters + 1) (λ i. 0) 0 cluster lfn_reset user (omega arith)
        (omega arith)

was_visited-set :
    (visited : ℕ → ℕ) (count i c d : ℕ)
    → count ≤ i
    → was_visited (set visited i c) count d ≡ was_visited visited count d
unfolding was_visited
was_visited-set visited zero i c d h = refl
was_visited-set visited (suc count) i c d h = ground (arith, was_visited-set visited count i c d)

was_visited-suc :
    (visited : ℕ → ℕ) (count c d : ℕ)
    → was_visited visited count d ≡ false
    → c ≢ d
    → was_visited (set visited count c) (suc count) d ≡ false
unfolding was_visited
was_visited-suc visited count c d new other =
    ground (arith, was_visited-set visited count count c d)

was_visited-other :
    (visited : ℕ → ℕ) (count c d : ℕ)
    → was_visited visited count d ≡ false
    → c ≢ d
    → was_visited (set visited count c) (count + 1) d ≡ false
was_visited-other visited count c d new other =
    let next : count + 1 ≡ suc count = omega arith in
    ap (λ n. was_visited (set visited count c) n d) next
    ∙ was_visited-suc visited count c d new other

abbrev AllNew : (ℕ → ℕ) → ℕ → List ℕ → Type 0
AllNew visited count [] = Unit
AllNew visited count (c ∷ cs) = (was_visited visited count c ≡ false) × AllNew visited count cs

AllNew-set :
    (visited : ℕ → ℕ) (count c : ℕ) (cs : List ℕ)
    → Fresh c cs
    → AllNew visited count cs
    → AllNew (set visited count c) (count + 1) cs
AllNew-set visited count c [] fresh new = tt
AllNew-set visited count c (d ∷ ds) (other, fresh) (n, new) =
    (was_visited-other visited count c d n other, AllNew-set visited count c ds fresh new)

module _ {U R : Type 0} (blocks : Block) (fs : Fs) (callback : Dirent → U → Bool × U)
    (judge : Visit U → Option R) (result : Exit → U → R) where
  abbrev pub walk_over : List ℕ → LfnState → U → Walk U R
  walk_over = walk_list blocks fs callback judge result

  walk_sectors-list :
      (rounds lba : ℕ) (lfn : LfnState) (user : U)
      → walk_sectors blocks fs callback judge result rounds lba lfn user
        ≡ walk_over (sectors_of rounds lba) lfn user
  unfolding walk_sectors walk_list
  walk_sectors-list zero lba lfn user = refl
  walk_sectors-list (suc rounds) lba lfn user = elim (Option-cases (read_sector blocks fs lba)) [
    | inl failed ↦ rw (failed, walk_sectors, walk_list)
    | inr (sector, got) ↦
        elim (Option-cases (judge (visit_sector_entries fs callback sector lfn user))) [
          | inl on ↦
              rw (got, walk_sectors, walk_list, on) (walk_sectors-list rounds (add32 lba 1) _ _)
          | inr (r, done) ↦ rw (got, walk_sectors, walk_list, done)
        ]
  ]

  walk_list-append :
      (xs ys : List ℕ) (lfn : LfnState) (user : U)
      → walk_over (xs ++ ys) lfn user ≡ elim (walk_over xs lfn user) [
        | Walk.over r ↦ Walk.over r
        | Walk.further lfn' user' ↦ walk_over ys lfn' user'
      ]
  unfolding walk_list
  walk_list-append [] ys lfn user = refl
  walk_list-append (lba ∷ xs) ys lfn user = elim (Option-cases (read_sector blocks fs lba)) [
    | inl failed ↦ rw (failed, walk_list)
    | inr (sector, got) ↦
        elim (Option-cases (judge (visit_sector_entries fs callback sector lfn user))) [
          | inl on ↦ rw (got, walk_list, on) (walk_list-append xs ys _ _)
          | inr (r, done) ↦ rw (got, walk_list, done)
        ]
  ]

  -- The first cluster of a chain, and then the rest of it.
  one_cluster :
      (fuel : ℕ) (visited : ℕ → ℕ) (count c : ℕ) (lfn : LfnState) (user : U) (rest : List ℕ)
      → cluster_is_valid fs c ≡ true
      → was_visited visited count c ≡ false
      → count < max_visited_clusters
      → ((lfn' : LfnState) (user' : U)
          → (elim (next_cluster blocks fs c) [
            | Next.exit e ↦ some (result e user')
            | Next.goes_to next ↦
                walk_chain blocks fs callback judge result fuel
                  (set visited count c)
                  (count + 1)
                  next
                  lfn'
                  user'
          ])
            ≡ some (finish blocks fs callback judge result (walk_over rest lfn' user')))
      → walk_chain blocks fs callback judge result (suc fuel) visited count c lfn user
        ≡ some (
            finish blocks fs callback judge result (
              walk_over
                (sectors_of fs.sectors_per_cluster (cluster_first_lba fs c) ++ rest)
                lfn
                user))
  unfolding walk_chain
  one_cluster fuel visited count c lfn user rest valid new room goes_on =
      let room' : leb max_visited_clusters count ≡ false = ground arith in
      let sectors : List ℕ = sectors_of fs.sectors_per_cluster (cluster_first_lba fs c) in
      let same = walk_sectors-list fs.sectors_per_cluster (cluster_first_lba fs c) lfn user in
      elim (Walk-cases blocks fs callback judge result (walk_over sectors lfn user)) [
        | inl (r, done) ↦ rw (valid, new, room', same, walk_chain, done, walk_list-append, done)
        | inr (lfn', user', on) ↦
            rw (valid, new, room', same, walk_chain, on, walk_list-append, on) (goes_on lfn' user')
      ]

  walk_chain-list :
      (fuel : ℕ) (visited : ℕ → ℕ) (count c : ℕ) (cs : List ℕ) (lfn : LfnState) (user : U)
      → IsChain blocks fs (c ∷ cs)
      → AllFresh fs (c ∷ cs)
      → AllNew visited count (c ∷ cs)
      → length (c ∷ cs) ≤ fuel
      → count + length (c ∷ cs) ≤ max_visited_clusters
      → walk_chain blocks fs callback judge result fuel visited count c lfn user
        ≡ some (
            finish blocks fs callback judge result
              (walk_over (sectors_of_chain fs (c ∷ cs)) lfn user))
  unfolding walk_list
  walk_chain-list zero visited count c cs lfn user chain fresh new enough room =
      absurd (omega arith)
  walk_chain-list (suc fuel) visited count c [] lfn user (IsChain.last _ e) fresh new enough room =
      one_cluster fuel visited count c lfn user [] fresh.0 new.0 (omega arith) (λ lfn' user'. rw e)
  walk_chain-list (suc fuel) visited count c (d ∷ cs) lfn user (IsChain.link _ _ _ e chain) fresh
        new enough room =
      one_cluster fuel visited count c lfn user (sectors_of_chain fs (d ∷ cs)) fresh.0 new.0
        (omega arith)
        (λ lfn' user'. rw e (
          walk_chain-list fuel (set visited count c) (count + 1) d cs lfn' user' chain fresh.2
            (AllNew-set visited count c (d ∷ cs) fresh.1 new.1) (omega arith) (omega arith)))

  none_visited : (cs : List ℕ) → AllNew (λ i. 0) 0 cs
  unfolding was_visited
  none_visited [] = tt
  none_visited (c ∷ cs) = (refl, none_visited cs)

  -- On a chain of at most 256 valid clusters, each once, the walk is the walk over the sectors of all
  -- its clusters, one cluster behind the other: it reads them in this order, stops where the callback's
  -- state or the directory's end says so, and else ends behind the last.
  pub walk_from-list :
      (c : ℕ) (cs : List ℕ) (user : U)
      → IsChain blocks fs (c ∷ cs)
      → AllFresh fs (c ∷ cs)
      → length (c ∷ cs) ≤ max_visited_clusters
      → walk_from blocks fs callback judge result c user
        ≡ some (
            finish blocks fs callback judge result (
              walk_list blocks fs callback judge result
                (sectors_of_chain fs (c ∷ cs))
                lfn_reset
                user))
  unfolding walk_from
  walk_from-list c cs user chain fresh short =
      walk_chain-list (max_visited_clusters + 1) (λ i. 0) 0 c cs lfn_reset user chain fresh
        (none_visited (c ∷ cs)) (omega arith) (omega arith)
