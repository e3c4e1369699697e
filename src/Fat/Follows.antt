-- ===== src/Fat/Follows.antt =====
-- The clusters that a cursor has visited are those of the file, in order: each is the one that the table
-- names for the one before.
use mathlib.Core.Path.{subst}
use termob_kernel.Base.{
  ℕ, zero, suc, ◌-◌, ◌<◌, ◌≡◌, refl, sym, ap, ◌∙◌, false, inl, inr, arith, Option, none, some, ◌==◌,
  Bool-cases, if◌then◌else◌,
}
use termob_kernel.Block.{Block}
use termob_kernel.Fat.{Fs, Status}
use termob_kernel.Fat.Table.{read_fat_entry}
use termob_kernel.Fat.Cursor.{File, reset_state, step_to, advance_cluster, advance_loop}
use termob_kernel.Fat.Walk.{
  IsOnChain, follow-ok, advance_cluster-ok, advance_cluster-IsAdvanced, advance_loop-suc,
}
use termob_kernel.Fat.Content.{cluster_at}

module _ (blocks : Block) (fs : Fs) (first : ℕ) where
  pub record Follows (f : File) : Type 0 where
    pub same_fs : f.fs ≡ fs
    pub visited :
        (i : ℕ) → i < f.visited_count → f.visited_clusters i ≡ cluster_at blocks fs first i

  -- The current cluster is the last one.
  pub Follows-current :
      (f : File)
      → Follows f
      → IsOnChain f
      → f.current_cluster ≡ cluster_at blocks fs first (f.visited_count - 1)
  Follows-current f w h =
      sym h.at_last ∙ w.visited (f.visited_count - 1) (omega (arith, h.some_cluster))

  next_cluster_at :
      (n next : ℕ)
      → read_fat_entry blocks fs (cluster_at blocks fs first n) ≡ some next
      → cluster_at blocks fs first (suc n) ≡ next
  unfolding cluster_at
  next_cluster_at n next read =
      let entry : Option ℕ → ℕ = λ o. elim o [ none ↦ 0 | some c ↦ c ] in ap entry read

  step_to-Follows :
      (f : File) (next : ℕ)
      → Follows f
      → IsOnChain f
      → read_fat_entry blocks f.fs f.current_cluster ≡ some next
      → Follows (step_to f next)
  unfolding step_to
  step_to-Follows f next w h read =
      let there : suc (f.visited_count - 1) ≡ f.visited_count = omega (arith, h.some_cluster) in
      let read' : read_fat_entry blocks fs (cluster_at blocks fs first (f.visited_count - 1))
          ≡ some next =
        ap (read_fat_entry blocks fs) (sym (Follows-current f w h))
        ∙ (ap (λ s. read_fat_entry blocks s f.current_cluster) (sym w.same_fs) ∙ read) in
      let last : cluster_at blocks fs first f.visited_count ≡ next =
        ap (cluster_at blocks fs first) (sym there)
        ∙ next_cluster_at (f.visited_count - 1) next read' in
      record {
        same_fs = w.same_fs;
        visited = λ i lt. elim (Bool-cases (i == f.visited_count)) [
          | inl here ↦
              let e : i ≡ f.visited_count = ground arith in
              rw here (sym (ap (cluster_at blocks fs first) e ∙ last))
          | inr early ↦ rw early (w.visited i (ground (arith, h.bounded)))
        ];
      }

  advance_cluster-Follows :
      (f : File)
      → Follows f
      → IsOnChain f
      → (advance_cluster blocks f).0 ≡ Status.ok
      → Follows (advance_cluster blocks f).1
  advance_cluster-Follows f w h done =
      let (next, read, follows, one, _) = advance_cluster-ok blocks f done in
      subst Follows (sym (one ∙ (follow-ok f next follows).0)) (step_to-Follows f next w h read)

  pub advance_loop-Follows :
      (rounds : ℕ) (f : File)
      → Follows f
      → IsOnChain f
      → (advance_loop blocks rounds f).0 ≡ Status.ok
      → Follows (advance_loop blocks rounds f).1
  unfolding advance_loop
  advance_loop-Follows zero f w h done = w
  advance_loop-Follows (suc rounds) f w h done =
      let (ok, at) = advance_loop-suc blocks rounds f done in
      let (one, entry) = advance_cluster-IsAdvanced blocks f h ok in
      let rest : (advance_loop blocks rounds (advance_cluster blocks f).1).0 ≡ Status.ok =
        ap (λ x. x.0) (sym at) ∙ done in
      subst (λ x. Follows x.1) (sym at)
        (advance_loop-Follows rounds (advance_cluster blocks f).1 (advance_cluster-Follows f w h ok)
          one.on_chain rest)

pub reset_state-Follows :
    (blocks : Block) (f : File)
    → 0 < f.dirent.size_bytes
    → Follows blocks f.fs f.dirent.first_cluster (reset_state f)
unfolding reset_state cluster_at
reset_state-Follows blocks f some_byte =
    let filled : (f.dirent.size_bytes == 0) ≡ false = ground arith in
    rw filled (record {
      same_fs = refl;
      visited = λ i lt.
          let here : i ≡ 0 = omega arith in
          subst
            (λ k.
              (if k == 0 then f.dirent.first_cluster else f.visited_clusters k)
              ≡ cluster_at blocks f.fs f.dirent.first_cluster k)
            (sym here) refl;
    })
