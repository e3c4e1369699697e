-- ===== src/Fat/Walk.antt =====
-- Following a chain never visits a cluster twice, and never leaves the volume; where a seek ends.
use mathlib.Core.Path.{subst, ap₂}
use termob_kernel.Base.{
  ℕ, zero, suc, ◌+◌, ◌-◌, ◌/◌, ◌≤◌, ◌<◌, ◌≡◌, ◌≢◌, refl, sym, ap, ◌∙◌, true, false, inl, inr, arith,
  some, ◌==◌, Bool-cases, Option-cases, if◌then◌else◌,
}
use termob_kernel.Base.Words.{add32, sub32, mul32}
use termob_kernel.Block.{Block}
use termob_kernel.Fat.{Fs, Status, cluster_is_valid}
use termob_kernel.Fat.Table.{read_fat_entry}
use termob_kernel.Fat.Dir.{Dirent}
use termob_kernel.Fat.Cursor.{
  max_visited, File, reset_state, max_clusters, was_visited, is_broken, step_to, follow,
  advance_cluster, advance_loop,
}

-- The chain that has been followed: valid clusters, no two the same, one for each whole cluster in
-- front of the current offset and one more, and the last of them is the current one.
pub record IsOnChain (f : File) : Type 0 where
  pub some_cluster : 0 < f.visited_count
  pub bounded : f.visited_count ≤ max_visited
  pub counted : f.clusters_seen ≡ f.visited_count
  pub valid : (i : ℕ) → i < f.visited_count → cluster_is_valid f.fs (f.visited_clusters i) ≡ true
  pub distinct :
      (i j : ℕ) → i < j → j < f.visited_count → f.visited_clusters i ≢ f.visited_clusters j
  pub at_last : f.visited_clusters (f.visited_count - 1) ≡ f.current_cluster

was_visited-false :
    (visited : ℕ → ℕ) (count cluster : ℕ)
    → was_visited visited count cluster ≡ false
    → (i : ℕ) → i < count
    → visited i ≢ cluster
unfolding was_visited
was_visited-false visited zero cluster h i lt = absurd (omega arith)
was_visited-false visited (suc count) cluster h i lt = elim (Bool-cases (i == count)) [
  | inl last ↦ let e : i ≡ count = ground arith in λ z. ground (arith, ap visited e)
  | inr early ↦ was_visited-false visited count cluster (ground arith) i (ground arith)
]

-- What an advance that succeeds does.
pub follow-ok :
    (f : File) (next : ℕ)
    → (follow f next).0 ≡ Status.ok
    → ((follow f next).1 ≡ step_to f next)
      × (is_broken f.fs next ≡ false)
      × (was_visited f.visited_clusters f.visited_count next ≡ false)
      × (f.visited_count < max_visited)
unfolding follow
follow-ok f next e = ground arith

is_broken-valid : (fs : Fs) (next : ℕ) → is_broken fs next ≡ false → cluster_is_valid fs next ≡ true
unfolding is_broken
is_broken-valid fs next h = ground arith

step_to-IsOnChain :
    (f : File) (next : ℕ)
    → IsOnChain f
    → cluster_is_valid f.fs next ≡ true
    → was_visited f.visited_clusters f.visited_count next ≡ false
    → f.visited_count < max_visited
    → IsOnChain (step_to f next)
unfolding step_to
step_to-IsOnChain f next h valid new room =
    let fresh = was_visited-false f.visited_clusters f.visited_count next new in
    let grown : add32 f.visited_count 1 ≡ f.visited_count + 1 = omega arith in
    record {
      some_cluster = omega arith;
      bounded = omega arith;
      counted = ap (λ n. add32 n 1) h.counted;
      valid = λ i lt. ground (arith, h.valid i);
      distinct = λ i j lt lt'. ground (arith, h.distinct i j, fresh i);
      at_last = ground arith;
    }

pub advance_cluster-ok :
    (blocks : Block) (f : File)
    → (advance_cluster blocks f).0 ≡ Status.ok
    → (next : ℕ) × (read_fat_entry blocks f.fs f.current_cluster ≡ some next)
      × ((follow f next).0 ≡ Status.ok)
      × ((advance_cluster blocks f).1 ≡ (follow f next).1)
      × (f.clusters_seen < max_clusters f)
unfolding advance_cluster
advance_cluster-ok blocks f e = elim (Option-cases (read_fat_entry blocks f.fs f.current_cluster)) [
  | inl failed ↦ absurd (ground arith)
  | inr (next, found) ↦ (next, found, ground arith, ground arith, ground arith)
]

-- A file that has gone on by a number of clusters.
pub record IsAdvanced (f : File) (rounds : ℕ) (f' : File) : Type 0 where
  pub same_fs : f'.fs ≡ f.fs
  pub same_dirent : f'.dirent ≡ f.dirent
  pub on_chain : IsOnChain f'
  pub seen : f'.clusters_seen ≡ f.clusters_seen + rounds
  pub enough : 0 < rounds → f'.clusters_seen ≤ max_clusters f

step_to-IsAdvanced :
    (f : File) (next : ℕ)
    → IsOnChain f
    → IsOnChain (step_to f next)
    → f.visited_count < max_visited
    → f.clusters_seen < max_clusters f
    → IsAdvanced f 1 (step_to f next)
unfolding step_to
step_to-IsAdvanced f next h after room more = record {
  same_fs = refl;
  same_dirent = refl;
  on_chain = after;
  seen = omega (arith, h.counted);
  enough = λ _. omega (arith, h.counted);
}

-- An advance that succeeds goes on to the cluster that the table names for the current one; it is
-- valid and was not visited before.
pub advance_cluster-IsAdvanced :
    (blocks : Block) (f : File)
    → IsOnChain f
    → (advance_cluster blocks f).0 ≡ Status.ok
    → IsAdvanced f 1 (advance_cluster blocks f).1
      × (read_fat_entry blocks f.fs f.current_cluster
          ≡ some (advance_cluster blocks f).1.current_cluster)
unfolding step_to
advance_cluster-IsAdvanced blocks f h e =
    let (next, found, followed, at, more) = advance_cluster-ok blocks f e in
    let (at', sound, new, room) = follow-ok f next followed in
    let after = step_to-IsOnChain f next h (is_broken-valid f.fs next sound) new room in
    let there : (advance_cluster blocks f).1 ≡ step_to f next = at ∙ at' in
    (
      subst (IsAdvanced f 1) (sym there) (step_to-IsAdvanced f next h after room more),
      found ∙ ap (λ x. some x.current_cluster) (sym there),
    )

max_clusters-same :
    (f g : File) → g.fs ≡ f.fs → g.dirent ≡ f.dirent → max_clusters g ≡ max_clusters f
unfolding max_clusters
max_clusters-same f g e e' =
    ap₂
      (λ (fs : Fs) (d : Dirent).
        let size = mul32 fs.bytes_per_sector fs.sectors_per_cluster in
        if d.size_bytes == 0 then 0 else sub32 (add32 d.size_bytes size) 1 / size)
      e e'

IsAdvanced-trans :
    (f g k : File) (rounds : ℕ)
    → IsAdvanced f 1 g
    → IsAdvanced g rounds k
    → IsAdvanced f (suc rounds) k
IsAdvanced-trans f g k rounds a b = record {
  same_fs = b.same_fs ∙ a.same_fs;
  same_dirent = b.same_dirent ∙ a.same_dirent;
  on_chain = b.on_chain;
  seen = omega (arith, a.seen, b.seen);
  enough = λ _. elim (Bool-cases (rounds == 0)) [
    | inl none_left ↦ ground (arith, a.enough, a.seen, b.seen)
    | inr some_left ↦
        let e = max_clusters-same f g a.same_fs a.same_dirent in ground (arith, b.enough, e)
  ];
}

pub advance_loop-suc :
    (blocks : Block) (rounds : ℕ) (f : File)
    → (advance_loop blocks (suc rounds) f).0 ≡ Status.ok
    → ((advance_cluster blocks f).0 ≡ Status.ok)
      × (advance_loop blocks (suc rounds) f
          ≡ advance_loop blocks rounds (advance_cluster blocks f).1)
unfolding advance_loop
advance_loop-suc blocks rounds f e = ground arith

pub advance_loop-IsAdvanced :
    (blocks : Block) (rounds : ℕ) (f : File)
    → IsOnChain f
    → (advance_loop blocks rounds f).0 ≡ Status.ok
    → IsAdvanced f rounds (advance_loop blocks rounds f).1
unfolding advance_loop
advance_loop-IsAdvanced blocks zero f h e = record {
  same_fs = refl;
  same_dirent = refl;
  on_chain = h;
  seen = omega arith;
  enough = λ none_left. absurd (omega arith);
}
advance_loop-IsAdvanced blocks (suc rounds) f h e =
    let (first, at) = advance_loop-suc blocks rounds f e in
    let (one, entry) = advance_cluster-IsAdvanced blocks f h first in
    let rest : (advance_loop blocks rounds (advance_cluster blocks f).1).0 ≡ Status.ok =
      ap (λ x. x.0) (sym at) ∙ e in
    subst (λ x. IsAdvanced f (suc rounds) x.1) (sym at)
      (IsAdvanced-trans f (advance_cluster blocks f).1 _ rounds one
        (advance_loop-IsAdvanced blocks rounds (advance_cluster blocks f).1 one.on_chain rest))

pub reset_state-IsOnChain :
    (f : File)
    → 0 < f.dirent.size_bytes
    → cluster_is_valid f.fs f.dirent.first_cluster ≡ true
    → IsOnChain (reset_state f)
unfolding reset_state
reset_state-IsOnChain f some_byte valid =
    let filled : (f.dirent.size_bytes == 0) ≡ false = ground arith in
    rw filled (record {
      some_cluster = omega arith;
      bounded = omega arith;
      counted = refl;
      valid = λ i lt. ground arith;
      distinct = λ i j lt lt'. absurd (omega arith);
      at_last = refl;
    })
