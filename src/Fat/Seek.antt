-- ===== src/Fat/Seek.antt =====
-- Where `fat_seek_file` ends.
use mathlib.Core.Path.{subst}
use native.Mathlib.Nat.{mul-le-mul_right, div-eq_of_eq-mul_left, mul-add-div_right, div-eq_of_lt}
use termob_kernel.Base.{
  ℕ, ◌+◌, ◌-◌, ◌*◌, ◌/◌, ◌^◌, ◌≤◌, ◌<◌, ◌≡◌, ◌≢◌, refl, sym, ap, ◌∙◌, true, false, arith, ◌==◌,
}
use termob_kernel.Base.Words.{add32, sub32, mul32}
use termob_kernel.Block.{Block}
use termob_kernel.Fat.{Status, cluster_is_valid}
use termob_kernel.Fat.Cursor.{
  File, cluster_size_bytes, reset_state, max_clusters, advance_loop, seek_file,
}
use termob_kernel.Fat.Content.{cluster_at}
use termob_kernel.Fat.Follows.{Follows-current, advance_loop-Follows, reset_state-Follows}
use termob_kernel.Fat.Walk.{IsOnChain, advance_loop-IsAdvanced, reset_state-IsOnChain}

-- Where a seek to a place inside the file has succeeded, its walk has.
seek_file-ok :
    (blocks : Block) (f : File) (offset : ℕ)
    → 0 < offset
    → 0 < f.dirent.size_bytes
    → (seek_file blocks f offset).0 ≡ Status.ok
    → ((advance_loop blocks (offset / cluster_size_bytes f) (reset_state f)).0 ≡ Status.ok)
      × (offset ≤ f.dirent.size_bytes)
      × ((seek_file blocks f offset).1
          ≡ (record (advance_loop blocks (offset / cluster_size_bytes f) (reset_state f)).1 {
            position = offset;
            current_cluster_file_offset =
                mul32 (offset / cluster_size_bytes f) (cluster_size_bytes f);
          }))
unfolding seek_file
seek_file-ok blocks f offset pos some_byte e = ground arith

reset_state-same :
    (f : File)
    → 0 < f.dirent.size_bytes
    → ((reset_state f).clusters_seen ≡ 1) × (max_clusters (reset_state f) ≡ max_clusters f)
unfolding reset_state max_clusters
reset_state-same f some_byte =
    let e : (f.dirent.size_bytes == 0) ≡ false = ground arith in rw e (refl, refl)

-- A seek to a place behind the start of a file that succeeds stands at the offset, in the cluster that
-- holds it: the file's clusters, from its first one on and each the one that the table names for the one
-- before, have been visited up to there, as many as the offset has whole clusters and one more. They are
-- valid and distinct.
pub seek_file-IsOnChain :
    (blocks : Block) (f : File) (offset : ℕ)
    → 0 < offset
    → 0 < f.dirent.size_bytes
    → cluster_is_valid f.fs f.dirent.first_cluster ≡ true
    → (seek_file blocks f offset).0 ≡ Status.ok
    → ((seek_file blocks f offset).1.position ≡ offset)
      × IsOnChain (seek_file blocks f offset).1
      × ((seek_file blocks f offset).1.visited_count ≡ 1 + offset / cluster_size_bytes f)
      × ((i : ℕ)
          → i < 1 + offset / cluster_size_bytes f
          → (seek_file blocks f offset).1.visited_clusters i
            ≡ cluster_at blocks f.fs f.dirent.first_cluster i)
      × ((seek_file blocks f offset).1.current_cluster
          ≡ cluster_at blocks f.fs f.dirent.first_cluster (offset / cluster_size_bytes f))
seek_file-IsOnChain blocks f offset pos some_byte valid e =
    let rounds : ℕ = offset / cluster_size_bytes f in
    let (walked, inside, at) = seek_file-ok blocks f offset pos some_byte e in
    let (first, bound) = reset_state-same f some_byte in
    let start = reset_state-IsOnChain f some_byte valid in
    let a = advance_loop-IsAdvanced blocks rounds (reset_state f) start walked in
    let w =
      advance_loop-Follows blocks f.fs f.dirent.first_cluster rounds (reset_state f)
        (reset_state-Follows blocks f some_byte) start walked in
    let h = a.on_chain in
    let count = sym h.counted ∙ a.seen ∙ ap (λ n. n + rounds) first in
    (
      ap (λ x. x.position) at,
      subst IsOnChain (sym at) (record {
        some_cluster = h.some_cluster;
        bounded = h.bounded;
        counted = h.counted;
        valid = h.valid;
        distinct = h.distinct;
        at_last = h.at_last;
      }),
      ap (λ x. x.visited_count) at ∙ count,
      λ i lt. ap (λ x. x.visited_clusters i) at ∙ w.visited i (omega (arith, count)),
      ap (λ x. x.current_cluster) at
          ∙ (Follows-current blocks f.fs f.dirent.first_cluster _ w h
              ∙ ap (cluster_at blocks f.fs f.dirent.first_cluster) (omega (arith, count))),
    )

max_clusters-whole :
    (f : File) (k : ℕ)
    → 0 < f.dirent.size_bytes
    → 0 < cluster_size_bytes f
    → f.dirent.size_bytes ≡ k * cluster_size_bytes f
    → f.dirent.size_bytes + cluster_size_bytes f < 2 ^ 32
    → max_clusters f ≡ k
unfolding max_clusters
max_clusters-whole f k some_byte some_size whole small =
    let size : ℕ = cluster_size_bytes f in
    let filled : (f.dirent.size_bytes == 0) ≡ false = ground arith in
    let sum : sub32 (add32 f.dirent.size_bytes size) 1 ≡ k * size + (size - 1) =
      omega (arith, whole) in
    let below : (size - 1) / size ≡ 0 = div-eq_of_lt (omega arith) in
    rw (filled, sum, mul-add-div_right some_size k (size - 1), below) (omega arith)

-- A seek to the end of a file whose size is a whole number of clusters does not succeed, whatever
-- the medium holds: it asks for one cluster more than the file can have.
pub seek_file-end :
    (blocks : Block) (f : File) (k : ℕ)
    → 0 < k
    → 0 < cluster_size_bytes f
    → f.dirent.size_bytes ≡ k * cluster_size_bytes f
    → f.dirent.size_bytes + cluster_size_bytes f < 2 ^ 32
    → cluster_is_valid f.fs f.dirent.first_cluster ≡ true
    → (seek_file blocks f f.dirent.size_bytes).0 ≢ Status.ok
seek_file-end blocks f k pos some_size whole small valid e =
    let size : ℕ = cluster_size_bytes f in
    let bytes : ℕ = f.dirent.size_bytes in
    let some_byte : 0 < bytes = omega (arith, whole, mul-le-mul_right size pos) in
    let (walked, inside, at) = seek_file-ok blocks f bytes some_byte some_byte e in
    let (first, bound) = reset_state-same f some_byte in
    let a =
      advance_loop-IsAdvanced blocks (bytes / size) (reset_state f)
        (reset_state-IsOnChain f some_byte valid) walked in
    let rounds : bytes / size ≡ k = div-eq_of_eq-mul_left some_size whole in
    let most : max_clusters f ≡ k = max_clusters-whole f k some_byte some_size whole small in
    omega (arith, a.seen, a.enough (omega (arith, rounds)), first, bound, rounds, most)
