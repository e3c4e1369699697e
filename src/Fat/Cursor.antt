-- ===== src/Fat/Cursor.antt =====
-- An open file: its place in the chain of clusters, and how it goes on to the next cluster.
use termob_kernel.Base.{
  ℕ, zero, suc, ◌/◌, Bool, true, false, not, ◌||◌, none, some, ltb, leb, ◌==◌, if◌then◌else◌,
}
use termob_kernel.Base.Arrays.{set}
use termob_kernel.Base.Words.{add32, sub32, mul32}
use termob_kernel.Block.{Block}
use termob_kernel.Fat.{Fs, Status, cluster_is_valid, entry_is_end, entry_is_bad, entry_is_reserved}
use termob_kernel.Fat.Table.{read_fat_entry}
use termob_kernel.Fat.Dir.{Dirent}

-- TERMOB_FAT_FILE_MAX_VISITED_CLUSTERS
abbrev pub max_visited : ℕ
max_visited = 256

-- `termob_fat_file_t`
pub record File : Type 0 where
  pub fs : Fs
  pub dirent : Dirent
  pub position : ℕ
  pub current_cluster : ℕ
  pub current_cluster_file_offset : ℕ
  pub clusters_seen : ℕ
  pub visited_count : ℕ
  pub visited_clusters : ℕ → ℕ

abbrev pub cluster_size_bytes : File → ℕ
cluster_size_bytes f = mul32 f.fs.bytes_per_sector f.fs.sectors_per_cluster

unfoldable pub reset_state : File → File
reset_state f =
    let empty = f.dirent.size_bytes == 0 in
    record f {
      position = 0;
      current_cluster = if empty then 0 else f.dirent.first_cluster;
      current_cluster_file_offset = 0;
      clusters_seen = if empty then 0 else 1;
      visited_count = if empty then 0 else 1;
      visited_clusters =
          if empty then f.visited_clusters else set f.visited_clusters 0 f.dirent.first_cluster;
    }

unfoldable pub max_clusters : File → ℕ
max_clusters f =
    if f.dirent.size_bytes == 0
    then 0
    else sub32 (add32 f.dirent.size_bytes (cluster_size_bytes f)) 1 / cluster_size_bytes f

-- for (index = 0; index < count; index++) if (visited[index] == cluster) …
unfoldable pub was_visited : (ℕ → ℕ) → (count cluster : ℕ) → Bool
was_visited visited zero cluster = false
was_visited visited (suc count) cluster =
    let earlier = was_visited visited count cluster in
    if earlier then true else visited count == cluster

-- A value of the table that cannot be followed.
unfoldable pub is_broken : Fs → ℕ → Bool
is_broken fs next_cluster =
    (next_cluster == 0)
    || (entry_is_bad fs.fat_type next_cluster
        || (entry_is_reserved fs.fat_type next_cluster || not (cluster_is_valid fs next_cluster)))

unfoldable pub step_to : File → ℕ → File
step_to f next_cluster = record f {
  current_cluster = next_cluster;
  current_cluster_file_offset = add32 f.current_cluster_file_offset (cluster_size_bytes f);
  clusters_seen = add32 f.clusters_seen 1;
  visited_clusters = set f.visited_clusters f.visited_count next_cluster;
  visited_count = add32 f.visited_count 1;
}

-- The part of `fat_file_advance_cluster` that follows the read of the table.
unfoldable pub follow : File → ℕ → Status × File
follow f next_cluster =
    if entry_is_end f.fs.fat_type next_cluster || is_broken f.fs next_cluster
    then (Status.corrupt, f)
    else if was_visited f.visited_clusters f.visited_count next_cluster
        || leb max_visited f.visited_count
    then (Status.corrupt, f)
    else (Status.ok, step_to f next_cluster)

unfoldable pub advance_cluster : Block → File → Status × File
advance_cluster blocks f =
    if (f.current_cluster == 0) || not (cluster_is_valid f.fs f.current_cluster)
    then (Status.corrupt, f)
    else if leb (max_clusters f) f.clusters_seen
    then (Status.corrupt, f)
    else elim (read_fat_entry blocks f.fs f.current_cluster) [
      | none ↦ (Status.io_error, f)
      | some next_cluster ↦ follow f next_cluster
    ]

-- The loop of `fat_seek_file`.
unfoldable pub advance_loop : Block → (rounds : ℕ) → File → Status × File
advance_loop blocks zero f = (Status.ok, f)
advance_loop blocks (suc rounds) f =
    let after = advance_cluster blocks f in
    let rest = advance_loop blocks rounds after.1 in elim after.0 [ Status.ok ↦ rest | _ ↦ after ]

unfoldable pub seek_file : Block → File → (offset : ℕ) → Status × File
seek_file blocks f offset =
    let start = reset_state f in
    let size = cluster_size_bytes f in
    let moved = advance_loop blocks (offset / size) start in
    if ltb f.dirent.size_bytes offset
    then (Status.invalid_argument, f)
    else if (offset == 0) || (f.dirent.size_bytes == 0)
    then (Status.ok, start)
    else elim moved.0 [
      | Status.ok ↦ (
        Status.ok,
        record moved.1 {
          position = offset;
          current_cluster_file_offset = mul32 (offset / size) size;
        },
      )
      | _ ↦ moved
    ]
