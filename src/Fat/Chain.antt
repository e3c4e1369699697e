-- ===== src/Fat/Chain.antt =====
-- The walks over the sectors of a directory: the loops of `fat_list_cluster_chain` and
-- `fat_find_directory_cluster_chain`, which differ only in what they return, and those of the fixed
-- root directory of FAT12 and FAT16.
use termob_kernel.Base.{
  ℕ, zero, suc, ◌+◌, ◌-◌, Bool, true, false, not, Option, none, some, List, leb, if◌then◌else◌,
}
use termob_kernel.Base.Arrays.{set}
use termob_kernel.Base.Words.{add32}
use termob_kernel.Block.{Block}
use termob_kernel.Fat.{
  Fs, FatType, Status, cluster_is_valid, cluster_first_lba, entry_is_end, read_sector,
}
use termob_kernel.Fat.Table.{read_fat_entry}
use termob_kernel.Fat.Lfn.{LfnState, lfn_reset}
use termob_kernel.Fat.Dir.{Dirent, Visit, visit_sector_entries, find_entry_callback}
use termob_kernel.Fat.Cursor.{was_visited, is_broken}

-- FAT_MAX_VISITED_CLUSTERS
abbrev pub max_visited_clusters : ℕ
max_visited_clusters = 256

-- Where a walk ends other than in the middle of a sector.
pub data Exit : Type 0 where
  read_failed next_failed looped too_long broken invalid ended : Exit

-- What comes behind a cluster.
pub data Next : Type 0 where
  exit : Exit → Next
  goes_to : ℕ → Next

unfoldable pub next_cluster : Block → Fs → ℕ → Next
next_cluster blocks fs cluster = elim (read_fat_entry blocks fs cluster) [
  | none ↦ exit next_failed
  | some value ↦
      if entry_is_end fs.fat_type value
      then exit ended
      else if is_broken fs value
      then exit broken
      else goes_to value
]

-- The sectors of a walk: the walk is over with a result, or goes on behind the last of them.
pub data Walk (U R : Type 0) : Type 0 where
  over : R → Walk U R
  further : LfnState → U → Walk U R

module _ {U R : Type 0} (blocks : Block) (fs : Fs) (callback : Dirent → U → Bool × U)
    (judge : Visit U → Option R) (result : Exit → U → R) where
  -- The loop over `rounds` sectors from `lba` on.
  unfoldable pub walk_sectors : (rounds lba : ℕ) → LfnState → U → Walk U R
  walk_sectors zero lba lfn user = further lfn user
  walk_sectors (suc rounds) lba lfn user = elim (read_sector blocks fs lba) [
    | none ↦ over (result read_failed user)
    | some sector ↦
        let visit = visit_sector_entries fs callback sector lfn user in
        elim (judge visit) [
          | some r ↦ over r
          | none ↦ walk_sectors rounds (add32 lba 1) visit.lfn visit.user
        ]
  ]

  -- The loop over the clusters, with `count` of them visited; out of fuel it is none.
  unfoldable pub walk_chain :
      (fuel : ℕ) (visited : ℕ → ℕ) (count cluster : ℕ) → LfnState → U → Option R
  walk_chain zero visited count cluster lfn user = none
  walk_chain (suc fuel) visited count cluster lfn user =
      if not (cluster_is_valid fs cluster)
      then some (result invalid user)
      else if was_visited visited count cluster
      then some (result looped user)
      else if leb max_visited_clusters count
      then some (result too_long user)
      else elim (walk_sectors fs.sectors_per_cluster (cluster_first_lba fs cluster) lfn user) [
        | over r ↦ some r
        | further lfn' user' ↦ elim (next_cluster blocks fs cluster) [
          | exit e ↦ some (result e user')
          | goes_to next ↦ walk_chain fuel (set visited count cluster) (count + 1) next lfn' user'
        ]
      ]

  -- Enough fuel for a whole walk.
  unfoldable pub walk_from : ℕ → U → Option R
  walk_from cluster user = walk_chain (max_visited_clusters + 1) (λ i. 0) 0 cluster lfn_reset user

  -- The fixed root directory, of no sector where its end wraps around.
  unfoldable pub walk_root : U → R
  walk_root user =
      let stop = add32 fs.first_root_dir_lba fs.root_dir_sectors in
      elim (walk_sectors (stop - fs.first_root_dir_lba) fs.first_root_dir_lba lfn_reset user) [
        | over r ↦ r
        | further lfn user' ↦ result ended user'
      ]

-- What `fat_list_cluster_chain` and `fat_list_root_fixed` return, beside the callback's state.
unfoldable pub list_judge : {U : Type 0} → Visit U → Option (Bool × U)
list_judge visit = if visit.reached_end then some (true, visit.user) else none

unfoldable pub list_result : {U : Type 0} → Exit → U → Bool × U
list_result ended user = (true, user)
list_result read_failed user = (false, user)
list_result next_failed user = (false, user)
list_result looped user = (false, user)
list_result too_long user = (false, user)
list_result broken user = (false, user)
list_result invalid user = (false, user)

-- A search gives an entry, or the status that says why not.
pub data Found : Type 0 where
  found : Dirent → Found
  fails : Status → Found

unfoldable pub find_judge : Visit (Option Dirent) → Option Found
find_judge visit = elim visit.user [
  | some dirent ↦ some (if dirent.suspicious then fails Status.corrupt else found dirent)
  | none ↦ if visit.reached_end then some (fails Status.not_found) else none
]

unfoldable pub find_result : Exit → Option Dirent → Found
find_result ended user = fails Status.not_found
find_result read_failed user = fails Status.io_error
find_result next_failed user = fails Status.io_error
find_result looped user = fails Status.corrupt
find_result too_long user = fails Status.corrupt
find_result broken user = fails Status.corrupt
find_result invalid user = fails Status.corrupt

module _ {U : Type 0} (blocks : Block) (fs : Fs) (callback : Dirent → U → Bool × U) where
  unfoldable pub list_root_fixed : U → Bool × U
  list_root_fixed user = walk_root blocks fs callback list_judge list_result user

  unfoldable pub list_cluster_chain : ℕ → U → Option (Bool × U)
  list_cluster_chain start user = walk_from blocks fs callback list_judge list_result start user

  unfoldable pub list_directory : ℕ → U → Option (Bool × U)
  list_directory start user =
      if cluster_is_valid fs start then list_cluster_chain start user else some (false, user)

  unfoldable pub list_root : U → Option (Bool × U)
  list_root user = elim fs.fat_type [
    | FatType.fat12 ↦ some (list_root_fixed user)
    | FatType.fat16 ↦ some (list_root_fixed user)
    | FatType.fat32 ↦ list_cluster_chain fs.root_cluster user
    | FatType.none_type ↦ some (false, user)
  ]

unfoldable pub find_root_fixed : Block → Fs → (name : List ℕ) → Found
find_root_fixed blocks fs name =
    walk_root blocks fs (find_entry_callback name) find_judge find_result none

unfoldable pub find_directory_cluster_chain : Block → Fs → ℕ → (name : List ℕ) → Option Found
find_directory_cluster_chain blocks fs start name =
    walk_from blocks fs (find_entry_callback name) find_judge find_result start none

unfoldable pub find_root_entry : Block → Fs → (name : List ℕ) → Option Found
find_root_entry blocks fs name = elim fs.fat_type [
  | FatType.fat12 ↦ some (find_root_fixed blocks fs name)
  | FatType.fat16 ↦ some (find_root_fixed blocks fs name)
  | FatType.fat32 ↦ find_directory_cluster_chain blocks fs fs.root_cluster name
  | FatType.none_type ↦ some (fails Status.corrupt)
]

unfoldable pub find_directory_entry : Block → Fs → ℕ → (name : List ℕ) → Option Found
find_directory_entry blocks fs start name =
    if cluster_is_valid fs start
    then find_directory_cluster_chain blocks fs start name
    else some (fails Status.corrupt)
