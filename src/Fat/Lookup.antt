-- ===== src/Fat/Lookup.antt =====
-- Paths: `fat_lookup_path`, and what is built on it: opening a file, reading a part of it by its path,
-- and listing a path. A result that is no entry is the root directory.
use termob_kernel.Base.{
  ℕ, zero, suc, Bool, true, false, not, ◌&&◌, Option, none, some, List, [], ◌∷◌, leb, ◌==◌,
  if◌then◌else◌,
}
use termob_kernel.Base.Lists.{length}
use termob_kernel.Base.Arrays.{set}
use termob_kernel.Block.{Block}
use termob_kernel.Fat.{Fs, Status, DirentKind, cluster_is_valid}
use termob_kernel.Fat.Path.{separator, is_empty, skip_path_separators, parse_path_component}
use termob_kernel.Fat.Dir.{Dirent}
use termob_kernel.Fat.Chain.{
  Found, find_root_entry, find_directory_entry, list_root, list_directory,
}
use termob_kernel.Fat.Cursor.{File, seek_file}
use termob_kernel.Fat.Read.{read_file}

-- sizeof(component)
abbrev pub component_size : ℕ
component_size = 13

abbrev pub is_directory : DirentKind → Bool
is_directory DirentKind.directory = true
is_directory _ = false

abbrev pub is_file : DirentKind → Bool
is_file DirentKind.file = true
is_file _ = false

-- The entry of a component in the directory that has been reached.
unfoldable pub find_component : Block → Fs → Option Dirent → (name : List ℕ) → Option Found
find_component blocks fs none name = find_root_entry blocks fs name
find_component blocks fs (some directory) name =
    if is_directory directory.kind
    then find_directory_entry blocks fs directory.first_cluster name
    else some (Found.fails Status.not_directory)

-- How a round of the loop of `fat_lookup_path` ends.
pub data Step : Type 0 where
  stops : Status → Step
  goes_on : List ℕ → Dirent → Step

unfoldable pub lookup_found : (left : List ℕ) → (has_more : Bool) → Found → Step
lookup_found left has_more (Found.fails status) = stops status
lookup_found left has_more (Found.found entry) =
    if entry.suspicious
    then stops Status.corrupt
    else if has_more && not (is_directory entry.kind)
    then stops Status.not_directory
    else goes_on left entry

unfoldable pub lookup_step : Block → Fs → (cursor : List ℕ) → Option Dirent → Option Step
lookup_step blocks fs cursor at = elim (parse_path_component cursor component_size) [
  | none ↦ some (stops Status.invalid_path)
  | some (component, left, has_more) ↦
      if is_empty component
      then some (stops Status.invalid_path)
      else elim (find_component blocks fs at component) [
        | none ↦ none
        | some result ↦ some (lookup_found left has_more result)
      ]
]

-- What a lookup gives: the status, or the entry that was reached, none for the root.
pub data Looked : Type 0 where
  reached : Option Dirent → Looked
  refused : Status → Looked

-- The loop; out of fuel it is none.
unfoldable pub lookup_loop :
    Block → Fs → (fuel : ℕ) → (cursor : List ℕ) → Option Dirent → Option Looked
lookup_loop blocks fs zero cursor at = if is_empty cursor then some (reached at) else none
lookup_loop blocks fs (suc fuel) cursor at =
    if is_empty cursor then some (reached at) else elim (lookup_step blocks fs cursor at) [
      | none ↦ none
      | some step ↦ elim step [
        | stops status ↦ some (refused status)
        | goes_on left entry ↦ lookup_loop blocks fs fuel left (some entry)
      ]
    ]

abbrev pub starts_with_separator : List ℕ → Bool
starts_with_separator [] = false
starts_with_separator (c ∷ cs) = c == separator

unfoldable pub lookup_path : Block → Fs → (path : List ℕ) → Option Looked
lookup_path blocks fs path =
    if starts_with_separator path
    then lookup_loop blocks fs (length path) (skip_path_separators path) none
    else some (refused Status.invalid_path)

-- `fat_open_file`
pub data Opened : Type 0 where
  opened : File → Opened
  refuses : Status → Opened

unfoldable pub new_file : Fs → Dirent → File
new_file fs dirent =
    let empty = dirent.size_bytes == 0 in
    record {
      fs = fs;
      dirent = dirent;
      position = 0;
      current_cluster = if empty then 0 else dirent.first_cluster;
      current_cluster_file_offset = 0;
      clusters_seen = if empty then 0 else 1;
      visited_count = if empty then 0 else 1;
      visited_clusters = if empty then (λ i. 0) else set (λ i. 0) 0 dirent.first_cluster;
    }

unfoldable pub open_dirent : Fs → Dirent → Opened
open_dirent fs dirent =
    if not (is_file dirent.kind)
    then refuses Status.not_file
    else if dirent.suspicious
    then refuses Status.corrupt
    else if not (dirent.size_bytes == 0) && not (cluster_is_valid fs dirent.first_cluster)
    then refuses Status.corrupt
    else opened (new_file fs dirent)

unfoldable pub open_file : Block → Fs → (path : List ℕ) → Option Opened
open_file blocks fs path = elim (lookup_path blocks fs path) [
  | none ↦ none
  | some looked ↦ elim looked [
    | refused status ↦ some (refuses status)
    | reached target ↦ elim target [
      | none ↦ some (refuses Status.not_file)
      | some dirent ↦ some (open_dirent fs dirent)
    ]
  ]
]

-- A status beside the bytes in the buffer.
unfoldable pub read_from :
    Block
    → File
    → (offset : ℕ) → (buffer : ℕ → ℕ) → (buffer_size : ℕ) → Option (Status × (ℕ → ℕ) × ℕ)
read_from blocks f offset buffer buffer_size =
    if leb f.dirent.size_bytes offset
    then some (Status.ok, buffer, 0)
    else elim (seek_file blocks f offset).0 [
      | Status.ok ↦ elim (read_file blocks (seek_file blocks f offset).1 buffer buffer_size) [
        | none ↦ none
        | some (status, t) ↦ some (status, t.buffer, t.copied)
      ]
      | _ ↦ some ((seek_file blocks f offset).0, buffer, 0)
    ]

unfoldable pub read_file_range :
    Block
    → Fs
    → (path : List ℕ) → (offset : ℕ) → (buffer : ℕ → ℕ) → (buffer_size : ℕ)
    → Option (Status × (ℕ → ℕ) × ℕ)
read_file_range blocks fs path offset buffer buffer_size = elim (open_file blocks fs path) [
  | none ↦ none
  | some result ↦ elim result [
    | refuses status ↦ some (status, buffer, 0)
    | opened f ↦ read_from blocks f offset buffer buffer_size
  ]
]

-- `fat_list_path`: a walk that fails is a corrupt directory.
abbrev pub status_of : {U : Type 0} → Option (Bool × U) → Option (Status × U)
status_of none = none
status_of (some (true, user)) = some (Status.ok, user)
status_of (some (false, user)) = some (Status.corrupt, user)

abbrev pub is_root_path : List ℕ → Bool
is_root_path [] = false
is_root_path (c ∷ []) = c == separator
is_root_path (c ∷ d ∷ cs) = false

module _ {U : Type 0} (blocks : Block) (fs : Fs) (callback : Dirent → U → Bool × U) where
  unfoldable pub list_target : Option Dirent → U → Option (Status × U)
  list_target none user = status_of (list_root blocks fs callback user)
  list_target (some dirent) user =
      if is_directory dirent.kind
      then status_of (list_directory blocks fs callback dirent.first_cluster user)
      else some (Status.not_directory, user)

  unfoldable pub list_path : (path : List ℕ) → U → Option (Status × U)
  list_path path user =
      if is_empty path
      then some (Status.invalid_path, user)
      else if is_root_path path
      then status_of (list_root blocks fs callback user)
      else elim (lookup_path blocks fs path) [
        | none ↦ none
        | some looked ↦ elim looked [
          | refused status ↦ some (status, user)
          | reached target ↦ list_target target user
        ]
      ]
