-- ===== src/Fat/Dir.antt =====
-- Directory entries: their kinds, the entries of a sector, and the callback that looks for a name.
use termob_kernel.Base.{
  ℕ, zero, suc, ◌+◌, ◌*◌, ◌/◌, ◌^◌, Bool, true, false, not, ◌&&◌, bit_and, List, [], ◌∷◌, Option,
  some, ◌==◌, if◌then◌else◌,
}
use termob_kernel.Fat.{Fs, DirentKind, read_le16, read_le32, cluster_is_valid}
use termob_kernel.Fat.Name.{copy_83_name, name_equals_case_insensitive, short_name_checksum}
use termob_kernel.Fat.Lfn.{LfnState, name_max, attr_lfn, lfn_reset, lfn_collect}

-- `termob_fat_dirent_t`
pub record Dirent : Type 0 where
  pub short_name : List ℕ
  pub display_name : List ℕ
  pub raw_name : ℕ → ℕ
  pub attributes : ℕ
  pub first_cluster : ℕ
  pub size_bytes : ℕ
  pub kind : DirentKind
  pub has_long_name : Bool
  pub suspicious : Bool

-- The kind of an entry that is in use, and whether it is suspicious.
unfoldable pub kind_of : (raw : ℕ → ℕ) → DirentKind × Bool
kind_of raw =
    if raw 0 == 0xe5
    then (DirentKind.deleted, false)
    else if raw 11 == attr_lfn
    then (DirentKind.lfn, false)
    else if not (bit_and (raw 11) 0x08 == 0)
    then (DirentKind.volume_label, false)
    else if not (bit_and (raw 11) 0x10 == 0)
    then (DirentKind.directory, false)
    else if not (bit_and (raw 11) 0xc0 == 0)
    then (DirentKind.reserved, true)
    else (DirentKind.file, false)

unfoldable pub dirent_from_raw : (raw : ℕ → ℕ) → Dirent
dirent_from_raw raw = record {
  short_name = copy_83_name raw;
  display_name = copy_83_name raw;
  raw_name = raw;
  attributes = raw 11;
  first_cluster = read_le16 raw 20 * 2 ^ 16 + read_le16 raw 26;
  size_bytes = read_le32 raw 28;
  kind = (kind_of raw).0;
  has_long_name = false;
  suspicious = (kind_of raw).1;
}

-- The C string of at most `n` characters from `i` on.
unfoldable pub c_string : (ℕ → ℕ) → (n i : ℕ) → List ℕ
c_string buffer zero i = []
c_string buffer (suc n) i =
    let rest = c_string buffer n (i + 1) in if buffer i == 0 then [] else buffer i ∷ rest

unfoldable pub with_long_name : LfnState → (raw : ℕ → ℕ) → Dirent → Dirent
with_long_name lfn raw dirent =
    if lfn.active && ((lfn.checksum == short_name_checksum raw) && not (lfn.name 0 == 0))
    then record dirent { display_name = c_string lfn.name name_max 0; has_long_name = true }
    else dirent

abbrev pub has_clusters : DirentKind → Bool
has_clusters DirentKind.file = true
has_clusters DirentKind.directory = true
has_clusters _ = false

unfoldable pub mark_suspicious : Fs → Dirent → Dirent
mark_suspicious fs dirent =
    if has_clusters dirent.kind
      && (not (dirent.first_cluster == 0) && not (cluster_is_valid fs dirent.first_cluster))
    then record dirent { suspicious = true }
    else dirent

-- What one entry means for a walk: the end, a part of a long name, or an entry that the callback gets,
-- beside the state of the long name after it.
pub data Entry : Type 0 where
  last : Entry
  part : LfnState → Entry
  entry : Dirent → Entry

unfoldable pub read_entry : Fs → LfnState → (raw : ℕ → ℕ) → Entry
read_entry fs lfn raw =
    if raw 0 == 0
    then Entry.last
    else if raw 0 == 0xe5
    then Entry.entry (dirent_from_raw raw)
    else if raw 11 == attr_lfn
    then Entry.part (lfn_collect lfn raw).1
    else Entry.entry (mark_suspicious fs (with_long_name lfn raw (dirent_from_raw raw)))

-- What a walk over a sector leaves: whether it reached the end of the directory, the long name, and
-- the callback's own state.
pub record Visit (U : Type 0) : Type 0 where
  pub reached_end : Bool
  pub lfn : LfnState
  pub user : U

module _ {U : Type 0} (fs : Fs) (callback : Dirent → U → Bool × U) where
  -- The loop of `fat_visit_sector_entries`; `rounds` entries are left.
  unfoldable pub visit_entries : (sector : ℕ → ℕ) → (rounds offset : ℕ) → LfnState → U → Visit U
  visit_entries sector zero offset lfn user = record { reached_end = false; lfn = lfn; user = user }
  visit_entries sector (suc rounds) offset lfn user =
      elim (read_entry fs lfn (λ i. sector (offset + i))) [
        | last ↦ record { reached_end = true; lfn = lfn_reset; user = user }
        | part lfn' ↦ visit_entries sector rounds (offset + 32) lfn' user
        | entry dirent ↦
            let after = callback dirent user in
            let rest = visit_entries sector rounds (offset + 32) lfn_reset after.1 in
            if after.0
            then rest
            else record { reached_end = false; lfn = lfn_reset; user = after.1 }
      ]

  unfoldable pub visit_sector_entries : (sector : ℕ → ℕ) → LfnState → U → Visit U
  visit_sector_entries sector lfn user =
      visit_entries sector ((fs.bytes_per_sector + 31) / 32) 0 lfn user

-- `fat_dirent_name_matches`
unfoldable pub dirent_name_matches : Dirent → List ℕ → Bool
dirent_name_matches dirent name =
    if dirent.has_long_name && name_equals_case_insensitive dirent.display_name name
    then true
    else name_equals_case_insensitive dirent.short_name name

-- `fat_find_entry_callback`; the context is the entry that was found.
unfoldable pub find_entry_callback : (name : List ℕ) → Dirent → Option Dirent → Bool × Option Dirent
find_entry_callback name dirent found =
    if has_clusters dirent.kind && dirent_name_matches dirent name
    then (false, some dirent)
    else (true, found)
