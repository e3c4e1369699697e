-- ===== src/Fat/Open.antt =====
-- Lookups end, and what `fat_open_file` opens is a sound file.
use mathlib.Core.Path.{subst}
use termob_kernel.Base.{
  ℕ, zero, suc, ◌≤◌, ◌<◌, ◌≡◌, refl, sym, ap, Bool, true, false, not, ◌&&◌, ◌⊎◌, inl, inr, arith,
  Option, none, some, List, [], ◌∷◌, ◌++◌, ◌==◌, Bool-cases, Option-cases,
}
use termob_kernel.Base.Lists.{length, length-append}
use termob_kernel.Block.{Block}
use termob_kernel.Fat.{Fs, FatType, Status, cluster_is_valid}
use termob_kernel.Fat.Path.{
  is_empty, skip_path_separators, parse_path_component, Parsed, parse_path_component-Parsed,
  skip_path_separators_lem,
}
use termob_kernel.Fat.Dir.{Dirent, find_entry_callback}
use termob_kernel.Fat.Chain.{
  Found, find_judge, find_result, find_root_entry, find_directory_entry,
  find_directory_cluster_chain,
}
use termob_kernel.Fat.ChainWalk.{walk_from-terminates}
use termob_kernel.Fat.Cursor.{File}
use termob_kernel.Fat.Walk.{IsOnChain}
use termob_kernel.Fat.Lookup.{
  component_size, is_directory, is_file, find_component, Step, lookup_found, lookup_step, Looked,
  lookup_loop, lookup_path, starts_with_separator, Opened, new_file, open_dirent, open_file,
}

find_directory_cluster_chain-some :
    (blocks : Block) (fs : Fs) (start : ℕ) (name : List ℕ)
    → (r : Found) × (find_directory_cluster_chain blocks fs start name ≡ some r)
unfolding find_directory_cluster_chain
find_directory_cluster_chain-some blocks fs start name =
    walk_from-terminates blocks fs (find_entry_callback name) find_judge find_result start none

FatType-cases :
    (t : FatType)
    → (t ≡ FatType.none_type) ⊎ ((t ≡ FatType.fat12) ⊎ ((t ≡ FatType.fat16) ⊎ (t ≡ FatType.fat32)))
FatType-cases FatType.none_type = inl refl
FatType-cases FatType.fat12 = inr (inl refl)
FatType-cases FatType.fat16 = inr (inr (inl refl))
FatType-cases FatType.fat32 = inr (inr (inr refl))

find_root_entry-some :
    (blocks : Block) (fs : Fs) (name : List ℕ)
    → (r : Found) × (find_root_entry blocks fs name ≡ some r)
unfolding find_root_entry
find_root_entry-some blocks fs name = elim (FatType-cases fs.fat_type) [
  | inl none_type ↦ rw (none_type, find_root_entry) (_, refl)
  | inr (inl fat12) ↦ rw (fat12, find_root_entry) (_, refl)
  | inr (inr (inl fat16)) ↦ rw (fat16, find_root_entry) (_, refl)
  | inr (inr (inr fat32)) ↦
      rw (fat32, find_root_entry) (find_directory_cluster_chain-some blocks fs fs.root_cluster name)
]

find_component-some :
    (blocks : Block) (fs : Fs) (at : Option Dirent) (name : List ℕ)
    → (r : Found) × (find_component blocks fs at name ≡ some r)
unfolding find_component find_directory_entry
find_component-some blocks fs none name = find_root_entry-some blocks fs name
find_component-some blocks fs (some d) name = elim (Bool-cases (is_directory d.kind)) [
  | inr other ↦ rw other (_, refl)
  | inl dir ↦ elim (Bool-cases (cluster_is_valid fs d.first_cluster)) [
    | inr bad ↦ rw (dir, bad) (_, refl)
    | inl good ↦ rw (dir, good) (find_directory_cluster_chain-some blocks fs d.first_cluster name)
  ]
]

-- A component that is not empty is taken off the path.
Parsed-shorter :
    (size : ℕ) (path component left : List ℕ) (more : Bool)
    → Parsed size path (some (component, left, more))
    → is_empty component ≡ false
    → length left < length path
Parsed-shorter size path [] left more h filled = absurd (ground arith)
Parsed-shorter size path (c ∷ cs) left more h filled = omega (
  arith,
  ap length h.2,
  length-append h.0 ((c ∷ cs) ++ (h.1 ++ left)),
  length-append cs (h.1 ++ left),
  length-append h.1 left,
)

-- A step of a lookup stops, or leaves a shorter path.
abbrev Shortens : (path : List ℕ) → Option Step → Type 0
Shortens path none = ⊥
Shortens path (some (Step.stops status)) = Unit
Shortens path (some (Step.goes_on left entry)) = length left < length path

lookup_found-Shortens :
    (path left : List ℕ) (more : Bool) (r : Found)
    → length left < length path
    → Shortens path (some (lookup_found left more r))
unfolding lookup_found
lookup_found-Shortens path left more (Found.fails status) h = tt
lookup_found-Shortens path left more (Found.found entry) h = elim (Bool-cases entry.suspicious) [
  | inl odd ↦ rw odd tt
  | inr plain ↦ elim (Bool-cases (more && not (is_directory entry.kind))) [
    | inl file ↦ rw (plain, file) tt
    | inr dir ↦ rw (plain, dir) h
  ]
]

lookup_step-Shortens :
    (blocks : Block) (fs : Fs) (cursor : List ℕ) (at : Option Dirent)
    → Shortens cursor (lookup_step blocks fs cursor at)
unfolding lookup_step
lookup_step-Shortens blocks fs cursor at =
    elim (Option-cases (parse_path_component cursor component_size)) [
      | inl bad ↦ rw (bad, lookup_step) tt
      | inr ((component, left, more), parsed) ↦ elim (Bool-cases (is_empty component)) [
        | inl empty ↦ rw (parsed, lookup_step, empty) tt
        | inr filled ↦
            let (r, found) = find_component-some blocks fs at component in
            let split : Parsed component_size cursor (some (component, left, more)) =
              rw parsed at (parse_path_component-Parsed cursor component_size) in
            rw (parsed, lookup_step, filled, found)
              (lookup_found-Shortens cursor left more r
                (Parsed-shorter component_size cursor component left more split filled))
      ]
    ]

Step-cases :
    (step : Step)
    → ((status : Status) × (step ≡ Step.stops status))
      ⊎ ((left : List ℕ) × (entry : Dirent) × (step ≡ Step.goes_on left entry))
Step-cases (Step.stops status) = inl (status, refl)
Step-cases (Step.goes_on left entry) = inr (left, entry, refl)

lookup_loop-some :
    (blocks : Block) (fs : Fs) (fuel : ℕ) (cursor : List ℕ) (at : Option Dirent)
    → length cursor ≤ fuel
    → (r : Looked) × (lookup_loop blocks fs fuel cursor at ≡ some r)
unfolding lookup_loop
lookup_loop-some blocks fs zero [] at enough = (_, refl)
lookup_loop-some blocks fs zero (c ∷ cs) at enough = absurd (omega arith)
lookup_loop-some blocks fs (suc fuel) [] at enough = (_, refl)
lookup_loop-some blocks fs (suc fuel) (c ∷ cs) at enough =
    let shorter = lookup_step-Shortens blocks fs (c ∷ cs) at in
    elim (Option-cases (lookup_step blocks fs (c ∷ cs) at)) [
      | inl missing ↦ absurd (rw missing at shorter)
      | inr (step, got) ↦ elim (Step-cases step) [
        | inl (status, stop) ↦ rw (got, lookup_loop, stop) (_, refl)
        | inr (left, entry, on) ↦
            let less : length left < length (c ∷ cs) = rw (got, on) at shorter in
            rw (got, lookup_loop, on)
              (lookup_loop-some blocks fs fuel left (some entry) (omega arith))
      ]
    ]

skip_path_separators-le : (path : List ℕ) → length (skip_path_separators path) ≤ length path
skip_path_separators-le path =
    let (seps, all, e, starts) = skip_path_separators_lem path in
    omega (arith, ap length e, length-append seps (skip_path_separators path))

-- `fat_lookup_path` ends on every path, also where directories run in a circle.
pub lookup_path-terminates :
    (blocks : Block) (fs : Fs) (path : List ℕ)
    → (r : Looked) × (lookup_path blocks fs path ≡ some r)
unfolding lookup_path
lookup_path-terminates blocks fs path = elim (Bool-cases (starts_with_separator path)) [
  | inr relative ↦ rw relative (_, refl)
  | inl absolute ↦ rw absolute (
      lookup_loop-some blocks fs (length path) (skip_path_separators path) none
        (skip_path_separators-le path))
]

-- A file that has just been opened: it is at its start, of an entry that is a file and not suspicious,
-- and on the chain that starts at the entry's first cluster if it has any bytes.
pub record IsFresh (fs : Fs) (f : File) : Type 0 where
  pub same_fs : f.fs ≡ fs
  pub at_start : f.position ≡ 0
  pub is_file : is_file f.dirent.kind ≡ true
  pub sound : f.dirent.suspicious ≡ false
  pub on_chain : 0 < f.dirent.size_bytes → IsOnChain f
  pub first : 0 < f.dirent.size_bytes → f.current_cluster ≡ f.dirent.first_cluster

abbrev pub Opens : Fs → Opened → Type 0
Opens fs (Opened.refuses status) = Unit
Opens fs (Opened.opened f) = IsFresh fs f

new_file-IsFresh :
    (fs : Fs) (d : Dirent)
    → is_file d.kind ≡ true
    → d.suspicious ≡ false
    → (not (d.size_bytes == 0) && not (cluster_is_valid fs d.first_cluster)) ≡ false
    → IsFresh fs (new_file fs d)
unfolding new_file
new_file-IsFresh fs d file sound good = record {
  same_fs = refl;
  at_start = refl;
  is_file = file;
  sound = sound;
  on_chain = λ some_byte.
      let filled : (d.size_bytes == 0) ≡ false = ground arith in
      rw filled (record {
        some_cluster = omega arith;
        bounded = omega arith;
        counted = refl;
        valid = λ i lt. ground arith;
        distinct = λ i j lt lt'. absurd (omega arith);
        at_last = refl;
      });
  first = λ some_byte. ground arith;
}

Looked-cases :
    (r : Looked)
    → ((status : Status) × (r ≡ Looked.refused status))
      ⊎ ((target : Option Dirent) × (r ≡ Looked.reached target))
Looked-cases (Looked.refused status) = inl (status, refl)
Looked-cases (Looked.reached target) = inr (target, refl)

open_dirent-Opens : (fs : Fs) (d : Dirent) → Opens fs (open_dirent fs d)
unfolding open_dirent
open_dirent-Opens fs d = elim (Bool-cases (is_file d.kind)) [
  | inr other ↦ rw other tt
  | inl file ↦ elim (Bool-cases d.suspicious) [
    | inl odd ↦ rw (file, odd) tt
    | inr sound ↦
        elim (Bool-cases (not (d.size_bytes == 0) && not (cluster_is_valid fs d.first_cluster))) [
          | inl bad ↦ rw (file, sound, bad) tt
          | inr good ↦
              let e : open_dirent fs d ≡ Opened.opened (new_file fs d) = ground arith in
              subst (Opens fs) (sym e) (new_file-IsFresh fs d file sound good)
        ]
  ]
]

-- `fat_open_file` always returns, and a file that it opens is a sound one at its start.
pub open_file-Opens :
    (blocks : Block) (fs : Fs) (path : List ℕ)
    → (r : Opened) × (open_file blocks fs path ≡ some r) × Opens fs r
unfolding open_file
open_file-Opens blocks fs path =
    let (looked, ends) = lookup_path-terminates blocks fs path in
    elim (Looked-cases looked) [
      | inl (status, refused) ↦ rw (ends, open_file, refused) (_, refl, tt)
      | inr (target, reached) ↦ elim (Option-cases target) [
        | inl root ↦ rw (ends, open_file, reached, root) (_, refl, tt)
        | inr (d, entry) ↦
            rw (ends, open_file, reached, entry) (open_dirent fs d, refl, open_dirent-Opens fs d)
      ]
    ]
