-- ===== src/Fat/ReadBounds.antt =====
-- `fat_read_file` ends, and never writes more than it was asked for.
use mathlib.Core.Path.{subst}
use native.Mathlib.Nat.{mod-lt}
use termob_kernel.Base.{
  ℕ, zero, suc, ◌+◌, ◌-◌, ◌/◌, ◌≤◌, ◌<◌, ◌≡◌, refl, sym, false, not, ◌||◌, inl, inr, arith, Option,
  none, some, ltb, leb, ◌==◌, Bool-cases, ltb→lt, Option-cases, if◌then◌else◌,
}
use termob_kernel.Base.Words.{add32}
use termob_kernel.Block.{Block}
use termob_kernel.Fat.{Status, cluster_is_valid, cluster_first_lba, read_sector}
use termob_kernel.Fat.Cursor.{File, cluster_size_bytes, step_to, follow, advance_cluster}
use termob_kernel.Fat.Read.{
  Transfer, min_size, Round, file_byte_offset, copy_part, next_part, read_round, copy_loop,
  read_file,
}

-- What is known of a transfer on its way: at most the wanted bytes are copied, and nothing behind
-- them is touched.
pub record IsBounded (start t : Transfer) (total : ℕ) : Type 0 where
  pub size : 0 < t.file.fs.bytes_per_sector
  pub copied : t.copied ≤ total
  pub untouched : (i : ℕ) → total ≤ i → t.buffer i ≡ start.buffer i

copy_part-IsBounded :
    (start t : Transfer) (total : ℕ) (sector : ℕ → ℕ)
    → IsBounded start t total
    → t.copied < total
    → IsBounded start (copy_part t total sector) total
      × (t.copied < (copy_part t total sector).copied)
unfolding copy_part min_size
copy_part-IsBounded start t total sector h more =
    let low = mod-lt (file_byte_offset t.file) h.size in
    (
      record {
        size = h.size;
        copied = ground arith;
        untouched = λ i le. ground (arith, h.untouched i);
      },
      ground arith,
    )

-- A round that goes on has copied something.
abbrev RoundIsBounded : (start t : Transfer) (total : ℕ) → Round → Type 0
RoundIsBounded start t total (Round.returns status t') = IsBounded start t' total
RoundIsBounded start t total (Round.goes_on t') = IsBounded start t' total × (t.copied < t'.copied)

advance_cluster-size : (blocks : Block) (f : File) → (advance_cluster blocks f).1.fs ≡ f.fs
unfolding advance_cluster follow step_to
advance_cluster-size blocks f = ground arith

after_advance :
    (blocks : Block) (start t t' : Transfer) (total : ℕ) (status given : Status)
    → IsBounded start t' total
    → t.copied < t'.copied
    → RoundIsBounded start t total
        (elim status [ Status.ok ↦ Round.goes_on t' | _ ↦ Round.returns given t' ])
after_advance blocks start t t' total Status.ok given h more = (h, more)
after_advance blocks start t t' total Status.invalid_argument given h more = h
after_advance blocks start t t' total Status.invalid_path given h more = h
after_advance blocks start t t' total Status.not_found given h more = h
after_advance blocks start t t' total Status.not_directory given h more = h
after_advance blocks start t t' total Status.not_file given h more = h
after_advance blocks start t t' total Status.corrupt given h more = h
after_advance blocks start t t' total Status.io_error given h more = h

next_part-RoundIsBounded :
    (blocks : Block) (start t t' : Transfer) (total : ℕ)
    → IsBounded start t' total
    → t.copied < t'.copied
    → RoundIsBounded start t total (next_part blocks t')
unfolding next_part
next_part-RoundIsBounded blocks start t t' total h more =
    let moved : IsBounded start (record t' { file = (advance_cluster blocks t'.file).1 }) total =
      record {
        size =
            subst (λ fs. 0 < fs.bytes_per_sector) (sym (advance_cluster-size blocks t'.file))
              h.size;
        copied = h.copied;
        untouched = h.untouched;
      } in
    elim (Bool-cases (leb t'.file.dirent.size_bytes t'.file.position)) [
      | inl at_end ↦ rw at_end h
      | inr inside ↦
          elim (Bool-cases (leb (cluster_size_bytes t'.file) (file_byte_offset t'.file))) [
            | inl boundary ↦
                rw (inside, boundary)
                  (after_advance blocks start t
                    (record t' { file = (advance_cluster blocks t'.file).1 }) total
                    (advance_cluster blocks t'.file).0 (advance_cluster blocks t'.file).0 moved
                    more)
            | inr within ↦ rw (inside, within) (h, more)
          ]
    ]

read_round-RoundIsBounded :
    (blocks : Block) (start t : Transfer) (total : ℕ)
    → IsBounded start t total
    → t.copied < total
    → RoundIsBounded start t total (read_round blocks t total)
unfolding read_round
read_round-RoundIsBounded blocks start t total h more =
    let f : File = t.file in
    let lba : ℕ =
      add32 (cluster_first_lba f.fs f.current_cluster)
        (file_byte_offset f / f.fs.bytes_per_sector) in
    elim (Bool-cases ((f.current_cluster == 0) || not (cluster_is_valid f.fs f.current_cluster))) [
      | inl bad ↦ rw bad h
      | inr good ↦ elim (Bool-cases (leb (cluster_size_bytes f) (file_byte_offset f))) [
        | inl outside ↦ rw (good, outside) h
        | inr inside ↦ elim (Option-cases (read_sector blocks f.fs lba)) [
          | inl failed ↦ rw (good, inside, failed) h
          | inr (sector, found) ↦
              let (after, grown) = copy_part-IsBounded start t total sector h more in
              rw (good, inside, found)
                (next_part-RoundIsBounded blocks start t (copy_part t total sector) total after
                  grown)
        ]
      ]
    ]

-- A call that has returned, with at most `total` bytes copied.
abbrev pub Returned : (start : Transfer) (total : ℕ) → Option (Status × Transfer) → Type 0
Returned start total none = ⊥
Returned start total (some (status, t)) = IsBounded start t total

after_round :
    (blocks : Block) (fuel total : ℕ) (start t : Transfer) (round : Round)
    → RoundIsBounded start t total round
    → ((t' : Transfer)
        → IsBounded start t' total
        → t.copied < t'.copied
        → Returned start total (copy_loop blocks fuel total t'))
    → Returned start total (elim round [
      | Round.returns status t' ↦ some (status, t')
      | Round.goes_on t' ↦ copy_loop blocks fuel total t'
    ])
after_round blocks fuel total start t (Round.returns status t') h rest = h
after_round blocks fuel total start t (Round.goes_on t') (h, more) rest = rest t' h more

copy_loop-Returned :
    (blocks : Block) (fuel total : ℕ) (start t : Transfer)
    → IsBounded start t total
    → total ≤ t.copied + fuel
    → Returned start total (copy_loop blocks fuel total t)
unfolding copy_loop
copy_loop-Returned blocks zero total start t h enough =
    let done : ltb t.copied total ≡ false = ground arith in rw done h
copy_loop-Returned blocks (suc fuel) total start t h enough =
    elim (Bool-cases (ltb t.copied total)) [
      | inl more ↦ rw more (
          after_round blocks fuel total start t (read_round blocks t total)
            (read_round-RoundIsBounded blocks start t total h (ltb→lt _ _ more))
            (λ t' h' grown. copy_loop-Returned blocks fuel total start t' h' (omega arith)))
      | inr done ↦ rw done h
    ]

Returned-le :
    (start : Transfer) (total room : ℕ) (result : Option (Status × Transfer))
    → total ≤ room
    → Returned start total result
    → Returned start room result
Returned-le start total room none le h = h
Returned-le start total room (some (status, t)) le h = record {
  size = h.size;
  copied = omega (arith, h.copied);
  untouched = λ i low. h.untouched i (omega arith);
}

-- `fat_read_file` always returns, also on a damaged medium: each round copies at least one byte. It
-- copies no more bytes than the buffer has room for and none behind them.
pub read_file-Returned :
    (blocks : Block) (f : File) (buffer : ℕ → ℕ) (buffer_size : ℕ)
    → 0 < f.fs.bytes_per_sector
    → Returned
        (record { file = f; buffer = buffer; copied = 0 })
        buffer_size
        (read_file blocks f buffer buffer_size)
unfolding read_file min_size
read_file-Returned blocks f buffer buffer_size some_size =
    let start : Transfer = record { file = f; buffer = buffer; copied = 0 } in
    let left : ℕ = f.dirent.size_bytes - f.position in
    let total : ℕ = if ltb buffer_size left then buffer_size else left in
    let small : total ≤ buffer_size = ground arith in
    let fresh : (n : ℕ) → IsBounded start start n =
      λ n. record { size = some_size; copied = omega arith; untouched = λ i low. refl } in
    elim (Bool-cases ((buffer_size == 0) || leb f.dirent.size_bytes f.position)) [
      | inl nothing ↦ rw nothing (fresh buffer_size)
      | inr something ↦ elim (Bool-cases (ltb 4096 f.fs.bytes_per_sector)) [
        | inl large ↦ rw (something, large) (fresh buffer_size)
        | inr fits ↦
            rw (something, fits)
              (Returned-le start total buffer_size (copy_loop blocks total total start) small
                (copy_loop-Returned blocks total total start start (fresh total) (omega arith)))
      ]
    ]
