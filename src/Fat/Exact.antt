-- ===== src/Fat/Exact.antt =====
-- `fat_read_file` gives the bytes that the clusters of the file hold.
use mathlib.Core.Path.{subst, ap₂}
use termob_kernel.Base.{
  ℕ, zero, suc, ◌+◌, ◌-◌, ◌*◌, ◌/◌, ◌^◌, ◌≤◌, ◌<◌, ◌≡◌, refl, sym, ap, ◌∙◌, false, not, ◌||◌, inl,
  inr, arith, Option, none, some, ltb, leb, ◌==◌, Bool-cases, ltb→lt, ltb-false, leb→le,
  Option-cases,
}
use termob_kernel.Base.Words.{add32}
use termob_kernel.Block.{Block}
use termob_kernel.Fat.{Fs, Status, cluster_is_valid, cluster_first_lba, read_sector}
use termob_kernel.Fat.Cursor.{File, cluster_size_bytes, advance_cluster}
use termob_kernel.Fat.Read.{
  Transfer, min_size, Round, file_byte_offset, copy_part, next_part, read_round, copy_loop,
  read_file,
}
use termob_kernel.Fat.Content.{cluster_at}
use termob_kernel.Fat.InPlace.{
  InPlace, Exact, IsExact, InPlace-size, size, copy_part-Exact, advance_cluster-InPlace,
}

module _ (blocks : Block) (fs : Fs) (first length start : ℕ) (some_bytes : 0 < fs.bytes_per_sector)
    (fits : fs.sectors_per_cluster * fs.bytes_per_sector < 2 ^ 32) (word : length < 2 ^ 32) where
  abbrev Sound : Transfer → (total : ℕ) → Type 0
  Sound = IsExact blocks fs first length start some_bytes fits word

  abbrev Bytes : Transfer → Type 0
  Bytes = Exact blocks fs first length start some_bytes fits word

  -- The end of a round: an error leaves exact bytes, and success means that all of them are there.
  abbrev RoundIsExact : (t : Transfer) (total : ℕ) → Round → Type 0
  RoundIsExact t total (Round.returns status t') =
      Bytes t' × (status ≡ Status.ok → t'.copied ≡ total)
  RoundIsExact t total (Round.goes_on t') = Sound t' total × (t.copied < t'.copied)

  after_advance :
      (t t' : Transfer) (total : ℕ) (status given : Status)
      → given ≡ status
      → Bytes t'
      → (status ≡ Status.ok → Sound t' total)
      → t.copied < t'.copied
      → RoundIsExact t total
          (elim status [ Status.ok ↦ Round.goes_on t' | _ ↦ Round.returns given t' ])
  after_advance t t' total Status.ok given same e h more = (h refl, more)
  after_advance t t' total Status.invalid_argument given same e h more =
      (e, λ z. absurd (ground (arith, sym same ∙ z)))
  after_advance t t' total Status.invalid_path given same e h more =
      (e, λ z. absurd (ground (arith, sym same ∙ z)))
  after_advance t t' total Status.not_found given same e h more =
      (e, λ z. absurd (ground (arith, sym same ∙ z)))
  after_advance t t' total Status.not_directory given same e h more =
      (e, λ z. absurd (ground (arith, sym same ∙ z)))
  after_advance t t' total Status.not_file given same e h more =
      (e, λ z. absurd (ground (arith, sym same ∙ z)))
  after_advance t t' total Status.corrupt given same e h more =
      (e, λ z. absurd (ground (arith, sym same ∙ z)))
  after_advance t t' total Status.io_error given same e h more =
      (e, λ z. absurd (ground (arith, sym same ∙ z)))

  next_part-RoundIsExact :
      (t t' : Transfer) (total : ℕ)
      → Sound t' total
      → t.copied < t'.copied
      → start + total ≤ length
      → RoundIsExact t total (next_part blocks t')
  unfolding next_part
  next_part-RoundIsExact t t' total e more room =
      let f : File = t'.file in
      elim (Bool-cases (leb f.dirent.size_bytes f.position)) [
        | inl at_end ↦
            rw at_end
              (e.exact, λ z. omega (arith, leb→le _ _ at_end, e.place.same_length, e.at, e.bounded))
        | inr inside ↦ elim (Bool-cases (leb (cluster_size_bytes f) (file_byte_offset f))) [
          | inr within ↦ rw (inside, within) (e, more)
          | inl boundary ↦
              let moved : (advance_cluster blocks f).0 ≡ Status.ok
                  → Sound (record t' { file = (advance_cluster blocks f).1 }) total =
                λ done.
                  let (place, same) =
                    advance_cluster-InPlace blocks fs first length start some_bytes fits word f
                      e.number e.place
                      (omega (
                        arith,
                        leb→le _ _ boundary,
                        InPlace-size blocks fs first length start some_bytes fits word f e.number
                            e.place,
                      ))
                      done in
                  record {
                    exact = e.exact;
                    bounded = e.bounded;
                    at = same ∙ e.at;
                    number = e.number + 1;
                    place = place;
                  } in
              rw (inside, boundary)
                (after_advance t (record t' { file = (advance_cluster blocks f).1 }) total
                  (advance_cluster blocks f).0 (advance_cluster blocks f).0 refl e.exact moved more)
        ]
      ]

  read_round-RoundIsExact :
      (t : Transfer) (total : ℕ)
      → Sound t total
      → t.copied < total
      → start + total ≤ length
      → RoundIsExact t total (read_round blocks t total)
  unfolding read_round
  read_round-RoundIsExact t total e more room =
      let f : File = t.file in
      let r : ℕ = file_byte_offset f in
      let lba : ℕ = add32 (cluster_first_lba f.fs f.current_cluster) (r / f.fs.bytes_per_sector) in
      elim (Bool-cases
        ((f.current_cluster == 0) || not (cluster_is_valid f.fs f.current_cluster))) [
          | inl bad ↦ rw bad (e.exact, λ z. absurd (ground arith))
          | inr good ↦ elim (Bool-cases (leb (cluster_size_bytes f) r)) [
            | inl outside ↦ rw (good, outside) (e.exact, λ z. absurd (ground arith))
            | inr inside ↦ elim (Option-cases (read_sector blocks f.fs lba)) [
              | inl failed ↦ rw (good, inside, failed) (e.exact, λ z. absurd (ground arith))
              | inr (sector, found) ↦
                  let lba' : Fs → ℕ → ℕ =
                    λ s c. add32 (cluster_first_lba s c) (r / s.bytes_per_sector) in
                  let found' : read_sector blocks fs (lba' fs (cluster_at blocks fs first e.number))
                      ≡ some sector =
                    ap (λ c. read_sector blocks fs (lba' fs c)) (sym e.place.current)
                    ∙ (ap (λ s. read_sector blocks s (lba' s f.current_cluster))
                          (sym e.place.same_fs)
                        ∙ found) in
                  let below : r < size blocks fs first length start some_bytes fits word = ground (
                    arith,
                    InPlace-size blocks fs first length start some_bytes fits word f e.number
                        e.place,
                  ) in
                  let (after, grown) =
                    copy_part-Exact blocks fs first length start some_bytes fits word t total sector
                      e more room below found' in
                  rw (good, inside, found)
                    (next_part-RoundIsExact t (copy_part t total sector) total after grown room)
            ]
          ]
        ]

  -- A call that has returned: its bytes are the file's, and all that were wanted if it succeeded.
  abbrev pub ReadsExactly : (total : ℕ) → Option (Status × Transfer) → Type 0
  ReadsExactly total none = ⊥
  ReadsExactly total (some (status, t)) = Bytes t × (status ≡ Status.ok → t.copied ≡ total)

  after_round :
      (fuel total : ℕ) (t : Transfer) (round : Round)
      → RoundIsExact t total round
      → ((t' : Transfer)
          → Sound t' total
          → t.copied < t'.copied
          → ReadsExactly total (copy_loop blocks fuel total t'))
      → ReadsExactly total (elim round [
        | Round.returns status t' ↦ some (status, t')
        | Round.goes_on t' ↦ copy_loop blocks fuel total t'
      ])
  after_round fuel total t (Round.returns status t') h rest = h
  after_round fuel total t (Round.goes_on t') (h, more) rest = rest t' h more

  copy_loop-ReadsExactly :
      (fuel total : ℕ) (t : Transfer)
      → Sound t total
      → start + total ≤ length
      → total ≤ t.copied + fuel
      → ReadsExactly total (copy_loop blocks fuel total t)
  unfolding copy_loop
  copy_loop-ReadsExactly zero total t e room enough =
      let done : ltb t.copied total ≡ false = ground (arith, e.bounded) in
      rw done (e.exact, λ z. omega (arith, e.bounded))
  copy_loop-ReadsExactly (suc fuel) total t e room enough = elim (Bool-cases (ltb t.copied total)) [
    | inl more ↦ rw more (
        after_round fuel total t (read_round blocks t total)
          (read_round-RoundIsExact t total e (ltb→lt _ _ more) room)
          (λ t' e' grown. copy_loop-ReadsExactly fuel total t' e' room (omega arith)))
    | inr done ↦ rw done (e.exact, λ z. omega (arith, e.bounded, ltb-false _ _ done))
  ]

  -- `fat_read_file` of a cursor in cluster number `n` of a file always returns; the bytes that it has
  -- copied, also on an error, are the file's from the cursor on, and where it succeeds it has copied as
  -- many as the buffer has room for or the file has left. The sectors have 1 to 4096 bytes, the sizes of
  -- the cluster and of the file fit the words, and the cursor is not behind the end.
  pub read_file-ReadsExactly :
      (f : File) (n : ℕ) (buffer : ℕ → ℕ) (buffer_size : ℕ)
      → InPlace blocks fs first length start some_bytes fits word f n
      → f.position ≡ start
      → start ≤ length
      → fs.bytes_per_sector ≤ 4096
      → ReadsExactly (min_size buffer_size (length - start)) (read_file blocks f buffer buffer_size)
  unfolding read_file min_size
  read_file-ReadsExactly f n buffer buffer_size place at before sectors =
      let left : f.dirent.size_bytes - f.position ≡ length - start =
        ap₂ (λ a b. a - b) place.same_length at in
      let total : ℕ = min_size buffer_size (length - start) in
      let same : min_size buffer_size (f.dirent.size_bytes - f.position) ≡ total =
        ap (min_size buffer_size) left in
      let first_transfer : Transfer = record { file = f; buffer = buffer; copied = 0 } in
      let fresh : Sound first_transfer total = record {
        exact = λ i lt. absurd (omega arith);
        bounded = omega arith;
        at = at ∙ omega arith;
        number = n;
        place = place;
      } in
      let room : start + total ≤ length = ground arith in
      elim (Bool-cases ((buffer_size == 0) || leb f.dirent.size_bytes f.position)) [
        | inl nothing ↦
            let none_left : total ≡ 0 = ground (arith, place.same_length, at) in
            rw nothing (fresh.exact, λ z. sym none_left)
        | inr something ↦
            let small : ltb 4096 f.fs.bytes_per_sector ≡ false =
              ground (arith, ap (λ s. s.bytes_per_sector) place.same_fs) in
            rw (something, small)
              (subst (λ n. ReadsExactly total (copy_loop blocks n n first_transfer)) (sym same)
                (copy_loop-ReadsExactly total total first_transfer fresh room (omega arith)))
      ]
