-- ===== src/Block/Read.antt =====
-- What a read of several sectors leaves in the buffer, and registered devices are found again.
use termob_kernel.Base.{
  ℕ, zero, suc, ◌+◌, ◌-◌, ◌*◌, ◌^◌, ◌≤◌, ◌<◌, ◌≡◌, refl, sym, ap, ◌∙◌, true, false, not, ◌||◌,
  Option, none, some, List, [], ◌∷◌, ◌++◌, inl, inr, arith, ltb, leb, ◌==◌, Bool-cases,
  Option-cases, if◌then◌else◌,
}
use termob_kernel.Base.Lists.{length}
use termob_kernel.Base.Words.{add32, mul32}
use termob_kernel.Block.{
  BlockDevice, Block, register_device, nth_device, device_at, write_at, read_loop, read_one,
  read_device,
}

pub nth_device-append :
    (devices : List BlockDevice) (device : BlockDevice) (i : ℕ)
    → nth_device (devices ++ (device ∷ [])) i
      ≡ (if i == length devices then some device else nth_device devices i)
unfolding nth_device
nth_device-append [] device zero = refl
nth_device-append [] device (suc i) = let e : (suc i == 0) ≡ false = ground arith in rw e
nth_device-append (d ∷ devices) device zero =
    let e : (0 == suc (length devices)) ≡ false = ground arith in rw e
nth_device-append (d ∷ devices) device (suc i) =
    let e : (suc i == suc (length devices)) ≡ (i == length devices) = ground arith in
    rw e (nth_device-append devices device i)

-- A device that `block_register_device` accepts is the one at the next index; the devices at the other
-- indices stay, and the count keeps up with the list.
pub register_device-device_at :
    (s : Block) (device : BlockDevice)
    → s.device_count ≡ length s.devices
    → length s.devices + 1 < 2 ^ 32
    → (register_device true s device).0 ≡ true
    → ((i : ℕ)
        → device_at (register_device true s device).1 i
          ≡ (if i == s.device_count then some device else device_at s i))
      × ((register_device true s device).1.device_count ≡ s.device_count + 1)
unfolding register_device device_at
register_device-device_at s device counted room accepted =
    elim (Bool-cases (not s.ready || (device.name == 0))) [
      | inl refused ↦ absurd (ground (arith, accepted))
      | inr accepts ↦
          let ready : s.ready ≡ true = ground arith in
          rw (accepts, ready)
            (
              λ i.
                  nth_device-append s.devices device i
                  ∙ ap (λ n. if i == n then some device else nth_device s.devices i) (sym counted),
              omega arith,
            )
    ]

-- Sector `i` of the reads that start at sector `lba`.
abbrev pub sector_at : ((lba count : ℕ) → Option (ℕ → ℕ)) → (lba i : ℕ) → Option (ℕ → ℕ)
sector_at read lba i = read (add32 lba i) 1

-- The loop keeps what lies in front of the sectors that it reads, and puts each where it belongs.
read_loop_lem :
    (read : (lba count : ℕ) → Option (ℕ → ℕ)) (size lba rounds index : ℕ) (buffer out : ℕ → ℕ)
    → 0 < size
    → (index + rounds) * size < 2 ^ 32
    → read_loop read size lba rounds index buffer ≡ some out
    → ((k : ℕ) → k < index * size → out k ≡ buffer k)
      × ((i : ℕ)
          → index ≤ i
          → i < index + rounds
          → (sector : ℕ → ℕ) × (sector_at read lba i ≡ some sector)
            × ((j : ℕ) → j < size → out (i * size + j) ≡ sector j))
unfolding read_loop
read_loop_lem read size lba zero index buffer out pos fits e = (
  λ k lt. ap (λ o. elim o [ some f ↦ f k | none ↦ 0 ]) (sym e),
  λ i low high. absurd (omega arith),
)
read_loop_lem read size lba (suc rounds) index buffer out pos fits e =
    elim (Option-cases (sector_at read lba index)) [
      | inl failed ↦ absurd (ground arith)
      | inr (sector, found) ↦
          let next : (index + 1) * size ≡ index * size + size = omega arith in
          let whole : (index + suc rounds) * size ≡ index * size + (size + rounds * size) =
            omega arith in
          let regrouped : (index + 1 + rounds) * size ≡ (index + suc rounds) * size = omega arith in
          let offset : mul32 index size ≡ index * size = omega (arith, whole) in
          let placed : ℕ → ℕ = write_at buffer (mul32 index size) size sector in
          let placed_at : (j : ℕ) → j < size → placed (index * size + j) ≡ sector j = λ j lt.
            let back : index * size + j - mul32 index size ≡ j = omega (arith, offset) in
            let low : leb (mul32 index size) (index * size + j) ≡ true = ground (arith, offset) in
            let high : ltb (index * size + j) (mul32 index size + size) ≡ true =
              ground (arith, offset) in
            rw (low, high) (ap sector back) in
          let (front, rest) =
            read_loop_lem read size lba rounds (index + 1) placed out pos (omega (arith, regrouped))
              (ground arith) in
          (
            λ k lt. front k (omega (arith, next)) ∙ ground (arith, offset),
            λ i low high. elim (Bool-cases (i == index)) [
              | inl here ↦
                  let at : i ≡ index = ground arith in
                  (
                    sector,
                    ap (sector_at read lba) at ∙ found,
                    λ j lt.
                        ap (λ x. out (x * size + j)) at
                        ∙ front (index * size + j) (omega (arith, next))
                        ∙ placed_at j lt,
                  )
              | inr later ↦ rest i (ground arith) (ground arith)
            ],
          )
    ]

read_loop-some :
    (read : (lba count : ℕ) → Option (ℕ → ℕ)) (size lba rounds index : ℕ) (buffer : ℕ → ℕ)
    → ((i : ℕ)
        → index ≤ i
        → i < index + rounds
        → (sector : ℕ → ℕ) × (sector_at read lba i ≡ some sector))
    → (out : ℕ → ℕ) × (read_loop read size lba rounds index buffer ≡ some out)
unfolding read_loop
read_loop-some read size lba zero index buffer good = (buffer, refl)
read_loop-some read size lba (suc rounds) index buffer good =
    let (sector, found) = good index (omega arith) (omega arith) in
    rw (found, read_loop)
      (read_loop-some read size lba rounds (index + 1) _
        λ i low high. good i (omega arith) (omega arith))

-- What the buffer has to hold after a read of `count` sectors.
abbrev pub HoldsSectors :
    ((lba count : ℕ) → Option (ℕ → ℕ)) → (size lba count : ℕ) → (ℕ → ℕ) → Type 0
HoldsSectors read size lba count out =
    (i : ℕ)
    → i < count
    → (sector : ℕ → ℕ) × (sector_at read lba i ≡ some sector)
      × ((j : ℕ) → j < size → out (i * size + j) ≡ sector j)

-- A single sector is read as the loop would.
read_one-loop :
    (device : BlockDevice) (read : (lba count : ℕ) → Option (ℕ → ℕ)) (lba : ℕ) (buffer : ℕ → ℕ)
    → lba < 2 ^ 32
    → read_one device read lba buffer ≡ read_loop read device.sector_size_bytes lba 1 0 buffer
unfolding read_one read_loop
read_one-loop device read lba buffer small =
    let first : add32 lba 0 ≡ lba = omega arith in
    let start : mul32 0 device.sector_size_bytes ≡ 0 = omega arith in
    let same : read (add32 lba 0) 1 ≡ read lba 1 = ap (λ x. read x 1) first in
    elim (Option-cases (read lba 1)) [
      | inl failed ↦ rw (read_one, read_loop, same, failed)
      | inr (sector, found) ↦
          rw (read_one, read_loop, same, found)
            (ap (λ at. some (write_at buffer at device.sector_size_bytes sector)) (sym start))
    ]

read_device-loop :
    (s : Block) (index lba count : ℕ) (buffer : ℕ → ℕ) (device : BlockDevice)
    → (read : (lba count : ℕ) → Option (ℕ → ℕ)) → device_at s index ≡ some device
    → device.read ≡ some read
    → lba < 2 ^ 32
    → 0 < device.sector_size_bytes
    → 0 < count
    → read_device s index lba count buffer
      ≡ read_loop read device.sector_size_bytes lba count 0 buffer
unfolding read_device
read_device-loop s index lba count buffer device read there readable small pos some_sector =
    let no_zero : (count == 0) ≡ false = ground arith in
    let sized : (device.sector_size_bytes == 0) ≡ false = ground arith in
    elim (Bool-cases (count == 1)) [
      | inl single ↦
          let one : count ≡ 1 = ground arith in
          rw (read_device, there, readable, no_zero, single)
            (read_one-loop device read lba buffer small
              ∙ ap (λ n. read_loop read device.sector_size_bytes lba n 0 buffer) (sym one))
      | inr several ↦ rw (read_device, there, readable, no_zero, several, sized)
    ]

-- A read of several sectors from a device that is there succeeds exactly if the driver can read every
-- one of them; the buffer then holds the sectors one behind the other. The device has a sector size,
-- and the buffer lies below 4 GiB.
pub read_device_lem :
    (s : Block) (index lba count : ℕ) (buffer : ℕ → ℕ) (device : BlockDevice)
    → (read : (lba count : ℕ) → Option (ℕ → ℕ)) → device_at s index ≡ some device
    → device.read ≡ some read
    → lba < 2 ^ 32
    → 0 < device.sector_size_bytes
    → 0 < count
    → count * device.sector_size_bytes < 2 ^ 32
    → ((out : ℕ → ℕ)
        → read_device s index lba count buffer ≡ some out
        → HoldsSectors read device.sector_size_bytes lba count out)
      × (((i : ℕ) → i < count → (sector : ℕ → ℕ) × (sector_at read lba i ≡ some sector))
          → (out : ℕ → ℕ) × (read_device s index lba count buffer ≡ some out))
read_device_lem s index lba count buffer device read there readable small pos some_sector fits =
    rw (read_device-loop s index lba count buffer device read there readable small pos some_sector)
      (
        λ out e i lt.
            let (front, rest) =
              read_loop_lem read device.sector_size_bytes lba count 0 buffer out pos (omega arith)
                e in
            rest i (omega arith) (omega arith),
        λ good.
            read_loop-some read device.sector_size_bytes lba count 0 buffer
              (λ i low high. good i (omega arith)),
      )
