-- ===== src/Klog.antt =====
-- src/kernel/core/klog.c: the kernel log, a buffer of 4096 characters that ends in a NUL.
-- A C string is the list of its characters before the NUL.
pub mod Contents
mod Tests
use termob_kernel.Base.{ℕ, ◌+◌, ◌-◌, List, [], ◌∷◌, ltb, if◌then◌else◌}
use termob_kernel.Base.Arrays.{set, for_range}

-- KLOG_CAPACITY
abbrev pub klog_capacity : ℕ
klog_capacity = 4096

pub record Klog : Type 0 where
  pub buffer : ℕ → ℕ
  pub length : ℕ

-- for (i = 1; i < KLOG_CAPACITY - 1; i++) buffer[i - 1] = buffer[i], over the first `n` rounds
shift_left : ℕ → (ℕ → ℕ) → ℕ → ℕ
shift_left n buffer = for_range n 1 (λ i b. set b (i - 1) (b i)) buffer

pub append_char : Klog → ℕ → Klog
append_char s c =
    if ltb s.length (klog_capacity - 1)
    then record s { buffer = set (set s.buffer s.length c) (s.length + 1) 0; length = s.length + 1 }
    else record s {
      buffer =
          set (set (shift_left (klog_capacity - 2) s.buffer) (klog_capacity - 2) c)
            (klog_capacity - 1) 0;
    }

pub init : Klog → Klog
init s = record { buffer = set s.buffer 0 0; length = 0 }

pub write : Klog → List ℕ → Klog
write s [] = s
write s (c ∷ text) = write (append_char s c) text

pub writeline : Klog → List ℕ → Klog
writeline s text = append_char (write s text) 10
