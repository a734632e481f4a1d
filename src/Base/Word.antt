-- ===== src/Base/Word.antt =====
-- Unsigned machine words: a value below 2 ^ w, with the wrap-around written out.
use Prim.Native.Nat.{ℕ, ◌+◌, ◌%◌, ◌^◌}
use esp_ptp.Base.Tests.{◌==◌, if◌then◌else◌}

abbrev pub u8 : ℕ → ℕ
u8 n = n % 2 ^ 8

abbrev pub u16 : ℕ → ℕ
u16 n = n % 2 ^ 16

abbrev pub u32 : ℕ → ℕ
u32 n = n % 2 ^ 32

abbrev pub uint16_max : ℕ
uint16_max = 0xffff

-- `if (!++x) ++x`: a counter that skips 0.
abbrev pub next_nonzero : ℕ → ℕ
next_nonzero n = if u32 (n + 1) == 0 then 1 else u32 (n + 1)
