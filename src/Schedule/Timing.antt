-- ===== src/Schedule/Timing.antt =====
-- What the schedules share: the test of the current time against a period, and rounding to
-- milliseconds. The headers write each of these out where they use it.
use esp_ptp.Base.{
  ℕ, ◌+◌, ◌-◌, ◌*◌, ◌/◌, ◌^◌, ◌≤◌, Bool, false, ◌||◌, if◌then◌else◌, ◌≡◌, ◌≢◌, ◌↔◌, ◌⊎◌, arith,
}
use esp_ptp.Base.Int.{
  ℤ, pos, ◌+ℤ◌, ◌-ℤ◌, lt_ℤ, ◌==ℤ◌, ◌≤ℤ◌, int64_max, quot, rem, +ℤ_parts, -ℤ_parts,
}
use native.Mathlib.Nat.{pow-le-pow_right}

-- The longest period, 2 ^ 24 seconds.
abbrev pub longest_us : ℤ
longest_us = pos (1000000 * 2 ^ 24)

-- The period is 0, or the time out of range for it.
unfoldable pub unusable : ℤ → ℤ → Bool
unusable period now = period ==ℤ pos 0 || lt_ℤ now (pos 0) || lt_ℤ (int64_max -ℤ period) now

-- A stopped schedule, or a period of at most the longest.
abbrev pub IsPeriod : ℤ → Type 0
IsPeriod p = (p ≡ pos 0) ⊎ (pos 1 ≤ℤ p) × (p ≤ℤ longest_us)

pub usable_iff :
    (p now : ℤ)
    → IsPeriod p
    → (unusable p now ≡ false) ↔ ((p ≢ pos 0) × (pos 0 ≤ℤ now) × (now +ℤ p ≤ℤ int64_max))
unfolding unusable
usable_iff p now h = ground (arith, -ℤ_parts int64_max p, +ℤ_parts now p)

-- `us / 1000 + (us % 1000 != 0)`.
abbrev pub ms_ceil : ℤ → ℤ
ms_ceil us = quot us (pos 1000) +ℤ (if rem us (pos 1000) ==ℤ pos 0 then pos 0 else pos 1)

-- Rounding a delay up to milliseconds.
abbrev pub ceil_ms : ℕ → ℕ
ceil_ms d = (d + 999) / 1000

pub ms_ceil_lem : (d : ℕ) → ms_ceil (pos d) ≡ pos (ceil_ms d)
unfolding ◌+ℤ◌
ms_ceil_lem d = ground arith

pub pow_bounds : (n : ℕ) → n ≤ 24 → (1 ≤ 2 ^ n) × (2 ^ n ≤ 2 ^ 24)
pow_bounds n h = (
  pow-le-pow_right {n = 2} (omega arith) {i = 0} (omega arith),
  pow-le-pow_right {n = 2} (omega arith) h,
)

-- Division rounded up, by a positive divisor.
pub ceil_bounds : (a d : ℕ) → 1 ≤ a → 1 ≤ d → (1 ≤ (a + d - 1) / d) × ((a + d - 1) / d ≤ a)
ceil_bounds a d ha hd = (grind arith, grind arith)
