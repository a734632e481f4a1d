-- ===== src/Daemon/Delay/Average.antt =====
-- The running average of Daemon.Delay, and the samples that are refused.
use esp_ptp.Base.{ℕ, suc, ◌+◌, ◌/◌, ◌≤◌, if◌then◌else◌, ltb, ◌≡◌, ◌⊎◌, inl, inr, arith}
use esp_ptp.Base.Int.{
  ℤ, pos, negsuc, pos_part, neg_part, ◌-ℤ◌, ◌≤ℤ◌, quot, +ℤ_parts, -ℤ_parts, neg_parts,
}
use native.Mathlib.Nat.{div-le_self}
use esp_ptp.Daemon.Delay.{move_average, average}

-- Division by a count brings a difference nearer to 0.
quot_parts :
    (a : ℤ) (n : ℕ)
    → (pos_part (quot a (pos n)) ≤ pos_part a) × (neg_part (quot a (pos n)) ≤ neg_part a)
quot_parts (pos a) n = (div-le_self a n, omega arith)
quot_parts (negsuc a) n =
    let l : suc a / n ≤ suc a = div-le_self (suc a) n in ground (arith, l, neg_parts (suc a / n))

difference_sign :
    (a b : ℤ) → (a ≤ℤ b) × (neg_part (b -ℤ a) ≡ 0) ⊎ (b ≤ℤ a) × (pos_part (b -ℤ a) ≡ 0)
unfolding ◌-ℤ◌
difference_sign a b = ground arith

-- The average after a sample stays between the average before it and the sample, so that it never
-- leaves a range that all samples are in.
pub average_between :
    (limit count : ℕ) (mean sample : ℤ)
    → let mean' = (average limit count mean sample).1 in
      (mean ≤ℤ sample) × (mean ≤ℤ mean') × (mean' ≤ℤ sample)
      ⊎ (sample ≤ℤ mean) × (sample ≤ℤ mean') × (mean' ≤ℤ mean)
unfolding average move_average
average_between limit count mean sample =
    let n = if ltb count limit then count + 1 else count in
    let step = quot (sample -ℤ mean) (pos n) in
    let near = quot_parts (sample -ℤ mean) n in
    let sum = +ℤ_parts mean step in
    let difference = -ℤ_parts sample mean in
    elim (difference_sign mean sample) [
      | inl e ↦ inl (
        e.0,
        omega (arith, e.1, near.1, sum),
        omega (arith, e.1, near.0, near.1, sum, difference),
      )
      | inr e ↦ inr (
        e.0,
        omega (arith, e.1, near.0, near.1, sum, difference),
        omega (arith, e.1, near.0, sum),
      )
    ]
