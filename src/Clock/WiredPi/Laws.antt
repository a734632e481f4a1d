-- ===== src/Clock/WiredPi/Laws.antt =====
-- The trim of the wired clock: the bounds of its output and of the integral that is kept, over exact
-- integers.
use esp_ptp.Base.{arith}
use esp_ptp.Base.Int.{ℤ, pos, neg, ◌≤ℤ◌}
use esp_ptp.Clock.WiredPi.{
  trim_limit, bounded_interval, bounded_offset, proportional, numerator, denominator, scaled_ratio,
  settle, wired_pi_step,
}

-- The integral that is kept, in units of 2 ^ -16 ppb.
abbrev pub IsIntegral : ℤ → Type 0
IsIntegral i = (neg 33554432000 ≤ℤ i) × (i ≤ℤ pos 33554432000)

settle_bounds :
    (integral offset part increment : ℤ)
    → IsIntegral integral
    → let (kept, out) = settle integral offset part increment in
      IsIntegral kept × (neg trim_limit ≤ℤ out) × (out ≤ℤ pos trim_limit)
unfolding settle
settle_bounds integral offset part increment h = ground arith

-- The output is within 512 ppm, and the integral stays within the same limit, for every offset and
-- interval, so the integral cannot wind up.
pub wired_pi_step_bounds :
    (integral offset interval : ℤ)
    → IsIntegral integral
    → let (kept, out) = wired_pi_step integral offset interval in
      IsIntegral kept × (neg trim_limit ≤ℤ out) × (out ≤ℤ pos trim_limit)
unfolding wired_pi_step
wired_pi_step_bounds integral offset interval h =
    let i = bounded_interval interval in
    let o = bounded_offset offset in
    settle_bounds integral o (proportional o i) (scaled_ratio (numerator o i) (denominator i)) h
