-- ===== src/Ftm/Counter.antt =====
-- ptp_ftm_counter.h and ptp_ftm_rtt.h: whether a 48-bit counter went back, and whether a round trip
-- time is positive.
use esp_ptp.Base.{
  ℕ, ◌+◌, ◌-◌, ◌/◌, ◌%◌, ◌^◌, ◌<◌, Bool, true, false, ◌&&◌, ◌||◌, if◌then◌else◌, ltb, leb, ◌≡◌, ◌↔◌,
  arith,
}

-- The period of the counter, and the tolerance.
abbrev pub period : ℕ
period = 2 ^ 48

abbrev pub tolerance : ℕ
tolerance = 1000000000000

-- ptp_ftm_counter_backward; `& (period - 1)` of the 64-bit difference is its remainder
pub counter_backward : ℕ → ℕ → Bool
counter_backward previous current =
    if leb period previous || leb period current
    then false
    else let forward = (current + 2 ^ 64 - previous) % 2 ^ 64 % period in
      ltb (period / 2) forward && ltb tolerance (period - forward)

-- ptp_ftm_rtt_positive
pub rtt_positive : ℕ → Bool
rtt_positive rtt = ltb 0 rtt && leb rtt (2 ^ 31 - 1)

-- Counting on by less than half a period from any value is never taken for going back, wrap-around
-- included; going back by more than the tolerance and less than half a period always is, and by at most
-- the tolerance never is.
pub counter_backward_result :
    (previous step : ℕ)
    → previous < period
    → step < period / 2
    → (counter_backward previous ((previous + step) % period) ≡ false)
      × ((counter_backward previous ((previous + period - step) % period) ≡ true)
          ↔ (tolerance < step))
unfolding counter_backward
counter_backward_result previous step h k = (ground arith, ground arith)
