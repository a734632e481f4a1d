-- ===== src/Clock/Software/Tests.antt =====
-- Instances of the theorems on the software clock.
use esp_ptp.Base.{true, none, List, [], ◌∷◌, arith}
use esp_ptp.Base.Int.{ℤ, pos, neg, ◌≤ℤ◌}
use esp_ptp.Clock.Affine.{affine_now}
use esp_ptp.Clock.Software.{State, Call, init, adjtime_offset, adjtime_rate, run, unset}
use esp_ptp.Clock.Software.Laws.{IsRate, run_mono}

-- Initialisation, a rate far out of range, and a step.
abbrev calls : List (ℤ × Call)
calls =
    (pos 0, init none)
    ∷ (pos 100, adjtime_rate (pos 900000000))
    ∷ (pos 200, adjtime_offset (neg 50))
    ∷ []

abbrev started : State
started = record {
  clock = record { local_ns = pos 0; ptp_ns = pos 70; rate_ppb = pos 0 };
  initialized = true;
}

run_mono_example :
    let s = run unset calls in
    IsRate s.clock.rate_ppb × (affine_now s.clock (pos 300) ≤ℤ affine_now s.clock (pos 400))
run_mono_example = run_mono calls (pos 300) (pos 400) (omega arith)
