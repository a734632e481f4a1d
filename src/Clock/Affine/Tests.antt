-- ===== src/Clock/Affine/Tests.antt =====
-- Instances of the theorems on the affine clock.
use esp_ptp.Base.{false, if◌then◌else◌, ◌≡◌, refl}
use esp_ptp.Base.Int.{pos, neg, ◌+ℤ◌, ◌*ℤ◌, ◌≤ℤ◌, quot}
use esp_ptp.Clock.Affine.{Clock, billion, rate_correction, affine_now, clamp, discipline, target}
use esp_ptp.Clock.Affine.Laws.{rate_correction-eq-quot, discipline_result}

-- 50 ppm fast.
abbrev fast : Clock
fast = record { local_ns = pos 1000; ptp_ns = pos 5000; rate_ppb = pos 50000 }

holdover : rate_correction (pos 86400000000000) (neg 512000) ≡ neg 44236800000
unfolding rate_correction ◌+ℤ◌ ◌*ℤ◌
holdover = refl

discipline_result_example :
    let (c', error) = discipline fast (pos 2000) (pos 1500) (pos 6500) (pos 40000) false in
    (affine_now fast (pos 2000) +ℤ error ≡ target (pos 2000) (pos 1500) (pos 6500) (pos 40000))
    × (affine_now c' (pos 2000) ≡ (
        if false
        then target (pos 2000) (pos 1500) (pos 6500) (pos 40000)
        else affine_now fast (pos 2000)))
    × (neg 512000 ≤ℤ c'.rate_ppb)
    × (c'.rate_ppb ≤ℤ pos 512000)
    × (c'.rate_ppb
        ≡ clamp 512000 (if false then (pos 40000) else (pos 40000) +ℤ clamp 200000 error))
discipline_result_example =
    discipline_result fast (pos 2000) (pos 1500) (pos 6500) (pos 40000) false

rate_correction-eq-quot_example :
    rate_correction (neg 3000000001) (pos 7) ≡ quot ((neg 3000000001) *ℤ (pos 7)) billion
rate_correction-eq-quot_example = rate_correction-eq-quot (neg 3000000001) (pos 7)
