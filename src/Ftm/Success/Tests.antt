-- ===== src/Ftm/Success/Tests.antt =====
-- An instance of the theorem on the share of measurements that succeed.
use esp_ptp.Base.{◌≡◌, refl, List, ◌∷◌, ◌++◌, arith, replicate}
use esp_ptp.Base.Int.{pos, neg, ◌-ℤ◌}
use esp_ptp.Ftm.Success.{Bucket, IsWindow, totals, success_percent}

abbrev unused : Bucket
unused = record { second = neg 100; attempts = 0; valid = 0 }

-- Two of three measurements at second 4 succeeded.
abbrev window : List Bucket
window =
    replicate 4 unused ++ record { second = pos 4; attempts = 3; valid = 2 } ∷ replicate 5 unused

window-IsWindow : IsWindow window
unfolding IsWindow
window-IsWindow = (
  omega arith,
  omega arith,
  (
    omega arith,
    omega arith,
    (
      omega arith,
      omega arith,
      (
        omega arith,
        omega arith,
        (
          omega arith,
          omega arith,
          (
            omega arith,
            omega arith,
            (
              omega arith,
              omega arith,
              (
                omega arith,
                omega arith,
                (omega arith, omega arith, (omega arith, omega arith, (omega arith))),
              ),
            ),
          ),
        ),
      ),
    ),
  ),
)

two_thirds : success_percent window 4500000 ≡ 67
unfolding success_percent totals ◌-ℤ◌
two_thirds = refl
