-- ===== src/Daemon/Rank/Tests.antt =====
-- Two announced clocks, and instances of the theorem on their order.
use esp_ptp.Base.{true, false, ◌≡◌, refl, ◌⊎◌, [], ◌∷◌}
use esp_ptp.Base.Bytes.{Bytes, same}
use esp_ptp.Daemon.Rank.{Announced, before, rank, is_better_clock, is_better_clock_order}

abbrev clock_a : Bytes
clock_a = 1 ∷ 2 ∷ 3 ∷ 4 ∷ 5 ∷ 6 ∷ 7 ∷ 8 ∷ []

abbrev clock_b : Bytes
clock_b = 11 ∷ 12 ∷ 13 ∷ 14 ∷ 15 ∷ 16 ∷ 17 ∷ 18 ∷ []

abbrev first : Announced
first = record {
  btc_priority1 = 246;
  btc_quality = 248 ∷ 254 ∷ 67 ∷ 106 ∷ [];
  btc_priority2 = 248;
  btc_identity = clock_a;
  stepsremoved = 0 ∷ 1 ∷ [];
  sourceidentity = clock_a;
  sourceportindex = 0 ∷ 1 ∷ [];
}

-- Worse in priority1 and better in all else.
abbrev second : Announced
second = record first {
  btc_priority1 = 247;
  btc_quality = 6 ∷ 33 ∷ 0 ∷ 0 ∷ [];
  stepsremoved = 0 ∷ 0 ∷ [];
}

abbrev third : Announced
third = record second { btc_identity = clock_b }

first_better : is_better_clock first second ≡ true
unfolding is_better_clock before same
first_better = refl

second_worse : is_better_clock second first ≡ false
unfolding is_better_clock before same
second_worse = refl

is_better_clock_order_example :
    (is_better_clock first first ≡ false)
    × ((is_better_clock first second ≡ false)
        ⊎ (is_better_clock second third ≡ false)
        ⊎ (is_better_clock first third ≡ true))
    × ((is_better_clock first second ≡ true)
        ⊎ (is_better_clock second first ≡ true)
        ⊎ (rank first ≡ rank second))
is_better_clock_order_example =
    is_better_clock_order first second third (refl, refl, refl, refl, refl)
      (refl, refl, refl, refl, refl) (refl, refl, refl, refl, refl)
