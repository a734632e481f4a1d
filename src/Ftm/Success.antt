-- ===== src/Ftm/Success.antt =====
-- ptp_ftm_success.h: the share of measurements of the last ten seconds that succeeded.
use esp_ptp.Base.{
  ℕ, zero, suc, ◌+◌, ◌-◌, ◌*◌, ◌/◌, ◌%◌, ◌^◌, ◌≤◌, ◌<◌, Bool, true, false, not, ◌&&◌, ◌||◌,
  if◌then◌else◌, ◌==◌, ltb, leb, ◌≡◌, refl, sym, ap, ◌∙◌, ◌≢◌, ◌↔◌, ◌⊎◌, inl, inr, Option, none,
  some, List, [], ◌∷◌, ◌++◌, map, arith, Bool-cases, Option-cases, ==_iff, length, get_or,
  get_elem?, set, take, drop, replicate, length-set, length-append, length-take, length-drop,
  length-replicate, length-map, take-append-drop,
}
use esp_ptp.Base.Int.{
  ℤ, pos, negsuc, neg, pos_part, neg_part, sub_ℕ, ◌+ℤ◌, ◌-ℤ◌, ◌*ℤ◌, lt_ℤ, le_ℤ, ◌==ℤ◌, ◌≤ℤ◌, ◌<ℤ◌,
  int64_max, int32_max, quot, rem, wrap, signed, min_ℤ, max_ℤ, int_laws, +ℤ_parts, -ℤ_parts,
  eq_of_parts,
}
use esp_ptp.Base.Word.{u8, u16, u32, uint16_max, next_nonzero}
use esp_ptp.Base.Bytes.{
  Bytes, byte, same, same_iff, same_refl, slice, be16, zeros, copy, fill, byte-set, byte-fill,
  byte-copy, length-fill, length-copy, byte-take, bytes_ext,
}
mod Tests

-- One second of ptp_ftm_success_t, whose three arrays have one entry for each.
pub record Bucket : Type 0 where
  pub second : ℤ
  pub attempts : ℕ
  pub valid : ℕ

-- PTP_FTM_SUCCESS_SECONDS
abbrev pub seconds_kept : ℕ
seconds_kept = 10

-- PTP_FTM_SUCCESS_NONE
abbrev pub no_measurement : ℕ
no_measurement = 0xff

-- The bucket of a slot after ptp_ftm_success_record at this second.
pub count_in : Bucket → ℤ → Bool → Bucket
count_in b second valid =
    let fresh =
      if b.second ==ℤ second then b else record { second = second; attempts = 0; valid = 0 } in
    if fresh.attempts == uint16_max
    then fresh
    else if valid
    then record fresh { attempts = fresh.attempts + 1; valid = u16 (fresh.valid + 1) }
    else record fresh { attempts = fresh.attempts + 1 }

-- ptp_ftm_success_record at a time that is not negative
pub record_measurement : List Bucket → ℕ → Bool → List Bucket
record_measurement window now valid =
    let slot = now / 1000000 % seconds_kept in
    elim (get_elem? window slot) [
      | none ↦ window
      | some b ↦ set window slot (count_in b (pos (now / 1000000)) valid)
    ]

-- The bucket is of the last ten seconds.
abbrev pub recent : Bucket → ℤ → Bool
recent b second =
    let age = second -ℤ b.second in not (lt_ℤ age (pos 0) || le_ℤ (pos seconds_kept) age)

-- The loop of ptp_ftm_success_percent: the attempts and the valid ones among them.
pub totals : List Bucket → ℤ → ℕ × ℕ
totals [] second = (0, 0)
totals (b ∷ bs) second =
    let (attempts, valid) = totals bs second in
    if recent b second
    then (u32 (b.attempts + attempts), u32 (b.valid + valid))
    else (attempts, valid)

-- ptp_ftm_success_percent
pub success_percent : List Bucket → ℕ → ℕ
success_percent window now =
    let (attempts, valid) = totals window (pos (now / 1000000)) in
    if attempts == 0 then no_measurement else u8 (u32 (u32 (valid * 100) + attempts / 2) / attempts)

-- Sixteen-bit counts with no more valid measurements than attempts.
pub IsWindow : List Bucket → Type 0
IsWindow [] = 0 ≤ 0
IsWindow (b ∷ bs) = (b.valid ≤ b.attempts) × (b.attempts ≤ uint16_max) × IsWindow bs

count_in_bounds :
    (b : Bucket) (second : ℤ) (valid : Bool)
    → b.valid ≤ b.attempts
    → b.attempts ≤ uint16_max
    → ((count_in b second valid).valid ≤ (count_in b second valid).attempts)
      × ((count_in b second valid).attempts ≤ uint16_max)
unfolding count_in
count_in_bounds b second valid h k = ground arith

set-IsWindow :
    (bs : List Bucket) (i : ℕ) (b : Bucket) (second : ℤ) (valid : Bool)
    → IsWindow bs
    → get_elem? bs i ≡ some b
    → IsWindow (set bs i (count_in b second valid))
unfolding IsWindow
set-IsWindow [] i b second valid h k = h
set-IsWindow (c ∷ bs) zero b second valid h k =
    ground (arith, h, k, count_in_bounds c second valid h.0 h.1)
set-IsWindow (c ∷ bs) (suc i) b second valid h k =
    (h.0, h.1, set-IsWindow bs i b second valid h.2 k)

totals_bounds :
    (bs : List Bucket) (second : ℤ)
    → IsWindow bs
    → length bs ≤ 100
    → ((totals bs second).1 ≤ (totals bs second).0)
      × ((totals bs second).0 ≤ length bs * uint16_max)
unfolding totals IsWindow
totals_bounds [] second h k = (omega arith, omega arith)
totals_bounds (b ∷ bs) second h k =
    ground (arith, h.0, h.1, totals_bounds bs second h.2 (omega arith))

-- Counting a measurement keeps no more valid ones than attempts in any slot, and no 16-bit count wraps.
pub record_measurement-IsWindow :
    (window : List Bucket) (now : ℕ) (valid : Bool)
    → IsWindow window
    → IsWindow (record_measurement window now valid)
unfolding record_measurement
record_measurement-IsWindow window now valid h =
    elim (Option-cases (get_elem? window (now / 1000000 % seconds_kept))) [
      | inl e ↦ rw (record_measurement, e) h
      | inr (b, e) ↦
          rw (record_measurement, e)
            (set-IsWindow window (now / 1000000 % seconds_kept) b (pos (now / 1000000)) valid h e)
    ]

percent_bound : (v a : ℕ) → v ≤ a → 1 ≤ a → (v * 100 + a / 2) / a ≤ 100
percent_bound v a h k = grind arith

-- The share is that of the attempts of the last ten seconds that were valid, rounded to the nearest
-- percent, and it is at most 100; where there was no attempt it is the reserved value 0xff. No sum on
-- the way wraps.
pub success_percent_result :
    (window : List Bucket) (now : ℕ)
    → IsWindow window
    → length window ≡ seconds_kept
    → let (attempts, valid) = totals window (pos (now / 1000000)) in
      ((attempts ≡ 0) × (success_percent window now ≡ no_measurement))
      ⊎ (1 ≤ attempts)
        × (success_percent window now ≡ (valid * 100 + attempts / 2) / attempts)
        × (success_percent window now ≤ 100)
unfolding success_percent
success_percent_result window now h k = ground (
  arith,
  totals_bounds window (pos (now / 1000000)) h (omega (arith, k)),
  k,
  percent_bound (totals window (pos (now / 1000000))).1 (totals window (pos (now / 1000000))).0,
)
