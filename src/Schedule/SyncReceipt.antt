-- ===== src/Schedule/SyncReceipt.antt =====
-- ptp_sync_receipt.h: until when the last Sync received counts.
use esp_ptp.Base.{
  ℕ, zero, suc, ◌+◌, ◌-◌, ◌*◌, ◌/◌, ◌%◌, ◌^◌, ◌≤◌, ◌<◌, Bool, true, false, not, ◌&&◌, ◌||◌,
  if◌then◌else◌, ◌==◌, ltb, leb, ◌≡◌, refl, sym, ap, ◌∙◌, ◌≢◌, ◌↔◌, ◌⊎◌, inl, inr, Option, none,
  some, List, [], ◌∷◌, ◌++◌, map, arith, Bool-cases, Option-cases, ==_iff, length, get_or,
  get_elem?, set, take, drop, replicate,
}
use esp_ptp.Base.Int.{
  ℤ, pos, negsuc, neg, pos_part, neg_part, sub_ℕ, ◌+ℤ◌, ◌-ℤ◌, ◌*ℤ◌, lt_ℤ, le_ℤ, ◌==ℤ◌, ◌≤ℤ◌, ◌<ℤ◌,
  int64_max, int32_max, quot, rem, wrap, signed, min_ℤ, max_ℤ, int_laws, +ℤ_parts, -ℤ_parts,
  eq_of_parts,
}
use esp_ptp.Base.Word.{u8, u16, u32, uint16_max, next_nonzero}
use esp_ptp.Base.Bytes.{Bytes, byte, same, same_iff, same_refl, slice, be16, zeros}
use esp_ptp.Schedule.Timing.{ms_ceil, ms_ceil_lem, ceil_ms, pow_bounds, ceil_bounds}
mod Tests

-- ptp_sync_receipt_t
pub record Receipt : Type 0 where
  pub received_us : ℤ
  pub interval_us : ℤ
  pub armed : Bool

-- ptp_sync_receipt_interval
unfoldable pub receipt_interval : ℤ → ℤ
receipt_interval logarithm =
    if lt_ℤ logarithm (neg 24) || lt_ℤ (pos 24) logarithm
    then pos 0
    else if le_ℤ (pos 0) logarithm
    then pos (3000000 * 2 ^ pos_part logarithm)
    else pos ((3000000 + 2 ^ neg_part logarithm - 1) / 2 ^ neg_part logarithm)

-- ptp_sync_receipt_start
unfoldable pub receipt_start : ℤ → ℤ → Receipt
receipt_start now initial = record {
  received_us = now;
  interval_us = initial;
  armed = le_ℤ (pos 0) now && lt_ℤ (pos 0) initial;
}

-- ptp_sync_receipt_current
unfoldable pub receipt_current : Receipt → ℤ → Bool
receipt_current s now =
    s.armed && le_ℤ s.received_us now && lt_ℤ (now -ℤ s.received_us) s.interval_us

-- A receipt that was started has ended when its interval has passed.
pub receipt_start_ends :
    (now initial t : ℤ)
    → now +ℤ initial ≤ℤ t
    → receipt_current (receipt_start now initial) t ≡ false
unfolding receipt_current receipt_start
receipt_start_ends now initial t h = ground (arith, -ℤ_parts t now, +ℤ_parts now initial)

-- ptp_sync_receipt_observe_window
pub observe_window : Receipt → ℤ → ℤ → ℤ → Receipt × Bool
observe_window s received window now =
    if le_ℤ window (pos 0)
      || lt_ℤ received (pos 0)
      || lt_ℤ now received
      || le_ℤ window (now -ℤ received)
      || (s.armed && lt_ℤ received s.received_us)
    then (s, false)
    else (receipt_start received window, true)

-- ptp_sync_receipt_observe
pub receipt_observe : Receipt → ℤ → ℤ → ℤ → Receipt × Bool
receipt_observe s received logarithm now =
    observe_window s received (receipt_interval logarithm) now

-- ptp_sync_receipt_wait_ms
pub receipt_wait_ms : Receipt → ℤ → ℤ → ℤ
receipt_wait_ms s now limit =
    if le_ℤ limit (pos 0) || not (receipt_current s now)
    then pos 0
    else min_ℤ (ms_ceil (s.interval_us -ℤ (now -ℤ s.received_us))) limit

pub observe_window_result :
    (s : Receipt) (received window now : ℤ)
    → let (s', taken) = observe_window s received window now in
      ((taken ≡ true) ↔ (
        (pos 0 ≤ℤ received)
        × (received ≤ℤ now)
        × (now <ℤ received +ℤ window)
        × ((s.armed ≡ false) ⊎ (s.received_us ≤ℤ received))))
      × ((taken ≡ true) × (receipt_current s' now ≡ true) × (s' ≡ receipt_start received window)
          ⊎ (taken ≡ false) × (s' ≡ s))
unfolding observe_window receipt_current receipt_start
observe_window_result s received window now =
    ground (arith, -ℤ_parts now received, +ℤ_parts received window)

-- A receipt that is current at one time is current at every time back to its reception, and stops
-- being current exactly when the interval is over.
pub receipt_current_until :
    (s : Receipt) (t : ℕ)
    → s.armed ≡ true
    → (receipt_current s (s.received_us +ℤ pos t) ≡ true) ↔ (pos t <ℤ s.interval_us)
unfolding receipt_current
receipt_current_until s t h =
    ground (arith, -ℤ_parts (s.received_us +ℤ pos t) s.received_us, +ℤ_parts s.received_us (pos t))

-- Three intervals, rounded up to a microsecond, for every defined logarithm.
receipt_interval_bounds :
    (l : ℤ)
    → neg 24 ≤ℤ l
    → l ≤ℤ pos 24
    → (pos 1 ≤ℤ receipt_interval l) × (receipt_interval l ≤ℤ pos (3000000 * 2 ^ 24))
unfolding receipt_interval
receipt_interval_bounds (pos n) lo hi = ground (arith, pow_bounds n (omega arith))
receipt_interval_bounds (negsuc n) lo hi =
    ground (arith, pow_bounds (suc n) (omega arith), ceil_bounds 3000000 (2 ^ suc n) (omega arith))

receipt_interval_zero : (l : ℤ) → (l <ℤ neg 24) ⊎ (pos 24 <ℤ l) → receipt_interval l ≡ pos 0
unfolding receipt_interval
receipt_interval_zero l h = ground arith

-- An accepted Sync with a defined logarithm counts from its reception for at least a microsecond and
-- at most three of the longest intervals; one with an undefined logarithm is never accepted.
pub receipt_observe_bounds :
    (s : Receipt) (received l now : ℤ)
    → (receipt_observe s received l now).1 ≡ true
    → let s' = (receipt_observe s received l now).0 in
      (neg 24 ≤ℤ l)
      × (l ≤ℤ pos 24)
      × (s'.received_us ≡ received)
      × (pos 1 ≤ℤ s'.interval_us)
      × (s'.interval_us ≤ℤ pos (3000000 * 2 ^ 24))
      × (receipt_current s' now ≡ true)
unfolding receipt_observe receipt_start
receipt_observe_bounds s received l now h = ground (
  arith,
  observe_window_result s received (receipt_interval l) now,
  receipt_interval_bounds l,
  receipt_interval_zero l,
  +ℤ_parts received (receipt_interval l),
)

-- The daemon sleeps no longer than its limit, and while the receipt is current wakes at the first
-- millisecond at which it may have expired.
pub receipt_wait_ms_result :
    (s : Receipt) (left limit : ℕ) (now : ℤ)
    → receipt_current s now ≡ true
    → s.interval_us -ℤ (now -ℤ s.received_us) ≡ pos left
    → (w : ℕ) × (receipt_wait_ms s now (pos limit) ≡ pos w)
      × (w ≤ limit)
      × ((left ≤ w * 1000) ⊎ (w ≡ limit))
      × (w * 1000 < left + 1000)
unfolding receipt_wait_ms
receipt_wait_ms_result s left limit now current h = (
  if ltb limit (ceil_ms left) then limit else ceil_ms left,
  rw (current, h, ms_ceil_lem) (ground arith),
  ground arith,
  ground arith,
  ground arith,
)
