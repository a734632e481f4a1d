-- ===== src/Schedule/Interval.antt =====
-- ptp_capable_interval.h: the interval of the gPTP-capable messages to one peer, which the peer
-- may ask to change; a slowdown takes effect after nine more transmissions.
use esp_ptp.Base.{
  ℕ, zero, suc, ◌+◌, ◌-◌, ◌*◌, ◌/◌, ◌%◌, ◌^◌, ◌≤◌, ◌<◌, Bool, true, false, not, ◌&&◌, ◌||◌,
  if◌then◌else◌, ◌==◌, ltb, leb, ◌≡◌, refl, sym, ap, ◌∙◌, ◌≢◌, ◌↔◌, ◌⊎◌, inl, inr, Option, none,
  some, List, [], ◌∷◌, ◌++◌, map, arith, Bool-cases, Option-cases, ==_iff, length, get_or,
  get_elem?, set, take, drop, replicate,
}
use esp_ptp.Base.Int.{
  ℤ, pos, negsuc, neg, pos_part, neg_part, sub_ℕ, ◌+ℤ◌, ◌-ℤ◌, ◌*ℤ◌, lt_ℤ, le_ℤ, ◌==ℤ◌, ◌≤ℤ◌, ◌<ℤ◌,
  int64_max, int32_max, quot, rem, wrap, signed, min_ℤ, max_ℤ, int_laws, +ℤ_parts, -ℤ_parts,
  eq_of_parts,
}
use esp_ptp.Base.Word.{u8, u16, u32, uint16_max, next_nonzero}
use esp_ptp.Base.Bytes.{Bytes, byte, same, same_iff, same_refl, slice, be16, zeros}
pub mod Laws
mod Tests

-- ptp_capable_interval_t
pub record Interval : Type 0 where
  pub log_interval : ℤ
  pub slowdown_remaining : ℕ
  pub old_interval_us : ℤ

-- ptp_capable_interval_us
unfoldable pub interval_us : ℤ → ℤ
interval_us logarithm =
    if lt_ℤ logarithm (neg 3) || lt_ℤ (pos 24) logarithm
    then pos 0
    else if lt_ℤ logarithm (pos 0)
    then pos (1000000 / 2 ^ neg_part logarithm)
    else pos (1000000 * 2 ^ pos_part logarithm)

-- ptp_capable_interval_period
unfoldable pub interval_period : Interval → ℤ
interval_period s =
    if s.log_interval ==ℤ pos 127
    then pos 0
    else if s.slowdown_remaining == 0
    then interval_us s.log_interval
    else s.old_interval_us

-- The reset value 126 and the rates above the fastest one are replaced.
supported : ℤ → ℤ
supported request =
    let r = if request ==ℤ pos 126 then pos 0 else request in
    if le_ℤ (neg 24) r && lt_ℤ r (neg 3) then neg 3 else r

-- ptp_capable_interval_request from its fourth statement on
accept : Interval → ℤ → Interval × Bool
accept s request =
    let previous = interval_period s in
    let next = interval_us request in
    if not (request ==ℤ pos 127) && next ==ℤ pos 0
    then (s, false)
    else if request ==ℤ s.log_interval
    then (s, true)
    else (
      record {
        log_interval = request;
        slowdown_remaining = if not (previous ==ℤ pos 0) && lt_ℤ previous next then 9 else 0;
        old_interval_us = previous;
      },
      true,
    )

-- ptp_capable_interval_request
pub interval_request : Interval → ℤ → Interval × Bool
interval_request s request = if request ==ℤ neg 128 then (s, true) else accept s (supported request)

-- ptp_capable_interval_sent
pub interval_sent : Interval → ℤ → Bool → Interval
interval_sent s advertised accepted =
    if accepted && s.log_interval ==ℤ advertised && not (s.slowdown_remaining == 0)
    then record s { slowdown_remaining = s.slowdown_remaining - 1 }
    else s
