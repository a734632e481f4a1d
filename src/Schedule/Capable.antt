-- ===== src/Schedule/Capable.antt =====
-- ptp_capable_schedule.h: when the next gPTP-capable message to a peer is due, with one transport
-- operation outstanding.
use esp_ptp.Base.{
  ℕ, zero, suc, ◌+◌, ◌-◌, ◌*◌, ◌/◌, ◌%◌, ◌^◌, ◌≤◌, ◌<◌, Bool, true, false, not, ◌&&◌, ◌||◌,
  if◌then◌else◌, ◌==◌, ltb, leb, ◌≡◌, refl, sym, ap, ◌∙◌, ◌≢◌, ◌↔◌, ◌⊎◌, inl, inr, Option, none,
  some, List, [], ◌∷◌, ◌++◌, map, arith, Bool-cases, Option-cases, ==_iff, length, get_or,
  get_elem?, set, take, drop, replicate,
}
use esp_ptp.Base.Int.{
  ℤ, pos, negsuc, neg, pos_part, neg_part, sub_ℕ, ◌+ℤ◌, ◌-ℤ◌, ◌*ℤ◌, lt_ℤ, le_ℤ, ◌==ℤ◌, ◌≤ℤ◌, ◌<ℤ◌,
  int64_max, int32_max, quot, rem, wrap, signed, min_ℤ, max_ℤ, int_laws, +ℤ_parts, -ℤ_parts,
  eq_of_parts,
}
use esp_ptp.Base.Word.{u8, u16, u32, uint16_max, next_nonzero}
use esp_ptp.Base.Bytes.{Bytes, byte, same, same_iff, same_refl, slice, be16, zeros}
use esp_ptp.Schedule.Timing.{unusable, ms_ceil}
use esp_ptp.Schedule.Interval.{Interval, interval_period, interval_request, interval_sent}
pub mod Laws
mod Tests

-- ptp_capable_schedule_t
pub record Schedule : Type 0 where
  pub interval : Interval
  pub next_us : ℤ
  pub queued_us : ℤ
  pub serial : ℕ
  pub pending : ℕ
  pub sequence : ℕ
  pub advertised_interval : ℤ
  pub active : Bool

-- ptp_capable_schedule_request
pub schedule_request : Schedule → ℤ → Schedule × Bool
schedule_request s request =
    let (interval', ok) = interval_request s.interval request in
    if not ok
    then (s, false)
    else if interval'.log_interval ==ℤ s.interval.log_interval
    then (record s { interval = interval' }, true)
    else (record s { interval = interval'; pending = 0; active = false }, true)

-- An operation is pending that is not yet one second old.
outstanding : Schedule → ℤ → Bool
outstanding s now =
    not (s.pending == 0) && (lt_ℤ now s.queued_us || lt_ℤ (now -ℤ s.queued_us) (pos 1000000))

-- The deadline after this operation: kept across small delays, with missed periods skipped.
next_deadline : Schedule → ℤ → ℤ → ℤ
next_deadline s period now =
    if not s.active || le_ℤ period (now -ℤ s.next_us) then now +ℤ period else s.next_us +ℤ period

-- ptp_capable_schedule_begin in its last nine statements
start : Schedule → ℤ → ℤ → Schedule
start s period now = record s {
  next_us = next_deadline s period now;
  queued_us = now;
  active = true;
  serial = next_nonzero s.serial;
  pending = next_nonzero s.serial;
  advertised_interval = s.interval.log_interval;
  sequence = u16 (s.sequence + 1);
}

-- ptp_capable_schedule_begin: the token of the new operation, or 0. Work that has aged a second is
-- dropped even where the deadline has not passed.
pub schedule_begin : Schedule → Bool → ℤ → Schedule × ℕ
schedule_begin s enabled now =
    let period = interval_period s.interval in
    if not enabled
    then (record s { pending = 0; active = false }, 0)
    else if unusable period now || outstanding s now
    then (s, 0)
    else if s.active && lt_ℤ now s.next_us
    then (record s { pending = 0 }, 0)
    else (start s period now, next_nonzero s.serial)

-- ptp_capable_schedule_finish in its last four statements
count_sent : Schedule → Bool → ℤ → Schedule
count_sent s accepted now =
    let previous = interval_period s.interval in
    let interval' = interval_sent s.interval s.advertised_interval accepted in
    let period = interval_period interval' in
    if not (period ==ℤ previous) && le_ℤ now (int64_max -ℤ period)
    then record s { interval = interval'; next_us = now +ℤ period }
    else record s { interval = interval' }

-- ptp_capable_schedule_finish
pub schedule_finish : Schedule → ℕ → Bool → ℤ → Schedule × Bool
schedule_finish s token accepted now =
    if token == 0 || not (s.pending == token)
    then (s, false)
    else let t = record s { pending = 0 } in
      if lt_ℤ now s.queued_us || le_ℤ (pos 1000000) (now -ℤ s.queued_us)
      then (t, false)
      else (count_sent t accepted now, true)

-- The delay of ptp_capable_schedule_wait_ms, in microseconds.
wait_us : Schedule → ℤ → ℤ
wait_us s now =
    let delay = if s.active && lt_ℤ now s.next_us then s.next_us -ℤ now else pos 0 in
    if not (s.pending == 0)
      && delay ==ℤ pos 0
      && le_ℤ s.queued_us now
      && lt_ℤ (now -ℤ s.queued_us) (pos 1000000)
    then pos 10000
    else delay

-- ptp_capable_schedule_wait_ms
pub schedule_wait_ms : Schedule → ℤ → ℤ → ℤ
schedule_wait_ms s now maximum =
    if le_ℤ maximum (pos 0) || lt_ℤ now (pos 0) || interval_period s.interval ==ℤ pos 0
    then maximum
    else min_ℤ (ms_ceil (wait_us s now)) maximum

-- Where nothing is pending no operation finishes.
pub schedule_finish_idle :
    (s : Schedule) (token : ℕ) (accepted : Bool) (now : ℤ)
    → s.pending ≡ 0
    → schedule_finish s token accepted now ≡ (s, false)
unfolding schedule_finish
schedule_finish_idle s token accepted now h = ground (arith, h)
