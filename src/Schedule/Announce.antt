-- ===== src/Schedule/Announce.antt =====
-- ptp_announce_schedule.h: the schedule of the Announce messages to one station, which may ask for
-- another interval.
use esp_ptp.Base.{
  ℕ, zero, suc, ◌+◌, ◌-◌, ◌*◌, ◌/◌, ◌%◌, ◌^◌, ◌≤◌, ◌<◌, Bool, true, false, not, ◌&&◌, ◌||◌,
  if◌then◌else◌, ◌==◌, ltb, leb, ◌≡◌, refl, sym, ap, ◌∙◌, ◌≢◌, ◌↔◌, ◌⊎◌, inl, inr, Option, none,
  some, List, [], ◌∷◌, ◌++◌, map, arith, Bool-cases, Option-cases, ==_iff, length, get_or,
  get_elem?, set, take, drop, replicate,
}
use esp_ptp.Base.Int.{
  ℤ, pos, negsuc, neg, pos_part, neg_part, sub_ℕ, ◌+ℤ◌, ◌-ℤ◌, ◌*ℤ◌, lt_ℤ, le_ℤ, ◌==ℤ◌, ◌≤ℤ◌, ◌<ℤ◌,
  int64_max, int32_max, quot, rem, wrap, signed, min_ℤ, max_ℤ, int_laws, +ℤ_parts, -ℤ_parts,
  eq_of_parts,
}
use esp_ptp.Base.Word.{u8, u16, u32, uint16_max, next_nonzero}
use esp_ptp.Base.Bytes.{Bytes, byte, same, same_iff, same_refl, slice, be16, zeros}
use esp_ptp.Schedule.Timing.{unusable}
pub mod Laws
mod Tests

-- ptp_announce_schedule_t
pub record Announce : Type 0 where
  pub initialized : Bool
  pub active : Bool
  pub initial_log : ℤ
  pub log_interval : ℤ
  pub pending_log : ℤ
  pub slowdown_remaining : ℕ
  pub sequence : ℕ
  pub revision : ℕ
  pub serial : ℕ
  pub pending : ℕ
  pub information_revision : ℕ
  pub old_period_us : ℤ
  pub next_us : ℤ
  pub queued_us : ℤ

-- A zeroed structure.
abbrev pub blank : Announce
blank = record {
  initialized = false;
  active = false;
  initial_log = pos 0;
  log_interval = pos 0;
  pending_log = pos 0;
  slowdown_remaining = 0;
  sequence = 0;
  revision = 0;
  serial = 0;
  pending = 0;
  information_revision = 0;
  old_period_us = pos 0;
  next_us = pos 0;
  queued_us = pos 0;
}

-- ptp_announce_reset
unfoldable pub announce_reset : Announce → Announce
announce_reset s = record blank {
  revision = next_nonzero s.revision;
  serial = s.serial;
  sequence = s.sequence;
}

-- ptp_announce_period_us; the divisor of a negative logarithm is a uint32_t.
pub period_us : ℤ → ℤ
period_us logarithm =
    if lt_ℤ logarithm (neg 24) || lt_ℤ (pos 24) logarithm
    then pos 0
    else if le_ℤ (pos 0) logarithm
    then pos (1000000 * 2 ^ pos_part logarithm)
    else pos ((1000000 + 2 ^ neg_part logarithm - 1) / 2 ^ neg_part logarithm)

-- ptp_announce_initialize
initialize : Announce → ℤ → Announce × Bool
initialize s initial =
    if period_us initial ==ℤ pos 0
    then (s, false)
    else if s.initialized
    then (s, s.initial_log ==ℤ initial)
    else (record s { initialized = true; initial_log = initial; log_interval = initial }, true)

-- ptp_announce_effective_period
pub effective_period : Announce → ℤ
effective_period s =
    if s.log_interval ==ℤ pos 127
    then pos 0
    else if s.slowdown_remaining == 0
    then period_us s.log_interval
    else s.old_period_us

-- The first test of ptp_announce_request.
undefined_request : ℤ → Bool
undefined_request r =
    not (r ==ℤ neg 128)
    && not (r ==ℤ pos 126)
    && not (r ==ℤ pos 127)
    && (lt_ℤ r (neg 24) || lt_ℤ (pos 24) r)

-- The request after the reset value and the rates above the initial one are replaced.
supported : ℤ → ℤ → ℤ
supported initial request =
    let r = if request ==ℤ pos 126 then initial else request in
    if not (r ==ℤ pos 127) && lt_ℤ r initial then initial else r

-- ptp_announce_request in its last nine statements
change_rate : Announce → ℤ → Announce
change_rate s request =
    let previous = effective_period s in
    let next = period_us request in
    record s {
      log_interval = request;
      old_period_us = previous;
      slowdown_remaining = if not (previous ==ℤ pos 0) && lt_ℤ previous next then 3 else 0;
      pending = 0;
      active = false;
      revision = next_nonzero s.revision;
    }

-- ptp_announce_request once the schedule is initialized; `rate` is the supported rate.
apply_request : Announce → ℤ → ℤ → Announce
apply_request s request rate =
    if request ==ℤ neg 128 then s else if rate ==ℤ s.log_interval then s else change_rate s rate

-- ptp_announce_request
pub announce_request : Announce → ℤ → ℤ → Announce × Bool
announce_request s initial request =
    let (t, ok) = initialize s initial in
    if undefined_request request || not ok
    then (s, false)
    else (apply_request t request (supported initial request), true)

-- What ptp_announce_begin returns and writes through `advertised` and `sequence`.
pub record Grant : Type 0 where
  pub token : ℕ
  pub advertised : ℤ
  pub sequence_number : ℕ

-- New information to announce drops the pending operation and the deadline.
refresh : Announce → ℕ → Announce
refresh s information =
    if s.information_revision == information
    then s
    else record s { information_revision = information; pending = 0; active = false }

-- An operation is pending that is not yet one second old.
outstanding : Announce → ℤ → Bool
outstanding s now =
    not (s.pending == 0) && (lt_ℤ now s.queued_us || lt_ℤ (now -ℤ s.queued_us) (pos 1000000))

-- The deadline after this operation.
next_deadline : Announce → ℤ → ℤ → ℤ
next_deadline s period now =
    if not s.active || le_ℤ period (now -ℤ s.next_us) then now +ℤ period else s.next_us +ℤ period

-- ptp_announce_begin in its last ten statements
start : Announce → ℤ → ℤ → Announce
start s period now = record s {
  next_us = next_deadline s period now;
  active = true;
  queued_us = now;
  serial = next_nonzero s.serial;
  pending = next_nonzero s.serial;
  pending_log = s.log_interval;
  sequence = u16 (s.sequence + 1);
}

-- ptp_announce_begin from the test of the pending operation on
begin_fresh : Announce → ℤ → ℤ → Announce × Option Grant
begin_fresh s period now =
    if outstanding s now
    then (s, none)
    else if s.active && lt_ℤ now s.next_us
    then (record s { pending = 0 }, none)
    else (
      start s period now,
      some (record {
        token = next_nonzero s.serial;
        advertised = s.log_interval;
        sequence_number = u16 (s.sequence + 1);
      }),
    )

-- ptp_announce_begin; `outputs` says that neither output pointer is NULL.
pub announce_begin : Announce → Bool → ℤ → ℕ → ℕ → ℤ → Announce × Option Grant
announce_begin s outputs initial expected information now =
    let (t, ok) = initialize s initial in
    let period = effective_period t in
    if not outputs || not (s.revision == expected) || not ok
    then (s, none)
    else if unusable period now
    then (t, none)
    else begin_fresh (refresh t information) period now

-- One transmission of a slowdown is accepted; the last one sets the deadline anew.
count_sent : Announce → ℤ → Announce
count_sent s now =
    let left = s.slowdown_remaining - 1 in
    let period = period_us s.log_interval in
    if left == 0 && le_ℤ now (int64_max -ℤ period)
    then record s { slowdown_remaining = left; next_us = now +ℤ period }
    else record s { slowdown_remaining = left }

-- ptp_announce_finish
pub announce_finish : Announce → ℕ → Bool → ℤ → Announce × Bool
announce_finish s token accepted now =
    if token == 0 || not (token == s.pending)
    then (s, false)
    else let t = record s { pending = 0 } in
      if lt_ℤ now s.queued_us || le_ℤ (pos 1000000) (now -ℤ s.queued_us)
      then (t, false)
      else if accepted && s.pending_log ==ℤ s.log_interval && not (s.slowdown_remaining == 0)
      then (count_sent t now, true)
      else (t, true)
