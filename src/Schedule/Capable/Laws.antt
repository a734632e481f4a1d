-- ===== src/Schedule/Capable/Laws.antt =====
-- The schedule of the gPTP-capable messages: when an operation starts, how it ends, and how long the
-- daemon may sleep.
use esp_ptp.Base.{
  ℕ, ◌+◌, ◌*◌, ◌^◌, ◌≤◌, ◌<◌, Bool, true, false, if◌then◌else◌, ltb, ◌≡◌, ◌≢◌, ◌↔◌, ◌⊎◌, arith,
}
use esp_ptp.Base.Int.{ℤ, pos, ◌+ℤ◌, ◌≤ℤ◌, ◌<ℤ◌, int64_max, +ℤ_parts, -ℤ_parts}
use esp_ptp.Base.Word.{u16}
use esp_ptp.Schedule.Interval.{interval_period, interval_sent}
use esp_ptp.Schedule.Timing.{IsPeriod, usable_iff, ceil_ms, ms_ceil_lem}
use esp_ptp.Schedule.Interval.Laws as IntervalLaws
use esp_ptp.Schedule.Interval.Laws.{
  interval_period_bounds, interval_request-IsValid, interval_sent-IsValid,
}
use esp_ptp.Schedule.Capable.{
  Schedule, schedule_request, outstanding, next_deadline, start, schedule_begin, count_sent,
  schedule_finish, wait_us, schedule_wait_ms,
}

-- A valid interval, and nothing pending but the last serial number.
pub record IsValid (s : Schedule) : Type 0 where
  pub interval : IntervalLaws.IsValid s.interval
  pub word : s.serial < 2 ^ 32
  pub last : (s.pending ≡ 0) ⊎ (s.pending ≡ s.serial)
  pub next_fits : s.next_us ≤ℤ int64_max

-- May an operation start at this time? Messages are not stopped, the clock is in range, no other
-- operation is less than one second old, and the deadline has passed.
pub record IsDue (s : Schedule) (now : ℤ) : Type 0 where
  pub running : interval_period s.interval ≢ pos 0
  pub started : pos 0 ≤ℤ now
  pub fits : now +ℤ interval_period s.interval ≤ℤ int64_max
  pub free : (s.pending ≡ 0) ⊎ (s.queued_us +ℤ pos 1000000 ≤ℤ now)
  pub due : (s.active ≡ false) ⊎ (s.next_us ≤ℤ now)

IsPeriod-cases : (s : Schedule) → IsValid s → IsPeriod (interval_period s.interval)
IsPeriod-cases s v = ground (arith, interval_period_bounds s.interval v.interval)

free_iff :
    (s : Schedule) (now : ℤ)
    → (outstanding s now ≡ false) ↔ ((s.pending ≡ 0) ⊎ (s.queued_us +ℤ pos 1000000 ≤ℤ now))
unfolding outstanding
free_iff s now = ground (arith, -ℤ_parts now s.queued_us, +ℤ_parts s.queued_us (pos 1000000))

-- An operation starts exactly when the schedule is enabled and due.
pub schedule_begin_iff :
    (s : Schedule) (enabled : Bool) (now : ℤ)
    → IsValid s
    → ((schedule_begin s enabled now).1 ≢ 0) ↔ ((enabled ≡ true) × IsDue s now)
unfolding schedule_begin
schedule_begin_iff s enabled now v =
    ground (arith, usable_iff (interval_period s.interval) now (IsPeriod-cases s v), free_iff s now)

next_deadline_bounds :
    (s : Schedule) (p now : ℤ)
    → pos 1 ≤ℤ p
    → (s.active ≡ false) ⊎ (s.next_us ≤ℤ now)
    → (now <ℤ next_deadline s p now) × (next_deadline s p now ≤ℤ now +ℤ p)
unfolding next_deadline
next_deadline_bounds s p now h due =
    ground (arith, -ℤ_parts now s.next_us, +ℤ_parts now p, +ℤ_parts s.next_us p)

-- An operation that starts has a nonzero token that is the pending one, is queued now and carries the
-- next sequence number; the next deadline lies after now by at most one period, within int64_t.
pub schedule_begin_started :
    (s : Schedule) (enabled : Bool) (now : ℤ)
    → IsValid s
    → (schedule_begin s enabled now).1 ≢ 0
    → let (s', token) = schedule_begin s enabled now in
      (s'.pending ≡ token)
      × (s'.queued_us ≡ now)
      × (s'.advertised_interval ≡ s.interval.log_interval)
      × (s'.sequence ≡ u16 (s.sequence + 1))
      × (now <ℤ s'.next_us)
      × (s'.next_us ≤ℤ now +ℤ interval_period s.interval)
      × (s'.next_us ≤ℤ int64_max)
unfolding schedule_begin start
schedule_begin_started s enabled now v h = ground (
  arith,
  usable_iff (interval_period s.interval) now (IsPeriod-cases s v),
  IsPeriod-cases s v,
  next_deadline_bounds s (interval_period s.interval) now,
)

-- A schedule that starts nothing keeps its serial number, sequence number, interval and deadline.
pub schedule_begin_refused :
    (s : Schedule) (enabled : Bool) (now : ℤ)
    → (schedule_begin s enabled now).1 ≡ 0
    → let s' = (schedule_begin s enabled now).0 in
      (s'.serial ≡ s.serial)
      × (s'.sequence ≡ s.sequence)
      × (s'.interval ≡ s.interval)
      × (s'.next_us ≡ s.next_us)
      × ((s'.pending ≡ 0) ⊎ (s'.pending ≡ s.pending))
unfolding schedule_begin start
schedule_begin_refused s enabled now h = ground arith

pub schedule_begin-IsValid :
    (s : Schedule) (enabled : Bool) (now : ℤ) → IsValid s → IsValid (schedule_begin s enabled now).0
unfolding schedule_begin start
schedule_begin-IsValid s enabled now v = ground (
  arith,
  usable_iff (interval_period s.interval) now (IsPeriod-cases s v),
  IsPeriod-cases s v,
  next_deadline_bounds s (interval_period s.interval) now,
)

pub schedule_request-IsValid : (s : Schedule) (r : ℤ) → IsValid s → IsValid (schedule_request s r).0
unfolding schedule_request
schedule_request-IsValid s r v = ground (arith, interval_request-IsValid s.interval r v.interval)

pub schedule_finish-IsValid :
    (s : Schedule) (token : ℕ) (accepted : Bool) (now : ℤ)
    → IsValid s
    → IsValid (schedule_finish s token accepted now).0
unfolding schedule_finish count_sent
schedule_finish-IsValid s token accepted now v = ground (
  arith,
  interval_sent-IsValid s.interval s.advertised_interval accepted v.interval,
  -ℤ_parts int64_max (interval_period (interval_sent s.interval s.advertised_interval accepted)),
  +ℤ_parts now (interval_period (interval_sent s.interval s.advertised_interval accepted)),
)

-- A token ends one operation at most: a second completion with any token is refused, and one with a
-- token that is not pending changes nothing.
pub schedule_finish_once :
    (s : Schedule) (token token' : ℕ) (accepted accepted' : Bool) (now now' : ℤ)
    → let s' = (schedule_finish s token accepted now).0 in
      ((s' ≡ s)
        × ((schedule_finish s token accepted now).1 ≡ false)
        × (token ≢ s.pending ⊎ (token ≡ 0)))
      ⊎ (schedule_finish s' token' accepted' now' ≡ (s', false)) × (token ≡ s.pending)
unfolding schedule_finish count_sent
schedule_finish_once s token token' accepted accepted' now now' = ground arith

wait_us_deadline :
    (s : Schedule) (now : ℤ) (d : ℕ)
    → s.active ≡ true
    → s.next_us ≡ now +ℤ pos d
    → 0 < d
    → wait_us s now ≡ pos d
unfolding wait_us
wait_us_deadline s now d active next h =
    ground (arith, -ℤ_parts s.next_us now, +ℤ_parts now (pos d))

-- The daemon may sleep until the next deadline, rounded up to a millisecond, and no longer than it
-- asked for: it wakes less than a millisecond after the deadline, and before it only at its own limit.
pub schedule_wait_ms_deadline :
    (s : Schedule) (now : ℤ) (d maximum : ℕ)
    → s.active ≡ true
    → pos 0 ≤ℤ now
    → interval_period s.interval ≢ pos 0
    → s.next_us ≡ now +ℤ pos d
    → 0 < d
    → 0 < maximum
    → (w : ℕ) × (schedule_wait_ms s now (pos maximum) ≡ pos w)
      × (w ≤ maximum)
      × ((d ≤ w * 1000) ⊎ (w ≡ maximum))
      × (w * 1000 < d + 1000)
unfolding schedule_wait_ms
schedule_wait_ms_deadline s now d maximum active start running next h m = (
  if ltb maximum (ceil_ms d) then maximum else ceil_ms d,
  ground (arith, wait_us_deadline s now d active next h, ms_ceil_lem d),
  ground arith,
  ground arith,
  ground arith,
)
