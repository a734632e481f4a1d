-- ===== src/Clock/Software.antt =====
-- ptp_clock_sw.c: the software clock. The local time of the call is an argument, and the critical
-- sections make each call one step. `none` for a pointer is NULL.
use esp_ptp.Base.{
  ℕ, zero, suc, ◌+◌, ◌-◌, ◌*◌, ◌/◌, ◌%◌, ◌^◌, ◌≤◌, ◌<◌, Bool, true, false, not, ◌&&◌, ◌||◌,
  if◌then◌else◌, ◌==◌, ltb, leb, ◌≡◌, refl, sym, ap, ◌∙◌, ◌≢◌, ◌↔◌, ◌⊎◌, inl, inr, Option, none,
  some, List, [], ◌∷◌, ◌++◌, map, arith, Bool-cases, Option-cases, ==_iff, length, get_or,
  get_elem?, set, take, drop, replicate, length-set, length-append, length-take, length-drop,
  length-replicate, length-map, take-append-drop,
}
use esp_ptp.Base.Int.{
  ℤ, pos, negsuc, neg, pos_part, neg_part, sub_ℕ, ◌+ℤ◌, ◌-ℤ◌, ◌*ℤ◌, lt_ℤ, le_ℤ, ◌==ℤ◌, ◌≤ℤ◌, ◌<ℤ◌,
  int64_max, int32_max, quot, rem, wrap, signed, min_ℤ, max_ℤ, int_laws, +ℤ_parts, -ℤ_parts,
  eq_of_parts,
}
use esp_ptp.Base.Word.{u8, u16, u32, uint16_max, next_nonzero}
use esp_ptp.Base.Bytes.{
  Bytes, byte, same, same_iff, same_refl, slice, be16, zeros, copy, fill, byte-set, byte-fill,
  byte-copy, length-fill, length-copy, byte-take, bytes_ext,
}
use esp_ptp.Clock.Affine.{Clock, billion, affine_now, reanchor, adjust_rate, discipline}
mod Laws
mod Tests

-- struct timespec
pub record Timespec : Type 0 where
  pub tv_sec : ℤ
  pub tv_nsec : ℤ

-- The values of errno that are set.
pub data Errno : Type 0 where
  efault einval : Errno

-- `s_clock` and `s_initialized`
pub record State : Type 0 where
  pub clock : Clock
  pub initialized : Bool

-- What a call returns: a value or 0, or -1 with errno.
pub data Result {ℓ} (A : Type ℓ) : Type ℓ where
  ok : A → Result A
  fail : Errno → Result A

-- ptp_clock_local_ns where CONFIG_IDF_TARGET_ESP32C6 is set, from the count of a 16 MHz timer, and on other targets, from the
-- microseconds of esp_timer_get_time
pub local_ns_c6 : ℕ → ℕ
local_ns_c6 ticks = ticks / 2 * 125 + ticks % 2 * 62

pub local_ns_other : ℤ → ℤ
local_ns_other us = us *ℤ pos 1000

-- ptp_clock_sw_snapshot; a NULL pointer is `false` with no copy
pub snapshot : State → Clock × Bool
snapshot s = (s.clock, s.initialized)

-- A time split into seconds and nanoseconds, the nanoseconds from 0.
pub split_time : ℤ → Timespec
split_time now =
    let sec = quot now billion in
    let nsec = rem now billion in
    if lt_ℤ nsec (pos 0)
    then record { tv_sec = sec -ℤ pos 1; tv_nsec = nsec +ℤ billion }
    else record { tv_sec = sec; tv_nsec = nsec }

-- timespec to nanoseconds
abbrev pub join_time : Timespec → ℤ
join_time ts = ts.tv_sec *ℤ billion +ℤ ts.tv_nsec

-- sw_now_timespec and ptp_clock_sw_now; `given` says that the pointer is not NULL
pub sw_now : State → Bool → ℤ → Result Timespec
sw_now s given local =
    if not given
    then fail efault
    else if not s.initialized
    then fail einval
    else ok (split_time (affine_now s.clock local))

-- ptp_clock_sw_init; it also selects this clock in the daemon
pub sw_init : Option Timespec → ℤ → State
sw_init none local = record {
  clock = record { local_ns = local; ptp_ns = pos 0; rate_ppb = pos 0 };
  initialized = true;
}
sw_init (some ts) local = record {
  clock = record { local_ns = local; ptp_ns = join_time ts; rate_ppb = pos 0 };
  initialized = true;
}

-- ptp_clock_sw_settime
pub sw_settime : State → Option Timespec → ℤ → State × Result (Unit {0})
sw_settime s none local = (s, fail einval)
sw_settime s (some ts) local =
    if not s.initialized
    then (s, fail einval)
    else (record s { clock = record (s.clock) { local_ns = local; ptp_ns = join_time ts } }, ok tt)

-- ptp_clock_sw_adjtime_offset
pub sw_adjtime_offset : State → ℤ → ℤ → State × Result (Unit {0})
sw_adjtime_offset s delta local =
    if not s.initialized
    then (s, fail einval)
    else (record s { clock = reanchor s.clock local delta }, ok tt)

-- ptp_clock_sw_adjtime_rate
pub sw_adjtime_rate : State → ℤ → ℤ → State × Result (Unit {0})
sw_adjtime_rate s rate local =
    if not s.initialized
    then (s, fail einval)
    else (record s { clock = adjust_rate s.clock local rate }, ok tt)

-- The arguments that ptp_clock_sw_discipline refuses before it reads the clock.
refused_arguments : ℤ → ℤ → ℤ → Bool
refused_arguments local_anchor reference_anchor rate =
    lt_ℤ local_anchor (pos 0)
    || lt_ℤ reference_anchor (pos 0)
    || lt_ℤ (int64_max -ℤ pos 3000000000) reference_anchor
    || lt_ℤ rate (neg 200000)
    || lt_ℤ (pos 200000) rate

-- What ptp_clock_sw_discipline writes through its pointers, which are not NULL here.
pub record Disciplined : Type 0 where
  pub phase_error : ℤ
  pub applied_rate : ℤ

-- ptp_clock_sw_discipline at the local time `now`; `none` is -1
pub sw_discipline : State → ℤ → ℤ → ℤ → Bool → ℤ → State × Option Disciplined
sw_discipline s local_anchor reference_anchor rate step now =
    let (c, error) = discipline s.clock now local_anchor reference_anchor rate step in
    if refused_arguments local_anchor reference_anchor rate
    then (s, none)
    else if not s.initialized
        || lt_ℤ now local_anchor
        || lt_ℤ (pos 2000000000) (now -ℤ local_anchor)
    then (s, none)
    else (record s { clock = c }, some (record { phase_error = error; applied_rate = c.rate_ppb }))

-- A call that changes the clock, for runs of the daemon.
pub data Call : Type 0 where
  init : Option Timespec → Call
  settime : Option Timespec → Call
  adjtime_offset : ℤ → Call
  adjtime_rate : ℤ → Call
  discipline_to : ℤ → ℤ → ℤ → Bool → Call

-- The state after a call at a local time.
pub call : State → ℤ → Call → State
call s now (init ts) = sw_init ts now
call s now (settime ts) = (sw_settime s ts now).0
call s now (adjtime_offset delta) = (sw_adjtime_offset s delta now).0
call s now (adjtime_rate rate) = (sw_adjtime_rate s rate now).0
call s now (discipline_to local_anchor reference_anchor rate step) =
    (sw_discipline s local_anchor reference_anchor rate step now).0

pub run : State → List (ℤ × Call) → State
run s [] = s
run s ((now, c) ∷ cs) = run (call s now c) cs

-- Before ptp_clock_sw_init: zeroed.
abbrev pub unset : State
unset = record {
  clock = record { local_ns = pos 0; ptp_ns = pos 0; rate_ppb = pos 0 };
  initialized = false;
}
