-- ===== src/Daemon/Servo.antt =====
-- The servo of ptp.c: ptp_update_local_clock with the jump and the frequency lock. The clock that is set
-- and trimmed is a parameter: what each of its calls returns.
use esp_ptp.Base.{
  ℕ, zero, suc, ◌+◌, ◌-◌, ◌*◌, ◌/◌, ◌%◌, ◌^◌, ◌≤◌, ◌<◌, Bool, true, false, not, ◌&&◌, ◌||◌,
  if◌then◌else◌, ◌==◌, ltb, leb, ◌≡◌, refl, sym, ap, ◌∙◌, ◌≢◌, ◌↔◌, ◌⊎◌, inl, inr, Option, none,
  some, List, [], ◌∷◌, ◌++◌, map, arith, Bool-cases, Option-cases, ==_iff, length, get_or,
  get_elem?, set, take, drop, replicate, length-set, length-append, length-take, length-drop,
  length-replicate, length-map, take-append-drop,
}
use esp_ptp.Base.Int.{
  ℤ, pos, negsuc, neg, pos_part, neg_part, sub_ℕ, ◌+ℤ◌, ◌-ℤ◌, ◌*ℤ◌, lt_ℤ, le_ℤ, ◌==ℤ◌, ◌≤ℤ◌, ◌<ℤ◌,
  int64_max, int32_max, quot, rem, wrap, signed, min_ℤ, max_ℤ, int_laws, +ℤ_parts, -ℤ_parts,
  eq_of_parts, neg_parts,
}
use esp_ptp.Base.Word.{u8, u16, u32, uint16_max, next_nonzero}
use esp_ptp.Base.Bytes.{
  Bytes, byte, same, same_iff, same_refl, slice, be16, zeros, copy, fill, byte-set, byte-fill,
  byte-copy, length-fill, length-copy, byte-take, byte-drop, byte_past, slice-copy, bytes_ext,
}
use esp_ptp.Clock.Affine.{clamp}
use esp_ptp.Clock.WiredPi.{wired_pi_step, trim_relative_delta, trim_limit}
use esp_ptp.Peer.Wire.{Timespec}
use esp_ptp.Peer.Exchange.{Exchange, abandon}
use esp_ptp.Daemon.Times.{timespec_to_ns, timespec_delta_ns}
use esp_ptp.Daemon.Snapshot.{Store, invalidate}
pub mod Jump
pub mod Bounds
mod Tests

-- PTP_FREQ_P_DIV_SW, PTP_FREQ_I_DIV_SW, PTP_FREQ_STABLE_PPB and PTP_FREQ_STABLE_WIN
abbrev pub p_div : ℤ
p_div = pos 2000

abbrev pub i_div : ℤ
i_div = pos 8000

abbrev pub stable_ppb : ℤ
stable_ppb = pos 12000

abbrev pub stable_window : ℕ
stable_window = 6

-- The clock and the options of the build. The calls that trim and set the clock return whether they
-- succeeded; the two timespec functions are the system's. `add_correction a b c` is what `a + (b + c)`
-- gives in int64_t where it is computed in double, as it is for the double `correction_ns`.
pub record Platform : Type 0 where
  pub time64 : Bool
  pub sw_clock : Bool
  pub sync_interval_ms : ℕ
  pub settime_threshold_ms : ℕ
  pub peer_stability_ns : ℤ
  pub path_stability_ns : ℤ
  pub adjust_rate : ℤ → Bool
  pub set_time : Timespec → Bool
  pub add_correction : ℤ → ℤ → ℤ → ℤ
  pub timespec_sub : Timespec → Timespec → Timespec
  pub timespec_add : Timespec → Timespec → Timespec

-- The fields of struct ptp_state_s that the servo uses, and the static variables of
-- ptp_lock_local_clock_freq: `stable` is `cnt`.
pub record State : Type 0 where
  pub gptp : Bool
  pub peer_delay_ns : ℤ
  pub path_delay_ns : ℤ
  pub correction_ns : ℤ
  pub delay_asymmetry_ns : ℤ
  pub remote_time_ns_prev : ℤ
  pub local_time_ns_prev : ℤ
  pub drift_acc : ℤ
  pub wired_integral_q16 : ℤ
  pub freq_trim_ppb : ℤ
  pub last_offset_ns : ℤ
  pub can_send_delayreq : Bool
  pub stable : ℕ
  pub drift_ring : List ℤ
  pub drift_ring_count : ℕ
  pub drift_ring_pos : ℕ
  pub last_delta_timestamp : Timespec
  pub last_delta_ns : ℤ
  pub last_adjtime_ns : ℤ
  pub drift_avg_total_ms : ℤ
  pub drift_ppb : ℤ
  pub clock_steps_ns : ℤ
  pub clock_updates : ℕ
  pub peer_exchange : Exchange
  pub rate_reanchor : Bool
  pub timing : Store

-- `(int32_t)` of a 64-bit value
pub to_int32 : ℤ → ℤ
to_int32 v = signed (2 ^ 31) (wrap (2 ^ 32) v)

abbrev pub abs_ℤ : ℤ → ℤ
abs_ℤ v = pos (pos_part v + neg_part v)

-- How far the local clock is behind: `offset_ns` and `delta_ns`
unfoldable pub offset_of : Platform → State → Timespec → Timespec → ℤ
offset_of p s remote local =
    let delta = timespec_delta_ns p.time64 remote local in
    if s.gptp
    then p.add_correction delta s.peer_delay_ns s.correction_ns
    else delta +ℤ (s.path_delay_ns +ℤ s.delay_asymmetry_ns)

-- The controller of the software clock: the accumulated drift and the trim.
pub software_pi : ℤ → ℤ → ℤ × ℤ
software_pi drift offset =
    let drift' = clamp trim_limit (to_int32 (drift +ℤ quot offset i_div)) in
    (drift', clamp trim_limit (quot offset p_div +ℤ drift'))

-- The first part of ptp_lock_local_clock_freq: the controllers and the trim.
pub trim_software : Platform → State → ℤ → State
trim_software p s offset =
    let (drift, target) = software_pi s.drift_acc offset in
    let accepted = p.adjust_rate (target -ℤ s.freq_trim_ppb) in
    record s { drift_acc = drift; freq_trim_ppb = if accepted then target else s.freq_trim_ppb }

pub interval_of : Platform → State → ℤ → ℤ
interval_of p s local_ns =
    let delta = local_ns -ℤ s.local_time_ns_prev in
    if not (s.local_time_ns_prev ==ℤ pos 0) && lt_ℤ (pos 0) delta
    then delta
    else pos (p.sync_interval_ms * 1000000)

pub trim_hardware : Platform → State → ℤ → ℤ → State
trim_hardware p s offset local_ns =
    let (integral, target) = wired_pi_step s.wired_integral_q16 offset (interval_of p s local_ns) in
    let accepted = p.adjust_rate (trim_relative_delta s.freq_trim_ppb target) in
    if accepted
    then record s {
      wired_integral_q16 = integral;
      drift_acc = quot integral (pos 65536);
      freq_trim_ppb = target;
    }
    else record s { drift_acc = quot s.wired_integral_q16 (pos 65536) }

-- The smallest and the largest of the first values of the ring.
pub ring_min : List ℤ → ℕ → ℤ → ℤ
ring_min xs zero m = m
ring_min [] (suc n) m = m
ring_min (x ∷ xs) (suc n) m = ring_min xs n (if lt_ℤ x m then x else m)

pub ring_max : List ℤ → ℕ → ℤ → ℤ
ring_max xs zero m = m
ring_max [] (suc n) m = m
ring_max (x ∷ xs) (suc n) m = ring_max xs n (if lt_ℤ m x then x else m)

-- The drift is kept in the ring.
pub keep_drift : State → State
keep_drift s = record s {
  drift_ring = set s.drift_ring s.drift_ring_pos s.drift_acc;
  drift_ring_pos = (s.drift_ring_pos + 1) % stable_window;
  drift_ring_count =
      if ltb s.drift_ring_count stable_window then s.drift_ring_count + 1 else s.drift_ring_count;
}

-- `within_stability` for the software clock, after the drift is kept
pub is_plateau : State → Bool
is_plateau s =
    let first = get_or s.drift_ring 0 (pos 0) in
    leb stable_window s.drift_ring_count
    && lt_ℤ
        (ring_max s.drift_ring s.drift_ring_count first
          -ℤ ring_min s.drift_ring s.drift_ring_count first)
        stable_ppb

-- `within_stability` for the hardware clock
pub is_settled : Platform → State → ℤ → Bool
is_settled p s offset =
    lt_ℤ (abs_ℤ (abs_ℤ offset -ℤ abs_ℤ s.last_offset_ns))
      (if s.gptp then p.peer_stability_ns else p.path_stability_ns)

-- The last part of ptp_lock_local_clock_freq.
pub judge_stability : State → Bool → ℤ → State
judge_stability s within offset =
    let stable = if within then (if leb s.stable 3 then s.stable + 1 else s.stable) else 0 in
    record s {
      stable = stable;
      can_send_delayreq = s.can_send_delayreq || ltb 3 stable;
      last_offset_ns = offset;
    }

-- The two clocks in the two parts.
pub trim : Platform → State → ℤ → ℤ → State
trim p s offset local_ns =
    if p.sw_clock then trim_software p s offset else trim_hardware p s offset local_ns

pub judge : Platform → State → ℤ → State
judge p s offset =
    let kept = keep_drift s in
    if p.sw_clock
    then judge_stability kept (is_plateau kept) offset
    else judge_stability s (is_settled p s offset) offset

-- ptp_lock_local_clock_freq
pub lock_local_clock_freq : Platform → State → Timespec → Timespec → State
lock_local_clock_freq p s remote local =
    let offset = offset_of p s remote local in
    let local_ns = timespec_to_ns local in
    judge p
      (record (trim p s offset local_ns) {
        remote_time_ns_prev = timespec_to_ns remote;
        local_time_ns_prev = local_ns;
      })
      offset

-- ptp_clean_after_step
pub clean_after_step : State → State
clean_after_step s = record s {
  peer_exchange = abandon s.peer_exchange;
  rate_reanchor = true;
  timing = invalidate s.timing;
  remote_time_ns_prev = pos 0;
  local_time_ns_prev = pos 0;
  drift_acc = pos 0;
  wired_integral_q16 = s.freq_trim_ppb *ℤ pos 65536;
  last_offset_ns = pos 0;
}

-- The jump of ptp_update_local_clock, where the clock reads `now`; the result is whether it was set.
unfoldable pub jump : Platform → State → Timespec → Timespec → Timespec → State × Bool
jump p s remote local now =
    let new_time = p.timespec_add (p.timespec_sub now local) remote in
    let ok = p.set_time new_time in
    (
      clean_after_step (record s {
        clock_steps_ns =
            if ok
            then s.clock_steps_ns +ℤ timespec_delta_ns p.time64 remote local
            else s.clock_steps_ns;
        last_delta_timestamp = new_time;
        last_delta_ns = pos 0;
        last_adjtime_ns = pos 0;
        drift_avg_total_ms = pos 0;
        drift_ppb = pos 0;
      }),
      ok,
    )

-- `absdelta_ns > adj_limit_ns`
unfoldable pub is_far : Platform → State → Timespec → Timespec → Bool
is_far p s remote local =
    lt_ℤ (pos (p.settime_threshold_ms * 1000000)) (abs_ℤ (offset_of p s remote local))

-- ptp_update_local_clock; the result is whether it returns OK
unfoldable pub update_local_clock : Platform → State → Timespec → Timespec → Timespec → State × Bool
update_local_clock p s remote local now =
    let (s', ok) =
      if is_far p s remote local
      then jump p s remote local now
      else (lock_local_clock_freq p s remote local, true) in
    (record s' { clock_updates = u32 (s'.clock_updates + 1) }, ok)
