-- ===== src/Daemon/Servo/Bounds.antt =====
-- The limits that the servo of Daemon.Servo keeps.
use esp_ptp.Base.{◌*◌, ◌≤◌, ◌<◌, Bool, ◌≡◌, inl, inr, arith, Bool-cases, length, length-set}
use esp_ptp.Base.Int.{ℤ, pos, neg, ◌*ℤ◌, ◌≤ℤ◌}
use esp_ptp.Peer.Wire.{Timespec}
use esp_ptp.Clock.WiredPi.{trim_limit}
use esp_ptp.Clock.WiredPi.Laws.{wired_pi_step_bounds}
use esp_ptp.Daemon.Times.{timespec_to_ns}
use esp_ptp.Daemon.Servo.{
  Platform, State, stable_window, software_pi, is_far, jump, clean_after_step,
  lock_local_clock_freq, update_local_clock, trim, judge, trim_software, trim_hardware, interval_of,
  keep_drift, judge_stability, is_plateau, is_settled, offset_of,
}

-- The trim and the drift are within 512 ppm, the integral within the same limit in units of 2 ^ -16
-- ppb, the ring has six places and is used within them, and delay requests wait for four stable updates.
abbrev pub IsServo : State → Type 0
IsServo s =
    (neg trim_limit ≤ℤ s.freq_trim_ppb)
    × (s.freq_trim_ppb ≤ℤ pos trim_limit)
    × (neg trim_limit ≤ℤ s.drift_acc)
    × (s.drift_acc ≤ℤ pos trim_limit)
    × (neg (trim_limit * 65536) ≤ℤ s.wired_integral_q16)
    × (s.wired_integral_q16 ≤ℤ pos (trim_limit * 65536))
    × (length s.drift_ring ≡ stable_window)
    × (s.drift_ring_count ≤ stable_window)
    × (s.drift_ring_pos < stable_window)
    × (s.stable ≤ 4)

software_pi_bounds :
    (drift offset : ℤ)
    → let (drift', target) = software_pi drift offset in
      (neg trim_limit ≤ℤ drift')
      × (drift' ≤ℤ pos trim_limit)
      × (neg trim_limit ≤ℤ target)
      × (target ≤ℤ pos trim_limit)
unfolding software_pi
software_pi_bounds drift offset = ground arith

trim_software-IsServo :
    (p : Platform) (s : State) (offset : ℤ) → IsServo s → IsServo (trim_software p s offset)
unfolding trim_software
trim_software-IsServo p s offset h = ground (arith, h, software_pi_bounds s.drift_acc offset)

trim_hardware-IsServo :
    (p : Platform) (s : State) (offset local_ns : ℤ)
    → IsServo s
    → IsServo (trim_hardware p s offset local_ns)
unfolding trim_hardware
trim_hardware-IsServo p s offset local_ns h =
    let interval = interval_of p s local_ns in
    ground (arith, h, wired_pi_step_bounds s.wired_integral_q16 offset interval)

keep_drift-IsServo : (s : State) → IsServo s → IsServo (keep_drift s)
unfolding keep_drift
keep_drift-IsServo s h = ground (arith, h, length-set s.drift_ring s.drift_ring_pos s.drift_acc)

judge_stability-IsServo :
    (s : State) (within : Bool) (offset : ℤ) → IsServo s → IsServo (judge_stability s within offset)
unfolding judge_stability
judge_stability-IsServo s within offset h = ground (arith, h)

clean_after_step-IsServo : (s : State) → IsServo s → IsServo (clean_after_step s)
unfolding clean_after_step ◌*ℤ◌
clean_after_step-IsServo s h = ground (arith, h)

trim-IsServo :
    (p : Platform) (s : State) (offset local_ns : ℤ)
    → IsServo s
    → IsServo (trim p s offset local_ns)
unfolding trim
trim-IsServo p s offset local_ns h =
    ground (arith, trim_software-IsServo p s offset h, trim_hardware-IsServo p s offset local_ns h)

judge-IsServo : (p : Platform) (s : State) (offset : ℤ) → IsServo s → IsServo (judge p s offset)
unfolding judge
judge-IsServo p s offset h =
    let kept = keep_drift s in
    ground (
      arith,
      judge_stability-IsServo kept (is_plateau kept) offset (keep_drift-IsServo s h),
      judge_stability-IsServo s (is_settled p s offset) offset h,
    )

lock-IsServo :
    (p : Platform) (s : State) (remote local : Timespec)
    → IsServo s
    → IsServo (lock_local_clock_freq p s remote local)
unfolding lock_local_clock_freq
lock-IsServo p s remote local h =
    let offset = offset_of p s remote local in
    let local_ns = timespec_to_ns local in
    judge-IsServo p
      (record (trim p s offset local_ns) {
        remote_time_ns_prev = timespec_to_ns remote;
        local_time_ns_prev = local_ns;
      })
      offset (trim-IsServo p s offset local_ns h)

-- Every update, with a jump or without one and whether or not the clock takes the trim, keeps the trim,
-- the drift and the integral within 512 ppm and the ring of drifts in bounds, for every pair of times.
pub update_local_clock-IsServo :
    (p : Platform) (s : State) (remote local now : Timespec)
    → IsServo s
    → IsServo (update_local_clock p s remote local now).0
unfolding update_local_clock jump clean_after_step
update_local_clock-IsServo p s remote local now h = elim (Bool-cases (is_far p s remote local)) [
  | inl e ↦ rw e (clean_after_step-IsServo s h)
  | inr e ↦ rw e (lock-IsServo p s remote local h)
]
