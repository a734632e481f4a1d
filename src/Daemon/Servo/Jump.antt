-- ===== src/Daemon/Servo/Jump.antt =====
-- When the servo of Daemon.Servo jumps, and what that leaves behind.
use esp_ptp.Base.{◌+◌, ◌*◌, true, false, ◌≡◌, refl, ◌⊎◌, arith}
use esp_ptp.Base.Int.{pos, ◌+ℤ◌, ◌*ℤ◌, ◌≤ℤ◌, ◌<ℤ◌}
use esp_ptp.Base.Word.{u32}
use esp_ptp.Peer.Wire.{Timespec}
use esp_ptp.Peer.Exchange.{abandon}
use esp_ptp.Daemon.Times.{timespec_to_ns, timespec_delta_ns}
use esp_ptp.Daemon.Snapshot.{invalidate}
use esp_ptp.Daemon.Servo.{
  Platform, State, is_far, jump, clean_after_step, lock_local_clock_freq, update_local_clock, trim,
  judge, trim_software, trim_hardware, keep_drift, judge_stability, offset_of, abs_ℤ,
}

-- What the clean-up after a step keeps, and what it drops.
pub clean_after_step_keeps :
    (s : State)
    → let s' = clean_after_step s in
      (s'.gptp ≡ s.gptp)
      × (s'.peer_delay_ns ≡ s.peer_delay_ns)
      × (s'.path_delay_ns ≡ s.path_delay_ns)
      × (s'.correction_ns ≡ s.correction_ns)
      × (s'.delay_asymmetry_ns ≡ s.delay_asymmetry_ns)
      × (s'.can_send_delayreq ≡ s.can_send_delayreq)
      × (s'.timing ≡ invalidate s.timing)
      × (s'.peer_exchange ≡ abandon s.peer_exchange)
unfolding clean_after_step
clean_after_step_keeps s = (refl, refl, refl, refl, refl, refl, refl, refl)

-- A jump invalidates what was published.
pub far_timing :
    (p : Platform) (s : State) (remote local now : Timespec)
    → is_far p s remote local ≡ true
    → (update_local_clock p s remote local now).0.timing ≡ invalidate s.timing
unfolding update_local_clock jump clean_after_step
far_timing p s remote local now h = ground (arith, h)

-- Beyond the threshold the result is what the call returns that sets the clock, to the remote time and
-- what has passed on the local clock since the message came, and the trim stays; all that was measured
-- against the old time is dropped: the peer exchange, the two last times and the last offset, the
-- published timing, and the integrals but for the trim. The step is added to the sum of steps when the
-- clock took it. Within the threshold no step is made, published timing stays, the two times and the
-- offset are kept for the next update, and the result is OK. Either way an update is counted.
pub update_local_clock_result :
    (p : Platform) (s : State) (remote local now : Timespec)
    → let (s', ok) = update_local_clock p s remote local now in
      (s'.clock_updates ≡ u32 (s.clock_updates + 1))
      × ((pos (p.settime_threshold_ms * 1000000) <ℤ abs_ℤ (offset_of p s remote local))
            × (s'.timing ≡ invalidate s.timing)
            × (s'.peer_exchange ≡ abandon s.peer_exchange)
            × (s'.rate_reanchor ≡ true)
            × (s'.freq_trim_ppb ≡ s.freq_trim_ppb)
            × (s'.wired_integral_q16 ≡ s.freq_trim_ppb *ℤ pos 65536)
            × (s'.drift_acc ≡ pos 0)
            × (s'.local_time_ns_prev ≡ pos 0)
            × (s'.remote_time_ns_prev ≡ pos 0)
            × (s'.last_offset_ns ≡ pos 0)
            × (s'.last_delta_timestamp ≡ p.timespec_add (p.timespec_sub now local) remote)
            × (ok ≡ p.set_time (p.timespec_add (p.timespec_sub now local) remote))
            × ((ok ≡ true)
                  × (s'.clock_steps_ns
                      ≡ s.clock_steps_ns +ℤ timespec_delta_ns p.time64 remote local)
                ⊎ (ok ≡ false) × (s'.clock_steps_ns ≡ s.clock_steps_ns))
          ⊎ (abs_ℤ (offset_of p s remote local) ≤ℤ pos (p.settime_threshold_ms * 1000000))
            × (ok ≡ true)
            × (s'.timing ≡ s.timing)
            × (s'.peer_exchange ≡ s.peer_exchange)
            × (s'.clock_steps_ns ≡ s.clock_steps_ns)
            × (s'.local_time_ns_prev ≡ timespec_to_ns local)
            × (s'.remote_time_ns_prev ≡ timespec_to_ns remote)
            × (s'.last_offset_ns ≡ offset_of p s remote local))
unfolding update_local_clock is_far jump clean_after_step lock_local_clock_freq trim judge
    trim_software trim_hardware keep_drift judge_stability
update_local_clock_result p s remote local now = ground arith
