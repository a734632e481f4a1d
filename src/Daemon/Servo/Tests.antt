-- ===== src/Daemon/Servo/Tests.antt =====
-- The first update of a wired clock, and instances of the theorems on the servo.
use esp_ptp.Base.{◌+◌, ◌*◌, true, false, ◌≡◌, refl, ◌⊎◌, arith}
use esp_ptp.Base.Int.{pos, ◌+ℤ◌, ◌*ℤ◌, ◌≤ℤ◌, ◌<ℤ◌}
use esp_ptp.Base.Word.{u32}
use esp_ptp.Peer.Exchange.{abandon}
use esp_ptp.Daemon.Times.{timespec_to_ns, timespec_delta_ns}
use esp_ptp.Daemon.Snapshot.{invalidate}
use esp_ptp.Daemon.Samples.{at_second, wired_platform, servo_at_rest, add_seconds, sub_seconds}
use esp_ptp.Daemon.Servo.{offset_of, abs_ℤ, update_local_clock}
use esp_ptp.Daemon.Servo.Jump.{update_local_clock_result}
use esp_ptp.Daemon.Servo.Bounds.{IsServo, update_local_clock-IsServo}

servo_at_rest-IsServo : IsServo servo_at_rest
servo_at_rest-IsServo = (
  omega arith,
  omega arith,
  omega arith,
  omega arith,
  omega arith,
  omega arith,
  refl,
  omega arith,
  omega arith,
  omega arith,
)

update_local_clock_result_example :
    let (s', ok) =
      update_local_clock wired_platform servo_at_rest (at_second 100) (at_second 5) (at_second 6) in
    (s'.clock_updates ≡ u32 (servo_at_rest.clock_updates + 1))
    × ((pos (wired_platform.settime_threshold_ms * 1000000)
            <ℤ abs_ℤ (offset_of wired_platform servo_at_rest (at_second 100) (at_second 5)))
          × (s'.timing ≡ invalidate servo_at_rest.timing)
          × (s'.peer_exchange ≡ abandon servo_at_rest.peer_exchange)
          × (s'.rate_reanchor ≡ true)
          × (s'.freq_trim_ppb ≡ servo_at_rest.freq_trim_ppb)
          × (s'.wired_integral_q16 ≡ servo_at_rest.freq_trim_ppb *ℤ pos 65536)
          × (s'.drift_acc ≡ pos 0)
          × (s'.local_time_ns_prev ≡ pos 0)
          × (s'.remote_time_ns_prev ≡ pos 0)
          × (s'.last_offset_ns ≡ pos 0)
          × (s'.last_delta_timestamp
              ≡ add_seconds (sub_seconds (at_second 6) (at_second 5)) (at_second 100))
          × (ok
              ≡ wired_platform.set_time
                  (add_seconds (sub_seconds (at_second 6) (at_second 5)) (at_second 100)))
          × ((ok ≡ true)
                × (s'.clock_steps_ns
                    ≡ servo_at_rest.clock_steps_ns
                      +ℤ timespec_delta_ns wired_platform.time64 (at_second 100) (at_second 5))
              ⊎ (ok ≡ false) × (s'.clock_steps_ns ≡ servo_at_rest.clock_steps_ns))
        ⊎ (abs_ℤ (offset_of wired_platform servo_at_rest (at_second 100) (at_second 5))
            ≤ℤ pos (wired_platform.settime_threshold_ms * 1000000))
          × (ok ≡ true)
          × (s'.timing ≡ servo_at_rest.timing)
          × (s'.peer_exchange ≡ servo_at_rest.peer_exchange)
          × (s'.clock_steps_ns ≡ servo_at_rest.clock_steps_ns)
          × (s'.local_time_ns_prev ≡ timespec_to_ns (at_second 5))
          × (s'.remote_time_ns_prev ≡ timespec_to_ns (at_second 100))
          × (s'.last_offset_ns
              ≡ offset_of wired_platform servo_at_rest (at_second 100) (at_second 5)))
update_local_clock_result_example =
    update_local_clock_result wired_platform servo_at_rest (at_second 100) (at_second 5)
      (at_second 6)

update_local_clock-IsServo_example :
    IsServo
      (update_local_clock wired_platform servo_at_rest
        (at_second 100)
        (at_second 100)
        (at_second 101)).0
update_local_clock-IsServo_example =
    update_local_clock-IsServo wired_platform servo_at_rest (at_second 100) (at_second 100)
      (at_second 101) (servo_at_rest-IsServo)
