-- ===== src/Daemon/Sync/Tests.antt =====
-- A two-step Sync with its Follow_Up, and instances of the theorems.
use esp_ptp.Base.{true, false, ◌≡◌, refl, ◌⊎◌, some, [], ◌∷◌, ◌++◌, arith}
use esp_ptp.Base.Int.{pos, ◌+ℤ◌, ◌-ℤ◌, ◌*ℤ◌, ◌≤ℤ◌}
use esp_ptp.Base.Bytes.{Bytes, same, zeros}
use esp_ptp.Schedule.SyncReceipt.{receipt_interval}
use esp_ptp.Daemon.Format.{of_format}
use esp_ptp.Daemon.Times.{timespec_delta_ns, get_correction_ns, shift_16, be64}
use esp_ptp.Daemon.Snapshot.{invalidate, payload_valid, follow_up_size}
use esp_ptp.Daemon.Servo.{update_local_clock, is_far, offset_of, jump}
use esp_ptp.Daemon.Samples.{
  clock_a, clock_b, at_second, wired_platform, servo_at_rest, announce_bytes,
}
use esp_ptp.Daemon.Sync.{
  State, Received, port_of, sequence_at, is_recent, is_matching, is_complete, is_awaited,
  is_twostep, process_sync, process_followup, update_clock, take_fields,
}
use esp_ptp.Daemon.Sync.Follow.{process_followup_once, jump_publishes_nothing}

-- The header of a Sync and of its Follow_Up, with the time 100 s.
abbrev sync_bytes : Bytes
sync_bytes =
    (0x10 ∷ 2 ∷ 0 ∷ 44 ∷ 0 ∷ 0 ∷ 2 ∷ 0 ∷ zeros 12)
    ++ (clock_b ++ (0 ∷ 1 ∷ 0 ∷ 7 ∷ 0 ∷ 253 ∷ zeros 10))

abbrev follow_up_bytes : Bytes
follow_up_bytes =
    (0x18 ∷ 2 ∷ 0 ∷ 76 ∷ zeros 16)
    ++ (clock_b
        ++ (0 ∷ 1 ∷ 0 ∷ 7 ∷ 2 ∷ 253 ∷ 0 ∷ 0 ∷ 0 ∷ 0 ∷ 0 ∷ 100 ∷ 0 ∷ 0 ∷ 0 ∷ 0 ∷ []
            ++ (0 ∷ 3 ∷ 0 ∷ 28 ∷ 0 ∷ 0x80 ∷ 0xc2 ∷ 0 ∷ 0 ∷ 1 ∷ zeros 22)))

-- The Sync was received when the local clock read 5 s.
abbrev waiting : State
waiting = record {
  servo = servo_at_rest;
  selected_source = announce_bytes;
  selected_source_valid = true;
  own_source_identity = clock_a;
  last_received_sync = at_second 5;
  twostep_pending = true;
  twostep_rxtime = at_second 5;
  twostep_packet = sync_bytes;
  twostep_received_us = pos 5000000;
  upstream_gm_fields = zeros 18;
  upstream_gm_fields_valid = false;
  sync_receipt = record { received_us = pos 0; interval_us = pos 0; armed = false };
}

abbrev follow_up : Received
follow_up = record {
  message = follow_up_bytes;
  rxtime = at_second 5;
  mono = at_second 5;
  clock = at_second 5;
  now_us = pos 5001000;
  observed_us = pos 5001100;
  published_us = pos 5001200;
  meanwhile = λ store. store;
}

abbrev after : State
after = (process_followup wired_platform waiting follow_up).0

taken : process_followup wired_platform waiting follow_up ≡ (after, true)
unfolding process_followup is_awaited is_recent is_matching is_complete receipt_interval
    payload_valid same update_clock take_fields update_local_clock jump is_far offset_of
    timespec_delta_ns of_format get_correction_ns shift_16 be64 ◌+ℤ◌ ◌-ℤ◌ ◌*ℤ◌
taken = refl

-- The Sync itself, received when nothing waited.
abbrev idle : State
idle = record waiting { twostep_pending = false }

abbrev sync : Received
sync = record follow_up { message = sync_bytes; now_us = pos 5000000 }

process_followup_once_example :
    let waits = (process_sync wired_platform idle sync).0 in
    let (s', ok) = process_followup wired_platform waits follow_up in
    (process_followup wired_platform waits follow_up ≡ (waits, true))
    ⊎ (port_of sync.message ≡ port_of idle.selected_source)
      × (is_twostep sync.message ≡ true)
      × (sync.now_us ≤ℤ follow_up.now_us)
      × (follow_up.now_us ≤ℤ sync.now_us +ℤ pos 1000000)
      × (port_of follow_up.message ≡ port_of sync.message)
      × (sequence_at follow_up.message ≡ sequence_at sync.message)
      × ((idle.servo.gptp ≡ false) ⊎ (payload_valid (some follow_up.message) follow_up_size ≡ true))
      × (s'.twostep_pending ≡ false)
      × (process_followup wired_platform s' follow_up ≡ (s', true))
process_followup_once_example =
    process_followup_once wired_platform idle sync follow_up follow_up refl

jump_publishes_nothing_example :
    after.servo.timing ≡ follow_up.meanwhile (invalidate waiting.servo.timing)
unfolding is_awaited is_recent is_matching is_complete receipt_interval payload_valid same
    take_fields is_far offset_of timespec_delta_ns of_format get_correction_ns shift_16 be64 ◌+ℤ◌
    ◌-ℤ◌ ◌*ℤ◌
jump_publishes_nothing_example =
    jump_publishes_nothing wired_platform waiting after follow_up refl refl taken (omega arith)
