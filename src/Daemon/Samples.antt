-- ===== src/Daemon/Samples.antt =====
-- States of the daemon at rest, for the tests of its parts.
use esp_ptp.Base.{ℕ, true, false, [], ◌∷◌, ◌++◌, replicate}
use esp_ptp.Base.Int.{pos, ◌+ℤ◌, ◌-ℤ◌}
use esp_ptp.Base.Bytes.{Bytes, zeros}
use esp_ptp.Peer.Wire.{Timespec, no_time}
use esp_ptp.Peer.Exchange.{blank}
use esp_ptp.Peer.CapableReceive.{CapableReceive}
use esp_ptp.Wifi.Neighbor.{unassociated}
use esp_ptp.Daemon.Rank.{Announced}
use esp_ptp.Daemon.Snapshot.{Snapshot, Store}
use esp_ptp.Daemon.Unicast.{reset_unicast}
use esp_ptp.Daemon.Servo.{Platform}
use esp_ptp.Daemon.Servo
use esp_ptp.Daemon.Selection.{eth_hwts, wifi_none}
use esp_ptp.Daemon.Selection

abbrev pub clock_a : Bytes
clock_a = 1 ∷ 2 ∷ 3 ∷ 4 ∷ 5 ∷ 6 ∷ 7 ∷ 8 ∷ []

abbrev pub clock_b : Bytes
clock_b = 11 ∷ 12 ∷ 13 ∷ 14 ∷ 15 ∷ 16 ∷ 17 ∷ 18 ∷ []

abbrev pub at_second : ℕ → Timespec
at_second n = record { tv_sec = pos n; tv_nsec = pos 0 }

abbrev pub no_snapshot : Snapshot
no_snapshot = record {
  generation = 1;
  received_us = pos 0;
  reference_ns = pos 0;
  local_receive_ns = pos 0;
  offset_ns = pos 0;
  correction_ns = pos 0;
  peer_delay_ns = pos 0;
  trim_ppb = pos 0;
  drift_ppb = pos 0;
  btc_identity = zeros 8;
  own_identity = zeros 8;
  follow_up = zeros 76;
  hardware_clock = false;
  valid = false;
}

abbrev pub no_store : Store
no_store = record { timing = no_snapshot; local_source = no_snapshot }

-- The system's functions on times, for times of whole seconds.
abbrev pub sub_seconds : Timespec → Timespec → Timespec
sub_seconds a b = record { tv_sec = a.tv_sec -ℤ b.tv_sec; tv_nsec = pos 0 }

abbrev pub add_seconds : Timespec → Timespec → Timespec
add_seconds a b = record { tv_sec = a.tv_sec +ℤ b.tv_sec; tv_nsec = pos 0 }

-- A wired clock that takes every trim and every time, with sums below 2 ^ 53, which double holds.
abbrev pub wired_platform : Platform
wired_platform = record {
  time64 = true;
  sw_clock = false;
  sync_interval_ms = 125;
  settime_threshold_ms = 10;
  peer_stability_ns = pos 1000;
  path_stability_ns = pos 1000;
  adjust_rate = λ trim. true;
  set_time = λ time. true;
  add_correction = λ a b c. a +ℤ (b +ℤ c);
  timespec_sub = sub_seconds;
  timespec_add = add_seconds;
}

abbrev pub servo_at_rest : Servo.State
servo_at_rest = record {
  gptp = true;
  peer_delay_ns = pos 0;
  path_delay_ns = pos 0;
  correction_ns = pos 0;
  delay_asymmetry_ns = pos 0;
  remote_time_ns_prev = pos 0;
  local_time_ns_prev = pos 0;
  drift_acc = pos 0;
  wired_integral_q16 = pos 0;
  freq_trim_ppb = pos 0;
  last_offset_ns = pos 0;
  can_send_delayreq = false;
  stable = 0;
  drift_ring = replicate 6 (pos 0);
  drift_ring_count = 0;
  drift_ring_pos = 0;
  last_delta_timestamp = no_time;
  last_delta_ns = pos 0;
  last_adjtime_ns = pos 0;
  drift_avg_total_ms = pos 0;
  drift_ppb = pos 0;
  clock_steps_ns = pos 0;
  clock_updates = 0;
  peer_exchange = blank;
  rate_reanchor = false;
  timing = no_store;
}

abbrev pub no_capability : CapableReceive
no_capability = record {
  message = record { source_port = zeros 10; log_interval = pos 0 };
  lifecycle = 0;
  received_us = pos 0;
  expires_us = pos 0;
  valid = false;
}

abbrev pub own_clock : Announced
own_clock = record {
  btc_priority1 = 255;
  btc_quality = 248 ∷ 254 ∷ 67 ∷ 106 ∷ [];
  btc_priority2 = 248;
  btc_identity = clock_a;
  stepsremoved = 0 ∷ 0 ∷ [];
  sourceidentity = clock_a;
  sourceportindex = 0 ∷ 1 ∷ [];
}

-- Without a source.
abbrev pub unselected : Selection.State
unselected = record {
  gptp = true;
  medium = eth_hwts;
  wifi_mode = wifi_none;
  own_identity = own_clock;
  selected_source = zeros 64;
  selected_source_valid = false;
  selected_path = [];
  selected_gm_link_mbps = 0;
  negotiated_link_mbps = 100;
  delay_asymmetry_ns = pos 0;
  selected_source_mac = zeros 6;
  selected_source_mac_valid = false;
  unicast = reset_unicast;
  last_selected_announce = no_time;
  last_received_announce = no_time;
  last_received_sync = no_time;
  twostep_pending = false;
  path_delay_avgcount = 0;
  path_delay_ns = pos 0;
  correction_ns = pos 0;
  delayreq_time = no_time;
  sync_receipt = record { received_us = pos 0; interval_us = pos 0; armed = false };
  receipt_window_us = pos 0;
  timing = no_store;
  wifi_neighbor = unassociated 1;
  capable_receive = no_capability;
  peer_capability = record { lifecycle = 0; received_us = pos 0; qualified = false };
  peer_lifecycle = 0;
  peer_responder = zeros 10;
  delayreq_interval_ms = 1000;
  enabled = true;
  link_up = true;
}

-- A clock of priority 246 announces itself: the header, ten bytes of time, and the body to the time
-- source, without a path.
abbrev pub announce_bytes : Bytes
announce_bytes =
    (0x1b ∷ 2 ∷ 0 ∷ 64 ∷ zeros 16)
    ++ (clock_b
        ++ (0 ∷ 1 ∷ 0 ∷ 7 ∷ 5 ∷ 0 ∷ zeros 13
            ++ (246 ∷ 248 ∷ 254 ∷ 67 ∷ 106 ∷ 248 ∷ [] ++ (clock_b ++ (0 ∷ 0 ∷ 0xa0 ∷ [])))))
