-- ===== src/Daemon/Profile/Tests.antt =====
-- A gPTP endpoint without ports under way, and instances of the theorems on the profile.
use esp_ptp.Base.{◌≤◌, ◌<◌, true, false, ◌≡◌, refl, ◌⊎◌, [], ◌∷◌}
use esp_ptp.Base.Int.{pos}
use esp_ptp.Base.Bytes.{zeros}
use esp_ptp.Peer.Wire.{no_time}
use esp_ptp.Peer.Exchange.{expire}
use esp_ptp.Wifi.Neighbor.{unassociated}
use esp_ptp.Daemon.Unicast.{reset_unicast}
use esp_ptp.Daemon.Samples.{servo_at_rest, no_capability}
use esp_ptp.Daemon.Profile.{
  Options, State, Port, is_dropping, arm_profile_fallback, check_profile_fallback,
}
use esp_ptp.Daemon.Profile.Fallback.{check_profile_fallback_reason, arm_returns}

abbrev options : Options
options = record {
  avb_lite_endpoint = true;
  priority_tag = false;
  pdelayreq_interval_ms = 1000;
  delayreq_interval_ms = 1000;
}

abbrev port : Port
port = record {
  capable_receive = no_capability;
  peer_capability = record { lifecycle = 1; received_us = pos 500; qualified = true };
  wired_capable = record {
    transmit = (unassociated 1).transmit;
    lifecycle = 1;
    identity = zeros 10;
    bound = true;
  };
  wifi_neighbor = unassociated 1;
  wifi_peers = record {
    generation = 1;
    radio_boot = 0;
    radio_generation = 0;
    reconciled_generation = 0;
    unreported = false;
    entries = [];
  };
}

-- More than one clock has answered.
abbrev flooded : State
flooded = record {
  servo = servo_at_rest;
  preferred_gptp = true;
  gptp_fallback_done = false;
  avb_lite_fallback_reason = 0;
  fallback_held = false;
  bridged = false;
  peer_is_endpoint = false;
  pdelay_multi_responder = true;
  pdelay_resp_responder_count = 2;
  pdelay_resp_responders = zeros 16;
  last_endpoint_beacon = no_time;
  generations = 3 ∷ [];
  ports = port ∷ [];
  selected_source_valid = true;
  selected_source = zeros 64;
  selected_path = [];
  last_selected_announce = no_time;
  selected_source_mac_valid = false;
  selected_gm_link_mbps = 0;
  negotiated_link_mbps = 100;
  unicast = reset_unicast;
  twostep_pending = true;
  path_delay_avgcount = 0;
  peer_delay_avgcount = 0;
  delayreq_time = no_time;
  last_transmitted_delayreq = no_time;
  delayreq_interval_ms = 1000;
  next_delayreq_interval_ms = 1000;
}

check_profile_fallback_reason_example :
    let s' = check_profile_fallback options flooded (pos 1000000) (pos 0) in
    let lost = (expire flooded.servo.peer_exchange (pos 1000000)).0.lost_responses in
    (s'.servo.gptp ≡ true) × (s'.avb_lite_fallback_reason ≡ flooded.avb_lite_fallback_reason)
    ⊎ (s'.servo.gptp ≡ false)
      × (options.avb_lite_endpoint ≡ true)
      × (flooded.bridged ≡ false)
      × (flooded.gptp_fallback_done ≡ false)
      × (s'.gptp_fallback_done ≡ true)
      × ((s'.avb_lite_fallback_reason ≡ 1) × (flooded.peer_is_endpoint ≡ true)
          ⊎ (s'.avb_lite_fallback_reason ≡ 2)
            × (9 ≤ lost)
            × (is_dropping (pos 1000000) (pos 0) ≡ false)
          ⊎ (s'.avb_lite_fallback_reason ≡ 3)
            × (flooded.pdelay_multi_responder ≡ true)
            × (lost < 9))
check_profile_fallback_reason_example =
    check_profile_fallback_reason options flooded (pos 1000000) (pos 0) refl

arm_returns_example :
    let s' = arm_profile_fallback options flooded in
    (s'.servo.gptp ≡ true)
    × (s'.avb_lite_fallback_reason ≡ 0)
    × (s'.gptp_fallback_done ≡ false)
    × ((check_profile_fallback options s' (pos 1000000) (pos 0)).servo.gptp ≡ true)
arm_returns_example = arm_returns options flooded (pos 1000000) (pos 0) refl
