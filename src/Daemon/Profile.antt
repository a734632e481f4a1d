-- ===== src/Daemon/Profile.antt =====
-- The profile of ptp.c: the reset of a change, the fallback of AVB Lite to standard PTP and its rearming
-- with the link. A profile is whether it is gPTP.
use esp_ptp.Base.{
  ℕ, zero, suc, ◌+◌, ◌-◌, ◌*◌, ◌/◌, ◌%◌, ◌^◌, ◌≤◌, ◌<◌, Bool, true, false, not, ◌&&◌, ◌||◌,
  if◌then◌else◌, ◌==◌, ltb, leb, ◌≡◌, refl, sym, ap, ◌∙◌, ◌≢◌, ◌↔◌, ◌⊎◌, inl, inr, Option, none,
  some, List, [], ◌∷◌, ◌++◌, map, arith, Bool-cases, Option-cases, ==_iff, length, get_or,
  get_elem?, set, take, drop, replicate, length-set, length-append, length-take, length-drop,
  length-replicate, length-map, take-append-drop,
}
use esp_ptp.Base.Int.{
  ℤ, pos, negsuc, neg, pos_part, neg_part, sub_ℕ, ◌+ℤ◌, ◌-ℤ◌, ◌*ℤ◌, lt_ℤ, le_ℤ, ◌==ℤ◌, ◌≤ℤ◌, ◌<ℤ◌,
  int64_max, int32_max, quot, rem, wrap, signed, min_ℤ, max_ℤ, int_laws, +ℤ_parts, -ℤ_parts,
  eq_of_parts, neg_parts,
}
use esp_ptp.Base.Word.{u8, u16, u32, uint16_max, next_nonzero}
use esp_ptp.Base.Bytes.{
  Bytes, byte, same, same_iff, same_refl, slice, be16, zeros, copy, fill, byte-set, byte-fill,
  byte-copy, length-fill, length-copy, byte-take, byte-drop, byte_past, slice-copy, bytes_ext,
}
use esp_ptp.Peer.Wire.{Timespec, no_time}
use esp_ptp.Peer.Exchange.{Exchange, expire}
use esp_ptp.Peer.Capability.{Capability}
use esp_ptp.Peer.CapableReceive.{CapableReceive}
use esp_ptp.Peer.WiredCapable.{WiredCapable}
use esp_ptp.Schedule.Capable.{Schedule}
use esp_ptp.Schedule.SyncInterval.{sync_reset}
use esp_ptp.Schedule.Announce.{announce_reset}
use esp_ptp.Message.PathTrace.{Trace}
use esp_ptp.Wifi.Neighbor.{Neighbor}
use esp_ptp.Wifi.Peers.{Peer, Peers}
use esp_ptp.Peer.WiredCapable
use esp_ptp.Daemon.Injected.{bump_all}
use esp_ptp.Daemon.Selection.{asymmetry_ns, announce_length}
use esp_ptp.Daemon.Snapshot.{invalidate}
use esp_ptp.Daemon.Unicast.{Unicast, reset_unicast}
use esp_ptp.Daemon.Servo.{clean_after_step}
use esp_ptp.Daemon.Servo
pub mod Fallback
pub mod Reset
mod Tests

-- The options of the build.
pub record Options : Type 0 where
  pub avb_lite_endpoint : Bool
  pub priority_tag : Bool
  pub pdelayreq_interval_ms : ℕ
  pub delayreq_interval_ms : ℕ

-- The fields of struct ptp_port_s that every port has.
pub record Port : Type 0 where
  pub capable_receive : CapableReceive
  pub peer_capability : Capability
  pub wired_capable : WiredCapable
  pub wifi_neighbor : Neighbor
  pub wifi_peers : Peers

-- The fields of struct ptp_state_s and of its port 0 that are used, with s_injected_generation and
-- s_fallback_held. The active profile is `servo.gptp`.
pub record State : Type 0 where
  pub servo : Servo.State
  pub preferred_gptp : Bool
  pub gptp_fallback_done : Bool
  pub avb_lite_fallback_reason : ℕ
  pub fallback_held : Bool
  pub bridged : Bool
  pub peer_is_endpoint : Bool
  pub pdelay_multi_responder : Bool
  pub pdelay_resp_responder_count : ℕ
  pub pdelay_resp_responders : Bytes
  pub last_endpoint_beacon : Timespec
  pub generations : List ℕ
  pub ports : List Port
  pub selected_source_valid : Bool
  pub selected_source : Bytes
  pub selected_path : Trace
  pub last_selected_announce : Timespec
  pub selected_source_mac_valid : Bool
  pub selected_gm_link_mbps : ℕ
  pub negotiated_link_mbps : ℕ
  pub unicast : Unicast
  pub twostep_pending : Bool
  pub path_delay_avgcount : ℕ
  pub peer_delay_avgcount : ℕ
  pub delayreq_time : Timespec
  pub last_transmitted_delayreq : Timespec
  pub delayreq_interval_ms : ℕ
  pub next_delayreq_interval_ms : ℕ

-- The reset of one station of an access point.
pub reset_peer : Peer → Peer
reset_peer p = record p {
  capable = record (p.capable) { valid = false };
  sync = sync_reset p.sync;
  announce = announce_reset p.announce;
  transmit = WiredCapable.cleared p.transmit;
}

-- The reset of one port.
pub reset_port : Port → Port
reset_port p = record {
  capable_receive = record (p.capable_receive) { valid = false };
  peer_capability = p.peer_capability;
  wired_capable = record {
    transmit = WiredCapable.cleared p.wired_capable.transmit;
    lifecycle = 0;
    identity = zeros 10;
    bound = false;
  };
  wifi_neighbor = record (p.wifi_neighbor) {
    transmit = WiredCapable.cleared p.wifi_neighbor.transmit;
    sync = sync_reset p.wifi_neighbor.sync;
  };
  wifi_peers = record (p.wifi_peers) { entries = map reset_peer p.wifi_peers.entries };
}

-- The part of the reset that the servo's state has.
pub reset_servo : Options → State → Servo.State
reset_servo o s = clean_after_step (record (s.servo) {
  timing = invalidate s.servo.timing;
  delay_asymmetry_ns = asymmetry_ns o.priority_tag s.servo.gptp 0 s.negotiated_link_mbps;
  path_delay_ns = pos 0;
  peer_delay_ns = pos 0;
  correction_ns = pos 0;
  can_send_delayreq = false;
})

-- ptp_reset_for_profile
pub reset_for_profile : Options → State → State
reset_for_profile o s =
    let interval = if s.servo.gptp then o.pdelayreq_interval_ms else o.delayreq_interval_ms in
    record s {
      generations = bump_all s.generations;
      ports = map reset_port s.ports;
      servo = reset_servo o s;
      selected_source_valid = false;
      twostep_pending = false;
      selected_source = zeros announce_length;
      selected_path = [];
      last_selected_announce = no_time;
      selected_source_mac_valid = false;
      selected_gm_link_mbps = 0;
      unicast = reset_unicast;
      path_delay_avgcount = 0;
      peer_delay_avgcount = 0;
      delayreq_time = no_time;
      last_transmitted_delayreq = no_time;
      delayreq_interval_ms = interval;
      next_delayreq_interval_ms = interval;
    }

-- The active profile is set, and everything reset for it.
pub enter_profile : Options → State → Bool → State
enter_profile o s gptp = reset_for_profile o (record s { servo = record (s.servo) { gptp = gptp } })

-- ptp_arm_profile_fallback
pub arm_profile_fallback : Options → State → State
arm_profile_fallback o s =
    let restored =
      if not s.servo.gptp && s.preferred_gptp || s.servo.gptp && not s.preferred_gptp
      then enter_profile o s s.preferred_gptp
      else s in
    if not restored.servo.gptp
    then record restored { avb_lite_fallback_reason = 4 }
    else record restored {
      avb_lite_fallback_reason = 0;
      gptp_fallback_done = false;
      last_transmitted_delayreq = no_time;
      peer_is_endpoint = false;
      servo = record (restored.servo) {
        peer_exchange = record (restored.servo.peer_exchange) { lost_responses = 0 };
      };
      pdelay_resp_responder_count = 0;
      pdelay_multi_responder = false;
      pdelay_resp_responders = zeros (length restored.pdelay_resp_responders);
      last_endpoint_beacon = no_time;
    }

-- The change to standard PTP, for a reason of its own.
pub fall_back : Options → State → ℕ → State
fall_back o s reason =
    enter_profile o (record s { gptp_fallback_done = true; avb_lite_fallback_reason = reason })
      false

-- The exchanges that failed, with the open one if it has expired.
pub expire_exchange : State → ℤ → State
expire_exchange s now = record s {
  servo = record (s.servo) { peer_exchange = (expire s.servo.peer_exchange now).0 };
}

-- The receiver dropped frames less than ten seconds ago; without a probe, and before any drop, the time
-- of the last one is 0.
pub is_dropping : ℤ → ℤ → Bool
is_dropping now last_drop = not (last_drop ==ℤ pos 0) && lt_ℤ (now -ℤ last_drop) (pos 10000000)

-- ptp_check_profile_fallback, where the probe says when the receiver dropped a frame last.
pub check_profile_fallback : Options → State → ℤ → ℤ → State
check_profile_fallback o s now last_drop =
    let expired = expire_exchange s now in
    let many = leb 9 expired.servo.peer_exchange.lost_responses in
    if not o.avb_lite_endpoint || not s.servo.gptp || s.gptp_fallback_done || s.bridged
    then s
    else if s.peer_is_endpoint
    then fall_back o s 1
    else if many && is_dropping now last_drop
    then record expired { fallback_held = true }
    else if many
    then fall_back o (record expired { fallback_held = false }) 2
    else if s.pdelay_multi_responder
    then fall_back o (record expired { fallback_held = false }) 3
    else record expired { fallback_held = false }

-- The values that ptpd_set_profile returns.
pub data Status : Type 0 where
  ok esrch einval : Status

-- ptpd_set_profile: 0 is standard PTP, 1 is gPTP
pub set_profile : Options → Bool → State → ℕ → State × Status
set_profile o running s profile =
    let gptp = profile == 1 in
    let same_profile = s.servo.gptp && gptp || not s.servo.gptp && not gptp in
    let entered = enter_profile o (record s { preferred_gptp = gptp }) gptp in
    if ltb 1 profile
    then (s, einval)
    else if not running
    then (s, esrch)
    else if same_profile
    then (s, ok)
    else ((if gptp then arm_profile_fallback o entered else entered), ok)
