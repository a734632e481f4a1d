-- ===== src/Daemon/Selection.antt =====
-- The selection of the time source in ptp.c: ptp_process_announce and what decides that the source is
-- still there. Port 0 is the port of the timing messages.
use esp_ptp.Base.{
  ℕ, zero, suc, ◌+◌, ◌-◌, ◌*◌, ◌/◌, ◌%◌, ◌^◌, ◌≤◌, ◌<◌, Bool, true, false, not, ◌&&◌, ◌||◌,
  if◌then◌else◌, ◌==◌, ltb, leb, ◌≡◌, refl, sym, ap, ◌∙◌, ◌≢◌, ◌↔◌, ◌⊎◌, inl, inr, Option, none,
  some, List, [], ◌∷◌, ◌++◌, map, arith, Bool-cases, Option-cases, ==_iff, length, get_or,
  get_elem?, set, take, drop, replicate, length-set, length-append, length-take, length-drop,
  length-replicate, length-map, take-append-drop,
}
use esp_ptp.Base.Int.{
  ℤ, pos, negsuc, neg, pos_part, neg_part, sub_ℕ, ◌+ℤ◌, ◌-ℤ◌, ◌*ℤ◌, lt_ℤ, le_ℤ, ◌==ℤ◌, ◌≤ℤ◌, ◌<ℤ◌,
  int64_max, int32_max, quot, rem, wrap, signed, min_ℤ, max_ℤ, int_laws, +ℤ_parts, -ℤ_parts,
  eq_of_parts, neg_parts,
}
use esp_ptp.Base.Word.{u8, u16, u32, uint16_max, next_nonzero}
use esp_ptp.Base.Bytes.{
  Bytes, byte, same, same_iff, same_refl, slice, be16, zeros, copy, fill, byte-set, byte-fill,
  byte-copy, length-fill, length-copy, byte-take, byte-drop, byte_past, slice-copy, bytes_ext,
}
use esp_ptp.Peer.Wire.{Timespec}
use esp_ptp.Peer.Capability.{Capability, Link, peer_capable}
use esp_ptp.Peer.CapableReceive.{CapableReceive, neighbor_capable}
use esp_ptp.Message.PathTrace.{Trace, parse}
use esp_ptp.Message.Signaling.{CapableMessage}
use esp_ptp.Schedule.SyncReceipt.{Receipt, receipt_start, receipt_current}
use esp_ptp.Wifi.Neighbor.{Neighbor, bind_neighbor}
use esp_ptp.Daemon.Rank.{Announced, is_better_clock}
use esp_ptp.Daemon.Times.{receipt_timeout_ns, timespec_delta_ns, timespec_to_ms, log_of}
use esp_ptp.Daemon.LiteTlv.{find_lite_tlv, gm_link_subtype}
use esp_ptp.Daemon.Snapshot.{Store, invalidate}
use esp_ptp.Daemon.Unicast.{Unicast, reset_unicast}
pub mod Best
pub mod Valid
mod Tests

-- PTP_ANNOUNCE_BODY_LENGTH
abbrev pub announce_length : ℕ
announce_length = 64

-- ptp_port_medium_e and ptp_port_wifi_mode_e
pub data Medium : Type 0 where
  eth_hwts wifi_ftm : Medium

pub data WifiMode : Type 0 where
  wifi_sta wifi_ap wifi_none : WifiMode

-- The options of the build that the selection reads.
pub record Options : Type 0 where
  pub time64 : Bool
  pub priority_tag : Bool
  pub sync_interval_ms : ℕ
  pub announce_interval_ms : ℕ
  pub timeout_ms : ℕ

-- The fields of struct ptp_state_s and of its port 0 that the selection reads and writes. The source
-- is the first 64 bytes of `selected_source`; the rest of that structure stays zero.
pub record State : Type 0 where
  pub gptp : Bool
  pub medium : Medium
  pub wifi_mode : WifiMode
  pub own_identity : Announced
  pub selected_source : Bytes
  pub selected_source_valid : Bool
  pub selected_path : Trace
  pub selected_gm_link_mbps : ℕ
  pub negotiated_link_mbps : ℕ
  pub delay_asymmetry_ns : ℤ
  pub selected_source_mac : Bytes
  pub selected_source_mac_valid : Bool
  pub unicast : Unicast
  pub last_selected_announce : Timespec
  pub last_received_announce : Timespec
  pub last_received_sync : Timespec
  pub twostep_pending : Bool
  pub path_delay_avgcount : ℕ
  pub path_delay_ns : ℤ
  pub correction_ns : ℤ
  pub delayreq_time : Timespec
  pub sync_receipt : Receipt
  pub receipt_window_us : ℤ
  pub timing : Store
  pub wifi_neighbor : Neighbor
  pub capable_receive : CapableReceive
  pub peer_capability : Capability
  pub peer_lifecycle : ℕ
  pub peer_responder : Bytes
  pub delayreq_interval_ms : ℕ
  pub enabled : Bool
  pub link_up : Bool

-- A received message: its bytes, its source address if known, the association it came by, and the
-- clocks that are read while it is processed.
pub record Received : Type 0 where
  pub message : Bytes
  pub source_mac : Option Bytes
  pub association : ℕ
  pub mono : Timespec
  pub now_us : ℤ

-- The fields of struct ptp_announce_s in a message.
pub announced : Bytes → Announced
announced m = record {
  btc_priority1 = byte m 47;
  btc_quality = slice m 48 4;
  btc_priority2 = byte m 52;
  btc_identity = slice m 53 8;
  stepsremoved = slice m 61 2;
  sourceidentity = slice m 20 8;
  sourceportindex = slice m 28 2;
}

-- ptp_update_delay_asymmetry, from whether frames are priority-tagged, whether the profile is gPTP and the
-- two link rates; `quot` is C's division
pub asymmetry_ns : Bool → Bool → ℕ → ℕ → ℤ
asymmetry_ns tagged gptp gm_mbps local_mbps =
    let octets = if tagged then 66 else 64 in
    if not gptp && ltb 0 gm_mbps && ltb 0 local_mbps && not (gm_mbps == local_mbps)
    then quot (pos (4 * octets * 1000) *ℤ (pos local_mbps -ℤ pos gm_mbps))
        (pos gm_mbps *ℤ pos local_mbps)
    else pos 0

pub update_delay_asymmetry : Options → State → State
update_delay_asymmetry o s = record s {
  delay_asymmetry_ns =
      asymmetry_ns o.priority_tag s.gptp s.selected_gm_link_mbps s.negotiated_link_mbps;
}

-- Binding the neighbour of a station to the port that announces, and whether to go on.
pub bind_announcer : State → Received → State × Bool
bind_announcer s r = elim (r.source_mac) [
  | none ↦ (s, true)
  | some mac ↦ elim (s.medium) [
    | eth_hwts ↦ (s, true)
    | wifi_ftm ↦ elim (s.wifi_mode) [
      | wifi_ap ↦ (s, true)
      | wifi_none ↦ (s, true)
      | wifi_sta ↦
          let identity = slice r.message 20 10 in
          let (n, bound) = bind_neighbor s.wifi_neighbor r.association mac identity in
          let kept = same s.capable_receive.message.source_port identity in
          (
            record s {
              wifi_neighbor = n;
              capable_receive = record (s.capable_receive) {
                valid = s.capable_receive.valid && (not bound || kept);
              };
            },
            bound,
          )
    ]
  ]
]

pub same_port : State → Bytes → Bool
same_port s m = same (slice m 20 10) (slice s.selected_source 20 10)

-- The source is forgotten.
pub drop_source : State → State
drop_source s = record s {
  timing = invalidate s.timing;
  selected_source_valid = false;
  selected_source = zeros announce_length;
  selected_path = [];
}

-- `changed` and `vector_changed`
pub is_changed : State → Bytes → Bool
is_changed s m =
    not s.selected_source_valid
    || not (same_port s m)
    || not (same (slice m 53 8) (slice s.selected_source 53 8))

pub is_vector_changed : State → Bytes → Bool
is_vector_changed s m =
    not (same (slice m 47 14) (slice s.selected_source 47 14))
    || not (same (slice m 61 2) (slice s.selected_source 61 2))

pub restart_receipt : Options → State → Received → State
restart_receipt o s r =
    if is_changed s r.message || is_vector_changed s r.message
    then record s {
      sync_receipt = receipt_start r.now_us (
          if lt_ℤ (pos 0) s.receipt_window_us
          then s.receipt_window_us
          else pos (3000 * o.sync_interval_ms));
    }
    else s

-- What is known of the old source is cleared.
pub switch_source : State → State
switch_source s = record s {
  timing = invalidate s.timing;
  twostep_pending = false;
  last_received_sync = s.last_received_announce;
  path_delay_avgcount = 0;
  path_delay_ns = pos 0;
  correction_ns = pos 0;
  delayreq_time = record (s.delayreq_time) { tv_sec = pos 0 };
}

-- The link rate that the source announces.
pub gm_link_of : State → Bytes → ℕ
gm_link_of s m =
    if s.gptp then 0 else elim (find_lite_tlv m (length m) announce_length gm_link_subtype 10) [
      | none ↦ 0
      | some i ↦
          byte m (i + 6) * 2 ^ 24
          + byte m (i + 7) * 2 ^ 16
          + byte m (i + 8) * 2 ^ 8
          + byte m (i + 9)
    ]

pub learn_mac : State → Option Bytes → State
learn_mac s none = s
learn_mac s (some mac) =
    if not s.selected_source_mac_valid || not (same s.selected_source_mac mac)
    then record s {
      selected_source_mac = mac;
      selected_source_mac_valid = true;
      unicast = reset_unicast;
    }
    else s

-- The last part of ptp_process_announce: the message becomes the selected source.
pub select_source : Options → State → Received → Trace → State
select_source o s r path =
    let restarted = restart_receipt o s r in
    let switched = if is_changed s r.message then switch_source restarted else restarted in
    let chosen = record switched {
      selected_source = take announce_length r.message;
      selected_path = path;
      selected_gm_link_mbps = gm_link_of s r.message;
    } in
    let learned = learn_mac (update_delay_asymmetry o chosen) r.source_mac in
    record learned { last_selected_announce = learned.last_received_announce }

-- ptp_process_announce from the comparison with this clock
pub compare_source : Options → State → Received → Trace → State
compare_source o s r path =
    if not (is_better_clock (announced r.message) s.own_identity)
    then if same_port s r.message then drop_source s else s
    else if not (same_port s r.message)
        && s.selected_source_valid
        && not (is_better_clock (announced r.message) (announced s.selected_source))
    then s
    else select_source o s r path

-- ptp_process_announce
pub process_announce : Options → State → Received → State
process_announce o s r =
    let own = s.own_identity.sourceidentity in
    elim (parse (some r.message) (length r.message) (some own)) [
      | none ↦ s
      | some path ↦
          if s.gptp && (leb 255 (be16 r.message 61) || same (slice r.message 20 8) own)
          then s
          else let (bound, go_on) = bind_announcer s r in
            if not go_on
            then bound
            else compare_source o (record bound { last_received_announce = r.mono }) r path
    ]

abbrev pub is_wired : Medium → Bool
is_wired eth_hwts = true
is_wired wifi_ftm = false

-- ptp_wired_capability
pub wired_capability : ℕ → State → ℤ → Bool
wired_capability domain s now =
    is_wired s.medium
    && peer_capable s.peer_capability
        (record {
          lifecycle = s.peer_lifecycle;
          enabled = s.enabled;
          link_up = s.link_up;
          gptp = s.gptp;
          domain = domain;
          neighbor_capable =
              neighbor_capable s.capable_receive (some s.peer_responder) s.peer_lifecycle now;
        })
        now (pos (s.delayreq_interval_ms * 1000))

-- The later of the last Sync and the last selected Announce.
pub last_event : State → Timespec
last_event s =
    let a = s.last_selected_announce in
    let e = s.last_received_sync in
    if lt_ℤ e.tv_sec a.tv_sec || (a.tv_sec ==ℤ e.tv_sec && lt_ℤ e.tv_nsec a.tv_nsec) then a else e

-- The receipt of Announce and Sync of a gPTP source.
pub gptp_current : Options → State → Timespec → ℤ → Bool
gptp_current o s mono now =
    let age = timespec_delta_ns o.time64 mono s.last_selected_announce in
    let limit = receipt_timeout_ns o.announce_interval_ms (log_of (byte s.selected_source 33)) in
    if lt_ℤ age (pos 0) || le_ℤ limit age
    then false
    else not (ltb (byte s.selected_source 47) 255) || receipt_current s.sync_receipt now

-- is_selected_source_valid; `timespec_sub` is the system's subtraction of two times
pub is_selected_source_valid :
    (Timespec → Timespec → Timespec) → Options → ℕ → State → Timespec → ℤ → Bool
is_selected_source_valid timespec_sub o domain s mono now =
    if s.gptp && is_wired s.medium && not (wired_capability domain s now)
    then false
    else if not (byte s.selected_source 0 % 16 == 11)
    then false
    else if s.gptp
    then gptp_current o s mono now
    else not (lt_ℤ (pos o.timeout_ms) (timespec_to_ms (timespec_sub mono (last_event s))))

-- The turn of the daemon's loop that judges the source again, with the same times.
pub revalidate : (Timespec → Timespec → Timespec) → Options → ℕ → State → Timespec → ℤ → State
revalidate timespec_sub o domain s mono now =
    let valid = is_selected_source_valid timespec_sub o domain s mono now in
    record s {
      selected_source_valid = valid;
      timing = if s.selected_source_valid && not valid then invalidate s.timing else s.timing;
    }
