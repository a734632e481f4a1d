-- ===== src/Daemon/Links.antt =====
-- The links and associations of the ports in ptp.c: what the Ethernet and Wi-Fi events change, and what
-- the radio's tasks ask of a port. The locked parts are the steps.
use esp_ptp.Base.{
  ℕ, zero, suc, ◌+◌, ◌-◌, ◌*◌, ◌/◌, ◌%◌, ◌^◌, ◌≤◌, ◌<◌, Bool, true, false, not, ◌&&◌, ◌||◌,
  if◌then◌else◌, ◌==◌, ltb, leb, ◌≡◌, refl, sym, ap, ◌∙◌, ◌≢◌, ◌↔◌, ◌⊎◌, inl, inr, Option, none,
  some, List, [], ◌∷◌, ◌++◌, map, arith, Bool-cases, Option-cases, ==_iff, length, get_or,
  get_elem?, set, take, drop, replicate, length-set, length-append, length-take, length-drop,
  length-replicate, length-map, take-append-drop,
}
use esp_ptp.Base.Int.{
  ℤ, pos, negsuc, neg, pos_part, neg_part, sub_ℕ, ◌+ℤ◌, ◌-ℤ◌, ◌*ℤ◌, lt_ℤ, le_ℤ, ◌==ℤ◌, ◌≤ℤ◌, ◌<ℤ◌,
  int64_max, int32_max, quot, rem, wrap, signed, min_ℤ, max_ℤ, int_laws, +ℤ_parts, -ℤ_parts,
  eq_of_parts, neg_parts,
}
use esp_ptp.Base.Word.{u8, u16, u32, uint16_max, next_nonzero}
use esp_ptp.Base.Bytes.{
  Bytes, byte, same, same_iff, same_refl, slice, be16, zeros, copy, fill, byte-set, byte-fill,
  byte-copy, length-fill, length-copy, byte-take, byte-drop, byte_past, slice-copy, bytes_ext,
}
use esp_ptp.Peer.Exchange.{Exchange}
use esp_ptp.Peer.Exchange
use esp_ptp.Peer.CapableReceive.{CapableReceive}
use esp_ptp.Schedule.SyncInterval.{SyncRate}
use esp_ptp.Schedule.Announce.{Announce, Grant, announce_begin, announce_finish}
use esp_ptp.Wifi.Neighbor.{Neighbor, associate}
use esp_ptp.Wifi.Peers.{Peer, Peers, publishable, find, join, leave, clear, entry, update}
use esp_ptp.Wifi.Peers.Reconcile.{reconcile}
use esp_ptp.Daemon.Selection.{Medium, WifiMode, eth_hwts, wifi_ftm, wifi_sta, wifi_ap, wifi_none}
pub mod Retire
mod Tests

-- The fields of struct ptp_port_s that are used.
pub record Port : Type 0 where
  pub enabled : Bool
  pub link_up : Bool
  pub medium : Medium
  pub wifi_mode : WifiMode
  pub peer_exchange : Exchange
  pub capable_receive : CapableReceive
  pub wifi_neighbor : Neighbor
  pub wifi_peers : Peers

-- The ports of the daemon's state, its profile and s_injected_generation.
pub record State : Type 0 where
  pub gptp : Bool
  pub ports : List Port
  pub generations : List ℕ

abbrev pub is_radio : Port → Bool
is_radio p = elim (p.medium) [ eth_hwts ↦ false | wifi_ftm ↦ true ]

abbrev pub is_station : Port → Bool
is_station p = elim (p.wifi_mode) [ wifi_sta ↦ true | wifi_ap ↦ false | wifi_none ↦ false ]

abbrev pub is_access_point : Port → Bool
is_access_point p = elim (p.wifi_mode) [ wifi_sta ↦ false | wifi_ap ↦ true | wifi_none ↦ false ]

-- ptp_find_port_by_medium; `radio` is whether the medium is Wi-Fi
pub find_port : List Port → Bool → Option ℕ
find_port [] radio = none
find_port (p ∷ ps) radio =
    let rest = find_port ps radio in
    if p.enabled && (is_radio p && radio || not (is_radio p) && not radio)
    then some 0
    else elim rest [ none ↦ none | some i ↦ some (suc i) ]

-- `++s_injected_generation[port]`
pub retire_frames : State → ℕ → State
retire_frames s i = record s {
  generations = set s.generations i (u32 (get_or s.generations i 0 + 1));
}

pub set_port : State → ℕ → Port → State
set_port s i p = record s { ports = set s.ports i p }

-- ptp_set_port_link on a port that exists
pub set_link : State → ℕ → Port → Bool → State
set_link s i p up =
    if p.link_up && up || not p.link_up && not up
    then s
    else retire_frames
        (set_port s i (record p {
          peer_exchange = Exchange.invalidate p.peer_exchange;
          capable_receive = record (p.capable_receive) { valid = false };
          link_up = up;
        }))
        i

-- ptp_set_port_link
pub set_port_link : State → Option ℕ → Bool → State
set_port_link s none up = s
set_port_link s (some i) up = elim (get_elem? s.ports i) [ none ↦ s | some p ↦ set_link s i p up ]

-- ptp_eth_event_handler; the result is whether ptp_arm_profile_fallback is called next
pub eth_event : State → Bool → State × Bool
eth_event s connected = (set_port_link s (find_port s.ports false) connected, connected)

-- The events of the radio, with the addresses that they carry.
pub data WifiEvent : Type 0 where
  sta_connected : Option Bytes → WifiEvent
  sta_disconnected ap_start ap_stop : WifiEvent
  ap_staconnected ap_stadisconnected : Bytes → WifiEvent

-- The station's neighbour changes, and nothing is known of its capability.
abbrev pub reassociate : Port → Option Bytes → Port
reassociate p bssid = record p {
  wifi_neighbor = associate p.wifi_neighbor bssid;
  capable_receive = record (p.capable_receive) { valid = false };
}

-- What an event does to the radio's port.
pub port_event : State → ℕ → Port → WifiEvent → State
port_event s i p (sta_connected bssid) =
    let q = reassociate p bssid in
    if is_station p then set_link (retire_frames (set_port s i q) i) i q true else s
port_event s i p sta_disconnected =
    let q = reassociate p none in if is_station p then set_link (set_port s i q) i q false else s
port_event s i p (ap_staconnected mac) =
    if is_access_point p
    then retire_frames (set_port s i (record p { wifi_peers = (join p.wifi_peers mac).0 })) i
    else s
port_event s i p (ap_stadisconnected mac) =
    if is_access_point p
    then retire_frames (set_port s i (record p { wifi_peers = leave p.wifi_peers mac })) i
    else s
port_event s i p ap_start = if is_access_point p then set_link s i p true else s
port_event s i p ap_stop =
    let q = record p { wifi_peers = clear p.wifi_peers } in
    if is_access_point p then set_link (set_port s i q) i q false else s

-- ptp_wifi_event_handler
pub wifi_event : State → WifiEvent → State
wifi_event s e = elim (find_port s.ports true) [
  | none ↦ s
  | some i ↦ elim (get_elem? s.ports i) [ none ↦ s | some p ↦ port_event s i p e ]
]

-- The port that an index names, where the daemon runs.
pub port_at : State → ℤ → Option Port
port_at s index = if lt_ℤ index (pos 0) then none else get_elem? s.ports (pos_part index)

-- A radio port that is in use with gPTP, as an access point or as a station.
pub serves : State → Port → Bool
serves s p = p.enabled && p.link_up && s.gptp && is_radio p && is_access_point p

pub attends : State → Port → Bool
attends s p = p.enabled && p.link_up && s.gptp && is_radio p && is_station p

-- ptp_wifi_sta_timing_t
pub record StaTiming : Type 0 where
  pub association : ℕ
  pub revision : ℕ
  pub stopped : Bool
  pub bssid : Bytes

-- ptpd_wifi_sta_timing_snapshot
pub sta_timing_snapshot : State → ℤ → Option StaTiming
sta_timing_snapshot s index = elim (port_at s index) [
  | none ↦ none
  | some p ↦
      if attends s p && p.wifi_neighbor.associated && p.wifi_neighbor.bound
      then some (record {
        association = p.wifi_neighbor.association;
        revision = p.wifi_neighbor.sync.revision;
        stopped = p.wifi_neighbor.sync.stopped;
        bssid = p.wifi_neighbor.bssid;
      })
      else none
]

-- ptpd_wifi_association_reconcile; the result is whether the report was accepted
pub association_reconcile : State → ℤ → ℕ → ℕ → List Bytes → State × Bool
association_reconcile s index boot generation macs = elim (port_at s index) [
  | none ↦ (s, false)
  | some p ↦
      let (peers, accepted) = reconcile p.wifi_peers boot generation macs in
      let peers' = if accepted then record peers { unreported = false } else peers in
      let s' = set_port s (pos_part index) (record p { wifi_peers = peers' }) in
      if not (serves s p)
      then (s, false)
      else if accepted && not (p.wifi_peers.generation == peers.generation)
      then (retire_frames s' (pos_part index), accepted)
      else (s', accepted)
]

-- ptpd_wifi_association_unreported
pub association_unreported : State → ℤ → State
association_unreported s index = elim (port_at s index) [
  | none ↦ s
  | some p ↦
      if is_radio p && is_access_point p && not p.wifi_peers.unreported
      then retire_frames
          (set_port s (pos_part index)
            (record p { wifi_peers = record (p.wifi_peers) { unreported = true } }))
          (pos_part index)
      else s
]

-- The station of an association that a port serves, with its slot: what ptpd_wifi_announce_begin and
-- ptpd_wifi_announce_finish ask. `coprocessor` is CONFIG_ESP_PTP_HAS_AP_VIA_COPROCESSOR.
pub served_peer : Bool → State → ℤ → Bytes → ℕ → Option (Port × ℕ)
served_peer coprocessor s index mac association = elim (port_at s index) [
  | none ↦ none
  | some p ↦ elim (find p.wifi_peers.entries mac) [
    | none ↦ none
    | some slot ↦
        if serves s p
          && publishable coprocessor p.wifi_peers
          && (entry p.wifi_peers.entries slot).association == association
        then some (p, slot)
        else none
  ]
]

-- The Announce state of a station is replaced.
pub set_announce : State → ℤ → Port → ℕ → Announce → State
set_announce s index p slot a = set_port s (pos_part index) (record p {
  wifi_peers = update p.wifi_peers slot (record (entry p.wifi_peers.entries slot) { announce = a });
})

-- ptpd_wifi_announce_begin; no grant is the token 0
pub wifi_announce_begin : Bool → State → ℤ → Bytes → ℕ → ℕ → ℕ → ℤ → ℤ → State × Option Grant
wifi_announce_begin coprocessor s index mac association revision information initial now =
    elim (served_peer coprocessor s index mac association) [
      | none ↦ (s, none)
      | some (p, slot) ↦
          let (a, grant) =
            announce_begin (entry p.wifi_peers.entries slot).announce true initial revision
              information now in
          (set_announce s index p slot a, grant)
    ]

-- ptpd_wifi_announce_finish
pub wifi_announce_finish : Bool → State → ℤ → Bytes → ℕ → ℕ → Bool → ℤ → State × Bool
wifi_announce_finish coprocessor s index mac association token accepted now =
    elim (served_peer coprocessor s index mac association) [
      | none ↦ (s, false)
      | some (p, slot) ↦
          let (a, current) =
            announce_finish (entry p.wifi_peers.entries slot).announce token accepted now in
          (set_announce s index p slot a, current)
    ]

-- ptpd_port_link_up; `running` says that there is a daemon
pub port_link_up : Bool → State → ℤ → Bool
port_link_up running s index =
    if not running
    then true
    else elim (port_at s index) [ none ↦ false | some p ↦ p.enabled && p.link_up ]
