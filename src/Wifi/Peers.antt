-- ===== src/Wifi/Peers.antt =====
-- ptp_wifi_peers.h: the stations associated with an access point, one per slot, and what each has
-- negotiated.
use esp_ptp.Base.{
  ℕ, zero, suc, ◌+◌, ◌-◌, ◌*◌, ◌/◌, ◌%◌, ◌^◌, ◌≤◌, ◌<◌, Bool, true, false, not, ◌&&◌, ◌||◌,
  if◌then◌else◌, ◌==◌, ltb, leb, ◌≡◌, refl, sym, ap, ◌∙◌, ◌≢◌, ◌↔◌, ◌⊎◌, inl, inr, Option, none,
  some, List, [], ◌∷◌, ◌++◌, map, arith, Bool-cases, Option-cases, ==_iff, length, get_or,
  get_elem?, set, take, drop, replicate, length-set, length-append, length-take, length-drop,
  length-replicate, length-map, take-append-drop,
}
use esp_ptp.Base.Int.{
  ℤ, pos, negsuc, neg, pos_part, neg_part, sub_ℕ, ◌+ℤ◌, ◌-ℤ◌, ◌*ℤ◌, lt_ℤ, le_ℤ, ◌==ℤ◌, ◌≤ℤ◌, ◌<ℤ◌,
  int64_max, int32_max, quot, rem, wrap, signed, min_ℤ, max_ℤ, int_laws, +ℤ_parts, -ℤ_parts,
  eq_of_parts,
}
use esp_ptp.Base.Word.{u8, u16, u32, uint16_max, next_nonzero}
use esp_ptp.Base.Bytes.{
  Bytes, byte, same, same_iff, same_refl, slice, be16, zeros, copy, fill, byte-set, byte-fill,
  byte-copy, length-fill, length-copy, byte-take, bytes_ext,
}
use esp_ptp.Message.Signaling.{CapableMessage, IntervalMessage}
use esp_ptp.Peer.CapableReceive.{CapableReceive, capable_receive}
use esp_ptp.Peer.WiredCapable.{cleared}
use esp_ptp.Schedule.Announce.{Announce, announce_reset, announce_request}
use esp_ptp.Schedule.Capable.{Schedule, schedule_request, schedule_finish}
use esp_ptp.Schedule.SyncInterval.{SyncRate, sync_reset, sync_request}
use esp_ptp.Wifi.Port.{association_port}
pub mod Slots
pub mod Registry
pub mod Messages
pub mod Reconcile
mod Tests

-- PTP_WIFI_PEERS_MAX
abbrev pub peers_max : ℕ
peers_max = 16

-- ptp_wifi_peer_t; sync_stopped and sync_revision are `sync`
pub record Peer : Type 0 where
  pub associated : Bool
  pub bound : Bool
  pub sync : SyncRate
  pub mac : Bytes
  pub port_identity : Bytes
  pub association : ℕ
  pub capable : CapableReceive
  pub transmit : Schedule
  pub announce : Announce

-- ptp_wifi_peers_t
pub record Peers : Type 0 where
  pub generation : ℕ
  pub radio_boot : ℕ
  pub radio_generation : ℕ
  pub reconciled_generation : ℕ
  pub unreported : Bool
  pub entries : List Peer

-- A zeroed slot.
abbrev pub empty : Peer
empty = record {
  associated = false;
  bound = false;
  sync = record { stopped = false; revision = 0 };
  mac = zeros 6;
  port_identity = zeros 10;
  association = 0;
  capable = record {
    message = record { source_port = zeros 10; log_interval = pos 0 };
    lifecycle = 0;
    received_us = pos 0;
    expires_us = pos 0;
    valid = false;
  };
  transmit = record {
    interval = record { log_interval = pos 0; slowdown_remaining = 0; old_interval_us = pos 0 };
    next_us = pos 0;
    queued_us = pos 0;
    serial = 0;
    pending = 0;
    sequence = 0;
    advertised_interval = pos 0;
    active = false;
  };
  announce = record {
    initialized = false;
    active = false;
    initial_log = pos 0;
    log_interval = pos 0;
    pending_log = pos 0;
    slowdown_remaining = 0;
    sequence = 0;
    revision = 0;
    serial = 0;
    pending = 0;
    information_revision = 0;
    old_period_us = pos 0;
    next_us = pos 0;
    queued_us = pos 0;
  };
}

abbrev pub entry : List Peer → ℕ → Peer
entry ps i = get_or ps i empty

-- ptp_wifi_peers_publishable, whether or not CONFIG_ESP_PTP_HAS_AP_VIA_COPROCESSOR is set
pub publishable : Bool → Peers → Bool
publishable coprocessor p =
    if not coprocessor
    then true
    else p.unreported
      || not (p.radio_boot == 0)
        && not (p.radio_generation == 0)
        && p.reconciled_generation == p.generation

-- ptp_wifi_peers_advance
abbrev pub advance : Peers → Peers
advance p = record p { generation = next_nonzero p.generation }

-- The slot holds this station.
abbrev pub holds : Peer → Bytes → Bool
holds p mac = p.associated && same p.mac mac

abbrev pub next_slot : Option ℕ → Option ℕ
next_slot none = none
next_slot (some i) = some (suc i)

-- ptp_wifi_peers_find: the first slot that holds the station
pub find : List Peer → Bytes → Option ℕ
find [] mac = none
find (p ∷ ps) mac = let rest = find ps mac in if holds p mac then some 0 else next_slot rest

-- The first slot of ptp_wifi_peers_join that is not associated.
pub free : List Peer → Option ℕ
free [] = none
free (p ∷ ps) = let rest = free ps in if p.associated then next_slot rest else some 0

-- ptp_wifi_peers_clear
pub clear : Peers → Peers
clear p = record (advance p) { entries = replicate (length p.entries) empty }

-- The address is that of one station.
pub unicast : Bytes → Bool
unicast mac = byte mac 0 % 2 == 0 && not (same mac (zeros 6))

-- The slot that ptp_wifi_peers_join takes.
pub slot_for : List Peer → Bytes → Option ℕ
slot_for ps mac = elim (find ps mac) [ none ↦ free ps | some i ↦ some i ]

-- A peer that has just associated.
abbrev pub joined : Bytes → ℕ → Peer
joined mac association = record empty { associated = true; mac = mac; association = association }

-- ptp_wifi_peers_join: the slot of the peer in place of the pointer to it
pub join : Peers → Bytes → Peers × Option ℕ
join p mac = if not (unicast mac) then (p, none) else elim (slot_for p.entries mac) [
  | none ↦ (p, none)
  | some i ↦ (
    record (advance p) { entries = set p.entries i (joined mac (next_nonzero p.generation)) },
    some i,
  )
]

-- ptp_wifi_peers_leave
pub leave : Peers → Bytes → Peers
leave p mac = elim (find p.entries mac) [
  | none ↦ p
  | some i ↦ record (advance p) { entries = set p.entries i empty }
]

-- The peer's own fields change.
abbrev pub update : Peers → ℕ → Peer → Peers
update p i q = record p { entries = set p.entries i q }

-- What ptp_wifi_peers_capable resets where the port identity of a bound peer changes.
pub rebind : Peer → Bytes → Peer
rebind q identity = if not (q.bound && not (same q.port_identity identity)) then q else record q {
  capable = record q.capable { valid = false };
  announce = announce_reset q.announce;
  sync = sync_reset q.sync;
  transmit = cleared q.transmit;
}

-- ptp_wifi_peers_capable, after the peer is found
pub indicate : Peer → ℕ → CapableMessage → ℤ → Peer × Bool
indicate q association m now =
    let r = rebind q m.source_port in
    let (capable', ok) = capable_receive r.capable m (some m.source_port) association now in
    if not ok
    then (r, false)
    else (record r { capable = capable'; port_identity = m.source_port; bound = true }, true)

-- The peer's association is this one.
pub current : Peers → Bytes → ℕ → Option ℕ
current p mac association = elim (find p.entries mac) [
  | none ↦ none
  | some i ↦ if (entry p.entries i).association == association then some i else none
]

-- ptp_wifi_peers_capable
pub capable : Peers → Bytes → ℕ → CapableMessage → ℤ → Peers × Bool
capable p mac association m now = elim (current p mac association) [
  | none ↦ (p, false)
  | some i ↦
      if byte m.source_port 8 == 0 && byte m.source_port 9 == 0
      then (p, false)
      else let (q, ok) = indicate (entry p.entries i) association m now in (update p i q, ok)
]

-- The peer is bound to the port that sent the message.
abbrev pub bound_to : Peer → Bytes → Bool
bound_to q source_port = q.bound && same q.port_identity source_port

-- ptp_wifi_peers_interval
pub interval : Peers → Bytes → ℕ → CapableMessage → Peers × Bool
interval p mac association m = elim (current p mac association) [
  | none ↦ (p, false)
  | some i ↦
      if not (bound_to (entry p.entries i) m.source_port)
      then (p, false)
      else let (transmit', ok) = schedule_request (entry p.entries i).transmit m.log_interval in
        (update p i (record (entry p.entries i) { transmit = transmit' }), ok)
]

-- ptp_wifi_peers_sync_interval
pub sync_interval : Peers → Bytes → ℕ → IntervalMessage → Peers × Bool
sync_interval p mac association m = elim (current p mac association) [
  | none ↦ (p, false)
  | some i ↦
      if not (bound_to (entry p.entries i) m.source_port)
      then (p, false)
      else let (sync', ok) = sync_request (entry p.entries i).sync m.log_sync in
        (update p i (record (entry p.entries i) { sync = sync' }), ok)
]

-- ptp_wifi_peers_announce_interval
pub announce_interval : Peers → Bytes → ℕ → IntervalMessage → ℤ → Peers × Bool
announce_interval p mac association m initial = elim (current p mac association) [
  | none ↦ (p, false)
  | some i ↦
      if not (bound_to (entry p.entries i) m.source_port)
      then (p, false)
      else let (announce', ok) =
          announce_request (entry p.entries i).announce initial m.log_announce in
        (update p i (record (entry p.entries i) { announce = announce' }), ok)
]

-- ptp_wifi_peers_sent
pub sent : Peers → Bytes → ℕ → ℕ → Bool → ℤ → Peers × Bool
sent p mac association token accepted now = elim (current p mac association) [
  | none ↦ (p, false)
  | some i ↦
      let (transmit', ok) = schedule_finish (entry p.entries i).transmit token accepted now in
      (update p i (record (entry p.entries i) { transmit = transmit' }), ok)
]
