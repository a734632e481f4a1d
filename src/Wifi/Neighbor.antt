-- ===== src/Wifi/Neighbor.antt =====
-- ptp_wifi_neighbor.h: the access point that a station is associated with, and its port.
use esp_ptp.Base.{
  ℕ, ◌^◌, ◌<◌, Bool, true, false, not, ◌&&◌, ◌||◌, if◌then◌else◌, ◌==◌, ◌≡◌, ◌≢◌, ◌↔◌, ◌⊎◌, Option,
  none, some, arith,
}
use esp_ptp.Base.Int.{ℤ, pos}
use esp_ptp.Base.Word.{next_nonzero}
use esp_ptp.Base.Bytes.{Bytes, same, same_iff, zeros}
use esp_ptp.Message.Signaling.{CapableMessage, IntervalMessage}
use esp_ptp.Peer.WiredCapable.{cleared}
use esp_ptp.Schedule.Capable.{Schedule, schedule_request, schedule_finish, schedule_finish_idle}
use esp_ptp.Schedule.SyncInterval.{SyncRate, sync_reset, sync_request}

-- ptp_wifi_neighbor_t; sync_stopped and sync_revision are `sync`
pub record Neighbor : Type 0 where
  pub association : ℕ
  pub sync : SyncRate
  pub bssid : Bytes
  pub port_identity : Bytes
  pub associated : Bool
  pub bound : Bool
  pub transmit : Schedule

-- A zeroed neighbour with this association number.
abbrev pub unassociated : ℕ → Neighbor
unassociated association = record {
  association = association;
  sync = record { stopped = false; revision = 0 };
  bssid = zeros 6;
  port_identity = zeros 10;
  associated = false;
  bound = false;
  transmit = record {
    interval = record { log_interval = pos 0; slowdown_remaining = 0; old_interval_us = pos 0 };
    next_us = pos 0;
    queued_us = pos 0;
    serial = 0;
    pending = 0;
    sequence = 0;
    advertised_interval = pos 0;
    active = false;
  };
}

-- ptp_wifi_neighbor_associate; a null BSSID is `none`
pub associate : Neighbor → Option Bytes → Neighbor
associate n none = unassociated (next_nonzero n.association)
associate n (some bssid) = record (unassociated (next_nonzero n.association)) {
  bssid = bssid;
  associated = true;
}

-- ptp_wifi_neighbor_accepts
pub accepts : Neighbor → Bytes → Bool
accepts n source = n.associated && same n.bssid source

-- ptp_wifi_neighbor_bind
pub bind_neighbor : Neighbor → ℕ → Bytes → Bytes → Neighbor × Bool
bind_neighbor n association source identity =
    if not (association == n.association) || not (accepts n source)
    then (n, false)
    else if n.bound && not (same n.port_identity identity)
    then (
      record n {
        sync = sync_reset n.sync;
        transmit = cleared n.transmit;
        port_identity = identity;
        bound = true;
      },
      true,
    )
    else (record n { port_identity = identity; bound = true }, true)

-- The tests that ptp_wifi_neighbor_interval and ptp_wifi_neighbor_sync_interval make first.
pub from_bound : Neighbor → Bytes → ℕ → Bytes → Bool
from_bound n source association source_port =
    n.bound && association == n.association && accepts n source && same n.port_identity source_port

-- ptp_wifi_neighbor_interval
pub neighbor_interval : Neighbor → Bytes → ℕ → CapableMessage → Neighbor × Bool
neighbor_interval n source association m =
    if not (from_bound n source association m.source_port)
    then (n, false)
    else let (transmit', ok) = schedule_request n.transmit m.log_interval in
      (record n { transmit = transmit' }, ok)

-- ptp_wifi_neighbor_sync_interval
pub neighbor_sync_interval : Neighbor → Bytes → ℕ → IntervalMessage → Neighbor × Bool
neighbor_sync_interval n source association m =
    if not (from_bound n source association m.source_port)
    then (n, false)
    else let (sync', ok) = sync_request n.sync m.log_sync in (record n { sync = sync' }, ok)

-- ptp_wifi_neighbor_sent
pub neighbor_sent : Neighbor → Bytes → ℕ → ℕ → Bool → ℤ → Neighbor × Bool
neighbor_sent n destination association token accepted now =
    if not (association == n.association) || not (accepts n destination)
    then (n, false)
    else let (transmit', ok) = schedule_finish n.transmit token accepted now in
      (record n { transmit = transmit' }, ok)

-- An association has a new nonzero number, and on it nothing works that belonged to an earlier one: no
-- port is bound under an old number, requests for intervals are refused until a port is bound, and no
-- operation that was outstanding finishes.
pub associate_retires :
    (n : Neighbor) (bssid : Option Bytes) (source identity : Bytes) (old token : ℕ)
    (m : CapableMessage) (r : IntervalMessage) (accepted : Bool) (now : ℤ)
    → n.association < 2 ^ 32
    → let n' = associate n bssid in
      (n'.association ≢ 0)
      × (n'.association ≢ n.association)
      × ((old ≡ n'.association) ⊎ (bind_neighbor n' old source identity ≡ (n', false)))
      × (neighbor_interval n' source old m ≡ (n', false))
      × (neighbor_sync_interval n' source old r ≡ (n', false))
      × ((neighbor_sent n' source old token accepted now).1 ≡ false)
unfolding associate bind_neighbor neighbor_interval neighbor_sync_interval neighbor_sent from_bound
associate_retires n bssid source identity old token m r accepted now h =
    ground (arith, schedule_finish_idle (associate n bssid).transmit token accepted now)

-- Binding learns a port from the access point of the current association only. What was negotiated with
-- another port is dropped: Sync runs again, and no operation is pending; with the same port it is kept.
pub bind_neighbor_result :
    (n : Neighbor) (association : ℕ) (source identity : Bytes)
    → let (n', ok) = bind_neighbor n association source identity in
      ((ok ≡ true) ↔ ((association ≡ n.association) × (n.associated ≡ true) × (n.bssid ≡ source)))
      × ((ok ≡ false) × (n' ≡ n)
          ⊎ (n'.port_identity ≡ identity)
            × (n'.bound ≡ true)
            × ((n'.transmit ≡ n.transmit) × (n'.sync ≡ n.sync)
                ⊎ (n.port_identity ≢ identity)
                  × (n'.transmit.pending ≡ 0)
                  × (n'.transmit.serial ≡ n.transmit.serial)
                  × (n'.sync ≡ sync_reset n.sync)))
unfolding bind_neighbor accepts
bind_neighbor_result n association source identity =
    ground (arith, same_iff n.bssid source, same_iff n.port_identity identity)
