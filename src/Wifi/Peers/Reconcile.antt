-- ===== src/Wifi/Peers/Reconcile.antt =====
-- Reconciling the registry with what the radio reports, and the copy of it that tasks read.
use esp_ptp.Base.{
  ℕ, suc, ◌+◌, ◌-◌, ◌^◌, ◌≤◌, ◌<◌, Bool, true, false, not, ◌&&◌, ◌||◌, if◌then◌else◌, ◌==◌, ltb,
  leb, ◌≡◌, refl, ap, ◌∙◌, ◌≢◌, ◌⊎◌, inl, inr, Option, none, some, List, [], ◌∷◌, arith, Bool-cases,
  Option-cases, length,
}
use esp_ptp.Base.Word.{u32}
use esp_ptp.Base.Bytes.{Bytes, same, same_iff}
use esp_ptp.Wifi.Port.{association_port}
use esp_ptp.Wifi.Peers.{Peer, Peers, peers_max, empty, advance, find, unicast, join}
use esp_ptp.Wifi.Peers.Slots.{IsUnique}
use esp_ptp.Wifi.Peers.Registry.{IsValid, join-IsValid, join-find}
pub mod Only

-- The loops that look a station up in the reported addresses.
pub listed : List Bytes → Bytes → Bool
listed [] mac = false
listed (x ∷ xs) mac = let rest = listed xs mac in same mac x || rest

-- The first loop of ptp_wifi_peers_reconcile: each address is that of one station, and not among those
-- before it.
pub acceptable : List Bytes → List Bytes → Bool
acceptable previous [] = true
acceptable previous (mac ∷ macs) =
    let rest = acceptable (mac ∷ previous) macs in unicast mac && not (listed previous mac) && rest

-- The loop over the slots where the radio's generation is that of the last reconciliation: the number of
-- associated slots, or `none` where one is not reported.
pub count_listed : List Peer → List Bytes → Option ℕ
count_listed [] macs = some 0
count_listed (q ∷ qs) macs =
    let rest = count_listed qs macs in
    if not q.associated
    then rest
    else if not (listed macs q.mac)
    then none
    else elim rest [ none ↦ none | some n ↦ some (suc n) ]

-- The loop that empties the slots of stations that are not reported.
pub prune : List Peer → List Bytes → List Peer
prune [] macs = []
prune (q ∷ qs) macs =
    let rest = prune qs macs in
    (if q.associated && not (listed macs q.mac) then empty else q) ∷ rest

-- The loop that joins every reported station.
pub join_all : Peers → List Bytes → Peers
join_all p [] = p
join_all p (mac ∷ macs) = join_all (join p mac).0 macs

-- ptp_wifi_peers_reconcile from the second loop over the slots on
pub adopt : Peers → ℕ → ℕ → List Bytes → Peers
adopt p boot generation macs =
    let p' = join_all (advance (record p { entries = prune p.entries macs })) macs in
    record p' {
      radio_boot = boot;
      radio_generation = generation;
      reconciled_generation = p'.generation;
    }

-- `(int32_t)(radio_generation - peers->radio_generation)` as an unsigned number
abbrev pub difference : ℕ → ℕ → ℕ
difference generation last = u32 (generation + 2 ^ 32 - last)

-- ptp_wifi_peers_reconcile
pub reconcile : Peers → ℕ → ℕ → List Bytes → Peers × Bool
reconcile p boot generation macs =
    if boot == 0 || generation == 0 || ltb peers_max (length macs)
    then (p, false)
    else if not (acceptable [] macs)
    then (p, false)
    else if p.radio_boot == boot && leb (2 ^ 31) (difference generation p.radio_generation)
    then (p, false)
    else if p.radio_boot == boot && difference generation p.radio_generation == 0
    then (
      p,
      p.reconciled_generation == p.generation
          && elim (count_listed p.entries macs) [ none ↦ false | some n ↦ n == length macs ],
    )
    else (adopt p boot generation macs, true)

-- ptp_wifi_association_entry_t
pub record Association : Type 0 where
  pub mac : Bytes
  pub port_number : ℕ
  pub association : ℕ
  pub sync_stopped : Bool
  pub sync_revision : ℕ
  pub announce_revision : ℕ

-- ptp_wifi_association_snapshot_t; `count` is the length of the list
pub record Snapshot : Type 0 where
  pub generation : ℕ
  pub radio_boot : ℕ
  pub radio_generation : ℕ
  pub entries : List Association

-- The loop of ptp_wifi_peers_snapshot, from a slot on.
pub associations : List Peer → ℕ → ℕ → ℕ → Option (List Association)
associations [] physical count slot = some []
associations (q ∷ qs) physical count slot =
    let rest = associations qs physical count (suc slot) in
    if not q.associated then rest else if q.association == 0 then none else elim rest [
      | none ↦ none
      | some es ↦ some (
          record {
            mac = q.mac;
            port_number = association_port physical count slot;
            association = q.association;
            sync_stopped = q.sync.stopped;
            sync_revision = q.sync.revision;
            announce_revision = q.announce.revision;
          }
          ∷ es)
    ]

-- ptp_wifi_peers_snapshot
pub snapshot : Peers → ℕ → ℕ → Option Snapshot
snapshot p physical count =
    if association_port physical count 0 == 0
    then none
    else let current = p.reconciled_generation == p.generation in
      elim (associations p.entries physical count 0) [
        | none ↦ none
        | some es ↦ some (record {
          generation = p.generation;
          radio_boot = if current then p.radio_boot else 0;
          radio_generation = if current then p.radio_generation else 0;
          entries = es;
        })
      ]
