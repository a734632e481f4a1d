-- ===== src/Daemon/Links/Retire.antt =====
-- What the events of Daemon.Links retire.
use esp_ptp.Base.{
  ℕ, zero, suc, ◌+◌, ◌<◌, Bool, true, false, ◌≡◌, refl, ap, ◌∙◌, ◌⊎◌, inl, inr, none, some, List,
  [], ◌∷◌, arith, Bool-cases, length, get_or, set, length-set,
}
use esp_ptp.Base.Int.{ℤ}
use esp_ptp.Base.Word.{u32}
use esp_ptp.Base.Bytes.{Bytes}
use esp_ptp.Wifi.Peers.{join, leave, clear, publishable, find, entry}
use esp_ptp.Daemon.Links.{
  Port, State, is_station, retire_frames, set_port, set_link, WifiEvent, sta_connected,
  sta_disconnected, ap_start, ap_stop, ap_staconnected, ap_stadisconnected, reassociate, port_event,
  port_at, serves, served_peer,
}

get_or-set_self : (gs : List ℕ) (i v : ℕ) → i < length gs → get_or (set gs i v) i 0 ≡ v
get_or-set_self [] i v h = absurd (omega arith)
get_or-set_self (g ∷ gs) zero v h = refl
get_or-set_self (g ∷ gs) (suc i) v h = get_or-set_self gs i v (omega arith)

retire_frames_other :
    (s : State) (i : ℕ)
    → i < length s.generations
    → (get_or (retire_frames s i).generations i 0 ≡ u32 (get_or s.generations i 0 + 1))
unfolding retire_frames
retire_frames_other s i h = get_or-set_self s.generations i (u32 (get_or s.generations i 0 + 1)) h

length-retire_frames :
    (s : State) (i : ℕ) → length (retire_frames s i).generations ≡ length s.generations
unfolding retire_frames
length-retire_frames s i = length-set s.generations i (u32 (get_or s.generations i 0 + 1))

-- The frames of a port that wait are those of an earlier generation.
abbrev pub IsRetired : State → State → ℕ → Type 0
IsRetired s s' i =
    (get_or s'.generations i 0 ≡ u32 (get_or s.generations i 0 + 1))
    ⊎ (get_or s'.generations i 0 ≡ u32 (u32 (get_or s.generations i 0 + 1) + 1))

set_link-IsRetired :
    (s : State) (i : ℕ) (p : Port) (up : Bool)
    → i < length s.generations
    → (get_or (set_link s i p up).generations i 0 ≡ u32 (get_or s.generations i 0 + 1))
      ⊎ (set_link s i p up ≡ s) × (p.link_up ≡ up)
unfolding set_link retire_frames set_port
set_link-IsRetired s i p up h =
    ground (arith, get_or-set_self s.generations i (u32 (get_or s.generations i 0 + 1)) h)

connected-IsRetired :
    (s : State) (i : ℕ) (p : Port)
    → i < length s.generations
    → IsRetired s (set_link (retire_frames (set_port s i p) i) i p true) i
unfolding set_port
connected-IsRetired s i p h =
    let first = retire_frames (set_port s i p) i in
    let one = retire_frames_other (set_port s i p) i h in
    let size = length-retire_frames (set_port s i p) i in
    elim (set_link-IsRetired first i p true (omega (arith, size, h))) [
      | inl e ↦ inr (e ∙ ap (λ g. u32 (g + 1)) one)
      | inr e ↦ inl (ap (λ t. get_or t.generations i 0) e.0 ∙ one)
    ]

-- A radio event either changes nothing at its port, or gives the port another generation, so that every
-- frame that was received before it is retired; the exceptions are the loss of a network and the stop of
-- an access point when the link was down already.
pub port_event-IsRetired :
    (s : State) (i : ℕ) (p : Port) (e : WifiEvent)
    → i < length s.generations
    → let s' = port_event s i p e in
      (s' ≡ s)
      ⊎ IsRetired s s' i
      ⊎ (p.link_up ≡ false)
        × ((e ≡ sta_disconnected) ⊎ (e ≡ ap_stop))
        × (s'.generations ≡ s.generations)
unfolding port_event set_port
port_event-IsRetired s i p (sta_connected bssid) h = elim (Bool-cases (is_station p)) [
  | inl m ↦ inr (inl (ground (arith, m, connected-IsRetired s i (reassociate p bssid) h)))
  | inr m ↦ inl (ground (arith, m))
]
port_event-IsRetired s i p sta_disconnected h =
    let q = reassociate p none in ground (arith, set_link-IsRetired (set_port s i q) i q false h)
port_event-IsRetired s i p (ap_staconnected mac) h =
    let q = record p { wifi_peers = (join p.wifi_peers mac).0 } in
    ground (arith, retire_frames_other (set_port s i q) i h)
port_event-IsRetired s i p (ap_stadisconnected mac) h =
    let q = record p { wifi_peers = leave p.wifi_peers mac } in
    ground (arith, retire_frames_other (set_port s i q) i h)
port_event-IsRetired s i p ap_start h = ground (arith, set_link-IsRetired s i p true h)
port_event-IsRetired s i p ap_stop h =
    let q = record p { wifi_peers = clear p.wifi_peers } in
    ground (arith, set_link-IsRetired (set_port s i q) i q false h)

-- A grant to announce is given only for a port that is in use as a gPTP access point with its link up and
-- its registry fit to publish, and for a station that is associated there now, by the association that
-- was asked for.
pub served_peer_current :
    (coprocessor : Bool) (s : State) (index : ℤ) (mac : Bytes) (association slot : ℕ) (p : Port)
    → served_peer coprocessor s index mac association ≡ some (p, slot)
    → (port_at s index ≡ some p)
      × (serves s p ≡ true)
      × (publishable coprocessor p.wifi_peers ≡ true)
      × (find p.wifi_peers.entries mac ≡ some slot)
      × ((entry p.wifi_peers.entries slot).association ≡ association)
unfolding served_peer
served_peer_current coprocessor s index mac association slot p h = ground (arith, h)
