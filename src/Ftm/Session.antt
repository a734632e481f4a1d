-- ===== src/Ftm/Session.antt =====
-- ptp_ftm_session.h: one measurement session in flight.
use esp_ptp.Base.{Bool, true, false, ◌&&◌, if◌then◌else◌, ◌≡◌, refl, ◌↔◌, List, [], ◌∷◌, arith}
use esp_ptp.Base.Int.{ℤ, pos, ◌+ℤ◌, ◌-ℤ◌, lt_ℤ, le_ℤ, ◌≤ℤ◌, +ℤ_parts, -ℤ_parts}
use esp_ptp.Base.Bytes.{Bytes, same, same_iff}

-- ptp_ftm_session_t
pub record Session : Type 0 where
  pub pending : Bool
  pub valid : Bool
  pub peer : Bytes

-- ptp_ftm_beacon_fresh
pub beacon_fresh : Bool → Bool → ℤ → ℤ → ℤ → Bool
beacon_fresh have_tsf have_gptp associated received now =
    have_tsf
    && have_gptp
    && lt_ℤ (pos 0) associated
    && le_ℤ associated received
    && le_ℤ received now
    && le_ℤ (now -ℤ received) (pos 1000000)

-- ptp_ftm_session_begin
pub session_begin : Session → Bytes → Session × Bool
session_begin s peer =
    if s.pending then (s, false) else (record { pending = true; valid = true; peer = peer }, true)

-- ptp_ftm_session_invalidate
pub session_invalidate : Session → Session
session_invalidate s = record s { valid = false }

-- ptp_ftm_session_finish
pub session_finish : Session → Bytes → Bool → Session × Bool
session_finish s peer connected = (
  record s { pending = false; valid = false },
  s.pending && s.valid && connected && same s.peer peer,
)

-- What can happen to a session.
pub data Event : Type 0 where
  begun : Bytes → Event
  invalidated : Event
  finished : Bytes → Bool → Event

pub session_step : Session → Event → Session × Bool
session_step s (begun peer) = session_begin s peer
session_step s invalidated = (session_invalidate s, false)
session_step s (finished peer connected) = session_finish s peer connected

pub session_run : Session → List Event → Session
session_run s [] = s
session_run s (v ∷ vs) = session_run (session_step s v).0 vs

-- The events are attempts to begin a session, and no other.
pub only_begun : List Event → Bool
only_begun [] = true
only_begun (begun peer ∷ vs) = only_begun vs
only_begun (invalidated ∷ vs) = false
only_begun (finished peer connected ∷ vs) = false

-- No event is the end of a session.
pub none_finished : List Event → Bool
none_finished [] = true
none_finished (begun peer ∷ vs) = none_finished vs
none_finished (invalidated ∷ vs) = none_finished vs
none_finished (finished peer connected ∷ vs) = false

pending_run :
    (s : Session) (vs : List Event)
    → s.pending ≡ true
    → none_finished vs ≡ true
    → session_run s vs ≡ record { pending = true; valid = s.valid && only_begun vs; peer = s.peer }
unfolding session_run session_step session_begin session_invalidate only_begun none_finished
pending_run s [] h k = ground (arith, h)
pending_run s (begun peer ∷ vs) h k = ground (arith, h, pending_run s vs h k)
pending_run s (invalidated ∷ vs) h k = ground (arith, h, pending_run (session_invalidate s) vs h k)
pending_run s (finished peer connected ∷ vs) h k = ground arith

-- A session that has begun is measured at its end exactly when the station is still connected, the
-- report is of the same peer, and nothing invalidated it since: attempts to begin another meanwhile are
-- refused and change nothing. After the end another session can begin.
pub session_accepted_iff :
    (s : Session) (peer reported next : Bytes) (connected : Bool) (vs : List Event)
    → s.pending ≡ false
    → none_finished vs ≡ true
    → let begun = (session_begin s peer).0 in
      let (ended, measured) = session_finish (session_run begun vs) reported connected in
      ((measured ≡ true) ↔ ((connected ≡ true) × (reported ≡ peer) × (only_begun vs ≡ true)))
      × ((session_begin ended next).1 ≡ true)
unfolding session_begin session_finish
session_accepted_iff s peer reported next connected vs h k = ground (
  arith,
  h,
  pending_run (record { pending = true; valid = true; peer = peer }) vs refl k,
  same_iff peer reported,
)

-- A beacon counts as fresh for at most a second after it was received, and only on the association on
-- which it was received.
pub beacon_fresh_iff :
    (have_tsf have_gptp : Bool) (associated received now : ℤ)
    → (beacon_fresh have_tsf have_gptp associated received now ≡ true) ↔ (
        (have_tsf ≡ true)
        × (have_gptp ≡ true)
        × (pos 1 ≤ℤ associated)
        × (associated ≤ℤ received)
        × (received ≤ℤ now)
        × (now ≤ℤ received +ℤ pos 1000000))
unfolding beacon_fresh
beacon_fresh_iff have_tsf have_gptp associated received now =
    ground (arith, -ℤ_parts now received, +ℤ_parts received (pos 1000000))
