-- ===== src/Peer/Exchange/Once.antt =====
-- The life of one request: the sequences of what may arrive, and how often it is measured.
use esp_ptp.Base.{
  ℕ, ◌+◌, ◌≤◌, false, ◌||◌, if◌then◌else◌, ◌≡◌, refl, ◌⊎◌, inl, inr, Option, none, some, List, [],
  ◌∷◌, arith, Bool-cases, Option-cases, length,
}
use esp_ptp.Base.Int.{ℤ}
use esp_ptp.Peer.Wire.{DelayResp, FollowUp, Timespec}
use esp_ptp.Peer.Exchange.{
  Exchange, Measurement, expire, publish, cancel, matches, count_response, response,
  count_follow_up, follows, complete, finish, take_follow_up,
}

-- What can happen to a request between two calls of ptp_peer_begin or ptp_peer_invalidate.
pub data Event : Type 0 where
  published_at : ℕ → Timespec → ℤ → Event
  cancelled : ℕ → Event
  responded : DelayResp → Timespec → ℤ → Event
  followed_up : FollowUp → ℤ → Event
  replay_taken : ℤ → Event
  expired_at : ℤ → Event

pub step : Exchange → Event → Exchange × Option Measurement
step e (published_at generation transmit now) = ((publish e generation transmit now).0, none)
step e (cancelled generation) = (cancel e generation, none)
step e (responded r receive now) = ((response e r receive now).0, none)
step e (followed_up f now) = finish e f now
step e (replay_taken now) = ((take_follow_up e now).0, none)
step e (expired_at now) = ((expire e now).0, none)

-- The measurements that a sequence of events makes.
pub measurements : Exchange → List Event → List Measurement
measurements e [] = []
measurements e (v ∷ vs) =
    let (e', made) = step e v in
    let rest = measurements e' vs in elim made [ none ↦ rest | some m ↦ m ∷ rest ]

-- How many measurements an exchange can still make.
abbrev budget : Exchange → ℕ
budget e = if e.consumed || e.multiple then 0 else 1

abbrev made_count : Option Measurement → ℕ
made_count none = 0
made_count (some m) = 1

step-budget : (e : Exchange) (v : Event) → made_count (step e v).1 + budget (step e v).0 ≤ budget e
unfolding step publish cancel response count_response finish complete follows matches
    count_follow_up take_follow_up expire
step-budget e (published_at generation transmit now) = ground arith
step-budget e (cancelled generation) = ground arith
step-budget e (responded r receive now) = ground arith
step-budget e (followed_up f now) = ground arith
step-budget e (replay_taken now) = ground arith
step-budget e (expired_at now) = ground arith

step-generation :
    (e : Exchange) (v : Event)
    → ((step e v).0.generation ≡ e.generation) × ((step e v).0.lifecycle ≡ e.lifecycle)
unfolding step publish cancel response count_response finish complete count_follow_up take_follow_up
    expire
step-generation e (published_at generation transmit now) = ground arith
step-generation e (cancelled generation) = ground arith
step-generation e (responded r receive now) = ground arith
step-generation e (followed_up f now) = ground arith
step-generation e (replay_taken now) = ground arith
step-generation e (expired_at now) = ground arith

length-measurements : (e : Exchange) (vs : List Event) → length (measurements e vs) ≤ budget e
unfolding measurements
length-measurements e [] = omega arith
length-measurements e (v ∷ vs) = elim (Option-cases (step e v).1) [
  | inl q ↦ ground (arith, q, step-budget e v, length-measurements (step e v).0 vs)
  | inr (m, q) ↦ ground (arith, q, step-budget e v, length-measurements (step e v).0 vs)
]

none_made : (ms : List Measurement) → length ms ≤ 0 → ms ≡ []
none_made [] h = refl
none_made (m ∷ ms) h = ground arith

at_once :
    (e : Exchange) (vs : List Event)
    → ((e.consumed ≡ false) × (e.multiple ≡ false)) ⊎ (measurements e vs ≡ [])
at_once e vs = elim (Bool-cases (e.consumed || e.multiple)) [
  | inl q ↦ inr (none_made (measurements e vs) (ground (arith, q, length-measurements e vs)))
  | inr q ↦ inl (ground (arith, q), ground (arith, q))
]

-- A request is measured at most once, whatever publications, responses, follow-ups, replays, expiries and
-- cancellations come in whatever order; and not at all once it has been measured, or once a second
-- response or one from this clock has spoiled it.
pub measured_once :
    (e : Exchange) (vs : List Event)
    → (length (measurements e vs) ≤ 1)
      × (((e.consumed ≡ false) × (e.multiple ≡ false)) ⊎ (measurements e vs ≡ []))
measured_once e vs = (ground (arith, length-measurements e vs), at_once e vs)
