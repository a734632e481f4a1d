-- ===== src/Peer/Exchange/Tests.antt =====
-- A peer delay exchange, and instances of its theorems.
use esp_ptp.Base.{◌≤◌, true, false, ◌≡◌, refl, ◌⊎◌, [], ◌∷◌, ◌++◌, length}
use esp_ptp.Base.Int.{pos, ◌<ℤ◌}
use esp_ptp.Base.Bytes.{Bytes, same}
use esp_ptp.Peer.Wire.{
  Header, DelayResp, FollowUp, no_header, no_response, no_follow_up, no_time, sequence_of,
}
use esp_ptp.Peer.Exchange.{
  Exchange, Measurement, blank, finish, complete, count_follow_up, follows, matches,
  timestamp_valid, same_source,
}
use esp_ptp.Peer.Exchange.Receive.{finish_sound}
use esp_ptp.Peer.Exchange.Once.{responded, followed_up, measurements, measured_once}

abbrev clock_a : Bytes
clock_a = 1 ∷ 2 ∷ 3 ∷ 4 ∷ 5 ∷ 6 ∷ 7 ∷ 8 ∷ []

abbrev clock_b : Bytes
clock_b = 11 ∷ 12 ∷ 13 ∷ 14 ∷ 15 ∷ 16 ∷ 17 ∷ 18 ∷ []

abbrev request : Header
request = record no_header {
  sourceidentity = clock_a;
  sourceportindex = 0 ∷ 1 ∷ [];
  sequenceid = 0 ∷ 7 ∷ [];
}

abbrev reply : Header
reply = record no_header {
  sourceidentity = clock_b;
  sourceportindex = 0 ∷ 2 ∷ [];
  sequenceid = 0 ∷ 7 ∷ [];
}

abbrev answer : DelayResp
answer = record no_response { header = reply; reqidentity = clock_a; reqportindex = 0 ∷ 1 ∷ [] }

abbrev follow_up : FollowUp
follow_up = record no_follow_up { header = reply; reqidentity = clock_a; reqportindex = 0 ∷ 1 ∷ [] }

-- Request 7 of clock_a, published.
abbrev published : Exchange
published = record blank {
  generation = 4;
  lifecycle = 2;
  sequence = 7;
  requester = clock_a ++ 0 ∷ 1 ∷ [];
  deadline_us = pos 900000;
  published = true;
  lost_responses = 1;
}

-- The same after the answer.
abbrev answered : Exchange
answered = record published { response_seen = true; response = answer }

abbrev measured : Measurement
measured = record {
  generation = 4;
  lifecycle = 2;
  transmit = no_time;
  receive = no_time;
  response = answer;
}

finish_sound_example :
    let e' = (finish answered follow_up (pos 5000)).0 in
    (answered.published ≡ true)
    × (answered.response_seen ≡ true)
    × (answered.multiple ≡ false)
    × (answered.consumed ≡ false)
    × ((pos 5000) <ℤ answered.deadline_us)
    × (sequence_of follow_up.header ≡ answered.sequence)
    × (same_source answered.response.header follow_up.header ≡ true)
    × (measured ≡ record {
      generation = answered.generation;
      lifecycle = answered.lifecycle;
      transmit = answered.transmit;
      receive = answered.receive;
      response = answered.response;
    })
    × (e'.consumed ≡ true)
    × (e'.lost_responses ≡ 0)
unfolding finish complete count_follow_up follows matches timestamp_valid same_source same
finish_sound_example = finish_sound answered follow_up (pos 5000) measured refl

measured_once_example :
    (length (
        measurements published (
          responded answer no_time (pos 4000)
          ∷ followed_up follow_up (pos 5000)
          ∷ followed_up follow_up (pos 6000)
          ∷ []))
      ≤ 1)
    × (((published.consumed ≡ false) × (published.multiple ≡ false))
        ⊎ (measurements published (
              responded answer no_time (pos 4000)
              ∷ followed_up follow_up (pos 5000)
              ∷ followed_up follow_up (pos 6000)
              ∷ [])
            ≡ []))
measured_once_example = measured_once published (
    responded answer no_time (pos 4000)
    ∷ followed_up follow_up (pos 5000)
    ∷ followed_up follow_up (pos 6000)
    ∷ [])
