-- ===== src/Peer/Exchange/Receive.antt =====
-- What a response and a follow-up must satisfy, and what the measurement is made of.
use esp_ptp.Base.{true, false, ◌≡◌, ◌≢◌, ◌⊎◌, some, arith, take}
use esp_ptp.Base.Int.{ℤ, ◌<ℤ◌}
use esp_ptp.Base.Bytes.{same}
use esp_ptp.Peer.Wire.{DelayResp, FollowUp, Timespec, sequence_of}
use esp_ptp.Peer.Exchange.{
  Exchange, Measurement, ignored, accepted, same_requester, matches, response_rejection,
  same_source, count_response, response, count_follow_up, follows, complete, finish,
}

-- A response is accepted only for the request in flight, before its deadline, addressed to this
-- requester by another clock, as the first one, and with times in range; it is then kept with its
-- receive time.
pub response_accepted :
    (e : Exchange) (r : DelayResp) (receive : Timespec) (now : ℤ)
    → (response e r receive now).1 ≡ accepted
    → let e' = (response e r receive now).0 in
      (sequence_of r.header ≡ e.sequence)
      × ((e.published ≡ true) ⊎ (e.sending ≡ true))
      × (e.multiple ≡ false)
      × (now <ℤ e.deadline_us)
      × (same_requester e r.reqidentity r.reqportindex ≡ true)
      × (same r.header.sourceidentity (take 8 e.requester) ≡ false)
      × (e.response_seen ≡ false)
      × (e'.response ≡ r)
      × (e'.receive ≡ receive)
      × (e'.response_seen ≡ true)
unfolding response response_rejection count_response
response_accepted e r receive now h = ground arith

-- A second response, or one from this clock itself, spoils the exchange, and no response clears that.
pub response_spoils :
    (e : Exchange) (r : DelayResp) (receive : Timespec) (now : ℤ)
    → let (e', verdict) = response e r receive now in
      ((verdict ≡ ignored) ⊎ (verdict ≡ accepted)) × (e'.multiple ≡ e.multiple)
      ⊎ (verdict ≢ ignored) × (verdict ≢ accepted) × (e'.multiple ≡ true)
unfolding response count_response
response_spoils e r receive now = ground arith

-- A measurement is made only of a published request, its one response and the follow-up of the port
-- that sent it, all before the deadline; it carries the exchange's generation, times and response. It
-- ends the exchange and clears the losses.
pub finish_sound :
    (e : Exchange) (f : FollowUp) (now : ℤ) (m : Measurement)
    → (finish e f now).1 ≡ some m
    → let e' = (finish e f now).0 in
      (e.published ≡ true)
      × (e.response_seen ≡ true)
      × (e.multiple ≡ false)
      × (e.consumed ≡ false)
      × (now <ℤ e.deadline_us)
      × (sequence_of f.header ≡ e.sequence)
      × (same_source e.response.header f.header ≡ true)
      × (m ≡ record {
        generation = e.generation;
        lifecycle = e.lifecycle;
        transmit = e.transmit;
        receive = e.receive;
        response = e.response;
      })
      × (e'.consumed ≡ true)
      × (e'.lost_responses ≡ 0)
unfolding finish complete follows matches count_follow_up
finish_sound e f now m h = ground arith
