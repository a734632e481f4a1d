-- ===== src/Peer/Exchange/Begin.antt =====
-- Starting, publishing and giving up a peer delay exchange, and the count of lost responses.
use esp_ptp.Base.{ℕ, ◌+◌, ◌^◌, ◌≤◌, ◌<◌, true, false, ◌≡◌, ◌≢◌, ◌↔◌, ◌⊎◌, arith}
use esp_ptp.Base.Int.{ℤ, ◌≤ℤ◌, ◌<ℤ◌}
use esp_ptp.Base.Word.{uint16_max, next_nonzero}
use esp_ptp.Peer.Wire.{Header, Timespec}
use esp_ptp.Peer.Exchange.{Exchange, invalidate, expire, abandon, begin, publish, cancel}

next_nonzero-ne : (n : ℕ) → n < 2 ^ 32 → (next_nonzero n ≢ n) × (next_nonzero n ≢ 0)
next_nonzero-ne n h = ground arith

-- A new request has a new nonzero generation and nothing received; the link's lifecycle and its losses
-- are kept. What belongs to the old generation is dead: its publication is refused, its cancellation
-- has no effect.
pub begin_generation :
    (e : Exchange) (sequence : ℕ) (request : Header) (deadline : ℤ) (transmit : Timespec) (now : ℤ)
    → e.generation < 2 ^ 32
    → let e' = begin e sequence request deadline in
      (e'.generation ≢ 0)
      × (e'.generation ≢ e.generation)
      × (e'.response_seen ≡ false)
      × (e'.consumed ≡ false)
      × (e'.multiple ≡ false)
      × (e'.lifecycle ≡ e.lifecycle)
      × (e'.lost_responses ≡ e.lost_responses)
      × (e'.missing_response ≡ e.missing_response)
      × (e'.missing_follow_up ≡ e.missing_follow_up)
      × (publish e' e.generation transmit now ≡ (e', false))
      × (cancel e' e.generation ≡ e')
unfolding begin abandon invalidate publish cancel
begin_generation e sequence request deadline transmit now h =
    ground (arith, next_nonzero-ne e.generation h)

-- An invalidation starts another link lifecycle as well, and forgets the losses.
pub invalidate_fresh :
    (e : Exchange)
    → e.generation < 2 ^ 32
    → e.lifecycle < 2 ^ 32
    → let e' = invalidate e in
      (e'.generation ≢ e.generation)
      × (e'.lifecycle ≢ e.lifecycle)
      × (e'.lifecycle ≢ 0)
      × (e'.lost_responses ≡ 0)
      × (e'.sending ≡ false)
      × (e'.published ≡ false)
unfolding invalidate
invalidate_fresh e h k =
    ground (arith, next_nonzero-ne e.generation h, next_nonzero-ne e.lifecycle k)

-- A published request whose measurement has not come by its deadline is counted as lost exactly once,
-- as a missing response or a missing follow-up; the count of losses in a row saturates.
pub expire_once :
    (e : Exchange) (now later : ℤ)
    → e.lost_responses ≤ uint16_max
    → let (e', lost) = expire e now in
      ((lost ≡ true) ↔ (
        (e.published ≡ true)
        × (e.consumed ≡ false)
        × (e.loss_counted ≡ false)
        × (e.deadline_us ≤ℤ now)))
      × ((lost ≡ false) × (e' ≡ e)
          ⊎ (lost ≡ true)
            × (expire e' later ≡ (e', false))
            × (e'.lost_responses ≤ uint16_max)
            × ((e'.lost_responses ≡ e.lost_responses + 1) ⊎ (e.lost_responses ≡ uint16_max)))
unfolding expire
expire_once e now later h = ground arith

-- A transmit time is published at most once, before the deadline, for the request in flight alone.
pub publish_once :
    (e : Exchange) (generation generation' : ℕ) (transmit transmit' : Timespec) (now now' : ℤ)
    → (publish e generation transmit now).1 ≡ true
    → let e' = (publish e generation transmit now).0 in
      (e.generation ≡ generation)
      × (e.sending ≡ true)
      × (now <ℤ e.deadline_us)
      × (e'.published ≡ true)
      × (e'.transmit ≡ transmit)
      × (publish e' generation' transmit' now' ≡ (e', false))
unfolding publish
publish_once e generation generation' transmit transmit' now now' h = ground arith

-- One call counts at most one loss.
pub expire_lost : (e : Exchange) (now : ℤ) → (expire e now).0.lost_responses ≤ e.lost_responses + 1
unfolding expire
expire_lost e now = ground arith
