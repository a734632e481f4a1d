-- ===== src/Peer/Exchange.antt =====
-- ptp_peer_exchange.h: one Pdelay request in flight, its response and follow-up, and the measurement
-- that they make.
use esp_ptp.Base.{
  ℕ, zero, suc, ◌+◌, ◌-◌, ◌*◌, ◌/◌, ◌%◌, ◌^◌, ◌≤◌, ◌<◌, Bool, true, false, not, ◌&&◌, ◌||◌,
  if◌then◌else◌, ◌==◌, ltb, leb, ◌≡◌, refl, sym, ap, ◌∙◌, ◌≢◌, ◌↔◌, ◌⊎◌, inl, inr, Option, none,
  some, List, [], ◌∷◌, ◌++◌, map, arith, Bool-cases, Option-cases, ==_iff, length, get_or,
  get_elem?, set, take, drop, replicate, length-set, length-append, length-take, length-drop,
  length-replicate, length-map, take-append-drop,
}
use esp_ptp.Base.Int.{
  ℤ, pos, negsuc, neg, pos_part, neg_part, sub_ℕ, ◌+ℤ◌, ◌-ℤ◌, ◌*ℤ◌, lt_ℤ, le_ℤ, ◌==ℤ◌, ◌≤ℤ◌, ◌<ℤ◌,
  int64_max, int32_max, quot, rem, wrap, signed, min_ℤ, max_ℤ, int_laws, +ℤ_parts, -ℤ_parts,
  eq_of_parts,
}
use esp_ptp.Base.Word.{u8, u16, u32, uint16_max, next_nonzero}
use esp_ptp.Base.Bytes.{
  Bytes, byte, same, same_iff, same_refl, slice, be16, zeros, copy, fill, byte-set, byte-fill,
  byte-copy, length-fill, length-copy, byte-take, bytes_ext,
}
use Prim.Native.Nat.{bit_or}
use esp_ptp.Peer.Wire.{
  Header, DelayResp, FollowUp, Timespec, no_response, no_follow_up, no_time, sequence_of,
}
pub mod Begin
pub mod Receive
pub mod Once
mod Tests

-- ptp_peer_exchange_t
pub record Exchange : Type 0 where
  pub generation : ℕ
  pub lifecycle : ℕ
  pub sequence : ℕ
  pub requester : Bytes
  pub deadline_us : ℤ
  pub published : Bool
  pub response_seen : Bool
  pub consumed : Bool
  pub multiple : Bool
  pub loss_counted : Bool
  pub sending : Bool
  pub follow_up_pending : Bool
  pub pending_follow_up : FollowUp
  pub lost_responses : ℕ
  pub missing_response : ℕ
  pub missing_follow_up : ℕ
  pub response_count : ℕ
  pub response_rejections : ℕ
  pub follow_up_count : ℕ
  pub follow_up_rejections : ℕ
  pub first_response_us : ℤ
  pub published_us : ℤ
  pub transmit : Timespec
  pub receive : Timespec
  pub response : DelayResp

-- ptp_peer_measurement_t
pub record Measurement : Type 0 where
  pub generation : ℕ
  pub lifecycle : ℕ
  pub transmit : Timespec
  pub receive : Timespec
  pub response : DelayResp

-- A zeroed exchange.
abbrev pub blank : Exchange
blank = record {
  generation = 0;
  lifecycle = 0;
  sequence = 0;
  requester = zeros 10;
  deadline_us = pos 0;
  published = false;
  response_seen = false;
  consumed = false;
  multiple = false;
  loss_counted = false;
  sending = false;
  follow_up_pending = false;
  pending_follow_up = no_follow_up;
  lost_responses = 0;
  missing_response = 0;
  missing_follow_up = 0;
  response_count = 0;
  response_rejections = 0;
  follow_up_count = 0;
  follow_up_rejections = 0;
  first_response_us = pos 0;
  published_us = pos 0;
  transmit = no_time;
  receive = no_time;
  response = no_response;
}

-- What ptp_peer_response returns.
pub data Verdict : Type 0 where
  ignored accepted multiple_responders duplicate from_self : Verdict

-- ptp_peer_invalidate
pub invalidate : Exchange → Exchange
invalidate e = record blank {
  generation = next_nonzero e.generation;
  lifecycle = next_nonzero e.lifecycle;
}

-- `if (x < UINT16_MAX) x++`
abbrev pub count_up : ℕ → ℕ
count_up n = if ltb n uint16_max then n + 1 else n

-- ptp_peer_expire
pub expire : Exchange → ℤ → Exchange × Bool
expire e now =
    let counted = record e { loss_counted = true; lost_responses = count_up e.lost_responses } in
    if not e.published || e.consumed || e.loss_counted || lt_ℤ now e.deadline_us
    then (e, false)
    else if e.response_seen
    then (record counted { missing_follow_up = u32 (e.missing_follow_up + 1) }, true)
    else (record counted { missing_response = u32 (e.missing_response + 1) }, true)

-- ptp_peer_abandon
pub abandon : Exchange → Exchange
abandon e = record (invalidate e) {
  lifecycle = e.lifecycle;
  lost_responses = e.lost_responses;
  missing_response = e.missing_response;
  missing_follow_up = e.missing_follow_up;
}

-- ptp_peer_begin: the new exchange, whose generation it returns
pub begin : Exchange → ℕ → Header → ℤ → Exchange
begin e sequence request deadline = record (abandon e) {
  sequence = sequence;
  requester = request.sourceidentity ++ request.sourceportindex;
  deadline_us = deadline;
  sending = true;
}

-- tv_nsec is out of range
abbrev pub bad_nsec : Timespec → Bool
bad_nsec t = lt_ℤ t.tv_nsec (pos 0) || le_ℤ (pos 1000000000) t.tv_nsec

-- ptp_peer_publish
pub publish : Exchange → ℕ → Timespec → ℤ → Exchange × Bool
publish e generation transmit now =
    if not (e.generation == generation)
      || not e.sending
      || e.published
      || le_ℤ e.deadline_us now
      || bad_nsec transmit
    then (e, false)
    else (
      record e { transmit = transmit; published = true; sending = false; published_us = now },
      true,
    )

-- ptp_peer_cancel
pub cancel : Exchange → ℕ → Exchange
cancel e generation = if not (e.generation == generation) then e else record e {
  sending = false;
  published = false;
  response_seen = false;
  follow_up_pending = false;
}

-- ptp_peer_timestamp_valid; the shifted bytes do not overlap, so `|` adds them.
pub timestamp_valid : Bytes → Bool
timestamp_valid stamp =
    ltb (byte stamp 6 * 2 ^ 24 + byte stamp 7 * 2 ^ 16 + byte stamp 8 * 2 ^ 8 + byte stamp 9)
      1000000000

-- The two comparisons with `requester`.
abbrev pub same_requester : Exchange → Bytes → Bytes → Bool
same_requester e identity port =
    same (take 8 e.requester) identity && same (drop 8 e.requester) port

-- ptp_peer_matches
pub matches : Exchange → Header → Bytes → Bytes → ℤ → Bool
matches e h requester port now =
    (e.published || e.sending)
    && not e.multiple
    && lt_ℤ now e.deadline_us
    && e.sequence == sequence_of h
    && same_requester e requester port

-- `cond ? bit : 0`
abbrev pub flag : Bool → ℕ → ℕ
flag b bit = if b then bit else 0

-- The bits of `rejection` in ptp_peer_response, each set once.
pub response_rejection : Exchange → DelayResp → Timespec → ℤ → ℕ
response_rejection e r receive now =
    flag (not e.published && not e.sending) 1
    + flag e.multiple 2
    + flag (le_ℤ e.deadline_us now) 4
    + flag (not (same_requester e r.reqidentity r.reqportindex)) 8
    + flag (not (timestamp_valid r.receivetimestamp) || bad_nsec receive) 16

-- Both messages came from one port.
abbrev pub same_source : Header → Header → Bool
same_source a b = same a.sourceidentity b.sourceidentity && same a.sourceportindex b.sourceportindex

-- The counters that ptp_peer_response keeps of every response to this request.
pub count_response : Exchange → ℤ → ℕ → Exchange
count_response e now rejection = record e {
  first_response_us = if e.response_count == 0 then now else e.first_response_us;
  response_count = count_up e.response_count;
  response_rejections = bit_or e.response_rejections rejection;
}

-- ptp_peer_response
pub response : Exchange → DelayResp → Timespec → ℤ → Exchange × Verdict
response e r receive now =
    let rejection = response_rejection e r receive now in
    let counted = count_response e now rejection in
    if not (sequence_of r.header == e.sequence)
    then (e, ignored)
    else if not (rejection == 0)
    then (counted, ignored)
    else if same r.header.sourceidentity (take 8 e.requester)
    then (record counted { multiple = true }, from_self)
    else if e.response_seen
    then (
      record counted { multiple = true },
      if same_source e.response.header r.header then duplicate else multiple_responders,
    )
    else (record counted { response = r; receive = receive; response_seen = true }, accepted)

-- The bits of `rejection` in ptp_peer_finish, each set once.
pub follow_up_rejection : Exchange → FollowUp → ℤ → ℕ
follow_up_rejection e f now =
    flag (not e.published && not e.sending) 1
    + flag e.multiple 2
    + flag (le_ℤ e.deadline_us now) 4
    + flag (not (same_requester e f.reqidentity f.reqportindex)) 8
    + flag (not e.response_seen) 16
    + flag (not (timestamp_valid f.origintimestamp)) 32
    + flag (not (same_source e.response.header f.header)) 64
    + flag (e.consumed || e.follow_up_pending) 128

-- The counters that ptp_peer_finish keeps of every follow-up to this request.
pub count_follow_up : Exchange → FollowUp → ℤ → Exchange
count_follow_up e f now = if not (sequence_of f.header == e.sequence) then e else record e {
  follow_up_count = count_up e.follow_up_count;
  follow_up_rejections = bit_or e.follow_up_rejections (follow_up_rejection e f now);
}

-- The follow-up belongs to the response of this exchange.
pub follows : Exchange → FollowUp → ℤ → Bool
follows e f now =
    matches e f.header f.reqidentity f.reqportindex now
    && e.response_seen
    && timestamp_valid f.origintimestamp
    && same_source e.response.header f.header

-- ptp_peer_finish from its first `return` on: the measurement in place of `true`
pub complete : Exchange → FollowUp → ℤ → Exchange × Option Measurement
complete e f now =
    if not (follows e f now)
    then (e, none)
    else if e.consumed || e.follow_up_pending
    then (record e { multiple = true }, none)
    else if not e.published
    then (record e { pending_follow_up = f; follow_up_pending = true }, none)
    else (
      record e { consumed = true; lost_responses = 0 },
      some (record {
        generation = e.generation;
        lifecycle = e.lifecycle;
        transmit = e.transmit;
        receive = e.receive;
        response = e.response;
      }),
    )

-- ptp_peer_finish
pub finish : Exchange → FollowUp → ℤ → Exchange × Option Measurement
finish e f now = complete (count_follow_up e f now) f now

-- ptp_peer_take_follow_up: the retained follow-up and its generation in place of `true`
pub take_follow_up : Exchange → ℤ → Exchange × Option (FollowUp × ℕ)
take_follow_up e now =
    if not e.published
      || not e.follow_up_pending
      || e.multiple
      || e.consumed
      || le_ℤ e.deadline_us now
    then (e, none)
    else (record e { follow_up_pending = false }, some (e.pending_follow_up, e.generation))
