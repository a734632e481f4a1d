-- ===== src/Daemon/Delay.antt =====
-- The delay to the source in ptp.c: ptp_process_delay_resp, ptp_process_delay_resp_follow_up and
-- ptpd_inject_peer_delay.
use esp_ptp.Base.{
  ℕ, zero, suc, ◌+◌, ◌-◌, ◌*◌, ◌/◌, ◌%◌, ◌^◌, ◌≤◌, ◌<◌, Bool, true, false, not, ◌&&◌, ◌||◌,
  if◌then◌else◌, ◌==◌, ltb, leb, ◌≡◌, refl, sym, ap, ◌∙◌, ◌≢◌, ◌↔◌, ◌⊎◌, inl, inr, Option, none,
  some, List, [], ◌∷◌, ◌++◌, map, arith, Bool-cases, Option-cases, ==_iff, length, get_or,
  get_elem?, set, take, drop, replicate, length-set, length-append, length-take, length-drop,
  length-replicate, length-map, take-append-drop,
}
use esp_ptp.Base.Int.{
  ℤ, pos, negsuc, neg, pos_part, neg_part, sub_ℕ, ◌+ℤ◌, ◌-ℤ◌, ◌*ℤ◌, lt_ℤ, le_ℤ, ◌==ℤ◌, ◌≤ℤ◌, ◌<ℤ◌,
  int64_max, int32_max, quot, rem, wrap, signed, min_ℤ, max_ℤ, int_laws, +ℤ_parts, -ℤ_parts,
  eq_of_parts, neg_parts,
}
use esp_ptp.Base.Word.{u8, u16, u32, uint16_max, next_nonzero}
use esp_ptp.Base.Bytes.{
  Bytes, byte, same, same_iff, same_refl, slice, be16, zeros, copy, fill, byte-set, byte-fill,
  byte-copy, length-fill, length-copy, byte-take, byte-drop, byte_past, slice-copy, bytes_ext,
}
use esp_ptp.Peer.Wire.{Header, DelayResp, FollowUp, Timespec, sequence_of}
use esp_ptp.Peer.Exchange.{
  Exchange, Measurement, Verdict, ignored, accepted, multiple_responders, duplicate, from_self,
  response, finish,
}
use esp_ptp.Peer.Capability.{Capability}
use esp_ptp.Peer.Rate.{Double, Rate, peer_correction, rate_update, peer_delay_local, zero_double}
use esp_ptp.Daemon.Format.{of_format}
use esp_ptp.Daemon.Times.{timespec_delta_ns, log_of}
use esp_ptp.Daemon.Unicast.{Unicast}
pub mod Average
pub mod Measure
mod Tests

-- The options of the build: CONFIG_ESP_PTP_DELAYREQ_AVGCOUNT, CONFIG_ESP_PTP_MAX_PATH_DELAY_NS,
-- CONFIG_ESP_PTP_MAX_PEER_DELAY_NS.
pub record Options : Type 0 where
  pub time64 : Bool
  pub average_count : ℕ
  pub max_path_delay_ns : ℕ
  pub max_peer_delay_ns : ℕ

-- The fields of struct ptp_state_s and of its port 0 that are used.
pub record State (D : Type 0) : Type 0 where
  pub gptp : Bool
  pub peer_exchange : Exchange
  pub peer_rate : Rate D
  pub peer_capability : Capability
  pub pdelay_multi_responder : Bool
  pub peer_delay_ns : ℤ
  pub peer_delay_avgcount : ℕ
  pub path_delay_ns : ℤ
  pub path_delay_avgcount : ℕ
  pub delay_asymmetry_ns : ℤ
  pub last_delta_ns : ℤ
  pub delay_req_seq : ℕ
  pub delayreq_time : Timespec
  pub delayreq_interval_ms : ℕ
  pub next_delayreq_interval_ms : ℕ
  pub unicast : Unicast
  pub selected_source_valid : Bool
  pub selected_identity : Bytes
  pub own_identity : Bytes
  pub own_port : Bytes

-- `(long)` of a 64-bit value: a long has 32 bits on the target.
pub to_long : ℤ → ℤ
to_long v = signed (2 ^ 31) (wrap (2 ^ 32) v)

-- A running average over at most `limit` samples: the count and the average after a sample that differs
-- from it by `difference`.
pub move_average : ℕ → ℕ → ℤ → ℤ → ℕ × ℤ
move_average limit count mean difference =
    let n = if ltb count limit then count + 1 else count in (n, mean +ℤ quot difference (pos n))

pub average : ℕ → ℕ → ℤ → ℤ → ℕ × ℤ
average limit count mean sample = move_average limit count mean (sample -ℤ mean)

-- log_period_to_msec, where `pow(2.0, log_period) * 1e3` is exact: from -40 to 22
pub log_period_to_msec : ℤ → ℕ
log_period_to_msec (pos n) = 1000 * 2 ^ n
log_period_to_msec (negsuc n) = 1000 / 2 ^ suc n

module _ {D : Type 0} (F : Double D) where
  -- rand_delayreq_interval; `raw` is what random() returns
  pub rand_delayreq_interval : ℤ → ℕ → ℕ
  rand_delayreq_interval raw mean =
      let normalized = F.div (F.of_int raw) (F.of_int (pos 2147483647)) in
      let jitter = F.add (F.decimal 8 1) (F.mul normalized (F.decimal 45 2)) in
      F.to_uint32 (F.mul (F.of_int (pos mean)) jitter)

  -- The gPTP part of ptp_process_delay_resp, and whether the response was accepted.
  pub peer_response : State D → DelayResp → Timespec → ℤ → State D × Bool
  peer_response s m rxtime now =
      let (e, admission) = response s.peer_exchange m rxtime now in
      let admitted = record s {
        peer_exchange = e;
        peer_capability = record (s.peer_capability) {
          qualified = s.peer_capability.qualified && not e.multiple;
        };
      } in
      elim admission [
        | multiple_responders ↦ (record admitted { pdelay_multi_responder = true }, false)
        | accepted ↦ (admitted, true)
        | ignored ↦ (admitted, false)
        | duplicate ↦ (admitted, false)
        | from_self ↦ (admitted, false)
      ]

  -- The answer of the selected source to the last request.
  pub is_answer : State D → DelayResp → Bool
  is_answer s m =
      s.selected_source_valid
      && same m.header.sourceidentity s.selected_identity
      && same m.reqidentity s.own_identity
      && same m.reqportindex s.own_port
      && sequence_of m.header == s.delay_req_seq

  -- The path delay of one answer.
  pub path_sample : Options → State D → DelayResp → ℤ
  path_sample o s m =
      let there = timespec_delta_ns o.time64 (of_format m.receivetimestamp) s.delayreq_time in
      let back = s.path_delay_ns +ℤ s.delay_asymmetry_ns -ℤ s.last_delta_ns in
      quot (there +ℤ back) (pos 2)

  pub take_answer : Options → State D → DelayResp → State D
  take_answer o s m =
      let sample = path_sample o s m in
      let (n, mean) = average o.average_count s.path_delay_avgcount s.path_delay_ns sample in
      let answered = record s {
        unicast = record (s.unicast) { outstanding = false; misses = 0 };
      } in
      if le_ℤ (pos 0) sample && lt_ℤ sample (pos o.max_path_delay_ns)
      then record answered { path_delay_avgcount = n; path_delay_ns = mean }
      else answered

  -- The interval that an answer asks for, from 2 ^ -8 s to 2 ^ 8 s.
  pub take_interval : State D → DelayResp → State D
  take_interval s m =
      let log = log_of (m.header.logmessageinterval) in
      if le_ℤ (neg 8) log && le_ℤ log (pos 8)
      then record s { delayreq_interval_ms = log_period_to_msec log }
      else s

  -- ptp_process_delay_resp
  pub process_delay_resp : Options → ℤ → State D → DelayResp → Timespec → ℤ → State D
  process_delay_resp o raw s m rxtime now =
      let (peer, went_on) = peer_response s m rxtime now in
      let timed = take_interval (take_answer o s m) m in
      if s.gptp
      then if went_on
        then record peer { next_delayreq_interval_ms = peer.delayreq_interval_ms }
        else peer
      else if is_answer s m
      then record timed {
        next_delayreq_interval_ms = rand_delayreq_interval raw timed.delayreq_interval_ms;
      }
      else s

  -- The times of a finished exchange that are in range: the round trip and the reflection.
  pub in_range : Options → Measurement → FollowUp → Option (ℤ × ℤ)
  in_range o measurement m =
      let remote_rx = of_format measurement.response.receivetimestamp in
      let remote_tx = of_format m.origintimestamp in
      let roundtrip = timespec_delta_ns o.time64 measurement.receive measurement.transmit in
      let reflection = timespec_delta_ns o.time64 remote_tx remote_rx in
      if lt_ℤ remote_tx.tv_sec remote_rx.tv_sec
        || lt_ℤ (pos 1) (remote_tx.tv_sec -ℤ remote_rx.tv_sec)
        || lt_ℤ roundtrip (pos 0)
        || lt_ℤ (pos 1000000000) roundtrip
        || lt_ℤ reflection (pos 0)
        || lt_ℤ (pos 1000000000) reflection
      then none
      else some (roundtrip, reflection)

  -- The delay, where it is valid, by the rate that the exchange leaves.
  pub measure_delay : Options → Rate D → Bool → Measurement → FollowUp → ℤ → ℤ → Option D
  measure_delay o rate rate_valid measurement m roundtrip reflection =
      if not rate_valid
      then none
      else elim (peer_delay_local F rate.ratio roundtrip reflection
          (peer_correction F measurement.response.header.correction)
          (peer_correction F m.header.correction)) [
            | none ↦ none
            | some d ↦ if F.less d (F.of_int (pos o.max_peer_delay_ns)) then some d else none
          ]

  -- The header fields that a gPTP response and follow-up have.
  pub has_types : Measurement → FollowUp → Bool
  has_types measurement m =
      measurement.response.header.messagetype == 0x13
      && measurement.response.header.reserved1 == 0
      && m.header.messagetype == 0x1a
      && m.header.reserved1 == 0

  -- The average restarts with another neighbour.
  pub restart_average : State D → Rate D → State D
  restart_average s rate =
      if not (s.peer_rate.lifecycle == rate.lifecycle)
        || not (same s.peer_rate.responder rate.responder)
      then record s { peer_delay_avgcount = 0; peer_delay_ns = pos 0 }
      else s

  pub take_delay : Options → State D → Option D → State D
  take_delay o s none = s
  take_delay o s (some d) =
      let (n, mean) =
        average o.average_count s.peer_delay_avgcount s.peer_delay_ns (to_long (F.round d)) in
      record s { peer_delay_avgcount = n; peer_delay_ns = mean }

  -- What a measurement that is still current leaves; `responder` is the port that answered.
  pub keep_measurement :
      Options → State D → Rate D → Option D → Measurement → FollowUp → Bytes → ℤ → State D
  keep_measurement o s rate delay measurement m responder now =
      let averaged = take_delay o (record (restart_average s rate) { peer_rate = rate }) delay in
      record averaged {
        peer_capability = record {
          lifecycle = measurement.lifecycle;
          received_us = now;
          qualified =
              elim delay [ none ↦ false | some d ↦ true ]
              && le_ℤ averaged.peer_delay_ns (pos 800)
              && has_types measurement m
              && not (same (take 8 responder) s.own_identity);
        };
      }

  -- ptp_process_delay_resp_follow_up after the exchange is finished, in two locked parts with no step
  -- of another task between
  pub measure : Options → State D → Measurement → FollowUp → ℤ → State D
  measure o s measurement m now =
      let responder = m.header.sourceidentity ++ m.header.sourceportindex in
      let (rate, rate_valid) =
        rate_update F s.peer_rate measurement.lifecycle responder (of_format m.origintimestamp)
          (peer_correction F m.header.correction) measurement.receive in
      let current =
        s.peer_exchange.generation == measurement.generation
        && s.peer_exchange.lifecycle == measurement.lifecycle
        && not s.peer_exchange.multiple in
      elim (in_range o measurement m) [
        | none ↦ s
        | some (roundtrip, reflection) ↦
            if current
            then keep_measurement o s rate
                (measure_delay o rate rate_valid measurement m roundtrip reflection) measurement m
                responder now
            else s
      ]

  -- ptp_process_delay_resp_follow_up; an expected generation of 0 is any
  pub process_follow_up : Options → State D → FollowUp → ℕ → ℤ → State D
  process_follow_up o s m expected now =
      let (e, result) = finish s.peer_exchange m now in
      let finished = record s {
        peer_exchange = e;
        peer_capability = record (s.peer_capability) {
          qualified = s.peer_capability.qualified && not e.multiple;
        };
      } in
      if not s.gptp || not (expected == 0) && not (s.peer_exchange.generation == expected)
      then s
      else elim result [ none ↦ finished | some measurement ↦ measure o finished measurement m now ]

-- The values of errno that ptpd_inject_peer_delay returns.
pub data Status : Type 0 where
  ok esrch einval erange : Status

-- ptpd_inject_peer_delay on the averages of the ports; `running` says that there is a daemon
pub inject_peer_delay : Options → Bool → List (ℕ × ℤ) → ℤ → ℤ → List (ℕ × ℤ) × Status
inject_peer_delay o running ports port delay =
    let i = pos_part port in
    let (count, mean) = get_or ports i (0, pos 0) in
    if not running
    then (ports, esrch)
    else if lt_ℤ port (pos 0) || le_ℤ (pos (length ports)) port
    then (ports, einval)
    else if lt_ℤ delay (pos 0) || le_ℤ (pos o.max_peer_delay_ns) delay
    then (ports, erange)
    else (set ports i (move_average o.average_count count mean (to_long (delay -ℤ mean))), ok)
