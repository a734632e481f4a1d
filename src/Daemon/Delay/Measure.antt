-- ===== src/Daemon/Delay/Measure.antt =====
-- Which delays Daemon.Delay takes.
use esp_ptp.Base.{
  Bool, true, false, ◌≡◌, refl, sym, ◌≢◌, ◌⊎◌, inl, inr, Option, some, [], ◌++◌, arith, Bool-cases,
  Option-cases, length, take,
}
use esp_ptp.Base.Int.{ℤ, pos, ◌≤ℤ◌, ◌<ℤ◌}
use esp_ptp.Base.Bytes.{Bytes, same_iff}
use esp_ptp.Peer.Wire.{DelayResp, FollowUp, Timespec, sequence_of}
use esp_ptp.Peer.Exchange.{Measurement}
use esp_ptp.Peer.Rate.{Double, Rate, peer_correction, peer_delay_local, rate_update}
use esp_ptp.Base.Bytes.{slice-append}
use esp_ptp.Peer.Rate.Laws.{rate_update_valid}
use esp_ptp.Daemon.Format.{of_format}
use esp_ptp.Daemon.Delay.{
  Options, State, is_answer, path_sample, take_answer, take_interval, process_delay_resp, in_range,
  measure_delay, has_types, restart_average, take_delay, keep_measurement, measure,
}
use esp_ptp.Daemon.Delay.Average.{average_between}

module _ {D : Type 0} (F : Double D) where
  answer_lem :
      (s : State D) (m : DelayResp)
      → is_answer F s m ≡ true
      → (s.selected_source_valid ≡ true)
        × (m.header.sourceidentity ≡ s.selected_identity)
        × (m.reqidentity ≡ s.own_identity)
        × (m.reqportindex ≡ s.own_port)
        × (sequence_of m.header ≡ s.delay_req_seq)
  unfolding is_answer
  answer_lem s m h = ground (
    arith,
    h,
    same_iff m.header.sourceidentity s.selected_identity,
    same_iff m.reqidentity s.own_identity,
    same_iff m.reqportindex s.own_port,
  )

  -- What an answer leaves of the rest of the state.
  abbrev Kept : State D → State D → Type 0
  Kept s s' = (s'.peer_delay_ns ≡ s.peer_delay_ns) × (s'.peer_capability ≡ s.peer_capability)

  take_answer_bounds :
      (o : Options) (s : State D) (m : DelayResp)
      → pos 0 ≤ℤ s.path_delay_ns
      → s.path_delay_ns <ℤ pos o.max_path_delay_ns
      → let s' = take_answer F o s m in
        (s'.unicast.outstanding ≡ false)
        × (pos 0 ≤ℤ s'.path_delay_ns)
        × (s'.path_delay_ns <ℤ pos o.max_path_delay_ns)
        × Kept s s'
  unfolding take_answer
  take_answer_bounds o s m lo hi =
      let sample = path_sample F o s m in
      ground (arith, average_between o.average_count s.path_delay_avgcount s.path_delay_ns sample)

  take_interval_keeps :
      (s : State D) (m : DelayResp)
      → let s' = take_interval F s m in
        (s'.unicast ≡ s.unicast) × (s'.path_delay_ns ≡ s.path_delay_ns) × Kept s s'
  unfolding take_interval
  take_interval_keeps s m = ground arith

  -- In the standard profile a response changes nothing unless it comes from the selected source and
  -- answers the last request of this clock. Then the request is no longer outstanding, and a path delay
  -- within its limits stays so; what is known of the neighbour does not change.
  pub delay_resp_standard :
      (o : Options) (raw : ℤ) (s : State D) (m : DelayResp) (rxtime : Timespec) (now : ℤ)
      → s.gptp ≡ false
      → pos 0 ≤ℤ s.path_delay_ns
      → s.path_delay_ns <ℤ pos o.max_path_delay_ns
      → let s' = process_delay_resp F o raw s m rxtime now in
        (s' ≡ s)
        ⊎ (s.selected_source_valid ≡ true)
          × (m.header.sourceidentity ≡ s.selected_identity)
          × (m.reqidentity ≡ s.own_identity)
          × (m.reqportindex ≡ s.own_port)
          × (sequence_of m.header ≡ s.delay_req_seq)
          × (s'.unicast.outstanding ≡ false)
          × (pos 0 ≤ℤ s'.path_delay_ns)
          × (s'.path_delay_ns <ℤ pos o.max_path_delay_ns)
          × (s'.peer_delay_ns ≡ s.peer_delay_ns)
          × (s'.peer_capability ≡ s.peer_capability)
  unfolding process_delay_resp
  delay_resp_standard o raw s m rxtime now g lo hi = elim (Bool-cases (is_answer F s m)) [
    | inr e ↦ inl (ground (arith, g, e))
    | inl e ↦
        let taken = take_answer_bounds o s m lo hi in
        let timed = take_interval_keeps (take_answer F o s m) m in
        inr (ground (arith, g, e, answer_lem s m e, taken, timed))
  ]

  take_delay_keeps :
      (o : Options) (s : State D) (delay : Option D)
      → (take_delay F o s delay).peer_rate ≡ s.peer_rate
  unfolding take_delay
  take_delay_keeps o s delay = ground arith

  keep_qualified :
      (o : Options) (s : State D) (rate : Rate D) (delay : Option D) (measurement : Measurement)
      (m : FollowUp) (responder : Bytes) (now : ℤ)
      → let s' = keep_measurement F o s rate delay measurement m responder now in
        (s'.peer_capability.lifecycle ≡ measurement.lifecycle)
        × (s'.peer_capability.received_us ≡ now)
        × (s'.peer_rate ≡ rate)
        × ((s'.peer_capability.qualified ≡ false)
            ⊎ ((d : D) × (delay ≡ some d))
              × (s'.peer_delay_ns ≤ℤ pos 800)
              × (has_types F measurement m ≡ true)
              × (take 8 responder ≢ s.own_identity))
  unfolding keep_measurement
  keep_qualified o s rate delay measurement m responder now = ground (
    arith,
    same_iff (take 8 responder) s.own_identity,
    take_delay_keeps o (record (restart_average F s rate) { peer_rate = rate }) delay,
  )

  -- The delay that two intervals and two corrections give at the rate of the neighbour.
  abbrev local_delay : Rate D → Measurement → FollowUp → ℤ → ℤ → Option D
  local_delay rate measurement m roundtrip reflection =
      peer_delay_local F rate.ratio roundtrip reflection
        (peer_correction F measurement.response.header.correction)
        (peer_correction F m.header.correction)

  -- The times of the exchange are in range, and give a delay at this rate that is below the limit.
  abbrev pub IsValidDelay : Options → Rate D → Measurement → FollowUp → Type 0
  IsValidDelay o rate measurement m =
      (roundtrip : ℤ) × (reflection : ℤ) × (d : D) × (in_range F o measurement m
        ≡ some (roundtrip, reflection))
      × (local_delay rate measurement m roundtrip reflection ≡ some d)
      × (F.less d (F.of_int (pos o.max_peer_delay_ns)) ≡ true)

  measure_delay_valid :
      (o : Options) (rate : Rate D) (valid : Bool) (measurement : Measurement) (m : FollowUp)
      (roundtrip reflection : ℤ) (d : D)
      → measure_delay F o rate valid measurement m roundtrip reflection ≡ some d
      → (valid ≡ true)
        × (local_delay rate measurement m roundtrip reflection ≡ some d)
        × (F.less d (F.of_int (pos o.max_peer_delay_ns)) ≡ true)
  unfolding measure_delay
  measure_delay_valid o rate valid measurement m roundtrip reflection d h =
      elim (Option-cases (local_delay rate measurement m roundtrip reflection)) [
        | inl e ↦ ground (arith, h, e)
        | inr (d', e) ↦ ground (arith, h, e)
      ]

  -- A neighbour qualifies by a measurement only if its rate is valid and the delay at that rate exists
  -- and is below the limit, the average delay is at most 800 ns, the messages have the types of gPTP and
  -- another clock answered; the qualification carries the lifecycle of the measurement and its time.
  pub measure_qualified :
      (o : Options) (s : State D) (measurement : Measurement) (m : FollowUp) (now : ℤ)
      → length m.header.sourceidentity ≡ 8
      → let s' = measure F o s measurement m now in
        (s' ≡ s)
        ⊎ (s'.peer_capability.lifecycle ≡ measurement.lifecycle)
          × (s'.peer_capability.received_us ≡ now)
          × (s.peer_exchange.generation ≡ measurement.generation)
          × (s.peer_exchange.multiple ≡ false)
          × ((s'.peer_capability.qualified ≡ false)
              ⊎ (s'.peer_delay_ns ≤ℤ pos 800)
                × (s'.peer_rate.valid ≡ true)
                × (has_types F measurement m ≡ true)
                × (m.header.sourceidentity ≢ s.own_identity)
                × IsValidDelay o s'.peer_rate measurement m)
  unfolding measure
  measure_qualified o s measurement m now l =
      let responder = m.header.sourceidentity ++ m.header.sourceportindex in
      let updated =
        rate_update F s.peer_rate measurement.lifecycle responder (of_format m.origintimestamp)
          (peer_correction F m.header.correction) measurement.receive in
      let valid =
        rate_update_valid F s.peer_rate measurement.lifecycle responder
          (of_format m.origintimestamp) (peer_correction F m.header.correction)
          measurement.receive in
      let id : take 8 responder ≡ m.header.sourceidentity =
        slice-append [] m.header.sourceidentity m.header.sourceportindex 0 8 refl (sym l) in
      elim (Option-cases (in_range F o measurement m)) [
        | inl e ↦ inl (ground (arith, e))
        | inr ((roundtrip, reflection), e) ↦
            let delay = measure_delay F o updated.0 updated.1 measurement m roundtrip reflection in
            let kept = keep_qualified o s updated.0 delay measurement m responder now in
            elim (Option-cases delay) [
              | inl none_is ↦ ground (arith, e, kept, valid, id, none_is)
              | inr (d, some_is) ↦
                  let sound =
                    measure_delay_valid o updated.0 updated.1 measurement m roundtrip reflection d
                      some_is in
                  let witness : IsValidDelay o updated.0 measurement m =
                    (roundtrip, reflection, d, e, sound.1, sound.2) in
                  ground (arith, e, kept, valid, id, witness)
            ]
      ]
