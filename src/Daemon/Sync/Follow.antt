-- ===== src/Daemon/Sync/Follow.antt =====
-- What a Follow_Up does in Daemon.Sync.
use esp_ptp.Base.{
  ℕ, ◌^◌, ◌<◌, Bool, true, false, ◌&&◌, ◌==◌, ◌≡◌, refl, sym, ap, ◌∙◌, ◌≢◌, ◌⊎◌, inl, inr, some,
  arith, Bool-cases, ==_iff, take,
}
use esp_ptp.Base.Int.{pos, ◌+ℤ◌, ◌-ℤ◌, ◌≤ℤ◌, +ℤ_parts, -ℤ_parts}
use esp_ptp.Base.Bytes.{Bytes, same, same_iff, slice, slice-take, be16-take}
use esp_ptp.Daemon.Times.{timespec_to_ns}
use esp_ptp.Daemon.Snapshot.{Snapshot, Store, payload_valid, follow_up_size, invalidate}
use esp_ptp.Daemon.Servo.{Platform, is_far}
use esp_ptp.Daemon.Servo.Jump.{far_timing}
use esp_ptp.Daemon.Sync.{
  State, Received, port_of, sequence_at, is_recent, is_matching, is_complete, is_awaited,
  process_sync, is_twostep, process_followup, update_clock, take_fields, is_other, next_generation,
  make_snapshot, publish, publish_observation, origin_of,
}
use mathlib.Core.Path.{subst}

take_fields_pending :
    (s : State) (r : Received) → (take_fields s r).twostep_pending ≡ s.twostep_pending
unfolding take_fields
take_fields_pending s r = ground arith

publish_observation_pending :
    (p : Platform) (s : State) (r : Received) (previous : ℕ)
    → (publish_observation p s r previous).twostep_pending ≡ s.twostep_pending
unfolding publish_observation
publish_observation_pending p s r previous = ground arith

followup_pending :
    (p : Platform) (s : State) (r : Received)
    → is_awaited s r ≡ true
    → (process_followup p s r).0.twostep_pending ≡ false
unfolding process_followup update_clock
followup_pending p s r h =
    let fields = take_fields (record s { twostep_pending = false }) r in
    let out = update_clock p fields (origin_of r.message) s.twostep_rxtime r.clock in
    ground (
      arith,
      h,
      take_fields_pending (record s { twostep_pending = false }) r,
      publish_observation_pending p (out.0) r s.servo.timing.timing.generation,
    )

not_awaited :
    (p : Platform) (s : State) (r : Received)
    → is_awaited s r ≡ false
    → process_followup p s r ≡ (s, true)
unfolding process_followup
not_awaited p s r h = ground (arith, h)

idle-is_awaited : (s : State) (r : Received) → s.twostep_pending ≡ false → is_awaited s r ≡ false
unfolding is_awaited
idle-is_awaited s r h = ground (arith, h)

recent_lem :
    (s : State) (r : Received)
    → is_recent s r ≡ true
    → (s.twostep_received_us ≤ℤ r.now_us) × (r.now_us ≤ℤ s.twostep_received_us +ℤ pos 1000000)
unfolding is_recent
recent_lem s r h = ground (
  arith,
  h,
  -ℤ_parts r.now_us s.twostep_received_us,
  +ℤ_parts s.twostep_received_us (pos 1000000),
)

matching_lem :
    (s : State) (r : Received)
    → is_matching s r ≡ true
    → (port_of r.message ≡ port_of s.twostep_packet)
      × (sequence_at r.message ≡ sequence_at s.twostep_packet)
unfolding is_matching
matching_lem s r h = elim (Bool-cases (same (port_of r.message) (port_of s.twostep_packet))) [
  | inl e ↦ (
    (same_iff (port_of r.message) (port_of s.twostep_packet)).0 e,
    (==_iff (sequence_at r.message) (sequence_at s.twostep_packet)).0
        (ap (λ b. b && sequence_at r.message == sequence_at s.twostep_packet) (sym e) ∙ h),
  )
  | inr e ↦
      absurd (cc (ap (λ b. b && sequence_at r.message == sequence_at s.twostep_packet) (sym e) ∙ h))
]

complete_lem :
    (s : State) (r : Received)
    → is_complete s r ≡ true
    → (s.servo.gptp ≡ false) ⊎ (payload_valid (some r.message) follow_up_size ≡ true)
unfolding is_complete
complete_lem s r h = ground (arith, h)

awaited_parts :
    (s : State) (r : Received)
    → is_awaited s r ≡ true
    → (s.twostep_pending ≡ true)
      × (is_recent s r ≡ true)
      × (is_matching s r ≡ true)
      × (is_complete s r ≡ true)
unfolding is_awaited
awaited_parts s r h = ground (arith, h)

followup_of_pending :
    (p : Platform) (s : State) (r r' : Received)
    → let (s', ok) = process_followup p s r in
      (process_followup p s r ≡ (s, true))
      ⊎ (s.twostep_pending ≡ true)
        × (s.twostep_received_us ≤ℤ r.now_us)
        × (r.now_us ≤ℤ s.twostep_received_us +ℤ pos 1000000)
        × (port_of r.message ≡ port_of s.twostep_packet)
        × (sequence_at r.message ≡ sequence_at s.twostep_packet)
        × ((s.servo.gptp ≡ false) ⊎ (payload_valid (some r.message) follow_up_size ≡ true))
        × (s'.twostep_pending ≡ false)
        × (process_followup p s' r' ≡ (s', true))
followup_of_pending p s r r' = elim (Bool-cases (is_awaited s r)) [
  | inr e ↦ inl (not_awaited p s r e)
  | inl e ↦
      let (a, recent, matching, complete) = awaited_parts s r e in
      let times = recent_lem s r recent in
      let ids = matching_lem s r matching in
      let cleared = followup_pending p s r e in
      let s' = (process_followup p s r).0 in
      inr (
        a,
        times.0,
        times.1,
        ids.0,
        ids.1,
        complete_lem s r complete,
        cleared,
        not_awaited p s' r' (idle-is_awaited s' r' cleared),
      )
]

-- What a Sync leaves waiting for a Follow_Up.
sync_pending :
    (p : Platform) (s : State) (r : Received)
    → s.twostep_pending ≡ false
    → let s' = (process_sync p s r).0 in
      (s'.twostep_pending ≡ false)
      ⊎ (port_of r.message ≡ port_of s.selected_source)
        × (is_twostep r.message ≡ true)
        × (s'.twostep_packet ≡ take 44 r.message)
        × (s'.twostep_received_us ≡ r.now_us)
        × (s'.servo ≡ s.servo)
unfolding process_sync update_clock
sync_pending p s r idle =
    ground (arith, idle, same_iff (port_of r.message) (port_of s.selected_source))

-- A Follow_Up that comes after a Sync, with no other Sync waiting, changes nothing unless the Sync is a
-- two-step one of the port of the selected source, was received no more than a second before, and has
-- the Follow_Up's source, port and sequence number, and in gPTP unless the Follow_Up has a valid
-- information TLV. What it was matched with is then used up, so that no further Follow_Up has an effect
-- until another Sync comes.
pub process_followup_once :
    (p : Platform) (s : State) (sync r r' : Received)
    → s.twostep_pending ≡ false
    → let waiting = (process_sync p s sync).0 in
      let (s', ok) = process_followup p waiting r in
      (process_followup p waiting r ≡ (waiting, true))
      ⊎ (port_of sync.message ≡ port_of s.selected_source)
        × (is_twostep sync.message ≡ true)
        × (sync.now_us ≤ℤ r.now_us)
        × (r.now_us ≤ℤ sync.now_us +ℤ pos 1000000)
        × (port_of r.message ≡ port_of sync.message)
        × (sequence_at r.message ≡ sequence_at sync.message)
        × ((s.servo.gptp ≡ false) ⊎ (payload_valid (some r.message) follow_up_size ≡ true))
        × (s'.twostep_pending ≡ false)
        × (process_followup p s' r' ≡ (s', true))
process_followup_once p s sync r r' idle =
    let waiting = (process_sync p s sync).0 in
    elim (sync_pending p s sync idle) [
      | inl none_waits ↦ inl (not_awaited p waiting r (idle-is_awaited waiting r none_waits))
      | inr (port, twostep, packet, time, servo) ↦ elim (followup_of_pending p waiting r r') [
        | inl e ↦ inl e
        | inr (pending, after, before, ids, numbers, tlv, used, once) ↦ inr (
          port,
          twostep,
          subst (λ t. t ≤ℤ r.now_us) time after,
          subst (λ t. r.now_us ≤ℤ t +ℤ pos 1000000) time before,
          ids ∙ ap (λ m. port_of m) packet ∙ slice-take 44 sync.message 20 10 (omega arith),
          numbers ∙ ap (λ m. sequence_at m) packet ∙ be16-take 44 sync.message 30 (omega arith),
          subst (λ v. (v.gptp ≡ false) ⊎ (payload_valid (some r.message) follow_up_size ≡ true))
              servo tlv,
          used,
          once,
        )
      ]
    ]

take_fields_timing : (s : State) (r : Received) → (take_fields s r).servo.timing ≡ s.servo.timing
unfolding take_fields
take_fields_timing s r = ground arith

-- An observation based on a snapshot of another generation is not published.
stale_observation :
    (p : Platform) (s : State) (r : Received) (previous : ℕ)
    → s.servo.timing.timing.generation ≢ previous
    → (publish_observation p s r previous).servo.timing ≡ r.meanwhile s.servo.timing
unfolding publish_observation
stale_observation p s r previous h = ground (arith, h)

invalidate_generation :
    (store : Store)
    → store.timing.generation < 2 ^ 32
    → (invalidate store).timing.generation ≢ store.timing.generation
unfolding invalidate
invalidate_generation store small = ground arith

followup_taken :
    (p : Platform) (s s' : State) (r : Received)
    → is_awaited s r ≡ true
    → process_followup p s r ≡ (s', true)
    → let fields = take_fields (record s { twostep_pending = false }) r in
      let out = update_clock p fields (origin_of r.message) s.twostep_rxtime r.clock in
      publish_observation p out.0 r s.servo.timing.timing.generation ≡ s'
unfolding process_followup
followup_taken p s s' r h e = ground (arith, h, e)

-- A Follow_Up after which the clock was set, since the time it brings is too far from the clock's,
-- publishes no observation: the snapshot is invalidated, and is what other tasks make of that.
pub jump_publishes_nothing :
    (p : Platform) (s s' : State) (r : Received)
    → is_awaited s r ≡ true
    → is_far p
        (take_fields (record s { twostep_pending = false }) r).servo
        (origin_of r.message)
        s.twostep_rxtime
      ≡ true
    → process_followup p s r ≡ (s', true)
    → s.servo.timing.timing.generation < 2 ^ 32
    → s'.servo.timing ≡ r.meanwhile (invalidate s.servo.timing)
unfolding update_clock
jump_publishes_nothing p s s' r h far e small =
    let fields = take_fields (record s { twostep_pending = false }) r in
    let out = update_clock p fields (origin_of r.message) s.twostep_rxtime r.clock in
    let kept : fields.servo.timing ≡ s.servo.timing =
      take_fields_timing (record s { twostep_pending = false }) r in
    let jumped : out.0.servo.timing ≡ invalidate s.servo.timing =
      far_timing p fields.servo (origin_of r.message) s.twostep_rxtime r.clock far
      ∙ ap invalidate kept in
    let other : out.0.servo.timing.timing.generation ≢ s.servo.timing.timing.generation = λ g.
      invalidate_generation s.servo.timing small (sym (ap (λ t. t.timing.generation) jumped) ∙ g) in
    ap (λ t. t.servo.timing) (sym (followup_taken p s s' r h e))
    ∙ stale_observation p out.0 r s.servo.timing.timing.generation other
    ∙ ap (λ t. r.meanwhile t) jumped

other_lem : (a b c d : Bytes) → is_other a b c d ≡ true → (a ≢ b) ⊎ (c ≢ d)
unfolding is_other
other_lem a b c d h = ground (arith, h, same_iff a b, same_iff c d)

generation_lem :
    (current : Snapshot) (other : Bool)
    → (next_generation current other ≡ current.generation)
      ⊎ (current.generation ≡ 0)
      ⊎ (other ≡ true)
unfolding next_generation
generation_lem current other = ground arith

published_is :
    (p : Platform) (s : State) (r : Received) (previous : ℕ)
    → s.servo.gptp ≡ true
    → s.selected_source_valid ≡ true
    → payload_valid (some r.message) follow_up_size ≡ true
    → s.servo.timing.timing.generation ≡ previous
    → (r.meanwhile s.servo.timing).timing.generation ≡ previous
    → (publish_observation p s r previous).servo.timing.timing
      ≡ make_snapshot p s r s.servo.timing.timing
unfolding publish_observation publish
published_is p s r previous g v ok same_generation still =
    ground (arith, g, v, ok, same_generation, still)

-- What the fields of a published snapshot are.
abbrev pub IsObservation : State → Received → ℕ → Snapshot → Type 0
IsObservation s r previous t =
    (t.valid ≡ true)
    × (t.offset_ns ≡ t.reference_ns +ℤ t.correction_ns +ℤ t.peer_delay_ns -ℤ t.local_receive_ns)
    × (t.btc_identity ≡ slice s.selected_source 53 8)
    × (t.local_receive_ns ≡ timespec_to_ns s.twostep_rxtime)
    × ((t.generation ≡ previous)
        ⊎ (previous ≡ 0)
        ⊎ (s.servo.timing.timing.btc_identity ≢ t.btc_identity)
        ⊎ (slice s.servo.timing.timing.follow_up 58 2 ≢ slice r.message 58 2))

made_lem :
    (p : Platform) (s : State) (r : Received)
    → IsObservation s r s.servo.timing.timing.generation (make_snapshot p s r s.servo.timing.timing)
unfolding make_snapshot
made_lem p s r =
    let old = s.servo.timing.timing in
    let btc = slice s.selected_source 53 8 in
    let other = is_other old.btc_identity btc (slice old.follow_up 58 2) (slice r.message 58 2) in
    (
      refl,
      refl,
      refl,
      refl,
      elim (generation_lem old other) [
        | inl e ↦ inl e
        | inr (inl e) ↦ inr (inl e)
        | inr (inr e) ↦ inr (
            inr
              (other_lem old.btc_identity btc (slice old.follow_up 58 2) (slice r.message 58 2) e))
      ],
    )

-- An observation that is published after the clock was trimmed has the offset that its own times, its
-- correction and the delay to the peer give, the identity of the selected source, and the generation of
-- the one before it unless the source or its time base is another.
pub publish_observation-IsObservation :
    (p : Platform) (s : State) (r : Received) (previous : ℕ)
    → s.servo.gptp ≡ true
    → s.selected_source_valid ≡ true
    → payload_valid (some r.message) follow_up_size ≡ true
    → s.servo.timing.timing.generation ≡ previous
    → (r.meanwhile s.servo.timing).timing.generation ≡ previous
    → IsObservation s r previous (publish_observation p s r previous).servo.timing.timing
publish_observation-IsObservation p s r previous g v ok same_generation still =
    subst (λ t. IsObservation s r previous t)
      (sym (published_is p s r previous g v ok same_generation still))
      (subst (λ n. IsObservation s r n (make_snapshot p s r s.servo.timing.timing)) same_generation
        (made_lem p s r))
