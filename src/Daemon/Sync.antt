-- ===== src/Daemon/Sync.antt =====
-- Sync and Follow_Up of ptp.c: ptp_process_sync, ptp_process_followup and the snapshot that a Follow_Up
-- publishes.
use esp_ptp.Base.{
  ℕ, zero, suc, ◌+◌, ◌-◌, ◌*◌, ◌/◌, ◌%◌, ◌^◌, ◌≤◌, ◌<◌, Bool, true, false, not, ◌&&◌, ◌||◌,
  if◌then◌else◌, ◌==◌, ltb, leb, ◌≡◌, refl, sym, ap, ◌∙◌, ◌≢◌, ◌↔◌, ◌⊎◌, inl, inr, Option, none,
  some, List, [], ◌∷◌, ◌++◌, map, arith, Bool-cases, Option-cases, ==_iff, length, get_or,
  get_elem?, set, take, drop, replicate, length-set, length-append, length-take, length-drop,
  length-replicate, length-map, take-append-drop,
}
use esp_ptp.Base.Int.{
  ℤ, pos, negsuc, neg, pos_part, neg_part, sub_ℕ, ◌+ℤ◌, ◌-ℤ◌, ◌*ℤ◌, lt_ℤ, le_ℤ, ◌==ℤ◌, ◌≤ℤ◌, ◌<ℤ◌,
  int64_max, int32_max, quot, rem, wrap, signed, min_ℤ, max_ℤ, int_laws, +ℤ_parts, -ℤ_parts,
  eq_of_parts,
}
use esp_ptp.Base.Word.{u8, u16, u32, uint16_max, next_nonzero}
use esp_ptp.Base.Bytes.{
  Bytes, byte, same, same_iff, same_refl, slice, be16, zeros, copy, fill, byte-set, byte-fill,
  byte-copy, length-fill, length-copy, byte-take, byte-drop, byte_past, slice-copy, bytes_ext,
}
use esp_ptp.Peer.Wire.{Timespec}
use esp_ptp.Schedule.SyncReceipt.{Receipt, receipt_interval, receipt_observe}
use esp_ptp.Daemon.Format.{of_format}
use esp_ptp.Daemon.Times.{timespec_to_ns, get_correction_ns, log_of}
use esp_ptp.Daemon.Snapshot.{Snapshot, Store, payload_valid, follow_up_size, timing_snapshot}
use esp_ptp.Daemon.TimeBase.{gm_fields_len}
use esp_ptp.Daemon.Servo.{Platform, update_local_clock}
use esp_ptp.Daemon.Servo
pub mod Follow
mod Tests

-- The fields of struct ptp_state_s and of its port 0 that Sync and Follow_Up use besides the servo's.
pub record State : Type 0 where
  pub servo : Servo.State
  pub selected_source : Bytes
  pub selected_source_valid : Bool
  pub own_source_identity : Bytes
  pub last_received_sync : Timespec
  pub twostep_pending : Bool
  pub twostep_rxtime : Timespec
  pub twostep_packet : Bytes
  pub twostep_received_us : ℤ
  pub upstream_gm_fields : Bytes
  pub upstream_gm_fields_valid : Bool
  pub sync_receipt : Receipt

-- A received message: its bytes, its time of reception on the PTP clock, what the clocks read while it
-- is processed, and what other tasks do to the snapshots before one is published.
pub record Received : Type 0 where
  pub message : Bytes
  pub rxtime : Timespec
  pub mono : Timespec
  pub clock : Timespec
  pub now_us : ℤ
  pub observed_us : ℤ
  pub published_us : ℤ
  pub meanwhile : Store → Store

-- The eight bytes of a clock and the two of its port in a header.
abbrev pub port_of : Bytes → Bytes
port_of m = slice m 20 10

abbrev pub sequence_at : Bytes → ℕ
sequence_at m = be16 m 30

-- PTP_FLAGS0_TWOSTEP
abbrev pub is_twostep : Bytes → Bool
is_twostep m = byte m 6 / 2 % 2 == 1

-- `origintimestamp` and the logarithm of the interval
abbrev pub origin_of : Bytes → Timespec
origin_of m = of_format (slice m 34 10)

abbrev pub interval_log : Bytes → ℤ
interval_log m = log_of (byte m 33)

-- ptp_update_local_clock on the servo's part of the state.
pub update_clock : Platform → State → Timespec → Timespec → Timespec → State × Bool
update_clock p s remote local now =
    let (servo, ok) = update_local_clock p s.servo remote local now in
    (record s { servo = servo }, ok)

-- ptp_process_sync; the result is whether it returns OK
pub process_sync : Platform → State → Received → State × Bool
process_sync p s r =
    if not (same (port_of r.message) (port_of s.selected_source))
    then (s, true)
    else if is_twostep r.message
    then (
      record s {
        last_received_sync = r.mono;
        twostep_rxtime = r.rxtime;
        twostep_packet = take 44 r.message;
        twostep_received_us = r.now_us;
        twostep_pending = true;
      },
      true,
    )
    else update_clock p (record s { last_received_sync = r.mono; twostep_pending = false })
        (origin_of r.message) r.rxtime r.clock

-- The tests of ptp_process_followup: the age of the Sync, its source and sequence number, and in gPTP
-- the information TLV and the interval.
pub is_recent : State → Received → Bool
is_recent s r =
    let age = r.now_us -ℤ s.twostep_received_us in not (lt_ℤ age (pos 0) || lt_ℤ (pos 1000000) age)

pub is_matching : State → Received → Bool
is_matching s r =
    same (port_of r.message) (port_of s.twostep_packet)
    && sequence_at r.message == sequence_at s.twostep_packet

pub is_complete : State → Received → Bool
is_complete s r =
    not s.servo.gptp
    || payload_valid (some r.message) follow_up_size
      && not (receipt_interval (interval_log s.twostep_packet) ==ℤ pos 0)

pub is_awaited : State → Received → Bool
is_awaited s r = s.twostep_pending && is_recent s r && is_matching s r && is_complete s r

-- The correction and the time base fields of a gPTP Follow_Up.
pub take_fields : State → Received → State
take_fields s r =
    if s.servo.gptp
    then record s {
      servo = record (s.servo) { correction_ns = get_correction_ns (slice r.message 8 8) };
      upstream_gm_fields = slice r.message 58 gm_fields_len;
      upstream_gm_fields_valid = true;
    }
    else s

-- Whether the source or its time base is another than the one of a snapshot.
pub is_other : Bytes → Bytes → Bytes → Bytes → Bool
is_other btc btc' base base' = not (same btc btc') || not (same base base')

-- The generation that follows one.
pub next_generation : Snapshot → Bool → ℕ
next_generation current other =
    let generation = if current.generation == 0 then 1 else current.generation in
    if not (current.received_us ==ℤ pos 0) && other then u32 (generation + 1) else generation

-- The snapshot of an accepted observation, on the one that is current.
pub make_snapshot : Platform → State → Received → Snapshot → Snapshot
make_snapshot p s r current =
    let reference = timespec_to_ns (origin_of r.message) in
    let received = timespec_to_ns s.twostep_rxtime in
    let btc = slice s.selected_source 53 8 in
    let other =
      is_other current.btc_identity btc (slice current.follow_up 58 2) (slice r.message 58 2) in
    record {
      generation = next_generation current other;
      received_us = r.published_us;
      reference_ns = reference;
      local_receive_ns = received;
      offset_ns = reference +ℤ s.servo.correction_ns +ℤ s.servo.peer_delay_ns -ℤ received;
      correction_ns = s.servo.correction_ns;
      peer_delay_ns = s.servo.peer_delay_ns;
      trim_ppb = s.servo.freq_trim_ppb;
      drift_ppb = s.servo.drift_acc;
      btc_identity = btc;
      own_identity = s.own_source_identity;
      follow_up = take follow_up_size r.message;
      hardware_clock = not p.sw_clock;
      valid = true;
    }

-- The locked part: the snapshot is kept if the one it is based on is still there.
pub publish : Store → Snapshot → Snapshot → Store
publish store current next =
    if store.timing.generation == current.generation then record store { timing = next } else store

-- What follows the update of the clock, which was based on the snapshot of generation `previous`.
pub publish_observation : Platform → State → Received → ℕ → State
publish_observation p s r previous =
    let current = s.servo.timing.timing in
    let store = r.meanwhile s.servo.timing in
    let observed = record s {
      sync_receipt =
          (receipt_observe s.sync_receipt r.observed_us (interval_log s.twostep_packet)
            r.observed_us).0;
      servo = record (s.servo) { timing = store };
    } in
    if s.servo.gptp && payload_valid (some r.message) follow_up_size
    then if current.generation == previous && s.selected_source_valid
      then record observed {
        servo = record (s.servo) { timing = publish store current (make_snapshot p s r current) };
      }
      else observed
    else record s { servo = record (s.servo) { timing = store } }

-- ptp_process_followup; the result is whether it returns OK
pub process_followup : Platform → State → Received → State × Bool
process_followup p s r =
    let fields = take_fields (record s { twostep_pending = false }) r in
    let (s', ok) = update_clock p fields (origin_of r.message) s.twostep_rxtime r.clock in
    if not (is_awaited s r)
    then (s, true)
    else if ok
    then (publish_observation p s' r s.servo.timing.timing.generation, true)
    else (s', false)
