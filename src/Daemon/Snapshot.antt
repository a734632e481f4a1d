-- ===== src/Daemon/Snapshot.antt =====
-- The timing snapshot: ptp_timing_snapshot.h and its state in ptp.c.
use esp_ptp.Base.{
  ℕ, ◌+◌, ◌%◌, Bool, true, false, not, ◌&&◌, ◌||◌, if◌then◌else◌, ◌==◌, ltb, leb, ◌≡◌, ◌≢◌, ◌↔◌,
  Option, none, some, [], ◌∷◌, arith,
}
use esp_ptp.Base.Int.{ℤ, pos, ◌+ℤ◌, ◌-ℤ◌, lt_ℤ, ◌≤ℤ◌, +ℤ_parts, -ℤ_parts}
use esp_ptp.Base.Word.{u32}
use esp_ptp.Base.Bytes.{Bytes, byte, same, slice, be16}

-- PTP_TIMING_FOLLOW_UP_SIZE
abbrev pub follow_up_size : ℕ
follow_up_size = 76

-- ptp_timing_snapshot_t
pub record Snapshot : Type 0 where
  pub generation : ℕ
  pub received_us : ℤ
  pub reference_ns : ℤ
  pub local_receive_ns : ℤ
  pub offset_ns : ℤ
  pub correction_ns : ℤ
  pub peer_delay_ns : ℤ
  pub trim_ppb : ℤ
  pub drift_ppb : ℤ
  pub btc_identity : Bytes
  pub own_identity : Bytes
  pub follow_up : Bytes
  pub hardware_clock : Bool
  pub valid : Bool

-- s_timing_snapshot and s_local_source_snapshot
pub record Store : Type 0 where
  pub timing : Snapshot
  pub local_source : Snapshot

-- ptp_timing_payload_valid; a NULL message is `none`
unfoldable pub payload_valid : Option Bytes → ℕ → Bool
payload_valid none size = false
payload_valid (some m) size =
    not (ltb size follow_up_size)
    && byte m 0 % 16 == 8
    && byte m 1 % 16 == 2
    && leb follow_up_size (be16 m 2)
    && leb (be16 m 2) size
    && same (slice m 44 10) (0 ∷ 3 ∷ 0 ∷ 28 ∷ 0 ∷ 0x80 ∷ 0xc2 ∷ 0 ∷ 0 ∷ 1 ∷ [])

-- ptp_invalidate_timing
unfoldable pub invalidate : Store → Store
invalidate s = record {
  timing = record (s.timing) { generation = u32 (s.timing.generation + 1); valid = false };
  local_source = record (s.local_source) { valid = false };
}

-- ptpd_timing_generation
pub timing_generation : Store → ℕ
timing_generation s = s.timing.generation

-- A snapshot that is older than 500 ms, or of the future, is not valid.
pub expire : Snapshot → ℤ → Snapshot
expire s now =
    if lt_ℤ now s.received_us || lt_ℤ (pos 500000) (now -ℤ s.received_us)
    then record s { valid = false }
    else s

-- ptpd_timing_snapshot: the copy; the result is its `valid`
pub timing_snapshot : Store → ℤ → Snapshot
timing_snapshot s now = expire s.timing now

-- ptpd_time_source_snapshot
pub time_source_snapshot : Store → ℤ → Snapshot
time_source_snapshot s now = expire (if s.local_source.valid then s.local_source else s.timing) now

-- Once timing is invalidated no reader gets a valid snapshot, at any time, and a reader sees that the
-- generation has changed.
pub invalidate_stops :
    (s : Store) (now : ℤ)
    → ((timing_snapshot (invalidate s) now).valid ≡ false)
      × ((time_source_snapshot (invalidate s) now).valid ≡ false)
      × (timing_generation (invalidate s) ≢ u32 (timing_generation s))
unfolding timing_snapshot time_source_snapshot invalidate expire timing_generation
invalidate_stops s now = ground arith

-- A snapshot that is read as valid was valid, and at most 500 ms old: read at any time between its
-- reception and then it is the same.
pub timing_snapshot_window :
    (s : Store) (now t : ℤ)
    → (timing_snapshot s now).valid ≡ true
    → (timing_snapshot s now ≡ s.timing)
      × (s.timing.received_us ≤ℤ now)
      × (now ≤ℤ s.timing.received_us +ℤ pos 500000)
      × (((timing_snapshot s t).valid ≡ true)
          ↔ ((s.timing.received_us ≤ℤ t) × (t ≤ℤ s.timing.received_us +ℤ pos 500000)))
unfolding timing_snapshot expire
timing_snapshot_window s now t h = ground (
  arith,
  -ℤ_parts now s.timing.received_us,
  -ℤ_parts t s.timing.received_us,
  +ℤ_parts s.timing.received_us (pos 500000),
)
