-- ===== src/Daemon/Times.antt =====
-- The conversions of ptp.c between times, correction fields and wire bytes.
use esp_ptp.Base.{
  ℕ, zero, suc, ◌+◌, ◌-◌, ◌*◌, ◌/◌, ◌%◌, ◌^◌, ◌≤◌, ◌<◌, Bool, true, false, not, ◌&&◌, ◌||◌,
  if◌then◌else◌, ◌==◌, ltb, leb, ◌≡◌, refl, sym, ap, ◌∙◌, ◌≢◌, ◌↔◌, ◌⊎◌, inl, inr, Option, none,
  some, List, [], ◌∷◌, ◌++◌, map, arith, Bool-cases, Option-cases, ==_iff, length, get_or,
  get_elem?, set, take, drop, replicate, length-set, length-append, length-take, length-drop,
  length-replicate, length-map, take-append-drop,
}
use esp_ptp.Base.Int.{
  ℤ, pos, negsuc, neg, pos_part, neg_part, sub_ℕ, ◌+ℤ◌, ◌-ℤ◌, ◌*ℤ◌, lt_ℤ, le_ℤ, ◌==ℤ◌, ◌≤ℤ◌, ◌<ℤ◌,
  int64_max, int32_max, quot, rem, wrap, signed, min_ℤ, max_ℤ, int_laws, +ℤ_parts, -ℤ_parts,
  eq_of_parts,
}
use esp_ptp.Base.Word.{u8, u16, u32, uint16_max, next_nonzero}
use esp_ptp.Base.Bytes.{
  Bytes, byte, same, same_iff, same_refl, slice, be16, zeros, copy, fill, byte-set, byte-fill,
  byte-copy, length-fill, length-copy, byte-take, bytes_ext,
}
use esp_ptp.Peer.Wire.{Header, Timespec, sequence_of}
use esp_ptp.Daemon.Format.{octet}
mod Tests

-- timespec_to_ns
pub timespec_to_ns : Timespec → ℤ
timespec_to_ns t = t.tv_sec *ℤ pos 1000000000 +ℤ t.tv_nsec

-- timespec_to_ms
pub timespec_to_ms : Timespec → ℤ
timespec_to_ms t = t.tv_sec *ℤ pos 1000 +ℤ quot t.tv_nsec (pos 1000000)

-- timespec_delta_ns; `time64` says whether CONFIG_SYSTEM_TIME64 is defined, which is up to the platform.
-- The difference of the seconds is exact here, and an int64_t in the C code.
unfoldable pub timespec_delta_ns : Bool → Timespec → Timespec → ℤ
timespec_delta_ns time64 a b =
    let delta_s = a.tv_sec -ℤ b.tv_sec in
    if time64 && le_ℤ (quot int64_max (pos 1000000000)) delta_s
    then int64_max
    else if time64 && le_ℤ delta_s (quot (neg (2 ^ 63)) (pos 1000000000))
    then neg (2 ^ 63)
    else delta_s *ℤ pos 1000000000 +ℤ (a.tv_nsec -ℤ b.tv_nsec)

-- The nanoseconds are those of a second, and the seconds are below 2 ^ 62 in size, so that a difference
-- of two of them is an int64_t.
abbrev pub IsTimespec : Timespec → Type 0
IsTimespec t =
    (pos 0 ≤ℤ t.tv_nsec)
    × (t.tv_nsec <ℤ pos 1000000000)
    × (neg (2 ^ 62) <ℤ t.tv_sec)
    × (t.tv_sec <ℤ pos (2 ^ 62))

-- `logmessageinterval` as an int8_t
abbrev pub log_of : ℕ → ℤ
log_of b = signed 128 b

-- ptp_announce_receipt_timeout_ns; `default_ms` is CONFIG_ESP_PTP_ANNOUNCE_INTERVAL_MS
unfoldable pub receipt_timeout_ns : ℕ → ℤ → ℤ
receipt_timeout_ns default_ms interval =
    if lt_ℤ interval (neg 24) || lt_ℤ (pos 24) interval
    then pos (3000000 * default_ms)
    else if le_ℤ (pos 0) interval
    then pos (3000000000 * 2 ^ pos_part interval)
    else pos ((3000000000 + 2 ^ neg_part interval - 1) / 2 ^ neg_part interval)

-- The 64-bit word of eight bytes, most significant first.
unfoldable pub be64 : Bytes → ℕ → ℕ
be64 b i =
    byte b i * 2 ^ 56
    + byte b (i + 1) * 2 ^ 48
    + byte b (i + 2) * 2 ^ 40
    + byte b (i + 3) * 2 ^ 32
    + byte b (i + 4) * 2 ^ 24
    + byte b (i + 5) * 2 ^ 16
    + byte b (i + 6) * 2 ^ 8
    + byte b (i + 7)

-- `v >> 16`, which rounds down
unfoldable pub shift_16 : ℤ → ℤ
shift_16 (pos n) = pos (n / 2 ^ 16)
shift_16 (negsuc n) = negsuc (n / 2 ^ 16)

-- get_correction_ns
unfoldable pub get_correction_ns : Bytes → ℤ
get_correction_ns field = shift_16 (signed (2 ^ 63) (be64 field 0))

-- ptp_scaled_ns_from_ns
unfoldable pub scaled_ns_from_ns : ℤ → Bytes
scaled_ns_from_ns v =
    let sign = if lt_ℤ v (pos 0) then 255 else 0 in
    sign
    ∷ sign
    ∷ octet v 56
    ∷ octet v 48
    ∷ octet v 40
    ∷ octet v 32
    ∷ octet v 24
    ∷ octet v 16
    ∷ octet v 8
    ∷ octet v 0
    ∷ 0
    ∷ 0
    ∷ []

-- ptp_set_message_length
pub set_message_length : Header → ℕ → Header
set_message_length h n = record h { messagelength = u8 (n / 2 ^ 8) ∷ u8 n ∷ [] }

-- ptp_increment_sequence: the counter and the header
pub increment_sequence : ℕ → Header → ℕ × Header
increment_sequence n h =
    let n' = u16 (n + 1) in (n', record h { sequenceid = u8 (n' / 2 ^ 8) ∷ u8 n' ∷ [] })

-- The eight bytes of a 64-bit word.
word_bytes :
    (n : ℕ)
    → n < 2 ^ 64
    → n / 2 ^ 56 % 256 * 2 ^ 56
        + n / 2 ^ 48 % 256 * 2 ^ 48
        + n / 2 ^ 40 % 256 * 2 ^ 40
        + n / 2 ^ 32 % 256 * 2 ^ 32
        + n / 2 ^ 24 % 256 * 2 ^ 24
        + n / 2 ^ 16 % 256 * 2 ^ 16
        + n / 2 ^ 8 % 256 * 2 ^ 8
        + n / 2 ^ 0 % 256
      ≡ n
word_bytes n h = omega arith

-- A product with a second's nanoseconds.
*ℤ_second :
    (a : ℤ)
    → pos_part (a *ℤ pos 1000000000) + neg_part a * 1000000000
      ≡ neg_part (a *ℤ pos 1000000000) + pos_part a * 1000000000
unfolding ◌*ℤ◌
*ℤ_second a = ground arith

*ℤ_word :
    (a : ℤ)
    → pos_part (a *ℤ pos 65536) + neg_part a * 65536
      ≡ neg_part (a *ℤ pos 65536) + pos_part a * 65536
unfolding ◌*ℤ◌
*ℤ_word a = ground arith

delta_split :
    (a b : Timespec)
    → (a.tv_sec -ℤ b.tv_sec) *ℤ pos 1000000000 +ℤ (a.tv_nsec -ℤ b.tv_nsec)
      ≡ timespec_to_ns a -ℤ timespec_to_ns b
unfolding timespec_to_ns
delta_split a b =
    eq_of_parts ((a.tv_sec -ℤ b.tv_sec) *ℤ pos 1000000000 +ℤ (a.tv_nsec -ℤ b.tv_nsec))
      (a.tv_sec *ℤ pos 1000000000 +ℤ a.tv_nsec -ℤ (b.tv_sec *ℤ pos 1000000000 +ℤ b.tv_nsec))
      (omega (
        arith,
        *ℤ_second a.tv_sec,
        *ℤ_second b.tv_sec,
        *ℤ_second (a.tv_sec -ℤ b.tv_sec),
        -ℤ_parts a.tv_sec b.tv_sec,
        -ℤ_parts a.tv_nsec b.tv_nsec,
        +ℤ_parts ((a.tv_sec -ℤ b.tv_sec) *ℤ pos 1000000000) (a.tv_nsec -ℤ b.tv_nsec),
        +ℤ_parts (a.tv_sec *ℤ pos 1000000000) a.tv_nsec,
        +ℤ_parts (b.tv_sec *ℤ pos 1000000000) b.tv_nsec,
        -ℤ_parts (a.tv_sec *ℤ pos 1000000000 +ℤ a.tv_nsec)
            (b.tv_sec *ℤ pos 1000000000 +ℤ b.tv_nsec),
      ))

-- The difference of two times less than 9223372036 seconds apart is exact in nanoseconds and within
-- int64_t, on every platform. Of times further apart it is the largest or the smallest int64_t where
-- CONFIG_SYSTEM_TIME64 is defined; where it is not, the code has no guard for them.
pub timespec_delta_ns_result :
    (time64 : Bool) (a b : Timespec)
    → IsTimespec a
    → IsTimespec b
    → let delta = timespec_delta_ns time64 a b in
      let is_near =
        (a.tv_sec <ℤ b.tv_sec +ℤ pos 9223372036) × (b.tv_sec <ℤ a.tv_sec +ℤ pos 9223372036) in
      is_near
        × (delta ≡ timespec_to_ns a -ℤ timespec_to_ns b)
        × (neg (2 ^ 63) ≤ℤ delta)
        × (delta ≤ℤ int64_max)
      ⊎ (time64 ≡ true) × (delta ≡ int64_max) × (b.tv_sec +ℤ pos 9223372036 ≤ℤ a.tv_sec)
      ⊎ (time64 ≡ true) × (delta ≡ neg (2 ^ 63)) × (a.tv_sec +ℤ pos 9223372036 ≤ℤ b.tv_sec)
      ⊎ (time64 ≡ false) × ¬ is_near
unfolding timespec_delta_ns
timespec_delta_ns_result time64 a b ha hb =
    let ds = a.tv_sec -ℤ b.tv_sec in
    ground (
      arith,
      delta_split a b,
      *ℤ_second ds,
      -ℤ_parts a.tv_sec b.tv_sec,
      -ℤ_parts a.tv_nsec b.tv_nsec,
      +ℤ_parts (ds *ℤ pos 1000000000) (a.tv_nsec -ℤ b.tv_nsec),
      +ℤ_parts b.tv_sec (pos 9223372036),
      +ℤ_parts a.tv_sec (pos 9223372036),
    )

-- A correction field is read as the nearest nanosecond below it, for both signs, and the result is
-- within 47 bits.
pub get_correction_ns_floor :
    (field : Bytes)
    → be64 field 0 < 2 ^ 64
    → let scaled = signed (2 ^ 63) (be64 field 0) in
      let ns = get_correction_ns field in
      (ns *ℤ pos 65536 ≤ℤ scaled)
      × (scaled <ℤ ns *ℤ pos 65536 +ℤ pos 65536)
      × (neg (2 ^ 47) ≤ℤ ns)
      × (ns <ℤ pos (2 ^ 47))
unfolding get_correction_ns shift_16
get_correction_ns_floor field h =
    let scaled = signed (2 ^ 63) (be64 field 0) in
    ground (arith, *ℤ_word (shift_16 scaled), +ℤ_parts (shift_16 scaled *ℤ pos 65536) (pos 65536))

-- The twelve bytes are the signed 96-bit count of 2 ^ -16 ns, for every int64_t.
pub scaled_ns_from_ns_value :
    (v : ℤ)
    → neg (2 ^ 63) ≤ℤ v
    → v ≤ℤ int64_max
    → let s = scaled_ns_from_ns v in
      signed (2 ^ 95) (be16 s 0 * 2 ^ 80 + be64 s 2 * 2 ^ 16 + be16 s 10) ≡ v *ℤ pos 65536
unfolding scaled_ns_from_ns ◌*ℤ◌ be64
scaled_ns_from_ns_value (pos n) lo hi = rw (word_bytes n (omega arith)) (ground arith)
scaled_ns_from_ns_value (negsuc n) lo hi =
    rw (word_bytes (2 ^ 64 - suc n) (omega arith)) (ground arith)

-- The sequence number that a header carries after a message was counted is the counter's.
pub sequence_of-increment_sequence :
    (n : ℕ) (h : Header)
    → let (n', h') = increment_sequence n h in
      (sequence_of h' ≡ n') × (n' ≡ u16 (n + 1)) × (n' ≢ u16 n)
unfolding increment_sequence
sequence_of-increment_sequence n h = ground arith
