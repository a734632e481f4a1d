-- ===== src/Message/Signaling/RoundTrip.antt =====
-- What the Signaling readers of another clock read of what the writers write.
use esp_ptp.Base.{
  ℕ, ◌/◌, ◌≤◌, false, if◌then◌else◌, ◌==◌, ◌≡◌, ◌≢◌, some, [], ◌∷◌, ◌++◌, arith, length, take, drop,
  replicate,
}
use esp_ptp.Base.Int.{ℤ, pos, negsuc, neg, ◌≤ℤ◌}
use esp_ptp.Base.Word.{u8}
use esp_ptp.Base.Bytes.{Bytes, same, same_refl, zeros, copy, fill_front, copy_front}
use esp_ptp.Message.Signaling.{
  ignored, decoded, seen_kind, mark_kind, organisation, expected_type, expected_body, known, walk,
  addressed, walk_result, find_tlv, capable_at, decode_with, read_capable_tlv, read_capable,
  read_capable_interval, int8, byte_of, capable_length, capable_stores, write_capable,
  interval_stores, capable_interval_length, requestable, write_capable_interval,
}

-- An int8_t survives being stored in a byte.
int8-byte_of : (l : ℤ) → neg 128 ≤ℤ l → l ≤ℤ pos 127 → int8 (byte_of l) ≡ l
int8-byte_of (pos n) lo hi = ground arith
int8-byte_of (negsuc n) lo hi = ground arith

module _ (p0 p1 p2 p3 p4 p5 p6 p7 p8 p9 : ℕ) where
  abbrev port : Bytes
  port = p0 ∷ p1 ∷ p2 ∷ p3 ∷ p4 ∷ p5 ∷ p6 ∷ p7 ∷ p8 ∷ p9 ∷ []

  -- The message of a gPTP-capable TLV, byte by byte.
  abbrev capable_bytes : ℕ → ℕ → ℕ → Bytes
  capable_bytes domain sequence b =
      0x1c
      ∷ 0x12
      ∷ 0
      ∷ 60
      ∷ domain
      ∷ 0
      ∷ 0
      ∷ 0
      ∷ 0
      ∷ 0
      ∷ 0
      ∷ 0
      ∷ 0
      ∷ 0
      ∷ 0
      ∷ 0
      ∷ 0
      ∷ 0
      ∷ 0
      ∷ 0
      ∷ p0
      ∷ p1
      ∷ p2
      ∷ p3
      ∷ p4
      ∷ p5
      ∷ p6
      ∷ p7
      ∷ p8
      ∷ p9
      ∷ u8 (sequence / 256)
      ∷ u8 sequence
      ∷ 0
      ∷ 0x7f
      ∷ 255
      ∷ 255
      ∷ 255
      ∷ 255
      ∷ 255
      ∷ 255
      ∷ 255
      ∷ 255
      ∷ 255
      ∷ 255
      ∷ 0x80
      ∷ 0
      ∷ 0
      ∷ 12
      ∷ 0
      ∷ 0x80
      ∷ 0xc2
      ∷ 0
      ∷ 0
      ∷ 4
      ∷ b
      ∷ 0
      ∷ 0
      ∷ 0
      ∷ 0
      ∷ 0
      ∷ []

  stores_lem :
      (m : Bytes) (domain sequence : ℕ) (l : ℤ)
      → 60 ≤ length m
      → capable_stores m port domain sequence l
        ≡ capable_bytes domain sequence (byte_of l) ++ drop 60 m
  unfolding capable_stores
  stores_lem m domain sequence l h = rw (fill_front m 0 60 h)

  -- The message of an interval request, byte by byte.
  abbrev interval_bytes : ℕ → ℕ → ℕ → Bytes
  interval_bytes domain sequence b =
      0x1c
      ∷ 0x12
      ∷ 0
      ∷ 58
      ∷ domain
      ∷ 0
      ∷ 0
      ∷ 0
      ∷ 0
      ∷ 0
      ∷ 0
      ∷ 0
      ∷ 0
      ∷ 0
      ∷ 0
      ∷ 0
      ∷ 0
      ∷ 0
      ∷ 0
      ∷ 0
      ∷ p0
      ∷ p1
      ∷ p2
      ∷ p3
      ∷ p4
      ∷ p5
      ∷ p6
      ∷ p7
      ∷ p8
      ∷ p9
      ∷ u8 (sequence / 256)
      ∷ u8 sequence
      ∷ 0
      ∷ 0x7f
      ∷ 255
      ∷ 255
      ∷ 255
      ∷ 255
      ∷ 255
      ∷ 255
      ∷ 255
      ∷ 255
      ∷ 255
      ∷ 255
      ∷ 0x80
      ∷ 0
      ∷ 0
      ∷ 10
      ∷ 0
      ∷ 0x80
      ∷ 0xc2
      ∷ 0
      ∷ 0
      ∷ 5
      ∷ b
      ∷ 0
      ∷ 0
      ∷ 0
      ∷ []

  interval_stores_lem :
      (domain sequence : ℕ) (l : ℤ)
      → take capable_interval_length (interval_stores port domain sequence l)
        ≡ interval_bytes domain sequence (byte_of l)
  unfolding interval_stores
  interval_stores_lem domain sequence l =
      rw (stores_lem (zeros capable_length) domain sequence (pos 0) (omega arith))

  find_capable :
      (rest own : Bytes) (received domain sequence b subtype : ℕ)
      → 60 ≤ received
      → same (take 8 port) (take 8 own) ≡ false
      → find_tlv (some (capable_bytes domain sequence b ++ rest)) received domain (some own) subtype
        ≡ (if 4 == subtype then decoded 1 44 else ignored)
  unfolding find_tlv addressed walk walk_result known organisation expected_type expected_body
      seen_kind mark_kind
  find_capable rest own received domain sequence b subtype h other =
      ground (arith, same_refl (replicate 10 255), other)

  find_interval :
      (rest own : Bytes) (received domain sequence b subtype : ℕ)
      → 58 ≤ received
      → same (take 8 port) (take 8 own) ≡ false
      → find_tlv
          (some (interval_bytes domain sequence b ++ rest))
          received
          domain
          (some own)
          subtype
        ≡ (if 5 == subtype then decoded 1 44 else ignored)
  unfolding find_tlv addressed walk walk_result known organisation expected_type expected_body
      seen_kind mark_kind
  find_interval rest own received domain sequence b subtype h other =
      ground (arith, same_refl (replicate 10 255), other)

  read_written :
      (m m' own : Bytes) (n capacity received domain sequence : ℕ) (l : ℤ)
      → capacity ≤ length m
      → write_capable (some m) capacity (some port) domain sequence l ≡ (some m', n)
      → n ≢ 0
      → n ≤ received
      → same (take 8 port) (take 8 own) ≡ false
      → (read_capable m' received domain own
          ≡ decoded 1 (record { source_port = port; log_interval = l }))
        × (read_capable_interval m' received domain own ≡ ignored)
  unfolding write_capable read_capable read_capable_interval read_capable_tlv decode_with capable_at
  read_written m m' own n capacity received domain sequence l fits w written all other =
      let ok : (60 ≤ capacity)
          × (neg 24 ≤ℤ l)
          × (l ≤ℤ pos 24)
          × (n ≡ 60)
          × (capable_stores m port domain sequence l ≡ m') =
        ground arith in
      let find = λ (k : ℕ).
        find_capable (drop 60 m) own received domain sequence (byte_of l) k (omega arith) other in
      rw (← ok.4, stores_lem m domain sequence l (omega arith))
        (rw (find 4, int8-byte_of l (omega arith) (omega arith)), rw (find 5))

  request_written :
      (m m' own : Bytes) (n capacity received domain sequence : ℕ) (l : ℤ)
      → capacity ≤ length m
      → write_capable_interval (some m) capacity (some port) domain sequence l ≡ (some m', n)
      → n ≢ 0
      → n ≤ received
      → same (take 8 port) (take 8 own) ≡ false
      → (read_capable_interval m' received domain own
          ≡ decoded 2 (record { source_port = port; log_interval = l }))
        × (read_capable m' received domain own ≡ ignored)
  unfolding write_capable_interval requestable read_capable read_capable_interval read_capable_tlv
      decode_with capable_at
  request_written m m' own n capacity received domain sequence l fits w written all other =
      let bytes = take capable_interval_length (interval_stores port domain sequence l) in
      let ok : (58 ≤ capacity)
          × (neg 128 ≤ℤ l)
          × (l ≤ℤ pos 127)
          × (n ≡ 58)
          × (copy m 0 bytes ≡ m') =
        ground arith in
      let find = λ (k : ℕ).
        find_interval (drop 58 m) own received domain sequence (byte_of l) k (omega arith) other in
      let front : copy m 0 bytes ≡ interval_bytes domain sequence (byte_of l) ++ drop 58 m =
        rw (interval_stores_lem domain sequence l)
          (copy_front m (interval_bytes domain sequence (byte_of l)) (omega arith)) in
      rw (← ok.4, front) (rw (find 5, int8-byte_of l (omega arith) (omega arith)), rw (find 4))

-- A capability message that was written is read, by any other clock of its domain, as the source port
-- and interval it was written for, and as no interval request. Behind it the buffer may hold anything.
pub read-write_capable :
    (source m m' own : Bytes) (n capacity received domain sequence : ℕ) (l : ℤ)
    → length source ≡ 10
    → capacity ≤ length m
    → write_capable (some m) capacity (some source) domain sequence l ≡ (some m', n)
    → n ≢ 0
    → n ≤ received
    → same (take 8 source) (take 8 own) ≡ false
    → (read_capable m' received domain own
        ≡ decoded 1 (record { source_port = source; log_interval = l }))
      × (read_capable_interval m' received domain own ≡ ignored)
read-write_capable (a ∷ b ∷ c ∷ d ∷ e ∷ f ∷ g ∷ h ∷ i ∷ j ∷ []) m m' own n capacity received domain
      sequence l ten =
    read_written a b c d e f g h i j m m' own n capacity received domain sequence l
read-write_capable _ m m' own n capacity received domain sequence l ten = absurd (omega arith)

-- An interval request that was written, a rate from -24 to 24 or one of -128, 126 and 127, is read back
-- by any other clock of its domain as that request, and as no capability message.
pub read-write_capable_interval :
    (source m m' own : Bytes) (n capacity received domain sequence : ℕ) (l : ℤ)
    → length source ≡ 10
    → capacity ≤ length m
    → write_capable_interval (some m) capacity (some source) domain sequence l ≡ (some m', n)
    → n ≢ 0
    → n ≤ received
    → same (take 8 source) (take 8 own) ≡ false
    → (read_capable_interval m' received domain own
        ≡ decoded 2 (record { source_port = source; log_interval = l }))
      × (read_capable m' received domain own ≡ ignored)
read-write_capable_interval (a ∷ b ∷ c ∷ d ∷ e ∷ f ∷ g ∷ h ∷ i ∷ j ∷ []) m m' own n capacity
      received domain sequence l ten =
    request_written a b c d e f g h i j m m' own n capacity received domain sequence l
read-write_capable_interval _ m m' own n capacity received domain sequence l ten =
    absurd (omega arith)
