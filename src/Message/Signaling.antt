-- ===== src/Message/Signaling.antt =====
-- ptp_signaling.h: the Signaling messages that announce gPTP capability and ask for intervals.
use esp_ptp.Base.{
  ℕ, zero, suc, ◌+◌, ◌-◌, ◌*◌, ◌/◌, ◌%◌, ◌^◌, ◌≤◌, ◌<◌, Bool, true, false, not, ◌&&◌, ◌||◌,
  if◌then◌else◌, ◌==◌, ltb, leb, ◌≡◌, refl, sym, ap, ◌∙◌, ◌≢◌, ◌↔◌, ◌⊎◌, inl, inr, Option, none,
  some, List, [], ◌∷◌, ◌++◌, map, arith, Bool-cases, Option-cases, ==_iff, length, get_or,
  get_elem?, set, take, drop, replicate, length-set, length-append, length-take, length-drop,
  length-replicate, length-map, take-append-drop,
}
use esp_ptp.Base.Int.{
  ℤ, pos, negsuc, neg, pos_part, neg_part, sub_ℕ, ◌+ℤ◌, ◌-ℤ◌, ◌*ℤ◌, lt_ℤ, le_ℤ, ◌==ℤ◌, ◌≤ℤ◌, ◌<ℤ◌,
  int64_max, int32_max, quot, rem, wrap, signed, min_ℤ, max_ℤ, int_laws, +ℤ_parts, -ℤ_parts,
  eq_of_parts,
}
use esp_ptp.Base.Word.{u8, u16, u32, uint16_max, next_nonzero}
use esp_ptp.Base.Bytes.{
  Bytes, byte, same, same_iff, same_refl, slice, be16, zeros, copy, fill, byte-set, byte-fill,
  byte-copy, length-fill, length-copy, byte-take, bytes_ext,
}
pub mod Decode
pub mod Local
pub mod RoundTrip
mod Tests

-- ptp_capable_message_t
pub record CapableMessage : Type 0 where
  pub source_port : Bytes
  pub log_interval : ℤ

-- ptp_interval_message_t
pub record IntervalMessage : Type 0 where
  pub source_port : Bytes
  pub log_link_delay : ℤ
  pub log_sync : ℤ
  pub log_announce : ℤ
  pub flags : ℕ

-- PTP_SIGNALING_MALFORMED, PTP_SIGNALING_IGNORED, and the positive codes with what was read.
pub data Decoded {ℓ} (A : Type ℓ) : Type ℓ where
  malformed ignored : Decoded A
  decoded : ℕ → A → Decoded A

-- `known_seen`: one bit for each kind of TLV.
pub record Seen : Type 0 where
  pub interval : Bool
  pub capable : Bool
  pub capable_interval : Bool

abbrev pub nothing_seen : Seen
nothing_seen = record { interval = false; capable = false; capable_interval = false }

-- The bits of kinds 2, 4 and 5.
pub seen_kind : Seen → ℕ → Bool
seen_kind s kind =
    if kind == 2 then s.interval else if kind == 4 then s.capable else s.capable_interval

pub mark_kind : Seen → ℕ → Seen
mark_kind s kind =
    if kind == 2
    then record s { interval = true }
    else if kind == 4
    then record s { capable = true }
    else record s { capable_interval = true }

-- A TLV of the IEEE 802.1 organisation, 0x0080c2 with subtype 00-00, and a body that holds one.
pub organisation : Bytes → ℕ → ℕ → Bool
organisation m at body =
    leb 6 body
    && byte m (at + 4) == 0
    && byte m (at + 5) == 0x80
    && byte m (at + 6) == 0xc2
    && byte m (at + 7) == 0
    && byte m (at + 8) == 0

-- A message interval request propagates; the gPTP-capable TLV and its interval request do not.
pub expected_type : ℕ → ℕ
expected_type kind = if kind == 2 then 0x0003 else 0x8000

pub expected_body : ℕ → ℕ
expected_body kind = if kind == 5 then 10 else 12

-- Is the TLV at `at` one of the three known kinds?
pub known : Bytes → ℕ → ℕ → Bool
known m at body =
    let kind = byte m (at + 9) in
    organisation m at body
    && (kind == 2 || kind == 4 || kind == 5)
    && be16 m at == expected_type kind

-- What the walk over the TLVs ends in: the offset of the TLV that was looked for, if it is there.
pub data Walk : Type 0 where
  unfinished refused : Walk
  done : Option ℕ → Walk

-- The `for` loop of ptp_signaling_find_tlv, with fuel; `unfinished` means that it ran out.
pub walk : ℕ → Bytes → ℕ → ℕ → ℕ → Seen → Option ℕ → Walk
walk zero m len subtype at seen result = unfinished
walk (suc fuel) m len subtype at seen result =
    let body = be16 m (at + 2) in
    let kind = byte m (at + 9) in
    let skip = walk fuel m len subtype (at + (body + 4)) seen result in
    let take_it =
      walk fuel m len subtype (at + (body + 4)) (mark_kind seen kind)
        (if kind == subtype then some at else result) in
    if leb len at
    then done result
    else if ltb (len - at) 4
    then refused
    else if ltb (len - at - 4) body || body % 2 == 1
    then refused
    else if not (known m at body)
    then skip
    else if not (body == expected_body kind) || seen_kind seen kind
    then refused
    else take_it

-- The tests on the header: a Signaling message of this domain to this port or to all, not from here.
pub addressed : Bytes → ℕ → Bytes → Bool
addressed m domain own =
    byte m 0 == 0x1c
    && byte m 1 % 16 == 2
    && byte m 4 == domain
    && byte m 5 == 0
    && (same (slice m 34 10) (replicate 10 255) || same (slice m 34 10) own)
    && not (same (slice m 20 8) (take 8 own))

pub walk_result : Walk → Decoded ℕ
walk_result unfinished = malformed
walk_result refused = malformed
walk_result (done none) = ignored
walk_result (done (some at)) = decoded 1 at

-- ptp_signaling_find_tlv: the offset of the TLV in place of the pointer to it. `none` is NULL.
pub find_tlv : Option Bytes → ℕ → ℕ → Option Bytes → ℕ → Decoded ℕ
find_tlv none received domain own subtype = malformed
find_tlv (some m) received domain none subtype = malformed
find_tlv (some m) received domain (some own) subtype =
    let len = be16 m 2 in
    if ltb received 44 || ltb len 44 || ltb received len
    then malformed
    else if not (addressed m domain own)
    then ignored
    else walk_result (walk (suc len) m len subtype 44 nothing_seen none)

-- `(int8_t)x` of a byte, and the byte that a logarithm is stored in.
abbrev pub int8 : ℕ → ℤ
int8 b = signed 128 b

abbrev pub byte_of : ℤ → ℕ
byte_of = wrap 256

pub capable_at : Bytes → ℕ → CapableMessage
capable_at m at = record { source_port = slice m 20 10; log_interval = int8 (byte m (at + 10)) }

pub interval_at : Bytes → ℕ → IntervalMessage
interval_at m at = record {
  source_port = slice m 20 10;
  log_link_delay = int8 (byte m (at + 10));
  log_sync = int8 (byte m (at + 11));
  log_announce = int8 (byte m (at + 12));
  flags = byte m (at + 13);
}

pub decode_with {ℓ} : {A : Type ℓ} → ℕ → (ℕ → A) → Decoded ℕ → Decoded A
decode_with kind read malformed = malformed
decode_with kind read ignored = ignored
decode_with kind read (decoded code at) = decoded kind (read at)

-- ptp_signaling_read_capable_tlv (the result pointer is never NULL here)
read_capable_tlv : Bytes → ℕ → ℕ → Bytes → ℕ → ℕ → Decoded CapableMessage
read_capable_tlv m received domain own subtype kind =
    decode_with kind (capable_at m) (find_tlv (some m) received domain (some own) subtype)

-- ptp_signaling_read_message_interval
pub read_message_interval : Bytes → ℕ → ℕ → Bytes → Decoded IntervalMessage
read_message_interval m received domain own =
    decode_with 3 (interval_at m) (find_tlv (some m) received domain (some own) 2)

-- ptp_signaling_read_capable
pub read_capable : Bytes → ℕ → ℕ → Bytes → Decoded CapableMessage
read_capable m received domain own = read_capable_tlv m received domain own 4 1

-- ptp_signaling_read_capable_interval
pub read_capable_interval : Bytes → ℕ → ℕ → Bytes → Decoded CapableMessage
read_capable_interval m received domain own = read_capable_tlv m received domain own 5 2

abbrev pub capable_length : ℕ
capable_length = 60

abbrev pub capable_interval_length : ℕ
capable_interval_length = 58

-- The TLV that ptp_signaling_write_capable copies to byte 44.
abbrev pub capable_tlv : Bytes
capable_tlv = 0x80 ∷ 0 ∷ 0 ∷ 12 ∷ 0 ∷ 0x80 ∷ 0xc2 ∷ 0 ∷ 0 ∷ 4 ∷ 0 ∷ 0 ∷ 0 ∷ 0 ∷ 0 ∷ 0 ∷ []

-- The stores of ptp_signaling_write_capable, in their order.
pub capable_stores : Bytes → Bytes → ℕ → ℕ → ℤ → Bytes
capable_stores m source domain sequence log_interval =
    let m = fill m 0 0 capable_length in
    let m = set (set (set (set m 0 0x1c) 1 0x12) 3 capable_length) 4 domain in
    let m = copy m 20 source in
    let m = set (set (set m 30 (u8 (sequence / 256))) 31 (u8 sequence)) 33 0x7f in
    let m = fill m 34 0xff 10 in let m = copy m 44 capable_tlv in set m 54 (byte_of log_interval)

-- ptp_signaling_write_capable: the buffer after it, and the length written. `none` is NULL.
pub write_capable : Option Bytes → ℕ → Option Bytes → ℕ → ℕ → ℤ → Option Bytes × ℕ
write_capable none capacity source domain sequence log_interval = (none, 0)
write_capable (some m) capacity none domain sequence log_interval = (some m, 0)
write_capable (some m) capacity (some source) domain sequence log_interval =
    if ltb capacity capable_length || lt_ℤ log_interval (neg 24) || lt_ℤ (pos 24) log_interval
    then (some m, 0)
    else (some (capable_stores m source domain sequence log_interval), capable_length)

-- The local `encoded` of ptp_signaling_write_capable_interval after its stores.
pub interval_stores : Bytes → ℕ → ℕ → ℤ → Bytes
interval_stores source domain sequence log_interval =
    let e = capable_stores (zeros capable_length) source domain sequence (pos 0) in
    set (set (set (set e 3 capable_interval_length) 47 10) 53 5) 54 (byte_of log_interval)

-- The values that an interval request may carry.
pub requestable : ℤ → Bool
requestable l =
    le_ℤ (neg 24) l && le_ℤ l (pos 24) || l ==ℤ neg 128 || l ==ℤ pos 126 || l ==ℤ pos 127

-- ptp_signaling_write_capable_interval; its call of ptp_signaling_write_capable always succeeds.
pub write_capable_interval : Option Bytes → ℕ → Option Bytes → ℕ → ℕ → ℤ → Option Bytes × ℕ
write_capable_interval none capacity source domain sequence log_interval = (none, 0)
write_capable_interval (some m) capacity none domain sequence log_interval = (some m, 0)
write_capable_interval (some m) capacity (some source) domain sequence log_interval =
    if ltb capacity capable_interval_length || not (requestable log_interval)
    then (some m, 0)
    else (
      some (
          copy m 0
            (take capable_interval_length (interval_stores source domain sequence log_interval))),
      capable_interval_length,
    )
