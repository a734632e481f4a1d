-- ===== src/Message/Signaling/Decode.antt =====
-- Decoding a Signaling message: the walk over its TLVs and what it finds.
use esp_ptp.Base.{
  ℕ, zero, suc, ◌+◌, ◌-◌, ◌%◌, ◌≤◌, ◌<◌, Bool, true, not, ◌&&◌, ◌||◌, if◌then◌else◌, ◌==◌, ◌≡◌,
  refl, ◌≢◌, ◌⊎◌, inl, inr, Option, none, some, arith, Bool-cases, ==_iff, take, replicate,
}
use esp_ptp.Base.Bytes.{Bytes, byte, same, same_iff, slice, be16}
use esp_ptp.Message.Signaling.{
  decoded, Seen, nothing_seen, mark_kind, organisation, expected_type, expected_body, known, Walk,
  unfinished, refused, done, walk, addressed, walk_result, find_tlv,
}

-- With more fuel than bytes left the walk ends by one of its own exits.
pub walk_finished :
    (fuel : ℕ) (m : Bytes) (len subtype at : ℕ) (seen : Seen) (result : Option ℕ)
    → len - at < fuel
    → walk fuel m len subtype at seen result ≢ unfinished
unfolding walk
walk_finished zero m len subtype at seen result h = elim h [ ]
walk_finished (suc fuel) m len subtype at seen result h =
    let body = be16 m (at + 2) in
    let kind = byte m (at + 9) in
    ground (
      arith,
      walk_finished fuel m len subtype (at + (body + 4)) seen result,
      walk_finished fuel m len subtype (at + (body + 4)) (mark_kind seen kind)
          (if kind == subtype then some at else result),
    )

-- A TLV of the kind looked for, within the message, with the type and the body of its kind.
pub record IsTlv (m : Bytes) (len subtype at : ℕ) : Type 0 where
  pub behind_header : 44 ≤ at
  pub kind_found : byte m (at + 9) ≡ subtype
  pub type_found : be16 m at ≡ expected_type subtype
  pub body_found : be16 m (at + 2) ≡ expected_body subtype
  pub inside : at + 4 + expected_body subtype ≤ len
  pub ours : organisation m at (expected_body subtype) ≡ true

known-IsTlv :
    (m : Bytes) (len at body : ℕ)
    → 44 ≤ at
    → body ≡ be16 m (at + 2)
    → known m at body ≡ true
    → body ≡ expected_body (byte m (at + 9))
    → at + 4 + body ≤ len
    → IsTlv m len (byte m (at + 9)) at
unfolding known
known-IsTlv m len at body h e k b fits = ground arith

walk_sound :
    (fuel : ℕ) (m : Bytes) (len subtype at : ℕ) (seen : Seen) (result : Option ℕ) (found : ℕ)
    → 44 ≤ at
    → (result ≡ some found → IsTlv m len subtype found)
    → walk fuel m len subtype at seen result ≡ done (some found)
    → IsTlv m len subtype found
unfolding walk
walk_sound zero m len subtype at seen result found h s e = cc
walk_sound (suc fuel) m len subtype at seen result found h s e =
    let body = be16 m (at + 2) in
    let kind = byte m (at + 9) in
    ground (
      arith,
      walk_sound fuel m len subtype (at + (body + 4)) seen result found (omega arith) s,
      walk_sound fuel m len subtype (at + (body + 4)) (mark_kind seen kind)
          (if kind == subtype then some at else result) found (omega arith),
      known-IsTlv m len at body h refl,
    )

walk_result_lem :
    (w : Walk) (code at : ℕ) → walk_result w ≡ decoded code at → (code ≡ 1) × (w ≡ done (some at))
unfolding walk_result
walk_result_lem unfinished code at h = cc
walk_result_lem refused code at h = cc
walk_result_lem (done none) code at h = cc
walk_result_lem (done (some at')) code at h = ground arith

all_six :
    (a b c d e f : Bool)
    → (a && b && c && d && e && f) ≡ true
    → (a ≡ true) × (b ≡ true) × (c ≡ true) × (d ≡ true) × (e ≡ true) × (f ≡ true)
all_six a b c d e f h = ground arith

target_of :
    (port own : Bytes)
    → (same port (replicate 10 255) || same port own) ≡ true
    → (port ≡ replicate 10 255) ⊎ (port ≡ own)
target_of port own h = elim (Bool-cases (same port (replicate 10 255))) [
  | inl e ↦ inl ((same_iff port (replicate 10 255)).0 e)
  | inr e ↦ inr ((same_iff port own).0 (rw e at h))
]

differs : (xs ys : Bytes) → not (same xs ys) ≡ true → xs ≢ ys
differs xs ys h e = let s = (same_iff xs ys).1 e in absurd (cc (rw s at h))

addressed_sound :
    (m : Bytes) (domain : ℕ) (own : Bytes)
    → addressed m domain own ≡ true
    → (byte m 0 ≡ 0x1c)
      × (byte m 4 ≡ domain)
      × ((slice m 34 10 ≡ replicate 10 255) ⊎ (slice m 34 10 ≡ own))
      × (slice m 20 8 ≢ take 8 own)
unfolding addressed
addressed_sound m domain own h =
    let (signaling, version, here, zero_sdo, target, other) =
      all_six (byte m 0 == 0x1c) (byte m 1 % 16 == 2) (byte m 4 == domain) (byte m 5 == 0)
        (same (slice m 34 10) (replicate 10 255) || same (slice m 34 10) own)
        (not (same (slice m 20 8) (take 8 own))) h in
    (
      (==_iff _ _).0 signaling,
      (==_iff _ _).0 here,
      target_of (slice m 34 10) own target,
      λ e. differs (slice m 20 8) (take 8 own) other e,
    )

find_tlv_cases :
    (m : Bytes) (received domain : ℕ) (own : Bytes) (subtype code at : ℕ)
    → find_tlv (some m) received domain (some own) subtype ≡ decoded code at
    → (be16 m 2 ≤ received)
      × (addressed m domain own ≡ true)
      × (walk_result (walk (suc (be16 m 2)) m (be16 m 2) subtype 44 nothing_seen none)
          ≡ decoded code at)
unfolding find_tlv
find_tlv_cases m received domain own subtype code at h = ground arith

-- What is found is a whole TLV of the kind looked for, inside a Signaling message of this domain that is
-- addressed to this port or to all and was sent by another clock; the message is all received.
pub find_tlv_sound :
    (m : Bytes) (received domain : ℕ) (own : Bytes) (subtype code at : ℕ)
    → find_tlv (some m) received domain (some own) subtype ≡ decoded code at
    → (code ≡ 1)
      × IsTlv m (be16 m 2) subtype at
      × (be16 m 2 ≤ received)
      × (byte m 0 ≡ 0x1c)
      × (byte m 4 ≡ domain)
      × ((slice m 34 10 ≡ replicate 10 255) ⊎ (slice m 34 10 ≡ own))
      × (slice m 20 8 ≢ take 8 own)
find_tlv_sound m received domain own subtype code at h =
    let (whole, to_us, found) = find_tlv_cases m received domain own subtype code at h in
    let (one, result) =
      walk_result_lem (walk (suc (be16 m 2)) m (be16 m 2) subtype 44 nothing_seen none) code at
        found in
    let tlv =
      walk_sound (suc (be16 m 2)) m (be16 m 2) subtype 44 nothing_seen none at (omega arith)
        (λ q. absurd (cc q)) result in
    let (signaling, here, target, other) = addressed_sound m domain own to_us in
    (one, tlv, whole, signaling, here, target, other)
