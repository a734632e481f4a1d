-- ===== src/Message/Signaling/Local.antt =====
-- Which bytes the decoding of a Signaling message reads.
use esp_ptp.Base.{
  ℕ, zero, suc, ◌+◌, ◌-◌, ◌≤◌, true, if◌then◌else◌, ◌==◌, ltb, leb, ◌≡◌, refl, ap, inl, inr, Option,
  none, some, arith, Bool-cases, take,
}
use esp_ptp.Base.Bytes.{Bytes, byte, be16, byte-take, slice-take, be16-take}
use esp_ptp.Message.Signaling.{
  Decoded, malformed, ignored, decoded, Seen, nothing_seen, mark_kind, organisation, expected_body,
  known, walk, addressed, find_tlv, capable_at, interval_at, decode_with, read_capable_tlv,
  read_message_interval, read_capable, read_capable_interval,
}
use esp_ptp.Message.Signaling.Decode.{find_tlv_sound}

known-take :
    (k : ℕ) (m : Bytes) (at body : ℕ)
    → at + 4 + body ≤ k
    → known (take k m) at body ≡ known m at body
unfolding known organisation
known-take k m at body h = elim (Bool-cases (leb 6 body)) [
  | inl e ↦ rw (
    be16-take k m at (ground arith),
    byte-take k m (at + 4) (ground arith),
    byte-take k m (at + 5) (ground arith),
    byte-take k m (at + 6) (ground arith),
    byte-take k m (at + 7) (ground arith),
    byte-take k m (at + 8) (ground arith),
    byte-take k m (at + 9) (ground arith),
  )
  | inr e ↦ rw e
]

known_room : (m : Bytes) (at body : ℕ) → known m at body ≡ true → 6 ≤ body
unfolding known organisation
known_room m at body h = ground arith

walk-take :
    (fuel k : ℕ) (m : Bytes) (len subtype at : ℕ) (seen : Seen) (result : Option ℕ)
    → len ≤ k
    → walk fuel (take k m) len subtype at seen result ≡ walk fuel m len subtype at seen result
unfolding walk
walk-take zero k m len subtype at seen result h = refl
walk-take (suc fuel) k m len subtype at seen result h = elim (Bool-cases (leb len at)) [
  | inl e ↦ rw e
  | inr e ↦ elim (Bool-cases (ltb (len - at) 4)) [
    | inl f ↦ rw (e, f)
    | inr f ↦
        let body = be16 m (at + 2) in
        let kind = byte m (at + 9) in
        rw (e, f, be16-take k m (at + 2) (ground arith))
          (elim (Bool-cases (ltb (len - at - 4) body)) [
            | inl g ↦ rw g
            | inr g ↦
                rw
                  (
                    g,
                    known-take k m at body (ground arith),
                    walk-take fuel k m len subtype (at + (body + 4)) seen result h,
                  )
                  (elim (Bool-cases (known m at body)) [
                    | inl i ↦ rw (
                      i,
                      byte-take k m (at + 9) (ground (arith, known_room m at body i)),
                      walk-take fuel k m len subtype (at + (body + 4)) (mark_kind seen kind)
                          (if kind == subtype then some at else result) h,
                    )
                    | inr i ↦ rw i
                  ])
          ])
  ]
]

addressed-take :
    (k : ℕ) (m : Bytes) (domain : ℕ) (own : Bytes)
    → 44 ≤ k
    → addressed (take k m) domain own ≡ addressed m domain own
unfolding addressed
addressed-take k m domain own h = rw (
  byte-take k m 0 (omega arith),
  byte-take k m 1 (omega arith),
  byte-take k m 4 (omega arith),
  byte-take k m 5 (omega arith),
  slice-take k m 34 10 (omega arith),
  slice-take k m 20 8 (omega arith),
)

find_tlv_local :
    (m : Bytes) (received domain : ℕ) (own : Bytes) (subtype : ℕ)
    → find_tlv (some (take received m)) received domain (some own) subtype
      ≡ find_tlv (some m) received domain (some own) subtype
unfolding find_tlv
find_tlv_local m received domain own subtype = elim (Bool-cases (ltb received 44)) [
  | inl e ↦ rw e
  | inr e ↦
      rw (e, be16-take received m 2 (ground arith))
        (elim (Bool-cases (ltb received (be16 m 2))) [
          | inl f ↦ rw f (ground arith)
          | inr f ↦ rw (
            f,
            addressed-take received m domain own (ground arith),
            walk-take (suc (be16 m 2)) received m (be16 m 2) subtype 44 nothing_seen none
                (ground arith),
          )
        ])
]

-- The fields that are read of a TLV that was found lie in the message.
decode_with_congr :
    {A : Type 0} (kind : ℕ) (read read' : ℕ → A) (found : Decoded ℕ)
    → ((code at : ℕ) → found ≡ decoded code at → read at ≡ read' at)
    → decode_with kind read found ≡ decode_with kind read' found
unfolding decode_with
decode_with_congr kind read read' malformed h = refl
decode_with_congr kind read read' ignored h = refl
decode_with_congr kind read read' (decoded code at) h = ap (decoded kind) (h code at refl)

-- A TLV that was found ends within the received bytes.
find_tlv_room :
    (m : Bytes) (received domain : ℕ) (own : Bytes) (subtype code at : ℕ)
    → find_tlv (some m) received domain (some own) subtype ≡ decoded code at
    → (30 ≤ received) × (at + 4 + expected_body subtype ≤ received)
find_tlv_room m received domain own subtype code at h =
    let f = find_tlv_sound m received domain own subtype code at h in
    (omega (arith, f.1, f.2), omega (arith, f.1, f.2))

capable_local :
    (m : Bytes) (received domain : ℕ) (own : Bytes) (subtype kind : ℕ)
    → 10 ≤ expected_body subtype
    → read_capable_tlv (take received m) received domain own subtype kind
      ≡ read_capable_tlv m received domain own subtype kind
unfolding read_capable_tlv capable_at
capable_local m received domain own subtype kind b =
    rw (find_tlv_local m received domain own subtype) (
      decode_with_congr kind (capable_at (take received m)) (capable_at m)
        (find_tlv (some m) received domain (some own) subtype)
        λ code at e.
          let (head, room) = find_tlv_room m received domain own subtype code at e in
          rw (slice-take received m 20 10 head, byte-take received m (at + 10) (omega arith)))

-- No decoder depends on anything past the received bytes.
pub read_local :
    (m : Bytes) (received domain : ℕ) (own : Bytes)
    → (read_capable (take received m) received domain own ≡ read_capable m received domain own)
      × (read_capable_interval (take received m) received domain own
          ≡ read_capable_interval m received domain own)
      × (read_message_interval (take received m) received domain own
          ≡ read_message_interval m received domain own)
unfolding read_capable read_capable_interval read_message_interval interval_at expected_body
read_local m received domain own = (
  capable_local m received domain own 4 1 (omega arith),
  capable_local m received domain own 5 2 (omega arith),
  rw (find_tlv_local m received domain own 2) (
      decode_with_congr 3 (interval_at (take received m)) (interval_at m)
        (find_tlv (some m) received domain (some own) 2)
        λ code at e.
          let (head, room) = find_tlv_room m received domain own 2 code at e in
          rw (
            slice-take received m 20 10 head,
            byte-take received m (at + 10) (omega arith),
            byte-take received m (at + 11) (omega arith),
            byte-take received m (at + 12) (omega arith),
            byte-take received m (at + 13) (omega arith),
          )),
)
