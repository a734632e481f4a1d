-- ===== src/Daemon/LiteTlv.antt =====
-- The AVB Lite TLVs of ptp.c: ptp_find_lite_tlv and the Endpoint Declaration.
use esp_ptp.Base.{
  ℕ, zero, suc, ◌+◌, ◌-◌, ◌*◌, ◌/◌, ◌%◌, ◌^◌, ◌≤◌, ◌<◌, Bool, true, false, not, ◌&&◌, ◌||◌,
  if◌then◌else◌, ◌==◌, ltb, leb, ◌≡◌, refl, sym, ap, ◌∙◌, ◌≢◌, ◌↔◌, ◌⊎◌, inl, inr, Option, none,
  some, List, [], ◌∷◌, ◌++◌, map, arith, Bool-cases, Option-cases, ==_iff, length, get_or,
  get_elem?, set, take, drop, replicate, length-set, length-append, length-take, length-drop,
  length-replicate, length-map, take-append-drop,
}
use esp_ptp.Base.Int.{
  ℤ, pos, negsuc, neg, pos_part, neg_part, sub_ℕ, ◌+ℤ◌, ◌-ℤ◌, ◌*ℤ◌, lt_ℤ, le_ℤ, ◌==ℤ◌, ◌≤ℤ◌, ◌<ℤ◌,
  int64_max, int32_max, quot, rem, wrap, signed, min_ℤ, max_ℤ, int_laws, +ℤ_parts, -ℤ_parts,
  eq_of_parts,
}
use esp_ptp.Base.Word.{u8, u16, u32, uint16_max, next_nonzero}
use esp_ptp.Base.Bytes.{
  Bytes, byte, same, same_iff, same_refl, slice, be16, zeros, copy, fill, byte-set, byte-fill,
  byte-copy, length-fill, length-copy, byte-take, byte-drop, byte_past, slice-copy, bytes_ext,
}
mod Tests

-- PTP_ENDPOINT_DECL_TLV_ORG_ID_BYTES
abbrev pub org_id : Bytes
org_id = 0x8c ∷ 0x1f ∷ 0x64 ∷ []

-- PTP_ENDPOINT_DECL_TLV_SUBTYPE_BYTES
abbrev pub endpoint_subtype : Bytes
endpoint_subtype = 0x36 ∷ 0xc0 ∷ 0x01 ∷ []

-- PTP_GM_LINK_TLV_SUBTYPE_BYTES
abbrev pub gm_link_subtype : Bytes
gm_link_subtype = 0x36 ∷ 0xc0 ∷ 0x04 ∷ []

-- How the loop of ptp_find_lite_tlv ends: at the offset of a value, or without one.
pub data Search : Type 0 where
  unfinished absent : Search
  value_at : ℕ → Search

-- The TLV at `offset`, whose length is `n`, is the one looked for.
pub is_wanted : Bytes → ℕ → ℕ → Bytes → ℕ → Bool
is_wanted m offset n subtype min_len =
    (be16 m offset == 0x0003 || be16 m offset == 0x8000)
    && leb min_len n
    && leb 6 n
    && same (slice m (offset + 4) 3) org_id
    && same (slice m (offset + 7) 3) subtype

-- The loop of ptp_find_lite_tlv, on fuel.
pub search : ℕ → Bytes → ℕ → ℕ → Bytes → ℕ → Search
search zero m total offset subtype min_len = unfinished
search (suc fuel) m total offset subtype min_len =
    let n = be16 m (offset + 2) in
    let rest = search fuel m total (offset + 4 + n) subtype min_len in
    if ltb total (offset + 4)
    then absent
    else if ltb total (offset + 4 + n)
    then absent
    else if is_wanted m offset n subtype min_len
    then value_at (offset + 4)
    else rest

-- ptp_find_lite_tlv: the offset of the value
pub find_lite_tlv : Bytes → ℕ → ℕ → Bytes → ℕ → Option ℕ
find_lite_tlv m total base subtype min_len =
    elim (search (suc total) m total base subtype min_len) [
      | unfinished ↦ none
      | absent ↦ none
      | value_at i ↦ some i
    ]

-- ptp_msg_has_endpoint_decl_tlv
pub has_endpoint_decl : Bytes → ℕ → ℕ → Bool
has_endpoint_decl m total base = elim (find_lite_tlv m total base endpoint_subtype 7) [
  | none ↦ false
  | some i ↦ byte m (i + 6) == 1
]

-- The bytes of struct ptp_endpoint_decl_tlv_s.
abbrev pub endpoint_decl : Bytes
endpoint_decl = 0x80 ∷ 0 ∷ 0 ∷ 8 ∷ 0x8c ∷ 0x1f ∷ 0x64 ∷ 0x36 ∷ 0xc0 ∷ 0x01 ∷ 1 ∷ 0 ∷ []

-- ptp_append_endpoint_decl_tlv: the buffer, and the bytes added
pub append_endpoint_decl : Bytes → ℕ → Bytes × ℕ
append_endpoint_decl m base = (copy m base endpoint_decl, 12)

-- With more fuel than bytes left the loop ends by one of its own exits.
pub search_finished :
    (fuel : ℕ) (m : Bytes) (total offset : ℕ) (subtype : Bytes) (min_len : ℕ)
    → 1 ≤ fuel
    → total - offset < fuel
    → search fuel m total offset subtype min_len ≢ unfinished
unfolding search
search_finished zero m total offset subtype min_len l h = absurd (omega arith)
search_finished (suc fuel) m total offset subtype min_len l h =
    ground (arith, search_finished fuel m total (offset + 4 + be16 m (offset + 2)) subtype min_len)

-- A value of the organisation and subtype looked for that stands inside a message.
abbrev pub IsValue : Bytes → ℕ → Bytes → ℕ → ℕ → Type 0
IsValue m total subtype min_len i =
    (i + min_len ≤ total) × (i + 6 ≤ total) × (slice m i 3 ≡ org_id) × (slice m (i + 3) 3 ≡ subtype)

wanted-IsValue :
    (m : Bytes) (total offset : ℕ) (subtype : Bytes) (min_len : ℕ)
    → is_wanted m offset (be16 m (offset + 2)) subtype min_len ≡ true
    → ltb total (offset + 4 + be16 m (offset + 2)) ≡ false
    → IsValue m total subtype min_len (offset + 4)
unfolding is_wanted
wanted-IsValue m total offset subtype min_len w l =
    let e : offset + 4 + 3 ≡ offset + 7 = omega arith in
    rw e (
      ground (
        arith,
        same_iff (slice m (offset + 4) 3) org_id,
        same_iff (slice m (offset + 7) 3) subtype,
      ))

search_sound :
    (fuel : ℕ) (m : Bytes) (total offset : ℕ) (subtype : Bytes) (min_len i : ℕ)
    → search fuel m total offset subtype min_len ≡ value_at i
    → (offset + 4 ≤ i) × IsValue m total subtype min_len i
unfolding search
search_sound zero m total offset subtype min_len i h = ground arith
search_sound (suc fuel) m total offset subtype min_len i h = ground (
  arith,
  search_sound fuel m total (offset + 4 + be16 m (offset + 2)) subtype min_len i,
  wanted-IsValue m total offset subtype min_len,
)

-- The value that is found stands in the message behind its body, is at least as long as asked for, and
-- carries the organisation and the subtype looked for.
pub find_lite_tlv_sound :
    (m : Bytes) (total base : ℕ) (subtype : Bytes) (min_len i : ℕ)
    → find_lite_tlv m total base subtype min_len ≡ some i
    → (base + 4 ≤ i)
      × (i + min_len ≤ total)
      × (i + 6 ≤ total)
      × (slice m i 3 ≡ org_id)
      × (slice m (i + 3) 3 ≡ subtype)
unfolding find_lite_tlv
find_lite_tlv_sound m total base subtype min_len i h =
    ground (arith, search_sound (suc total) m total base subtype min_len i)

module _ (m : Bytes) (base : ℕ) (fits : base + 12 ≤ length m) where
  abbrev m' : Bytes
  m' = copy m base endpoint_decl

  type_at : be16 m' base ≡ 0x8000
  type_at =
      ground (arith, byte-copy m base endpoint_decl base, byte-copy m base endpoint_decl (base + 1))

  size_at : be16 m' (base + 2) ≡ 8
  size_at =
      let e : base + 2 + 1 ≡ base + 3 = omega arith in
      rw e (
        ground (
          arith,
          byte-copy m base endpoint_decl (base + 2),
          byte-copy m base endpoint_decl (base + 3),
        ))

  seq_at : byte m' (base + 10) ≡ 1
  seq_at = ground (arith, byte-copy m base endpoint_decl (base + 10))

  wanted_at : is_wanted m' base (be16 m' (base + 2)) endpoint_subtype 7 ≡ true
  unfolding is_wanted same
  wanted_at =
      rw
        (
          type_at,
          size_at,
          slice-copy m base endpoint_decl 4 3 fits (omega arith),
          slice-copy m base endpoint_decl 7 3 fits (omega arith),
        )
        refl

  search_at :
      (fuel : ℕ) → search (suc fuel) m' (base + 12) base endpoint_subtype 7 ≡ value_at (base + 4)
  unfolding search
  search_at fuel = ground (arith, size_at, wanted_at)

-- An Endpoint Declaration that was appended to a message of any body length is found in it.
pub has-append_endpoint_decl :
    (m : Bytes) (base : ℕ)
    → base + 12 ≤ length m
    → let (m', n) = append_endpoint_decl m base in has_endpoint_decl m' (base + n) base ≡ true
unfolding append_endpoint_decl has_endpoint_decl find_lite_tlv
has-append_endpoint_decl m base h =
    let e : base + 4 + 6 ≡ base + 10 = omega arith in
    ground (arith, search_at m base h (base + 12), e, seq_at m base h)
