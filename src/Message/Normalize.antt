-- ===== src/Message/Normalize.antt =====
-- ptp_gptp_wire.h: the fields of a transmitted gPTP message that are set to their fixed values.
use esp_ptp.Base.{
  ℕ, zero, suc, ◌+◌, ◌-◌, ◌*◌, ◌/◌, ◌%◌, ◌^◌, ◌≤◌, ◌<◌, Bool, true, false, not, ◌&&◌, ◌||◌,
  if◌then◌else◌, ◌==◌, ltb, leb, ◌≡◌, refl, sym, ap, ◌∙◌, ◌≢◌, ◌↔◌, ◌⊎◌, inl, inr, Option, none,
  some, List, [], ◌∷◌, ◌++◌, map, arith, Bool-cases, Option-cases, ==_iff, length, get_or,
  get_elem?, set, take, drop, replicate, length-set, length-append, length-take, length-drop,
  length-replicate, length-map, take-append-drop,
}
use esp_ptp.Base.Int.{
  ℤ, pos, negsuc, neg, pos_part, neg_part, sub_ℕ, ◌+ℤ◌, ◌-ℤ◌, ◌*ℤ◌, lt_ℤ, le_ℤ, ◌==ℤ◌, ◌≤ℤ◌, ◌<ℤ◌,
  int64_max, int32_max, quot, rem, wrap, signed, min_ℤ, max_ℤ, int_laws, +ℤ_parts, -ℤ_parts,
  eq_of_parts,
}
use esp_ptp.Base.Word.{u8, u16, u32, uint16_max, next_nonzero}
use esp_ptp.Base.Bytes.{
  Bytes, byte, same, same_iff, same_refl, slice, be16, zeros, copy, fill, byte-set, byte-fill,
  byte-copy, length-fill, length-copy, byte-take, bytes_ext,
}
mod Laws

-- The fixed fields of the header. The shifted minor version has no low bits, so `| 2` adds 2.
normalize_header : Bytes → ℕ → Bytes
normalize_header m minor = set (fill (set (set m 1 (u8 (minor * 16) + 2)) 5 0) 16 0 4) 32 0

-- The fixed fields of the body of an Announce, a Pdelay_Req and a two-step Sync.
normalize_body : Bytes → ℕ → Bytes
normalize_body m n =
    let type = byte m 0 % 16 in
    if type == 11 && leb 64 n
    then set (fill m 34 0 10) 46 0
    else if type == 2 && leb 54 n
    then fill m 34 0 20
    else if type == 0 && (byte m 6 / 2) % 2 == 1 && leb 44 n
    then fill m 34 0 10
    else m

-- ptp_gptp_wire_normalize; `none` is a NULL message.
pub normalize : Option Bytes → ℕ → Bool → ℕ → Option Bytes
normalize none n gptp minor = none
normalize (some m) n gptp minor =
    let h = normalize_header m minor in
    if not gptp || ltb n 34
    then some m
    else some (normalize_body (if byte h 0 % 16 == 12 then set h 33 0x7f else h) n)
