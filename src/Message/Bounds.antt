-- ===== src/Message/Bounds.antt =====
-- ptp_message_bounds.h: the length of a received message without its Ethernet padding. `x & 15` is
-- `x % 16`, and the upper nibble `x / 16`.
use esp_ptp.Base.{
  ℕ, zero, suc, ◌+◌, ◌-◌, ◌*◌, ◌/◌, ◌%◌, ◌^◌, ◌≤◌, ◌<◌, Bool, true, false, not, ◌&&◌, ◌||◌,
  if◌then◌else◌, ◌==◌, ltb, leb, ◌≡◌, refl, sym, ap, ◌∙◌, ◌≢◌, ◌↔◌, ◌⊎◌, inl, inr, Option, none,
  some, List, [], ◌∷◌, ◌++◌, map, arith, Bool-cases, Option-cases, ==_iff, length, get_or,
  get_elem?, set, take, drop, replicate, length-set, length-append, length-take, length-drop,
  length-replicate, length-map, take-append-drop,
}
use esp_ptp.Base.Int.{
  ℤ, pos, negsuc, neg, pos_part, neg_part, sub_ℕ, ◌+ℤ◌, ◌-ℤ◌, ◌*ℤ◌, lt_ℤ, le_ℤ, ◌==ℤ◌, ◌≤ℤ◌, ◌<ℤ◌,
  int64_max, int32_max, quot, rem, wrap, signed, min_ℤ, max_ℤ, int_laws, +ℤ_parts, -ℤ_parts,
  eq_of_parts,
}
use esp_ptp.Base.Word.{u8, u16, u32, uint16_max, next_nonzero}
use esp_ptp.Base.Bytes.{
  Bytes, byte, same, same_iff, same_refl, slice, be16, zeros, copy, fill, byte-set, byte-fill,
  byte-copy, length-fill, length-copy, byte-take, bytes_ext,
}
mod Tests

-- The shortest body of a message with this first byte.
pub minimum : ℕ → ℕ
minimum first =
    let type = first % 16 in
    if type == 0 || type == 1
    then 44
    else if type == 2 || type == 3 || type == 9 || type == 10
    then 54
    else if type == 8
    then (if first / 16 == 1 then 76 else 44)
    else if type == 11
    then 64
    else if type == 12
    then 44
    else 34

-- ptp_message_bounded_length; `none` is a NULL message.
pub bounded_length : Option Bytes → ℕ → ℕ
bounded_length none received = 0
bounded_length (some m) received =
    if ltb received 34 || not (byte m 1 % 16 == 2)
    then 0
    else if ltb (be16 m 2) (minimum (byte m 0)) || ltb received (be16 m 2)
    then 0
    else be16 m 2

-- A message is taken exactly when it has PTP version 2 and advertises a length that its type allows and
-- that was received; the length taken is the advertised one, at least a header. Any other gives 0.
pub bounded_length_result :
    (m : Bytes) (received : ℕ)
    → let n = bounded_length (some m) received in
      ((n ≡ be16 m 2) × (34 ≤ n) × (minimum (byte m 0) ≤ n) × (n ≤ received) × (byte m 1 % 16 ≡ 2))
      ⊎ (n ≡ 0)
        × ((received < 34)
            ⊎ (byte m 1 % 16 ≢ 2)
            ⊎ (be16 m 2 < minimum (byte m 0))
            ⊎ (received < be16 m 2))
unfolding bounded_length minimum
bounded_length_result m received = ground arith

-- The length depends on nothing past the received bytes.
pub bounded_length_local :
    (m : Bytes) (received : ℕ)
    → bounded_length (some (take received m)) received ≡ bounded_length (some m) received
unfolding bounded_length
bounded_length_local m received = ground (
  arith,
  byte-take received m 0,
  byte-take received m 1,
  byte-take received m 2,
  byte-take received m 3,
)
