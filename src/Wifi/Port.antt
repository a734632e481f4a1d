-- ===== src/Wifi/Port.antt =====
-- ptp_wifi_association.h: the port numbers of the associations of a Wi-Fi port.
use esp_ptp.Base.{
  ℕ, zero, suc, ◌+◌, ◌-◌, ◌*◌, ◌/◌, ◌%◌, ◌^◌, ◌≤◌, ◌<◌, Bool, true, false, not, ◌&&◌, ◌||◌,
  if◌then◌else◌, ◌==◌, ltb, leb, ◌≡◌, refl, sym, ap, ◌∙◌, ◌≢◌, ◌↔◌, ◌⊎◌, inl, inr, Option, none,
  some, List, [], ◌∷◌, ◌++◌, map, arith, Bool-cases, Option-cases, ==_iff, length, get_or,
  get_elem?, set, take, drop, replicate, length-set, length-append, length-take, length-drop,
  length-replicate, length-map, take-append-drop,
}
use esp_ptp.Base.Int.{
  ℤ, pos, negsuc, neg, pos_part, neg_part, sub_ℕ, ◌+ℤ◌, ◌-ℤ◌, ◌*ℤ◌, lt_ℤ, le_ℤ, ◌==ℤ◌, ◌≤ℤ◌, ◌<ℤ◌,
  int64_max, int32_max, quot, rem, wrap, signed, min_ℤ, max_ℤ, int_laws, +ℤ_parts, -ℤ_parts,
  eq_of_parts,
}
use esp_ptp.Base.Word.{u8, u16, u32, uint16_max, next_nonzero}
use esp_ptp.Base.Bytes.{
  Bytes, byte, same, same_iff, same_refl, slice, be16, zeros, copy, fill, byte-set, byte-fill,
  byte-copy, length-fill, length-copy, byte-take, bytes_ext,
}
mod Tests

-- PTP_WIFI_ASSOCIATIONS_MAX
abbrev pub associations_max : ℕ
associations_max = 16

-- ptp_wifi_association_port; the sum is below 2 ^ 16 where it is computed.
pub association_port : ℕ → ℕ → ℕ → ℕ
association_port physical count slot =
    if physical == 0
      || ltb count physical
      || ltb (uint16_max / associations_max) count
      || leb associations_max slot
    then 0
    else if slot == 0
    then physical
    else count + (physical - 1) * (associations_max - 1) + slot

unequal_blocks : (p q s t : ℕ) → s < 15 → t < 15 → p * 15 + s ≡ q * 15 + t → (p ≡ q) × (s ≡ t)
unequal_blocks p q s t hs ht h = (omega arith, omega arith)

-- Every physical port and slot in range has a port number of its own: it is 0 exactly out of range,
-- fits in 16 bits, and no two associations share one.
pub association_port_unique :
    (count p s q t : ℕ)
    → let n = association_port p count s in
      ((n ≡ 0) ↔ ((p ≡ 0) ⊎ (count < p) ⊎ (4095 < count) ⊎ (16 ≤ s)))
      × (n ≤ uint16_max)
      × ((n ≡ 0) ⊎ (n ≢ association_port q count t) ⊎ (p ≡ q) × (s ≡ t))
unfolding association_port
association_port_unique count p s q t =
    ground (arith, unequal_blocks (p - 1) (q - 1) (s - 1) (t - 1))
