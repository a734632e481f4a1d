-- ===== src/Clock/WiredPi.antt =====
-- ptp_wired_pi.h: the proportional-integral trim of the wired clock.
use esp_ptp.Base.{
  ℕ, zero, suc, ◌+◌, ◌-◌, ◌*◌, ◌/◌, ◌%◌, ◌^◌, ◌≤◌, ◌<◌, Bool, true, false, not, ◌&&◌, ◌||◌,
  if◌then◌else◌, ◌==◌, ltb, leb, ◌≡◌, refl, sym, ap, ◌∙◌, ◌≢◌, ◌↔◌, ◌⊎◌, inl, inr, Option, none,
  some, List, [], ◌∷◌, ◌++◌, map, arith, Bool-cases, Option-cases, ==_iff, length, get_or,
  get_elem?, set, take, drop, replicate, length-set, length-append, length-take, length-drop,
  length-replicate, length-map, take-append-drop,
}
use esp_ptp.Base.Int.{
  ℤ, pos, negsuc, neg, pos_part, neg_part, sub_ℕ, ◌+ℤ◌, ◌-ℤ◌, ◌*ℤ◌, lt_ℤ, le_ℤ, ◌==ℤ◌, ◌≤ℤ◌, ◌<ℤ◌,
  int64_max, int32_max, quot, rem, wrap, signed, min_ℤ, max_ℤ, int_laws, +ℤ_parts, -ℤ_parts,
  eq_of_parts,
}
use esp_ptp.Base.Word.{u8, u16, u32, uint16_max, next_nonzero}
use esp_ptp.Base.Bytes.{
  Bytes, byte, same, same_iff, same_refl, slice, be16, zeros, copy, fill, byte-set, byte-fill,
  byte-copy, length-fill, length-copy, byte-take, bytes_ext,
}
use esp_ptp.Clock.Affine.{clamp}
pub mod Laws

abbrev pub trim_limit : ℕ
trim_limit = 512000

-- The interval, from 1 ms to 4 s, and the offset, within a second, that the step goes by.
abbrev pub bounded_interval : ℤ → ℤ
bounded_interval interval =
    let i = if lt_ℤ interval (pos 1000000) then pos 1000000 else interval in
    if lt_ℤ (pos 4000000000) i then pos 4000000000 else i

abbrev pub bounded_offset : ℤ → ℤ
bounded_offset offset = clamp 1000000000 offset

-- The proportional part, and the numerator and denominator of the integral's increment.
pub proportional : ℤ → ℤ → ℤ
proportional offset interval =
    if le_ℤ interval (pos 250000000)
    then offset *ℤ pos 4
    else quot (offset *ℤ pos 1000000000) interval

pub numerator : ℤ → ℤ → ℤ
numerator offset interval =
    if le_ℤ interval (pos 250000000) then offset *ℤ interval else offset *ℤ pos 250000000

pub denominator : ℤ → ℤ
denominator interval = if le_ℤ interval (pos 250000000) then pos 250000000 else interval

-- num / den in units of 2 ^ -16, in two parts.
pub scaled_ratio : ℤ → ℤ → ℤ
scaled_ratio num den = quot num den *ℤ pos 65536 +ℤ quot (rem num den *ℤ pos 65536) den

-- The trim once the parts are known: the new integral and the output.
pub settle : ℤ → ℤ → ℤ → ℤ → ℤ × ℤ
settle integral offset part increment =
    let candidate = clamp (trim_limit * 65536) (integral +ℤ increment) in
    let goal = part +ℤ quot candidate (pos 65536) in
    let kept =
      if lt_ℤ (pos trim_limit) goal && lt_ℤ (pos 0) offset
        || lt_ℤ goal (neg trim_limit) && lt_ℤ offset (pos 0)
      then integral
      else candidate in
    (kept, clamp trim_limit (part +ℤ quot kept (pos 65536)))

-- ptp_wired_pi_step: the new integral and the output in ppb
pub wired_pi_step : ℤ → ℤ → ℤ → ℤ × ℤ
wired_pi_step integral offset interval =
    let i = bounded_interval interval in
    let o = bounded_offset offset in
    settle integral o (proportional o i) (scaled_ratio (numerator o i) (denominator i))

-- ptp_trim_relative_delta
pub trim_relative_delta : ℤ → ℤ → ℤ
trim_relative_delta previous target =
    quot ((target -ℤ previous) *ℤ pos 1000000000) (pos 1000000000 +ℤ previous)
