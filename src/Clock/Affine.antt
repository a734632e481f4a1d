-- ===== src/Clock/Affine.antt =====
-- ptp_clock_affine.h: the affine map from the local timer to PTP time. Times are int64_t nanoseconds;
-- the sums are exact, as they are while they fit.
use esp_ptp.Base.{
  ℕ, zero, suc, ◌+◌, ◌-◌, ◌*◌, ◌/◌, ◌%◌, ◌^◌, ◌≤◌, ◌<◌, Bool, true, false, not, ◌&&◌, ◌||◌,
  if◌then◌else◌, ◌==◌, ltb, leb, ◌≡◌, refl, sym, ap, ◌∙◌, ◌≢◌, ◌↔◌, ◌⊎◌, inl, inr, Option, none,
  some, List, [], ◌∷◌, ◌++◌, map, arith, Bool-cases, Option-cases, ==_iff, length, get_or,
  get_elem?, set, take, drop, replicate, length-set, length-append, length-take, length-drop,
  length-replicate, length-map, take-append-drop,
}
use esp_ptp.Base.Int.{
  ℤ, pos, negsuc, neg, pos_part, neg_part, sub_ℕ, ◌+ℤ◌, ◌-ℤ◌, ◌*ℤ◌, lt_ℤ, le_ℤ, ◌==ℤ◌, ◌≤ℤ◌, ◌<ℤ◌,
  int64_max, int32_max, quot, rem, wrap, signed, min_ℤ, max_ℤ, int_laws, +ℤ_parts, -ℤ_parts,
  eq_of_parts,
}
use esp_ptp.Base.Word.{u8, u16, u32, uint16_max, next_nonzero}
use esp_ptp.Base.Bytes.{
  Bytes, byte, same, same_iff, same_refl, slice, be16, zeros, copy, fill, byte-set, byte-fill,
  byte-copy, length-fill, length-copy, byte-take, bytes_ext,
}
pub mod Laws
mod Tests

-- ptp_clock_affine_t
pub record Clock : Type 0 where
  pub local_ns : ℤ
  pub ptp_ns : ℤ
  pub rate_ppb : ℤ

abbrev pub billion : ℤ
billion = pos 1000000000

-- ptp_clock_rate_correction
pub rate_correction : ℤ → ℤ → ℤ
rate_correction delta rate = quot delta billion *ℤ rate +ℤ quot (rem delta billion *ℤ rate) billion

-- ptp_clock_affine_now
pub affine_now : Clock → ℤ → ℤ
affine_now c local =
    let delta = local -ℤ c.local_ns in c.ptp_ns +ℤ delta +ℤ rate_correction delta c.rate_ppb

-- ptp_clock_affine_reanchor
pub reanchor : Clock → ℤ → ℤ → Clock
reanchor c local offset = record c { ptp_ns = affine_now c local +ℤ offset; local_ns = local }

-- `if (x > limit) x = limit; if (x < -limit) x = -limit;`
abbrev pub clamp : ℕ → ℤ → ℤ
clamp limit x =
    let y = if lt_ℤ (pos limit) x then pos limit else x in
    if lt_ℤ y (neg limit) then neg limit else y

-- ptp_clock_affine_adjust_rate
pub adjust_rate : Clock → ℤ → ℤ → Clock
adjust_rate c local adjustment =
    let a = reanchor c local (pos 0) in
    let rate = a.rate_ppb +ℤ (quot (a.rate_ppb *ℤ adjustment) billion +ℤ adjustment) in
    record a { rate_ppb = clamp 100000000 rate }

-- The time that ptp_clock_affine_discipline aims at.
pub target : ℤ → ℤ → ℤ → ℤ → ℤ
target now local_anchor reference_anchor rate =
    let elapsed = now -ℤ local_anchor in reference_anchor +ℤ elapsed +ℤ rate_correction elapsed rate

-- ptp_clock_affine_discipline: the clock, and what it writes to `phase_error`
pub discipline : Clock → ℤ → ℤ → ℤ → ℤ → Bool → Clock × ℤ
discipline c now local_anchor reference_anchor rate step =
    let goal = target now local_anchor reference_anchor rate in
    let actual = affine_now c now in
    let error = goal -ℤ actual in
    let applied = if step then rate else rate +ℤ clamp 200000 error in
    (
      record {
        local_ns = now;
        ptp_ns = if step then goal else actual;
        rate_ppb = clamp 512000 applied;
      },
      error,
    )
