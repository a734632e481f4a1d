-- ===== src/Clock/Affine/Laws.antt =====
-- The affine clock: its split rate correction, the changes of its rate, and its order in time.
use esp_ptp.Base.{
  ℕ, suc, ◌+◌, ◌-◌, ◌*◌, ◌/◌, ◌%◌, ◌≤◌, Bool, if◌then◌else◌, ◌≡◌, refl, ap, ◌∙◌, arith,
}
use esp_ptp.Base.Int.{ℤ, pos, negsuc, neg, ◌+ℤ◌, ◌-ℤ◌, ◌*ℤ◌, ◌≤ℤ◌, quot, int_laws}
use native.Mathlib.Nat.{div-add-mod, mul-le-mul_left, mul-le-mul_right}
use esp_ptp.Base.Int.{
  pos-add-pos, neg-add-neg, pos-mul-pos, pos-mul-neg, neg-mul-pos, neg-mul-neg, quot-neg, neg_parts,
}
use esp_ptp.Clock.Affine.{
  Clock, billion, rate_correction, affine_now, reanchor, clamp, adjust_rate, target, discipline,
}

split_product :
    (d r : ℕ) → d / 1000000000 * r + d % 1000000000 * r / 1000000000 ≡ d * r / 1000000000
split_product d r = omega (arith, ap (λ t. t * r) (div-add-mod d 1000000000))

-- The correction that is computed in two parts, so that long holdover does not overflow, is the product
-- of the elapsed time and the rate, divided by a billion and rounded towards zero, for all signs.
pub rate_correction-eq-quot : (d r : ℤ) → rate_correction d r ≡ quot (d *ℤ r) billion
unfolding rate_correction
rate_correction-eq-quot (pos d) (pos r) =
    rw
      (pos-mul-pos (d / 1000000000) r, pos-mul-pos (d % 1000000000) r, pos-mul-pos d r, pos-add-pos)
      (ap pos (split_product d r))
rate_correction-eq-quot (pos d) (negsuc r) =
    rw
      (
        pos-mul-neg (d / 1000000000) (suc r),
        pos-mul-neg (d % 1000000000) (suc r),
        pos-mul-neg d (suc r),
        quot-neg,
        quot-neg,
        neg-add-neg,
      )
      (ap neg (split_product d (suc r)))
rate_correction-eq-quot (negsuc d) (pos r) =
    rw
      (
        neg-mul-pos (suc d / 1000000000) r,
        neg-mul-pos (suc d % 1000000000) r,
        neg-mul-pos (suc d) r,
        quot-neg,
        quot-neg,
        neg-add-neg,
      )
      (ap neg (split_product (suc d) r))
rate_correction-eq-quot (negsuc d) (negsuc r) =
    rw
      (
        neg-mul-neg (suc d / 1000000000) (suc r),
        neg-mul-neg (suc d % 1000000000) (suc r),
        neg-mul-neg (suc d) (suc r),
        pos-add-pos,
      )
      (ap pos (split_product (suc d) (suc r)))

zero_correction : (r : ℤ) → rate_correction (pos 0) r ≡ pos 0
zero_correction (pos r) =
    rw (rate_correction-eq-quot (pos 0) (pos r), pos-mul-pos 0 r) (ground arith)
zero_correction (negsuc r) =
    rw (rate_correction-eq-quot (pos 0) (negsuc r), pos-mul-neg 0 (suc r)) (ground arith)

affine_now_anchor : (c : Clock) → affine_now c c.local_ns ≡ c.ptp_ns
unfolding affine_now
affine_now_anchor c =
    let e : c.local_ns -ℤ c.local_ns ≡ pos 0 = omega int_laws in
    rw (e, zero_correction) (omega int_laws)

clamp_bounds : (limit : ℕ) (x : ℤ) → (neg limit ≤ℤ clamp limit x) × (clamp limit x ≤ℤ pos limit)
clamp_bounds limit x = ground (arith, neg_parts limit)

-- A step by an offset moves the time at that instant by exactly the offset.
pub affine_now-reanchor :
    (c : Clock) (local offset : ℤ)
    → affine_now (reanchor c local offset) local ≡ affine_now c local +ℤ offset
unfolding reanchor
affine_now-reanchor c local offset = affine_now_anchor (reanchor c local offset)

pub rate_ppb-reanchor :
    (c : Clock) (local offset : ℤ) → (reanchor c local offset).rate_ppb ≡ c.rate_ppb
unfolding reanchor
rate_ppb-reanchor c local offset = refl

-- A change of rate leaves the time at its instant unchanged, and the rate within 10 percent.
pub adjust_rate_continuous :
    (c : Clock) (local adjustment : ℤ)
    → let c' = adjust_rate c local adjustment in
      (affine_now c' local ≡ affine_now c local)
      × (c'.local_ns ≡ local)
      × (neg 100000000 ≤ℤ c'.rate_ppb)
      × (c'.rate_ppb ≤ℤ pos 100000000)
unfolding adjust_rate reanchor
adjust_rate_continuous c local adjustment =
    let r = c.rate_ppb +ℤ (quot (c.rate_ppb *ℤ adjustment) billion +ℤ adjustment) in
    (
      affine_now_anchor (adjust_rate c local adjustment) ∙ omega int_laws,
      refl,
      (clamp_bounds 100000000 r).0,
      (clamp_bounds 100000000 r).1,
    )

-- Disciplining keeps the rate within 512 ppm. A step puts the clock on the target at once; otherwise
-- the time is continuous, and the rate is the given one trimmed by the phase error, at most 200 ppm.
pub discipline_result :
    (c : Clock) (now local_anchor reference_anchor rate : ℤ) (step : Bool)
    → let (c', error) = discipline c now local_anchor reference_anchor rate step in
      (affine_now c now +ℤ error ≡ target now local_anchor reference_anchor rate)
      × (affine_now c' now
          ≡ (if step then target now local_anchor reference_anchor rate else affine_now c now))
      × (neg 512000 ≤ℤ c'.rate_ppb)
      × (c'.rate_ppb ≤ℤ pos 512000)
      × (c'.rate_ppb ≡ clamp 512000 (if step then rate else rate +ℤ clamp 200000 error))
unfolding discipline
discipline_result c now local_anchor reference_anchor rate step =
    let c' = (discipline c now local_anchor reference_anchor rate step).0 in
    let error = (discipline c now local_anchor reference_anchor rate step).1 in
    let bounds = clamp_bounds 512000 (if step then rate else rate +ℤ clamp 200000 error) in
    (omega int_laws, affine_now_anchor c', bounds.0, bounds.1, refl)

below_elapsed : (d r : ℕ) → r ≤ 1000000000 → d * r / 1000000000 ≤ d
below_elapsed d r h = omega (arith, mul-le-mul_left d h)

-- How far the clock advances in the elapsed time d, by the signs of d and the rate.
forward_fast : (d r : ℕ) → pos d +ℤ rate_correction (pos d) (pos r) ≡ pos (d + d * r / 1000000000)
forward_fast d r = rw (rate_correction-eq-quot (pos d) (pos r), pos-mul-pos d r, pos-add-pos)

forward_slow :
    (d r : ℕ)
    → r ≤ 1000000000
    → pos d +ℤ rate_correction (pos d) (neg r) ≡ pos (d - d * r / 1000000000)
forward_slow d r h =
    rw (rate_correction-eq-quot (pos d) (neg r), pos-mul-neg d r, quot-neg (d * r) 1000000000)
      (omega (int_laws, neg_parts (d * r / 1000000000), below_elapsed d r h))

backward_fast : (d r : ℕ) → neg d +ℤ rate_correction (neg d) (pos r) ≡ neg (d + d * r / 1000000000)
backward_fast d r = rw (
  rate_correction-eq-quot (neg d) (pos r),
  neg-mul-pos d r,
  quot-neg (d * r) 1000000000,
  neg-add-neg,
)

backward_slow :
    (d r : ℕ)
    → r ≤ 1000000000
    → neg d +ℤ rate_correction (neg d) (neg r) ≡ neg (d - d * r / 1000000000)
backward_slow d r h =
    rw (rate_correction-eq-quot (neg d) (neg r), neg-mul-neg d r)
      (omega (int_laws, neg_parts d, neg_parts (d - d * r / 1000000000), below_elapsed d r h))

slow_mono : (d e r : ℕ) → r ≤ 1000000000 → d ≤ e → d - d * r / 1000000000 ≤ e - e * r / 1000000000
slow_mono d e r h le =
    let s : e ≡ (e - d) + d = omega arith in
    omega (
      arith,
      below_elapsed d r h,
      below_elapsed e r h,
      mul-le-mul_left (e - d) h,
      ap (λ t. t * r) s,
    )

fast_mono : (d e r : ℕ) → d ≤ e → d + d * r / 1000000000 ≤ e + e * r / 1000000000
fast_mono d e r le = omega (arith, mul-le-mul_right r le)

-- The advance in elapsed times d ≤ e, for every rate within a factor of two.
advance_mono :
    (d e r : ℤ)
    → neg 1000000000 ≤ℤ r
    → r ≤ℤ pos 1000000000
    → d ≤ℤ e
    → d +ℤ rate_correction d r ≤ℤ e +ℤ rate_correction e r
advance_mono (pos d) (pos e) (pos r) lo hi le =
    rw (forward_fast d r, forward_fast e r) (omega (arith, fast_mono d e r (omega arith)))
advance_mono (pos d) (pos e) (negsuc r) lo hi le =
    rw (forward_slow d (suc r) (omega arith), forward_slow e (suc r) (omega arith))
      (omega (arith, slow_mono d e (suc r) (omega arith) (omega arith)))
advance_mono (negsuc d) (pos e) (pos r) lo hi le =
    rw (backward_fast (suc d) r, forward_fast e r)
      (omega (arith, neg_parts (suc d + suc d * r / 1000000000)))
advance_mono (negsuc d) (pos e) (negsuc r) lo hi le =
    rw (backward_slow (suc d) (suc r) (omega arith), forward_slow e (suc r) (omega arith))
      (omega (arith, neg_parts (suc d - suc d * suc r / 1000000000)))
advance_mono (negsuc d) (negsuc e) (pos r) lo hi le =
    rw (backward_fast (suc d) r, backward_fast (suc e) r)
      (omega (
        arith,
        neg_parts (suc d + suc d * r / 1000000000),
        neg_parts (suc e + suc e * r / 1000000000),
        fast_mono (suc e) (suc d) r (omega arith),
      ))
advance_mono (negsuc d) (negsuc e) (negsuc r) lo hi le =
    rw (backward_slow (suc d) (suc r) (omega arith), backward_slow (suc e) (suc r) (omega arith))
      (omega (
        arith,
        neg_parts (suc d - suc d * suc r / 1000000000),
        neg_parts (suc e - suc e * suc r / 1000000000),
        slow_mono (suc e) (suc d) (suc r) (omega arith) (omega arith),
      ))
advance_mono (pos d) (negsuc e) r lo hi le = absurd (omega arith)

-- The disciplined clock never runs backwards: at every rate within +/- 1e9 ppb, and so at every rate
-- that adjust_rate or discipline sets, a later local time gives no earlier time.
pub affine_now_mono :
    (c : Clock) (t u : ℤ)
    → neg 1000000000 ≤ℤ c.rate_ppb
    → c.rate_ppb ≤ℤ pos 1000000000
    → t ≤ℤ u
    → affine_now c t ≤ℤ affine_now c u
unfolding affine_now
affine_now_mono c t u lo hi le =
    omega
      (int_laws, advance_mono (t -ℤ c.local_ns) (u -ℤ c.local_ns) c.rate_ppb lo hi (omega int_laws))
