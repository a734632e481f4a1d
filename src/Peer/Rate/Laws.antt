-- ===== src/Peer/Rate/Laws.antt =====
-- What the rate of Peer.Rate is after any exchanges.
use esp_ptp.Base.{
  ℕ, ◌+◌, ◌≤◌, Bool, true, false, not, ◌||◌, ◌==◌, ◌≡◌, refl, ◌∙◌, ◌≢◌, ◌⊎◌, inl, inr, none, some,
  arith, Bool-cases, Option-cases,
}
use esp_ptp.Base.Bytes.{Bytes, same, same_iff, same_refl}
use esp_ptp.Peer.Wire.{Timespec}
use esp_ptp.Peer.Rate.{
  Double, Rate, outliers_max, zero_double, is_plausible, fresh, anchor, local_interval, measured,
  fail_interval, continue_rate, rate_update,
}

-- A sample of an exchange: the neighbour's time, the correction and the local time.
pub record Sample (D : Type 0) : Type 0 where
  pub remote : Timespec
  pub correction : D
  pub local : Timespec

module _ {D : Type 0} (F : Double D) where
  -- A rate that is valid is plausible, and few of the last intervals failed; one that is not is zero.
  abbrev pub IsRate : Rate D → Type 0
  IsRate r =
      (r.valid ≡ true) × (is_plausible F r.ratio ≡ true) × (r.outliers ≤ outliers_max)
      ⊎ (r.valid ≡ false) × (r.outliers ≡ 0) × (r.ratio ≡ zero_double F)

  fresh-IsRate : (lifecycle : ℕ) (responder : Bytes) → IsRate (fresh F lifecycle responder)
  unfolding fresh
  fresh-IsRate lifecycle responder = ground arith

  measured_plausible :
      (r : Rate D) (remote : Timespec) (correction : D) (local : Timespec) (ratio : D)
      → measured F r remote correction local ≡ some ratio
      → is_plausible F ratio ≡ true
  unfolding measured
  measured_plausible r remote correction local ratio e = ground (arith, e)

  fail-IsRate :
      (r : Rate D) (local_sound : Bool)
      → IsRate r
      → let (r', ok) = fail_interval F r local_sound in
        IsRate r' × (ok ≡ r'.valid) × (r'.lifecycle ≡ r.lifecycle) × (r'.responder ≡ r.responder)
  unfolding fail_interval
  fail-IsRate r local_sound h = ground (arith, h)

  continue-IsRate :
      (r : Rate D) (s : Sample D)
      → IsRate r
      → let (r', ok) = continue_rate F r s.remote s.correction s.local in
        IsRate r' × (ok ≡ r'.valid) × (r'.lifecycle ≡ r.lifecycle) × (r'.responder ≡ r.responder)
  unfolding continue_rate anchor measured is_plausible zero_double local_interval
  continue-IsRate r s h = elim (Bool-cases r.reanchor) [
    | inl e ↦ rw e (h, refl, refl, refl)
    | inr e ↦ rw e (elim (Option-cases (measured F r s.remote s.correction s.local)) [
      | inl m ↦ rw m (
          fail-IsRate (anchor F r s.remote s.correction s.local)
            (elim (local_interval F r s.local) [ none ↦ false | some elapsed ↦ true ]) h)
      | inr (ratio, m) ↦ rw m (
        inl (refl, measured_plausible r s.remote s.correction s.local ratio m, omega arith),
        refl,
        refl,
        refl,
      )
    ])
  ]

  -- Every update leaves a rate that is between 0.999 and 1.001 where it is valid, with at most three
  -- failed intervals kept over, and zero where it is not, and returns whether it is valid.
  pub rate_update-IsRate :
      (r : Rate D) (lifecycle : ℕ) (responder : Bytes) (s : Sample D)
      → IsRate r
      → let (r', ok) = rate_update F r lifecycle responder s.remote s.correction s.local in
        IsRate r' × (ok ≡ r'.valid) × (r'.lifecycle ≡ lifecycle) × (r'.responder ≡ responder)
  unfolding rate_update fresh
  rate_update-IsRate r lifecycle responder s h =
      elim (Bool-cases (not (r.lifecycle == lifecycle) || not (same r.responder responder))) [
        | inl e ↦
            rw e
              (continue-IsRate (fresh F lifecycle responder) s (fresh-IsRate lifecycle responder))
        | inr e ↦
            let out = continue-IsRate r s h in
            rw e (
              out.0,
              out.1,
              out.2 ∙ (ground arith),
              out.3 ∙ (ground (arith, same_iff r.responder responder)),
            )
      ]

  fail_valid : (r : Rate D) (sound : Bool) → let (r', ok) = fail_interval F r sound in ok ≡ r'.valid
  unfolding fail_interval
  fail_valid r sound = ground arith

  continue_valid :
      (r : Rate D) (remote : Timespec) (correction : D) (local : Timespec)
      → let (r', ok) = continue_rate F r remote correction local in ok ≡ r'.valid
  unfolding continue_rate anchor measured is_plausible zero_double local_interval
  continue_valid r remote correction local = ground (
    arith,
    fail_valid (anchor F r remote correction local)
        (elim (local_interval F r local) [ none ↦ false | some elapsed ↦ true ]),
  )

  -- What an update returns is whether the rate is valid then.
  pub rate_update_valid :
      (r : Rate D) (lifecycle : ℕ) (responder : Bytes) (remote : Timespec) (correction : D)
      (local : Timespec)
      → let (r', ok) = rate_update F r lifecycle responder remote correction local in ok ≡ r'.valid
  unfolding rate_update
  rate_update_valid r lifecycle responder remote correction local = ground (
    arith,
    continue_valid r remote correction local,
    continue_valid (fresh F lifecycle responder) remote correction local,
  )

  -- The first sample of another lifecycle or responder gives no rate.
  pub rate_update_new :
      (r : Rate D) (lifecycle : ℕ) (responder : Bytes) (s : Sample D)
      → (r.lifecycle ≢ lifecycle) ⊎ (r.responder ≢ responder)
      → (rate_update F r lifecycle responder s.remote s.correction s.local).1 ≡ false
  unfolding rate_update continue_rate fresh local_interval measured fail_interval anchor
  rate_update_new r lifecycle responder s h = ground (arith, h, same_iff r.responder responder)

  -- Whether the interval up to a sample Fails, where no step of the local clock waits.
  unfoldable pub Fails : Rate D → Sample D → Type 0
  Fails r s = (r.reanchor ≡ false) × (measured F r s.remote s.correction s.local ≡ none)

  unfoldable pub next : Rate D → Sample D → Rate D
  next r s = (rate_update F r r.lifecycle r.responder s.remote s.correction s.local).0

  next-IsRate : (r : Rate D) (s : Sample D) → IsRate r → IsRate (next r s)
  unfolding next
  next-IsRate r s h = (rate_update-IsRate r r.lifecycle r.responder s h).0

  fail-counts :
      (r : Rate D) (sound : Bool)
      → IsRate r
      → let r' = (fail_interval F r sound).0 in
        (r'.valid ≡ false) ⊎ (r'.valid ≡ true) × (r.valid ≡ true) × (r'.outliers ≡ r.outliers + 1)
  unfolding fail_interval
  fail-counts r sound h = ground (arith, h)

  continue_failure :
      (r : Rate D) (s : Sample D)
      → IsRate r
      → r.reanchor ≡ false
      → measured F r s.remote s.correction s.local ≡ none
      → let r' = (continue_rate F r s.remote s.correction s.local).0 in
        (r'.valid ≡ false) ⊎ (r'.valid ≡ true) × (r.valid ≡ true) × (r'.outliers ≡ r.outliers + 1)
  unfolding continue_rate anchor measured is_plausible zero_double local_interval
  continue_failure r s h e m =
      rw (e, m)
        (fail-counts (anchor F r s.remote s.correction s.local)
          (elim (local_interval F r s.local) [ none ↦ false | some elapsed ↦ true ]) h)

  next-eq :
      (r : Rate D) (s : Sample D) → next r s ≡ (continue_rate F r s.remote s.correction s.local).0
  unfolding next rate_update
  next-eq r s = ground (arith, same_refl r.responder)

  -- A failed interval counts, or ends the rate.
  next-Fails :
      (r : Rate D) (s : Sample D)
      → IsRate r
      → Fails r s
      → ((next r s).valid ≡ false)
        ⊎ ((next r s).valid ≡ true) × (r.valid ≡ true) × ((next r s).outliers ≡ r.outliers + 1)
  unfolding Fails
  next-Fails r s h f = rw (next-eq r s) (continue_failure r s h f.0 f.1)

  -- A neighbour that is off rate for good fails: after four intervals in a row that fail, the rate is
  -- not valid, whatever was measured before.
  pub four_failures :
      (r : Rate D) (a b c d : Sample D)
      → IsRate r
      → Fails r a
      → Fails (next r a) b
      → Fails (next (next r a) b) c
      → Fails (next (next (next r a) b) c) d
      → (next (next (next (next r a) b) c) d).valid ≡ false
  four_failures r a b c d h fa fb fc fd =
      let ha = next-IsRate r a h in
      let hb = next-IsRate (next r a) b ha in
      let hc = next-IsRate (next (next r a) b) c hb in
      ground (
        arith,
        h,
        next-Fails r a h fa,
        next-Fails (next r a) b ha fb,
        next-Fails (next (next r a) b) c hb fc,
        next-Fails (next (next (next r a) b) c) d hc fd,
        next-IsRate (next (next (next r a) b) c) d hc,
      )
