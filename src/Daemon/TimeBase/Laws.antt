-- ===== src/Daemon/TimeBase/Laws.antt =====
-- What stations read in the time base fields of Daemon.TimeBase.
use esp_ptp.Base.{
  ℕ, ◌+◌, ◌-◌, ◌*◌, ◌/◌, ◌^◌, ◌≤◌, ◌<◌, true, false, ◌==◌, ◌≡◌, refl, sym, ap, ◌∙◌, ◌≢◌, ◌⊎◌, inl,
  inr, List, [], ◌∷◌, arith, Bool-cases, length, take,
}
use esp_ptp.Base.Int.{ℤ, pos, neg, ◌-ℤ◌, ◌*ℤ◌, ◌≤ℤ◌, int64_max, signed}
use esp_ptp.Base.Word.{u8, u16}
use esp_ptp.Base.Bytes.{
  Bytes, byte, same, same_iff, same_refl, be16, zeros, be16-take, copy, byte-copy,
}
use mathlib.Core.Path.{subst}
use esp_ptp.Daemon.Times.{scaled_ns_from_ns, be64, scaled_ns_from_ns_value}
use esp_ptp.Daemon.TimeBase.{
  gm_fields_len, Inputs, TimeBase, is_relaying, own_indicator, gather, is_changed, publish,
  keep_phase, settle, fill_gm_fields,
}

-- lastGmPhaseChange of the fields, in 2 ^ -16 ns.
abbrev pub phase_of : Bytes → ℤ
phase_of b = signed (2 ^ 95) (be16 b 2 * 2 ^ 80 + be64 b 4 * 2 ^ 16 + be16 b 12)

-- What is written to the element is what the state holds as published, of a valid publication.
pub fill_gm_fields_published :
    (i : Inputs) (s : TimeBase)
    → let (s', out) = fill_gm_fields i s in
      (out ≡ s'.published_gm_fields) × (s'.published_gm_valid ≡ true)
unfolding fill_gm_fields gather settle publish is_changed
fill_gm_fields_published i s = ground arith

-- A phase change that was copied into the fields, byte by byte.
bytes_back :
    (fields phase : Bytes)
    → gm_fields_len ≤ length fields
    → length phase ≡ 12
    → be16 (copy fields 2 phase) 2 * 2 ^ 80
        + be64 (copy fields 2 phase) 4 * 2 ^ 16
        + be16 (copy fields 2 phase) 12
      ≡ be16 phase 0 * 2 ^ 80 + be64 phase 2 * 2 ^ 16 + be16 phase 10
unfolding be64
bytes_back fields phase l e =
    let back : (k j : ℕ) → j ≡ 2 + k → k < 12 → byte (copy fields 2 phase) j ≡ byte phase k =
      λ k j d h.
        let sub : j - 2 ≡ k = omega arith in ground (arith, byte-copy fields 2 phase j, sub) in
    omega (
      arith,
      back 0 2 (omega arith) (omega arith),
      back 1 3 (omega arith) (omega arith),
      back 2 4 (omega arith) (omega arith),
      back 3 5 (omega arith) (omega arith),
      back 4 6 (omega arith) (omega arith),
      back 5 7 (omega arith) (omega arith),
      back 6 8 (omega arith) (omega arith),
      back 7 9 (omega arith) (omega arith),
      back 8 10 (omega arith) (omega arith),
      back 9 11 (omega arith) (omega arith),
      back 10 12 (omega arith) (omega arith),
      back 11 13 (omega arith) (omega arith),
    )

length-scaled_ns_from_ns : (v : ℤ) → length (scaled_ns_from_ns v) ≡ 12
unfolding scaled_ns_from_ns
length-scaled_ns_from_ns v = refl

phase_of-copy :
    (fields : Bytes) (v : ℤ)
    → gm_fields_len ≤ length fields
    → neg (2 ^ 63) ≤ℤ v
    → v ≤ℤ int64_max
    → phase_of (copy fields 2 (scaled_ns_from_ns v)) ≡ v *ℤ pos 65536
phase_of-copy fields v l lo hi =
    ap (λ n. signed (2 ^ 95) n)
      (bytes_back fields (scaled_ns_from_ns v) l (length-scaled_ns_from_ns v))
    ∙ scaled_ns_from_ns_value v lo hi

take_all : (xs : Bytes) → take (length xs) xs ≡ xs
take_all [] = refl
take_all (x ∷ xs) = ap (λ l. x ∷ l) (take_all xs)

-- The indicator is before what is copied.
indicator-copy : (fields phase : Bytes) → be16 (copy fields 2 phase) 0 ≡ be16 fields 0
indicator-copy fields phase = ground (arith, byte-copy fields 2 phase 0, byte-copy fields 2 phase 1)

-- While a time base that was published is relayed and the indicator or the BTC is another, the element
-- stays as it was until the local clock has updated; then it carries the new indicator with the sum of
-- the clock's jumps since the baseline, and the baseline is the present sum.
pub relay_change :
    (i : Inputs) (s : TimeBase)
    → is_relaying i ≡ true
    → length i.upstream_gm_fields ≡ gm_fields_len
    → is_changed s i.upstream_gm_fields i.selected_btc ≡ true
    → neg (2 ^ 63) ≤ℤ i.clock_steps_ns -ℤ s.phase_baseline_steps_ns
    → i.clock_steps_ns -ℤ s.phase_baseline_steps_ns ≤ℤ int64_max
    → let (s', out) = fill_gm_fields i s in
      (i.clock_updates ≡ s.published_clock_updates)
        × (out ≡ s.published_gm_fields)
        × (s' ≡ record s { gm_fields_own = false })
      ⊎ (i.clock_updates ≢ s.published_clock_updates)
        × (be16 out 0 ≡ be16 i.upstream_gm_fields 0)
        × (phase_of out ≡ (i.clock_steps_ns -ℤ s.phase_baseline_steps_ns) *ℤ pos 65536)
        × (s'.phase_baseline_steps_ns ≡ i.clock_steps_ns)
        × (s'.published_btc ≡ i.selected_btc)
unfolding fill_gm_fields gather settle is_changed publish is_relaying
relay_change i s r l c lo hi =
    let jump = i.clock_steps_ns -ℤ s.phase_baseline_steps_ns in
    let phase = scaled_ns_from_ns jump in
    let all : take gm_fields_len i.upstream_gm_fields ≡ i.upstream_gm_fields =
      ap (λ n. take n i.upstream_gm_fields) (sym l) ∙ take_all i.upstream_gm_fields in
    rw (r, all, c)
      (elim (Bool-cases (i.clock_updates == s.published_clock_updates)) [
        | inl e ↦ rw e (inl (ground arith, refl, refl))
        | inr e ↦ rw e (
            inr (
              ground arith,
              indicator-copy i.upstream_gm_fields phase,
              phase_of-copy i.upstream_gm_fields jump (omega (arith, l)) lo hi,
              refl,
              refl,
            ))
      ])

-- The fields of an instance's own time base.
abbrev pub own_fields : ℕ → Bytes
own_fields indicator = u8 (indicator / 2 ^ 8) ∷ u8 indicator ∷ zeros 16

own-changed :
    (indicator : ℕ) (s : TimeBase) (btc : Bytes)
    → s.published_gm_valid ≡ true
    → indicator < 2 ^ 16
    → be16 s.published_gm_fields 0 ≢ indicator
    → is_changed s (own_fields indicator) btc ≡ true
unfolding is_changed
own-changed indicator s btc valid small ne =
    let differ : same (take 2 (own_fields indicator)) (take 2 s.published_gm_fields) ≢ true = λ e.
      let m : take 2 (own_fields indicator) ≡ take 2 s.published_gm_fields =
        (same_iff (take 2 (own_fields indicator)) (take 2 s.published_gm_fields)).0 e in
      ne (
        sym (be16-take 2 s.published_gm_fields 0 (omega arith))
        ∙ sym (ap (λ b. be16 b 0) m)
        ∙ (omega arith)) in
    ground (arith, differ)

become_own :
    (i : Inputs) (s : TimeBase) (indicator : ℕ)
    → is_relaying i ≡ false
    → own_indicator i s ≡ indicator
    → is_changed s (own_fields indicator) i.own_btc ≡ true
    → fill_gm_fields i s
      ≡ publish i
          (record s { gm_fields_own = true; own_time_base_indicator = indicator })
          (own_fields indicator)
          i.own_btc
          i.clock_steps_ns
unfolding fill_gm_fields gather settle is_changed scaled_ns_from_ns
become_own i s indicator r e c = rw (r, e, c) refl

-- The state of an instance whose own time base is published.
abbrev pub IsOwn : Bytes → TimeBase → Type 0
IsOwn btc s =
    (s.gm_fields_own ≡ true)
    × (s.published_gm_valid ≡ true)
    × (s.published_btc ≡ btc)
    × (s.published_gm_fields ≡ own_fields s.own_time_base_indicator)

remain-IsOwn :
    (i : Inputs) (s : TimeBase)
    → is_relaying i ≡ false
    → IsOwn i.own_btc s
    → let (s', out) = fill_gm_fields i s in
      (out ≡ s.published_gm_fields)
      × IsOwn i.own_btc s'
      × (s'.published_gm_fields ≡ s.published_gm_fields)
unfolding fill_gm_fields gather settle is_changed publish keep_phase own_indicator
remain-IsOwn i s r (own, valid, b, f) =
    rw
      (
        r,
        own,
        valid,
        b,
        f,
        same_refl i.own_btc,
        same_refl (take 2 (own_fields s.own_time_base_indicator)),
      )
      (refl, (refl, refl, refl, refl), refl)

-- The calls in a row, each of which finds this clock BTC.
abbrev pub AllOwn : Bytes → List Inputs → Type 0
AllOwn btc [] = Unit
AllOwn btc (i ∷ is) = (is_relaying i ≡ false) × (i.own_btc ≡ btc) × AllOwn btc is

pub fill_all : List Inputs → TimeBase → TimeBase
fill_all [] s = s
fill_all (i ∷ is) s = fill_all is (fill_gm_fields i s).0

fill_all-IsOwn :
    (btc : Bytes) (is : List Inputs) (s : TimeBase)
    → AllOwn btc is
    → IsOwn btc s
    → IsOwn btc (fill_all is s) × ((fill_all is s).published_gm_fields ≡ s.published_gm_fields)
unfolding fill_all
fill_all-IsOwn btc [] s a o = (o, refl)
fill_all-IsOwn btc (i ∷ is) s (r, b, a) o =
    let (out, kept, same_fields) = remain-IsOwn i s r (subst (λ t. IsOwn t s) (sym b) o) in
    let rest =
      fill_all-IsOwn btc is (fill_gm_fields i s).0 a
        (subst (λ t. IsOwn t (fill_gm_fields i s).0) b kept) in
    (rest.0, rest.1 ∙ same_fields)

-- An instance that relayed the published time base and becomes BTC publishes another indicator at once,
-- with a phase change of zero; and after any number of further calls that find it BTC, the next one that
-- does publishes the same bytes again.
pub become_btc :
    (i : Inputs) (is : List Inputs) (i' : Inputs) (s : TimeBase)
    → s.gm_fields_own ≡ false
    → s.published_gm_valid ≡ true
    → is_relaying i ≡ false
    → AllOwn i.own_btc is
    → is_relaying i' ≡ false
    → i'.own_btc ≡ i.own_btc
    → be16 i.upstream_gm_fields 0 < 2 ^ 16
    → be16 s.published_gm_fields 0 ≡ be16 i.upstream_gm_fields 0
    → let (s', out) = fill_gm_fields i s in
      (be16 out 0 ≢ be16 s.published_gm_fields 0)
      × (phase_of out ≡ pos 0)
      × (s'.phase_baseline_steps_ns ≡ i.clock_steps_ns)
      × ((fill_gm_fields i' (fill_all is s')).1 ≡ out)
unfolding publish own_indicator be64
become_btc i is i' s own valid r a r' b w p =
    let indicator = u16 (be16 i.upstream_gm_fields 0 + 1) in
    let new : be16 s.published_gm_fields 0 ≢ indicator = λ e. omega arith in
    let first =
      become_own i s indicator r (rw own refl)
        (own-changed indicator s i.own_btc valid (omega arith) new) in
    let s' =
      (publish i (record s { gm_fields_own = true; own_time_base_indicator = indicator })
        (own_fields indicator) i.own_btc i.clock_steps_ns).0 in
    let later = fill_all-IsOwn i.own_btc is s' a (refl, refl, refl, refl) in
    let next =
      remain-IsOwn i' (fill_all is s') r' (subst (λ t. IsOwn t (fill_all is s')) (sym b) later.0) in
    rw first (λ e. omega arith, refl, refl, next.0 ∙ later.1)
