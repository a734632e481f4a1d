-- ===== src/Message/PathTrace/Parse.antt =====
-- Reading a path trace: the end of the loop, what it reads, and what it refuses.
use esp_ptp.Base.{
  ℕ, zero, suc, ◌+◌, ◌-◌, ◌*◌, ◌/◌, ◌≤◌, ◌<◌, Bool, true, false, ltb, leb, ◌≡◌, refl, sym, ap, ◌∙◌,
  ◌≢◌, ◌⊎◌, inl, inr, Option, none, some, [], arith, Bool-cases, Option-cases, length, take,
}
use esp_ptp.Base.Bytes.{Bytes, be16, slice-take, be16-take}
use mathlib.Core.Path.{fun_ext}
use esp_ptp.Message.PathTrace.{
  Trace, Outcome, unfinished, malformed, found, identities, trace_tlv, tlvs, trace_of, parse,
  member, max_clocks, body_length,
}

-- With more fuel than bytes left the loop ends by one of its own exits.
pub tlvs_finished :
    (fuel : ℕ) (m : Bytes) (len at : ℕ) (own : Bytes) (seen : Option Trace)
    → len - at < fuel
    → tlvs fuel m len at own seen ≢ unfinished
unfolding tlvs
tlvs_finished zero m len at own seen h = elim h [ ]
tlvs_finished (suc fuel) m len at own seen h =
    let next = at + 4 + be16 m (at + 2) in
    elim (Option-cases (trace_tlv m (at + 4) (be16 m (at + 2)) own seen)) [
      | inl e ↦ ground (arith, e, tlvs_finished fuel m len next own seen)
      | inr (ids, e) ↦ ground (
        arith,
        e,
        tlvs_finished fuel m len next own seen,
        tlvs_finished fuel m len next own (some ids),
      )
    ]

-- A path of at most 16 clocks, without this one.
abbrev pub IsSound : Bytes → Trace → Type 0
IsSound own ids = (length ids ≤ max_clocks) × (member own ids ≡ false)

identities_sound :
    (n : ℕ) (m : Bytes) (from : ℕ) (own : Bytes) {ids : Trace}
    → identities n m from own ≡ some ids
    → (length ids ≡ n) × (member own ids ≡ false)
unfolding identities member
identities_sound zero m from own h = ground arith
identities_sound (suc n) m from own h = elim (Option-cases (identities n m (from + 8) own)) [
  | inl e ↦ ground (arith, e)
  | inr (rest, e) ↦ ground (arith, e, identities_sound n m (from + 8) own e)
]

trace_tlv-IsSound :
    (m : Bytes) (from n : ℕ) (own : Bytes) (seen : Option Trace) (ids : Trace)
    → trace_tlv m from n own seen ≡ some ids
    → IsSound own ids
unfolding trace_tlv
trace_tlv-IsSound m from n own (some ids') ids h = cc
trace_tlv-IsSound m from n own none ids h =
    ground (
      arith,
      λ (e : identities (n / 8) m from own ≡ some ids). identities_sound (n / 8) m from own e,
    )

tlvs-IsSound :
    (fuel : ℕ) (m : Bytes) (len at : ℕ) (own : Bytes) (seen : Option Trace) (ids : Trace)
    → (seen ≡ some ids → IsSound own ids)
    → tlvs fuel m len at own seen ≡ found (some ids)
    → IsSound own ids
unfolding tlvs
tlvs-IsSound zero m len at own seen ids s h = cc
tlvs-IsSound (suc fuel) m len at own seen ids s h =
    let next = at + 4 + be16 m (at + 2) in
    elim (Option-cases (trace_tlv m (at + 4) (be16 m (at + 2)) own seen)) [
      | inl e ↦ ground (arith, e, tlvs-IsSound fuel m len next own seen ids s)
      | inr (read, e) ↦ ground (
        arith,
        e,
        tlvs-IsSound fuel m len next own seen ids s,
        tlvs-IsSound fuel m len next own (some read) ids
            (λ q. trace_tlv-IsSound m (at + 4) (be16 m (at + 2)) own seen ids (e ∙ q)),
      )
    ]

trace_of_lem :
    (o : Outcome) (ids : Trace) → trace_of o ≡ some ids → (ids ≡ []) ⊎ (o ≡ found (some ids))
unfolding trace_of
trace_of_lem unfinished ids h = cc
trace_of_lem malformed ids h = cc
trace_of_lem (found none) ids h = inl (ground arith)
trace_of_lem (found (some ids')) ids h = inr (ground arith)

IsSound-nil : (own : Bytes) → IsSound own []
unfolding member
IsSound-nil own = (omega arith, refl)

-- Whether the path that was found contains this clock.
abbrev contains : Bytes → Option Trace → Bool
contains own none = false
contains own (some ids) = member own ids

-- What another clock reads where one reads these identities.
identities_other :
    (n : ℕ) (m : Bytes) (from : ℕ) (own own' : Bytes) (ids : Trace)
    → identities n m from own ≡ some ids
    → (member own' ids ≡ true) × (identities n m from own' ≡ none)
      ⊎ (member own' ids ≡ false) × (identities n m from own' ≡ some ids)
unfolding identities member
identities_other zero m from own own' ids h = ground (arith, h)
identities_other (suc n) m from own own' ids h =
    elim (Option-cases (identities n m (from + 8) own)) [
      | inl e ↦ ground (arith, h, e)
      | inr (rest, e) ↦ ground (arith, h, e, identities_other n m (from + 8) own own' rest e)
    ]

trace_tlv_other :
    (m : Bytes) (from n : ℕ) (own own' : Bytes) (seen : Option Trace) (ids : Trace)
    → trace_tlv m from n own seen ≡ some ids
    → (member own' ids ≡ true) × (trace_tlv m from n own' seen ≡ none)
      ⊎ (member own' ids ≡ false) × (trace_tlv m from n own' seen ≡ some ids)
unfolding trace_tlv
trace_tlv_other m from n own own' (some ids') ids h = cc
trace_tlv_other m from n own own' none ids h = ground (
  arith,
  λ (e : identities (n / 8) m from own ≡ some ids). identities_other (n / 8) m from own own' ids e,
)

-- A path that was seen is the one that is found.
tlvs_seen :
    (fuel : ℕ) (m : Bytes) (len at : ℕ) (own : Bytes) (ids : Trace) (out : Option Trace)
    → tlvs fuel m len at own (some ids) ≡ found out
    → out ≡ some ids
unfolding tlvs trace_tlv
tlvs_seen zero m len at own ids out h = cc
tlvs_seen (suc fuel) m len at own ids out h =
    ground (arith, h, tlvs_seen fuel m len (at + 4 + be16 m (at + 2)) own ids out)

tlvs_other :
    (fuel : ℕ) (m : Bytes) (len at : ℕ) (own own' : Bytes) (seen out : Option Trace)
    → contains own' seen ≡ false
    → tlvs fuel m len at own seen ≡ found out
    → (contains own' out ≡ true) × (tlvs fuel m len at own' seen ≡ malformed)
      ⊎ (contains own' out ≡ false) × (tlvs fuel m len at own' seen ≡ found out)
unfolding tlvs
tlvs_other zero m len at own own' seen out c h = cc
tlvs_other (suc fuel) m len at own own' seen out c h =
    let n = be16 m (at + 2) in
    let next = at + 4 + n in
    let rest = tlvs_other fuel m len next own own' seen out c in
    elim (Option-cases (trace_tlv m (at + 4) n own seen)) [
      | inl e ↦ ground (arith, h, e, rest)
      | inr (ids, e) ↦ ground (
        arith,
        h,
        e,
        rest,
        trace_tlv_other m (at + 4) n own own' seen ids e,
        tlvs_seen fuel m len next own ids out,
        tlvs_other fuel m len next own own' (some ids) out,
      )
    ]

-- The path is what was found.
trace_of_found :
    (o : Outcome) (own' : Bytes) (ids : Trace)
    → trace_of o ≡ some ids
    → (out : Option Trace) × (o ≡ found out)
      × (trace_of (found out) ≡ some ids)
      × (contains own' out ≡ member own' ids)
unfolding trace_of member
trace_of_found unfinished own' ids h = cc
trace_of_found malformed own' ids h = cc
trace_of_found (found none) own' ids h = (none, refl, h, ground (arith, h))
trace_of_found (found (some ids')) own' ids h = (some ids', refl, h, ground (arith, h))

malformed_none : trace_of malformed ≡ none
unfolding trace_of
malformed_none = refl

trace_of_other :
    (m : Bytes) (len : ℕ) (own own' : Bytes) (ids : Trace)
    → trace_of (tlvs (suc len) m len body_length own none) ≡ some ids
    → (member own' ids ≡ true) × (trace_of (tlvs (suc len) m len body_length own' none) ≡ none)
      ⊎ (member own' ids ≡ false)
        × (trace_of (tlvs (suc len) m len body_length own' none) ≡ some ids)
trace_of_other m len own own' ids h =
    let (out, o, read, same_path) =
      trace_of_found (tlvs (suc len) m len body_length own none) own' ids h in
    elim (tlvs_other (suc len) m len body_length own own' none out refl o) [
      | inl (on, refused) ↦ inl (sym same_path ∙ on, ap (λ t. trace_of t) refused ∙ malformed_none)
      | inr (off, found') ↦ inr (sym same_path ∙ off, ap (λ t. trace_of t) found' ∙ read)
    ]

-- A path that is read has at most 16 clocks and does not contain this one; it is read from a message of
-- the length it advertises, at least an Announce body and all received. Every other clock reads the same
-- path from the message if it is not on it, and refuses the message, as looped, if it is.
pub parse_sound :
    (m : Bytes) (received : ℕ) (own own' : Bytes) (ids : Trace)
    → parse (some m) received (some own) ≡ some ids
    → (length ids ≤ max_clocks)
      × (member own ids ≡ false)
      × (body_length ≤ be16 m 2)
      × (be16 m 2 ≤ received)
      × ((member own' ids ≡ true) × (parse (some m) received (some own') ≡ none)
          ⊎ (member own' ids ≡ false) × (parse (some m) received (some own') ≡ some ids))
unfolding parse
parse_sound m received own own' ids h = ground (
  arith,
  trace_of_other m (be16 m 2) own own' ids,
  trace_of_lem (tlvs (suc (be16 m 2)) m (be16 m 2) body_length own none) ids,
  IsSound-nil own,
  sound,
)
  where
    sound :
        tlvs (suc (be16 m 2)) m (be16 m 2) body_length own none ≡ found (some ids) → IsSound own ids
    sound e =
        tlvs-IsSound (suc (be16 m 2)) m (be16 m 2) body_length own none ids (λ q. absurd (cc q)) e

identities-take :
    (n k : ℕ) (m : Bytes) (from : ℕ) (own : Bytes)
    → from + n * 8 ≤ k
    → identities n (take k m) from own ≡ identities n m from own
unfolding identities
identities-take zero k m from own h = refl
identities-take (suc n) k m from own h =
    rw (slice-take k m from 8 (omega arith), identities-take n k m (from + 8) own (omega arith))

trace_tlv-take :
    (k : ℕ) (m : Bytes) (from n : ℕ) (own : Bytes) (seen : Option Trace)
    → from + n ≤ k
    → trace_tlv (take k m) from n own seen ≡ trace_tlv m from n own seen
unfolding trace_tlv
trace_tlv-take k m from n own (some ids) h = refl
trace_tlv-take k m from n own none h = rw (identities-take (n / 8) k m from own (omega arith))

tlvs-take :
    (fuel k : ℕ) (m : Bytes) (len at : ℕ) (own : Bytes) (seen : Option Trace)
    → len ≤ k
    → tlvs fuel (take k m) len at own seen ≡ tlvs fuel m len at own seen
unfolding tlvs
tlvs-take zero k m len at own seen h = refl
tlvs-take (suc fuel) k m len at own seen h = elim (Bool-cases (leb len at)) [
  | inl e ↦ rw e
  | inr e ↦ elim (Bool-cases (ltb (len - at) 4)) [
    | inl f ↦ rw (e, f)
    | inr f ↦
        let n = be16 m (at + 2) in
        rw (e, f, be16-take k m at (ground arith), be16-take k m (at + 2) (ground arith))
          (elim (Bool-cases (ltb (len - (at + 4)) n)) [
            | inl g ↦ rw g
            | inr g ↦ rw (
              g,
              trace_tlv-take k m (at + 4) n own seen (ground arith),
              tlvs-take fuel k m len (at + 4 + n) own seen h,
              fun_ext (λ s. tlvs-take fuel k m len (at + 4 + n) own s h),
            )
          ])
  ]
]

-- What is read depends on nothing past the received bytes.
pub parse_local :
    (m : Bytes) (received : ℕ) (own : Bytes)
    → parse (some (take received m)) received (some own) ≡ parse (some m) received (some own)
unfolding parse
parse_local m received own = elim (Bool-cases (ltb received body_length)) [
  | inl e ↦ rw e
  | inr e ↦ elim (Bool-cases (ltb received (be16 m 2))) [
    | inl f ↦ rw (be16-take received m 2 (ground arith), e, f) (ground arith)
    | inr f ↦ rw (
      be16-take received m 2 (ground arith),
      tlvs-take (suc (be16 m 2)) received m (be16 m 2) body_length own none (ground arith),
    )
  ]
]
