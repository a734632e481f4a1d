-- ===== src/Schedule/Announce/Laws.antt =====
-- The schedule of the Announce messages: requests, operations, and what a reset retires.
use esp_ptp.Base.{
  ℕ, suc, ◌+◌, ◌^◌, ◌≤◌, ◌<◌, Bool, true, false, not, ◌||◌, ◌==◌, ◌≡◌, refl, ◌≢◌, ◌↔◌, ◌⊎◌, inl,
  inr, none, some, arith, Bool-cases,
}
use esp_ptp.Base.Int.{ℤ, pos, negsuc, neg, ◌+ℤ◌, ◌==ℤ◌, ◌≤ℤ◌, ◌<ℤ◌, int64_max, +ℤ_parts, -ℤ_parts}
use esp_ptp.Base.Word.{u16, next_nonzero}
use esp_ptp.Schedule.Timing.{IsPeriod, usable_iff, longest_us, pow_bounds, ceil_bounds}
use esp_ptp.Schedule.Announce.{
  Announce, announce_reset, period_us, initialize, effective_period, undefined_request, supported,
  change_rate, apply_request, announce_request, Grant, refresh, outstanding, next_deadline, start,
  begin_fresh, announce_begin, count_sent, announce_finish,
}

-- The supported logarithms, -24 to 24.
abbrev pub IsRate : ℤ → Type 0
IsRate l = (neg 24 ≤ℤ l) × (l ≤ℤ pos 24)

period_us_bounds : (l : ℤ) → IsRate l → (pos 1 ≤ℤ period_us l) × (period_us l ≤ℤ longest_us)
unfolding period_us
period_us_bounds (pos n) h = ground (arith, pow_bounds n (omega arith))
period_us_bounds (negsuc n) h =
    ground (arith, pow_bounds (suc n) (omega arith), ceil_bounds 1000000 (2 ^ suc n) (omega arith))

period_us_zero : (l : ℤ) → ¬ (IsRate l) → period_us l ≡ pos 0
unfolding period_us
period_us_zero l h = ground arith

-- What holds of an Announce schedule between two operations.
pub record IsValid (s : Announce) : Type 0 where
  pub rate :
      (s.initialized ≡ false) × (s.slowdown_remaining ≡ 0) × (s.log_interval ≡ pos 0)
      ⊎ (s.initialized ≡ true)
        × IsRate s.initial_log
        × ((s.log_interval ≡ pos 127) ⊎ (s.initial_log ≤ℤ s.log_interval) × IsRate s.log_interval)
  pub few : s.slowdown_remaining ≤ 3
  pub slower :
      (s.slowdown_remaining ≡ 0)
      ⊎ IsRate s.log_interval
        × (pos 1 ≤ℤ s.old_period_us)
        × (s.old_period_us <ℤ period_us s.log_interval)
  pub serial_word : s.serial < 2 ^ 32
  pub revision_word : s.revision < 2 ^ 32
  pub last : (s.pending ≡ 0) ⊎ (s.pending ≡ s.serial)
  pub next_fits : s.next_us ≤ℤ int64_max

initialize-IsValid : (s : Announce) (initial : ℤ) → IsValid s → IsValid (initialize s initial).0
unfolding initialize
initialize-IsValid s initial v = ground (arith, period_us_zero initial)

initialize_result :
    (s : Announce) (initial : ℤ)
    → let (t, ok) = initialize s initial in
      (ok ≡ false) × (t ≡ s)
      ⊎ (ok ≡ true)
        × IsRate initial
        × (t.initialized ≡ true)
        × (t.initial_log ≡ initial)
        × (t.revision ≡ s.revision)
        × (t.serial ≡ s.serial)
        × (t.sequence ≡ s.sequence)
unfolding initialize
initialize_result s initial = ground (arith, period_us_zero initial)

effective_period_bounds : (s : Announce) → IsValid s → IsPeriod (effective_period s)
unfolding effective_period
effective_period_bounds s v =
    ground (arith, period_us_bounds s.log_interval, period_us_zero s.log_interval)

change_rate-IsValid :
    (s : Announce) (r : ℤ)
    → IsValid s
    → s.initialized ≡ true
    → (r ≡ pos 127) ⊎ IsRate r × (s.initial_log ≤ℤ r)
    → IsValid (change_rate s r)
unfolding change_rate
change_rate-IsValid s r v i h =
    ground (arith, effective_period_bounds s v, period_us_bounds r, period_us_zero r)

supported_result :
    (initial r : ℤ)
    → IsRate initial
    → undefined_request r ≡ false
    → (r ≡ neg 128)
      ⊎ (supported initial r ≡ pos 127)
      ⊎ IsRate (supported initial r) × (initial ≤ℤ supported initial r)
unfolding undefined_request supported
supported_result initial r h d = ground arith

apply_request-IsValid :
    (s : Announce) (r rate : ℤ)
    → IsValid s
    → s.initialized ≡ true
    → (r ≡ neg 128) ⊎ (rate ≡ pos 127) ⊎ IsRate rate × (s.initial_log ≤ℤ rate)
    → IsValid (apply_request s r rate)
unfolding apply_request
apply_request-IsValid s r rate v i (inl e) = rw e v
apply_request-IsValid s r rate v i (inr h) = elim (Bool-cases (r ==ℤ neg 128)) [
  | inl e ↦ rw e v
  | inr e ↦ elim (Bool-cases (rate ==ℤ s.log_interval)) [
    | inl f ↦ rw (e, f) v
    | inr f ↦ rw (e, f) (change_rate-IsValid s rate v i h)
  ]
]

-- Every request, whatever base rate and value it carries, keeps the schedule valid: the rate is stopped
-- or between the initial one and 2 ^ 24 seconds, and a slowdown is at most three messages long.
pub announce_request-IsValid :
    (s : Announce) (initial r : ℤ) → IsValid s → IsValid (announce_request s initial r).0
unfolding announce_request
announce_request-IsValid s initial r v =
    elim (Bool-cases (undefined_request r || not (initialize s initial).1)) [
      | inl e ↦ rw e v
      | inr e ↦ rw e (
          apply_request-IsValid (initialize s initial).0 r (supported initial r)
            (initialize-IsValid s initial v) (ground (arith, initialize_result s initial))
            (ground (arith, initialize_result s initial, supported_result initial r)))
    ]

free_iff :
    (s : Announce) (now : ℤ)
    → (outstanding s now ≡ false) ↔ ((s.pending ≡ 0) ⊎ (s.queued_us +ℤ pos 1000000 ≤ℤ now))
unfolding outstanding
free_iff s now = ground (arith, -ℤ_parts now s.queued_us, +ℤ_parts s.queued_us (pos 1000000))

next_deadline_bounds :
    (s : Announce) (p now : ℤ)
    → pos 1 ≤ℤ p
    → (s.active ≡ false) ⊎ (s.next_us ≤ℤ now)
    → (now <ℤ next_deadline s p now) × (next_deadline s p now ≤ℤ now +ℤ p)
unfolding next_deadline
next_deadline_bounds s p now h due =
    ground (arith, -ℤ_parts now s.next_us, +ℤ_parts now p, +ℤ_parts s.next_us p)

-- What a started operation leaves behind.
pub record Started (s t : Announce) (g : Grant) (now : ℤ) : Type 0 where
  pub pending_token : t.pending ≡ g.token
  pub fresh : (g.token ≢ 0) × (g.token ≡ next_nonzero s.serial)
  pub sequence_next : (g.sequence_number ≡ u16 (s.sequence + 1)) × (t.sequence ≡ g.sequence_number)
  pub advertises : g.advertised ≡ t.log_interval
  pub queued : t.queued_us ≡ now
  pub later : now <ℤ t.next_us
  pub soon : t.next_us ≤ℤ now +ℤ longest_us
  pub fits : t.next_us ≤ℤ int64_max

begin_fresh-Started :
    (s : Announce) (p now : ℤ) (g : Grant)
    → pos 1 ≤ℤ p
    → p ≤ℤ longest_us
    → now +ℤ p ≤ℤ int64_max
    → (begin_fresh s p now).1 ≡ some g
    → Started s (begin_fresh s p now).0 g now
unfolding begin_fresh start
begin_fresh-Started s p now g lo hi fits h =
    ground (arith, next_deadline_bounds s p now, +ℤ_parts now p, +ℤ_parts now longest_us)

refresh-IsValid : (s : Announce) (information : ℕ) → IsValid s → IsValid (refresh s information)
unfolding refresh
refresh-IsValid s information v = elim (Bool-cases (s.information_revision == information)) [
  | inl e ↦ rw e v
  | inr e ↦ rw e (record {
    rate = v.rate;
    few = v.few;
    slower = v.slower;
    serial_word = v.serial_word;
    revision_word = v.revision_word;
    last = inl refl;
    next_fits = v.next_fits;
  })
]

begin_fresh-IsValid :
    (s : Announce) (p now : ℤ)
    → IsValid s
    → pos 1 ≤ℤ p
    → now +ℤ p ≤ℤ int64_max
    → IsValid (begin_fresh s p now).0
unfolding begin_fresh start
begin_fresh-IsValid s p now v lo fits = record {
  rate = ground arith;
  few = ground arith;
  slower = ground arith;
  serial_word = ground arith;
  revision_word = ground arith;
  last = ground (arith, v.last);
  next_fits = ground (arith, v.next_fits, next_deadline_bounds s p now, +ℤ_parts now p);
}

-- The ways out of announce_begin before it looks at the pending operation, and the way on.
begin_cases :
    (s : Announce) (outputs : Bool) (initial : ℤ) (expected information : ℕ) (now : ℤ)
    → IsValid s
    → let t = (initialize s initial).0 in
      let p = effective_period t in
      ((announce_begin s outputs initial expected information now ≡ (s, none)))
      ⊎ (announce_begin s outputs initial expected information now ≡ (t, none))
        × (s.revision ≡ expected)
      ⊎ (announce_begin s outputs initial expected information now
          ≡ begin_fresh (refresh t information) p now)
        × (outputs ≡ true)
        × (s.revision ≡ expected)
        × IsRate initial
        × (pos 1 ≤ℤ p)
        × (p ≤ℤ longest_us)
        × (now +ℤ p ≤ℤ int64_max)
unfolding announce_begin
begin_cases s outputs initial expected information now v =
    let t = (initialize s initial).0 in
    let b = effective_period_bounds t (initialize-IsValid s initial v) in
    ground (arith, b, usable_iff (effective_period t) now b, initialize_result s initial)

pub announce_begin-IsValid :
    (s : Announce) (outputs : Bool) (initial : ℤ) (expected information : ℕ) (now : ℤ)
    → IsValid s
    → IsValid (announce_begin s outputs initial expected information now).0
announce_begin-IsValid s outputs initial expected information now v =
    let t = (initialize s initial).0 in
    let vt = initialize-IsValid s initial v in
    elim (begin_cases s outputs initial expected information now v) [
      | inl e ↦ rw e v
      | inr (inl e) ↦ rw (e.0) vt
      | inr (inr c) ↦ rw (c.0) (
          begin_fresh-IsValid (refresh t information) (effective_period t) now
            (refresh-IsValid t information vt) c.4 c.6)
    ]

refresh_result :
    (s : Announce) (information : ℕ)
    → ((refresh s information).serial ≡ s.serial) × ((refresh s information).sequence ≡ s.sequence)
unfolding refresh
refresh_result s information = ground arith

Started-of :
    {t : Announce} {g : Grant} (s u : Announce) (now : ℤ)
    → (s.serial ≡ u.serial) × (s.sequence ≡ u.sequence)
    → Started u t g now
    → Started s t g now
Started-of s u now e d = ground arith

-- A grant is made only at the revision that the caller has seen, at a supported base rate: its token
-- and sequence number are the next ones, the operation is queued now, and the next deadline lies after
-- now, by at most 2 ^ 24 seconds, within int64_t.
pub announce_begin-Started :
    (s : Announce) (outputs : Bool) (initial : ℤ) (expected information : ℕ) (now : ℤ) (g : Grant)
    → IsValid s
    → (announce_begin s outputs initial expected information now).1 ≡ some g
    → (s.revision ≡ expected)
      × IsRate initial
      × Started s (announce_begin s outputs initial expected information now).0 g now
announce_begin-Started s outputs initial expected information now g v h =
    let t = (initialize s initial).0 in
    elim (begin_cases s outputs initial expected information now v) [
      | inl e ↦ absurd (cc e)
      | inr (inl e) ↦ absurd (cc e.0)
      | inr (inr c) ↦ (
        c.2,
        c.3,
        rw (c.0) (
            Started-of {t = (begin_fresh (refresh t information) (effective_period t) now).0} s
              (refresh t information) now
              (ground (arith, refresh_result t information, initialize_result s initial))
              (begin_fresh-Started (refresh t information) (effective_period t) now g c.4 c.5 c.6
                (rw (c.0) at h))),
      )
    ]

pub announce_finish-IsValid :
    (s : Announce) (token : ℕ) (accepted : Bool) (now : ℤ)
    → IsValid s
    → IsValid (announce_finish s token accepted now).0
unfolding announce_finish count_sent
announce_finish-IsValid s token accepted now v = record {
  rate = ground arith;
  few = ground arith;
  slower = ground arith;
  serial_word = ground arith;
  revision_word = ground arith;
  last = ground (arith, v.last);
  next_fits = ground (
    arith,
    v.next_fits,
    -ℤ_parts int64_max (period_us s.log_interval),
    +ℤ_parts now (period_us s.log_interval),
  );
}

pub announce_reset-IsValid : (s : Announce) → IsValid s → IsValid (announce_reset s)
unfolding announce_reset
announce_reset-IsValid s v = ground arith

-- A reset retires the work in hand: no token completes after it, an operation prepared for the old
-- revision is refused, and the next token and sequence number go on from the old ones.
pub announce_reset_retires :
    (s : Announce) (token : ℕ) (accepted outputs : Bool) (initial : ℤ) (information : ℕ) (now : ℤ)
    → s.revision < 2 ^ 32
    → let t = announce_reset s in
      (announce_finish t token accepted now ≡ (t, false))
      × (announce_begin t outputs initial s.revision information now ≡ (t, none))
      × (t.serial ≡ s.serial)
      × (t.sequence ≡ s.sequence)
      × (t.revision ≢ 0)
unfolding announce_reset announce_finish announce_begin
announce_reset_retires s token accepted outputs initial information now h = ground arith
