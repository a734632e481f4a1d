-- ===== src/Daemon/Rank.antt =====
-- is_better_clock of ptp.c: which of two announced clocks is the better source.
use esp_ptp.Base.{
  ℕ, zero, suc, ◌+◌, ◌-◌, ◌*◌, ◌/◌, ◌%◌, ◌^◌, ◌≤◌, ◌<◌, Bool, true, false, not, ◌&&◌, ◌||◌,
  if◌then◌else◌, ◌==◌, ltb, leb, ◌≡◌, refl, sym, ap, ◌∙◌, ◌≢◌, ◌↔◌, ◌⊎◌, inl, inr, Option, none,
  some, List, [], ◌∷◌, ◌++◌, map, arith, Bool-cases, Option-cases, ==_iff, length, get_or,
  get_elem?, set, take, drop, replicate, length-set, length-append, length-take, length-drop,
  length-replicate, length-map, take-append-drop,
}
use esp_ptp.Base.Int.{
  ℤ, pos, negsuc, neg, pos_part, neg_part, sub_ℕ, ◌+ℤ◌, ◌-ℤ◌, ◌*ℤ◌, lt_ℤ, le_ℤ, ◌==ℤ◌, ◌≤ℤ◌, ◌<ℤ◌,
  int64_max, int32_max, quot, rem, wrap, signed, min_ℤ, max_ℤ, int_laws, +ℤ_parts, -ℤ_parts,
  eq_of_parts,
}
use esp_ptp.Base.Word.{u8, u16, u32, uint16_max, next_nonzero}
use esp_ptp.Base.Bytes.{
  Bytes, byte, same, same_iff, same_refl, slice, be16, zeros, copy, fill, byte-set, byte-fill,
  byte-copy, length-fill, length-copy, byte-take, bytes_ext,
}
mod Tests

-- The fields of ptp_announce_s that is_better_clock compares.
pub record Announced : Type 0 where
  pub btc_priority1 : ℕ
  pub btc_quality : Bytes
  pub btc_priority2 : ℕ
  pub btc_identity : Bytes
  pub stepsremoved : Bytes
  pub sourceidentity : Bytes
  pub sourceportindex : Bytes

-- `memcmp(a, b, n) < 0` on two arrays of one length
pub before : Bytes → Bytes → Bool
before [] ys = false
before (x ∷ xs) [] = false
before (x ∷ xs) (y ∷ ys) = let rest = before xs ys in ltb x y || x == y && rest

-- The fourteen bytes from btc_priority1 to btc_identity.
abbrev pub system_identity : Announced → Bytes
system_identity a = (a.btc_priority1 ∷ a.btc_quality) ++ (a.btc_priority2 ∷ a.btc_identity)

-- is_better_clock
pub is_better_clock : Announced → Announced → Bool
is_better_clock a b =
    before (system_identity a) (system_identity b)
    || same (system_identity a) (system_identity b) && before a.stepsremoved b.stepsremoved
    || same (system_identity a) (system_identity b)
      && same a.stepsremoved b.stepsremoved
      && before a.sourceidentity b.sourceidentity
    || same (system_identity a) (system_identity b)
      && same a.stepsremoved b.stepsremoved
      && same a.sourceidentity b.sourceidentity
      && before a.sourceportindex b.sourceportindex

-- The arrays have the lengths of ptp_announce_s.
abbrev pub IsAnnounced : Announced → Type 0
IsAnnounced a =
    (length a.btc_quality ≡ 4)
    × (length a.btc_identity ≡ 8)
    × (length a.stepsremoved ≡ 2)
    × (length a.sourceidentity ≡ 8)
    × (length a.sourceportindex ≡ 2)

-- All that is compared, in the order of comparison.
abbrev pub rank : Announced → Bytes
rank a = system_identity a ++ (a.stepsremoved ++ (a.sourceidentity ++ a.sourceportindex))

before_irrefl : (xs : Bytes) → before xs xs ≡ false
unfolding before
before_irrefl [] = refl
before_irrefl (x ∷ xs) = ground (arith, before_irrefl xs)

before_trans : (xs ys zs : Bytes) → before xs ys ≡ true → before ys zs ≡ true → before xs zs ≡ true
unfolding before
before_trans [] ys zs h k = ground arith
before_trans (x ∷ xs) [] zs h k = ground arith
before_trans (x ∷ xs) (y ∷ ys) [] h k = ground arith
before_trans (x ∷ xs) (y ∷ ys) (z ∷ zs) h k = ground (arith, before_trans xs ys zs)

before_connex :
    (xs ys : Bytes)
    → length xs ≡ length ys
    → (before xs ys ≡ true) ⊎ (before ys xs ≡ true) ⊎ (xs ≡ ys)
unfolding before
before_connex [] [] h = inr (inr refl)
before_connex [] (y ∷ ys) h = ground arith
before_connex (x ∷ xs) [] h = ground arith
before_connex (x ∷ xs) (y ∷ ys) h = ground (arith, before_connex xs ys)

before-append :
    (xs ys us vs : Bytes)
    → length xs ≡ length ys
    → before (xs ++ us) (ys ++ vs) ≡ (before xs ys || same xs ys && before us vs)
unfolding before same
before-append [] [] us vs h = refl
before-append [] (y ∷ ys) us vs h = ground arith
before-append (x ∷ xs) [] us vs h = ground arith
before-append (x ∷ xs) (y ∷ ys) us vs h = ground (arith, before-append xs ys us vs)

abbrev port_rank : Announced → Bytes
port_rank a = a.stepsremoved ++ (a.sourceidentity ++ a.sourceportindex)

system_identity-length :
    (a b : Announced)
    → IsAnnounced a
    → IsAnnounced b
    → length (system_identity a) ≡ length (system_identity b)
system_identity-length a b ha hb = ground (
  arith,
  length-append (a.btc_priority1 ∷ a.btc_quality) (a.btc_priority2 ∷ a.btc_identity),
  length-append (b.btc_priority1 ∷ b.btc_quality) (b.btc_priority2 ∷ b.btc_identity),
)

rank-length : (a b : Announced) → IsAnnounced a → IsAnnounced b → length (rank a) ≡ length (rank b)
rank-length a b ha hb = ground (
  arith,
  system_identity-length a b ha hb,
  length-append (system_identity a) (port_rank a),
  length-append (system_identity b) (port_rank b),
  length-append a.stepsremoved (a.sourceidentity ++ a.sourceportindex),
  length-append b.stepsremoved (b.sourceidentity ++ b.sourceportindex),
  length-append a.sourceidentity a.sourceportindex,
  length-append b.sourceidentity b.sourceportindex,
)

-- One clock is better than another exactly when all that is compared, written in the order of
-- comparison, comes first lexicographically: no field is read unless the ones before it are equal.
pub is_better_clock-eq-before :
    (a b : Announced)
    → IsAnnounced a
    → IsAnnounced b
    → is_better_clock a b ≡ before (rank a) (rank b)
unfolding is_better_clock
is_better_clock-eq-before a b ha hb = ground (
  arith,
  before-append (system_identity a) (system_identity b) (port_rank a) (port_rank b)
      (system_identity-length a b ha hb),
  before-append a.stepsremoved b.stepsremoved (a.sourceidentity ++ a.sourceportindex)
      (b.sourceidentity ++ b.sourceportindex),
  before-append a.sourceidentity b.sourceidentity a.sourceportindex b.sourceportindex,
)

-- Better is a strict order: no clock is better than itself, and what is better than a better one is
-- better. Of two clocks one is better unless all that is compared is equal.
pub is_better_clock_order :
    (a b c : Announced)
    → IsAnnounced a
    → IsAnnounced b
    → IsAnnounced c
    → (is_better_clock a a ≡ false)
      × ((is_better_clock a b ≡ false)
          ⊎ (is_better_clock b c ≡ false)
          ⊎ (is_better_clock a c ≡ true))
      × ((is_better_clock a b ≡ true) ⊎ (is_better_clock b a ≡ true) ⊎ (rank a ≡ rank b))
is_better_clock_order a b c ha hb hc = ground (
  arith,
  is_better_clock-eq-before a a ha ha,
  is_better_clock-eq-before a b ha hb,
  is_better_clock-eq-before b a hb ha,
  is_better_clock-eq-before b c hb hc,
  is_better_clock-eq-before a c ha hc,
  before_irrefl (rank a),
  before_trans (rank a) (rank b) (rank c),
  before_connex (rank a) (rank b) (rank-length a b ha hb),
)
