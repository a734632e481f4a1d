-- ===== src/Base/Int.antt =====
-- Signed C integers as ℤ over the native numbers. Sums and orders go through the two parts of an
-- integer, which are numbers that `omega` reads. A sum here is exact: where a C type could overflow,
-- the model says which cast or guard applies.
use Prim.Native.Nat.{ℕ, zero, suc, ◌+◌, ◌-◌, ◌*◌, ◌/◌, ◌%◌, ◌^◌, ◌≤◌, ◌<◌}
use mathlib.Core.Path.{◌≡◌, refl}
use mathlib.Core.Bool.{Bool}
use native.Mathlib.Omega.{arith}
use esp_ptp.Base.Tests.{ltb, leb, ◌==◌, if◌then◌else◌}

-- `negsuc n` is -(n + 1).
pub data ℤ : Type 0 where
  pos : ℕ → ℤ
  negsuc : ℕ → ℤ

abbrev pub pos_part : ℤ → ℕ
pos_part (pos n) = n
pos_part (negsuc n) = 0

abbrev pub neg_part : ℤ → ℕ
neg_part (pos n) = 0
neg_part (negsuc n) = suc n

-- a - b, as an integer.
abbrev pub sub_ℕ : ℕ → ℕ → ℤ
sub_ℕ a b = if leb b a then pos (a - b) else negsuc (b - a - 1)

-- -n.
abbrev pub neg : ℕ → ℤ
neg zero = pos 0
neg (suc n) = negsuc n

infixl 65 ◌+ℤ◌ ◌-ℤ◌
infixl 70 ◌*ℤ◌
infix 50 ◌≤ℤ◌ ◌<ℤ◌ ◌==ℤ◌
unfoldable pub ◌+ℤ◌ : ℤ → ℤ → ℤ
a +ℤ b = sub_ℕ (pos_part a + pos_part b) (neg_part a + neg_part b)

unfoldable pub ◌-ℤ◌ : ℤ → ℤ → ℤ
a -ℤ b = sub_ℕ (pos_part a + neg_part b) (neg_part a + pos_part b)

unfoldable pub ◌*ℤ◌ : ℤ → ℤ → ℤ
a *ℤ b =
    sub_ℕ (pos_part a * pos_part b + neg_part a * neg_part b)
      (pos_part a * neg_part b + neg_part a * pos_part b)

abbrev pub ◌≤ℤ◌ : ℤ → ℤ → Type 0
a ≤ℤ b = pos_part a + neg_part b ≤ pos_part b + neg_part a

abbrev pub ◌<ℤ◌ : ℤ → ℤ → Type 0
a <ℤ b = pos_part a + neg_part b < pos_part b + neg_part a

abbrev pub lt_ℤ : ℤ → ℤ → Bool
lt_ℤ a b = ltb (pos_part a + neg_part b) (pos_part b + neg_part a)

abbrev pub le_ℤ : ℤ → ℤ → Bool
le_ℤ a b = leb (pos_part a + neg_part b) (pos_part b + neg_part a)

abbrev pub ◌==ℤ◌ : ℤ → ℤ → Bool
a ==ℤ b = (pos_part a + neg_part b) == (pos_part b + neg_part a)

pub +ℤ_parts :
    (a b : ℤ)
    → pos_part (a +ℤ b) + neg_part a + neg_part b ≡ neg_part (a +ℤ b) + pos_part a + pos_part b
unfolding ◌+ℤ◌
+ℤ_parts a b = ground arith

pub -ℤ_parts :
    (a b : ℤ)
    → pos_part (a -ℤ b) + neg_part a + pos_part b ≡ neg_part (a -ℤ b) + pos_part a + neg_part b
unfolding ◌-ℤ◌
-ℤ_parts a b = ground arith

pub eq_of_parts : (a b : ℤ) → pos_part a + neg_part b ≡ pos_part b + neg_part a → a ≡ b
eq_of_parts a b h = ground arith

pub ruleset int_laws = (arith, +ℤ_parts, -ℤ_parts, eq_of_parts)

-- `int64_t`, `int32_t` and their limits.
abbrev pub int64_max : ℤ
int64_max = pos (2 ^ 63 - 1)

abbrev pub int32_max : ℤ
int32_max = pos (2 ^ 31 - 1)

-- C division rounds towards zero, and the remainder has the dividend's sign.
abbrev pub quot : ℤ → ℤ → ℤ
quot (pos a) (pos b) = pos (a / b)
quot (pos a) (negsuc b) = neg (a / suc b)
quot (negsuc a) (pos b) = neg (suc a / b)
quot (negsuc a) (negsuc b) = pos (suc a / suc b)

abbrev pub rem : ℤ → ℤ → ℤ
rem (pos a) b = pos (a % (pos_part b + neg_part b))
rem (negsuc a) b = neg (suc a % (pos_part b + neg_part b))

-- The low bits of an integer in two's complement, for modulus m.
abbrev pub wrap : ℕ → ℤ → ℕ
wrap m (pos a) = a % m
wrap m (negsuc a) = m - 1 - a % m

-- The integer that a bit pattern below 2 * h stands for.
abbrev pub signed : ℕ → ℕ → ℤ
signed h n = if ltb n h then pos n else negsuc (2 * h - 1 - n)

-- Clamping to [lo, hi], as two `if` statements do it.
abbrev pub min_ℤ : ℤ → ℤ → ℤ
min_ℤ a b = if lt_ℤ b a then b else a

abbrev pub max_ℤ : ℤ → ℤ → ℤ
max_ℤ a b = if lt_ℤ a b then b else a

-- Signs: products, sums and quotients of numbers written `pos a` or `neg a`.
pub pos-add-pos : (a b : ℕ) → pos a +ℤ pos b ≡ pos (a + b)
unfolding ◌+ℤ◌
pos-add-pos a b = ground arith

pub neg-add-neg : (a b : ℕ) → neg a +ℤ neg b ≡ neg (a + b)
unfolding ◌+ℤ◌
neg-add-neg zero b = ground arith
neg-add-neg (suc a) b = ground arith

pub pos-mul-pos : (a b : ℕ) → pos a *ℤ pos b ≡ pos (a * b)
unfolding ◌*ℤ◌
pos-mul-pos a b = ground arith

pub pos-mul-neg : (a b : ℕ) → pos a *ℤ neg b ≡ neg (a * b)
unfolding ◌*ℤ◌
pos-mul-neg a b = ground arith

pub neg-mul-pos : (a b : ℕ) → neg a *ℤ pos b ≡ neg (a * b)
unfolding ◌*ℤ◌
neg-mul-pos a b = ground arith

pub neg-mul-neg : (a b : ℕ) → neg a *ℤ neg b ≡ pos (a * b)
unfolding ◌*ℤ◌
neg-mul-neg a b = ground arith

pub quot-neg : (a n : ℕ) → quot (neg a) (pos n) ≡ neg (a / n)
quot-neg zero n = ground arith
quot-neg (suc a) n = refl

pub rem-neg : (a n : ℕ) → rem (neg a) (pos n) ≡ neg (a % n)
rem-neg zero n = ground arith
rem-neg (suc a) n = ground arith

pub neg_parts : (n : ℕ) → (pos_part (neg n) ≡ 0) × (neg_part (neg n) ≡ n)
neg_parts zero = ground arith
neg_parts (suc n) = ground arith
