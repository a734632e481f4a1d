-- ===== src/Base/Bytes.antt =====
-- Byte arrays as lists: reads, comparison, copying into a buffer, big-endian fields.
use Prim.Native.Nat.{ℕ, zero, suc, ◌+◌, ◌-◌, ◌*◌, ◌≤◌, ◌<◌}
use mathlib.Core.Path.{◌≡◌, refl, sym, ap, ap₂, ◌∙◌}
use mathlib.Core.Bool.{Bool, true, false, ◌&&◌}
use mathlib.Core.List.{List, [], ◌∷◌, ◌++◌}
use native.Mathlib.Omega.{arith}
use mathlib.Core.Logic.{◌↔◌, inl, inr}
use esp_ptp.Base.Tests.{◌==◌, ltb, leb, if◌then◌else◌, Bool-cases}
use esp_ptp.Base.Lists.{
  length-drop, length, get_or, set, take, drop, replicate, length-set, length-take,
}

abbrev pub Bytes : Type 0
Bytes = List ℕ

-- message[i]; the memory past the end reads as 0, and the theorems say that it is not read.
abbrev pub byte : Bytes → ℕ → ℕ
byte m i = get_or m i 0

-- `!memcmp(a, b, n)` of two arrays of n bytes.
unfoldable pub same : Bytes → Bytes → Bool
same [] [] = true
same [] (y ∷ ys) = false
same (x ∷ xs) [] = false
same (x ∷ xs) (y ∷ ys) = x == y && same xs ys

pub same_iff : (xs ys : Bytes) → (same xs ys ≡ true) ↔ (xs ≡ ys)
unfolding same
same_iff [] [] = ground arith
same_iff [] (y ∷ ys) = ground arith
same_iff (x ∷ xs) [] = ground arith
same_iff (x ∷ xs) (y ∷ ys) = ground (arith, same_iff xs ys)

pub same_refl : (xs : Bytes) → same xs xs ≡ true
same_refl xs = (same_iff xs xs).1 refl

-- bytes [at, at + n) of a message
abbrev pub slice : Bytes → ℕ → ℕ → Bytes
slice m from n = take n (drop from m)

-- a big-endian 16-bit field
abbrev pub be16 : Bytes → ℕ → ℕ
be16 m i = byte m i * 256 + byte m (i + 1)

-- `memset(p, 0, n)` of a fresh array
abbrev pub zeros : ℕ → Bytes
zeros n = replicate n 0

-- memcpy(m + i, xs, length xs)
abbrev pub copy : Bytes → ℕ → Bytes → Bytes
copy m i [] = m
copy m i (x ∷ xs) = copy (set m i x) (i + 1) xs

-- memset(m + i, v, n)
abbrev pub fill : Bytes → ℕ → ℕ → ℕ → Bytes
fill m i v zero = m
fill m i v (suc n) = fill (set m i v) (i + 1) v n

pub byte-set :
    (m : Bytes) (i v j : ℕ)
    → byte (set m i v) j ≡ (if i == j && ltb i (length m) then v else byte m j)
byte-set [] i v j = ground arith
byte-set (x ∷ m) zero v zero = ground arith
byte-set (x ∷ m) zero v (suc j) = ground arith
byte-set (x ∷ m) (suc i) v zero = ground arith
byte-set (x ∷ m) (suc i) v (suc j) = ground (arith, byte-set m i v j)

pub byte-fill :
    (m : Bytes) (i v n j : ℕ)
    → byte (fill m i v n) j ≡ (if leb i j && ltb j (i + n) && ltb j (length m) then v else byte m j)
byte-fill m i v zero j = ground arith
byte-fill m i v (suc n) j =
    ground (arith, byte-fill (set m i v) (i + 1) v n j, byte-set m i v j, length-set m i v)

byte-cons : (x : ℕ) (xs : Bytes) (k : ℕ) → byte (x ∷ xs) k ≡ (if k == 0 then x else byte xs (k - 1))
byte-cons x xs zero = refl
byte-cons x xs (suc k) = ground arith

pub byte-copy :
    (m : Bytes) (i : ℕ) (xs : Bytes) (j : ℕ)
    → byte (copy m i xs) j
      ≡ (if leb i j && ltb j (i + length xs) && ltb j (length m) then byte xs (j - i) else byte m j)
byte-copy m i [] j = ground arith
byte-copy m i (x ∷ xs) j = ground (
  arith,
  byte-copy (set m i x) (i + 1) xs j,
  byte-set m i x j,
  length-set m i x,
  byte-cons x xs (j - i),
)

pub length-fill : (m : Bytes) (i v n : ℕ) → length (fill m i v n) ≡ length m
length-fill m i v zero = refl
length-fill m i v (suc n) = length-fill (set m i v) (i + 1) v n ∙ length-set m i v

pub length-copy : (m : Bytes) (i : ℕ) (xs : Bytes) → length (copy m i xs) ≡ length m
length-copy m i [] = refl
length-copy m i (x ∷ xs) = length-copy (set m i x) (i + 1) xs ∙ length-set m i x

-- Only the first n bytes of a message are read by reads below n.
pub byte-take : (n : ℕ) (m : Bytes) (i : ℕ) → i < n → byte (take n m) i ≡ byte m i
byte-take zero m i h = absurd (omega arith)
byte-take (suc n) [] i h = refl
byte-take (suc n) (x ∷ m) zero h = refl
byte-take (suc n) (x ∷ m) (suc i) h = byte-take n m i (omega arith)

-- Two arrays of one length with the same bytes are equal.
pub bytes_ext :
    (xs ys : Bytes) → length xs ≡ length ys → ((j : ℕ) → byte xs j ≡ byte ys j) → xs ≡ ys
bytes_ext [] [] e h = refl
bytes_ext [] (y ∷ ys) e h = absurd (omega arith)
bytes_ext (x ∷ xs) [] e h = absurd (omega arith)
bytes_ext (x ∷ xs) (y ∷ ys) e h = ap₂ ◌∷◌ (h 0) (bytes_ext xs ys (omega arith) (λ j. h (suc j)))

take-nil : (n : ℕ) → take {A = ℕ} n [] ≡ []
take-nil zero = refl
take-nil (suc n) = refl

pub drop-take : (k i : ℕ) (m : Bytes) → drop i (take k m) ≡ take (k - i) (drop i m)
drop-take k zero m = ap (λ j. take j m) (omega arith)
drop-take zero (suc i) m = let e : 0 - suc i ≡ 0 = omega arith in rw e
drop-take (suc k) (suc i) [] = sym (take-nil (suc k - suc i))
drop-take (suc k) (suc i) (x ∷ m) = drop-take k i m ∙ ap (λ j. take j (drop i m)) (omega arith)

pub take-take : (n k : ℕ) (m : Bytes) → n ≤ k → take n (take k m) ≡ take n m
take-take zero k m h = refl
take-take (suc n) zero m h = absurd (omega arith)
take-take (suc n) (suc k) [] h = refl
take-take (suc n) (suc k) (x ∷ m) h = ap (λ l. x ∷ l) (take-take n k m (omega arith))

-- A field within the first k bytes does not depend on the rest.
pub slice-take :
    (k : ℕ) (m : Bytes) (from n : ℕ) → from + n ≤ k → slice (take k m) from n ≡ slice m from n
slice-take k m from n h =
    rw (drop-take k from m) (take-take n (k - from) (drop from m) (omega arith))

pub byte-append_right : (xs ys : Bytes) (i : ℕ) → byte (xs ++ ys) (length xs + i) ≡ byte ys i
byte-append_right [] ys i = ap (λ j. byte ys j) (omega arith)
byte-append_right (x ∷ xs) ys i =
    let e : suc (length xs) + i ≡ suc (length xs + i) = omega arith in
    rw e (byte-append_right xs ys i)

pub byte-append_left : (xs ys : Bytes) (i : ℕ) → i < length xs → byte (xs ++ ys) i ≡ byte xs i
byte-append_left [] ys i h = absurd (omega arith)
byte-append_left (x ∷ xs) ys zero h = refl
byte-append_left (x ∷ xs) ys (suc i) h = byte-append_left xs ys i (omega arith)

drop-append : (pre xs : Bytes) → drop (length pre) (pre ++ xs) ≡ xs
drop-append [] xs = refl
drop-append (x ∷ pre) xs = drop-append pre xs

take-append : (xs ys : Bytes) → take (length xs) (xs ++ ys) ≡ xs
take-append [] ys = refl
take-append (x ∷ xs) ys = ap (λ l. x ∷ l) (take-append xs ys)

pub slice-append :
    (pre field rest : Bytes) (from n : ℕ)
    → from ≡ length pre
    → n ≡ length field
    → slice (pre ++ (field ++ rest)) from n ≡ field
slice-append pre field rest from n e h = rw (e, h, drop-append) (take-append field rest)

pub byte_past : (xs : Bytes) (j : ℕ) → length xs ≤ j → byte xs j ≡ 0
byte_past [] j h = refl
byte_past (x ∷ xs) zero h = absurd (omega arith)
byte_past (x ∷ xs) (suc j) h = byte_past xs j (omega arith)

-- What is copied to the front of a buffer that holds it can be read back.
pub take-copy : (m xs : Bytes) → length xs ≤ length m → take (length xs) (copy m 0 xs) ≡ xs
take-copy m xs h =
    bytes_ext (take (length xs) (copy m 0 xs)) xs
      (omega (arith, length-take (length xs) (copy m 0 xs), length-copy m 0 xs)) pointwise
  where
    pointwise : (j : ℕ) → byte (take (length xs) (copy m 0 xs)) j ≡ byte xs j
    pointwise j = elim (Bool-cases (ltb j (length xs))) [
      | inl e ↦
          let sub : j - 0 ≡ j = omega arith in
          rw (byte-take (length xs) (copy m 0 xs) j (ground arith), byte-copy m 0 xs j)
            (ground (arith, sub))
      | inr e ↦ rw (
        byte_past xs j (ground arith),
        byte_past (take (length xs) (copy m 0 xs)) j
            (ground (arith, length-take (length xs) (copy m 0 xs))),
      )
    ]

-- A big-endian field within the first k bytes.
pub be16-take : (k : ℕ) (m : Bytes) (i : ℕ) → i + 2 ≤ k → be16 (take k m) i ≡ be16 m i
be16-take k m i h =
    omega (arith, byte-take k m i (omega arith), byte-take k m (i + 1) (omega arith))

fill-cons : (x : ℕ) (m : Bytes) (i v n : ℕ) → fill (x ∷ m) (suc i) v n ≡ x ∷ fill m i v n
fill-cons x m i v zero = refl
fill-cons x m i v (suc n) =
    let e : suc i + 1 ≡ suc (i + 1) = omega arith in rw e (fill-cons x (set m i v) (i + 1) v n)

-- Filling the front of a buffer.
pub fill_front : (m : Bytes) (v n : ℕ) → n ≤ length m → fill m 0 v n ≡ replicate n v ++ drop n m
fill_front m v zero h = refl
fill_front [] v (suc n) h = absurd (omega arith)
fill_front (x ∷ m) v (suc n) h =
    fill-cons v m 0 v n ∙ ap (λ l. v ∷ l) (fill_front m v n (omega arith))

copy-cons : (x : ℕ) (m : Bytes) (i : ℕ) (xs : Bytes) → copy (x ∷ m) (suc i) xs ≡ x ∷ copy m i xs
copy-cons x m i [] = refl
copy-cons x m i (y ∷ ys) =
    let e : suc i + 1 ≡ suc (i + 1) = omega arith in rw e (copy-cons x (set m i y) (i + 1) ys)

-- Copying to the front of a buffer.
pub copy_front : (m xs : Bytes) → length xs ≤ length m → copy m 0 xs ≡ xs ++ drop (length xs) m
copy_front m [] h = refl
copy_front [] (y ∷ ys) h = absurd (omega arith)
copy_front (x ∷ m) (y ∷ ys) h = copy-cons y m 0 ys ∙ ap (λ l. y ∷ l) (copy_front m ys (omega arith))

pub byte-drop : (i : ℕ) (m : Bytes) (j : ℕ) → byte (drop i m) j ≡ byte m (i + j)
byte-drop zero m j = ap (λ k. byte m k) (omega arith)
byte-drop (suc i) [] j = ground arith
byte-drop (suc i) (x ∷ m) j = byte-drop i m j ∙ byte-suc x m (i + j) (suc i + j) (omega arith)
  where
    byte-suc : (x : ℕ) (m : Bytes) (k l : ℕ) → l ≡ suc k → byte m k ≡ byte (x ∷ m) l
    byte-suc x m k l e = rw e refl

-- A part of what was copied into a buffer can be read back where it stands.
pub slice-copy :
    (m : Bytes) (i : ℕ) (xs : Bytes) (k n : ℕ)
    → i + length xs ≤ length m
    → k + n ≤ length xs
    → slice (copy m i xs) (i + k) n ≡ slice xs k n
slice-copy m i xs k n fits inside =
    let m' = copy m i xs in
    let size : length (slice m' (i + k) n) ≡ n =
      omega (arith, length-take n (drop (i + k) m'), length-drop (i + k) m', length-copy m i xs) in
    let size' : length (slice xs k n) ≡ n =
      omega (arith, length-take n (drop k xs), length-drop k xs) in
    bytes_ext (slice m' (i + k) n) (slice xs k n) (omega (arith, size, size')) (λ j.
      elim (Bool-cases (ltb j n)) [
        | inl e ↦
            let sub : i + k + j - i ≡ k + j = omega arith in
            rw
              (
                byte-take n (drop (i + k) m') j (ground arith),
                byte-take n (drop k xs) j (ground arith),
                byte-drop (i + k) m' j,
                byte-drop k xs j,
                byte-copy m i xs (i + k + j),
              )
              (ground (arith, sub))
        | inr e ↦ rw (
          byte_past (slice m' (i + k) n) j (ground (arith, size)),
          byte_past (slice xs k n) j (ground (arith, size')),
        )
      ])
