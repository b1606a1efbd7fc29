-- ===== src/Mangler/Digits/RoundTrip.antt =====
-- Reading a number in base 62.
use mathlib.Core.Path.{subst}
use mlir_rustc.Prelude.{
  ℕ, zero, suc, ◌+◌, ◌*◌, ◌/◌, ◌%◌, ◌-◌, ◌<◌, ◌==◌, leb, Bool, true, false, ◌&&◌, if◌then◌else◌, [],
  ◌∷◌, Option, none, some, Bytes, ◌≡◌, refl, sym, ap, ◌∙◌, arith, Bool-cases, ==_iff, inl, inr,
}
use mlir_rustc.Mangler.Digits.{letter, digits_loop, to_base62}

-- The value of a digit, by the ranges of the letters.
abbrev pub digit_of : ℕ → Option ℕ
digit_of c =
    if leb b'0' c && leb c b'9'
    then some (c - b'0')
    else if leb b'a' c && leb c b'z'
    then some (c - b'a' + 10)
    else if leb b'A' c && leb c b'Z'
    then some (c - b'A' + 36)
    else none

unfoldable pub read_digits : ℕ → Bytes → Option ℕ
read_digits acc [] = some acc
read_digits acc (c ∷ cs) = elim (digit_of c) [
  | none ↦ none
  | some d ↦ read_digits (acc * 62 + d) cs
]

unfoldable pub from_base62 : Bytes → Option ℕ
unfolding read_digits
from_base62 str = read_digits 0 str

is_digit_value : Option ℕ → ℕ → Bool
is_digit_value none d = false
is_digit_value (some e) d = e == d

is_digit_value_lem : (o : Option ℕ) (d : ℕ) → is_digit_value o d ≡ true → o ≡ some d
unfolding is_digit_value
is_digit_value_lem none d h = cc
is_digit_value_lem (some e) d h = ap some ((==_iff e d).0 h)

all_below : ℕ → (ℕ → Bool) → Bool
all_below zero p = true
all_below (suc n) p = p n && all_below n p

all_below_lem : (n d : ℕ) (p : ℕ → Bool) → all_below n p ≡ true → d < n → p d ≡ true
unfolding all_below
all_below_lem zero d p h l = absurd (omega arith)
all_below_lem (suc n) d p h l = elim (Bool-cases (d == n)) [
  | inl e ↦ (let q = (==_iff d n).0 e in subst (λ k. p k ≡ true) (sym q) (ground (arith, h)))
  | inr e ↦ all_below_lem n d p (ground (arith, h)) (ground (arith, e))
]

letters_checked : all_below 62 (λ d. is_digit_value (digit_of (letter d)) d) ≡ true
unfolding all_below is_digit_value letter
letters_checked = refl

digit_of-letter : (d : ℕ) → d < 62 → digit_of (letter d) ≡ some d
digit_of-letter d l =
    is_digit_value_lem (digit_of (letter d)) d
      (all_below_lem 62 d (λ d. is_digit_value (digit_of (letter d)) d) letters_checked l)

read_letter :
    (acc d : ℕ) (cs : Bytes)
    → d < 62
    → read_digits acc (letter d ∷ cs) ≡ read_digits (acc * 62 + d) cs
unfolding read_digits
read_letter acc d cs l =
    ap (λ o. elim o [ none ↦ none | some d ↦ read_digits (acc * 62 + d) cs ]) (digit_of-letter d l)

read-digits_loop :
    (f : ℕ) (str : Bytes) (value : ℕ)
    → value < f
    → read_digits 0 (digits_loop 62 f str value) ≡ read_digits value str
unfolding digits_loop
read-digits_loop zero str value l = absurd (omega arith)
read-digits_loop (suc f) str value l =
    let d = value % 62 in
    let q = value / 62 in
    let small : d < 62 = omega arith in
    elim (Bool-cases (q == 0)) [
      | inl e ↦
          (let z = (==_iff q 0).0 e in
            rw e (read_letter 0 d str small ∙ ap (λ n. read_digits n str) (omega (arith, z))))
      | inr e ↦ rw e (
          read-digits_loop f (letter d ∷ str) q (ground (arith, e, l))
          ∙ read_letter q d str small
          ∙ ap (λ n. read_digits n str) (omega arith))
    ]

-- Reading the digits of a number in base 62 gives the number back.
pub from_base62-to_base62 : (value : ℕ) → from_base62 (to_base62 value) ≡ some value
unfolding from_base62 to_base62 read_digits
from_base62-to_base62 value = read-digits_loop (suc value) [] value (omega arith)
