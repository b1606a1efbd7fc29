-- ===== src/Mangler/Digits/Length.antt =====
-- The number of digits of a number in base 62.
use mlir_rustc.Prelude.{
  ℕ, zero, suc, ◌+◌, ◌*◌, ◌/◌, ◌%◌, ◌^◌, ◌<◌, ◌≤◌, ◌==◌, true, [], ◌∷◌, Bytes, length, ◌≡◌, arith,
  Bool-cases, ==_iff, inl, inr,
}
use mlir_rustc.Mangler.Digits.{letter, digits_loop, to_base62}

div_below : (v p : ℕ) → v < 62 * p → v / 62 < p
div_below v p h = omega arith

power_suc : (m : ℕ) → 62 ^ suc m ≡ 62 * 62 ^ m
power_suc m = grind arith

length-digits_loop :
    (f n : ℕ) (str : Bytes) (value : ℕ)
    → value < 62 ^ suc n
    → length (digits_loop 62 f str value) ≤ suc n + length str
unfolding digits_loop
length-digits_loop zero n str value h = omega arith
length-digits_loop (suc f) zero str value h =
    let none_left : (value / 62 == 0) ≡ true =
      (==_iff (value / 62) 0).1 (omega (arith, h, power_suc 0)) in
    rw none_left (omega arith)
length-digits_loop (suc f) (suc m) str value h = elim (Bool-cases (value / 62 == 0)) [
  | inl e ↦ rw e (omega arith)
  | inr e ↦ rw e (
      omega (
        arith,
        length-digits_loop f m (letter (value % 62) ∷ str) (value / 62)
            (div_below value (62 ^ suc m) (omega (arith, h, power_suc (suc m)))),
      ))
]

-- A number below 62 ^ (n + 1) has at most n + 1 digits.
pub length-to_base62 : (n value : ℕ) → value < 62 ^ suc n → length (to_base62 value) ≤ suc n
unfolding to_base62
length-to_base62 n value h = omega (arith, length-digits_loop (suc value) n [] value h)
