-- ===== src/Mangler/Digits.antt =====
-- Numbers in a symbol: `toBase62`, `std::to_string`, and `std::hex` of `mangleConst`.
pub mod RoundTrip
pub mod Length
use mlir_rustc.Prelude.{
  ℕ, zero, suc, ◌/◌, ◌%◌, ◌==◌, if◌then◌else◌, List, [], ◌∷◌, ◌++◌, Option, none, some, Bytes,
  codes, get_elem?,
}

abbrev pub code_letters : Bytes
code_letters = codes "0123456789abcdefghijklmnopqrstuvwxyzABCDEFGHIJKLMNOPQRSTUVWXYZ"

-- `CODES[i]`, for an index below the length.
unfoldable pub letter : ℕ → ℕ
letter i = elim (get_elem? code_letters i) [ none ↦ 0 | some c ↦ c ]

-- The `do ... while` loop in base `b`, for 2 <= b <= 62. On fuel: the value gets smaller in each round.
unfoldable pub digits_loop : ℕ → ℕ → Bytes → ℕ → Bytes
unfolding letter
digits_loop b zero str value = str
digits_loop b (suc f) str value =
    let more = digits_loop b f (letter (value % b) ∷ str) (value / b) in
    if value / b == 0 then letter (value % b) ∷ str else more

unfoldable pub to_base62 : ℕ → Bytes
unfolding digits_loop
to_base62 value = digits_loop 62 (suc value) [] value

unfoldable pub to_decimal : ℕ → Bytes
unfolding digits_loop
to_decimal value = digits_loop 10 (suc value) [] value

unfoldable pub mangle_const : ℕ → Bytes
unfolding digits_loop
mangle_const c = digits_loop 16 (suc c) [] c ++ codes "_"
