-- ===== src/Lexer/Scan/Lengths.antt =====
-- How the scanners of code/lexer/Lexer.cpp end, and the lengths of what they take off.
use mlir_rustc.Prelude.{
  ℕ, zero, suc, ◌+◌, ◌≤◌, ◌≡◌, true, [], ◌∷◌, ◌++◌, Option, none, some, inl, inr, arith, Bool-cases,
  Bytes, codes, starts_with, Outcome, Settles, Settles-if, Settles-bind, Settles-mono, Ends,
  and_then-Ends, get_elem?, Option-cases, ◌==◌, length, length-append,
}
use mlir_rustc.Lexer.Scan.{
  digits_end, if_digits, digit_at, no_digit_at, all_digits, try_lex_dec_literal, is_comment_byte,
  comment_loop, try_lex_comment, try_lex_identifier, string_loop, try_lex_string, is_digit,
}

-- A text that a scanner found is not empty.
abbrev pub Found : Option Bytes → Type 0
Found none = Unit
Found (some text) = 1 ≤ length text

all_digits-Found : (ws view : Bytes) → 1 ≤ length ws + length view → Found (all_digits ws view)
unfolding all_digits
all_digits-Found ws [] h = omega arith
all_digits-Found ws (c ∷ view) h = elim (Bool-cases (is_digit c)) [
  | inl digit ↦
      rw digit (all_digits-Found (ws ++ c ∷ []) view (omega (arith, length-append ws (c ∷ []))))
  | inr other ↦ rw other tt
]

comment_loop-Settles :
    (ws view : Bytes) → Settles (λ r. length ws ≤ length r) (comment_loop ws view)
unfolding comment_loop
comment_loop-Settles ws [] = omega arith
comment_loop-Settles ws (c ∷ view) =
    let longer = length-append ws (c ∷ []) in
    Settles-if _ (is_comment_byte c) _ _
      (λ _.
        Settles-mono (λ r. length (ws ++ c ∷ []) ≤ length r) (λ r. length ws ≤ length r) _
          (comment_loop-Settles (ws ++ c ∷ []) view) (λ r h. omega (arith, longer)))
      (λ _. Settles-if _ (c == b'\n') _ _ (λ _. omega (arith, longer)) (λ _. tt))

pub try_lex_comment-Settles :
    (view : Bytes)
    → starts_with (codes "//") view ≡ true
    → Settles (λ r. 1 ≤ length r) (try_lex_comment view)
unfolding try_lex_comment starts_with
try_lex_comment-Settles [] h = cc
try_lex_comment-Settles (c ∷ view) h =
    Settles-if _ (is_comment_byte c) _ _ (λ _. comment_loop-Settles (c ∷ []) view)
      (λ _. Settles-if _ (c == b'\n') _ _ (λ _. omega arith) (λ _. tt))

digit_at-Ends : (view : Bytes) (i : ℕ) → Ends (digit_at view i)
digit_at-Ends view i = ground (arith, Option-cases (get_elem? view i))

no_digit_at-Ends : (view : Bytes) (i : ℕ) → Ends (no_digit_at view i)
no_digit_at-Ends view i = ground (arith, Option-cases (get_elem? view i))

digits_end-Ends : (view : Bytes) (i n : ℕ) → Ends (digits_end view i n)
unfolding digits_end
digits_end-Ends view i zero = no_digit_at-Ends view i
digits_end-Ends view i (suc n) =
    and_then-Ends (digit_at view i) _ (digit_at-Ends view i) (digits_end-Ends view (i + 1) n)

-- A literal of at least one digit is not empty.
if_digits-Found :
    (c : ℕ) (rest : Bytes) (n : ℕ) (otherwise : Outcome (Option Bytes))
    → Settles Found otherwise
    → Settles Found (if_digits (c ∷ rest) (suc n) otherwise)
unfolding if_digits
if_digits-Found c rest n otherwise h =
    Settles-bind (λ _. Unit) Found _ _ (digits_end-Ends (c ∷ rest) 0 (suc n))
      (λ b _. Settles-if Found b _ _ (λ _. omega arith) (λ _. h))

pub try_lex_dec_literal-Found : (view : Bytes) → Settles Found (try_lex_dec_literal view)
unfolding try_lex_dec_literal
try_lex_dec_literal-Found [] = tt
try_lex_dec_literal-Found (c ∷ rest) =
    let last = all_digits-Found [] (c ∷ rest) (omega arith) in
    if_digits-Found c rest 0 _
      (if_digits-Found c rest 1 _ (if_digits-Found c rest 2 _ (if_digits-Found c rest 3 _ last)))

pub try_lex_identifier-Found : (view : Bytes) → Settles Found (try_lex_identifier view)
unfolding try_lex_identifier
try_lex_identifier-Found [] = tt
try_lex_identifier-Found (c ∷ view) = ground arith

string_loop-Found : (ws view : Bytes) → Found (string_loop ws view)
unfolding string_loop
string_loop-Found ws [] = tt
string_loop-Found ws (c ∷ view) =
    ground (arith, length-append ws (c ∷ []), string_loop-Found (ws ++ c ∷ []) view)

pub try_lex_string-Found : (view : Bytes) → Found (try_lex_string view)
unfolding try_lex_string
try_lex_string-Found [] = tt
try_lex_string-Found (c ∷ view) = ground (arith, string_loop-Found (c ∷ []) view)
