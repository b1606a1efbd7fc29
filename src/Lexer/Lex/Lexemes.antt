-- ===== src/Lexer/Lex/Lexemes.antt =====
-- Words and numbers in front of a blank, and the round of `lex` on them.
use mlir_rustc.Prelude.{
  ℕ, ◌≤◌, ◌≡◌, refl, ◌∙◌, Bool, true, false, [], ◌∷◌, ◌++◌, ◌&&◌, ◌||◌, ◌==◌, none, some, inl, inr,
  arith, Bool-cases, Bytes, starts_with, All, length, ok, ◌>>=◌,
}
use mlir_rustc.Lexer.Token.{integer_literal}
use mlir_rustc.Lexer.Scan.{
  is_digit, is_alpha, is_identifier_byte, identifier_loop, try_lex_identifier, try_lex_dec_literal,
  try_lex_string,
}
use mlir_rustc.Lexer.Lex.{
  LexState, again, take_off, append, append_word, after_identifier, after_string, after_dec_int,
  lex_item,
}
use mlir_rustc.Lexer.Lex.Symbols.{Blank, blank_byte, space}

-- A letter, a digit or `_`.
abbrev pub is_word_byte : ℕ → Bool
is_word_byte c = is_alpha c || is_digit c || c == b'_'

-- A word: what `isalpha`, or `_` and then `isalpha`, begins, of letters, digits and `_`.
abbrev pub IsWord : Bytes → Type 0
IsWord [] = ⊥
IsWord (c ∷ []) = is_alpha c ≡ true
IsWord (c ∷ d ∷ cs) =
    ((is_alpha c || (c == b'_' && is_alpha d)) ≡ true)
    × (is_word_byte d ≡ true)
    × All (λ x. is_word_byte x ≡ true) cs

-- `isdigit` holds of each byte, and there are one to four of them.
abbrev pub IsInteger : Bytes → Type 0
IsInteger ds = All (λ d. is_digit d ≡ true) ds × (1 ≤ length ds) × (length ds ≤ 4)

blank-no_identifier : (b : Blank) → is_identifier_byte (blank_byte b) ≡ false
unfolding is_identifier_byte
blank-no_identifier space = refl
blank-no_identifier _ = refl

blank-no_digit : (b : Blank) → is_digit (blank_byte b) ≡ false
unfolding is_digit
blank-no_digit space = refl
blank-no_digit _ = refl

alpha-identifier : (c : ℕ) → is_alpha c ≡ true → is_identifier_byte c ≡ true
unfolding is_identifier_byte
alpha-identifier c h = ground arith

alpha-no_digit : (c : ℕ) → is_alpha c ≡ true → is_digit c ≡ false
unfolding is_digit is_alpha
alpha-no_digit c h = ground arith

word_byte-identifier : (c : ℕ) → is_word_byte c ≡ true → is_identifier_byte c ≡ true
unfolding is_identifier_byte
word_byte-identifier c h = ground arith

identifier_loop-All :
    (w : Bytes) (b : Blank) (rest : Bytes)
    → All (λ x. is_word_byte x ≡ true) w
    → identifier_loop (w ++ (blank_byte b ∷ rest)) ≡ w
unfolding identifier_loop
identifier_loop-All [] b rest h = rw (blank-no_identifier b)
identifier_loop-All (c ∷ w) b rest h =
    rw (word_byte-identifier c h.0, identifier_loop-All w b rest h.1)

-- A byte that begins a word begins no comment, number or string.
abbrev Starts : ℕ → Type 0
Starts c = (is_digit c ≡ false) × ((c == b'/') ≡ false) × ((c == b'"') ≡ false)

word-Starts : (c d : ℕ) → (is_alpha c || (c == b'_' && is_alpha d)) ≡ true → Starts c
unfolding is_digit is_alpha
word-Starts c d h = (ground arith, ground arith, ground arith)

no_dec_literal :
    (c : ℕ) (view : Bytes) → is_digit c ≡ false → try_lex_dec_literal (c ∷ view) ≡ ok none
unfolding try_lex_dec_literal
no_dec_literal c view h = rw h

-- The scanners before `tryLexIdentifier` pass such a byte on.
lex_item-Starts :
    (file_name : Bytes) (s : LexState) (c : ℕ) (view : Bytes)
    → Starts c
    → s.code ≡ c ∷ view
    → lex_item file_name s ≡ (try_lex_identifier (c ∷ view) >>= after_identifier file_name s)
unfolding lex_item after_dec_int after_string starts_with try_lex_string
lex_item-Starts file_name s c view h e = rw (e, h.1, no_dec_literal c view h.0, h.2)

word-identifier :
    (c d : ℕ) → (is_alpha c || (c == b'_' && is_alpha d)) ≡ true → is_identifier_byte c ≡ true
unfolding is_identifier_byte
word-identifier c d h = ground arith

underscore-no_alpha : (c : ℕ) → is_alpha c ≡ true → (c == b'_') ≡ false
unfolding is_alpha
underscore-no_alpha c h = ground arith

and-true : (a b : Bool) → (a && b) ≡ true → (a ≡ true) × (b ≡ true)
and-true a b h = ground arith

try_lex_identifier-word :
    (w : Bytes) (b : Blank) (rest : Bytes)
    → IsWord w
    → try_lex_identifier (w ++ (blank_byte b ∷ rest)) ≡ ok (some w)
unfolding try_lex_identifier
try_lex_identifier-word [] b rest h = absurd h
try_lex_identifier-word (c ∷ []) b rest h =
    rw (underscore-no_alpha c h, alpha-no_digit c h, h, blank-no_identifier b)
try_lex_identifier-word (c ∷ d ∷ cs) b rest h =
    let more = identifier_loop-All cs b rest h.2 in
    let no_digit = (word-Starts c d h.0).0 in
    elim (Bool-cases (is_alpha c)) [
      | inl alpha ↦
          rw (underscore-no_alpha c alpha, no_digit, alpha, word_byte-identifier d h.1, more)
      | inr other ↦
          let then_alpha = and-true (c == b'_') (is_alpha d) (rw other at h.0) in
          rw (then_alpha.0, then_alpha.1, no_digit, other, more)
    ]

-- A word is read whole, and becomes an identifier or a keyword.
pub lex_item-word :
    (file_name : Bytes) (s : LexState) (w : Bytes) (b : Blank) (rest : Bytes)
    → IsWord w
    → s.code ≡ w ++ (blank_byte b ∷ rest)
    → lex_item file_name s ≡ ok (again (take_off (length w) (append_word file_name w s)))
unfolding after_identifier
lex_item-word file_name s [] b rest h e = absurd h
lex_item-word file_name s (c ∷ []) b rest h e =
    lex_item-Starts file_name s c _ (word-Starts c 0 (rw h)) e
    ∙ rw (try_lex_identifier-word (c ∷ []) b rest h)
lex_item-word file_name s (c ∷ d ∷ cs) b rest h e =
    lex_item-Starts file_name s c _ (word-Starts c d h.0) e
    ∙ rw (try_lex_identifier-word (c ∷ d ∷ cs) b rest h)

try_lex_dec_literal-integer :
    (ds : Bytes) (b : Blank) (rest : Bytes)
    → IsInteger ds
    → try_lex_dec_literal (ds ++ (blank_byte b ∷ rest)) ≡ ok (some ds)
unfolding try_lex_dec_literal
try_lex_dec_literal-integer [] b rest h = absurd (omega arith)
try_lex_dec_literal-integer (x ∷ []) b rest h = rw (h.0.0, blank-no_digit b)
try_lex_dec_literal-integer (x ∷ y ∷ []) b rest h = rw (h.0.0, h.0.1.0, blank-no_digit b)
try_lex_dec_literal-integer (x ∷ y ∷ z ∷ []) b rest h =
    rw (h.0.0, h.0.1.0, h.0.1.1.0, blank-no_digit b)
try_lex_dec_literal-integer (x ∷ y ∷ z ∷ u ∷ []) b rest h =
    rw (h.0.0, h.0.1.0, h.0.1.1.0, h.0.1.1.1.0, blank-no_digit b)
try_lex_dec_literal-integer (x ∷ y ∷ z ∷ u ∷ v ∷ _) b rest h = absurd (omega arith)

digit-ne-slash : (d : ℕ) → is_digit d ≡ true → (d == b'/') ≡ false
unfolding is_digit
digit-ne-slash d h = ground arith

-- A number of one to four digits is read whole.
pub lex_item-integer :
    (file_name : Bytes) (s : LexState) (ds : Bytes) (b : Blank) (rest : Bytes)
    → IsInteger ds
    → s.code ≡ ds ++ (blank_byte b ∷ rest)
    → lex_item file_name s
      ≡ ok (again (take_off (length ds) (append file_name integer_literal ds none s)))
unfolding lex_item after_dec_int starts_with
lex_item-integer file_name s [] b rest h e = absurd (omega arith)
lex_item-integer file_name s (d ∷ ds) b rest h e =
    rw (e, digit-ne-slash d h.0.0, try_lex_dec_literal-integer (d ∷ ds) b rest h)
