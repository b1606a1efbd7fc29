-- ===== src/Lexer/Lex/Printed.antt =====
-- Printed lexemes: their text, and the tokens that stand for them.
use mlir_rustc.Prelude.{
  ℕ, ◌+◌, ◌≤◌, ◌<◌, ◌≡◌, refl, true, false, List, [], ◌∷◌, ◌++◌, ◌||◌, ◌==◌, Option, none, some,
  arith, Bytes, length, length-append,
}
use mlir_rustc.Lexer.KeyWords.{KeyWordKind, is_key_word}
use mlir_rustc.Lexer.Token.{
  TokenKind, Token, token_to_string, identifier, keyword, integer_literal, eof,
}
use mlir_rustc.Lexer.Scan.{is_alpha, is_digit}
use mlir_rustc.Lexer.Lex.Symbols.{Blank, line_feed, blank_byte, is_symbol}
use mlir_rustc.Lexer.Lex.Lexemes.{IsWord, IsInteger}
use mlir_rustc.Lexer.Lex.{u32_add, LexState, take_off, skip_white_space, is_empty}

pub data Lexeme : Type 0 where
  word : Bytes → Lexeme
  integer : Bytes → Lexeme
  symbol : TokenKind → Lexeme

abbrev pub text : Lexeme → Bytes
text (word w) = w
text (integer ds) = ds
text (symbol k) = token_to_string k

abbrev pub IsLexeme : Lexeme → Type 0
IsLexeme (word w) = IsWord w
IsLexeme (integer ds) = IsInteger ds
IsLexeme (symbol k) = is_symbol k ≡ true

abbrev pub word_kind : Option KeyWordKind → TokenKind
word_kind none = identifier
word_kind (some _) = keyword

-- The kind, the text and the keyword that the token of a lexeme holds.
abbrev pub made : Lexeme → TokenKind × Bytes × Option KeyWordKind
made (word w) = (word_kind (is_key_word w), w, is_key_word w)
made (integer ds) = (integer_literal, ds, none)
made (symbol k) = (k, [], none)

-- Each lexeme is followed by a blank, and the text ends in one more newline.
abbrev pub print : List (Lexeme × Blank) → Bytes
print [] = b'\n' ∷ []
print ((l, b) ∷ ls) = text l ++ (blank_byte b ∷ print ls)

abbrev pub token_at : Bytes → ℕ → ℕ → TokenKind → Bytes → Option KeyWordKind → Token
token_at file_name line column kind storage kw = record {
  loc = record { file_name = file_name; line = line; column = column };
  kind = kind;
  storage = storage;
  key_word = kw;
}

-- The tokens of printed lexemes, the first of which stands at this line and column.
abbrev pub tokens_from : Bytes → ℕ → ℕ → List (Lexeme × Blank) → List Token
tokens_from file_name line column [] = token_at file_name (u32_add line 1) 0 eof [] none ∷ []
tokens_from file_name line column ((l, line_feed) ∷ ls) =
    token_at file_name line column (made l).0 (made l).1 (made l).2
    ∷ tokens_from file_name (u32_add line 1) 0 ls
tokens_from file_name line column ((l, b) ∷ ls) =
    token_at file_name line column (made l).0 (made l).1 (made l).2
    ∷ tokens_from file_name line (u32_add (u32_add column (length (text l))) 1) ls

-- A space or a tab that the next round skips.
pub data Gap : Type 0 where
  no_gap space_gap tab_gap : Gap

abbrev pub gap_bytes : Gap → Bytes
gap_bytes no_gap = []
gap_bytes space_gap = b' ' ∷ []
gap_bytes tab_gap = b'\t' ∷ []

abbrev pub after_gap : Gap → ℕ → ℕ
after_gap no_gap column = column
after_gap _ column = u32_add column 1

pub skip_white_space-gap :
    (s : LexState) (g : Gap) (c : ℕ) (rest : Bytes)
    → (c == b' ' || c == b'\t') ≡ false
    → s.code ≡ gap_bytes g ++ (c ∷ rest)
    → skip_white_space s
      ≡ record s { code = c ∷ rest; column = u32_add s.column (length (gap_bytes g)) }
unfolding skip_white_space take_off
skip_white_space-gap s no_gap c rest h e = rw (e, h)
skip_white_space-gap s space_gap c rest h e = rw (e, h)
skip_white_space-gap s tab_gap c rest h e = rw (e, h)

pub u32_add-zero :
    (g : Gap) (column : ℕ)
    → column < 4_294_967_296
    → u32_add (u32_add column (length (gap_bytes g))) 0 ≡ after_gap g column
unfolding u32_add
u32_add-zero no_gap column k = omega arith
u32_add-zero space_gap column k = omega arith
u32_add-zero tab_gap column k = omega arith

abbrev NoBlank : Bytes → Type 0
NoBlank [] = ⊥
NoBlank (c ∷ _) = (c == b' ' || c == b'\t') ≡ false

symbol-NoBlank : (k : TokenKind) → NoBlank (token_to_string k)
unfolding token_to_string
symbol-NoBlank eof = refl
symbol-NoBlank _ = refl

pub Lexeme-NoBlank : (l : Lexeme) → IsLexeme l → NoBlank (text l)
unfolding is_alpha is_digit
Lexeme-NoBlank (word []) h = h
Lexeme-NoBlank (word (c ∷ [])) h = ground arith
Lexeme-NoBlank (word (c ∷ d ∷ cs)) h = ground arith
Lexeme-NoBlank (integer []) h = absurd (omega arith)
Lexeme-NoBlank (integer (d ∷ ds)) h = ground arith
Lexeme-NoBlank (symbol k) h = symbol-NoBlank k

-- The first byte of a text that is not empty, with another text behind it.
pub head_byte :
    (t rest : Bytes)
    → NoBlank t
    → (c : ℕ) × (cs : Bytes) × (t ++ rest ≡ c ∷ cs) × ((c == b' ' || c == b'\t') ≡ false)
head_byte [] rest h = absurd h
head_byte (c ∷ t) rest h = (c, t ++ rest, refl, h)

pub gap-no_empty :
    (g : Gap) (t rest : Bytes) → NoBlank t → is_empty (gap_bytes g ++ (t ++ rest)) ≡ false
gap-no_empty no_gap [] rest h = absurd h
gap-no_empty no_gap (c ∷ t) rest h = refl
gap-no_empty space_gap t rest h = refl
gap-no_empty tab_gap t rest h = refl

pub length-gap : (g : Gap) (rest : Bytes) → length rest ≤ length (gap_bytes g ++ rest)
length-gap no_gap rest = omega arith
length-gap space_gap rest = omega arith
length-gap tab_gap rest = omega arith

length-NoBlank : (t : Bytes) → NoBlank t → 1 ≤ length t
length-NoBlank [] h = absurd h
length-NoBlank (c ∷ t) h = omega arith

pub length-printed :
    (g : Gap) (l : Lexeme) (b : Blank) (rest : Bytes)
    → IsLexeme l
    → 2 + length rest ≤ length (gap_bytes g ++ (text l ++ (blank_byte b ∷ rest)))
length-printed g l b rest h = omega (
  arith,
  length-gap g (text l ++ (blank_byte b ∷ rest)),
  length-append (text l) (blank_byte b ∷ rest),
  length-NoBlank (text l) (Lexeme-NoBlank l h),
)

pub u32_add-lt : (a b : ℕ) → u32_add a b < 4_294_967_296
unfolding u32_add
u32_add-lt a b = omega arith
