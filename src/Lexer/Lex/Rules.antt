-- ===== src/Lexer/Lex/Rules.antt =====
-- The chain of `starts_with` tests in `lex` of code/lexer/Lexer.cpp, as a table in the order of the
-- code.
use mlir_rustc.Prelude.{
  ℕ, List, [], ◌∷◌, Option, none, some, if◌then◌else◌, Bytes, codes, starts_with,
}
use mlir_rustc.Lexer.Token.{
  TokenKind, and, and_and, at, brace_close, brace_open, caret, colon, comma, dot, dot_dot,
  dot_dot_dot, dot_dot_eq, eq, eq_eq, fat_arrow, ge, gt, hash, le, lt, minus, ne, not, or,
  paren_close, paren_open, path_sep, percent, plus, plus_eq, q_mark, r_arrow, semi, shl, shr, slash,
  square_close, square_open, star, underscore,
}

-- What one branch does: take a token's text of this length off, or one of three special cases.
pub data Action : Type 0 where
  tok : TokenKind → ℕ → Action
  crate newline static_lifetime : Action

abbrev pub punctuation : List (Bytes × Action)
punctuation =
    (codes "!", tok not 1)
    ∷ (codes "$crate", crate)
    ∷ (codes "@", tok at 1)
    ∷ (codes "->", tok r_arrow 2)
    ∷ (codes "+=", tok plus_eq 2)
    ∷ (codes "+", tok plus 1)
    ∷ (codes "..=", tok dot_dot_eq 3)
    ∷ (codes "...", tok dot_dot_dot 3)
    ∷ (codes "..", tok dot_dot 2)
    ∷ (codes ".", tok dot 1)
    ∷ (codes "_", tok underscore 1)
    ∷ (codes "?", tok q_mark 1)
    ∷ (codes "*", tok star 1)
    ∷ (codes "==", tok eq_eq 2)
    ∷ (codes "!=", tok ne 2)
    ∷ (codes "=>", tok fat_arrow 2)
    ∷ (codes "=", tok eq 1)
    ∷ (codes "-", tok minus 1)
    ∷ (codes ">>", tok shr 2)
    ∷ (codes ">", tok gt 1)
    ∷ (codes "<<", tok shl 2)
    ∷ (codes "<=", tok le 1)
    ∷ (codes "::", tok path_sep 2)
    ∷ (codes ":", tok colon 1)
    ∷ (codes "&&", tok and_and 2)
    ∷ (codes "&", tok and 1)
    ∷ (codes "#", tok hash 1)
    ∷ (codes "{", tok brace_open 1)
    ∷ (codes "}", tok brace_close 1)
    ∷ (codes "[", tok square_open 1)
    ∷ (codes "]", tok square_close 1)
    ∷ (codes ",", tok comma 1)
    ∷ (codes "(", tok paren_open 1)
    ∷ (codes ")", tok paren_close 1)
    ∷ (codes "!", tok not 1)
    ∷ (codes ";", tok semi 1)
    ∷ (codes "|", tok or 1)
    ∷ (codes "!", tok not 1)
    ∷ (codes "^", tok caret 1)
    ∷ (codes "%", tok percent 1)
    ∷ (codes "/", tok slash 1)
    ∷ (codes ">=", tok ge 2)
    ∷ (codes "<=", tok le 2)
    ∷ (codes "<", tok lt 1)
    ∷ (codes "..", tok dot_dot 2)
    ∷ (codes "\n", newline)
    ∷ (codes "'static", static_lifetime)
    ∷ []

-- The first branch whose test passes.
unfoldable pub find_rule : Bytes → List (Bytes × Action) → Option Action
unfolding starts_with
find_rule code [] = none
find_rule code ((p, a) ∷ rules) = if starts_with p code then some a else find_rule code rules
