-- ===== src/Lexer/Lex/Symbols.antt =====
-- Operator symbols in front of a blank, and the round of `lex` on them.
use mlir_rustc.Prelude.{
  ℕ, ◌≡◌, refl, Bool, true, false, [], ◌∷◌, ◌++◌, none, Bytes, starts_with, length, ok,
}
use mlir_rustc.Lexer.Token.{
  TokenKind, token_to_string, colon, r_arrow, eq, dot, q_mark, hash, square_open, square_close,
  comma, paren_open, paren_close, semi, brace_open, brace_close, star, plus, not, minus, slash,
  percent, and, and_and, or, path_sep, caret, shl, shr, dot_dot, dot_dot_dot, dot_dot_eq, lt, eq_eq,
  gt, underscore, at, plus_eq, fat_arrow,
}
use mlir_rustc.Lexer.Scan.{try_lex_identifier, try_lex_dec_literal, try_lex_string}
use mlir_rustc.Lexer.Lex.{LexState, again, take_off, append, lex_item}

pub data Blank : Type 0 where
  space tab line_feed : Blank

abbrev pub blank_byte : Blank → ℕ
blank_byte space = b' '
blank_byte tab = b'\t'
blank_byte line_feed = b'\n'

-- The kinds whose text in `Token2String` is one token for `lex`.
abbrev pub is_symbol : TokenKind → Bool
is_symbol colon = true
is_symbol r_arrow = true
is_symbol eq = true
is_symbol dot = true
is_symbol q_mark = true
is_symbol hash = true
is_symbol square_open = true
is_symbol square_close = true
is_symbol comma = true
is_symbol paren_open = true
is_symbol paren_close = true
is_symbol semi = true
is_symbol brace_open = true
is_symbol brace_close = true
is_symbol star = true
is_symbol plus = true
is_symbol not = true
is_symbol minus = true
is_symbol slash = true
is_symbol percent = true
is_symbol and = true
is_symbol and_and = true
is_symbol or = true
is_symbol path_sep = true
is_symbol caret = true
is_symbol shl = true
is_symbol shr = true
is_symbol dot_dot = true
is_symbol dot_dot_dot = true
is_symbol dot_dot_eq = true
is_symbol lt = true
is_symbol eq_eq = true
is_symbol gt = true
is_symbol underscore = true
is_symbol at = true
is_symbol plus_eq = true
is_symbol fat_arrow = true
is_symbol _ = false

pub lex_item-symbol :
    (file_name : Bytes) (s : LexState) (rest : Bytes) (k : TokenKind) (b' : Blank)
    → is_symbol k ≡ true
    → lex_item file_name (record s { code = token_to_string k ++ (blank_byte b' ∷ rest) })
      ≡ ok (
          again (
            take_off (length (token_to_string k)) (
              append file_name k [] none
                (record s { code = token_to_string k ++ (blank_byte b' ∷ rest) }))))
unfolding lex_item token_to_string starts_with try_lex_dec_literal try_lex_string try_lex_identifier
lex_item-symbol file_name s rest colon space h = refl
lex_item-symbol file_name s rest colon _ h = refl
lex_item-symbol file_name s rest r_arrow space h = refl
lex_item-symbol file_name s rest r_arrow _ h = refl
lex_item-symbol file_name s rest eq space h = refl
lex_item-symbol file_name s rest eq _ h = refl
lex_item-symbol file_name s rest dot space h = refl
lex_item-symbol file_name s rest dot _ h = refl
lex_item-symbol file_name s rest q_mark space h = refl
lex_item-symbol file_name s rest q_mark _ h = refl
lex_item-symbol file_name s rest hash space h = refl
lex_item-symbol file_name s rest hash _ h = refl
lex_item-symbol file_name s rest square_open space h = refl
lex_item-symbol file_name s rest square_open _ h = refl
lex_item-symbol file_name s rest square_close space h = refl
lex_item-symbol file_name s rest square_close _ h = refl
lex_item-symbol file_name s rest comma space h = refl
lex_item-symbol file_name s rest comma _ h = refl
lex_item-symbol file_name s rest paren_open space h = refl
lex_item-symbol file_name s rest paren_open _ h = refl
lex_item-symbol file_name s rest paren_close space h = refl
lex_item-symbol file_name s rest paren_close _ h = refl
lex_item-symbol file_name s rest semi space h = refl
lex_item-symbol file_name s rest semi _ h = refl
lex_item-symbol file_name s rest brace_open space h = refl
lex_item-symbol file_name s rest brace_open _ h = refl
lex_item-symbol file_name s rest brace_close space h = refl
lex_item-symbol file_name s rest brace_close _ h = refl
lex_item-symbol file_name s rest star space h = refl
lex_item-symbol file_name s rest star _ h = refl
lex_item-symbol file_name s rest plus space h = refl
lex_item-symbol file_name s rest plus _ h = refl
lex_item-symbol file_name s rest not space h = refl
lex_item-symbol file_name s rest not _ h = refl
lex_item-symbol file_name s rest minus space h = refl
lex_item-symbol file_name s rest minus _ h = refl
lex_item-symbol file_name s rest slash space h = refl
lex_item-symbol file_name s rest slash _ h = refl
lex_item-symbol file_name s rest percent space h = refl
lex_item-symbol file_name s rest percent _ h = refl
lex_item-symbol file_name s rest and space h = refl
lex_item-symbol file_name s rest and _ h = refl
lex_item-symbol file_name s rest and_and space h = refl
lex_item-symbol file_name s rest and_and _ h = refl
lex_item-symbol file_name s rest or space h = refl
lex_item-symbol file_name s rest or _ h = refl
lex_item-symbol file_name s rest path_sep space h = refl
lex_item-symbol file_name s rest path_sep _ h = refl
lex_item-symbol file_name s rest caret space h = refl
lex_item-symbol file_name s rest caret _ h = refl
lex_item-symbol file_name s rest shl space h = refl
lex_item-symbol file_name s rest shl _ h = refl
lex_item-symbol file_name s rest shr space h = refl
lex_item-symbol file_name s rest shr _ h = refl
lex_item-symbol file_name s rest dot_dot space h = refl
lex_item-symbol file_name s rest dot_dot _ h = refl
lex_item-symbol file_name s rest dot_dot_dot space h = refl
lex_item-symbol file_name s rest dot_dot_dot _ h = refl
lex_item-symbol file_name s rest dot_dot_eq space h = refl
lex_item-symbol file_name s rest dot_dot_eq _ h = refl
lex_item-symbol file_name s rest lt space h = refl
lex_item-symbol file_name s rest lt _ h = refl
lex_item-symbol file_name s rest eq_eq space h = refl
lex_item-symbol file_name s rest eq_eq _ h = refl
lex_item-symbol file_name s rest gt space h = refl
lex_item-symbol file_name s rest gt _ h = refl
lex_item-symbol file_name s rest underscore space h = refl
lex_item-symbol file_name s rest underscore _ h = refl
lex_item-symbol file_name s rest at space h = refl
lex_item-symbol file_name s rest at _ h = refl
lex_item-symbol file_name s rest plus_eq space h = refl
lex_item-symbol file_name s rest plus_eq _ h = refl
lex_item-symbol file_name s rest fat_arrow space h = refl
lex_item-symbol file_name s rest fat_arrow _ h = refl
lex_item-symbol file_name s rest _ _ h = cc
