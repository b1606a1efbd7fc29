-- ===== src/Lexer/Lex.antt =====
-- `lex` of code/lexer/Lexer.cpp: the loop over the text that is
-- left, its line and column, and the tokens so far.
pub mod Rules
pub mod Shadowed
pub mod Rounds
pub mod Symbols
pub mod Lexemes
pub mod Printed
pub mod RoundTrip
pub mod Limits
use mlir_rustc.Prelude.{
  ℕ, zero, suc, Bool, true, false, ◌+◌, ◌%◌, [], ◌∷◌, ◌++◌, List, Option, none, some, if◌then◌else◌,
  Bytes, codes, starts_with, Outcome, ok, exited, out_of_fuel, ◌>>=◌, length, drop,
}
use mlir_rustc.Lexer.KeyWords.{KeyWordKind, kw_staticlifetime, is_key_word}
use mlir_rustc.Lexer.Token.{
  TokenKind, Location, Token, identifier, keyword, integer_literal, string_literal, eof,
}
use mlir_rustc.Lexer.Scan.{
  try_lex_dec_literal, try_lex_comment, try_lex_inline_comment, try_lex_white_space,
  try_lex_identifier, try_lex_string,
}
use Rules.{Action, tok, crate, newline, static_lifetime, find_rule, punctuation}

-- `a += b` on `unsigned`.
unfoldable pub u32_add : ℕ → ℕ → ℕ
u32_add a b = (a + b) % 4_294_967_296

pub record LexState : Type 0 where
  pub code : Bytes
  pub line : ℕ
  pub column : ℕ
  pub tokens : List Token

-- One round of the loop ends by `continue` or by falling through, or it returns the tokens.
pub data Next : Type 0 where
  again : LexState → Next
  return_tokens : List Token → Next

-- `code.remove_prefix(n); columnNumber += n;`
unfoldable pub take_off : ℕ → LexState → LexState
unfolding u32_add
take_off n s = record s { code = drop n s.code; column = u32_add s.column n }

-- `ws = tryLexWhiteSpace(code); code.remove_prefix(ws.size()); columnNumber += ws.size();`
unfoldable pub skip_white_space : LexState → LexState
unfolding try_lex_white_space take_off
skip_white_space s = take_off (length (try_lex_white_space s.code)) s

-- What a round comes to decides whether the loop goes on.
unfoldable pub go_on : (LexState → Outcome (List Token)) → Next → Outcome (List Token)
go_on loop (again s) = loop s
go_on loop (return_tokens tokens) = ok tokens

abbrev pub is_empty : Bytes → Bool
is_empty [] = true
is_empty (_ ∷ _) = false

-- The locals of `lex` before its loop.
abbrev pub initial : Bytes → LexState
initial code = record { code = code; line = 1; column = 0; tokens = [] }

module _ (file_name : Bytes) where
  -- `Location(fileName, lineNumber, columnNumber)`
  abbrev pub here : LexState → Location
  here s = record { file_name = file_name; line = s.line; column = s.column }

  -- `ts.append(Token(...))`
  unfoldable pub append : TokenKind → Bytes → Option KeyWordKind → LexState → LexState
  append kind storage key_word s = record s {
    tokens =
        s.tokens
        ++ (record { loc = here s; kind = kind; storage = storage; key_word = key_word } ∷ []);
  }

  -- An identifier or a keyword.
  unfoldable pub append_word : Bytes → LexState → LexState
  unfolding append
  append_word id s = elim (is_key_word id) [
    | none ↦ append identifier id none s
    | some kw ↦ append keyword id (some kw) s
  ]

  unfoldable pub act : Action → LexState → LexState
  unfolding append take_off u32_add
  act (tok kind n) s = take_off n (append kind [] none s)
  act crate s = take_off 6 (append identifier (codes "$crate") none s)
  act newline s = record s { code = drop 1 s.code; line = u32_add s.line 1; column = 0 }
  act static_lifetime s = append keyword (codes "'static") (some kw_staticlifetime) (take_off 7 s)

  -- Behind the chain: the end of the text, or an unknown token.
  unfoldable pub no_rule : Bytes → LexState → Outcome Next
  no_rule [] s = ok (return_tokens (append eof [] none s).tokens)
  no_rule (_ ∷ _) s = exited

  unfoldable pub apply_rule : Option Action → LexState → Outcome Next
  unfolding act no_rule
  apply_rule (some a) s = ok (again (act a s))
  apply_rule none s = no_rule s.code s

  -- The chain of `starts_with` tests.
  unfoldable pub lex_rule : LexState → Outcome Next
  unfolding apply_rule find_rule
  lex_rule s = apply_rule (find_rule s.code punctuation) s

  unfoldable pub after_identifier : LexState → Option Bytes → Outcome Next
  unfolding append_word take_off lex_rule
  after_identifier s (some text) = ok (again (take_off (length text) (append_word text s)))
  after_identifier s none = lex_rule s

  unfoldable pub after_string : LexState → Option Bytes → Outcome Next
  unfolding after_identifier
  after_string s (some text) =
      ok (again (take_off (length text) (append string_literal text none s)))
  after_string s none = try_lex_identifier s.code >>= after_identifier s

  unfoldable pub after_dec_int : LexState → Option Bytes → Outcome Next
  unfolding after_string
  after_dec_int s (some text) =
      ok (again (take_off (length text) (append integer_literal text none s)))
  after_dec_int s none = after_string s (try_lex_string s.code)

  abbrev pub skip_comment : Outcome Bytes → LexState → Outcome Next
  skip_comment comment s = comment >>= λ text. ok (again (take_off (length text) s))

  -- A round of the loop behind the white space.
  unfoldable pub lex_item : LexState → Outcome Next
  unfolding after_dec_int try_lex_dec_literal
  lex_item s =
      if starts_with (codes "//") s.code
      then skip_comment (try_lex_comment s.code) s
      else if starts_with (codes "//*") s.code
      then skip_comment (try_lex_inline_comment s.code) s
      else try_lex_dec_literal s.code >>= after_dec_int s

  -- One round of the loop; the white space is skipped twice.
  unfoldable pub lex_round : LexState → Outcome Next
  unfolding lex_item skip_white_space
  lex_round s = lex_item (skip_white_space (skip_white_space s))

  -- `while (code.size() > 0)`, on fuel.
  unfoldable pub lex_loop : ℕ → LexState → Outcome (List Token)
  unfolding append go_on
  lex_loop zero s = out_of_fuel
  lex_loop (suc f) s =
      let rest = lex_round s >>= go_on (lex_loop f) in
      if is_empty s.code then ok (append eof [] none s).tokens else rest

  -- `lex`: a unit of fuel for each byte and one more.
  unfoldable pub lex : Bytes → Outcome (List Token)
  unfolding lex_loop lex_round
  lex code = lex_loop (suc (length code)) (initial code)
