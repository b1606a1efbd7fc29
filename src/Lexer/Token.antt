-- ===== src/Lexer/Token.antt =====
-- code/include/Lexer/Token.h and code/lexer/Token.cpp: the kinds of token, the token and how a
-- kind is printed.
use mlir_rustc.Prelude.{ℕ, Option, Bytes, codes}
use mlir_rustc.Lexer.KeyWords.{KeyWordKind}

pub data TokenKind : Type 0 where
  colon r_arrow eq dot q_mark hash square_open square_close comma identifier : TokenKind
  paren_open paren_close semi brace_open brace_close star plus keyword not minus : TokenKind
  slash percent and and_and or or_or path_sep caret shl shr dot_dot dot_dot_dot : TokenKind
  dot_dot_eq lt eq_eq ne gt ge le underscore lifetime_token lifetime_or_label : TokenKind
  char_literal string_literal raw_string_literal byte_literal byte_string_literal : TokenKind
  raw_byte_string_literal integer_literal float_literal eof at star_eq plus_eq : TokenKind
  minus_eq slash_eq percent_eq and_eq shl_eq caret_eq shr_eq or_eq fat_arrow dollar : TokenKind
  tilde : TokenKind

-- `Token2String`.
unfoldable pub token_to_string : TokenKind → Bytes
token_to_string colon = codes ":"
token_to_string r_arrow = codes "->"
token_to_string eq = codes "="
token_to_string dot = codes "."
token_to_string q_mark = codes "?"
token_to_string hash = codes "#"
token_to_string square_open = codes "["
token_to_string square_close = codes "]"
token_to_string comma = codes ","
token_to_string identifier = codes "identifier"
token_to_string paren_open = codes "("
token_to_string paren_close = codes ")"
token_to_string semi = codes ";"
token_to_string brace_open = codes "{"
token_to_string brace_close = codes "}"
token_to_string star = codes "*"
token_to_string plus = codes "+"
token_to_string keyword = codes "keyword"
token_to_string not = codes "!"
token_to_string minus = codes "-"
token_to_string slash = codes "/"
token_to_string percent = codes "%"
token_to_string and = codes "&"
token_to_string and_and = codes "&&"
token_to_string or = codes "|"
token_to_string or_or = codes "||"
token_to_string path_sep = codes "::"
token_to_string caret = codes "^"
token_to_string shl = codes "<<"
token_to_string shr = codes ">>"
token_to_string dot_dot = codes ".."
token_to_string dot_dot_dot = codes "..."
token_to_string dot_dot_eq = codes "..="
token_to_string lt = codes "<"
token_to_string eq_eq = codes "=="
token_to_string ne = codes "!="
token_to_string gt = codes ">"
token_to_string ge = codes ">="
token_to_string le = codes "<="
token_to_string underscore = codes "_"
token_to_string lifetime_token = codes "lifetime token"
token_to_string lifetime_or_label = codes "lifetime or label"
token_to_string char_literal = codes "char literal"
token_to_string string_literal = codes "string literal"
token_to_string raw_string_literal = codes "raw string literal"
token_to_string byte_literal = codes "byte literal"
token_to_string byte_string_literal = codes "byte string literal"
token_to_string raw_byte_string_literal = codes "raw byte string literal"
token_to_string integer_literal = codes "integer literal"
token_to_string float_literal = codes "float literal"
token_to_string eof = codes "eof"
token_to_string at = codes "@"
token_to_string star_eq = codes "*="
token_to_string plus_eq = codes "+="
token_to_string minus_eq = codes "-="
token_to_string slash_eq = codes "/="
token_to_string percent_eq = codes "%="
token_to_string and_eq = codes "&="
token_to_string shl_eq = codes "<<="
token_to_string caret_eq = codes "^="
token_to_string shr_eq = codes ">>="
token_to_string or_eq = codes "|="
token_to_string fat_arrow = codes "=>"
token_to_string dollar = codes "?"
token_to_string tilde = codes "~"

pub record Location : Type 0 where
  pub file_name : Bytes
  pub line : ℕ
  pub column : ℕ

-- A token as the constructors of `Token` leave it; `kw` is set for keywords only.
pub record Token : Type 0 where
  pub loc : Location
  pub kind : TokenKind
  pub storage : Bytes
  pub key_word : Option KeyWordKind
