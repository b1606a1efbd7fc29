-- ===== src/Toml/Lex.antt =====
-- `tryLexToml` of code/toml/TomlLexer.cpp. Every scanner stops before the last byte of the text.
pub mod Completes
use mlir_rustc.Prelude.{
  ℕ, zero, suc, Bool, true, false, ◌||◌, ◌&&◌, ◌==◌, ltb, if◌then◌else◌, List, [], ◌∷◌, ◌++◌,
  Option, none, some, Bytes, codes, starts_with, length, drop, Outcome, ok, exited, undefined,
  out_of_fuel, ◌>>=◌,
}
use mlir_rustc.Lexer.Scan.{is_digit, is_alpha}
use mlir_rustc.Toml.Values.{
  TomlKind, TomlToken, token, bare, square_open, identifier, square_close, integer, equals, string,
  brace_open, comma, brace_close,
}

-- `if (key.length() > 0) return key; return std::nullopt;`
abbrev pub unless_empty : Bytes → Option Bytes
unless_empty [] = none
unless_empty (c ∷ cs) = some (c ∷ cs)

-- The loop of `tryLexKey` and `tryLexInteger`, over the bytes that `test` holds of.
unfoldable pub bytes_loop : (ℕ → Bool) → Bytes → Bytes → Option Bytes
bytes_loop test key (c ∷ d ∷ rest) =
    let more = bytes_loop test (key ++ c ∷ []) (d ∷ rest) in
    if test c then more else unless_empty key
bytes_loop test key _ = unless_empty key

unfoldable pub is_key_byte : ℕ → Bool
unfolding is_digit is_alpha
is_key_byte c = is_alpha c || is_digit c || c == b'_' || c == b'-'

unfoldable pub try_lex_key : Bytes → Option Bytes
unfolding bytes_loop is_key_byte
try_lex_key str = bytes_loop is_key_byte [] str

unfoldable pub try_lex_integer : Bytes → Option Bytes
unfolding bytes_loop is_digit
try_lex_integer str = bytes_loop is_digit [] str

-- The loop of `tryLexString`, after the quote that opens the string; digits and `_` are ASCII.
unfoldable pub string_loop : Bytes → Bytes → Option Bytes
string_loop key (c ∷ d ∷ rest) =
    let more = string_loop (key ++ c ∷ []) (d ∷ rest) in
    if c == b'"' then some (key ++ c ∷ []) else if ltb c 128 then more else unless_empty key
string_loop key _ = unless_empty key

unfoldable pub try_lex_string : Bytes → Option Bytes
unfolding string_loop
try_lex_string [] = none
try_lex_string (c ∷ rest) = let more = string_loop (c ∷ []) rest in if c == b'"' then more else none

-- The end of `consumeRestOfLine`, which takes the newline off before it reads `line[0]`.
abbrev pub after_newline : Bytes → Bytes → Outcome Bytes
after_newline rest [] = undefined
after_newline rest (d ∷ line) = ok (rest ++ d ∷ [])

unfoldable pub consume_rest_of_line : Bytes → Bytes → Outcome Bytes
consume_rest_of_line rest [] = ok rest
consume_rest_of_line rest (c ∷ line) =
    let more = consume_rest_of_line (rest ++ c ∷ []) line in
    if c == 10 then after_newline rest line else more

-- The tokens so far, and the text that is left.
pub record TomlState : Type 0 where
  pub tokens : List TomlToken
  pub toml : Bytes

-- `toml.remove_prefix(n); ts.append(t)`
abbrev pub taken : TomlState → ℕ → TomlToken → TomlState
taken s n t = record { tokens = s.tokens ++ t ∷ []; toml = drop n s.toml }

-- `if (key) { ... }` for a scanner of tokens of one kind.
abbrev pub scanned : TomlKind → Option Bytes → TomlState → TomlState
scanned k none s = s
scanned k (some text) s = taken s (length text) (token k text)

-- A single byte that is a token.
abbrev pub sign : ℕ → Option TomlKind
sign c =
    if c == b'['
    then some square_open
    else if c == b']'
    then some square_close
    else if c == b'='
    then some equals
    else if c == b'{'
    then some brace_open
    else if c == b'}'
    then some brace_close
    else if c == b','
    then some comma
    else none

abbrev pub is_blank : ℕ → Bool
is_blank c = c == 10 || c == 9 || c == b' '

abbrev pub lex_sign : TomlState → ℕ → Option TomlKind → Outcome TomlState
lex_sign s c (some k) = ok (taken s 1 (bare k))
lex_sign s c none = if is_blank c then ok (record s { toml = drop 1 s.toml }) else exited

-- The chain of `starts_with` tests at the end of a round.
unfoldable pub lex_rest : TomlState → Bytes → Outcome TomlState
unfolding consume_rest_of_line
lex_rest s [] = exited
lex_rest s (c ∷ line) =
    if c == b'#'
    then consume_rest_of_line [] line >>= (λ rest. ok (record s { toml = drop (length rest) line }))
    else lex_sign s c (sign c)

-- A round of the loop.
unfoldable pub toml_round : TomlState → Outcome TomlState
unfolding try_lex_key try_lex_string try_lex_integer lex_rest
toml_round s =
    let s = scanned identifier (try_lex_key s.toml) s in
    let s = scanned string (try_lex_string s.toml) s in
    let s = scanned integer (try_lex_integer s.toml) s in lex_rest s s.toml

unfoldable pub toml_loop : ℕ → TomlState → Outcome (List TomlToken)
unfolding toml_round
toml_loop zero s = out_of_fuel
toml_loop (suc f) s = elim s.toml [
  | [] ↦ ok s.tokens
  | c ∷ rest ↦ toml_round s >>= λ t. toml_loop f t
]

unfoldable pub try_lex_toml : Bytes → Outcome (List TomlToken)
unfolding toml_loop
try_lex_toml toml = toml_loop (suc (length toml)) (record { tokens = []; toml = toml })
