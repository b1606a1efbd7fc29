-- ===== src/Lexer/Tests.antt =====
-- The lexer at concrete texts.
use mlir_rustc.Prelude.{List, [], ◌∷◌, ◌≡◌, ◌↔◌, refl, arith, Bytes, codes, some, ok, Settles}
use mlir_rustc.Lexer.KeyWords.{is_key_word, kw_fn, key_word_to_string}
use mlir_rustc.Lexer.KeyWords.Table.{is_key_word_iff}
use mlir_rustc.Lexer.Token.{brace_open}
use mlir_rustc.Lexer.Scan.{is_alpha, is_digit, is_identifier_byte}
use mlir_rustc.Lexer.Lex.{LexState, lex, lex_round, initial}
use mlir_rustc.Lexer.Lex.Rules.{find_rule, punctuation}
use mlir_rustc.Lexer.Lex.Shadowed.{reachable, find_rule-reachable}
use mlir_rustc.Lexer.Lex.Rounds.{Completes, lex-Completes, Round, lex_round-Round}
use mlir_rustc.Lexer.Lex.Symbols.{Blank, space, line_feed}
use mlir_rustc.Lexer.Lex.Printed.{Lexeme, word, integer, symbol, print, tokens_from}
use mlir_rustc.Lexer.Lex.RoundTrip.{lex-print}

abbrev file : Bytes
file = codes "main.rs"

abbrev lexemes : List (Lexeme × Blank)
lexemes =
    (word (codes "fn"), space)
    ∷ (word (codes "f1"), line_feed)
    ∷ (symbol brace_open, space)
    ∷ (integer (codes "42"), line_feed)
    ∷ []

lex-print_example : lex file (print lexemes) ≡ ok (tokens_from file 1 0 lexemes)
unfolding is_alpha is_digit is_identifier_byte
lex-print_example = lex-print file lexemes (
  (refl, refl, tt),
  ((refl, refl, tt), (refl, (((refl, (refl, tt)), omega arith, omega arith), tt))),
)

lex-Completes_example :
    Settles (Completes (initial (codes "fn f(x: u32) {}"))) (lex file (codes "fn f(x: u32) {}"))
lex-Completes_example = lex-Completes file (codes "fn f(x: u32) {}")

abbrev in_text : Bytes → LexState
in_text code = record { code = code; line = 3; column = 7; tokens = [] }

lex_round-Round_example :
    Settles (Round (in_text (codes "x y"))) (lex_round file (in_text (codes "x y")))
lex_round-Round_example = lex_round-Round file (in_text (codes "x y"))

find_rule-reachable_example :
    find_rule (codes "!= b") punctuation ≡ find_rule (codes "!= b") reachable
find_rule-reachable_example = find_rule-reachable (codes "!= b")

is_key_word_iff_example :
    (is_key_word (codes "fn") ≡ some kw_fn) ↔ (key_word_to_string kw_fn ≡ some (codes "fn"))
is_key_word_iff_example = is_key_word_iff (codes "fn") kw_fn
