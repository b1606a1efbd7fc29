-- ===== src/Parser/RangePatterns/Tests.antt =====
-- Range patterns through the parser.
use mlir_rustc.Prelude.{[], ◌∷◌, ◌++◌, some, none, codes, ok, aborted, ◌≡◌, refl}
use mlir_rustc.Lexer.Token.{Token, TokenKind, eof}
use mlir_rustc.Parser.Tokens.{kind_equal}
use mlir_rustc.Parser.TokenTrees.{delimiter, empty_location}
use mlir_rustc.Parser.RangePatterns.{
  parse_range_pattern, minus_integer, literal_bound, parse_range_pattern_bound,
}
use mlir_rustc.Parser.RangePatterns.Written.{
  integer_of, inclusive, range_tokens, pattern_of, parse_range_pattern-tokens,
  parse_range_pattern-float,
}
use mlir_rustc.Prelude.{String}
use mlir_rustc.Parser.TokenTrees.{Parsed}
use mlir_rustc.Parser.Tokens.{View}
use mlir_rustc.Lexer.Token.{float_literal, integer_literal, dot_dot_eq}

abbrev end : Token
end = delimiter eof

-- A parser of expressions that takes one token off.
abbrev one_token : View → Parsed Token
one_token [] = aborted
one_token (t ∷ view) = ok (some t, view)

-- A token with a text.
abbrev spelled : TokenKind → String → Token
spelled k text = record { loc = empty_location; kind = k; storage = codes text; key_word = none }

parse_range_pattern-tokens_example :
    parse_range_pattern one_token (
      range_tokens (
        inclusive
          (integer_of (spelled integer_literal "1"))
          (integer_of (spelled integer_literal "9")))
      ++ end ∷ [])
    ≡ ok (
      some (
          pattern_of (
            inclusive
              (integer_of (spelled integer_literal "1"))
              (integer_of (spelled integer_literal "9")))),
      end ∷ [],
    )
parse_range_pattern-tokens_example =
    parse_range_pattern-tokens one_token
      (inclusive (integer_of (spelled integer_literal "1"))
        (integer_of (spelled integer_literal "9")))
      (end ∷ [])

-- 1.5 ..= 2.5
parse_range_pattern-float_example :
    parse_range_pattern one_token
      (spelled float_literal "1.5" ∷ delimiter dot_dot_eq ∷ spelled float_literal "2.5" ∷ end ∷ [])
    ≡ ok (none, spelled float_literal "2.5" ∷ end ∷ [])
unfolding kind_equal
parse_range_pattern-float_example =
    parse_range_pattern-float one_token (spelled float_literal "1.5") (delimiter dot_dot_eq)
      (spelled float_literal "2.5") (end ∷ []) refl refl refl refl

-- The bound -7 holds the text of the minus sign.
minus_seven :
    parse_range_pattern_bound one_token
      (spelled TokenKind.minus "-" ∷ spelled integer_literal "7" ∷ end ∷ [])
    ≡ ok (some (literal_bound minus_integer (codes "-")), end ∷ [])
unfolding parse_range_pattern_bound
minus_seven = refl
