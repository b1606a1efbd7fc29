-- ===== src/Parser/RangePatterns.antt =====
-- Range patterns: code/parser/RangePattern.cpp, code/include/AST/Patterns/RangePattern.h and
-- RangePatternBound.h. `parsePathExpression`, which a bound that is no literal is left to, is a parameter.
pub mod Written
pub mod Tests
use mlir_rustc.Prelude.{
  Bool, if◌then◌else◌, [], ◌∷◌, Option, none, some, Bytes, Outcome, ok, aborted, ◌>>=◌,
}
use mlir_rustc.Lexer.Token.{
  TokenKind, Token, char_literal, byte_literal, integer_literal, float_literal, minus, dot_dot_eq,
  dot_dot, dot_dot_dot,
}
use mlir_rustc.Parser.Tokens.{View, kind_equal, is_kind}
use mlir_rustc.Parser.TokenTrees.{Parsed}

pub data RangePatternBoundKind : Type 0 where
  char byte minus_integer integer minus_float float path_expression : RangePatternBoundKind

pub record RangePatternBound (P : Type 0) : Type 0 where
  pub kind : RangePatternBoundKind
  pub storage : Bytes
  pub path : Option P

pub data RangePatternKind : Type 0 where
  range_inclusive range_from range_to_inclusive obsolete_range : RangePatternKind

pub record RangePattern (P : Type 0) : Type 0 where
  pub kind : RangePatternKind
  pub lower : Option (RangePatternBound P)
  pub upper : Option (RangePatternBound P)

-- A bound with a text and without a path.
abbrev pub literal_bound : {P : Type 0} → RangePatternBoundKind → Bytes → RangePatternBound P
literal_bound k text = record { kind = k; storage = text; path = none }

module _ {P : Type 0} (parse_path_expression : View → Parsed P) where
  abbrev pub path_bound : View → Parsed (RangePatternBound P)
  path_bound view = parse_path_expression view >>= λ r. elim r.0 [
    | none ↦ ok (none, r.1)
    | some p ↦ ok (some (record { kind = path_expression; storage = []; path = some p }), r.1)
  ]

  -- Behind a minus sign, whose text is stored.
  abbrev pub minus_bound : Token → View → Parsed (RangePatternBound P)
  minus_bound t [] = aborted
  minus_bound t (u ∷ view) =
      if is_kind integer_literal u
      then ok (some (literal_bound minus_integer t.storage), view)
      else if is_kind float_literal u
      then ok (some (literal_bound minus_float t.storage), view)
      else path_bound (t ∷ u ∷ view)

  -- Behind a floating-point literal: the text of the next token is stored, and this is taken off too.
  abbrev pub float_bound : View → Parsed (RangePatternBound P)
  float_bound [] = aborted
  float_bound (u ∷ view) = ok (some (literal_bound float u.storage), view)

  unfoldable pub parse_range_pattern_bound : View → Parsed (RangePatternBound P)
  unfolding kind_equal
  parse_range_pattern_bound [] = aborted
  parse_range_pattern_bound (t ∷ view) =
      if is_kind char_literal t
      then ok (some (literal_bound char t.storage), view)
      else if is_kind byte_literal t
      then ok (some (literal_bound byte t.storage), view)
      else if is_kind integer_literal t
      then ok (some (literal_bound integer t.storage), view)
      else if is_kind minus t
      then minus_bound t view
      else if is_kind float_literal t
      then float_bound view
      else path_bound (t ∷ view)

  -- The upper bound ends the pattern.
  abbrev pub with_upper :
      RangePatternKind → Option (RangePatternBound P) → View → Parsed (RangePattern P)
  with_upper k lower view = parse_range_pattern_bound view >>= λ r. elim r.0 [
    | none ↦ ok (none, r.1)
    | some upper ↦ ok (some (record { kind = k; lower = lower; upper = some upper }), r.1)
  ]

  abbrev pub after_lower : RangePatternBound P → View → Parsed (RangePattern P)
  after_lower lower [] = aborted
  after_lower lower (t ∷ view) =
      if is_kind dot_dot_eq t
      then with_upper range_inclusive (some lower) view
      else if is_kind dot_dot t
      then ok (some (record { kind = range_from; lower = some lower; upper = none }), view)
      else if is_kind dot_dot_dot t
      then with_upper obsolete_range (some lower) view
      else ok (none, t ∷ view)

  abbrev pub from_lower : View → Parsed (RangePattern P)
  from_lower view = parse_range_pattern_bound view >>= λ r. elim r.0 [
    | none ↦ ok (none, r.1)
    | some lower ↦ after_lower lower r.1
  ]

  unfoldable pub parse_range_pattern : View → Parsed (RangePattern P)
  unfolding kind_equal parse_range_pattern_bound
  parse_range_pattern [] = aborted
  parse_range_pattern (t ∷ view) =
      if is_kind dot_dot_eq t
      then with_upper range_to_inclusive none view
      else from_lower (t ∷ view)
