-- ===== src/Parser/RangePatterns/Written.antt =====
-- Range patterns as they are written, and what is read of them.
use mlir_rustc.Prelude.{true, false, [], ◌∷◌, ◌++◌, none, some, ok, ◌≡◌, refl, arith}
use mlir_rustc.Lexer.Token.{
  Token, char_literal, byte_literal, integer_literal, float_literal, minus, dot_dot_eq, dot_dot,
  dot_dot_dot,
}
use mlir_rustc.Parser.Tokens.{View, kind_equal, is_kind}
use mlir_rustc.Parser.TokenTrees.{Parsed, delimiter}
use mlir_rustc.Parser.RangePatterns.{
  char, byte, integer, float, RangePatternBound, range_inclusive, range_from, range_to_inclusive,
  obsolete_range, RangePattern, literal_bound, parse_range_pattern_bound, parse_range_pattern,
}

-- The literals of one token.
pub data Literal : Type 0 where
  char_of byte_of integer_of : Token → Literal

abbrev pub literal_token : Literal → Token
literal_token (char_of t) = record t { kind = char_literal }
literal_token (byte_of t) = record t { kind = byte_literal }
literal_token (integer_of t) = record t { kind = integer_literal }

abbrev pub bound_of : {P : Type 0} → Literal → RangePatternBound P
bound_of (char_of t) = literal_bound char t.storage
bound_of (byte_of t) = literal_bound byte t.storage
bound_of (integer_of t) = literal_bound integer t.storage

-- l ..= u, l .., ..= u and l ... u
pub data Range : Type 0 where
  inclusive obsolete : Literal → Literal → Range
  from to_inclusive : Literal → Range

abbrev pub range_tokens : Range → View
range_tokens (inclusive l u) = literal_token l ∷ delimiter dot_dot_eq ∷ literal_token u ∷ []
range_tokens (obsolete l u) = literal_token l ∷ delimiter dot_dot_dot ∷ literal_token u ∷ []
range_tokens (from l) = literal_token l ∷ delimiter dot_dot ∷ []
range_tokens (to_inclusive u) = delimiter dot_dot_eq ∷ literal_token u ∷ []

abbrev pub pattern_of : {P : Type 0} → Range → RangePattern P
pattern_of (inclusive l u) = record {
  kind = range_inclusive;
  lower = some (bound_of l);
  upper = some (bound_of u);
}
pattern_of (obsolete l u) = record {
  kind = obsolete_range;
  lower = some (bound_of l);
  upper = some (bound_of u);
}
pattern_of (from l) = record { kind = range_from; lower = some (bound_of l); upper = none }
pattern_of (to_inclusive u) = record {
  kind = range_to_inclusive;
  lower = none;
  upper = some (bound_of u);
}

module _ {P : Type 0} (parse_path_expression : View → Parsed P) where
  parse_bound-literal :
      (l : Literal) (view : View)
      → parse_range_pattern_bound parse_path_expression (literal_token l ∷ view)
        ≡ ok (some (bound_of l), view)
  unfolding parse_range_pattern_bound kind_equal
  parse_bound-literal (char_of t) view = refl
  parse_bound-literal (byte_of t) view = refl
  parse_bound-literal (integer_of t) view = refl

  literal-first : (l : Literal) → is_kind dot_dot_eq (literal_token l) ≡ false
  unfolding kind_equal
  literal-first (char_of t) = refl
  literal-first (byte_of t) = refl
  literal-first (integer_of t) = refl

  -- A range pattern between literals for characters, bytes and integers is read back from its tokens,
  -- whatever follows it and however paths are read.
  pub parse_range_pattern-tokens :
      (r : Range) (view : View)
      → parse_range_pattern parse_path_expression (range_tokens r ++ view)
        ≡ ok (some (pattern_of r), view)
  unfolding parse_range_pattern kind_equal
  parse_range_pattern-tokens (inclusive l u) view =
      rw
        (
          literal-first l,
          parse_bound-literal l (delimiter dot_dot_eq ∷ literal_token u ∷ view),
          parse_bound-literal u view,
        )
        refl
  parse_range_pattern-tokens (obsolete l u) view =
      rw
        (
          literal-first l,
          parse_bound-literal l (delimiter dot_dot_dot ∷ literal_token u ∷ view),
          parse_bound-literal u view,
        )
        refl
  parse_range_pattern-tokens (from l) view =
      rw (literal-first l, parse_bound-literal l (delimiter dot_dot ∷ view)) refl
  parse_range_pattern-tokens (to_inclusive u) view = rw (parse_bound-literal u view) refl

  parse_bound-float :
      (t dots : Token) (view : View)
      → is_kind float_literal t ≡ true
      → parse_range_pattern_bound parse_path_expression (t ∷ dots ∷ view)
        ≡ ok (some (literal_bound float dots.storage), view)
  unfolding parse_range_pattern_bound
  parse_bound-float t dots view h =
      let a : is_kind char_literal t ≡ false = ground arith in
      let b : is_kind byte_literal t ≡ false = ground arith in
      let c : is_kind integer_literal t ≡ false = ground arith in
      let m : is_kind minus t ≡ false = ground arith in rw (a, b, c, m, h) refl

  -- Behind a lower bound that is a floating-point literal one token is lost, such as the dots: unless dots
  -- follow it again, no pattern is read.
  pub parse_range_pattern-float :
      (t dots u : Token) (view : View)
      → is_kind float_literal t ≡ true
      → is_kind dot_dot_eq u ≡ false
      → is_kind dot_dot u ≡ false
      → is_kind dot_dot_dot u ≡ false
      → parse_range_pattern parse_path_expression (t ∷ dots ∷ u ∷ view) ≡ ok (none, u ∷ view)
  unfolding parse_range_pattern
  parse_range_pattern-float t dots u view h e d o =
      let first : is_kind dot_dot_eq t ≡ false = ground arith in
      rw (first, parse_bound-float t dots (u ∷ view) h, e, d, o) refl
