-- ===== src/Parser/Attributes.antt =====
-- Attributes: code/parser/Attributes.cpp, with code/include/AST/Attr.h, AttrInput.h, OuterAttribute.h and
-- InnerAttribute.h, whose attributes are both an `Attr`. `parseExpression`, which reads what stands
-- behind an equals sign, is a parameter.
pub mod Written
pub mod Tests
use mlir_rustc.Prelude.{
  ℕ, zero, suc, Bool, true, false, if◌then◌else◌, List, [], ◌∷◌, ◌++◌, length, Option, none, some,
  Outcome, ok, exited, aborted, out_of_fuel, ◌>>=◌,
}
use mlir_rustc.Lexer.Token.{TokenKind, Token, hash, eq, eof, square_open, square_close}
use mlir_rustc.Parser.Tokens.{
  View, kind_equal, is_kind, check_outer_attribute, check_inner_attribute,
}
use mlir_rustc.Parser.TokenTrees.{Parsed, or_exit, DelimTokenTree, parse_delim_token_tree}
use mlir_rustc.Parser.Paths.{SimplePath, parse_simple_path}

pub data AttrInput (E : Type 0) : Type 0 where
  tree_input : DelimTokenTree → AttrInput E
  expression_input : E → AttrInput E

pub record Attr (E : Type 0) : Type 0 where
  pub path : SimplePath
  pub attr_input : Option (AttrInput E)

module _ {E : Type 0} (parse_expression : View → Parsed E) where
  unfoldable pub parse_attr_input : View → Parsed (AttrInput E)
  unfolding kind_equal
  parse_attr_input [] = aborted
  parse_attr_input (t ∷ view) =
      if is_kind eq t
      then (parse_expression view >>= λ r. or_exit r >>= λ e. ok (some (expression_input e.0), e.1))
      else (parse_delim_token_tree (t ∷ view) >>= λ r.
          or_exit r >>= λ d. ok (some (tree_input d.0), d.1))

  -- Behind the path.
  abbrev pub attr_rest : SimplePath → View → Parsed (Attr E)
  attr_rest p [] = aborted
  attr_rest p (t ∷ view) =
      if is_kind square_close t
      then ok (some (record { path = p; attr_input = none }), t ∷ view)
      else (parse_attr_input (t ∷ view) >>= λ r.
          or_exit r >>= λ i. ok (some (record { path = p; attr_input = some i.0 }), i.1))

  unfoldable pub parse_attr : View → Parsed (Attr E)
  unfolding kind_equal parse_attr_input
  parse_attr view = parse_simple_path view >>= λ r. or_exit r >>= λ p. attr_rest p.0 p.1

  abbrev pub attr_close : Attr E → View → Parsed (Attr E)
  attr_close a [] = aborted
  attr_close a (t ∷ view) =
      if is_kind square_close t then ok (some a, view) else ok (none, t ∷ view)

  -- From the opening bracket on, as in both kinds of attributes.
  abbrev pub in_brackets : View → Parsed (Attr E)
  in_brackets [] = aborted
  in_brackets (t ∷ view) =
      if is_kind square_open t
      then (parse_attr view >>= λ r. or_exit r >>= λ a. attr_close a.0 a.1)
      else ok (none, t ∷ view)

  -- The exclamation mark of an inner attribute.
  abbrev pub after_not : View → Parsed (Attr E)
  after_not [] = aborted
  after_not (t ∷ view) = if is_kind TokenKind.not t then in_brackets view else ok (none, t ∷ view)

  unfoldable pub parse_outer_attribute : View → Parsed (Attr E)
  unfolding kind_equal parse_attr
  parse_outer_attribute [] = aborted
  parse_outer_attribute (t ∷ view) =
      if is_kind hash t then in_brackets view else ok (none, t ∷ view)

  unfoldable pub parse_inner_attribute : View → Parsed (Attr E)
  unfolding kind_equal parse_attr
  parse_inner_attribute [] = aborted
  parse_inner_attribute (t ∷ view) = if is_kind hash t then after_not view else ok (none, t ∷ view)

  -- The loop of both functions below, on fuel.
  unfoldable pub attributes_loop :
      ℕ
      → (View → Outcome Bool)
      → (View → Parsed (Attr E))
      → List (Attr E)
      → View
      → Parsed (List (Attr E))
  unfolding kind_equal
  attributes_loop zero is_next parse attrs view = out_of_fuel
  attributes_loop (suc f) is_next parse attrs [] = aborted
  attributes_loop (suc f) is_next parse attrs (t ∷ view) =
      let more = parse (t ∷ view) >>= λ r.
      or_exit r >>= λ a. attributes_loop f is_next parse (attrs ++ a.0 ∷ []) a.1 in
      if is_kind eof t
      then ok (none, t ∷ view)
      else is_next (t ∷ view) >>= λ b. if b then more else ok (some attrs, t ∷ view)

  unfoldable pub parse_outer_attributes : ℕ → View → Parsed (List (Attr E))
  unfolding attributes_loop check_outer_attribute parse_outer_attribute
  parse_outer_attributes f view =
      attributes_loop f (check_outer_attribute 0) parse_outer_attribute [] view

  unfoldable pub parse_inner_attributes : ℕ → View → Parsed (List (Attr E))
  unfolding attributes_loop check_inner_attribute parse_inner_attribute
  parse_inner_attributes f view =
      attributes_loop f check_inner_attribute parse_inner_attribute [] view
