-- ===== src/Parser/Attributes/Written.antt =====
-- Attributes are read back from their tokens.
use mlir_rustc.Prelude.{
  ℕ, zero, suc, ◌<◌, Bool, true, false, List, [], ◌∷◌, ◌++◌, map, length, append_assoc, append-nil,
  Option, none, some, All, ok, ◌≡◌, refl, ◌∙◌, arith,
}
use mlir_rustc.Lexer.Token.{TokenKind, Token, hash, eof, square_open, square_close}
use mlir_rustc.Parser.Tokens.{
  View, kind_equal, is_kind, check, check_outer_attribute, check_inner_attribute,
}
use mlir_rustc.Parser.TokenTrees.{
  Parsed, paren, square, brace, DelimTokenTree, delim, delimiter, to_token_stream,
}
use mlir_rustc.Parser.TokenTrees.RoundTrip.{IsProperDelim, parse_delim-stream}
use mlir_rustc.Parser.Paths.{SimplePath, SimplePathSegment, parse_simple_path}
use mlir_rustc.Parser.Paths.Printed.{
  IsSegment, segment_token, leading, simple_path, parse_simple_path-stream,
}
use mlir_rustc.Parser.Attributes.{
  AttrInput, tree_input, Attr, parse_attr_input, attr_rest, parse_attr, parse_outer_attribute,
  parse_inner_attribute, attributes_loop, parse_outer_attributes, parse_inner_attributes,
}

-- A path of one segment, with a `::` before it or without one, and a token tree or nothing.
pub record Written : Type 0 where
  pub colons_first : Bool
  pub segment : SimplePathSegment
  pub tree : Option DelimTokenTree

abbrev pub IsInput : Option DelimTokenTree → Type 0
IsInput none = Unit
IsInput (some d) = IsProperDelim d

abbrev pub IsWritten : Written → Type 0
IsWritten w = IsSegment w.segment × IsInput w.tree

abbrev pub input_stream : Option DelimTokenTree → View → View
input_stream none rest = rest
input_stream (some d) rest = to_token_stream d ++ rest

abbrev pub bracket_stream : Written → View → View
bracket_stream w rest =
    delimiter square_open
    ∷ leading w.colons_first
        (segment_token w.segment ∷ input_stream w.tree (delimiter square_close ∷ rest))

abbrev pub attributes_stream : Bool → List Written → View → View
attributes_stream inner [] rest = rest
attributes_stream true (w ∷ ws) rest =
    delimiter hash ∷ delimiter TokenKind.not ∷ bracket_stream w (attributes_stream true ws rest)
attributes_stream false (w ∷ ws) rest =
    delimiter hash ∷ bracket_stream w (attributes_stream false ws rest)

abbrev pub input_of : {E : Type 0} → Option DelimTokenTree → Option (AttrInput E)
input_of none = none
input_of (some d) = some (tree_input d)

abbrev pub attr_of : {E : Type 0} → Written → Attr E
attr_of w = record {
  path = simple_path w.colons_first (w.segment ∷ []);
  attr_input = input_of w.tree;
}

module _ {E : Type 0} (parse_expression : View → Parsed E) where
  parse_attr_input-tree :
      (d : DelimTokenTree) (rest : View)
      → IsProperDelim d
      → parse_attr_input parse_expression (to_token_stream d ++ rest)
        ≡ ok (some (tree_input d), rest)
  unfolding parse_attr_input to_token_stream
  parse_attr_input-tree (delim paren ts) rest p =
      rw (parse_delim-stream (delim paren ts) rest p) refl
  parse_attr_input-tree (delim square ts) rest p =
      rw (parse_delim-stream (delim square ts) rest p) refl
  parse_attr_input-tree (delim brace ts) rest p =
      rw (parse_delim-stream (delim brace ts) rest p) refl

  -- Behind the path: the closing bracket, or a token tree before it.
  attr_rest-stream :
      (path : SimplePath) (tree : Option DelimTokenTree) (rest : View)
      → IsInput tree
      → attr_rest parse_expression path (input_stream tree (delimiter square_close ∷ rest))
        ≡ ok (
          some (record { path = path; attr_input = input_of tree }),
          delimiter square_close ∷ rest,
        )
  unfolding to_token_stream kind_equal
  attr_rest-stream path none rest h = refl
  attr_rest-stream path (some (delim paren ts)) rest h =
      rw (parse_attr_input-tree (delim paren ts) (delimiter square_close ∷ rest) h) refl
  attr_rest-stream path (some (delim square ts)) rest h =
      rw (parse_attr_input-tree (delim square ts) (delimiter square_close ∷ rest) h) refl
  attr_rest-stream path (some (delim brace ts)) rest h =
      rw (parse_attr_input-tree (delim brace ts) (delimiter square_close ∷ rest) h) refl

  -- The path ends before the closing bracket or the token tree.
  path-stream :
      (c : Bool) (seg : SimplePathSegment) (tree : Option DelimTokenTree) (rest : View)
      → IsSegment seg
      → parse_simple_path
          (leading c (segment_token seg ∷ input_stream tree (delimiter square_close ∷ rest)))
        ≡ ok (some (simple_path c (seg ∷ [])), input_stream tree (delimiter square_close ∷ rest))
  unfolding to_token_stream kind_equal
  path-stream c seg none rest s = parse_simple_path-stream c seg [] _ _ s tt refl
  path-stream c seg (some (delim paren ts)) rest s = parse_simple_path-stream c seg [] _ _ s tt refl
  path-stream c seg (some (delim square ts)) rest s =
      parse_simple_path-stream c seg [] _ _ s tt refl
  path-stream c seg (some (delim brace ts)) rest s = parse_simple_path-stream c seg [] _ _ s tt refl

  parse_outer_attribute-stream :
      (w : Written) (rest : View)
      → IsWritten w
      → parse_outer_attribute parse_expression (delimiter hash ∷ bracket_stream w rest)
        ≡ ok (some (attr_of w), rest)
  unfolding parse_outer_attribute parse_attr kind_equal
  parse_outer_attribute-stream w rest h =
      rw
        (
          path-stream w.colons_first w.segment w.tree rest h.0,
          attr_rest-stream (simple_path w.colons_first (w.segment ∷ [])) w.tree rest h.1,
        )
        refl

  parse_inner_attribute-stream :
      (w : Written) (rest : View)
      → IsWritten w
      → parse_inner_attribute parse_expression
          (delimiter hash ∷ delimiter TokenKind.not ∷ bracket_stream w rest)
        ≡ ok (some (attr_of w), rest)
  unfolding parse_inner_attribute parse_attr kind_equal
  parse_inner_attribute-stream w rest h =
      rw
        (
          path-stream w.colons_first w.segment w.tree rest h.0,
          attr_rest-stream (simple_path w.colons_first (w.segment ∷ [])) w.tree rest h.1,
        )
        refl

  -- On a token that is no `#`, both loops end.
  outer_loop-stream :
      (f : ℕ) (read : List (Attr E)) (ws : List Written) (t : Token) (rest : View)
      → All IsWritten ws
      → is_kind eof t ≡ false
      → is_kind hash t ≡ false
      → length ws < f
      → attributes_loop parse_expression f
          (check_outer_attribute 0)
          (parse_outer_attribute parse_expression)
          read
          (attributes_stream false ws (t ∷ rest))
        ≡ ok (some (read ++ map attr_of ws), t ∷ rest)
  unfolding attributes_loop check_outer_attribute check kind_equal
  outer_loop-stream zero read ws t rest h e n l = absurd (omega arith)
  outer_loop-stream (suc f) read [] t rest h e n l = rw (e, n, append-nil read) refl
  outer_loop-stream (suc f) read (w ∷ ws) t rest h e n l =
      rw (parse_outer_attribute-stream w (attributes_stream false ws (t ∷ rest)) h.0) (
        outer_loop-stream f (read ++ attr_of w ∷ []) ws t rest h.1 e n (omega arith)
        ∙ rw (append_assoc read (attr_of w ∷ []) (map attr_of ws)) refl)

  inner_loop-stream :
      (f : ℕ) (read : List (Attr E)) (ws : List Written) (t : Token) (rest : View)
      → All IsWritten ws
      → is_kind eof t ≡ false
      → is_kind hash t ≡ false
      → length ws < f
      → attributes_loop parse_expression f check_inner_attribute
          (parse_inner_attribute parse_expression)
          read
          (attributes_stream true ws (t ∷ rest))
        ≡ ok (some (read ++ map attr_of ws), t ∷ rest)
  unfolding attributes_loop check_inner_attribute check kind_equal
  inner_loop-stream zero read ws t rest h e n l = absurd (omega arith)
  inner_loop-stream (suc f) read [] t rest h e n l = rw (e, n, append-nil read) refl
  inner_loop-stream (suc f) read (w ∷ ws) t rest h e n l =
      rw (parse_inner_attribute-stream w (attributes_stream true ws (t ∷ rest)) h.0) (
        inner_loop-stream f (read ++ attr_of w ∷ []) ws t rest h.1 e n (omega arith)
        ∙ rw (append_assoc read (attr_of w ∷ []) (map attr_of ws)) refl)

  -- Outer and inner attributes, each with a path of one segment and at most a token tree, are read back
  -- from their tokens up to a token that is neither a `#` nor the end of the file, on more fuel than
  -- there are attributes and however expressions are read.
  pub parse_attributes-stream :
      (f : ℕ) (ws : List Written) (t : Token) (rest : View)
      → All IsWritten ws
      → is_kind eof t ≡ false
      → is_kind hash t ≡ false
      → length ws < f
      → (parse_outer_attributes parse_expression f (attributes_stream false ws (t ∷ rest))
          ≡ ok (some (map attr_of ws), t ∷ rest))
        × (parse_inner_attributes parse_expression f (attributes_stream true ws (t ∷ rest))
            ≡ ok (some (map attr_of ws), t ∷ rest))
  unfolding parse_outer_attributes parse_inner_attributes
  parse_attributes-stream f ws t rest h e n l =
      (outer_loop-stream f [] ws t rest h e n l, inner_loop-stream f [] ws t rest h e n l)
