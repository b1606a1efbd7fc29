-- ===== src/Parser/Attributes/Tests.antt =====
-- Attributes through the parser.
use mlir_rustc.Prelude.{true, false, [], ◌∷◌, some, none, codes, ok, aborted, ◌≡◌, refl}
use mlir_rustc.Lexer.Token.{Token, identifier, semi, eof}
use mlir_rustc.Parser.Tokens.{kind_equal}
use mlir_rustc.Parser.TokenTrees.{
  paren, brace, of_token, of_tree, DelimTokenTree, delim, no_tree, one_tree, delimiter,
  empty_location,
}
use mlir_rustc.Parser.Paths.{named}
use mlir_rustc.Parser.Attributes.{parse_outer_attributes, parse_inner_attributes}
use mlir_rustc.Parser.Attributes.Written.{
  Written, attributes_stream, attr_of, parse_attributes-stream,
}
use mlir_rustc.Prelude.{List, map, arith}
use mlir_rustc.Parser.TokenTrees.{Parsed}
use mlir_rustc.Parser.Tokens.{View}

abbrev name : Token
name = record { loc = empty_location; kind = identifier; storage = codes "name"; key_word = none }

abbrev end : Token
end = delimiter eof

-- ( name { ; } )
abbrev nested : DelimTokenTree
nested = delim paren (
    one_tree (of_token name)
      (one_tree (of_tree (delim brace (one_tree (of_token (delimiter semi)) no_tree))) no_tree))

-- A parser of expressions that takes one token off.
abbrev one_token : View → Parsed Token
one_token [] = aborted
one_token (t ∷ view) = ok (some t, view)

-- name and name ( name { ; } )
abbrev attributes : List Written
attributes =
    record { colons_first = false; segment = named (codes "name"); tree = none }
    ∷ record { colons_first = false; segment = named (codes "name"); tree = some nested }
    ∷ []

parse_attributes-stream_example :
    (parse_outer_attributes one_token 3 (attributes_stream false attributes (name ∷ end ∷ []))
      ≡ ok (some (map attr_of attributes), name ∷ end ∷ []))
    × (parse_inner_attributes one_token 3 (attributes_stream true attributes (name ∷ end ∷ []))
        ≡ ok (some (map attr_of attributes), name ∷ end ∷ []))
unfolding kind_equal
parse_attributes-stream_example =
    parse_attributes-stream one_token 3 attributes name (end ∷ [])
      ((tt, tt), ((tt, ((refl, refl), (((refl, refl), tt), tt))), tt)) refl refl (omega arith)
