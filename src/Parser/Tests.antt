-- ===== src/Parser/Tests.antt =====
-- Streams of tokens through the parsers.
use mlir_rustc.Prelude.{
  zero, true, false, [], ◌∷◌, ◌++◌, some, none, codes, ok, exited, out_of_fuel, ◌≡◌, ◌↔◌, refl,
}
use mlir_rustc.Lexer.KeyWords.{kw_as, kw_crate, kw_pub, kw_selfvalue, value}
use mlir_rustc.Lexer.Token.{
  Token, TokenKind, identifier, keyword, paren_open, paren_close, square_close, brace_open,
  brace_close, path_sep, semi, eof, slash, dot, star,
}
use mlir_rustc.Parser.Tokens.{kind_equal, is_kind}
use mlir_rustc.Parser.TokenTrees.{
  paren, brace, of_token, of_tree, DelimTokenTree, delim, no_tree, one_tree, delimiter,
  empty_location, parse_token_tree, parse_delim_token_tree, to_token_stream,
}
use mlir_rustc.Parser.TokenTrees.Enough.{Leaves, Took, parse_token_tree-Took}
use mlir_rustc.Parser.TokenTrees.RoundTrip.{parse_delim-stream}
use mlir_rustc.Parser.Paths.{named, key_word, parse_simple_path, parse_visibility, public_self}
use mlir_rustc.Parser.Paths.Printed.{simple_path, parse_simple_path-stream}
use mlir_rustc.Parser.UseTrees
use mlir_rustc.Parser.UseTrees.{
  use_tree, UseTreeKind, of_path, parse_use_tree, parse_use_declaration,
}
use mlir_rustc.Parser.UseTrees.Groups.{parse_use_tree-group}
use mlir_rustc.Parser.UseTrees.Imports.{
  IsImport, as_name, ending_tree, parse_use_tree-IsImport, parse_use_tree-stream,
}
use mlir_rustc.Parser.MacroItems.{macro_loop}
use mlir_rustc.Parser.MacroItems.Answers.{PathTo, macro_loop_iff}
use mlir_rustc.Parser.Precedence.{get_left_binding_power}

abbrev name : Token
name = record { loc = empty_location; kind = identifier; storage = codes "name"; key_word = none }

abbrev as_word : Token
as_word = record { loc = empty_location; kind = keyword; storage = []; key_word = some kw_as }

abbrev end : Token
end = delimiter eof

-- ( name { ; } )
abbrev nested : DelimTokenTree
nested = delim paren (
    one_tree (of_token name)
      (one_tree (of_tree (delim brace (one_tree (of_token (delimiter semi)) no_tree))) no_tree))

parse_delim-stream_example :
    parse_delim_token_tree (to_token_stream nested ++ end ∷ []) ≡ ok (some nested, end ∷ [])
unfolding kind_equal
parse_delim-stream_example =
    parse_delim-stream nested (end ∷ []) ((refl, refl), (((refl, refl), tt), tt))

-- ( ]
mismatched :
    parse_delim_token_tree (delimiter paren_open ∷ delimiter square_close ∷ end ∷ []) ≡ exited
unfolding parse_delim_token_tree
mismatched = refl

parse_token_tree-Took_example :
    Leaves 2 (parse_token_tree (delimiter paren_open ∷ delimiter square_close ∷ end ∷ []))
    × Took 2 (parse_delim_token_tree (delimiter paren_open ∷ delimiter square_close ∷ end ∷ []))
parse_token_tree-Took_example =
    parse_token_tree-Took (delimiter paren_open) (delimiter square_close ∷ end ∷ [])

-- crate::::name;
parse_simple_path-stream_example :
    parse_simple_path (
      record { loc = empty_location; kind = keyword; storage = []; key_word = some kw_crate }
      ∷ delimiter path_sep
      ∷ delimiter path_sep
      ∷ name
      ∷ delimiter semi
      ∷ [])
    ≡ ok (
      some (simple_path false (key_word kw_crate ∷ named (codes "name") ∷ [])),
      delimiter semi ∷ [],
    )
unfolding kind_equal
parse_simple_path-stream_example =
    parse_simple_path-stream false (key_word kw_crate) (named (codes "name") ∷ []) (delimiter semi)
      [] tt (tt, tt) refl

-- name as name;
parse_use_tree-stream_example :
    parse_use_tree 1 (name ∷ as_word ∷ name ∷ delimiter semi ∷ [])
    ≡ ok (
      some (ending_tree (simple_path false (named (codes "name") ∷ [])) (as_name (codes "name"))),
      delimiter semi ∷ [],
    )
unfolding kind_equal value
parse_use_tree-stream_example =
    parse_use_tree-stream zero false (named (codes "name")) [] (as_name (codes "name"))
      (delimiter semi) [] tt tt refl refl

-- name::*; is read as name.
glob_after_path :
    parse_use_tree 9 (name ∷ delimiter path_sep ∷ delimiter star ∷ delimiter semi ∷ [])
    ≡ ok (
      some (of_path (simple_path false (named (codes "name") ∷ [])) none),
      delimiter star ∷ delimiter semi ∷ [],
    )
unfolding parse_use_tree
glob_after_path = refl

parse_use_tree-IsImport_example :
    IsImport (of_path (simple_path false (named (codes "name") ∷ [])) none)
parse_use_tree-IsImport_example =
    parse_use_tree-IsImport 8 false (named (codes "name"))
      (delimiter path_sep ∷ delimiter star ∷ delimiter semi ∷ [])
      (delimiter star ∷ delimiter semi ∷ []) _ glob_after_path

-- { name }
parse_use_tree-group_example :
    parse_use_tree 100 (delimiter brace_open ∷ name ∷ delimiter brace_close ∷ []) ≡ out_of_fuel
unfolding kind_equal
parse_use_tree-group_example =
    parse_use_tree-group 100 (delimiter brace_open) name (delimiter brace_close ∷ []) refl refl

-- ::{ name }: the brace at the end is left.
colons_group :
    parse_use_tree 9 (
      delimiter path_sep
      ∷ delimiter brace_open
      ∷ name
      ∷ delimiter brace_close
      ∷ delimiter semi
      ∷ [])
    ≡ ok (
      some (
          use_tree none
            (UseTrees.one_tree
              (of_path (simple_path false (named (codes "name") ∷ [])) none)
              UseTrees.no_tree)
            true
            false
            []
            (some UseTreeKind.recursive)),
      delimiter brace_close ∷ delimiter semi ∷ [],
    )
unfolding parse_use_tree
colons_group = refl

-- name!
macro_loop_iff_example :
    (macro_loop (name ∷ delimiter TokenKind.not ∷ []) ≡ ok true)
    ↔ PathTo (is_kind TokenKind.not) (name ∷ delimiter TokenKind.not ∷ [])
macro_loop_iff_example = macro_loop_iff (name ∷ delimiter TokenKind.not ∷ [])

-- pub (self): no token is taken off.
pub_self :
    parse_visibility (
      record { loc = empty_location; kind = keyword; storage = []; key_word = some kw_pub }
      ∷ delimiter paren_open
      ∷ record { loc = empty_location; kind = keyword; storage = []; key_word = some kw_selfvalue }
      ∷ delimiter paren_close
      ∷ [])
    ≡ ok (
      public_self,
      record { loc = empty_location; kind = keyword; storage = []; key_word = some kw_pub }
          ∷ delimiter paren_open
          ∷ record {
            loc = empty_location;
            kind = keyword;
            storage = [];
            key_word = some kw_selfvalue;
          }
          ∷ delimiter paren_close
          ∷ [],
    )
unfolding parse_visibility
pub_self = refl

-- A division has the lowest power.
division : get_left_binding_power (delimiter slash ∷ name ∷ []) ≡ ok 0
unfolding get_left_binding_power
division = refl

-- .name( has the power of a field, and .name that of a method call.
method_and_field :
    (get_left_binding_power (delimiter dot ∷ name ∷ delimiter paren_open ∷ []) ≡ ok 85)
    × (get_left_binding_power (delimiter dot ∷ name ∷ delimiter semi ∷ []) ≡ ok 90)
unfolding get_left_binding_power
method_and_field = (refl, refl)
