-- ===== src/Parser/UseTrees.antt =====
-- Use declarations: code/parser/UseTree.cpp and UseDeclaration.cpp, with code/include/AST/UseTree.h.
pub mod Groups
pub mod Imports
use mlir_rustc.Prelude.{
  ℕ, zero, suc, Bool, true, false, not, if◌then◌else◌, List, [], ◌∷◌, Option, none, some, Bytes,
  Outcome, ok, exited, aborted, out_of_fuel, assert, ◌>>=◌, ◌>>◌, ◌and_then◌,
}
use mlir_rustc.Lexer.KeyWords.{kw_as, kw_use, value}
use mlir_rustc.Lexer.Token.{
  TokenKind, Token, star, path_sep, brace_open, brace_close, comma, eof, identifier, underscore,
}
use mlir_rustc.Parser.Tokens.{View, kind_equal, is_kind, is_key_word, check}
use mlir_rustc.Parser.TokenTrees.{Parsed, or_exit}
use mlir_rustc.Parser.Paths.{SimplePath, drop_tokens, parse_simple_path}

pub data UseTreeKind : Type 0 where
  glob recursive rebinding : UseTreeKind

-- `kind` is not set by the constructor: `none` until a call of `setKind`.
mutual
  pub data UseTree : Type 0 where
    -- its path, trees, doubleColon, underscore, identifier and kind
    use_tree : Option SimplePath → UseTrees → Bool → Bool → Bytes → Option UseTreeKind → UseTree

  pub data UseTrees : Type 0 where
    no_tree : UseTrees
    one_tree : UseTree → UseTrees → UseTrees

unfoldable pub add_use_tree : UseTrees → UseTree → UseTrees
add_use_tree no_tree t = one_tree t no_tree
add_use_tree (one_tree u ts) t = one_tree u (add_use_tree ts t)

-- A tree without a path.
abbrev pub bare : Bool → UseTreeKind → UseTrees → UseTree
bare double_colon kind trees = use_tree none trees double_colon false [] (some kind)

abbrev pub of_path : SimplePath → Option UseTreeKind → UseTree
of_path path kind = use_tree (some path) no_tree false false [] kind

-- The assertions that a token of each kind stands at the offset, which no call moves.
abbrev pub assert_check : TokenKind → View → Outcome (Unit {0})
assert_check k view = check k 0 view >>= assert

abbrev pub check_group_end : View → Outcome Bool
check_group_end view = check comma 0 view and_then check brace_close 1 view

abbrev pub check_group_next : View → Outcome Bool
check_group_next view = check comma 0 view and_then (check brace_close 1 view >>= λ b. ok (not b))

-- What the loop after `:: {` does behind a tree: it takes no token off.
abbrev pub colons_group_round :
    (UseTrees → View → Parsed UseTree) → UseTrees → View → Parsed UseTree
colons_group_round loop trees view = check brace_close 0 view >>= λ closed.
    if closed
    then ok (some (bare true UseTreeKind.recursive trees), view)
    else check_group_end view >>= λ end.
        if end
        then assert_check comma view
          >> (assert_check brace_close view
              >> ok (some (bare true UseTreeKind.recursive trees), view))
        else check_group_next view >>= λ next.
            if next
            then assert_check comma view >> loop trees view
            else check eof 0 view >>= λ end_of_file.
                if end_of_file then ok (none, view) else loop trees view

-- What the two other loops do behind a tree, which they do not add.
abbrev pub group_round : (UseTree → View → Parsed UseTree) → UseTree → View → Parsed UseTree
group_round loop tree view = check brace_close 0 view >>= λ closed.
    if closed
    then ok (some tree, drop_tokens 1 view)
    else check_group_end view >>= λ end.
        if end
        then ok (some tree, drop_tokens 2 view)
        else check_group_next view >>= λ next.
            if next
            then loop tree (drop_tokens 1 view)
            else check eof 0 view >>= λ end_of_file.
                if end_of_file then ok (none, view) else loop tree view

-- After `as`: an identifier, `_`, or an error.
abbrev pub rebinding_tree : SimplePath → View → Parsed UseTree
rebinding_tree path [] = aborted
rebinding_tree path (t ∷ view) =
    if is_kind identifier t
    then ok (
      some (use_tree (some path) no_tree false false t.storage (some UseTreeKind.rebinding)),
      view,
    )
    else if is_kind underscore t
    then ok (some (use_tree (some path) no_tree false true [] (some UseTreeKind.rebinding)), view)
    else ok (none, t ∷ view)

-- What follows the path. The tests for `::*` and `::{` look at one token for both.
abbrev pub after_path : (UseTree → View → Parsed UseTree) → SimplePath × View → Parsed UseTree
after_path loop (path, []) = aborted
after_path loop (path, t ∷ view) =
    (check path_sep 0 (t ∷ view) and_then check star 0 (t ∷ view)) >>= λ all.
    if all
    then ok (some (use_tree (some path) no_tree true false [] (some UseTreeKind.glob)), t ∷ view)
    else (check path_sep 0 (t ∷ view) and_then check brace_open 0 (t ∷ view)) >>= λ group.
        if group
        then assert_check path_sep (t ∷ view)
          >> (assert_check brace_open view
              >> loop (of_path path (some UseTreeKind.recursive)) (drop_tokens 1 view))
        else if is_key_word kw_as t
        then rebinding_tree path view
        else ok (some (of_path path none), t ∷ view)

-- The tests of `parseUseTree`, from the second one on.
abbrev pub use_tree_branches :
    (UseTrees → View → Parsed UseTree) → (UseTree → View → Parsed UseTree) → View → Parsed UseTree
use_tree_branches colons_loop loop view =
    (check path_sep 0 view and_then check star 1 view) >>= λ all.
    if all
    then assert_check path_sep view
      >> (assert_check star view >> ok (some (bare true UseTreeKind.glob no_tree), view))
    else (check path_sep 0 view
        and_then (check brace_open 1 view and_then check brace_close 2 view))
      >>= λ colons_empty.
          if colons_empty
          then assert_check path_sep view
            >> (assert_check brace_open view
                >> (assert_check brace_close view
                    >> ok (some (bare true UseTreeKind.recursive no_tree), view)))
          else (check path_sep 0 view and_then check brace_open 1 view) >>= λ colons_group.
              if colons_group
              then colons_loop no_tree (drop_tokens 2 view)
              else (check brace_open 0 view and_then check brace_close 1 view) >>= λ empty.
                  if empty
                  then assert_check brace_open view
                    >> (assert_check brace_close view
                        >> ok (some (bare false UseTreeKind.recursive no_tree), view))
                  else check brace_open 0 view >>= λ group.
                      if group
                      then loop (bare false UseTreeKind.recursive no_tree) view
                      else parse_simple_path view >>= (λ r. or_exit r >>= after_path loop)

-- On fuel, one unit for each call below another one and for each round.
unfoldable mutual
  unfolding check kind_equal value parse_simple_path add_use_tree

  pub parse_use_tree : ℕ → View → Parsed UseTree
  parse_use_tree zero view = out_of_fuel
  parse_use_tree (suc f) view =
      let branches = use_tree_branches (colons_group_loop f) (group_loop f) view in
      check star 0 view >>= λ all.
      if all then ok (some (bare false UseTreeKind.glob no_tree), view) else branches

  pub colons_group_loop : ℕ → UseTrees → View → Parsed UseTree
  colons_group_loop zero trees view = out_of_fuel
  colons_group_loop (suc f) trees view = parse_use_tree f view >>= λ r.
      or_exit r >>= λ t. colons_group_round (colons_group_loop f) (add_use_tree trees t.0) t.1

  pub group_loop : ℕ → UseTree → View → Parsed UseTree
  group_loop zero tree view = out_of_fuel
  group_loop (suc f) tree view =
      parse_use_tree f view >>= λ r. or_exit r >>= λ t. group_round (group_loop f) tree t.1

-- `parseUseDeclaration`: the tree, or the error where `use` does not stand.
unfoldable pub parse_use_declaration : ℕ → View → Parsed UseTree
unfolding parse_use_tree kind_equal value
parse_use_declaration f [] = aborted
parse_use_declaration f (t ∷ view) =
    if is_key_word kw_use t
    then parse_use_tree f view >>= (λ r. or_exit r >>= λ tree. ok (some tree.0, tree.1))
    else ok (none, t ∷ view)
