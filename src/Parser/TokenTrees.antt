-- ===== src/Parser/TokenTrees.antt =====
-- Token trees: code/parser/DelimTokenTree.cpp, code/ast/DelimTokenTree.cpp and their headers. `none`
-- is the error that the code returns.
pub mod Enough
pub mod RoundTrip
use mlir_rustc.Prelude.{
  ℕ, zero, suc, ◌-◌, ◌^◌, Bool, true, false, if◌then◌else◌, List, [], ◌∷◌, ◌++◌, length, Option,
  none, some, codes, Outcome, ok, exited, aborted, out_of_fuel, ◌>>=◌,
}
use mlir_rustc.Lexer.Token.{
  Location, Token, TokenKind, paren_open, paren_close, square_open, square_close, brace_open,
  brace_close, eof,
}
use mlir_rustc.Parser.Tokens.{View, kind_equal, is_kind, is_delimiter}

pub data DelimTokenTreeKind : Type 0 where
  paren square brace : DelimTokenTreeKind

mutual
  -- Either the token of a `TokenTree` is set or its tree.
  pub data TokenTree : Type 0 where
    of_token : Token → TokenTree
    of_tree : DelimTokenTree → TokenTree

  pub data DelimTokenTree : Type 0 where
    delim : DelimTokenTreeKind → TokenTrees → DelimTokenTree

  pub data TokenTrees : Type 0 where
    no_tree : TokenTrees
    one_tree : TokenTree → TokenTrees → TokenTrees

unfoldable pub add_tree : TokenTrees → TokenTree → TokenTrees
add_tree no_tree t = one_tree t no_tree
add_tree (one_tree u ts) t = one_tree u (add_tree ts t)

abbrev pub Parsed {ℓ} : Type ℓ → Type ℓ
Parsed A = Outcome (Option A × View)

abbrev pub close_kind : DelimTokenTreeKind → TokenKind
close_kind paren = paren_close
close_kind square = square_close
close_kind brace = brace_close

abbrev pub open_kind : DelimTokenTreeKind → TokenKind
open_kind paren = paren_open
open_kind square = square_open
open_kind brace = brace_open

-- An error below ends the program.
abbrev pub or_exit {ℓ} : {A : Type ℓ} → Option A × View → Outcome (A × View)
or_exit (none, view) = exited
or_exit (some a, view) = ok (a, view)

-- `parseTokenTree`, given `parseDelimTokenTree`.
abbrev pub token_tree : (View → Parsed DelimTokenTree) → View → Outcome (TokenTree × View)
token_tree parse_delim [] = aborted
token_tree parse_delim (t ∷ view) =
    if is_delimiter t
    then parse_delim (t ∷ view) >>= (λ r. or_exit r >>= λ d. ok (of_tree d.0, d.1))
    else ok (of_token t, view)

-- `parseDelimTokenTree`, given its loop.
abbrev pub delim_token_tree :
    (DelimTokenTreeKind → TokenTrees → View → Parsed DelimTokenTree) → View → Parsed DelimTokenTree
delim_token_tree loop [] = aborted
delim_token_tree loop (t ∷ view) =
    if is_kind paren_open t
    then loop paren no_tree view
    else if is_kind square_open t
    then loop square no_tree view
    else if is_kind brace_open t
    then loop brace no_tree view
    else ok (none, t ∷ view)

-- The three loops, which differ in their kind of delimiter. On fuel: a tree below takes tokens off.
unfoldable pub delim_loop : ℕ → DelimTokenTreeKind → TokenTrees → View → Parsed DelimTokenTree
unfolding kind_equal add_tree
delim_loop zero kind trees view = out_of_fuel
delim_loop (suc f) kind trees [] = aborted
delim_loop (suc f) kind trees (t ∷ view) =
    let more = token_tree (delim_token_tree (delim_loop f)) (t ∷ view) >>= λ r.
    delim_loop f kind (add_tree trees r.0) r.1 in
    if is_kind eof t
    then ok (none, t ∷ view)
    else if is_kind (close_kind kind) t
    then ok (some (delim kind trees), view)
    else more

unfoldable pub parse_delim_token_tree : View → Parsed DelimTokenTree
unfolding kind_equal delim_loop
parse_delim_token_tree view = delim_token_tree (delim_loop (suc (length view))) view

unfoldable pub parse_token_tree : View → Outcome (TokenTree × View)
unfolding kind_equal delim_loop
parse_token_tree view = token_tree (delim_token_tree (delim_loop (suc (length view)))) view

-- `Location::getEmptyLocation`.
abbrev pub empty_location : Location
empty_location = record { file_name = codes "empty.cpp"; line = 2 ^ 32 - 1; column = 2 ^ 32 - 1 }

abbrev pub delimiter : TokenKind → Token
delimiter k = record { loc = empty_location; kind = k; storage = []; key_word = none }

-- `toTokenStream` of both classes.
unfoldable mutual
  pub token_tree_stream : TokenTree → View
  token_tree_stream (of_token t) = t ∷ []
  token_tree_stream (of_tree d) = to_token_stream d

  pub to_token_stream : DelimTokenTree → View
  to_token_stream (delim kind trees) =
      delimiter (open_kind kind) ∷ (trees_stream trees ++ delimiter (close_kind kind) ∷ [])

  pub trees_stream : TokenTrees → View
  trees_stream no_tree = []
  trees_stream (one_tree t ts) = token_tree_stream t ++ trees_stream ts
