-- ===== src/Parser/TokenTrees/RoundTrip.antt =====
-- Token trees are read back from their tokens.
use mlir_rustc.Prelude.{
  ℕ, zero, suc, ◌+◌, ◌<◌, false, [], ◌∷◌, ◌++◌, length, length-append, append_assoc, some, ok,
  ◌>>=◌, ◌≡◌, refl, sym, ap, ◌∙◌, arith,
}
use mlir_rustc.Lexer.Token.{Token, eof}
use mlir_rustc.Parser.Tokens.{View, kind_equal, is_kind, is_delimiter}
use mlir_rustc.Parser.TokenTrees.{
  DelimTokenTreeKind, paren, square, brace, TokenTree, of_token, of_tree, DelimTokenTree, delim,
  TokenTrees, no_tree, one_tree, add_tree, close_kind, open_kind, delimiter, or_exit, token_tree,
  delim_token_tree, delim_loop, parse_delim_token_tree, token_tree_stream, to_token_stream,
  trees_stream, Parsed,
}

-- No token of the tree is a delimiter or the end of the file.
abbrev mutual
  pub IsProper : TokenTree → Type 0
  IsProper (of_token t) = (is_delimiter t ≡ false) × (is_kind eof t ≡ false)
  IsProper (of_tree d) = IsProperDelim d

  pub IsProperDelim : DelimTokenTree → Type 0
  IsProperDelim (delim kind trees) = AreProper trees

  pub AreProper : TokenTrees → Type 0
  AreProper no_tree = Unit
  AreProper (one_tree t ts) = IsProper t × AreProper ts

append_trees : TokenTrees → TokenTrees → TokenTrees
append_trees no_tree us = us
append_trees (one_tree t ts) us = one_tree t (append_trees ts us)

append-no_tree : (ts : TokenTrees) → append_trees ts no_tree ≡ ts
unfolding append_trees
append-no_tree no_tree = refl
append-no_tree (one_tree t ts) = ap (one_tree t) (append-no_tree ts)

append-add_tree :
    (acc : TokenTrees) (t : TokenTree) (ts : TokenTrees)
    → append_trees (add_tree acc t) ts ≡ append_trees acc (one_tree t ts)
unfolding append_trees add_tree
append-add_tree no_tree t ts = refl
append-add_tree (one_tree u acc) t ts = ap (one_tree u) (append-add_tree acc t ts)

-- The tokens of a tree begin with one that does not end a loop.
IsInner : DelimTokenTreeKind → Token → Type 0
IsInner kind t = (is_kind eof t ≡ false) × (is_kind (close_kind kind) t ≡ false)

leaf-IsInner :
    (kind : DelimTokenTreeKind) (t : Token)
    → is_delimiter t ≡ false
    → is_kind eof t ≡ false
    → IsInner kind t
unfolding IsInner
leaf-IsInner paren t h e = (e, ground arith)
leaf-IsInner square t h e = (e, ground arith)
leaf-IsInner brace t h e = (e, ground arith)

open-IsInner : (kind inner : DelimTokenTreeKind) → IsInner kind (delimiter (open_kind inner))
unfolding IsInner kind_equal
open-IsInner paren paren = (refl, refl)
open-IsInner paren square = (refl, refl)
open-IsInner paren brace = (refl, refl)
open-IsInner square paren = (refl, refl)
open-IsInner square square = (refl, refl)
open-IsInner square brace = (refl, refl)
open-IsInner brace paren = (refl, refl)
open-IsInner brace square = (refl, refl)
open-IsInner brace brace = (refl, refl)

loop-inner :
    (f : ℕ) (kind : DelimTokenTreeKind) (trees : TokenTrees) (t : Token) (view : View)
    → IsInner kind t
    → delim_loop (suc f) kind trees (t ∷ view) ≡ (
        token_tree (delim_token_tree (delim_loop f)) (t ∷ view) >>= λ r.
        delim_loop f kind (add_tree trees r.0) r.1)
unfolding delim_loop IsInner
loop-inner f kind trees t view h = rw (h.0, h.1) refl

loop-close :
    (f : ℕ) (kind : DelimTokenTreeKind) (trees : TokenTrees) (view : View)
    → delim_loop (suc f) kind trees (delimiter (close_kind kind) ∷ view)
      ≡ ok (some (delim kind trees), view)
unfolding delim_loop kind_equal
loop-close f paren trees view = refl
loop-close f square trees view = refl
loop-close f brace trees view = refl

-- After an opening delimiter its loop runs.
tree-open :
    (loop : DelimTokenTreeKind → TokenTrees → View → Parsed DelimTokenTree)
    (kind : DelimTokenTreeKind) (view : View)
    → (token_tree (delim_token_tree loop) (delimiter (open_kind kind) ∷ view)
        ≡ (loop kind no_tree view >>= (λ r. or_exit r >>= λ d. ok (of_tree d.0, d.1))))
      × (delim_token_tree loop (delimiter (open_kind kind) ∷ view) ≡ loop kind no_tree view)
unfolding kind_equal
tree-open loop paren view = (refl, refl)
tree-open loop square view = (refl, refl)
tree-open loop brace view = (refl, refl)

-- The loop reads the trees that are left, up to the closing delimiter.
abbrev Reads : TokenTrees → Type 0
Reads ts =
    AreProper ts
    → (f : ℕ) (kind : DelimTokenTreeKind) (acc : TokenTrees) (rest : View)
    → length (trees_stream ts) < f
    → delim_loop f kind acc (trees_stream ts ++ delimiter (close_kind kind) ∷ rest)
      ≡ ok (some (delim kind (append_trees acc ts)), rest)

-- A tree at the front is taken off, and the loop goes on.
step_token :
    (g : ℕ) (kind : DelimTokenTreeKind) (acc : TokenTrees) (t : Token) (view : View)
    → is_delimiter t ≡ false
    → is_kind eof t ≡ false
    → delim_loop (suc g) kind acc (t ∷ view) ≡ delim_loop g kind (add_tree acc (of_token t)) view
step_token g kind acc t view h e =
    loop-inner g kind acc t view (leaf-IsInner kind t h e) ∙ rw h refl

step_tree :
    (g : ℕ) (kind inner : DelimTokenTreeKind) (acc us : TokenTrees) (view rest : View)
    → delim_loop g inner no_tree view ≡ ok (some (delim inner us), rest)
    → delim_loop (suc g) kind acc (delimiter (open_kind inner) ∷ view)
      ≡ delim_loop g kind (add_tree acc (of_tree (delim inner us))) rest
step_tree g kind inner acc us view rest h =
    loop-inner g kind acc (delimiter (open_kind inner)) view (open-IsInner kind inner)
    ∙ rw ((tree-open (delim_loop g) inner view).0, h) refl

-- The tokens of a tree in delimiters, with what follows it.
inner_stream :
    (us ts : TokenTrees) (inner kind : DelimTokenTreeKind) (rest : View)
    → trees_stream (one_tree (of_tree (delim inner us)) ts) ++ delimiter (close_kind kind) ∷ rest
      ≡ delimiter (open_kind inner)
        ∷ (trees_stream us
            ++ delimiter (close_kind inner)
              ∷ (trees_stream ts ++ delimiter (close_kind kind) ∷ rest))
unfolding token_tree_stream
inner_stream us ts inner kind rest = ap (◌∷◌ (delimiter (open_kind inner))) (simp append_assoc)

abbrev read : DelimTokenTreeKind → View → TokenTrees → Parsed DelimTokenTree
read kind rest ts = ok (some (delim kind ts), rest)

inner_length :
    (us ts : TokenTrees) (t : Token)
    → length (trees_stream us ++ t ∷ [] ++ trees_stream ts)
      ≡ length (trees_stream us) + suc (length (trees_stream ts))
inner_length us ts t = omega (
  arith,
  length-append (trees_stream us ++ t ∷ []) (trees_stream ts),
  length-append (trees_stream us) (t ∷ []),
)

trees-Reads : (ts : TokenTrees) → Reads ts
unfolding token_tree_stream append_trees
trees-Reads no_tree p zero kind acc rest h = absurd (omega arith)
trees-Reads no_tree p (suc g) kind acc rest h =
    loop-close g kind acc rest ∙ ap (read kind rest) (sym (append-no_tree acc))
trees-Reads (one_tree (of_token t) ts) p zero kind acc rest h = absurd (omega arith)
trees-Reads (one_tree (of_token t) ts) p (suc g) kind acc rest h =
    step_token g kind acc t _ p.0.0 p.0.1
    ∙ trees-Reads ts p.1 g kind (add_tree acc (of_token t)) rest (omega arith)
    ∙ ap (read kind rest) (append-add_tree acc (of_token t) ts)
trees-Reads (one_tree (of_tree (delim inner us)) ts) p zero kind acc rest h = absurd (omega arith)
trees-Reads (one_tree (of_tree (delim inner us)) ts) p (suc g) kind acc rest h =
    let lengths = inner_length us ts (delimiter (close_kind inner)) in
    let after = trees_stream ts ++ delimiter (close_kind kind) ∷ rest in
    rw (inner_stream us ts inner kind rest) (
      step_tree g kind inner acc us _ _
        (trees-Reads us p.0 g inner no_tree after (omega (arith, lengths)))
      ∙ trees-Reads ts p.1 g kind (add_tree acc (of_tree (delim inner us))) rest
          (omega (arith, lengths))
      ∙ ap (read kind rest) (append-add_tree acc (of_tree (delim inner us)) ts))

-- A tree in delimiters is read back from its tokens, whatever follows them, if none of the tokens in it
-- is a delimiter of its own or the end of the file.
pub parse_delim-stream :
    (d : DelimTokenTree) (rest : View)
    → IsProperDelim d
    → parse_delim_token_tree (to_token_stream d ++ rest) ≡ ok (some d, rest)
unfolding parse_delim_token_tree token_tree_stream append_trees
parse_delim-stream (delim kind ts) rest p =
    let after = trees_stream ts ++ delimiter (close_kind kind) ∷ rest in
    let whole : trees_stream ts ++ delimiter (close_kind kind) ∷ [] ++ rest ≡ after =
      append_assoc (trees_stream ts) (delimiter (close_kind kind) ∷ []) rest in
    rw whole (
      (tree-open (delim_loop (suc (suc (length after)))) kind after).1
      ∙ trees-Reads ts p (suc (suc (length after))) kind no_tree rest
          (omega (arith, length-append (trees_stream ts) (delimiter (close_kind kind) ∷ rest))))
