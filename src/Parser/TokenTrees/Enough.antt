-- ===== src/Parser/TokenTrees/Enough.antt =====
-- The fuel of the loops over token trees is enough.
use mlir_rustc.Prelude.{
  ℕ, zero, suc, ◌<◌, ◌≤◌, Bool, true, false, if◌then◌else◌, [], ◌∷◌, length, none, some, Outcome,
  ok, exited, aborted, undefined, diverges, out_of_fuel, ◌>>=◌, arith,
}
use mlir_rustc.Lexer.Token.{Token, paren_open, square_open, brace_open, eof}
use mlir_rustc.Parser.Tokens.{View, is_kind, is_delimiter}
use mlir_rustc.Parser.TokenTrees.{
  DelimTokenTreeKind, paren, square, brace, of_token, of_tree, DelimTokenTree, delim, TokenTrees,
  no_tree, add_tree, close_kind, or_exit, token_tree, delim_token_tree, delim_loop,
  parse_delim_token_tree, parse_token_tree, Parsed,
}

-- The run does not end for want of fuel, and after a result at most `n` tokens are left.
abbrev pub Took {ℓ} : {A : Type ℓ} → ℕ → Parsed A → Type 0
Took n (ok (none, view)) = Unit
Took n (ok (some a, view)) = length view ≤ n
Took n out_of_fuel = ⊥
Took n _ = Unit

abbrev pub Leaves {ℓ} : {A : Type ℓ} → ℕ → Outcome (A × View) → Type 0
Leaves n (ok r) = length r.1 ≤ n
Leaves n out_of_fuel = ⊥
Leaves n _ = Unit

pub Took-if :
    {A : Type 0} (n : ℕ) (b : Bool) (x y : Parsed A)
    → Took n x
    → Took n y
    → Took n (if b then x else y)
Took-if n true x y h k = h
Took-if n false x y h k = k

pub Took-mono : {A : Type 0} (k n : ℕ) (m : Parsed A) → k ≤ n → Took k m → Took n m
Took-mono k n (ok (none, view)) h l = tt
Took-mono k n (ok (some a, view)) h l = omega arith
Took-mono k n exited h l = tt
Took-mono k n aborted h l = tt
Took-mono k n undefined h l = tt
Took-mono k n diverges h l = tt
Took-mono k n out_of_fuel h l = absurd l

-- A result goes on, an error ends the program.
Took-Leaves :
    {A B : Type 0} (n : ℕ) (m : Parsed A) (f : A → B)
    → Took n m
    → Leaves n (m >>= λ r. or_exit r >>= λ d. ok (f d.0, d.1))
Took-Leaves n (ok (none, view)) f h = tt
Took-Leaves n (ok (some a, view)) f h = h
Took-Leaves n exited f h = tt
Took-Leaves n aborted f h = tt
Took-Leaves n undefined f h = tt
Took-Leaves n diverges f h = tt
Took-Leaves n out_of_fuel f h = absurd h

Leaves-Took :
    {A B : Type 0} (k n : ℕ) (m : Outcome (A × View)) (f : A × View → Parsed B)
    → Leaves k m
    → ((a : A) (view : View) → length view ≤ k → Took n (f (a, view)))
    → Took n (m >>= f)
Leaves-Took k n (ok (a, view)) f h g = g a view h
Leaves-Took k n exited f h g = tt
Leaves-Took k n aborted f h g = tt
Leaves-Took k n undefined f h g = tt
Leaves-Took k n diverges f h g = tt
Leaves-Took k n out_of_fuel f h g = absurd h

Leaves-if :
    {A : Type 0} (n : ℕ) (b : Bool) (x y : Outcome (A × View))
    → Leaves n x
    → Leaves n y
    → Leaves n (if b then x else y)
Leaves-if n true x y h k = h
Leaves-if n false x y h k = k

module _ (loop : DelimTokenTreeKind → TokenTrees → View → Parsed DelimTokenTree) (f : ℕ)
    (loop-Took : (kind : DelimTokenTreeKind) (trees : TokenTrees) (view : View)
      → length view < f
      → Took (length view) (loop kind trees view)) where
  delim-Took :
      (t : Token) (view : View)
      → length view < f
      → Took (length view) (delim_token_tree loop (t ∷ view))
  delim-Took t view h = Took-if _ (is_kind paren_open t) _ _ (loop-Took paren no_tree view h) (
      Took-if _ (is_kind square_open t) _ _ (loop-Took square no_tree view h) (
        Took-if _ (is_kind brace_open t) _ (ok (none, t ∷ view)) (loop-Took brace no_tree view h)
          tt))

  tree-Leaves :
      (t : Token) (view : View)
      → length view < f
      → Leaves (length view) (token_tree (delim_token_tree loop) (t ∷ view))
  tree-Leaves t view h =
      Leaves-if _ (is_delimiter t) _ (ok (of_token t, view))
        (Took-Leaves (length view) (delim_token_tree loop (t ∷ view)) of_tree (delim-Took t view h))
        (omega arith)

delim_loop-Took :
    (f : ℕ) (kind : DelimTokenTreeKind) (trees : TokenTrees) (view : View)
    → length view < f
    → Took (length view) (delim_loop f kind trees view)
unfolding delim_loop
delim_loop-Took zero kind trees view h = absurd (omega arith)
delim_loop-Took (suc f) kind trees [] h = tt
delim_loop-Took (suc f) kind trees (t ∷ view) h =
    Took-if _ (is_kind eof t) (ok (none, t ∷ view)) _ tt (
      Took-if _ (is_kind (close_kind kind) t) (ok (some (delim kind trees), view)) _ (omega arith) (
        Leaves-Took (length view) (suc (length view)) _ _
          (tree-Leaves (delim_loop f) f (delim_loop-Took f) t view (omega arith))
          λ tree rest l.
            Took-mono (length rest) (suc (length view))
              (delim_loop f kind (add_tree trees tree) rest) (omega arith)
              (delim_loop-Took f kind (add_tree trees tree) rest (omega arith))))

-- With one unit of fuel for each token and one more, both parsers of token trees come to an end on every
-- stream, and they take a token off at least where they return a tree.
pub parse_token_tree-Took :
    (t : Token) (view : View)
    → Leaves (length view) (parse_token_tree (t ∷ view))
      × Took (length view) (parse_delim_token_tree (t ∷ view))
unfolding parse_token_tree parse_delim_token_tree
parse_token_tree-Took t view =
    let f = suc (suc (length view)) in
    (
      tree-Leaves (delim_loop f) f (delim_loop-Took f) t view (omega arith),
      delim-Took (delim_loop f) f (delim_loop-Took f) t view (omega arith),
    )
