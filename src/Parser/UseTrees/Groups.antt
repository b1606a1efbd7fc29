-- ===== src/Parser/UseTrees/Groups.antt =====
-- The use trees that `parseUseTree` does not get through: globs and groups without a path.
use mlir_rustc.Prelude.{ℕ, zero, suc, true, false, ◌∷◌, aborted, out_of_fuel, ◌≡◌, refl, ◌∙◌, arith}
use mlir_rustc.Lexer.Token.{Token, star, path_sep, brace_open, brace_close}
use mlir_rustc.Parser.Tokens.{View, kind_value, kind_equal, is_kind}
use mlir_rustc.Parser.UseTrees.{no_tree, bare, UseTreeKind, parse_use_tree, group_loop}

open-kinds :
    (b : Token)
    → is_kind brace_open b ≡ true
    → (is_kind star b ≡ false) × (is_kind path_sep b ≡ false)
unfolding kind_equal kind_value
open-kinds b h = (ground arith, ground arith)

colons-kinds :
    (b : Token)
    → is_kind path_sep b ≡ true
    → (is_kind star b ≡ false) × (is_kind brace_open b ≡ false)
unfolding kind_equal kind_value
colons-kinds b h = (ground arith, ground arith)

open-close : (b : Token) → is_kind brace_open b ≡ true → is_kind brace_close b ≡ false
unfolding kind_equal kind_value
open-close b h = ground arith

-- The brace of a group is looked at and stays where it is, so the tree in the group is the group again.
group_again :
    (f : ℕ) (b t : Token) (view : View)
    → is_kind brace_open b ≡ true
    → is_kind brace_close t ≡ false
    → parse_use_tree (suc f) (b ∷ t ∷ view)
      ≡ group_loop f (bare false UseTreeKind.recursive no_tree) (b ∷ t ∷ view)
unfolding parse_use_tree
group_again f b t view h c = let (s, p) = open-kinds b h in rw (s, p, h, c) refl

-- A group that begins with its brace, without a path or a `::` before it, and that does not close at once
-- is never read, whatever the fuel is: the call of parseUseTree below another one begins at the same
-- brace.
pub parse_use_tree-group :
    (f : ℕ) (b t : Token) (view : View)
    → is_kind brace_open b ≡ true
    → is_kind brace_close t ≡ false
    → parse_use_tree f (b ∷ t ∷ view) ≡ out_of_fuel
unfolding parse_use_tree
parse_use_tree-group zero b t view h c = refl
parse_use_tree-group (suc zero) b t view h c = group_again zero b t view h c
parse_use_tree-group (suc (suc f)) b t view h c =
    group_again (suc f) b t view h c ∙ rw (parse_use_tree-group f b t view h c) refl

-- `:: *`, `:: { }` and `{ }`.
pub data IsBare : View → Type 0 where
  all :
      {a b : Token} {view : View}
      → is_kind path_sep a ≡ true
      → is_kind star b ≡ true
      → IsBare (a ∷ b ∷ view)
  colons_empty :
      {a b c : Token} {view : View}
      → is_kind path_sep a ≡ true
      → is_kind brace_open b ≡ true
      → is_kind brace_close c ≡ true
      → IsBare (a ∷ b ∷ c ∷ view)
  empty :
      {a b : Token} {view : View}
      → is_kind brace_open a ≡ true
      → is_kind brace_close b ≡ true
      → IsBare (a ∷ b ∷ view)

-- A glob or an empty group with `::` before it, and an empty group without a path, fail an assertion:
-- their tokens are looked for at one place, since none is taken off.
pub parse_use_tree-aborted :
    {view : View} (f : ℕ) → IsBare view → parse_use_tree (suc f) view ≡ aborted
unfolding parse_use_tree
parse_use_tree-aborted f (all {a} {b} {view} h k) =
    let (s, o) = colons-kinds a h in rw (s, h, k) refl
parse_use_tree-aborted f (colons_empty {a} {b} {c} {view} h k l) =
    let (s, o) = colons-kinds a h in rw (s, (open-kinds b k).0, h, k, l, o) refl
parse_use_tree-aborted f (empty {a} {b} {view} h k) =
    let (s, p) = open-kinds a h in rw (s, p, h, k, open-close a h) refl
