-- ===== src/Parser/UseTrees/Imports.antt =====
-- The use trees with a path that `parseUseTree` reads.
use mathlib.Core.Path.{subst}
use mlir_rustc.Prelude.{
  ℕ, suc, Bool, true, false, if◌then◌else◌, List, [], ◌∷◌, ◌++◌, All, none, some, Bytes, Outcome,
  ok, exited, aborted, undefined, diverges, out_of_fuel, ◌>>=◌, ◌and_then◌, ◌≡◌, refl, sym, ◌∙◌,
  arith,
}
use mlir_rustc.Lexer.KeyWords.{kw_as, value}
use mlir_rustc.Lexer.Token.{Token, star, path_sep, brace_open, identifier, underscore, keyword}
use mlir_rustc.Parser.Tokens.{View, kind_value, kind_equal, is_kind, is_key_word, check}
use mlir_rustc.Parser.TokenTrees.{Parsed, or_exit, delimiter, empty_location}
use mlir_rustc.Parser.Paths.{SimplePathSegment, named, key_word, SimplePath, parse_simple_path}
use mlir_rustc.Parser.Paths.Printed.{
  IsSegment, segment_token, leading, after_first, path_stream, simple_path,
  parse_simple_path-stream,
}
use mlir_rustc.Parser.UseTrees.{
  UseTree, use_tree, no_tree, of_path, UseTreeKind, after_path, rebinding_tree, parse_use_tree,
  group_loop,
}

-- A tree that begins with a segment goes to the path.
import_path :
    (f : ℕ) (c : Bool) (seg : SimplePathSegment) (view : View)
    → parse_use_tree (suc f) (leading c (segment_token seg ∷ view)) ≡ (
        parse_simple_path (leading c (segment_token seg ∷ view))
        >>= (λ r. or_exit r >>= after_path (group_loop f)))
unfolding parse_use_tree
import_path f true (named id) view = refl
import_path f true (key_word kw) view = refl
import_path f false (named id) view = refl
import_path f false (key_word kw) view = refl

-- One token is not of two kinds.
no_glob :
    (t : Token) (view : View)
    → (check path_sep 0 (t ∷ view) and_then check star 0 (t ∷ view)) ≡ ok false
unfolding check kind_equal kind_value
no_glob t view = ground arith

no_group :
    (t : Token) (view : View)
    → (check path_sep 0 (t ∷ view) and_then check brace_open 0 (t ∷ view)) ≡ ok false
unfolding check kind_equal kind_value
no_group t view = ground arith

after_path_lem :
    (loop : UseTree → View → Parsed UseTree) (path : SimplePath) (t : Token) (view : View)
    → after_path loop (path, t ∷ view) ≡ (
        if is_key_word kw_as t
        then rebinding_tree path view
        else ok (some (of_path path none), t ∷ view))
after_path_lem loop path t view = rw (no_glob t view, no_group t view) refl

-- The tree holds no others, and it is no glob and no group.
abbrev pub IsImport : UseTree → Type 0
IsImport (use_tree path trees double_colon under id none) = trees ≡ no_tree
IsImport (use_tree path trees double_colon under id (some UseTreeKind.rebinding)) = trees ≡ no_tree
IsImport (use_tree path trees double_colon under id (some UseTreeKind.glob)) = ⊥
IsImport (use_tree path trees double_colon under id (some UseTreeKind.recursive)) = ⊥

abbrev Imports : Parsed UseTree → Type 0
Imports (ok (some tree, view)) = IsImport tree
Imports _ = Unit

Imports-bind :
    {A : Type 0} (m : Outcome A) (k : A → Parsed UseTree)
    → ((a : A) → Imports (k a))
    → Imports (m >>= k)
Imports-bind (ok a) k h = h a
Imports-bind exited k h = tt
Imports-bind aborted k h = tt
Imports-bind undefined k h = tt
Imports-bind diverges k h = tt
Imports-bind out_of_fuel k h = tt

Imports-if :
    (b : Bool) (m n : Parsed UseTree) → Imports m → Imports n → Imports (if b then m else n)
Imports-if true m n h k = h
Imports-if false m n h k = k

rebinding-Imports : (path : SimplePath) (view : View) → Imports (rebinding_tree path view)
rebinding-Imports path [] = tt
rebinding-Imports path (t ∷ view) =
    Imports-if (is_kind identifier t) _ _ refl
      (Imports-if (is_kind underscore t) _ (ok (none, t ∷ view)) refl tt)

after_path-Imports :
    (loop : UseTree → View → Parsed UseTree) (r : SimplePath × View) → Imports (after_path loop r)
after_path-Imports loop (path, []) = tt
after_path-Imports loop (path, t ∷ view) =
    rw (after_path_lem loop path t view)
      (Imports-if (is_key_word kw_as t) _ _ (rebinding-Imports path view) refl)

-- What parseUseTree reads from a segment on, or from a `::` before one, is never a glob or a group and
-- holds no other trees: the tests for `::*` and `::{` behind the path fail on every token.
pub parse_use_tree-IsImport :
    (f : ℕ) (c : Bool) (seg : SimplePathSegment) (view rest : View) (tree : UseTree)
    → parse_use_tree (suc f) (leading c (segment_token seg ∷ view)) ≡ ok (some tree, rest)
    → IsImport tree
parse_use_tree-IsImport f c seg view rest tree h =
    subst Imports (sym (import_path f c seg view) ∙ h) (
      Imports-bind (parse_simple_path (leading c (segment_token seg ∷ view))) _
        λ r. Imports-bind (or_exit r) _ (after_path-Imports (group_loop f)))

-- What stands behind the path: nothing that belongs to it, `as` and a name, or `as _`.
pub data Ending : Type 0 where
  plain : Ending
  as_name : Bytes → Ending
  as_underscore : Ending

abbrev pub ending_stream : Ending → View
ending_stream plain = []
ending_stream (as_name id) =
    record { loc = empty_location; kind = keyword; storage = []; key_word = some kw_as }
    ∷ record { loc = empty_location; kind = identifier; storage = id; key_word = none }
    ∷ []
ending_stream as_underscore =
    record { loc = empty_location; kind = keyword; storage = []; key_word = some kw_as }
    ∷ delimiter underscore
    ∷ []

abbrev pub ending_tree : SimplePath → Ending → UseTree
ending_tree path plain = of_path path none
ending_tree path (as_name id) =
    use_tree (some path) no_tree false false id (some UseTreeKind.rebinding)
ending_tree path as_underscore =
    use_tree (some path) no_tree false true [] (some UseTreeKind.rebinding)

path-ending :
    (f : ℕ) (c : Bool) (seg : SimplePathSegment) (segs : List SimplePathSegment) (t : Token)
    (view : View)
    → IsSegment seg
    → All IsSegment segs
    → is_kind path_sep t ≡ false
    → parse_use_tree (suc f) (leading c (path_stream seg segs ++ t ∷ view))
      ≡ after_path (group_loop f) (simple_path c (seg ∷ segs), t ∷ view)
path-ending f c seg segs t view s ss h =
    import_path f c seg (after_first segs ++ t ∷ view)
    ∙ rw (parse_simple_path-stream c seg segs t view s ss h) refl

-- An import is read back, if its path has two `::` after its first segment, as parseSimplePath wants it,
-- and the token behind it is neither `::` nor `as`.
pub parse_use_tree-stream :
    (f : ℕ) (c : Bool) (seg : SimplePathSegment) (segs : List SimplePathSegment) (ending : Ending)
    (t : Token) (view : View)
    → IsSegment seg
    → All IsSegment segs
    → is_kind path_sep t ≡ false
    → is_key_word kw_as t ≡ false
    → parse_use_tree
        (suc f)
        (leading c (path_stream seg segs ++ (ending_stream ending ++ t ∷ view)))
      ≡ ok (some (ending_tree (simple_path c (seg ∷ segs)) ending), t ∷ view)
unfolding kind_equal value
parse_use_tree-stream f c seg segs plain t view s ss h k =
    path-ending f c seg segs t view s ss h ∙ after_path_lem (group_loop f) _ t view ∙ rw k refl
parse_use_tree-stream f c seg segs (as_name id) t view s ss h k =
    path-ending f c seg segs _ _ s ss refl ∙ after_path_lem (group_loop f) _ _ _
parse_use_tree-stream f c seg segs as_underscore t view s ss h k =
    path-ending f c seg segs _ _ s ss refl ∙ after_path_lem (group_loop f) _ _ _
