-- ===== src/Parser/Paths.antt =====
-- Simple paths: parseSimplePath of code/parser/Path.cpp, with code/include/AST/SimplePath.h and
-- SimplePathSegment.h, and parseVisibility of code/parser/Parser.cpp.
pub mod Printed
use mlir_rustc.Prelude.{
  ℕ, zero, suc, Bool, true, false, if◌then◌else◌, List, [], ◌∷◌, ◌++◌, length, Option, none, some,
  Bytes, codes, Outcome, ok, exited, aborted, out_of_fuel, ◌>>=◌, ◌and_then◌,
}
use mlir_rustc.Lexer.KeyWords.{KeyWordKind, kw_super, kw_selfvalue, kw_crate, kw_pub, kw_in}
use mlir_rustc.Lexer.Token.{Token, path_sep, identifier, dollar, eof, paren_open, paren_close}
use mlir_rustc.Parser.Tokens.{View, kind_equal, is_kind, is_key_word, check, check_key_word}
use mlir_rustc.Lexer.KeyWords.{value}
use mlir_rustc.Parser.TokenTrees.{Parsed, or_exit}

pub data SimplePathSegment : Type 0 where
  named : Bytes → SimplePathSegment
  key_word : KeyWordKind → SimplePathSegment

pub record SimplePath : Type 0 where
  pub with_double_colon : Bool
  pub segments : List SimplePathSegment

-- `$crate`, after the dollar: the test reads the next token.
abbrev pub dollar_segment : Token → View → Parsed SimplePathSegment
dollar_segment t [] = aborted
dollar_segment t (u ∷ view) =
    if is_key_word kw_crate u
    then ok (some (named (codes "$crate")), view)
    else ok (none, t ∷ u ∷ view)

-- The tests for a segment, which `parseSimplePath` has twice.
unfoldable pub path_segment : View → Parsed SimplePathSegment
unfolding kind_equal value
path_segment [] = aborted
path_segment (t ∷ view) =
    if is_kind identifier t
    then ok (some (named t.storage), view)
    else if is_key_word kw_super t
    then ok (some (key_word kw_super), view)
    else if is_key_word kw_selfvalue t
    then ok (some (key_word kw_selfvalue), view)
    else if is_key_word kw_crate t
    then ok (some (key_word kw_crate), view)
    else if is_kind dollar t
    then dollar_segment t view
    else ok (none, t ∷ view)

-- A segment that was read, or the error.
abbrev pub with_segment {ℓ} :
    {A : Type ℓ}
    → (SimplePathSegment → View → Parsed A)
    → Option SimplePathSegment × View
    → Parsed A
with_segment next (none, view) = ok (none, view)
with_segment next (some seg, view) = next seg view

-- The loop, entered after a first `::`. On fuel: a round takes tokens off.
unfoldable pub path_loop : ℕ → SimplePath → View → Parsed SimplePath
unfolding kind_equal path_segment
path_loop zero path view = out_of_fuel
path_loop (suc f) path [] = aborted
path_loop (suc f) path (t ∷ view) =
    let more =
      path_segment view
      >>= with_segment
          (λ seg rest. path_loop f (record path { segments = path.segments ++ seg ∷ [] }) rest) in
    if is_kind eof t
    then ok (some path, t ∷ view)
    else if is_kind path_sep t
    then more
    else ok (some path, t ∷ view)

-- What follows the first segment.
abbrev pub path_rest : Bool → SimplePathSegment → View → Parsed SimplePath
path_rest colons seg [] = aborted
path_rest colons seg (t ∷ view) =
    if is_kind path_sep t
    then path_loop (suc (length view)) (record { with_double_colon = colons; segments = seg ∷ [] })
        view
    else ok (some (record { with_double_colon = colons; segments = seg ∷ [] }), t ∷ view)

unfoldable pub parse_simple_path : View → Parsed SimplePath
unfolding kind_equal path_segment path_loop
parse_simple_path [] = aborted
parse_simple_path (t ∷ view) =
    if is_kind path_sep t
    then path_segment view >>= with_segment (path_rest true)
    else path_segment (t ∷ view) >>= with_segment (path_rest false)

pub data Visibility : Type 0 where
  private public public_crate public_self public_super : Visibility
  public_in : SimplePath → Visibility

-- `pub ( k )`, four tokens.
abbrev pub check_pub : KeyWordKind → View → Outcome Bool
check_pub kw view =
    check_key_word kw_pub 0 view
    and_then (check paren_open 1 view
        and_then (check_key_word kw 2 view and_then check paren_close 3 view))

abbrev pub check_pub_in : View → Outcome Bool
check_pub_in view =
    check_key_word kw_pub 0 view
    and_then (check paren_open 1 view and_then check_key_word kw_in 2 view)

abbrev pub drop_tokens : ℕ → View → View
drop_tokens zero view = view
drop_tokens (suc n) [] = []
drop_tokens (suc n) (t ∷ view) = drop_tokens n view

-- After the path of `pub (in`: a closing parenthesis is left there, and its absence fails the assertion.
abbrev pub after_in : SimplePath × View → Outcome (Visibility × View)
after_in (path, view) =
    check paren_close 0 view >>= λ closed. if closed then ok (public_in path, view) else aborted

-- The tokens of `pub (self)` are not taken off.
unfoldable pub parse_visibility : View → Outcome (Visibility × View)
unfolding check check_key_word parse_simple_path
parse_visibility view = check_pub kw_crate view >>= λ crate.
    if crate
    then ok (public_crate, drop_tokens 4 view)
    else check_pub kw_selfvalue view >>= λ self.
        if self
        then ok (public_self, view)
        else check_pub kw_super view >>= λ super.
            if super
            then ok (public_super, drop_tokens 4 view)
            else check_pub_in view >>= λ within.
                if within
                then parse_simple_path (drop_tokens 3 view) >>= (λ r. or_exit r >>= after_in)
                else check_key_word kw_pub 0 view >>= λ bare.
                    if bare then ok (public, drop_tokens 1 view) else ok (private, view)
