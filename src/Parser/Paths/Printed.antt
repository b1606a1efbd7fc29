-- ===== src/Parser/Paths/Printed.antt =====
-- The paths that `parseSimplePath` reads back, and what it leaves of the others.
use mlir_rustc.Prelude.{
  ℕ, zero, suc, ◌<◌, ◌≤◌, Bool, true, false, List, [], ◌∷◌, ◌++◌, length, length-append,
  append_assoc, append-nil, none, some, All, ok, ◌≡◌, refl, ◌∙◌, arith,
}
use mlir_rustc.Lexer.KeyWords.{KeyWordKind, kw_super, kw_selfvalue, kw_crate}
use mlir_rustc.Lexer.Token.{Token, path_sep, identifier, keyword}
use mlir_rustc.Parser.Tokens.{View, kind_equal, is_kind}
use mlir_rustc.Parser.TokenTrees.{delimiter, empty_location}
use mlir_rustc.Parser.Paths.{
  SimplePathSegment, named, key_word, SimplePath, path_segment, path_loop, path_rest,
  parse_simple_path,
}

-- A keyword that a path can hold.
abbrev pub IsPathKeyWord : KeyWordKind → Type 0
IsPathKeyWord kw_super = Unit
IsPathKeyWord kw_selfvalue = Unit
IsPathKeyWord kw_crate = Unit
IsPathKeyWord _ = ⊥

abbrev pub IsSegment : SimplePathSegment → Type 0
IsSegment (named id) = Unit
IsSegment (key_word kw) = IsPathKeyWord kw

abbrev pub segment_token : SimplePathSegment → Token
segment_token (named id) = record {
  loc = empty_location;
  kind = identifier;
  storage = id;
  key_word = none;
}
segment_token (key_word kw) = record {
  loc = empty_location;
  kind = keyword;
  storage = [];
  key_word = some kw;
}

abbrev pub colons : Token
colons = delimiter path_sep

path_segment-token :
    (seg : SimplePathSegment) (view : View)
    → IsSegment seg
    → path_segment (segment_token seg ∷ view) ≡ ok (some seg, view)
unfolding path_segment
path_segment-token (named id) view h = refl
path_segment-token (key_word kw_super) view h = refl
path_segment-token (key_word kw_selfvalue) view h = refl
path_segment-token (key_word kw_crate) view h = refl
path_segment-token (key_word _) view h = absurd h

-- The segments that the loop reads, a `::` before each one.
abbrev pub tail_stream : List SimplePathSegment → View
tail_stream [] = []
tail_stream (seg ∷ segs) = colons ∷ segment_token seg ∷ tail_stream segs

-- What follows the first segment: a `::` of its own, and then those of the loop.
abbrev pub after_first : List SimplePathSegment → View
after_first [] = []
after_first (seg ∷ segs) = colons ∷ tail_stream (seg ∷ segs)

abbrev pub path_stream : SimplePathSegment → List SimplePathSegment → View
path_stream seg segs = segment_token seg ∷ after_first segs

abbrev pub simple_path : Bool → List SimplePathSegment → SimplePath
simple_path c segs = record { with_double_colon = c; segments = segs }

loop-done :
    (f : ℕ) (path : SimplePath) (t : Token) (view : View)
    → is_kind path_sep t ≡ false
    → path_loop (suc f) path (t ∷ view) ≡ ok (some path, t ∷ view)
unfolding path_loop
loop-done f path t view h = ground arith

loop-segment :
    (f : ℕ) (c : Bool) (segs : List SimplePathSegment) (seg : SimplePathSegment) (view : View)
    → IsSegment seg
    → path_loop (suc f) (simple_path c segs) (colons ∷ segment_token seg ∷ view)
      ≡ path_loop f (simple_path c (segs ++ seg ∷ [])) view
unfolding path_loop
loop-segment f c segs seg view h = rw (path_segment-token seg view h) refl

loop-reads :
    (f : ℕ) (c : Bool) (read segs : List SimplePathSegment) (t : Token) (view : View)
    → All IsSegment segs
    → is_kind path_sep t ≡ false
    → length segs < f
    → path_loop f (simple_path c read) (tail_stream segs ++ t ∷ view)
      ≡ ok (some (simple_path c (read ++ segs)), t ∷ view)
loop-reads zero c read segs t view s h l = absurd (omega arith)
loop-reads (suc f) c read [] t view s h l =
    loop-done f (simple_path c read) t view h ∙ rw (append-nil read) refl
loop-reads (suc f) c read (seg ∷ segs) t view s h l =
    loop-segment f c read seg (tail_stream segs ++ t ∷ view) s.0
    ∙ loop-reads f c (read ++ seg ∷ []) segs t view s.1 h (omega arith)
    ∙ rw (append_assoc read (seg ∷ []) segs) refl

length-tail : (segs : List SimplePathSegment) → length segs ≤ length (tail_stream segs)
length-tail [] = omega arith
length-tail (seg ∷ segs) = omega (arith, length-tail segs)

rest-reads :
    (c : Bool) (seg : SimplePathSegment) (segs : List SimplePathSegment) (t : Token) (view : View)
    → All IsSegment segs
    → is_kind path_sep t ≡ false
    → path_rest c seg (after_first segs ++ t ∷ view)
      ≡ ok (some (simple_path c (seg ∷ segs)), t ∷ view)
unfolding kind_equal
rest-reads c seg [] t view s h = rw h refl
rest-reads c seg (u ∷ segs) t view s h =
    loop-reads _ c (seg ∷ []) (u ∷ segs) t view s h
      (omega (arith, length-tail segs, length-append (tail_stream (u ∷ segs)) (t ∷ view)))

segment-no_colons : (seg : SimplePathSegment) → is_kind path_sep (segment_token seg) ≡ false
unfolding kind_equal
segment-no_colons (named id) = refl
segment-no_colons (key_word kw) = refl

abbrev pub leading : Bool → View → View
leading true view = colons ∷ view
leading false view = view

-- From the first segment on, with the `::` before it or without one.
first_segment :
    (c : Bool) (seg : SimplePathSegment) (view : View)
    → IsSegment seg
    → parse_simple_path (leading c (segment_token seg ∷ view)) ≡ path_rest c seg view
unfolding parse_simple_path
first_segment true seg view h = rw (path_segment-token seg view h) refl
first_segment false seg view h = rw (segment-no_colons seg, path_segment-token seg view h) refl

-- A path is read back up to a token that is no `::`, if two `::` stand after its first segment and one
-- after each other segment but the last.
pub parse_simple_path-stream :
    (c : Bool) (seg : SimplePathSegment) (segs : List SimplePathSegment) (t : Token) (view : View)
    → IsSegment seg
    → All IsSegment segs
    → is_kind path_sep t ≡ false
    → parse_simple_path (leading c (path_stream seg segs ++ t ∷ view))
      ≡ ok (some (simple_path c (seg ∷ segs)), t ∷ view)
parse_simple_path-stream c seg segs t view s ss h =
    first_segment c seg (after_first segs ++ t ∷ view) s ∙ rest-reads c seg segs t view ss h

-- Of a path as it is written, with one `::` after each segment, only the first segment is read: the
-- `::` after it is taken off, and what follows it is left.
pub parse_simple_path-first :
    (c : Bool) (seg : SimplePathSegment) (t : Token) (view : View)
    → IsSegment seg
    → is_kind path_sep t ≡ false
    → parse_simple_path (leading c (segment_token seg ∷ colons ∷ t ∷ view))
      ≡ ok (some (simple_path c (seg ∷ [])), t ∷ view)
unfolding kind_equal
parse_simple_path-first c seg t view s h =
    first_segment c seg (colons ∷ t ∷ view) s
    ∙ loop-done (suc (length view)) (simple_path c (seg ∷ [])) t view h
