-- ===== src/Parser/MacroItems/Answers.antt =====
-- When `checkMacroItem` answers true.
use mlir_rustc.Prelude.{
  Bool, true, false, ◌||◌, ◌&&◌, if◌then◌else◌, [], ◌∷◌, Outcome, ok, diverges, ◌≡◌, ◌↔◌, refl, sym,
  ◌∙◌, arith, Bool-cases, inl, inr,
}
use mlir_rustc.Lexer.KeyWords.{kw_super, kw_selfvalue, kw_crate}
use mlir_rustc.Lexer.Token.{TokenKind, Token, identifier, dollar, eof, path_sep}
use mlir_rustc.Parser.Tokens.{
  View, kind_value, kind_equal, is_kind, is_key_word, check, check_key_word,
  check_simple_path_segment,
}
use mlir_rustc.Parser.MacroItems.{is_end, macro_loop}

-- A segment of a simple path: the token at hand, or a dollar before `crate`.
abbrev pub segment_token : Token → Token → Bool
segment_token t u =
    is_kind identifier t
    || (is_key_word kw_super t
        || (is_key_word kw_selfvalue t
            || (is_key_word kw_crate t || (is_kind dollar t && is_key_word kw_crate u))))

-- Segments of paths and `::` in any order, and then a token of this sort.
pub data PathTo (P : Token → Bool) : View → Type 0 where
  here : {t : Token} {view : View} → P t ≡ true → PathTo P (t ∷ view)
  after_segment :
      {t u : Token} {view : View}
      → segment_token t u ≡ true
      → PathTo P (u ∷ view)
      → PathTo P (t ∷ u ∷ view)
  after_colons :
      {t u : Token} {view : View}
      → is_kind path_sep t ≡ true
      → PathTo P (u ∷ view)
      → PathTo P (t ∷ u ∷ view)

segment-check :
    (t u : Token) (view : View) → check_simple_path_segment (t ∷ u ∷ view) ≡ ok (segment_token t u)
unfolding check_simple_path_segment check check_key_word
segment-check t u view = ground arith

-- A kind that is known rules the others out.
not-eof : (t : Token) → is_kind TokenKind.not t ≡ true → is_kind eof t ≡ false
unfolding kind_equal kind_value
not-eof t h = ground arith

not-segment : (t u : Token) → is_kind TokenKind.not t ≡ true → segment_token t u ≡ false
unfolding kind_equal kind_value
not-segment t u h = ground arith

not-colons : (t : Token) → is_kind TokenKind.not t ≡ true → is_kind path_sep t ≡ false
unfolding kind_equal kind_value
not-colons t h = ground arith

colons-eof : (t : Token) → is_kind path_sep t ≡ true → is_kind eof t ≡ false
unfolding kind_equal kind_value
colons-eof t h = ground arith

colons-segment : (t u : Token) → is_kind path_sep t ≡ true → segment_token t u ≡ false
unfolding kind_equal kind_value
colons-segment t u h = ground arith

segment-eof : (t u : Token) → segment_token t u ≡ true → is_kind eof t ≡ false
unfolding kind_equal kind_value
segment-eof t u h = ground arith

macro_step :
    (t u : Token) (view : View)
    → macro_loop (t ∷ u ∷ view) ≡ (
        if is_kind eof t
        then ok false
        else if segment_token t u
        then macro_loop (u ∷ view)
        else if is_kind path_sep t
        then macro_loop (u ∷ view)
        else if is_kind TokenKind.not t
        then ok true
        else if is_end t
        then ok false
        else diverges)
unfolding macro_loop
macro_step t u view = rw (segment-check t u view) refl

macro_last : (t : Token) → macro_loop (t ∷ []) ≡ ok true → is_kind TokenKind.not t ≡ true
unfolding macro_loop check_simple_path_segment check check_key_word
macro_last t h = ground arith

-- Where the loop answers at a sort of token, whatever follows it, it answers so after a path to it.
module _ (P : Token → Bool) (answer : Outcome Bool)
    (at_once : (t : Token) (view : View) → P t ≡ true → macro_loop (t ∷ view) ≡ answer) where
  PathTo-answer : {view : View} → PathTo P view → macro_loop view ≡ answer
  PathTo-answer (here {t} {view} h) = at_once t view h
  PathTo-answer (after_segment {t} {u} {view} h p) =
      macro_step t u view ∙ rw (segment-eof t u h, h) (PathTo-answer p)
  PathTo-answer (after_colons {t} {u} {view} h p) =
      macro_step t u view ∙ rw (colons-eof t h, colons-segment t u h, h) (PathTo-answer p)

bang_last : (t : Token) → is_kind TokenKind.not t ≡ true → macro_loop (t ∷ []) ≡ ok true
unfolding macro_loop check_simple_path_segment check check_key_word kind_equal kind_value
bang_last t h = ground arith

bang_answer :
    (t : Token) (view : View) → is_kind TokenKind.not t ≡ true → macro_loop (t ∷ view) ≡ ok true
bang_answer t [] h = bang_last t h
bang_answer t (u ∷ view) h =
    macro_step t u view ∙ rw (not-eof t h, not-segment t u h, not-colons t h, h) refl

end_of_file :
    (t u : Token) (view : View) → is_kind eof t ≡ true → macro_loop (t ∷ u ∷ view) ≡ ok true → ⊥
end_of_file t u view e h =
    let stops : macro_loop (t ∷ u ∷ view) ≡ ok false = macro_step t u view ∙ rw e refl in
    cc (sym stops ∙ h)

last_test :
    (t u : Token) (view : View)
    → is_kind eof t ≡ false
    → segment_token t u ≡ false
    → is_kind path_sep t ≡ false
    → macro_loop (t ∷ u ∷ view) ≡ ok true
    → is_kind TokenKind.not t ≡ true
last_test t u view e s c h = let ends = rw (macro_step t u view, e, s, c) at h in ground arith

answer-PathTo : (view : View) → macro_loop view ≡ ok true → PathTo (is_kind TokenKind.not) view
unfolding macro_loop
answer-PathTo [] h = cc
answer-PathTo (t ∷ []) h = here (macro_last t h)
answer-PathTo (t ∷ u ∷ view) h =
    let more = answer-PathTo (u ∷ view) in
    elim (Bool-cases (is_kind eof t)) [
      | inl e ↦ absurd (end_of_file t u view e h)
      | inr e ↦ elim (Bool-cases (segment_token t u)) [
        | inl s ↦ after_segment s (more (sym (macro_step t u view ∙ rw (e, s) refl) ∙ h))
        | inr s ↦ elim (Bool-cases (is_kind path_sep t)) [
          | inl c ↦ after_colons c (more (sym (macro_step t u view ∙ rw (e, s, c) refl) ∙ h))
          | inr c ↦ here (last_test t u view e s c h)
        ]
      ]
    ]

-- The loop answers true exactly if the tokens are segments of paths and `::`, in any order, up to a `!`.
pub macro_loop_iff :
    (view : View) → (macro_loop view ≡ ok true) ↔ PathTo (is_kind TokenKind.not) view
macro_loop_iff view =
    (answer-PathTo view, λ p. PathTo-answer (is_kind TokenKind.not) (ok true) bang_answer p)
