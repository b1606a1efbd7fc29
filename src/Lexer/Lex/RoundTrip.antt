-- ===== src/Lexer/Lex/RoundTrip.antt =====
-- `lex` on printed lexemes.
use mlir_rustc.Prelude.{
  ℕ, zero, suc, ◌<◌, ◌≡◌, refl, sym, ap, ◌∙◌, false, List, [], ◌∷◌, ◌++◌, ◌||◌, ◌==◌, inl, inr,
  arith, Option-cases, Bytes, starts_with, All, length, drop-append, append_assoc, ok,
}
use mlir_rustc.Lexer.KeyWords.{is_key_word}
use mlir_rustc.Lexer.Token.{token_to_string}
use mlir_rustc.Lexer.Scan.{try_lex_dec_literal, try_lex_string, try_lex_identifier}
use mlir_rustc.Lexer.Lex.Symbols.{Blank, space, tab, line_feed, blank_byte, lex_item-symbol}
use mlir_rustc.Lexer.Lex.Lexemes.{lex_item-word, lex_item-integer}
use mlir_rustc.Lexer.Lex.{
  u32_add, LexState, again, take_off, append, append_word, lex_item, lex_round, lex_loop, lex,
  initial, skip_white_space, is_empty,
}
use mlir_rustc.Lexer.Lex.Printed.{
  Lexeme, word, integer, symbol, text, IsLexeme, word_kind, made, print, token_at, tokens_from, Gap,
  gap_bytes, after_gap, skip_white_space-gap, u32_add-zero, Lexeme-NoBlank, head_byte, gap-no_empty,
  length-gap, length-printed, u32_add-lt, no_gap, space_gap, tab_gap,
}

module _ (file_name : Bytes) where
  append_word_lem :
      (s : LexState) (w : Bytes)
      → append_word file_name w s ≡ append file_name (word_kind (is_key_word w)) w (is_key_word w) s
  unfolding append_word
  append_word_lem s w = elim (Option-cases (is_key_word w)) [
    | inl k ↦ rw (k, append_word)
    | inr (kw, k) ↦ rw (k, append_word)
  ]

  lex_item-Lexeme :
      (s : LexState) (l : Lexeme) (b : Blank) (rest : Bytes)
      → IsLexeme l
      → s.code ≡ text l ++ (blank_byte b ∷ rest)
      → lex_item file_name s
        ≡ ok (
            again (record s {
              code = blank_byte b ∷ rest;
              column = u32_add s.column (length (text l));
              tokens =
                  s.tokens
                  ++ (token_at file_name s.line s.column (made l).0 (made l).1 (made l).2 ∷ []);
            }))
  unfolding take_off append
  lex_item-Lexeme s (word w) b rest h e =
      lex_item-word file_name s w b rest h e ∙ rw (append_word_lem s w, e, drop-append w)
  lex_item-Lexeme s (integer ds) b rest h e =
      lex_item-integer file_name s ds b rest h e ∙ rw (e, drop-append ds)
  lex_item-Lexeme s (symbol k) b rest h e =
      (rw (← e) at (lex_item-symbol file_name s rest k b h))
      ∙ rw (e, drop-append (token_to_string k))

  lex_round_lem :
      (s : LexState)
      → lex_round file_name s ≡ lex_item file_name (skip_white_space (skip_white_space s))
  unfolding lex_round
  lex_round_lem s = refl

  -- Skipping twice is skipping once.
  lex_round-gap :
      (s : LexState) (g : Gap) (c : ℕ) (rest : Bytes)
      → (c == b' ' || c == b'\t') ≡ false
      → s.code ≡ gap_bytes g ++ (c ∷ rest)
      → s.column < 4_294_967_296
      → lex_round file_name s
        ≡ lex_item file_name (record s { code = c ∷ rest; column = after_gap g s.column })
  lex_round-gap s g c rest h e k =
      let once = record s { code = c ∷ rest; column = u32_add s.column (length (gap_bytes g)) } in
      lex_round_lem s
      ∙ rw (skip_white_space-gap s g c rest h e)
          (rw (skip_white_space-gap once no_gap c rest h refl, u32_add-zero g s.column k))

  lex_loop-again :
      (f : ℕ) (s t : LexState)
      → is_empty s.code ≡ false
      → lex_round file_name s ≡ ok (again t)
      → lex_loop file_name (suc f) s ≡ lex_loop file_name f t
  unfolding lex_loop
  lex_loop-again f s t e h = rw (e, h)

  lex_round-newline :
      (s : LexState) (g : Gap) (rest : Bytes)
      → s.code ≡ gap_bytes g ++ (b'\n' ∷ rest)
      → s.column < 4_294_967_296
      → lex_round file_name s
        ≡ ok (again (record s { code = rest; line = u32_add s.line 1; column = 0 }))
  lex_round-newline s g rest e k =
      lex_round-gap s g b'\n' rest refl e k
      ∙ unfold lex_item starts_with try_lex_dec_literal try_lex_string try_lex_identifier in refl

  lex_round-Lexeme :
      (s : LexState) (g : Gap) (l : Lexeme) (b : Blank) (rest : Bytes)
      → IsLexeme l
      → s.code ≡ gap_bytes g ++ (text l ++ (blank_byte b ∷ rest))
      → s.column < 4_294_967_296
      → lex_round file_name s
        ≡ ok (
            again (record s {
              code = blank_byte b ∷ rest;
              column = u32_add (after_gap g s.column) (length (text l));
              tokens =
                  s.tokens
                  ++ (token_at file_name s.line
                        (after_gap g s.column)
                        (made l).0
                        (made l).1
                        (made l).2
                      ∷ []);
            }))
  lex_round-Lexeme s g l b rest h e k =
      let (c, cs, f, n) = head_byte (text l) (blank_byte b ∷ rest) (Lexeme-NoBlank l h) in
      lex_round-gap s g c cs n (e ∙ ap (λ v. gap_bytes g ++ v) f) k
      ∙ lex_item-Lexeme (record s { code = c ∷ cs; column = after_gap g s.column }) l b rest h
          (sym f)

  -- The state behind a lexeme.
  abbrev behind : LexState → Gap → Lexeme → Bytes → LexState
  behind s g l code = record s {
    code = code;
    column = u32_add (after_gap g s.column) (length (text l));
    tokens =
        s.tokens
        ++ (token_at file_name s.line (after_gap g s.column) (made l).0 (made l).1 (made l).2 ∷ []);
  }

  lex_loop-Lexeme :
      (f : ℕ) (s : LexState) (g : Gap) (l : Lexeme) (b : Blank) (rest : Bytes)
      → IsLexeme l
      → s.code ≡ gap_bytes g ++ (text l ++ (blank_byte b ∷ rest))
      → s.column < 4_294_967_296
      → lex_loop file_name (suc f) s ≡ lex_loop file_name f (behind s g l (blank_byte b ∷ rest))
  lex_loop-Lexeme f s g l b rest h e k =
      let no_end = gap-no_empty g (text l) (blank_byte b ∷ rest) (Lexeme-NoBlank l h) in
      lex_loop-again f s _ (ap is_empty e ∙ no_end) (lex_round-Lexeme s g l b rest h e k)

  lex_loop-newline :
      (f : ℕ) (s : LexState) (g : Gap) (rest : Bytes)
      → s.code ≡ gap_bytes g ++ (b'\n' ∷ rest)
      → s.column < 4_294_967_296
      → lex_loop file_name (suc f) s
        ≡ lex_loop file_name f (record s { code = rest; line = u32_add s.line 1; column = 0 })
  lex_loop-newline f s g rest e k =
      lex_loop-again f s _ (ap is_empty e ∙ gap-no_empty g (b'\n' ∷ []) rest refl)
        (lex_round-newline s g rest e k)

  -- The loop reads printed lexemes behind a gap.
  lex_loop-print :
      (ls : List (Lexeme × Blank)) (f : ℕ) (s : LexState) (g : Gap)
      → All (λ p. IsLexeme p.0) ls
      → s.code ≡ gap_bytes g ++ print ls
      → s.column < 4_294_967_296
      → length s.code < f
      → lex_loop file_name f s
        ≡ ok (s.tokens ++ tokens_from file_name s.line (after_gap g s.column) ls)
  lex_loop-print ls zero s g h e k m = absurd (omega arith)
  lex_loop-print [] (suc zero) s g h e k m =
      absurd (omega (arith, ap length e, length-gap g (b'\n' ∷ [])))
  lex_loop-print [] (suc (suc f)) s g h e k m =
      lex_loop-newline (suc f) s g [] e k ∙ unfold lex_loop in refl
  lex_loop-print ((l, space) ∷ ls) (suc f) s g h e k m =
      lex_loop-Lexeme f s g l space (print ls) h.0 e k
      ∙ lex_loop-print ls f (behind s g l (b' ' ∷ print ls)) space_gap h.1 refl
          (u32_add-lt (after_gap g s.column) (length (text l)))
          (omega (arith, ap length e, length-printed g l space (print ls) h.0))
      ∙ rw append_assoc
  lex_loop-print ((l, tab) ∷ ls) (suc f) s g h e k m =
      lex_loop-Lexeme f s g l tab (print ls) h.0 e k
      ∙ lex_loop-print ls f (behind s g l (b'\t' ∷ print ls)) tab_gap h.1 refl
          (u32_add-lt (after_gap g s.column) (length (text l)))
          (omega (arith, ap length e, length-printed g l tab (print ls) h.0))
      ∙ rw append_assoc
  lex_loop-print ((l, line_feed) ∷ ls) (suc zero) s g h e k m =
      absurd (omega (arith, ap length e, length-printed g l line_feed (print ls) h.0))
  lex_loop-print ((l, line_feed) ∷ ls) (suc (suc f)) s g h e k m =
      lex_loop-Lexeme (suc f) s g l line_feed (print ls) h.0 e k
      ∙ lex_loop-newline f (behind s g l (b'\n' ∷ print ls)) no_gap (print ls) refl
          (u32_add-lt (after_gap g s.column) (length (text l)))
      ∙ lex_loop-print ls f _ no_gap h.1 refl (omega arith)
          (omega (arith, ap length e, length-printed g l line_feed (print ls) h.0))
      ∙ rw append_assoc

-- Printed words, numbers of one to four digits and the symbols of `is_symbol`, each with a blank behind
-- it, lex to their tokens and Eof, each token at its line and column.
pub lex-print :
    (file_name : Bytes) (ls : List (Lexeme × Blank))
    → All (λ p. IsLexeme p.0) ls
    → lex file_name (print ls) ≡ ok (tokens_from file_name 1 0 ls)
unfolding lex
lex-print file_name ls h =
    lex_loop-print file_name ls (suc (length (print ls))) (initial (print ls)) no_gap h refl
      (omega arith) (omega arith)
