-- ===== src/Lexer/Lex/Rounds.antt =====
-- What one round of `lex` does to its state, and what the whole loop comes to.
use mathlib.Core.Path.{subst}
use mathlib.Core.Option.{some-injective}
use mlir_rustc.Prelude.{
  ◌&&◌, leb, all→All, ℕ, zero, suc, ◌≤◌, ◌<◌, ◌≡◌, refl, sym, ◌∙◌, Bool, true, List, [], ◌∷◌, ◌++◌,
  Option, none, some, inl, inr, arith, Bool-cases, Option-cases, Bytes, codes, starts_with, All,
  All-append, length, length-drop, append_assoc, append-nil, Outcome, undefined, Settles,
  Settles-bind, Settles-if, Settles-mono,
}
use mlir_rustc.Lexer.KeyWords.{KeyWordKind, is_key_word}
use mlir_rustc.Lexer.Token.{
  TokenKind, Token, identifier, integer_literal, string_literal, keyword, eof,
}
use mlir_rustc.Lexer.Scan.{try_lex_identifier, try_lex_dec_literal, try_lex_string}
use mlir_rustc.Lexer.Scan.Lengths.{
  Found, try_lex_comment-Settles, try_lex_dec_literal-Found, try_lex_identifier-Found,
  try_lex_string-Found,
}
use mlir_rustc.Lexer.Lex.Rules.{
  Action, tok, crate, newline, static_lifetime, punctuation, find_rule,
}
use mlir_rustc.Lexer.Lex.Shadowed.{is_emitted, reachable, find_rule-reachable, starts_with-hidden}
use mlir_rustc.Lexer.Lex.{
  LexState, Next, again, return_tokens, take_off, append, append_word, act, lex_rule, no_rule,
  apply_rule, after_identifier, after_string, after_dec_int, lex_item, skip_white_space, lex_round,
  lex_loop, lex, initial, go_on, is_empty,
}

abbrev pub Emitted : Token → Type 0
Emitted t = is_emitted t.kind ≡ true

-- The state `t` has less text than `s`, and tokens of the emitted kinds behind those of `s`.
pub record Advances (s t : LexState) : Type 0 where
  pub shorter : length t.code < length s.code
  pub added : List Token
  pub tokens_are : t.tokens ≡ s.tokens ++ added
  pub emitted : All Emitted added

-- A round goes on in a state that it has advanced to.
abbrev pub Round : LexState → Next → Type 0
Round s (again t) = Advances s t
Round s (return_tokens _) = ⊥

-- An action takes off some text, and makes a token of an emitted kind if it makes one.
abbrev is_sound : Action → Bool
is_sound (tok kind n) = is_emitted kind && leb 1 n
is_sound _ = true

find_rule-All :
    (P : Action → Type 0) (code : Bytes) (rules : List (Bytes × Action)) {a : Action}
    → All (λ r. P r.1) rules
    → find_rule code rules ≡ some a
    → P a
unfolding find_rule
find_rule-All P code [] h e = cc
find_rule-All P code ((p, b) ∷ rules) h e = elim (Bool-cases (starts_with p code)) [
  | inl here ↦ subst P (some-injective _ _ (rw here at e)) h.0
  | inr later ↦ find_rule-All P code rules h.1 (rw later at e)
]

find_rule-is_sound :
    (code : Bytes) {a : Action} → find_rule code punctuation ≡ some a → is_sound a ≡ true
find_rule-is_sound code e =
    find_rule-All (λ a. is_sound a ≡ true) code reachable
      (all→All (λ r. is_sound r.1) reachable refl) (sym (find_rule-reachable code) ∙ e)

module _ (file_name : Bytes) (s : LexState) (some_code : 1 ≤ length s.code) where
  token-Advances :
      (kind : TokenKind) (storage : Bytes) (kw : Option KeyWordKind) (n : ℕ)
      → is_emitted kind ≡ true
      → 1 ≤ n
      → Advances s (take_off n (append file_name kind storage kw s))
  unfolding take_off append
  token-Advances kind storage kw n e h = record {
    shorter = omega (arith, length-drop n s.code);
    added = _;
    tokens_are = refl;
    emitted = (e, tt);
  }

  act-Advances : (a : Action) → is_sound a ≡ true → Advances s (act file_name a s)
  unfolding act take_off append
  act-Advances (tok kind n) h = token-Advances kind [] none n (ground arith) (ground arith)
  act-Advances crate h = token-Advances identifier (codes "$crate") none 6 refl (omega arith)
  act-Advances newline h = record {
    shorter = omega (arith, length-drop 1 s.code);
    added = [];
    tokens_are = sym (append-nil s.tokens);
    emitted = tt;
  }
  act-Advances static_lifetime h = record {
    shorter = omega (arith, length-drop 7 s.code);
    added = _;
    tokens_are = refl;
    emitted = (refl, tt);
  }

  no_rule-Round : (code : Bytes) → 1 ≤ length code → Settles (Round s) (no_rule file_name code s)
  unfolding no_rule
  no_rule-Round [] h = absurd (omega arith)
  no_rule-Round (_ ∷ _) h = tt

  lex_rule-Round : Settles (Round s) (lex_rule file_name s)
  unfolding lex_rule
  lex_rule-Round = elim (Option-cases (find_rule s.code punctuation)) [
    | inl e ↦ rw (e, apply_rule) (no_rule-Round s.code some_code)
    | inr (a, e) ↦ rw (e, apply_rule) (act-Advances a (find_rule-is_sound s.code e))
  ]

  append_word-Advances :
      (text : Bytes)
      → 1 ≤ length text
      → Advances s (take_off (length text) (append_word file_name text s))
  unfolding append_word
  append_word-Advances text h = elim (Option-cases (is_key_word text)) [
    | inl e ↦ rw (e, append_word) (token-Advances identifier text none _ refl h)
    | inr (kw, e) ↦ rw (e, append_word) (token-Advances keyword text (some kw) _ refl h)
  ]

  after_identifier-Round :
      (id : Option Bytes) → Found id → Settles (Round s) (after_identifier file_name s id)
  unfolding after_identifier
  after_identifier-Round none h = lex_rule-Round
  after_identifier-Round (some text) h = append_word-Advances text h

  after_string-Round :
      (str : Option Bytes) → Found str → Settles (Round s) (after_string file_name s str)
  unfolding after_string
  after_string-Round none h =
      Settles-bind Found (Round s) _ _ (try_lex_identifier-Found s.code) after_identifier-Round
  after_string-Round (some text) h = token-Advances string_literal text none _ refl h

  after_dec_int-Round :
      (n : Option Bytes) → Found n → Settles (Round s) (after_dec_int file_name s n)
  unfolding after_dec_int
  after_dec_int-Round none h = after_string-Round _ (try_lex_string-Found s.code)
  after_dec_int-Round (some text) h = token-Advances integer_literal text none _ refl h

  take_off-Advances : (n : ℕ) → 1 ≤ n → Advances s (take_off n s)
  unfolding take_off
  take_off-Advances n h = record {
    shorter = omega (arith, length-drop n s.code);
    added = [];
    tokens_are = sym (append-nil s.tokens);
    emitted = tt;
  }

  lex_item-Round : Settles (Round s) (lex_item file_name s)
  unfolding lex_item
  lex_item-Round =
      Settles-if _ (starts_with (codes "//") s.code) _ _
        (λ h.
          Settles-bind (λ r. 1 ≤ length r) (Round s) _ _ (try_lex_comment-Settles s.code h)
            (λ text k. take_off-Advances (length text) k))
        (λ h.
          rw (starts_with-hidden (codes "//") (codes "//*") s.code (unfold starts_with in refl) h) (
            Settles-bind Found (Round s) _ _ (try_lex_dec_literal-Found s.code)
              after_dec_int-Round))

-- With no text left a round reads past the end.
-- Without any text, the scanner of identifiers reads past the end.
pub lex_item_nil :
    (file_name : Bytes) (s : LexState) → s.code ≡ [] → lex_item file_name s ≡ undefined
unfolding lex_item starts_with try_lex_identifier try_lex_string try_lex_dec_literal
lex_item_nil file_name s e = rw e

lex_item-cases :
    (file_name : Bytes) (s : LexState) (code : Bytes)
    → s.code ≡ code
    → Settles (Round s) (lex_item file_name s)
lex_item-cases file_name s [] e = rw (lex_item_nil file_name s e) tt
lex_item-cases file_name s (c ∷ code) e = lex_item-Round file_name s (rw e (omega arith))

Round-skip : (s : LexState) (n : ℕ) (r : Next) → Round (take_off n s) r → Round s r
unfolding take_off
Round-skip s n (again t) h = record {
  shorter = omega (arith, h.shorter, length-drop n s.code);
  added = h.added;
  tokens_are = h.tokens_are;
  emitted = h.emitted;
}
Round-skip s n (return_tokens _) h = h

-- A round of the loop of `lex`, from any state, runs through its scanners, and if it comes to an
-- end without an exit or undefined behaviour it goes on with less text, with the tokens as they
-- were or with more tokens of the emitted kinds.
pub lex_round-Round : (file_name : Bytes) (s : LexState) → Settles (Round s) (lex_round file_name s)
unfolding lex_round
lex_round-Round file_name s =
    let t = skip_white_space s in
    let u = skip_white_space t in
    Settles-mono (Round u) (Round s) _ (lex_item-cases file_name u u.code refl)
      (λ r h. unfold skip_white_space in Round-skip s _ r (Round-skip t _ r h))

-- The tokens of `s`, then tokens of the emitted kinds, then one of kind Eof.
pub record Completes (s : LexState) (ts : List Token) : Type 0 where
  pub added : List Token
  pub last : Token
  pub tokens_are : ts ≡ s.tokens ++ (added ++ last ∷ [])
  pub emitted : All Emitted added
  pub ends : last.kind ≡ eof

Completes-after :
    (s t : LexState) (ts : List Token) → Advances s t → Completes t ts → Completes s ts
Completes-after s t ts h k = record {
  added = h.added ++ k.added;
  last = k.last;
  tokens_are = k.tokens_are ∙ rw h.tokens_are (simp append_assoc);
  emitted = All-append Emitted h.added k.added h.emitted k.emitted;
  ends = k.ends;
}

go_on-Completes :
    (s : LexState) (f : ℕ) (loop : LexState → Outcome (List Token))
    → ((t : LexState) → length t.code < f → Settles (Completes t) (loop t))
    → length s.code < suc f
    → (r : Next) → Round s r
    → Settles (Completes s) (go_on loop r)
unfolding go_on
go_on-Completes s f loop k h (again t) a =
    Settles-mono (Completes t) (Completes s) _ (k t (omega (arith, a.shorter)))
      (λ ts c. Completes-after s t ts a c)
go_on-Completes s f loop k h (return_tokens _) a = absurd a

-- With fuel for every byte that is left, and one unit more, the loop of `lex` ends, and what it
-- returns completes the tokens of its state.
pub lex_loop-Completes :
    (file_name : Bytes) (f : ℕ) (s : LexState)
    → length s.code < f
    → Settles (Completes s) (lex_loop file_name f s)
unfolding lex_loop
lex_loop-Completes file_name zero s h = absurd (omega arith)
lex_loop-Completes file_name (suc f) s h =
    Settles-if _ (is_empty s.code) _ _
      (λ _. record { added = []; last = _; tokens_are = refl; emitted = tt; ends = refl })
      (λ _.
        Settles-bind (Round s) (Completes s) _ _ (lex_round-Round file_name s)
          (go_on-Completes s f (lex_loop file_name f) (lex_loop-Completes file_name f) h))

-- `lex` ends on every text: it neither runs on nor fails an assertion, and where it neither exits nor
-- reads past the end it returns tokens that end in one of kind Eof, those before it being of the
-- emitted kinds, without Eof, `!=`, `>=`, `||` and the other kinds that `is_emitted` refuses.
pub lex-Completes :
    (file_name code : Bytes) → Settles (Completes (initial code)) (lex file_name code)
unfolding lex
lex-Completes file_name code =
    lex_loop-Completes file_name (suc (length code)) (initial code) (omega arith)
