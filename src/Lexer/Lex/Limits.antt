-- ===== src/Lexer/Lex/Limits.antt =====
-- Where `lex` gives up, and what a line comment does to the position.
use mlir_rustc.Prelude.{
  drop, ap₂, ℕ, ◌+◌, ◌≤◌, ◌≡◌, refl, sym, ap, ◌∙◌, Bool, true, false, List, [], ◌∷◌, ◌++◌, ◌||◌,
  not, ◌==◌, none, arith, Bytes, codes, starts_with, All, all, length, length-append, drop-append,
  append_assoc, Outcome, ok, exited, undefined, ◌>>=◌,
}
use mlir_rustc.Lexer.Scan.{
  is_digit, is_comment_byte, comment_loop, try_lex_comment, try_lex_white_space,
  try_lex_dec_literal, all_digits, try_lex_string, try_lex_identifier,
}
use mlir_rustc.Lexer.Lex.Rules.{Action, punctuation, find_rule}
use mlir_rustc.Lexer.Lex.Rounds.{lex_item_nil}
use mlir_rustc.Lexer.Lex.{
  u32_add, LexState, again, take_off, after_dec_int, after_string, after_identifier, lex_rule,
  no_rule, skip_comment, lex_item, lex_round, skip_white_space,
}

-- Comments.

comment_loop-All :
    (ws body rest : Bytes)
    → All (λ c. is_comment_byte c ≡ true) body
    → comment_loop ws (body ++ (b'\n' ∷ rest)) ≡ ok (ws ++ (body ++ (b'\n' ∷ [])))
unfolding comment_loop
comment_loop-All ws [] rest h = refl
comment_loop-All ws (c ∷ body) rest h =
    rw h.0 (rw (comment_loop-All (ws ++ c ∷ []) body rest h.1) (simp append_assoc))

try_lex_comment-All :
    (body rest : Bytes)
    → All (λ c. is_comment_byte c ≡ true) body
    → try_lex_comment (b'/' ∷ b'/' ∷ (body ++ (b'\n' ∷ rest)))
      ≡ ok (b'/' ∷ b'/' ∷ (body ++ (b'\n' ∷ [])))
unfolding try_lex_comment is_comment_byte
try_lex_comment-All body rest h = comment_loop-All [] (b'/' ∷ b'/' ∷ body) rest (refl, (refl, h))

comment_length : (body : Bytes) → length (b'/' ∷ b'/' ∷ (body ++ (b'\n' ∷ []))) ≡ length body + 3
comment_length body = omega (arith, length-append body (b'\n' ∷ []))

drop-comment :
    (body rest : Bytes) → drop (length body + 3) (b'/' ∷ b'/' ∷ (body ++ (b'\n' ∷ rest))) ≡ rest
drop-comment body rest =
    ap (λ n. drop n (b'/' ∷ b'/' ∷ (body ++ (b'\n' ∷ rest)))) (sym (comment_length body))
    ∙ (ap (drop (length (body ++ (b'\n' ∷ [])))) (sym (append_assoc body (b'\n' ∷ []) rest))
        ∙ drop-append (body ++ (b'\n' ∷ [])) rest)

lex_item-comment :
    (file_name : Bytes) (s : LexState)
    → starts_with (codes "//") s.code ≡ true
    → lex_item file_name s ≡ skip_comment file_name (try_lex_comment s.code) s
unfolding lex_item
lex_item-comment file_name s h = rw h

take_off_lem :
    (n : ℕ) (s : LexState)
    → take_off n s ≡ record s { code = drop n s.code; column = u32_add s.column n }
unfolding take_off
take_off_lem n s = refl

skip_comment-ok :
    (file_name : Bytes) (s : LexState) (text : Bytes) (comment : Outcome Bytes)
    → comment ≡ ok text
    → skip_comment file_name comment s ≡ ok (again (take_off (length text) s))
skip_comment-ok file_name s text comment h = rw h

-- A line comment of bytes that `tryLexComment` takes is skipped with the newline that ends it: the
-- line stays as it is, and the column goes on by the whole length.
pub lex_item_comment :
    (file_name : Bytes) (s : LexState) (body rest : Bytes)
    → All (λ c. is_comment_byte c ≡ true) body
    → s.code ≡ b'/' ∷ b'/' ∷ (body ++ (b'\n' ∷ rest))
    → lex_item file_name s
      ≡ ok (again (record s { code = rest; column = u32_add s.column (length body + 3) }))
unfolding starts_with
lex_item_comment file_name s body rest h e =
    let text : Bytes = b'/' ∷ b'/' ∷ (body ++ (b'\n' ∷ [])) in
    lex_item-comment file_name s (rw e)
    ∙ (skip_comment-ok file_name s text _ (ap try_lex_comment e ∙ try_lex_comment-All body rest h)
        ∙ (ap (λ t. ok (again t)) (take_off_lem (length text) s)
            ∙ ap₂ (λ n code. ok (again (record s { code = code; column = u32_add s.column n })))
                (comment_length body) (ap₂ drop (comment_length body) e ∙ drop-comment body rest)))

-- Long numbers.

all_digits-none :
    (ws ds : Bytes) (c : ℕ) (rest : Bytes)
    → is_digit c ≡ false
    → all_digits ws (ds ++ (c ∷ rest)) ≡ none
unfolding all_digits
all_digits-none ws [] c rest h = rw h
all_digits-none ws (d ∷ ds) c rest h = ground (arith, all_digits-none (ws ++ d ∷ []) ds c rest h)

abbrev begins_no_digit : Bytes → Bool
begins_no_digit [] = false
begins_no_digit (c ∷ _) = not (is_digit c)

digit-apart : (d c : ℕ) → is_digit d ≡ true → not (is_digit c) ≡ true → (d == c) ≡ false
unfolding is_digit
digit-apart d c h k = ground arith

find_rule-digit :
    (d : ℕ) (rest : Bytes) (rules : List (Bytes × Action))
    → is_digit d ≡ true
    → all (λ r. begins_no_digit r.0) rules ≡ true
    → find_rule (d ∷ rest) rules ≡ none
unfolding find_rule starts_with
find_rule-digit d rest [] h k = refl
find_rule-digit d rest (([], a) ∷ rules) h k = cc
find_rule-digit d rest ((c ∷ p, a) ∷ rules) h k =
    rw (digit-apart d c h (ground arith)) (find_rule-digit d rest rules h (ground arith))

try_lex_dec_literal-long :
    (d : ℕ) (ds : Bytes) (c : ℕ) (rest : Bytes)
    → All (λ x. is_digit x ≡ true) (d ∷ ds)
    → 4 ≤ length ds
    → is_digit c ≡ false
    → try_lex_dec_literal (d ∷ (ds ++ (c ∷ rest))) ≡ ok none
unfolding try_lex_dec_literal
try_lex_dec_literal-long d (x ∷ y ∷ z ∷ u ∷ ds) c rest h k n =
    rw (h.0, h.1.0, h.1.1.0, h.1.1.1.0, h.1.1.1.1.0)
      (ap ok (all_digits-none (d ∷ x ∷ y ∷ z ∷ u ∷ []) ds c rest n))
try_lex_dec_literal-long d _ c rest h k n = absurd (omega arith)

-- A digit begins no comment, no string and no identifier.
digit-Starts :
    (d : ℕ)
    → is_digit d ≡ true
    → ((d == b'/') ≡ false) × ((d == b'"') ≡ false) × ((d == b'_') ≡ false)
unfolding is_digit
digit-Starts d h = (ground arith, ground arith, ground arith)

no_identifier : (d : ℕ) (view : Bytes) → is_digit d ≡ true → try_lex_identifier (d ∷ view) ≡ ok none
unfolding try_lex_identifier
no_identifier d view h = rw ((digit-Starts d h).2, h)

lex_rule-digit :
    (file_name : Bytes) (s : LexState) (d : ℕ) (view : Bytes)
    → is_digit d ≡ true
    → s.code ≡ d ∷ view
    → lex_rule file_name s ≡ exited
unfolding lex_rule is_digit
lex_rule-digit file_name s d view h e =
    rw (ap (λ c. find_rule c punctuation) e ∙ find_rule-digit d view punctuation h refl)
      (rw (e, no_rule))

after_string-digit :
    (file_name : Bytes) (s : LexState) (d : ℕ) (view : Bytes)
    → is_digit d ≡ true
    → s.code ≡ d ∷ view
    → after_string file_name s none ≡ exited
unfolding after_string after_identifier
after_string-digit file_name s d view h e =
    ap (λ o. o >>= after_identifier file_name s) (ap try_lex_identifier e ∙ no_identifier d view h)
    ∙ lex_rule-digit file_name s d view h e

lex_item-no_comment :
    (file_name : Bytes) (s : LexState)
    → starts_with (codes "//") s.code ≡ false
    → starts_with (codes "//*") s.code ≡ false
    → lex_item file_name s ≡ (try_lex_dec_literal s.code >>= after_dec_int file_name s)
unfolding lex_item
lex_item-no_comment file_name s h k = rw (h, k)

no_string : (d : ℕ) (view : Bytes) → is_digit d ≡ true → try_lex_string (d ∷ view) ≡ none
unfolding try_lex_string
no_string d view h = rw (digit-Starts d h).1

after_dec_int-digit :
    (file_name : Bytes) (s : LexState) (d : ℕ) (view : Bytes)
    → is_digit d ≡ true
    → s.code ≡ d ∷ view
    → after_dec_int file_name s none ≡ exited
unfolding after_dec_int
after_dec_int-digit file_name s d view h e =
    ap (after_string file_name s) (ap try_lex_string e ∙ no_string d view h)
    ∙ after_string-digit file_name s d view h e

-- A number of five or more digits with another byte behind it is no token: `lex` exits.
pub lex_item_long_number :
    (file_name : Bytes) (s : LexState) (d : ℕ) (ds : Bytes) (c : ℕ) (rest : Bytes)
    → All (λ x. is_digit x ≡ true) (d ∷ ds)
    → 4 ≤ length ds
    → is_digit c ≡ false
    → s.code ≡ d ∷ (ds ++ (c ∷ rest))
    → lex_item file_name s ≡ exited
unfolding starts_with
lex_item_long_number file_name s d ds c rest h k n e =
    let apart = (digit-Starts d h.0).0 in
    lex_item-no_comment file_name s (rw (e, apart)) (rw (e, apart))
    ∙ (ap (λ o. o >>= after_dec_int file_name s)
          (ap try_lex_dec_literal e ∙ try_lex_dec_literal-long d ds c rest h k n)
        ∙ after_dec_int-digit file_name s d _ h.0 e)

-- Blanks at the end.

abbrev pub is_white : ℕ → Bool
is_white c = c == b' ' || c == b'\t'

try_lex_white_space-All :
    (ws : Bytes) → All (λ c. is_white c ≡ true) ws → try_lex_white_space ws ≡ ws
unfolding try_lex_white_space
try_lex_white_space-All [] h = refl
try_lex_white_space-All (c ∷ ws) h = rw (h.0, try_lex_white_space-All ws h.1)

drop-length : (ws : Bytes) → drop (length ws) ws ≡ []
drop-length [] = refl
drop-length (c ∷ ws) = drop-length ws

skip_white_space-All :
    (s : LexState) → All (λ c. is_white c ≡ true) s.code → (skip_white_space s).code ≡ []
unfolding skip_white_space take_off
skip_white_space-All s h =
    ap (λ ws. drop (length ws) s.code) (try_lex_white_space-All s.code h) ∙ drop-length s.code

skip_white_space-nil : (s : LexState) → s.code ≡ [] → (skip_white_space s).code ≡ []
skip_white_space-nil s e = skip_white_space-All s (rw e tt)

lex_round_lem :
    (file_name : Bytes) (s : LexState)
    → lex_round file_name s ≡ lex_item file_name (skip_white_space (skip_white_space s))
unfolding lex_round
lex_round_lem file_name s = refl

-- A text that ends in spaces or tabs, with no newline behind them, makes `lex` read past its end.
pub lex_round_blanks :
    (file_name : Bytes) (s : LexState)
    → All (λ c. is_white c ≡ true) s.code
    → lex_round file_name s ≡ undefined
lex_round_blanks file_name s h =
    lex_round_lem file_name s
    ∙ lex_item_nil file_name _ (skip_white_space-nil _ (skip_white_space-All s h))
