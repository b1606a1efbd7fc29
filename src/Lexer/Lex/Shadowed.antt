-- ===== src/Lexer/Lex/Shadowed.antt =====
-- The branches of the chain of `lex`, and the kinds of token that they make.
use mlir_rustc.Prelude.{
  ◌||◌, ◌≡◌, refl, ap, ◌∙◌, Bool, true, false, List, [], ◌∷◌, inl, inr, arith, if◌then◌else◌,
  Bool-cases, Bytes, codes, starts_with, All,
}
use mlir_rustc.Lexer.Token.{
  TokenKind, lifetime_token, lifetime_or_label, char_literal, raw_string_literal, byte_literal,
  byte_string_literal, raw_byte_string_literal, float_literal, ne, ge, or_or, dollar, tilde,
  star_eq, minus_eq, slash_eq, percent_eq, and_eq, shl_eq, caret_eq, shr_eq, or_eq, eof, at,
  r_arrow, plus_eq, plus, dot_dot_eq, dot_dot_dot, dot_dot, dot, underscore, q_mark, star, eq_eq,
  fat_arrow, eq, minus, shr, gt, shl, le, path_sep, colon, and_and, and, hash, brace_open,
  brace_close, square_open, square_close, comma, paren_open, paren_close, not, semi, or, caret,
  percent, slash, lt,
}
use mlir_rustc.Lexer.Lex.Rules.{
  Action, tok, crate, newline, static_lifetime, punctuation, find_rule,
}

-- The kinds of token that `lex` makes before the end of the text.
abbrev pub is_emitted : TokenKind → Bool
is_emitted lifetime_token = false
is_emitted lifetime_or_label = false
is_emitted char_literal = false
is_emitted raw_string_literal = false
is_emitted byte_literal = false
is_emitted byte_string_literal = false
is_emitted raw_byte_string_literal = false
is_emitted float_literal = false
is_emitted ne = false
is_emitted ge = false
is_emitted or_or = false
is_emitted dollar = false
is_emitted tilde = false
is_emitted star_eq = false
is_emitted minus_eq = false
is_emitted slash_eq = false
is_emitted percent_eq = false
is_emitted and_eq = false
is_emitted shl_eq = false
is_emitted caret_eq = false
is_emitted shr_eq = false
is_emitted or_eq = false
is_emitted eof = false
is_emitted _ = true

-- The chain without the branches that are never taken: those for `!=`, `>=`, the second ones for
-- `<=` and `..`, and the second and third ones for `!`.
abbrev pub reachable : List (Bytes × Action)
reachable =
    (codes "!", tok not 1)
    ∷ (codes "$crate", crate)
    ∷ (codes "@", tok at 1)
    ∷ (codes "->", tok r_arrow 2)
    ∷ (codes "+=", tok plus_eq 2)
    ∷ (codes "+", tok plus 1)
    ∷ (codes "..=", tok dot_dot_eq 3)
    ∷ (codes "...", tok dot_dot_dot 3)
    ∷ (codes "..", tok dot_dot 2)
    ∷ (codes ".", tok dot 1)
    ∷ (codes "_", tok underscore 1)
    ∷ (codes "?", tok q_mark 1)
    ∷ (codes "*", tok star 1)
    ∷ (codes "==", tok eq_eq 2)
    ∷ (codes "=>", tok fat_arrow 2)
    ∷ (codes "=", tok eq 1)
    ∷ (codes "-", tok minus 1)
    ∷ (codes ">>", tok shr 2)
    ∷ (codes ">", tok gt 1)
    ∷ (codes "<<", tok shl 2)
    ∷ (codes "<=", tok le 1)
    ∷ (codes "::", tok path_sep 2)
    ∷ (codes ":", tok colon 1)
    ∷ (codes "&&", tok and_and 2)
    ∷ (codes "&", tok and 1)
    ∷ (codes "#", tok hash 1)
    ∷ (codes "{", tok brace_open 1)
    ∷ (codes "}", tok brace_close 1)
    ∷ (codes "[", tok square_open 1)
    ∷ (codes "]", tok square_close 1)
    ∷ (codes ",", tok comma 1)
    ∷ (codes "(", tok paren_open 1)
    ∷ (codes ")", tok paren_close 1)
    ∷ (codes ";", tok semi 1)
    ∷ (codes "|", tok or 1)
    ∷ (codes "^", tok caret 1)
    ∷ (codes "%", tok percent 1)
    ∷ (codes "/", tok slash 1)
    ∷ (codes "<", tok lt 1)
    ∷ (codes "\n", newline)
    ∷ (codes "'static", static_lifetime)
    ∷ []

-- Whether one of these texts is a prefix of `p`.
unfoldable pub hidden_by : List Bytes → Bytes → Bool
hidden_by [] p = false
hidden_by (q ∷ seen) p = starts_with q p || hidden_by seen p

-- The branches whose test is not already passed by an earlier one.
prune : List Bytes → List (Bytes × Action) → List (Bytes × Action)
unfolding hidden_by
prune seen [] = []
prune seen ((p, a) ∷ rules) =
    let without = prune seen rules in
    let kept = (p, a) ∷ prune (p ∷ seen) rules in if hidden_by seen p then without else kept

prune-punctuation : prune [] punctuation ≡ reachable
unfolding prune starts_with
prune-punctuation = refl

pub starts_with-hidden :
    (q p code : Bytes)
    → starts_with q p ≡ true
    → starts_with q code ≡ false
    → starts_with p code ≡ false
unfolding starts_with
starts_with-hidden [] p code h k = cc
starts_with-hidden (c ∷ q) [] code h k = cc
starts_with-hidden (c ∷ q) (d ∷ p) [] h k = refl
starts_with-hidden (c ∷ q) (d ∷ p) (x ∷ code) h k = ground (arith, starts_with-hidden q p code)

hidden_by-starts_with :
    (seen : List Bytes) (p code : Bytes)
    → All (λ q. starts_with q code ≡ false) seen
    → hidden_by seen p ≡ true
    → starts_with p code ≡ false
unfolding hidden_by
hidden_by-starts_with [] p code h k = cc
hidden_by-starts_with (q ∷ seen) p code h k = elim (Bool-cases (starts_with q p)) [
  | inl yes' ↦ starts_with-hidden q p code yes' h.0
  | inr no' ↦ hidden_by-starts_with seen p code h.1 (rw no' at k)
]

find_rule-prune :
    (code : Bytes) (seen : List Bytes) (rules : List (Bytes × Action))
    → All (λ q. starts_with q code ≡ false) seen
    → find_rule code rules ≡ find_rule code (prune seen rules)
unfolding find_rule prune
find_rule-prune code seen [] h = refl
find_rule-prune code seen ((p, a) ∷ rules) h = elim (Bool-cases (hidden_by seen p)) [
  | inl hidden ↦
      rw (hidden, hidden_by-starts_with seen p code h hidden) (find_rule-prune code seen rules h)
  | inr seen_first ↦ rw seen_first (elim (Bool-cases (starts_with p code)) [
    | inl here ↦ rw here
    | inr later ↦ rw later (find_rule-prune code (p ∷ seen) rules (later, h))
  ])
]

-- The chain of the code finds, for every text, what the chain without its hidden branches finds:
-- the branches for `!=` and `>=`, and the repeated ones for `!`, `<=` and `..`, are never taken.
pub find_rule-reachable : (code : Bytes) → find_rule code punctuation ≡ find_rule code reachable
find_rule-reachable code =
    find_rule-prune code [] punctuation tt ∙ ap (find_rule code) prune-punctuation
