-- ===== src/Lexer/Scan.antt =====
-- The scanners of code/lexer/Lexer.cpp: each looks at the front of the text that is left and returns
-- what it would take off.
pub mod Lengths
use mlir_rustc.Prelude.{
  ℕ, zero, suc, ◌+◌, Bool, not, ◌&&◌, ◌||◌, [], ◌∷◌, ◌++◌, Option, none, some, ◌==◌, leb,
  if◌then◌else◌, Bytes, codes, starts_with, Outcome, ok, exited, undefined, diverges, ◌>>=◌,
  ◌and_then◌, get_elem?, take, drop,
}

-- `std::isdigit` and `std::isalpha` in the "C" locale.
unfoldable pub is_digit : ℕ → Bool
is_digit c = leb b'0' c && leb c b'9'

unfoldable pub is_alpha : ℕ → Bool
is_alpha c = (leb b'a' c && leb c b'z') || (leb b'A' c && leb c b'Z')

-- `view[i]`, which reads past the end if the view is too short; `view.front()` is `view[0]`.
abbrev pub at : Bytes → ℕ → Outcome ℕ
at view i = elim (get_elem? view i) [ none ↦ undefined | some c ↦ ok c ]

abbrev pub digit_at : Bytes → ℕ → Outcome Bool
digit_at view i = at view i >>= λ c. ok (is_digit c)

abbrev pub no_digit_at : Bytes → ℕ → Outcome Bool
no_digit_at view i = at view i >>= λ c. ok (not (is_digit c))

-- The loop of `tryLexDecLiteral`: `ws` is what was read, and a byte that is no digit gives nullopt.
unfoldable pub all_digits : Bytes → Bytes → Option Bytes
all_digits ws [] = some ws
all_digits ws (c ∷ view) =
    let rest = all_digits (ws ++ c ∷ []) view in if is_digit c then rest else none

-- `isdigit(view[i]) && ... && not isdigit(view[i + n])`, with `n` digits.
unfoldable pub digits_end : Bytes → ℕ → ℕ → Outcome Bool
unfolding is_digit
digits_end view i zero = no_digit_at view i
digits_end view i (suc n) = digit_at view i and_then digits_end view (i + 1) n

-- One `if` of `tryLexDecLiteral`: a literal of `n` digits is returned, or the code goes on.
unfoldable pub if_digits : Bytes → ℕ → Outcome (Option Bytes) → Outcome (Option Bytes)
unfolding digits_end
if_digits view n otherwise =
    digits_end view 0 n >>= λ here. if here then ok (some (take n view)) else otherwise

unfoldable pub try_lex_dec_literal : Bytes → Outcome (Option Bytes)
unfolding all_digits if_digits
try_lex_dec_literal [] = ok none
try_lex_dec_literal (c ∷ rest) =
    let view = c ∷ rest in
    if_digits view 1
      (if_digits view 2 (if_digits view 3 (if_digits view 4 (ok (all_digits [] view)))))

-- The bytes that `tryLexComment` takes, apart from the newline that ends it.
unfoldable pub is_comment_byte : ℕ → Bool
unfolding is_digit is_alpha
is_comment_byte c =
    c == b'/'
    || is_digit c
    || is_alpha c
    || c == b' '
    || c == b'_'
    || c == b'-'
    || c == b'?'
    || c == b'\\'
    || c == b'*'
    || c == b'['
    || c == b']'
    || c == b'!'
    || c == b'+'
    || c == b':'
    || c == b'.'
    || c == b'('
    || c == b')'
    || c == b'{'
    || c == b'}'
    || c == b','
    || c == b'='
    || c == b'"'
    || c == b';'
    || c == b'&'
    || c == b'<'
    || c == b'`'
    || c == b'>'
    || c == b'\''

-- The loop of `tryLexComment`, with what it has read.
unfoldable pub comment_loop : Bytes → Bytes → Outcome Bytes
unfolding is_comment_byte
comment_loop ws [] = ok ws
comment_loop ws (c ∷ view) =
    let more = comment_loop (ws ++ c ∷ []) view in
    if is_comment_byte c then more else if c == b'\n' then ok (ws ++ c ∷ []) else exited

unfoldable pub try_lex_comment : Bytes → Outcome Bytes
unfolding comment_loop
try_lex_comment code = comment_loop [] code

-- The loop of `tryLexInlineComment`. A byte that no branch takes leaves the view as it is.
unfoldable pub inline_comment_loop : Bytes → Bytes → Outcome Bytes
unfolding is_digit is_alpha
inline_comment_loop ws [] = ok ws
inline_comment_loop ws (c ∷ view) =
    let more = inline_comment_loop (ws ++ c ∷ []) view in
    let close =
      at (drop 2 (c ∷ view)) 0 >>= λ x. at (drop 2 (c ∷ view)) 1 >>= λ y. ok (ws ++ x ∷ y ∷ []) in
    if starts_with (codes "*//") (c ∷ view)
    then close
    else if is_digit c || is_alpha c || c == b' ' || c == b'\''
    then more
    else diverges

unfoldable pub try_lex_inline_comment : Bytes → Outcome Bytes
unfolding inline_comment_loop
try_lex_inline_comment code =
    let view = drop 2 code in
    let body = at view 0 >>= λ x. at view 1 >>= λ y. inline_comment_loop (x ∷ y ∷ []) view in
    if starts_with (codes "//*") code then body else ok []

-- `tryLexWhiteSpace`.
unfoldable pub try_lex_white_space : Bytes → Bytes
try_lex_white_space [] = []
try_lex_white_space (c ∷ view) =
    if c == b' ' || c == b'\t' then c ∷ try_lex_white_space view else []

-- The loop of `tryLexIdentifier`: what it takes before it meets another byte, or the end.
unfoldable pub is_identifier_byte : ℕ → Bool
unfolding is_digit is_alpha
is_identifier_byte c = is_alpha c || c == b'_' || is_digit c

unfoldable pub identifier_loop : Bytes → Bytes
unfolding is_identifier_byte
identifier_loop [] = []
identifier_loop (c ∷ view) = if is_identifier_byte c then c ∷ identifier_loop view else []

abbrev pub if_any : Bytes → Option Bytes
if_any [] = none
if_any (c ∷ id) = some (c ∷ id)

unfoldable pub try_lex_identifier : Bytes → Outcome (Option Bytes)
unfolding identifier_loop
try_lex_identifier view = do
  c ← at view 0
  lone ← ok (c == b'_') and_then (at view 1 >>= λ d. ok (not (is_alpha d)))
  ok (if is_digit c then none else if lone then none else if_any (identifier_loop view))

unfoldable pub is_string_byte : ℕ → Bool
unfolding is_digit is_alpha
is_string_byte c =
    is_alpha c
    || c == b'_'
    || c == b'-'
    || c == b'/'
    || c == b'{'
    || c == b'}'
    || c == b':'
    || c == b'.'
    || c == b' '
    || c == b'?'
    || is_digit c

-- The loop of `tryLexString` behind the opening quote.
unfoldable pub string_loop : Bytes → Bytes → Option Bytes
unfolding is_string_byte
string_loop id [] = none
string_loop id (c ∷ view) =
    let more = string_loop (id ++ c ∷ []) view in
    if is_string_byte c then more else if c == b'"' then some (id ++ c ∷ []) else none

unfoldable pub try_lex_string : Bytes → Option Bytes
unfolding string_loop
try_lex_string [] = none
try_lex_string (c ∷ view) = if c == b'"' then string_loop (c ∷ []) view else none
