-- ===== src/Parser/Tokens.antt =====
-- The stream of tokens of code/include/Lexer/TokenStream.h and the members of `Parser` in
-- code/parser/Parser.cpp that look at it. The tokens from `offset` on stand for the stream; to look at
-- a token after the last one fails the assertion in `getAt`.
use mlir_rustc.Prelude.{
  ℕ, suc, ◌==◌, Bool, true, false, ◌&&◌, ◌||◌, List, [], ◌∷◌, Option, none, some, get_elem?,
  Outcome, ok, aborted, ◌>>=◌, ◌and_then◌,
}
use mlir_rustc.Lexer.KeyWords.{
  KeyWordKind, kw_as, kw_super, kw_selfvalue, kw_selftype, kw_crate, kw_true, kw_false, value,
}
use mlir_rustc.Lexer.Token.{
  Token, TokenKind, colon, r_arrow, eq, dot, q_mark, hash, square_open, square_close, comma,
  identifier, paren_open, paren_close, semi, brace_open, brace_close, star, plus, keyword, not,
  minus, slash, percent, and, and_and, or, or_or, path_sep, caret, shl, shr, dot_dot, dot_dot_dot,
  dot_dot_eq, lt, eq_eq, ne, gt, ge, le, underscore, lifetime_token, lifetime_or_label,
  char_literal, string_literal, raw_string_literal, byte_literal, byte_string_literal,
  raw_byte_string_literal, integer_literal, float_literal, eof, at, star_eq, plus_eq, minus_eq,
  slash_eq, percent_eq, and_eq, shl_eq, caret_eq, shr_eq, or_eq, fat_arrow, dollar, tilde,
}

abbrev pub View : Type 0
View = List Token

-- The value of the enumerator, by which `==` compares two kinds.
unfoldable pub kind_value : TokenKind → ℕ
kind_value colon = 0
kind_value r_arrow = 1
kind_value eq = 2
kind_value dot = 3
kind_value q_mark = 4
kind_value hash = 5
kind_value square_open = 6
kind_value square_close = 7
kind_value comma = 8
kind_value identifier = 9
kind_value paren_open = 10
kind_value paren_close = 11
kind_value semi = 12
kind_value brace_open = 13
kind_value brace_close = 14
kind_value star = 15
kind_value plus = 16
kind_value keyword = 17
kind_value not = 18
kind_value minus = 19
kind_value slash = 20
kind_value percent = 21
kind_value and = 22
kind_value and_and = 23
kind_value or = 24
kind_value or_or = 25
kind_value path_sep = 26
kind_value caret = 27
kind_value shl = 28
kind_value shr = 29
kind_value dot_dot = 30
kind_value dot_dot_dot = 31
kind_value dot_dot_eq = 32
kind_value lt = 33
kind_value eq_eq = 34
kind_value ne = 35
kind_value gt = 36
kind_value ge = 37
kind_value le = 38
kind_value underscore = 39
kind_value lifetime_token = 40
kind_value lifetime_or_label = 41
kind_value char_literal = 42
kind_value string_literal = 43
kind_value raw_string_literal = 44
kind_value byte_literal = 45
kind_value byte_string_literal = 46
kind_value raw_byte_string_literal = 47
kind_value integer_literal = 48
kind_value float_literal = 49
kind_value eof = 50
kind_value at = 51
kind_value star_eq = 52
kind_value plus_eq = 53
kind_value minus_eq = 54
kind_value slash_eq = 55
kind_value percent_eq = 56
kind_value and_eq = 57
kind_value shl_eq = 58
kind_value caret_eq = 59
kind_value shr_eq = 60
kind_value or_eq = 61
kind_value fat_arrow = 62
kind_value dollar = 63
kind_value tilde = 64

unfoldable pub kind_equal : TokenKind → TokenKind → Bool
unfolding kind_value
kind_equal a b = kind_value a == kind_value b

abbrev pub is_kind : TokenKind → Token → Bool
is_kind k t = kind_equal t.kind k

abbrev pub same_key_word : Option KeyWordKind → KeyWordKind → Bool
same_key_word none kw = false
same_key_word (some k) kw = value k == value kw

-- A token of the kind Keyword has its keyword set.
abbrev pub is_key_word : KeyWordKind → Token → Bool
is_key_word kw t = is_kind keyword t && same_key_word t.key_word kw

-- A question about the token at an offset, which `getAt` asserts to be there.
abbrev pub ask_at : (Token → Bool) → ℕ → View → Outcome Bool
ask_at question off view = elim (get_elem? view off) [ none ↦ aborted | some t ↦ ok (question t) ]

-- `check`, `checkKeyWord` and `eat`, `eatKeyWord`; the last two step over the token whatever it is.
unfoldable pub check : TokenKind → ℕ → View → Outcome Bool
unfolding kind_equal
check k off view = ask_at (is_kind k) off view

unfoldable pub check_key_word : KeyWordKind → ℕ → View → Outcome Bool
unfolding kind_equal value
check_key_word kw off view = ask_at (is_key_word kw) off view

unfoldable pub eat : TokenKind → View → Outcome (Bool × View)
unfolding kind_equal
eat k [] = aborted
eat k (t ∷ view) = ok (is_kind k t, view)

unfoldable pub eat_key_word : KeyWordKind → View → Outcome (Bool × View)
unfolding kind_equal value
eat_key_word kw [] = aborted
eat_key_word kw (t ∷ view) = ok (is_key_word kw t, view)

unfoldable pub get_token : ℕ → View → Outcome Token
get_token off view = elim (get_elem? view off) [ none ↦ aborted | some t ↦ ok t ]

-- `checkDelimiters`, of the token at hand.
abbrev pub is_delimiter : Token → Bool
is_delimiter t =
    is_kind brace_open t
    || (is_kind brace_close t
        || (is_kind square_open t
            || (is_kind square_close t || (is_kind paren_open t || is_kind paren_close t))))

-- `a || b`: the second test runs only if the first one fails.
infixr 30 ◌or_else◌
abbrev pub ◌or_else◌ : Outcome Bool → Outcome Bool → Outcome Bool
a or_else b = a >>= λ x. elim x [ true ↦ ok true | false ↦ b ]

abbrev pub any_key_word : List KeyWordKind → ℕ → View → Outcome Bool
any_key_word [] off view = ok false
any_key_word (kw ∷ kws) off view = check_key_word kw off view or_else any_key_word kws off view

abbrev pub any_kind : List TokenKind → ℕ → View → Outcome Bool
any_kind [] off view = ok false
any_kind (k ∷ ks) off view = check k off view or_else any_kind ks off view

-- `$crate`, two tokens.
abbrev pub check_dollar_crate : ℕ → View → Outcome Bool
check_dollar_crate off view = check dollar off view and_then check_key_word kw_crate (suc off) view

unfoldable pub check_path_ident_segment : ℕ → View → Outcome Bool
unfolding check check_key_word
check_path_ident_segment off view =
    check identifier off view
    or_else (any_key_word (kw_super ∷ kw_selfvalue ∷ kw_selftype ∷ kw_crate ∷ []) off view
        or_else check_dollar_crate off view)

unfoldable pub check_simple_path_segment : View → Outcome Bool
unfolding check check_key_word
check_simple_path_segment view =
    check identifier 0 view
    or_else (any_key_word (kw_super ∷ kw_selfvalue ∷ kw_crate ∷ []) 0 view
        or_else check_dollar_crate 0 view)

unfoldable pub check_literal : ℕ → View → Outcome Bool
unfolding check check_key_word
check_literal off view =
    any_kind
      (char_literal ∷ string_literal ∷ raw_string_literal ∷ byte_literal ∷ byte_string_literal
        ∷ raw_byte_string_literal ∷ integer_literal ∷ float_literal ∷ [])
      off view
    or_else any_key_word (kw_true ∷ kw_false ∷ []) off view

unfoldable pub check_post_fix : View → Outcome Bool
unfolding check check_key_word
check_post_fix view =
    any_kind
      (q_mark ∷ plus ∷ minus ∷ star ∷ slash ∷ percent ∷ or ∷ caret ∷ shl ∷ shr ∷ eq_eq ∷ ne ∷ gt
        ∷ lt ∷ ge ∷ le ∷ or_or ∷ and_and ∷ [])
      0 view
    or_else (check_key_word kw_as 0 view
        or_else any_kind
            (plus_eq ∷ minus_eq ∷ star_eq ∷ slash_eq ∷ percent_eq ∷ and_eq ∷ and_eq ∷ or_eq ∷ shl_eq
              ∷ dot ∷ square_open ∷ dot_dot ∷ dot_dot_eq ∷ shr_eq ∷ [])
            0 view)

unfoldable pub check_outer_attribute : ℕ → View → Outcome Bool
unfolding check
check_outer_attribute off view = check hash off view and_then check square_open (suc off) view

unfoldable pub check_inner_attribute : View → Outcome Bool
unfolding check
check_inner_attribute view =
    check hash 0 view and_then (check TokenKind.not 1 view and_then check square_open 2 view)
