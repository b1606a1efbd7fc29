-- ===== src/Parser/Precedence.antt =====
-- `getLeftBindingPower` of code/parser/Precedence.cpp and the enumeration of
-- code/include/Parser/Precedence.h, by its values.
pub mod Powers
use mlir_rustc.Prelude.{
  ℕ, Bool, true, false, if◌then◌else◌, List, [], ◌∷◌, Outcome, ok, aborted, ◌>>=◌, ◌and_then◌,
}
use mlir_rustc.Lexer.KeyWords.{kw_as, value}
use mlir_rustc.Lexer.Token.{
  TokenKind, Token, path_sep, plus, minus, lt, shr, eq, dot_dot, dot_dot_eq, paren_open, plus_eq,
  eq_eq, star, square_open, gt, q_mark, dot, keyword, identifier,
}
use mlir_rustc.Parser.Tokens.{View, kind_equal, is_key_word, check}

-- The switch over the kinds, but for a dot and a keyword; every other kind has the lowest power.
unfoldable pub kind_power : TokenKind → ℕ
kind_power path_sep = Powers.path
kind_power plus = Powers.sum
kind_power minus = Powers.sum
kind_power lt = Powers.comparison
kind_power shr = Powers.shift
kind_power eq = Powers.comparison
kind_power dot_dot = Powers.range
kind_power dot_dot_eq = Powers.range
kind_power paren_open = Powers.function_call
kind_power plus_eq = Powers.assignment
kind_power eq_eq = Powers.comparison
kind_power star = Powers.mul
kind_power square_open = Powers.array_indexing
kind_power gt = Powers.comparison
kind_power q_mark = Powers.question_mark
kind_power _ = Powers.lowest

unfoldable pub token_power : Token → View → TokenKind → Outcome ℕ
unfolding kind_power check kind_equal value
token_power t view dot = (check identifier 1 view and_then check paren_open 2 view) >>= λ called.
    ok (if called then Powers.field_expression else Powers.method_call)
token_power t view keyword = if is_key_word kw_as t then ok Powers.as_cast else aborted
token_power t view k = ok (kind_power k)

unfoldable pub get_left_binding_power : View → Outcome ℕ
unfolding token_power
get_left_binding_power [] = aborted
get_left_binding_power (t ∷ view) = token_power t (t ∷ view) t.kind
