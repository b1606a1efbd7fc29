-- ===== src/Parser/MacroItems.antt =====
-- `checkMacroItem` of code/parser/Parser.cpp: whether a macro invocation stands at an item. The offset
-- is put back at the end, so only the answer is left.
pub mod Answers
use mlir_rustc.Prelude.{
  ℕ, Bool, true, false, ◌||◌, if◌then◌else◌, List, [], ◌∷◌, Outcome, ok, aborted, diverges, ◌>>=◌,
}
use mlir_rustc.Lexer.KeyWords.{kw_macro_rules, value}
use mlir_rustc.Lexer.Token.{
  TokenKind, Token, eof, path_sep, brace_close, semi, keyword, integer_literal, eq, square_open,
  brace_open, dot_dot, dot_dot_eq, plus,
}
use mlir_rustc.Parser.Tokens.{View, kind_equal, is_kind, check_key_word, check_simple_path_segment}

abbrev pub any_of : List TokenKind → Token → Bool
any_of [] t = false
any_of (k ∷ ks) t = is_kind k t || any_of ks t

-- The kinds at which the loop gives up.
abbrev pub is_end : Token → Bool
is_end t =
    any_of
      (brace_close ∷ semi ∷ keyword ∷ integer_literal ∷ eq ∷ square_open ∷ brace_open ∷ dot_dot
        ∷ dot_dot_eq ∷ plus ∷ [])
      t

-- The loop. At a token that it does not know it prints a message and starts the round again.
unfoldable pub macro_loop : View → Outcome Bool
unfolding kind_equal check_simple_path_segment
macro_loop [] = aborted
macro_loop (t ∷ view) =
    let more = macro_loop view in
    if is_kind eof t
    then ok false
    else check_simple_path_segment (t ∷ view) >>= λ segment.
        if segment
        then more
        else if is_kind path_sep t
        then more
        else if is_kind TokenKind.not t
        then ok true
        else if is_end t
        then ok false
        else diverges

unfoldable pub check_macro_item : View → Outcome Bool
unfolding check_key_word macro_loop
check_macro_item view =
    check_key_word kw_macro_rules 0 view >>= λ rules. if rules then ok true else macro_loop view
