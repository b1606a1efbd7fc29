-- ===== src/Parser/MacroRules.antt =====
-- Rules and definitions of macros: code/parser/MacroRules.cpp from parseMacroTranscriber on, without
-- parseMacroMatcher. The matchers and the rules run on fuel that the caller gives.
use mlir_rustc.Prelude.{
  ℕ, zero, suc, Bool, ◌||◌, if◌then◌else◌, List, [], ◌∷◌, ◌++◌, none, some, Bytes, ok, aborted,
  out_of_fuel, ◌>>=◌,
}
use mlir_rustc.Lexer.KeyWords.{kw_macro_rules, value}
use mlir_rustc.Lexer.Token.{
  TokenKind, Token, identifier, eof, semi, fat_arrow, paren_open, paren_close, square_open,
  square_close, brace_open, brace_close,
}
use mlir_rustc.Parser.Tokens.{View, kind_equal, is_kind, is_key_word}
use mlir_rustc.Parser.TokenTrees.{
  Parsed, or_exit, DelimTokenTreeKind, paren, square, brace, DelimTokenTree, parse_delim_token_tree,
}
use mlir_rustc.Parser.Macros.{MacroMatcher, macro_matcher, matcher_loop}

pub record MacroRule : Type 0 where
  pub matcher : MacroMatcher
  pub transcriber : DelimTokenTree

pub record MacroRulesDef : Type 0 where
  pub kind : DelimTokenTreeKind
  pub rules : List MacroRule

pub record MacroRulesDefinition : Type 0 where
  pub name : Bytes
  pub definition : MacroRulesDef

unfoldable pub parse_macro_matcher : ℕ → View → Parsed MacroMatcher
unfolding kind_equal
parse_macro_matcher f view = macro_matcher (matcher_loop f) view

unfoldable pub parse_macro_transcriber : View → Parsed DelimTokenTree
parse_macro_transcriber view =
    parse_delim_token_tree view >>= λ r. or_exit r >>= λ tree. ok (some tree.0, tree.1)

-- The arrow and what the rule expands to.
abbrev pub rule_after : MacroMatcher → View → Parsed MacroRule
rule_after m [] = aborted
rule_after m (t ∷ view) =
    if is_kind fat_arrow t
    then (parse_macro_transcriber view >>= λ r.
        or_exit r >>= λ tree. ok (some (record { matcher = m; transcriber = tree.0 }), tree.1))
    else ok (none, t ∷ view)

unfoldable pub parse_macro_rule : ℕ → View → Parsed MacroRule
unfolding kind_equal parse_macro_matcher parse_macro_transcriber
parse_macro_rule f view = parse_macro_matcher f view >>= λ r. or_exit r >>= λ m. rule_after m.0 m.1

abbrev pub is_closing : Token → Bool
is_closing t = is_kind paren_close t || (is_kind square_close t || is_kind brace_close t)

-- Behind a semicolon: the definition ends, or a rule follows.
abbrev pub after_semi :
    (List MacroRule → View → Parsed (List MacroRule))
    → (View → Parsed MacroRule)
    → List MacroRule
    → View
    → Parsed (List MacroRule)
after_semi loop rule rules [] = aborted
after_semi loop rule rules (t ∷ view) =
    let more = rule (t ∷ view) >>= λ r. or_exit r >>= λ m. loop (rules ++ m.0 ∷ []) m.1 in
    if is_closing t then ok (some rules, t ∷ view) else more

-- The loop of `parseMacroRules`.
unfoldable pub rules_loop : ℕ → List MacroRule → View → Parsed (List MacroRule)
unfolding kind_equal
rules_loop zero rules view = out_of_fuel
rules_loop (suc f) rules [] = aborted
rules_loop (suc f) rules (t ∷ view) =
    let more = after_semi (rules_loop f) (parse_macro_rule f) rules view in
    if is_kind eof t
    then ok (none, t ∷ view)
    else if is_closing t
    then ok (some rules, t ∷ view)
    else if is_kind semi t
    then more
    else ok (none, t ∷ view)

unfoldable pub parse_macro_rules : ℕ → View → Parsed (List MacroRule)
unfolding parse_macro_rule rules_loop
parse_macro_rules f view =
    parse_macro_rule f view >>= λ r. or_exit r >>= λ rule. rules_loop f (rule.0 ∷ []) rule.1

-- The semicolon after a definition in parentheses or square brackets.
abbrev pub def_end : DelimTokenTreeKind → List MacroRule → View → Parsed MacroRulesDef
def_end brace rules view = ok (some (record { kind = brace; rules = rules }), view)
def_end kind rules [] = aborted
def_end kind rules (t ∷ view) =
    if is_kind semi t
    then ok (some (record { kind = kind; rules = rules }), view)
    else ok (none, t ∷ view)

-- The closing delimiter, which is a parenthesis for every kind.
abbrev pub def_close : DelimTokenTreeKind → List MacroRule → View → Parsed MacroRulesDef
def_close kind rules [] = aborted
def_close kind rules (t ∷ view) =
    if is_kind paren_close t then def_end kind rules view else ok (none, t ∷ view)

abbrev pub def_of_kind : ℕ → DelimTokenTreeKind → View → Parsed MacroRulesDef
def_of_kind f kind view =
    parse_macro_rules f view >>= λ r. or_exit r >>= λ rules. def_close kind rules.0 rules.1

unfoldable pub parse_macro_rules_def : ℕ → View → Parsed MacroRulesDef
unfolding kind_equal parse_macro_rules
parse_macro_rules_def f [] = aborted
parse_macro_rules_def f (t ∷ view) =
    if is_kind paren_open t
    then def_of_kind f paren (t ∷ view)
    else if is_kind square_open t
    then def_of_kind f square (t ∷ view)
    else if is_kind brace_open t
    then def_of_kind f brace (t ∷ view)
    else ok (none, t ∷ view)

-- The parts of `parseMacroRulesDefinition`, from the name on and from the exclamation mark on.
abbrev pub from_name : ℕ → View → Parsed MacroRulesDefinition
from_name f [] = aborted
from_name f (t ∷ view) =
    if is_kind identifier t
    then (parse_macro_rules_def f view >>= λ r.
        or_exit r >>= λ d. ok (some (record { name = t.storage; definition = d.0 }), d.1))
    else ok (none, t ∷ view)

abbrev pub from_bang : ℕ → View → Parsed MacroRulesDefinition
from_bang f [] = aborted
from_bang f (t ∷ view) = if is_kind TokenKind.not t then from_name f view else ok (none, t ∷ view)

unfoldable pub parse_macro_rules_definition : ℕ → View → Parsed MacroRulesDefinition
unfolding kind_equal value parse_macro_rules_def
parse_macro_rules_definition f [] = aborted
parse_macro_rules_definition f (t ∷ view) =
    if is_key_word kw_macro_rules t then from_bang f view else ok (none, t ∷ view)
