-- ===== src/Parser/Macros/Endless.antt =====
-- A matcher does not get past its opening delimiter.
use mlir_rustc.Prelude.{ℕ, zero, suc, true, false, ◌∷◌, out_of_fuel, ◌≡◌, refl}
use mlir_rustc.Lexer.KeyWords.{kw_macro_rules}
use mlir_rustc.Lexer.Token.{TokenKind, Token, identifier, eof}
use mlir_rustc.Parser.Tokens.{View, kind_equal, is_kind, is_key_word}
use mlir_rustc.Parser.TokenTrees.{DelimTokenTreeKind, paren, square, brace, open_kind, close_kind}
use mlir_rustc.Parser.Macros.{MacroMatches, no_match, parse_macro_match, matcher_loop}
use mlir_rustc.Parser.MacroRules.{
  parse_macro_matcher, parse_macro_rule, parse_macro_rules, parse_macro_rules_def,
  parse_macro_rules_definition,
}

-- An opening delimiter at the place of a token.
abbrev pub opening : DelimTokenTreeKind → Token → Token
opening d t = record t { kind = open_kind d }

-- No loop of a matcher ends at an opening delimiter.
opening-IsInner :
    (kind d : DelimTokenTreeKind) (t : Token)
    → (is_kind eof (opening d t) ≡ false) × (is_kind (close_kind kind) (opening d t) ≡ false)
unfolding kind_equal
opening-IsInner paren paren t = (refl, refl)
opening-IsInner paren square t = (refl, refl)
opening-IsInner paren brace t = (refl, refl)
opening-IsInner square paren t = (refl, refl)
opening-IsInner square square t = (refl, refl)
opening-IsInner square brace t = (refl, refl)
opening-IsInner brace paren t = (refl, refl)
opening-IsInner brace square t = (refl, refl)
opening-IsInner brace brace t = (refl, refl)

-- The match at an opening delimiter is a matcher, whose loop begins at this delimiter.
parse_macro_match-opening :
    (f : ℕ) (d : DelimTokenTreeKind) (t : Token) (view : View)
    → matcher_loop f d no_match (opening d t ∷ view) ≡ out_of_fuel
    → parse_macro_match (suc f) (opening d t ∷ view) ≡ out_of_fuel
unfolding parse_macro_match kind_equal
parse_macro_match-opening f paren t view h = rw h refl
parse_macro_match-opening f square t view h = rw h refl
parse_macro_match-opening f brace t view h = rw h refl

matcher_loop-opening :
    (f : ℕ) (kind d : DelimTokenTreeKind) (matches : MacroMatches) (t : Token) (view : View)
    → matcher_loop f kind matches (opening d t ∷ view) ≡ out_of_fuel
unfolding matcher_loop parse_macro_match
matcher_loop-opening zero kind d matches t view = refl
matcher_loop-opening (suc zero) kind d matches t view =
    let (e, c) = opening-IsInner kind d t in rw (e, c) refl
matcher_loop-opening (suc (suc f)) kind d matches t view =
    let (e, c) = opening-IsInner kind d t in
    rw (e, c, parse_macro_match-opening f d t view (matcher_loop-opening f d d no_match t view))
      refl

parse_macro_rules_def-opening :
    (f : ℕ) (d : DelimTokenTreeKind) (t : Token) (view : View)
    → parse_macro_rules_def f (opening d t ∷ view) ≡ out_of_fuel
unfolding parse_macro_rules_def parse_macro_rules parse_macro_rule parse_macro_matcher kind_equal
parse_macro_rules_def-opening f paren t view =
    rw (matcher_loop-opening f paren paren no_match t view) refl
parse_macro_rules_def-opening f square t view =
    rw (matcher_loop-opening f square square no_match t view) refl
parse_macro_rules_def-opening f brace t view =
    rw (matcher_loop-opening f brace brace no_match t view) refl

-- A definition of a macro, which has an opening delimiter after its name, is not read with any fuel: the
-- first match of its first matcher is that matcher again.
pub parse_macro_rules_definition-opening :
    (f : ℕ) (d : DelimTokenTreeKind) (kw bang name t : Token) (view : View)
    → is_key_word kw_macro_rules kw ≡ true
    → is_kind TokenKind.not bang ≡ true
    → is_kind identifier name ≡ true
    → parse_macro_rules_definition f (kw ∷ bang ∷ name ∷ opening d t ∷ view) ≡ out_of_fuel
unfolding parse_macro_rules_definition
parse_macro_rules_definition-opening f d kw bang name t view k b n =
    rw (k, b, n, parse_macro_rules_def-opening f d t view) refl
