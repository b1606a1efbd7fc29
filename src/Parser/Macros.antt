-- ===== src/Parser/Macros.antt =====
-- Definitions of macros: code/parser/MacroRules.cpp and the classes of code/include/AST that it fills.
-- `getValue` of an error throws, which nothing catches: this is counted as `aborted`.
pub mod Endless
pub mod Tests
use mlir_rustc.Prelude.{
  ℕ, zero, suc, Bool, true, false, ◌||◌, if◌then◌else◌, List, [], ◌∷◌, ◌++◌, Option, none, some,
  Bytes, codes, equal, Outcome, ok, exited, aborted, out_of_fuel, assert, ◌>>=◌, ◌>>◌, ◌and_then◌,
}
use mlir_rustc.Lexer.KeyWords.{kw_macro_rules, value}
use mlir_rustc.Lexer.Token.{
  TokenKind, Token, dollar, underscore, identifier, keyword, colon, star, plus, q_mark, eof, semi,
  fat_arrow, paren_open, paren_close, square_open, square_close, brace_open, brace_close,
}
use mlir_rustc.Parser.Tokens.{View, kind_equal, is_kind, is_key_word, is_delimiter, check}
use mlir_rustc.Parser.TokenTrees.{
  Parsed, or_exit, DelimTokenTreeKind, paren, square, brace, DelimTokenTree, close_kind,
  parse_delim_token_tree,
}

pub data MacroFragSpecKind : Type 0 where
  block expr ident item lifetime literal meta pat pat_param path stmt tt_kind ty vis unknown :
      MacroFragSpecKind

pub data MacroRepOpKind : Type 0 where
  star_op plus_op q_mark_op : MacroRepOpKind

-- What stands between the dollar and the colon.
pub data FragmentName : Type 0 where
  under : FragmentName
  raw named : Bytes → FragmentName
  key_word : Token → FragmentName

-- The members of `MacroMatch` that each branch sets; the kinds of a matcher are those of a token tree.
mutual
  pub data MacroMatch : Type 0 where
    of_token : Token → MacroMatch
    of_matcher : MacroMatcher → MacroMatch
    fragment : FragmentName → MacroFragSpecKind → MacroMatch
    -- its matches, its separator and its operator
    repetition : MacroMatches → Token → Option MacroRepOpKind → MacroMatch

  pub data MacroMatcher : Type 0 where
    matcher : DelimTokenTreeKind → MacroMatches → MacroMatcher

  pub data MacroMatches : Type 0 where
    no_match : MacroMatches
    one_match : MacroMatch → MacroMatches → MacroMatches

unfoldable pub add_match : MacroMatches → MacroMatch → MacroMatches
add_match no_match m = one_match m no_match
add_match (one_match n ms) m = one_match n (add_match ms m)

abbrev pub value_of {ℓ} : {A : Type ℓ} → Option A × View → Outcome (A × View)
value_of (none, view) = aborted
value_of (some a, view) = ok (a, view)

-- The cases of the `StringSwitch`.
abbrev pub fragments : List (Bytes × MacroFragSpecKind)
fragments =
    (codes "block", block)
    ∷ (codes "expr", expr)
    ∷ (codes "ident", ident)
    ∷ (codes "item", item)
    ∷ (codes "lifetime", lifetime)
    ∷ (codes "literal", literal)
    ∷ (codes "meta", meta)
    ∷ (codes "pat", pat)
    ∷ (codes "pat_param", pat_param)
    ∷ (codes "path", path)
    ∷ (codes "stmt", stmt)
    ∷ (codes "tt", tt_kind)
    ∷ (codes "ty", ty)
    ∷ (codes "vis", vis)
    ∷ []

unfoldable pub string_switch : Bytes → List (Bytes × MacroFragSpecKind) → MacroFragSpecKind
unfolding equal
string_switch text [] = unknown
string_switch text ((spelling, kind) ∷ cases) =
    if equal text spelling then kind else string_switch text cases

-- The tokens of a fragment, a separator and an operator are looked at and stay where they are.
unfoldable pub parse_macro_frag_spec : View → Parsed MacroFragSpecKind
unfolding kind_equal string_switch
parse_macro_frag_spec [] = aborted
parse_macro_frag_spec (t ∷ view) =
    if is_kind identifier t
    then ok (some (string_switch t.storage fragments), t ∷ view)
    else ok (none, t ∷ view)

abbrev pub is_rep_op : Token → Bool
is_rep_op t = is_kind star t || (is_kind plus t || is_kind q_mark t)

unfoldable pub parse_macro_rep_sep : View → Parsed Token
unfolding kind_equal
parse_macro_rep_sep [] = aborted
parse_macro_rep_sep (t ∷ view) =
    if is_delimiter t || is_rep_op t then ok (none, t ∷ view) else ok (some t, t ∷ view)

unfoldable pub parse_macro_rep_op : View → Parsed MacroRepOpKind
unfolding kind_equal
parse_macro_rep_op [] = aborted
parse_macro_rep_op (t ∷ view) =
    if is_kind star t
    then ok (some star_op, t ∷ view)
    else if is_kind plus t
    then ok (some plus_op, t ∷ view)
    else if is_kind q_mark t
    then ok (some q_mark_op, t ∷ view)
    else ok (none, t ∷ view)

-- `Identifier::isRawIdentifier`.
abbrev pub is_raw_identifier : Bytes → Outcome Bool
is_raw_identifier text = aborted

-- The colon and the fragment after a name.
abbrev pub fragment_match : FragmentName → View → Parsed MacroMatch
fragment_match name [] = aborted
fragment_match name (t ∷ view) =
    assert (is_kind colon t)
    >> (parse_macro_frag_spec view >>= λ r.
        value_of r >>= λ spec. ok (some (fragment name spec.0), spec.1))

-- The operator of a repetition: there is none where the separator stands.
abbrev pub rep_op : View → Outcome (Option MacroRepOpKind × View)
rep_op [] = aborted
rep_op (t ∷ view) =
    if is_rep_op t
    then (parse_macro_rep_op (t ∷ view) >>= λ r. value_of r >>= λ op. ok (some op.0, op.1))
    else ok (none, t ∷ view)

-- What follows the matches of a repetition.
abbrev pub after_matches : MacroMatches × View → Parsed MacroMatch
after_matches (matches, view) = parse_macro_rep_sep view >>= λ r.
    value_of r >>= λ sep. rep_op sep.1 >>= λ op. ok (some (repetition matches sep.0 op.0), op.1)

-- The branches behind a dollar, by the token after it.
abbrev pub dollar_match :
    (View → Outcome (MacroMatches × View))
    → (View → Parsed MacroMatch)
    → Token
    → View
    → Parsed MacroMatch
dollar_match repeat other t [] = aborted
dollar_match repeat other t (u ∷ view) =
    if is_kind paren_open u
    then repeat view >>= after_matches
    else if is_kind underscore u
    then fragment_match under view
    else if is_kind identifier u
    then is_raw_identifier u.storage
      >>= (λ is_raw. fragment_match (if is_raw then raw u.storage else named u.storage) view)
    else if is_kind keyword u
    then fragment_match (key_word u) view
    else other (t ∷ u ∷ view)

-- The last two branches: a matcher, or a token, which stays where it is.
abbrev pub other_match : (View → Parsed MacroMatcher) → View → Parsed MacroMatch
other_match parse_matcher [] = aborted
other_match parse_matcher (t ∷ view) =
    if is_delimiter t
    then parse_matcher (t ∷ view) >>= (λ r. value_of r >>= λ m. ok (some (of_matcher m.0), m.1))
    else ok (some (of_token t), t ∷ view)

abbrev pub macro_matcher :
    (DelimTokenTreeKind → MacroMatches → View → Parsed MacroMatcher) → View → Parsed MacroMatcher
macro_matcher loop [] = aborted
macro_matcher loop (t ∷ view) =
    if is_kind paren_open t
    then loop paren no_match (t ∷ view)
    else if is_kind square_open t
    then loop square no_match (t ∷ view)
    else if is_kind brace_open t
    then loop brace no_match (t ∷ view)
    else ok (none, t ∷ view)

-- On fuel, one unit for each match and each round.
unfoldable mutual
  unfolding kind_equal parse_macro_frag_spec parse_macro_rep_sep parse_macro_rep_op add_match

  pub parse_macro_match : ℕ → View → Parsed MacroMatch
  parse_macro_match zero view = out_of_fuel
  parse_macro_match (suc f) [] = aborted
  parse_macro_match (suc f) (t ∷ view) =
      let other = other_match (macro_matcher (matcher_loop f)) in
      let behind = dollar_match (rep_loop f no_match) other t view in
      if is_kind dollar t then behind else other (t ∷ view)

  -- The loop of a repetition, which does not look for the end of the file.
  pub rep_loop : ℕ → MacroMatches → View → Outcome (MacroMatches × View)
  rep_loop zero matches view = out_of_fuel
  rep_loop (suc f) matches [] = aborted
  rep_loop (suc f) matches (t ∷ view) =
      let more = parse_macro_match f (t ∷ view) >>= λ r.
      value_of r >>= λ m. rep_loop f (add_match matches m.0) m.1 in
      if is_kind paren_close t then ok (matches, view) else more

  -- The three loops of `parseMacroMatcher`, from the opening delimiter on.
  pub matcher_loop : ℕ → DelimTokenTreeKind → MacroMatches → View → Parsed MacroMatcher
  matcher_loop zero kind matches view = out_of_fuel
  matcher_loop (suc f) kind matches [] = aborted
  matcher_loop (suc f) kind matches (t ∷ view) =
      let more = parse_macro_match f (t ∷ view) >>= λ r.
      or_exit r >>= λ m. matcher_loop f kind (add_match matches m.0) m.1 in
      if is_kind eof t
      then ok (none, t ∷ view)
      else if is_kind (close_kind kind) t
      then ok (some (matcher kind matches), view)
      else more
