-- ===== src/Parser/Macros/Tests.antt =====
-- Definitions of macros that are not read.
use mlir_rustc.Prelude.{[], ◌∷◌, some, none, codes, ok, aborted, out_of_fuel, ◌≡◌, refl}
use mlir_rustc.Lexer.KeyWords.{kw_macro_rules, value}
use mlir_rustc.Lexer.Token.{Token, TokenKind, identifier, keyword, brace_close, eof, dollar}
use mlir_rustc.Parser.Tokens.{kind_equal}
use mlir_rustc.Parser.TokenTrees.{brace, delimiter, empty_location}
use mlir_rustc.Parser.Macros.Endless.{opening, parse_macro_rules_definition-opening}
use mlir_rustc.Parser.Macros.{MacroMatch, parse_macro_match}
use mlir_rustc.Parser.MacroRules.{parse_macro_rules_definition}

abbrev name : Token
name = record { loc = empty_location; kind = identifier; storage = codes "name"; key_word = none }

abbrev end : Token
end = delimiter eof

abbrev macro_word : Token
macro_word = record {
  loc = empty_location;
  kind = keyword;
  storage = [];
  key_word = some kw_macro_rules;
}

-- macro_rules ! name { }
parse_macro_rules_definition-opening_example :
    parse_macro_rules_definition 20
      (macro_word ∷ delimiter TokenKind.not ∷ name ∷ opening brace end ∷ delimiter brace_close ∷ [])
    ≡ out_of_fuel
unfolding value kind_equal
parse_macro_rules_definition-opening_example =
    parse_macro_rules_definition-opening 20 brace macro_word (delimiter TokenKind.not) name end
      (delimiter brace_close ∷ []) refl refl refl

-- A match that is a token leaves it where it is.
token_match :
    parse_macro_match 3 (name ∷ end ∷ []) ≡ ok (some (MacroMatch.of_token name), name ∷ end ∷ [])
unfolding parse_macro_match
token_match = refl

-- $ name fails the assertion in isRawIdentifier.
dollar_name : parse_macro_match 3 (delimiter dollar ∷ name ∷ end ∷ []) ≡ aborted
unfolding parse_macro_match
dollar_name = refl
