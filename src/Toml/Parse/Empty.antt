-- ===== src/Toml/Parse/Empty.antt =====
-- The empty inline table.
use mlir_rustc.Prelude.{List, ◌∷◌, Bytes, length, diverges, ◌≡◌, refl, arith}
use mlir_rustc.Toml.Values.{
  TomlToken, token, bare, identifier, equals, brace_open, brace_close, pair_tokens,
}
use mlir_rustc.Toml.Parse
use mlir_rustc.Toml.Parse.RoundTrip.{leb-true, ltb-true}

-- A key with the empty inline table, of which `getNrOfTokens` counts one token and not two, leaves its
-- closing brace behind: where three more tokens follow, the loop of `tryParse` goes on for ever.
pub try_parse-empty_table :
    (key : Bytes) (t u v : TomlToken) (rest : List TomlToken)
    → Parse.try_parse
        (token identifier key ∷ bare equals ∷ bare brace_open ∷ bare brace_close ∷ t ∷ u ∷ v ∷ rest)
      ≡ diverges
unfolding Parse.try_parse Parse.subspan pair_tokens
try_parse-empty_table key t u v rest =
    let left = bare brace_close ∷ t ∷ u ∷ v ∷ rest in
    let view = token identifier key ∷ bare equals ∷ bare brace_open ∷ left in
    rw (ltb-true 3 (length left) (omega arith), leb-true 3 (length view) (omega arith)) refl
