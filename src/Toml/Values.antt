-- ===== src/Toml/Values.antt =====
-- Tokens of TOML, and what they are parsed to, with the numbers of tokens that the parser skips.
use mlir_rustc.Prelude.{
  ℕ, suc, ◌+◌, ◌-◌, ◌*◌, List, [], ◌∷◌, Option, none, some, Bytes, length, equal, codes,
  if◌then◌else◌,
}

pub data TomlKind : Type 0 where
  hash square_open identifier square_close integer equals string brace_open comma brace_close :
      TomlKind

-- `Token` of code/include/Toml/Token.h: its kind and its text.
pub data TomlToken : Type 0 where
  token : TomlKind → Bytes → TomlToken

-- The constructor of `Token` without a text.
abbrev pub bare : TomlKind → TomlToken
bare k = token k []

mutual
  -- `KeyValuePair`, with the string, the `Array` or the `InlineTable` that its variant holds.
  pub data Pair : Type 0 where
    string_pair : Bytes → Bytes → Pair
    array_pair : Bytes → List Bytes → Pair
    table_pair : Bytes → Pairs → Pair

  pub data Pairs : Type 0 where
    no_pair : Pairs
    one_pair : Pair → Pairs → Pairs

pub record Table : Type 0 where
  pub header : Bytes
  pub pairs : List Pair

pub record Toml : Type 0 where
  pub pairs : List Pair
  pub tables : List Table

-- `Array::getNrOfTokens`. Numbers of tokens are taken to be below 2^64; the `- 1` on `size_t` wraps
-- around for an empty array, and the `+ 2` undoes it.
abbrev pub array_tokens : List Bytes → ℕ
array_tokens elements = 2 * length elements + 2 - 1

abbrev pub number_of_pairs : Pairs → ℕ
number_of_pairs no_pair = 0
number_of_pairs (one_pair p ps) = suc (number_of_pairs ps)

unfoldable mutual
  -- `KeyValuePair::getNrOfTokens`, which adds `InlineTable::getNrOfTokens` where there is one.
  pub pair_tokens : Pair → ℕ
  pair_tokens (string_pair key s) = 3
  pair_tokens (array_pair key elements) = array_tokens elements + 2
  pair_tokens (table_pair key ps) = 2 + sum_tokens ps + number_of_pairs ps - 1 + 2

  -- The loop of `InlineTable::getNrOfTokens`.
  pub sum_tokens : Pairs → ℕ
  sum_tokens no_pair = 0
  sum_tokens (one_pair p ps) = pair_tokens p + sum_tokens ps

-- The loop of `Table::getNrOfTokens`.
unfoldable pub sum_pairs : List Pair → ℕ
unfolding pair_tokens
sum_pairs [] = 0
sum_pairs (p ∷ ps) = pair_tokens p + sum_pairs ps

unfoldable pub table_tokens : Table → ℕ
unfolding sum_pairs
table_tokens t = 3 + sum_pairs t.pairs

abbrev pub key_of : Pair → Bytes
key_of (string_pair key _) = key
key_of (array_pair key _) = key
key_of (table_pair key _) = key

abbrev pub get_string_variant : Pair → Option Bytes
get_string_variant (string_pair _ s) = some s
get_string_variant _ = none

-- The loop of `Toml::getEdition`.
unfoldable pub edition_of : List Pair → Option Bytes
edition_of [] = none
edition_of (p ∷ ps) =
    let rest = edition_of ps in
    if equal (key_of p) (codes "edition") then get_string_variant p else rest

unfoldable pub get_edition : Toml → Option Bytes
unfolding edition_of
get_edition t = edition_of t.pairs
