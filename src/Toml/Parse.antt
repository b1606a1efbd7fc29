-- ===== src/Toml/Parse.antt =====
-- code/toml/Parser.cpp and `readToml` of code/toml/Toml.cpp. A span is the list of its tokens.
pub mod Fuel
pub mod Print
pub mod RoundTrip
pub mod Empty
use mlir_rustc.Prelude.{
  ℕ, zero, suc, Bool, true, false, ltb, leb, if◌then◌else◌, List, [], ◌∷◌, ◌++◌, Option, none, some,
  Bytes, length, drop, Outcome, ok, undefined, diverges, out_of_fuel, ◌>>=◌,
}
use mlir_rustc.Toml.Values.{
  TomlKind, TomlToken, token, square_open, identifier, square_close, equals, string, brace_open,
  comma, brace_close, Pair, string_pair, array_pair, table_pair, Pairs, no_pair, one_pair, Table,
  Toml, pair_tokens, sum_tokens, table_tokens,
}
use mlir_rustc.Toml.Lex.{try_lex_toml}

-- `view.subspan(n)`, for `n` up to the size.
unfoldable pub subspan : ℕ → List TomlToken → Outcome (List TomlToken)
subspan n view = if leb n (length view) then ok (drop n view) else undefined

-- The loop of `tryParseArray`, while more than two tokens are left.
unfoldable pub array_loop : List Bytes → List TomlToken → Option (List Bytes)
array_loop array (token string s ∷ token comma _ ∷ t ∷ view) =
    array_loop (array ++ s ∷ []) (t ∷ view)
array_loop array (token string s ∷ token square_close _ ∷ t ∷ view) = some (array ++ s ∷ [])
array_loop array _ = none

unfoldable pub try_parse_array : List TomlToken → Option (List Bytes)
unfolding array_loop
try_parse_array (token square_open _ ∷ t ∷ u ∷ view) = array_loop [] (t ∷ u ∷ view)
try_parse_array _ = none

-- `table.addPair`
abbrev pub add_pair : Pairs → Pair → Pairs
add_pair no_pair p = one_pair p no_pair
add_pair (one_pair q ps) p = one_pair q (add_pair ps p)

abbrev pub array_value : Bytes → Option (List Bytes) → Option Pair
array_value key none = none
array_value key (some array) = some (array_pair key array)

abbrev pub table_value : Bytes → Option Pairs → Option Pair
table_value key none = none
table_value key (some ps) = some (table_pair key ps)

-- The end of `tryParseKeyValuePair`: the value stands in front, and `inline` reads an inline table.
abbrev pub parse_value :
    (List TomlToken → Outcome (Option Pairs)) → Bytes → List TomlToken → Outcome (Option Pair)
parse_value inline key (token string s ∷ view) = ok (some (string_pair key s))
parse_value inline key (token brace_open t ∷ view) =
    inline (token brace_open t ∷ view) >>= λ table. ok (table_value key table)
parse_value inline key (token square_open t ∷ view) =
    ok (array_value key (try_parse_array (token square_open t ∷ view)))
parse_value inline key _ = ok none

-- After the loop of `tryParseInlineTable` the message reads `view[0]`.
abbrev pub give_up : List TomlToken → Outcome (Option Pairs)
give_up [] = undefined
give_up (_ ∷ _) = ok none

-- What follows a pair in the loop: `}`, a comma, or the next pair at once.
abbrev pub after_pair :
    (Pairs → List TomlToken → Outcome (Option Pairs))
    → Pairs
    → List TomlToken
    → Outcome (Option Pairs)
after_pair loop table [] = undefined
after_pair loop table (token brace_close _ ∷ view) = ok (some table)
after_pair loop table (token comma _ ∷ view) = loop table view
after_pair loop table view = loop table view

abbrev pub no_pair_here : Pairs → List TomlToken → Outcome (Option Pairs)
no_pair_here table (token brace_close _ ∷ view) = ok (some table)
no_pair_here table _ = ok none

-- A round of the loop of `tryParseInlineTable` after `tryParseKeyValuePair`.
abbrev pub inline_round :
    (Pairs → List TomlToken → Outcome (Option Pairs))
    → Pairs
    → List TomlToken
    → Option Pair
    → Outcome (Option Pairs)
inline_round loop table view none = no_pair_here table view
inline_round loop table view (some p) =
    subspan (pair_tokens p) view >>= λ rest. after_pair loop (add_pair table p) rest

abbrev pub parse_inline :
    (Pairs → List TomlToken → Outcome (Option Pairs)) → List TomlToken → Outcome (Option Pairs)
parse_inline loop (token brace_open _ ∷ t ∷ u ∷ view) = loop no_pair (t ∷ u ∷ view)
parse_inline loop _ = ok none

abbrev pub parse_pair :
    (List TomlToken → Outcome (Option Pairs)) → List TomlToken → Outcome (Option Pair)
parse_pair inline (token identifier key ∷ token equals _ ∷ t ∷ view) =
    parse_value inline key (t ∷ view)
parse_pair inline _ = ok none

-- The loop of `tryParseInlineTable`, while more than three tokens are left. On fuel: the pairs and the
-- tables that they hold are read by one another.
unfoldable pub inline_loop : ℕ → Pairs → List TomlToken → Outcome (Option Pairs)
unfolding subspan try_parse_array pair_tokens
inline_loop zero table view = out_of_fuel
inline_loop (suc f) table view =
    let round =
      parse_pair (parse_inline (inline_loop f)) view
      >>= (λ p. inline_round (inline_loop f) table view p) in
    if ltb 3 (length view) then round else give_up view

-- As much fuel as there are tokens.
unfoldable pub try_parse_key_value_pair : List TomlToken → Outcome (Option Pair)
unfolding inline_loop try_parse_array
try_parse_key_value_pair view = parse_pair (parse_inline (inline_loop (length view))) view

unfoldable pub try_parse_header : List TomlToken → Option Bytes
try_parse_header (token square_open _ ∷ token identifier id ∷ token square_close _ ∷ t ∷ view) =
    some id
try_parse_header _ = none

-- A round of the loop of `tryParseTable` after `tryParseKeyValuePair`.
abbrev pub table_round :
    (Table → List TomlToken → Outcome Table) → Table → List TomlToken → Option Pair → Outcome Table
table_round loop table tab none = ok table
table_round loop table tab (some p) = subspan (pair_tokens p) tab >>= λ rest.
    loop (record table { pairs = table.pairs ++ p ∷ [] }) rest

unfoldable pub table_loop : ℕ → Table → List TomlToken → Outcome Table
unfolding try_parse_key_value_pair subspan pair_tokens
table_loop zero table tab = out_of_fuel
table_loop (suc f) table [] = ok table
table_loop (suc f) table (t ∷ tab) =
    try_parse_key_value_pair (t ∷ tab) >>= λ p. table_round (table_loop f) table (t ∷ tab) p

-- The part of `tryParseTable` after the header, which is three tokens.
unfoldable pub table_after : Bytes → List TomlToken → Outcome Table
unfolding table_loop subspan
table_after header view = subspan 3 view >>= λ tab.
    table_loop (suc (length tab)) (record { header = header; pairs = [] }) tab

abbrev pub table_with : List TomlToken → Option Bytes → Outcome (Option Table)
table_with view none = ok none
table_with view (some header) = table_after header view >>= λ table. ok (some table)

unfoldable pub try_parse_table : List TomlToken → Outcome (Option Table)
unfolding try_parse_header table_after
try_parse_table view = table_with view (try_parse_header view)

-- The branches of the loop of `tryParse`. Where no token is taken off, the loop runs on for ever.
abbrev pub table_branch :
    (Toml → List TomlToken → Outcome (Option Toml))
    → Toml
    → List TomlToken
    → Option Table
    → Outcome (Option Toml)
table_branch loop toml view none = diverges
table_branch loop toml view (some table) = subspan (table_tokens table) view >>= λ rest.
    loop (record toml { tables = toml.tables ++ table ∷ [] }) rest

abbrev pub pair_branch :
    (Toml → List TomlToken → Outcome (Option Toml))
    → Toml
    → List TomlToken
    → Option Pair
    → Outcome (Option Toml)
pair_branch loop toml view none = diverges
pair_branch loop toml view (some p) = subspan (pair_tokens p) view >>= λ rest.
    loop (record toml { pairs = toml.pairs ++ p ∷ [] }) rest

abbrev pub document_round :
    (Toml → List TomlToken → Outcome (Option Toml))
    → Toml
    → List TomlToken
    → Option Bytes
    → Outcome (Option Toml)
document_round loop toml view none =
    try_parse_key_value_pair view >>= λ p. pair_branch loop toml view p
document_round loop toml view (some header) =
    try_parse_table view >>= λ table. table_branch loop toml view table

unfoldable pub document_loop : ℕ → Toml → List TomlToken → Outcome (Option Toml)
unfolding try_parse_key_value_pair try_parse_header try_parse_table subspan table_tokens pair_tokens
document_loop zero toml view = out_of_fuel
document_loop (suc f) toml [] = ok (some toml)
document_loop (suc f) toml (t ∷ []) = ok none
document_loop (suc f) toml (t ∷ u ∷ view) =
    document_round (document_loop f) toml (t ∷ u ∷ view) (try_parse_header (t ∷ u ∷ view))

unfoldable pub try_parse : List TomlToken → Outcome (Option Toml)
unfolding document_loop
try_parse ts = document_loop (suc (length ts)) (record { pairs = []; tables = [] }) ts

unfoldable pub read_toml : Bytes → Outcome (Option Toml)
unfolding try_lex_toml try_parse
read_toml file = try_lex_toml file >>= try_parse
