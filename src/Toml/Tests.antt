-- ===== src/Toml/Tests.antt =====
-- Runs of the reader of TOML.
use mlir_rustc.Prelude.{
  [], ◌∷◌, some, codes, equal, ok, exited, undefined, out_of_fuel, ◌≡◌, ◌≢◌, refl, arith, Ends,
}
use mlir_rustc.Toml.Values.{
  token, bare, square_open, identifier, equals, string, brace_open, comma, brace_close, string_pair,
  array_pair, table_pair, no_pair, one_pair, Toml, get_edition,
}
use mlir_rustc.Toml.Lex.{try_lex_toml}
use mlir_rustc.Toml.Lex.Completes.{try_lex_toml-Ends}
use mlir_rustc.Toml.Parse.{try_parse}
use mlir_rustc.Toml.Parse.Fuel.{try_parse-enough}
use mlir_rustc.Toml.Parse.RoundTrip.Documents.{print_toml, IsReadable, try_parse-print}
use mlir_rustc.Toml.Parse.Print.{IsFilled}

abbrev manifest : Toml
manifest = record {
  pairs = string_pair (codes "edition") (codes "2021") ∷ [];
  tables =
      record {
        header = codes "dependencies";
        pairs =
            array_pair (codes "list") (codes "a" ∷ codes "b" ∷ [])
            ∷ table_pair (codes "serde") (
                one_pair (string_pair (codes "version") (codes "1"))
                  (one_pair (array_pair (codes "features") (codes "derive" ∷ [])) no_pair))
            ∷ [];
      }
      ∷ [];
}

manifest_edition : get_edition manifest ≡ some (codes "2021")
unfolding get_edition equal
manifest_edition = refl

manifest-IsReadable : IsReadable manifest
unfolding print_toml IsFilled
manifest-IsReadable = (
  (tt, tt, tt),
  (omega arith, (omega arith, omega arith, ((omega arith, (tt, (omega arith, tt))), tt, tt)), tt),
)

try_parse-print_example : try_parse (print_toml manifest) ≡ ok (some manifest)
try_parse-print_example = try_parse-print manifest manifest-IsReadable

lexed_line :
    try_lex_toml (codes "a = \"b\"\n")
    ≡ ok (token identifier (codes "a") ∷ bare equals ∷ token string (codes "\"b\"") ∷ [])
unfolding try_lex_toml
lexed_line = refl

one_letter : try_lex_toml (codes "a") ≡ exited
unfolding try_lex_toml
one_letter = refl

last_comment : try_lex_toml (codes "#c\n") ≡ undefined
unfolding try_lex_toml
last_comment = refl

missing_comma :
    try_parse (
      token identifier (codes "a")
      ∷ bare equals
      ∷ bare brace_open
      ∷ token identifier (codes "b")
      ∷ bare equals
      ∷ token string (codes "c")
      ∷ token identifier (codes "d")
      ∷ bare equals
      ∷ token string (codes "e")
      ∷ bare brace_close
      ∷ [])
    ≡ undefined
unfolding try_parse
missing_comma = refl

try_lex_toml-Ends_example : Ends (try_lex_toml (codes "[a]\n"))
try_lex_toml-Ends_example = try_lex_toml-Ends (codes "[a]\n")

try_parse-enough_example : try_parse (bare square_open ∷ bare comma ∷ []) ≢ out_of_fuel
try_parse-enough_example = try_parse-enough (bare square_open ∷ bare comma ∷ [])
