-- ===== src/Toml/Parse/RoundTrip/Documents.antt =====
-- Tables and documents.
use mlir_rustc.Prelude.{
  ℕ, zero, suc, ◌<◌, ◌≤◌, List, [], ◌∷◌, ◌++◌, none, some, Bytes, length, length-append,
  append_assoc, append-nil, ok, ◌>>=◌, ◌≡◌, refl, sym, ap, ◌∙◌, arith,
}
use mlir_rustc.Toml.Values.{
  TomlToken, token, bare, square_open, identifier, square_close, Pair, Table, Toml, sum_pairs,
  table_tokens,
}
use mlir_rustc.Toml.Parse
use mlir_rustc.Toml.Parse.Print.{print_pair, IsFilled, IsFollowed, length-print_value}
use mlir_rustc.Toml.Parse.RoundTrip.{subspan-append, subspan-print, value-print}

unfoldable pub print_list : List Pair → List TomlToken
unfolding print_pair
print_list [] = []
print_list (p ∷ ps) = print_pair p ++ print_list ps

unfoldable pub print_tables : List Table → List TomlToken
unfolding print_list
print_tables [] = []
print_tables (t ∷ ts) =
    bare square_open
    ∷ token identifier t.header
    ∷ bare square_close
    ∷ (print_list t.pairs ++ print_tables ts)

unfoldable pub print_toml : Toml → List TomlToken
unfolding print_list print_tables
print_toml t = print_list t.pairs ++ print_tables t.tables

-- Every pair is filled, and followed where it has to be; `next` is what follows the last one.
abbrev pub AreReadable : List Pair → List TomlToken → Type 0
AreReadable [] next = Unit
AreReadable (p ∷ ps) next = IsFilled p × IsFollowed p (print_list ps ++ next) × AreReadable ps next

-- A header is read only where a token follows it.
abbrev pub TablesReadable : List Table → Type 0
TablesReadable [] = Unit
TablesReadable (t ∷ ts) =
    (0 < length (print_list t.pairs ++ print_tables ts))
    × AreReadable t.pairs (print_tables ts)
    × TablesReadable ts

abbrev pub IsReadable : Toml → Type 0
IsReadable t = AreReadable t.pairs (print_tables t.tables) × TablesReadable t.tables

pair-print :
    (p : Pair) (rest : List TomlToken)
    → IsFilled p
    → IsFollowed p rest
    → Parse.try_parse_key_value_pair (print_pair p ++ rest) ≡ ok (some p)
unfolding Parse.try_parse_key_value_pair print_pair
pair-print p rest h k =
    value-print (length (print_pair p ++ rest)) p rest h k
      (omega (arith, length-append (print_pair p) rest))

-- A table or the end of the document is no pair.
tables-none : (ts : List Table) → Parse.try_parse_key_value_pair (print_tables ts) ≡ ok none
unfolding Parse.try_parse_key_value_pair print_tables
tables-none [] = refl
tables-none (t ∷ ts) = refl

length-print_list :
    (ps : List Pair) (next : List TomlToken)
    → AreReadable ps next
    → length (print_list ps) ≡ sum_pairs ps
unfolding print_list sum_pairs print_pair
length-print_list [] next h = refl
length-print_list (p ∷ ps) next h = omega (
  arith,
  length-append (print_pair p) (print_list ps),
  length-print_value p h.0,
  length-print_list ps next h.2,
)

-- A round of the loop of a table, on a pair.
table_loop-pair :
    (f : ℕ) (t : Table) (p : Pair) (rest : List TomlToken)
    → IsFilled p
    → IsFollowed p rest
    → Parse.table_loop (suc f) t (print_pair p ++ rest)
      ≡ Parse.table_loop f (record t { pairs = t.pairs ++ p ∷ [] }) rest
unfolding Parse.table_loop print_pair
table_loop-pair f t p rest h k =
    ap (λ o. o >>= λ q. Parse.table_round (Parse.table_loop f) t (print_pair p ++ rest) q)
      (pair-print p rest h k)
    ∙ ap (λ o. o >>= λ r. Parse.table_loop f (record t { pairs = t.pairs ++ p ∷ [] }) r)
        (subspan-print p rest h)

length-print_pair : (p : Pair) → 2 ≤ length (print_pair p)
unfolding print_pair
length-print_pair p = omega arith

table_loop-print :
    (f : ℕ) (t : Table) (ps : List Pair) (ts : List Table)
    → AreReadable ps (print_tables ts)
    → length (print_list ps ++ print_tables ts) < f
    → Parse.table_loop f t (print_list ps ++ print_tables ts)
      ≡ ok (record t { pairs = t.pairs ++ ps })
unfolding Parse.table_loop print_list print_tables
table_loop-print zero t ps ts h l = absurd (omega arith)
table_loop-print (suc f) t [] [] h l =
    ap (λ ps. ok (record t { pairs = ps })) (sym (append-nil t.pairs))
table_loop-print (suc f) t [] (u ∷ ts) h l =
    ap (λ ps. ok (record t { pairs = ps })) (sym (append-nil t.pairs))
table_loop-print (suc f) t (p ∷ ps) ts h l =
    let rest = print_list ps ++ print_tables ts in
    let assoc = append_assoc (print_pair p) (print_list ps) (print_tables ts) in
    ap (Parse.table_loop (suc f) t) assoc
    ∙ table_loop-pair f t p rest h.0 h.1
    ∙ table_loop-print f (record t { pairs = t.pairs ++ p ∷ [] }) ps ts h.2
        (omega (arith, l, ap length assoc, length-append (print_pair p) rest, length-print_pair p))
    ∙ ap (λ qs. ok (record t { pairs = qs })) (append_assoc t.pairs (p ∷ []) ps)

abbrev header_tokens : Bytes → List TomlToken
header_tokens h = bare square_open ∷ token identifier h ∷ bare square_close ∷ []

header-print :
    (h : Bytes) (rest : List TomlToken)
    → 0 < length rest
    → Parse.try_parse_header (header_tokens h ++ rest) ≡ some h
unfolding Parse.try_parse_header
header-print h [] l = absurd (omega (arith, l))
header-print h (t ∷ rest) l = refl

try_parse_table-print :
    (t : Table) (ts : List Table)
    → 0 < length (print_list t.pairs ++ print_tables ts)
    → AreReadable t.pairs (print_tables ts)
    → Parse.try_parse_table (header_tokens t.header ++ (print_list t.pairs ++ print_tables ts))
      ≡ ok (some t)
unfolding Parse.try_parse_table Parse.table_after
try_parse_table-print t ts l h =
    let rest = print_list t.pairs ++ print_tables ts in
    let view = header_tokens t.header ++ rest in
    let empty : Table = record { header = t.header; pairs = [] } in
    ap (Parse.table_with view) (header-print t.header rest l)
    ∙ ap
        (λ o.
          (o >>= λ tab. Parse.table_loop (suc (length tab)) empty tab) >>= λ table. ok (some table))
        (subspan-append 3 (header_tokens t.header) rest refl)
    ∙ ap (λ o. o >>= λ table. ok (some table))
        (table_loop-print (suc (length rest)) empty t.pairs ts h (omega arith))

document_loop-table :
    (f : ℕ) (toml : Toml) (t : Table) (ts : List Table)
    → 0 < length (print_list t.pairs ++ print_tables ts)
    → AreReadable t.pairs (print_tables ts)
    → Parse.document_loop (suc f) toml (print_tables (t ∷ ts))
      ≡ Parse.document_loop f (record toml { tables = toml.tables ++ t ∷ [] }) (print_tables ts)
unfolding Parse.document_loop print_tables table_tokens
document_loop-table f toml t ts l h =
    let rest = print_list t.pairs ++ print_tables ts in
    let view = header_tokens t.header ++ rest in
    let front = header_tokens t.header ++ print_list t.pairs in
    ap (Parse.document_round (Parse.document_loop f) toml view) (header-print t.header rest l)
    ∙ ap (λ o. o >>= λ u. Parse.table_branch (Parse.document_loop f) toml view u)
        (try_parse_table-print t ts l h)
    ∙ ap (λ o. o >>= λ r. Parse.document_loop f (record toml { tables = toml.tables ++ t ∷ [] }) r)
        (subspan-append (table_tokens t) front (print_tables ts)
          (omega (arith, length-print_list t.pairs (print_tables ts) h)))

tables-print :
    (f : ℕ) (toml : Toml) (ts : List Table)
    → TablesReadable ts
    → length (print_tables ts) < f
    → Parse.document_loop f toml (print_tables ts)
      ≡ ok (some (record toml { tables = toml.tables ++ ts }))
unfolding Parse.document_loop print_tables
tables-print zero toml ts h l = absurd (omega arith)
tables-print (suc f) toml [] h l =
    ap (λ us. ok (some (record toml { tables = us }))) (sym (append-nil toml.tables))
tables-print (suc f) toml (t ∷ ts) h l =
    document_loop-table f toml t ts h.0 h.1
    ∙ tables-print f (record toml { tables = toml.tables ++ t ∷ [] }) ts h.2
        (omega (arith, l, length-append (print_list t.pairs) (print_tables ts)))
    ∙ ap (λ us. ok (some (record toml { tables = us }))) (append_assoc toml.tables (t ∷ []) ts)

document_loop-pair :
    (f : ℕ) (toml : Toml) (p : Pair) (rest : List TomlToken)
    → IsFilled p
    → IsFollowed p rest
    → Parse.document_loop (suc f) toml (print_pair p ++ rest)
      ≡ Parse.document_loop f (record toml { pairs = toml.pairs ++ p ∷ [] }) rest
unfolding Parse.document_loop print_pair
document_loop-pair f toml p rest h k =
    ap (λ o. o >>= λ q. Parse.pair_branch (Parse.document_loop f) toml (print_pair p ++ rest) q)
      (pair-print p rest h k)
    ∙ ap (λ o. o >>= λ r. Parse.document_loop f (record toml { pairs = toml.pairs ++ p ∷ [] }) r)
        (subspan-print p rest h)

document-print :
    (f : ℕ) (toml : Toml) (ps : List Pair) (ts : List Table)
    → AreReadable ps (print_tables ts)
    → TablesReadable ts
    → length (print_list ps ++ print_tables ts) < f
    → Parse.document_loop f toml (print_list ps ++ print_tables ts)
      ≡ ok (some (record { pairs = toml.pairs ++ ps; tables = toml.tables ++ ts }))
unfolding print_list
document-print zero toml ps ts h k l = absurd (omega arith)
document-print (suc f) toml [] ts h k l =
    tables-print (suc f) toml ts k l
    ∙ ap (λ qs. ok (some (record { pairs = qs; tables = toml.tables ++ ts })))
        (sym (append-nil toml.pairs))
document-print (suc f) toml (p ∷ ps) ts h k l =
    let rest = print_list ps ++ print_tables ts in
    let assoc = append_assoc (print_pair p) (print_list ps) (print_tables ts) in
    ap (Parse.document_loop (suc f) toml) assoc
    ∙ document_loop-pair f toml p rest h.0 h.1
    ∙ document-print f (record toml { pairs = toml.pairs ++ p ∷ [] }) ps ts h.2 k
        (omega (arith, l, ap length assoc, length-append (print_pair p) rest, length-print_pair p))
    ∙ ap (λ qs. ok (some (record { pairs = qs; tables = toml.tables ++ ts })))
        (append_assoc toml.pairs (p ∷ []) ps)

-- The parser reads a document back from its tokens, if no array and no inline table in it is empty, a
-- token follows every header, and a token follows every array that is the value of a pair.
pub try_parse-print :
    (toml : Toml) → IsReadable toml → Parse.try_parse (print_toml toml) ≡ ok (some toml)
unfolding Parse.try_parse print_toml
try_parse-print toml h =
    document-print (suc (length (print_toml toml))) (record { pairs = []; tables = [] }) toml.pairs
      toml.tables h.0 h.1 (omega arith)
