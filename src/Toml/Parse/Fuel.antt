-- ===== src/Toml/Parse/Fuel.antt =====
-- The fuel of the parser is enough.
use mathlib.Core.Path.{subst}
use mlir_rustc.Prelude.{
  ℕ, zero, suc, ◌<◌, ◌≤◌, Bool, true, false, ltb, leb, if◌then◌else◌, List, [], ◌∷◌, ◌++◌, Option,
  none, some, Bytes, length, length-drop, drop, Outcome, ok, exited, aborted, undefined, diverges,
  out_of_fuel, ◌>>=◌, ◌≡◌, ◌≢◌, refl, ap, ok-injective, arith, Bool-cases, inl, inr,
}
use mlir_rustc.Toml.Values.{
  TomlToken, token, identifier, equals, brace_open, comma, brace_close, Pair, string_pair,
  array_pair, table_pair, Pairs, no_pair, Table, Toml, pair_tokens, table_tokens,
}
use mlir_rustc.Toml.Parse

-- The run does not end for want of fuel.
abbrev Fed {ℓ} : {A : Type ℓ} → Outcome A → Type 0
Fed out_of_fuel = ⊥
Fed _ = Unit

Fed-bind :
    {A B : Type 0} (m : Outcome A) (f : A → Outcome B)
    → Fed m
    → ((a : A) → m ≡ ok a → Fed (f a))
    → Fed (m >>= f)
Fed-bind (ok a) f h k = k a refl
Fed-bind exited f h k = tt
Fed-bind aborted f h k = tt
Fed-bind undefined f h k = tt
Fed-bind diverges f h k = tt
Fed-bind out_of_fuel f h k = absurd h

Fed-if : {A : Type 0} (b : Bool) (m n : Outcome A) → Fed m → Fed n → Fed (if b then m else n)
Fed-if true m n h k = h
Fed-if false m n h k = k

pub pair_tokens-pos : (p : Pair) → 1 ≤ pair_tokens p
unfolding pair_tokens
pair_tokens-pos (string_pair key s) = omega arith
pair_tokens-pos (array_pair key elements) = omega arith
pair_tokens-pos (table_pair key ps) = omega arith

table_tokens-pos : (t : Table) → 1 ≤ table_tokens t
unfolding table_tokens
table_tokens-pos t = omega arith

leb_le : (a b : ℕ) → leb a b ≡ true → a ≤ b
leb_le a b h = ground arith

subspan-Fed : (n : ℕ) (view : List TomlToken) → Fed (Parse.subspan n view)
unfolding Parse.subspan
subspan-Fed n view = Fed-if (leb n (length view)) (ok (drop n view)) undefined tt tt

-- What is left after at least one token is shorter.
subspan-shorter :
    (n : ℕ) (view rest : List TomlToken)
    → 1 ≤ n
    → Parse.subspan n view ≡ ok rest
    → length rest < length view
unfolding Parse.subspan
subspan-shorter n view rest h e = elim (Bool-cases (leb n (length view))) [
  | inl b ↦
      (let q =
          ok-injective (subst (λ b. (if b then ok (drop n view) else undefined) ≡ ok rest) b e) in
        let l = ap length q in omega (arith, length-drop n view, leb_le n (length view) b, l, h))
  | inr b ↦
      (let q = subst (λ b. (if b then ok (drop n view) else undefined) ≡ ok rest) b e in
        absurd (cc))
]

array_value-Fed :
    (key : Bytes) (o : Option (List Bytes)) → Fed (Outcome.ok (Parse.array_value key o))
array_value-Fed key o = tt

parse_value-Fed :
    (inline : List TomlToken → Outcome (Option Pairs)) (key : Bytes) (view : List TomlToken)
    → ((v : List TomlToken) → length v ≤ length view → Fed (inline v))
    → Fed (Parse.parse_value inline key view)
parse_value-Fed inline key (token brace_open t ∷ view) h =
    Fed-bind (inline (token brace_open t ∷ view)) (λ table. ok (Parse.table_value key table))
      (h (token brace_open t ∷ view) (omega arith)) (λ a e. tt)
parse_value-Fed inline key _ h = tt

parse_pair-Fed :
    (inline : List TomlToken → Outcome (Option Pairs)) (view : List TomlToken)
    → ((v : List TomlToken) → length v < length view → Fed (inline v))
    → Fed (Parse.parse_pair inline view)
parse_pair-Fed inline (token identifier key ∷ token equals _ ∷ t ∷ view) h =
    parse_value-Fed inline key (t ∷ view) (λ v l. h v (omega arith))
parse_pair-Fed inline _ h = tt

module _ (loop : Pairs → List TomlToken → Outcome (Option Pairs)) where
  parse_inline-Fed :
      (view : List TomlToken)
      → ((ps : Pairs) (v : List TomlToken) → length v < length view → Fed (loop ps v))
      → Fed (Parse.parse_inline loop view)
  parse_inline-Fed (token brace_open _ ∷ t ∷ u ∷ view) h = h no_pair (t ∷ u ∷ view) (omega arith)
  parse_inline-Fed _ h = tt

  after_pair-Fed :
      (table : Pairs) (view : List TomlToken)
      → ((ps : Pairs) (v : List TomlToken) → length v ≤ length view → Fed (loop ps v))
      → Fed (Parse.after_pair loop table view)
  after_pair-Fed table [] h = tt
  after_pair-Fed table (token brace_close _ ∷ view) h = tt
  after_pair-Fed table (token comma _ ∷ view) h = h table view (omega arith)
  after_pair-Fed table (t ∷ view) h = h table (t ∷ view) (omega arith)

  no_pair_here-Fed : (table : Pairs) (view : List TomlToken) → Fed (Parse.no_pair_here table view)
  no_pair_here-Fed table (token brace_close _ ∷ view) = tt
  no_pair_here-Fed table _ = tt

  inline_round-Fed :
      (table : Pairs) (view : List TomlToken) (o : Option Pair)
      → ((ps : Pairs) (v : List TomlToken) → length v < length view → Fed (loop ps v))
      → Fed (Parse.inline_round loop table view o)
  inline_round-Fed table view none h = no_pair_here-Fed table view
  inline_round-Fed table view (some p) h =
      Fed-bind (Parse.subspan (pair_tokens p) view)
        (λ rest. Parse.after_pair loop (Parse.add_pair table p) rest)
        (subspan-Fed (pair_tokens p) view)
        (λ rest e.
          let s = subspan-shorter (pair_tokens p) view rest (pair_tokens-pos p) e in
          after_pair-Fed (Parse.add_pair table p) rest (λ ps v l. h ps v (omega (arith, l, s))))

give_up-Fed : (view : List TomlToken) → Fed (Parse.give_up view)
give_up-Fed [] = tt
give_up-Fed (_ ∷ _) = tt

inline_loop-Fed :
    (f : ℕ) (table : Pairs) (view : List TomlToken)
    → length view < f
    → Fed (Parse.inline_loop f table view)
unfolding Parse.inline_loop
inline_loop-Fed zero table view h = absurd (omega arith)
inline_loop-Fed (suc f) table view h =
    Fed-if (ltb 3 (length view)) _ (Parse.give_up view)
      (Fed-bind (Parse.parse_pair (Parse.parse_inline (Parse.inline_loop f)) view)
        (λ p. Parse.inline_round (Parse.inline_loop f) table view p)
        (parse_pair-Fed (Parse.parse_inline (Parse.inline_loop f)) view (λ v l.
          parse_inline-Fed (Parse.inline_loop f) v
            (λ ps w m. inline_loop-Fed f ps w (omega (arith, h, l, m)))))
        (λ p e.
          inline_round-Fed (Parse.inline_loop f) table view p
            (λ ps w m. inline_loop-Fed f ps w (omega (arith, h, m)))))
      (give_up-Fed view)

try_parse_key_value_pair-Fed : (view : List TomlToken) → Fed (Parse.try_parse_key_value_pair view)
unfolding Parse.try_parse_key_value_pair
try_parse_key_value_pair-Fed view =
    parse_pair-Fed (Parse.parse_inline (Parse.inline_loop (length view))) view (λ v l.
      parse_inline-Fed (Parse.inline_loop (length view)) v
        (λ ps w m. inline_loop-Fed (length view) ps w (omega (arith, l, m))))

table_loop-Fed :
    (f : ℕ) (table : Table) (tab : List TomlToken)
    → length tab < f
    → Fed (Parse.table_loop f table tab)
unfolding Parse.table_loop
table_loop-Fed zero table tab h = absurd (omega arith)
table_loop-Fed (suc f) table [] h = tt
table_loop-Fed (suc f) table (t ∷ tab) h =
    Fed-bind (Parse.try_parse_key_value_pair (t ∷ tab)) _ (try_parse_key_value_pair-Fed (t ∷ tab))
      (λ o e. elim o as (λ o. Fed (Parse.table_round (Parse.table_loop f) table (t ∷ tab) o)) [
        | none ↦ tt
        | some p ↦
            Fed-bind (Parse.subspan (pair_tokens p) (t ∷ tab)) _
              (subspan-Fed (pair_tokens p) (t ∷ tab))
              (λ rest k.
                let s = subspan-shorter (pair_tokens p) (t ∷ tab) rest (pair_tokens-pos p) k in
                table_loop-Fed f (record table { pairs = table.pairs ++ p ∷ [] }) rest
                  (omega (arith, h, s)))
      ])

try_parse_table-Fed : (view : List TomlToken) → Fed (Parse.try_parse_table view)
unfolding Parse.try_parse_table Parse.table_after
try_parse_table-Fed view =
    elim (Parse.try_parse_header view) as (λ o. Fed (Parse.table_with view o)) [
      | none ↦ tt
      | some header ↦
          Fed-bind (Parse.table_after header view) (λ table. ok (some table))
            (Fed-bind (Parse.subspan 3 view) _ (subspan-Fed 3 view) (λ tab e.
              table_loop-Fed (suc (length tab)) (record { header = header; pairs = [] }) tab
                (omega arith)))
            (λ a e. tt)
    ]

document_loop-Fed :
    (f : ℕ) (toml : Toml) (view : List TomlToken)
    → length view < f
    → Fed (Parse.document_loop f toml view)
unfolding Parse.document_loop
document_loop-Fed zero toml view h = absurd (omega arith)
document_loop-Fed (suc f) toml [] h = tt
document_loop-Fed (suc f) toml (t ∷ []) h = tt
document_loop-Fed (suc f) toml (t ∷ u ∷ rest) h =
    let view = t ∷ u ∷ rest in
    let again =
      λ (toml : Toml) (n : ℕ) (left : List TomlToken) (p : 1 ≤ n)
          (e : Parse.subspan n view ≡ ok left).
        document_loop-Fed f toml left (omega (arith, h, subspan-shorter n view left p e)) in
    elim (Parse.try_parse_header view)
      as (λ o. Fed (Parse.document_round (Parse.document_loop f) toml view o)) [
        | none ↦
            Fed-bind (Parse.try_parse_key_value_pair view) _ (try_parse_key_value_pair-Fed view)
              (λ o e. elim o as (λ o. Fed (Parse.pair_branch (Parse.document_loop f) toml view o)) [
                | none ↦ tt
                | some p ↦
                    Fed-bind (Parse.subspan (pair_tokens p) view) _
                      (subspan-Fed (pair_tokens p) view)
                      (λ left k.
                        again (record toml { pairs = toml.pairs ++ p ∷ [] }) (pair_tokens p) left
                          (pair_tokens-pos p) k)
              ])
        | some header ↦ Fed-bind (Parse.try_parse_table view) _ (try_parse_table-Fed view) (λ o e.
            elim o as (λ o. Fed (Parse.table_branch (Parse.document_loop f) toml view o)) [
              | none ↦ tt
              | some t ↦
                  Fed-bind (Parse.subspan (table_tokens t) view) _
                    (subspan-Fed (table_tokens t) view)
                    (λ left k.
                      again (record toml { tables = toml.tables ++ t ∷ [] }) (table_tokens t) left
                        (table_tokens-pos t) k)
            ])
      ]

Fed-enough : {A : Type 0} (m : Outcome A) → Fed m → m ≢ out_of_fuel
Fed-enough m h e = subst Fed e h

-- The parser of a document needs no more rounds than it is given: one for each token and one more,
-- in every loop.
pub try_parse-enough : (ts : List TomlToken) → Parse.try_parse ts ≢ out_of_fuel
unfolding Parse.try_parse
try_parse-enough ts =
    Fed-enough (Parse.try_parse ts)
      (document_loop-Fed (suc (length ts)) (record { pairs = []; tables = [] }) ts (omega arith))
