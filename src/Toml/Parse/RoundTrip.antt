-- ===== src/Toml/Parse/RoundTrip.antt =====
-- Parsing the tokens of a document.
pub mod Documents
use mathlib.Core.Path.{subst}
use mlir_rustc.Prelude.{
  ℕ, zero, suc, ◌+◌, ◌*◌, ◌<◌, ◌≤◌, Bool, true, false, ltb, leb, if◌then◌else◌, List, [], ◌∷◌, ◌++◌,
  Option, none, some, Bytes, length, length-append, drop, drop-append, append_assoc, Outcome, ok,
  undefined, ◌>>=◌, ◌≡◌, refl, sym, ap, ◌∙◌, arith,
}
use mlir_rustc.Toml.Values.{
  TomlKind, TomlToken, token, bare, square_open, identifier, square_close, equals, string,
  brace_open, comma, brace_close, Pair, string_pair, array_pair, table_pair, Pairs, no_pair,
  one_pair, key_of, pair_tokens, sum_tokens, number_of_pairs, array_tokens,
}
use mlir_rustc.Toml.Parse
use mlir_rustc.Toml.Parse.Print.{
  print_elements, print_value, print_pairs, print_pair, IsFilled, AreFilled, IsFollowed,
  length-print_value, array_loop-print,
}

pub leb-true : (a b : ℕ) → a ≤ b → leb a b ≡ true
leb-true a b h = ground arith

pub ltb-true : (a b : ℕ) → a < b → ltb a b ≡ true
ltb-true a b h = ground arith

-- What stands in front is skipped.
pub subspan-append :
    (n : ℕ) (front rest : List TomlToken)
    → length front ≡ n
    → Parse.subspan n (front ++ rest) ≡ ok rest
unfolding Parse.subspan
subspan-append n front rest l =
    rw (leb-true n (length (front ++ rest)) (omega (arith, l, length-append front rest)))
      (ap ok (ap (λ n. drop n (front ++ rest)) (sym l) ∙ drop-append front rest))

pub subspan-print :
    (p : Pair) (rest : List TomlToken)
    → IsFilled p
    → Parse.subspan (pair_tokens p) (print_pair p ++ rest) ≡ ok rest
unfolding print_pair
subspan-print p rest h =
    subspan-append (pair_tokens p) (print_pair p) rest (omega (arith, length-print_value p h))

-- The pairs of an inline table, after those that were read before.
pub append_pairs : Pairs → Pairs → Pairs
append_pairs ps no_pair = ps
append_pairs ps (one_pair q qs) = append_pairs (Parse.add_pair ps q) qs

array-print :
    (key : Bytes) (s : Bytes) (ss : List Bytes) (t : TomlToken) (rest : List TomlToken)
    → Parse.try_parse_array (bare square_open ∷ print_elements (s ∷ ss) ++ t ∷ rest) ≡ some (s ∷ ss)
unfolding Parse.try_parse_array print_elements
array-print key s [] t rest = array_loop-print s [] [] t rest
array-print key s (u ∷ ss) t rest = array_loop-print s (u ∷ ss) [] t rest

pub join : Pairs → Pairs → Pairs
join no_pair qs = qs
join (one_pair p ps) qs = one_pair p (join ps qs)

join-add_pair :
    (ps : Pairs) (q : Pair) (qs : Pairs) → join (Parse.add_pair ps q) qs ≡ join ps (one_pair q qs)
unfolding join
join-add_pair no_pair q qs = refl
join-add_pair (one_pair p ps) q qs = ap (one_pair p) (join-add_pair ps q qs)

join-none : (ps : Pairs) → join ps no_pair ≡ ps
unfolding join
join-none no_pair = refl
join-none (one_pair p ps) = ap (one_pair p) (join-none ps)

append_pairs-join : (ps qs : Pairs) → append_pairs ps qs ≡ join ps qs
unfolding append_pairs
append_pairs-join ps no_pair = sym (join-none ps)
append_pairs-join ps (one_pair q qs) =
    append_pairs-join (Parse.add_pair ps q) qs ∙ join-add_pair ps q qs

append_pairs-none : (ps : Pairs) → append_pairs no_pair ps ≡ ps
unfolding join
append_pairs-none ps = append_pairs-join no_pair ps

IsFollowed-more : (p : Pair) (t : TomlToken) (rest : List TomlToken) → IsFollowed p (t ∷ rest)
IsFollowed-more (string_pair key s) t rest = tt
IsFollowed-more (array_pair key ss) t rest = omega arith
IsFollowed-more (table_pair key ps) t rest = tt

print_value-pos : (p : Pair) → 1 ≤ length (print_value p)
unfolding print_value
print_value-pos (string_pair key s) = omega arith
print_value-pos (array_pair key ss) = omega arith
print_value-pos (table_pair key ps) = omega arith

-- A round of the loop on a pair that another token follows.
inline_round-print :
    (f : ℕ) (acc : Pairs) (p : Pair) (t : TomlToken) (rest : List TomlToken)
    → IsFilled p
    → Parse.parse_pair (Parse.parse_inline (Parse.inline_loop f)) (print_pair p ++ t ∷ rest)
      ≡ ok (some p)
    → Parse.inline_loop (suc f) acc (print_pair p ++ t ∷ rest)
      ≡ Parse.after_pair (Parse.inline_loop f) (Parse.add_pair acc p) (t ∷ rest)
unfolding Parse.inline_loop print_pair
inline_round-print f acc p t rest h e =
    let l = ltb-true 3 (length (print_pair p ++ t ∷ rest)) (
      let n = length-append (print_value p) (t ∷ rest) in
      let m = print_value-pos p in omega (arith, n, m)) in
    rw (l, e, subspan-print p (t ∷ rest) h) refl

mutual
  unfolding print_pair print_value IsFilled append_pairs

  pub value-print :
      (f : ℕ) (p : Pair) (rest : List TomlToken)
      → IsFilled p
      → IsFollowed p rest
      → length (print_value p) ≤ f
      → Parse.parse_pair (Parse.parse_inline (Parse.inline_loop f)) (print_pair p ++ rest)
        ≡ ok (some p)
  value-print f (string_pair key s) rest h k l = refl
  value-print f (array_pair key []) rest h k l = absurd (omega (arith, h))
  value-print f (array_pair key (s ∷ ss)) [] h k l = absurd (omega (arith, k))
  value-print f (array_pair key (s ∷ ss)) (t ∷ rest) h k l = rw (array-print key s ss t rest) refl
  value-print f (table_pair key no_pair) rest h k l = absurd (omega (arith, h.0))
  value-print f (table_pair key (one_pair p no_pair)) rest h k l =
      rw
        (
          pairs-print f (one_pair p no_pair) no_pair rest h.0 h.1 (omega (arith, l)),
          append_pairs-none (one_pair p no_pair),
        )
        refl
  value-print f (table_pair key (one_pair p (one_pair q qs))) rest h k l =
      rw
        (
          pairs-print f (one_pair p (one_pair q qs)) no_pair rest h.0 h.1 (omega (arith, l)),
          append_pairs-none (one_pair p (one_pair q qs)),
        )
        refl

  pairs-print :
      (f : ℕ) (ps acc : Pairs) (rest : List TomlToken)
      → 0 < number_of_pairs ps
      → AreFilled ps
      → length (print_pairs ps) ≤ f
      → Parse.inline_loop f acc (print_pairs ps ++ rest) ≡ ok (some (append_pairs acc ps))
  pairs-print f no_pair acc rest n h l = absurd (omega (arith, n))
  pairs-print zero (one_pair p no_pair) acc rest n h l = absurd (omega (arith, l))
  pairs-print (suc f) (one_pair p no_pair) acc rest n h l =
      let more = bare brace_close ∷ rest in
      let m = length-append (print_value p) (bare brace_close ∷ []) in
      ap (Parse.inline_loop (suc f) acc) (
        ap (λ v. token identifier (key_of p) ∷ bare equals ∷ v)
          (append_assoc (print_value p) (bare brace_close ∷ []) rest))
      ∙ inline_round-print f acc p (bare brace_close) rest h.0 (
          value-print f p more h.0 (IsFollowed-more p (bare brace_close) rest)
            (omega (arith, l, m)))
  pairs-print zero (one_pair p (one_pair q qs)) acc rest n h l = absurd (omega (arith, l))
  pairs-print (suc f) (one_pair p (one_pair q qs)) acc rest n h l =
      let next = print_pairs (one_pair q qs) in
      let more = bare comma ∷ (next ++ rest) in
      let m = length-append (print_value p) (bare comma ∷ next) in
      ap (Parse.inline_loop (suc f) acc) (
        ap (λ v. token identifier (key_of p) ∷ bare equals ∷ v)
          (append_assoc (print_value p) (bare comma ∷ next) rest))
      ∙ inline_round-print f acc p (bare comma) (next ++ rest) h.0 (
          value-print f p more h.0 (IsFollowed-more p (bare comma) (next ++ rest))
            (omega (arith, l, m)))
      ∙ pairs-print f (one_pair q qs) (Parse.add_pair acc p) rest (omega arith) h.1
          (omega (arith, l, m))
