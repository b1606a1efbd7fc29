-- ===== src/Toml/Parse/Print.antt =====
-- The tokens of a document, and how values of pairs are read from them.
use mlir_rustc.Prelude.{
  ◌+◌, ◌*◌, ◌<◌, List, [], ◌∷◌, ◌++◌, some, Bytes, length, length-append, append_assoc, ◌≡◌, refl,
  ap, ◌∙◌, arith,
}
use mlir_rustc.Toml.Values.{
  TomlToken, token, bare, square_open, identifier, square_close, equals, string, brace_open, comma,
  brace_close, Pair, string_pair, array_pair, table_pair, Pairs, no_pair, one_pair, key_of,
  pair_tokens, sum_tokens, number_of_pairs,
}
use mlir_rustc.Toml.Parse

unfoldable pub print_elements : List Bytes → List TomlToken
print_elements [] = bare square_close ∷ []
print_elements (s ∷ []) = token string s ∷ bare square_close ∷ []
print_elements (s ∷ t ∷ ss) = token string s ∷ bare comma ∷ print_elements (t ∷ ss)

unfoldable mutual
  unfolding print_elements

  pub print_value : Pair → List TomlToken
  print_value (string_pair _ s) = token string s ∷ []
  print_value (array_pair _ ss) = bare square_open ∷ print_elements ss
  print_value (table_pair _ ps) = bare brace_open ∷ print_pairs ps

  -- The pairs of an inline table, with the brace that closes it.
  pub print_pairs : Pairs → List TomlToken
  print_pairs no_pair = bare brace_close ∷ []
  print_pairs (one_pair p no_pair) =
      token identifier (key_of p) ∷ bare equals ∷ (print_value p ++ bare brace_close ∷ [])
  print_pairs (one_pair p (one_pair q qs)) =
      token identifier (key_of p)
      ∷ bare equals
      ∷ (print_value p ++ bare comma ∷ print_pairs (one_pair q qs))

unfoldable pub print_pair : Pair → List TomlToken
unfolding print_value
print_pair p = token identifier (key_of p) ∷ bare equals ∷ print_value p

unfoldable mutual
  -- No array and no inline table of the pair is empty.
  pub IsFilled : Pair → Type 0
  IsFilled (string_pair _ _) = Unit
  IsFilled (array_pair _ ss) = 0 < length ss
  IsFilled (table_pair _ ps) = (0 < number_of_pairs ps) × AreFilled ps

  pub AreFilled : Pairs → Type 0
  AreFilled no_pair = Unit
  AreFilled (one_pair p ps) = IsFilled p × AreFilled ps

-- An array is read only where another token follows it.
abbrev pub IsFollowed : Pair → List TomlToken → Type 0
IsFollowed (array_pair _ _) rest = 0 < length rest
IsFollowed _ rest = Unit

length-print_elements :
    (s : Bytes) (ss : List Bytes) → length (print_elements (s ∷ ss)) ≡ 2 * length (s ∷ ss)
unfolding print_elements
length-print_elements s [] = refl
length-print_elements s (t ∷ ss) = omega (arith, length-print_elements t ss)

mutual
  unfolding print_value IsFilled pair_tokens

  -- `getNrOfTokens` is the number of tokens, where nothing is empty.
  pub length-print_value : (p : Pair) → IsFilled p → length (print_value p) + 2 ≡ pair_tokens p
  length-print_value (string_pair key s) h = refl
  length-print_value (array_pair key []) h = absurd (omega (arith, h))
  length-print_value (array_pair key (s ∷ ss)) h = omega (arith, length-print_elements s ss)
  length-print_value (table_pair key ps) h = omega (arith, h.0, length-print_pairs ps h.0 h.1)

  length-print_pairs :
      (ps : Pairs)
      → 0 < number_of_pairs ps
      → AreFilled ps
      → length (print_pairs ps) ≡ sum_tokens ps + number_of_pairs ps
  length-print_pairs no_pair n h = absurd (omega (arith, n))
  length-print_pairs (one_pair p no_pair) n h =
      omega (arith, length-append (print_value p) (bare brace_close ∷ []), length-print_value p h.0)
  length-print_pairs (one_pair p (one_pair q qs)) n h = omega (
    arith,
    length-append (print_value p) (bare comma ∷ print_pairs (one_pair q qs)),
    length-print_value p h.0,
    length-print_pairs (one_pair q qs) (omega arith) h.1,
  )

pub array_loop-print :
    (s : Bytes) (ss acc : List Bytes) (t : TomlToken) (rest : List TomlToken)
    → Parse.array_loop acc (print_elements (s ∷ ss) ++ t ∷ rest) ≡ some (acc ++ s ∷ ss)
unfolding print_elements Parse.array_loop
array_loop-print s [] acc t rest = refl
array_loop-print s (u ∷ []) acc t rest = ap some (append_assoc acc (s ∷ []) (u ∷ []))
array_loop-print s (u ∷ v ∷ ss) acc t rest =
    array_loop-print u (v ∷ ss) (acc ++ s ∷ []) t rest
    ∙ ap some (append_assoc acc (s ∷ []) (u ∷ v ∷ ss))
