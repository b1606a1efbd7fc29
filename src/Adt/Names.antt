-- ===== src/Adt/Names.antt =====
-- code/include/ADT/Utf8String.h, code/ADT/Utf8String.cpp and code/include/Lexer/Identifier.h, which
-- passes the same operations on: a name is the list of its code points.
pub mod Order
use mlir_rustc.Prelude.{
  ℕ, Bool, true, false, ◌&&◌, ◌==◌, ltb, if◌then◌else◌, List, [], ◌∷◌, ◌++◌, length, Bytes, Outcome,
  ok, aborted, ◌>>=◌,
}

abbrev pub Name : Type 0
Name = List ℕ

-- The loop of `operator==`, which runs on storages of one size.
unfoldable pub equal_loop : Name → Name → Bool
equal_loop (c ∷ a) (d ∷ b) = let rest = equal_loop a b in if c == d then rest else false
equal_loop _ _ = true

unfoldable pub name_equal : Name → Name → Bool
unfolding equal_loop
name_equal a b = if length a == length b then equal_loop a b else false

-- The loop of `operator<`, which runs on storages of one size.
unfoldable pub less_loop : Name → Name → Bool
less_loop (c ∷ a) (d ∷ b) = let rest = less_loop a b in if ltb c d then true else rest
less_loop _ _ = false

unfoldable pub name_less : Name → Name → Bool
unfolding less_loop
name_less a b =
    if ltb (length b) (length a)
    then false
    else if ltb (length a) (length b)
    then true
    else less_loop a b

unfoldable pub is_ascii : Name → Bool
is_ascii [] = true
is_ascii (c ∷ a) = let rest = is_ascii a in if ltb 127 c then false else rest

-- `toString`: a code point above 127 fails the assertion.
unfoldable pub to_string : Name → Outcome Bytes
to_string [] = ok []
to_string (c ∷ a) =
    let rest = to_string a >>= λ s. ok (c ∷ s) in if ltb 127 c then aborted else rest
