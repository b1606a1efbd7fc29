-- ===== src/Mangler/Basic/Letters.antt =====
-- The basic types and the letters that version 0 of the mangling scheme of Rust gives them.
use mathlib.Core.Path.{subst}
use mlir_rustc.Prelude.{
  ℕ, Bool, true, false, ◌==◌, if◌then◌else◌, List, [], ◌∷◌, Option, none, some, Bytes, codes, equal,
  equal_iff, all, ◌≡◌, refl, sym, ap, ◌∙◌, Bool-cases, inl, inr, arith,
}
use mlir_rustc.Mangler.Basic.{basic_types, find_basic, basic_type}

-- The basic type of a letter.
abbrev pub type_of_letter : ℕ → Option Bytes
type_of_letter c =
    if c == b'a'
    then some (codes "i8")
    else if c == b'b'
    then some (codes "bool")
    else if c == b'c'
    then some (codes "char")
    else if c == b'd'
    then some (codes "f64")
    else if c == b'e'
    then some (codes "str")
    else if c == b'f'
    then some (codes "f32")
    else if c == b'h'
    then some (codes "u8")
    else if c == b'i'
    then some (codes "isize")
    else if c == b'j'
    then some (codes "usize")
    else if c == b'l'
    then some (codes "i32")
    else if c == b'm'
    then some (codes "u32")
    else if c == b'n'
    then some (codes "i128")
    else if c == b'o'
    then some (codes "u128")
    else if c == b'p'
    then some (codes "_")
    else if c == b's'
    then some (codes "i16")
    else if c == b't'
    then some (codes "u16")
    else if c == b'u'
    then some (codes "()")
    else if c == b'v'
    then some (codes "...")
    else if c == b'x'
    then some (codes "i64")
    else if c == b'y'
    then some (codes "u64")
    else if c == b'z'
    then some (codes "!")
    else none

is_named : Option Bytes → Bytes → Bool
unfolding equal
is_named none name = false
is_named (some n) name = equal n name

is_named_lem : (o : Option Bytes) (name : Bytes) → is_named o name ≡ true → o ≡ some name
unfolding is_named
is_named_lem none name h = cc
is_named_lem (some n) name h = ap some ((equal_iff n name).0 h)

-- A test that holds of every entry holds of the one that is found.
found_named :
    (id : Bytes) (c : ℕ) (entries : List (Bytes × ℕ))
    → all (λ e. is_named (type_of_letter e.1) e.0) entries ≡ true
    → find_basic id entries ≡ some c
    → type_of_letter c ≡ some id
unfolding find_basic
found_named id c [] h e = cc
found_named id c ((name, d) ∷ rest) h e = elim (Bool-cases (equal id name)) [
  | inl q ↦
      (let p = subst (λ b. (if b then some d else find_basic id rest) ≡ some c) q e in
        let n = (equal_iff id name).0 q in
        let m = is_named_lem (type_of_letter d) name (ground (arith, h)) in
        let same : d ≡ c = cc in subst (λ k. type_of_letter k ≡ some id) same (m ∙ ap some (sym n)))
  | inr q ↦
      found_named id c rest (ground (arith, h))
        (subst (λ b. (if b then some d else find_basic id rest) ≡ some c) q e)
]

-- The letter that a basic type is mangled to names that type, and no other.
pub type_of_letter-basic_type :
    (id : Bytes) (c : ℕ) → basic_type id ≡ some c → type_of_letter c ≡ some id
unfolding basic_type is_named
type_of_letter-basic_type id c e = found_named id c basic_types refl e
