-- ===== src/Mangler/Basic.antt =====
-- `tryBasicType`: the letters of the basic types.
pub mod Letters
use mlir_rustc.Prelude.{
  ℕ, Bool, if◌then◌else◌, List, [], ◌∷◌, Option, none, some, Bytes, codes, equal,
}

-- The chain of comparisons, in its order.
abbrev pub basic_types : List (Bytes × ℕ)
basic_types =
    (codes "i8", b'a')
    ∷ (codes "bool", b'b')
    ∷ (codes "char", b'c')
    ∷ (codes "f64", b'd')
    ∷ (codes "str", b'e')
    ∷ (codes "f32", b'f')
    ∷ (codes "u8", b'h')
    ∷ (codes "isize", b'i')
    ∷ (codes "usize", b'j')
    ∷ (codes "i32", b'l')
    ∷ (codes "u32", b'm')
    ∷ (codes "i128", b'n')
    ∷ (codes "u128", b'o')
    ∷ (codes "i16", b's')
    ∷ (codes "u16", b't')
    ∷ (codes "()", b'u')
    ∷ (codes "...", b'v')
    ∷ (codes "i64", b'x')
    ∷ (codes "u64", b'y')
    ∷ (codes "!", b'z')
    ∷ (codes "_", b'p')
    ∷ []

unfoldable pub find_basic : Bytes → List (Bytes × ℕ) → Option ℕ
unfolding equal
find_basic id [] = none
find_basic id ((name, c) ∷ rest) =
    let more = find_basic id rest in if equal id name then some c else more

unfoldable pub basic_type : Bytes → Option ℕ
unfolding find_basic
basic_type id = find_basic id basic_types
