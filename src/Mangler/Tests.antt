-- ===== src/Mangler/Tests.antt =====
-- Runs of the mangler.
use mlir_rustc.Prelude.{true, false, [], ◌∷◌, some, Bytes, codes, equal, ok, undefined, ◌≡◌, refl}
use mlir_rustc.Mangler.Digits.{to_base62}
use mlir_rustc.Mangler.Digits.RoundTrip.{from_base62, from_base62-to_base62}
use mlir_rustc.Mangler.Mangle.{
  counters, identifier, TypeExpression, type_path, never_type, reference_type, array_type, segment,
  no_segment, no_generics, module_item, function_item, mangle_type, mangle,
}

abbrev named : Bytes → TypeExpression
named id = type_path (segment (identifier id) no_generics false no_segment)

base62_100 : to_base62 100 ≡ codes "1C"
unfolding to_base62
base62_100 = refl

from_base62-to_base62_example : from_base62 (to_base62 3844) ≡ some 3844
from_base62-to_base62_example = from_base62-to_base62 3844

array_symbol :
    mangle_type (array_type (reference_type true false (named (codes "u8"))) 16) counters
    ≡ ok (codes "AQh10_", counters)
unfolding mangle_type equal
array_symbol = refl

never_symbol : mangle_type never_type counters ≡ undefined
unfolding mangle_type
never_symbol = refl

twice :
    mangle (module_item (codes "m") ∷ function_item (codes "f") ∷ []) (codes "c") counters
    ≡ ok (codes "_R0NvNtC1csau1_msbu1_f$rust_compiler", record counters { disambiguator = 12 })
unfolding mangle
twice = refl

-- The same path once more has another symbol.
again :
    mangle
      (module_item (codes "m") ∷ function_item (codes "f") ∷ [])
      (codes "c")
      (record counters { disambiguator = 12 })
    ≡ ok (codes "_R0NvNtC1cscu1_msdu1_f$rust_compiler", record counters { disambiguator = 14 })
unfolding mangle
again = refl
