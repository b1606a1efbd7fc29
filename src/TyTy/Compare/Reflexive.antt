-- ===== src/TyTy/Compare/Reflexive.antt =====
-- `canEqual` between a type and itself.
use mlir_rustc.Prelude.{
  ℕ, true, false, ◌==◌, ◌≡◌, refl, ap, arith, equal_refl, ok, ◌and_then◌, ==_iff, and_then-true,
}
use mlir_rustc.TyTy.Types.{
  Ty, bool, char, usize, isize, never, str, error, place_holder, int, uint, float, inferred,
  parameter, dynamic, array, slice, projection, raw_pointer, reference, tuple, function,
  function_pointer, closure, adt, Tys, nil, cons, Variants, no_variant, variant, Fields, no_field,
  null_field, field, integral, any_float, general, int_value, uint_value, float_value, adt_value,
  number_of_types, number_of_variants, same_fields,
}
use mlir_rustc.TyTy.Compare.{can_equal, tuple_loop, arguments_loop, variants_loop, fields_loop}
use mlir_rustc.TyTy.Compare.Classes.{Plain, AllPlain, VariantsPlain, FieldsPlain}

==_refl : (n : ℕ) → ok (n == n) ≡ ok true
==_refl n = ap ok ((==_iff n n).1 refl)

same_fields_refl : (fs : Fields) → same_fields fs fs ≡ true
same_fields_refl no_field = refl
same_fields_refl (null_field fs) = same_fields_refl fs
same_fields_refl (field p t fs) = ground (arith, same_fields_refl fs)

mutual
  unfolding can_equal Plain

  type_refl : (t : Ty) → Plain t → can_equal t t ≡ ok true
  type_refl bool h = refl
  type_refl char h = refl
  type_refl usize h = refl
  type_refl isize h = refl
  type_refl never h = refl
  type_refl str h = refl
  type_refl error h = refl
  type_refl place_holder h = absurd h
  type_refl (int k) h = ==_refl (int_value k)
  type_refl (uint k) h = ==_refl (uint_value k)
  type_refl (float k) h = ==_refl (float_value k)
  type_refl (inferred integral) h = refl
  type_refl (inferred any_float) h = refl
  type_refl (inferred general) h = refl
  type_refl (parameter s) h = refl
  type_refl (dynamic b) h = absurd h
  type_refl (array t) h = type_refl t h
  type_refl (slice t) h = type_refl t h
  type_refl (projection t) h = absurd h
  type_refl (raw_pointer true t) h = type_refl t h
  type_refl (raw_pointer false t) h = type_refl t h
  type_refl (reference true t) h = type_refl t h
  type_refl (reference false t) h = type_refl t h
  type_refl (tuple ts) h =
      and_then-true (ok (number_of_types ts == number_of_types ts)) (tuple_loop ts ts) (==_refl _)
        (tuple_loop_refl ts h)
  type_refl (function ts t) h =
      and_then-true (ok (number_of_types ts == number_of_types ts)) _ (==_refl _)
        (and_then-true (arguments_loop ts ts) _ (arguments_loop_refl ts h.0) (type_refl t h.1))
  type_refl (function_pointer ts t) h =
      and_then-true (ok (number_of_types ts == number_of_types ts)) _ (==_refl _)
        (and_then-true (arguments_loop ts ts) _ (arguments_loop_refl ts h.0) (type_refl t h.1))
  type_refl (closure id ts t) h = and_then-true (ok (id == id)) _ (==_refl id) (
      and_then-true (ok (number_of_types ts == number_of_types ts) and_then tuple_loop ts ts) _
        (and_then-true (ok (number_of_types ts == number_of_types ts)) (tuple_loop ts ts)
          (==_refl _) (tuple_loop_refl ts h.0))
        (type_refl t h.1))
  type_refl (adt kind name vs) h =
      and_then-true (ok (adt_value kind == adt_value kind)) _ (==_refl _) (
        and_then-true _ _ (ap ok (equal_refl name)) (
          and_then-true (ok (number_of_variants vs == number_of_variants vs)) (variants_loop vs vs)
            (==_refl _) (variants_loop_refl vs h)))

  tuple_loop_refl : (ts : Tys) → AllPlain ts → tuple_loop ts ts ≡ ok true
  tuple_loop_refl nil h = refl
  tuple_loop_refl (cons t ts) h = type_refl t h.0

  arguments_loop_refl : (ts : Tys) → AllPlain ts → arguments_loop ts ts ≡ ok true
  arguments_loop_refl nil h = refl
  arguments_loop_refl (cons t ts) h =
      and_then-true (can_equal t t) _ (type_refl t h.0) (arguments_loop_refl ts h.1)

  variants_loop_refl : (vs : Variants) → VariantsPlain vs → variants_loop vs vs ≡ ok true
  variants_loop_refl no_variant h = refl
  variants_loop_refl (variant fs vs) h =
      and_then-true (ok (same_fields fs fs)) _ (ap ok (same_fields_refl fs))
        (and_then-true (fields_loop fs fs) _ (fields_loop_refl fs h.0) (variants_loop_refl vs h.1))

  fields_loop_refl : (fs : Fields) → FieldsPlain fs → fields_loop fs fs ≡ ok true
  fields_loop_refl no_field h = refl
  fields_loop_refl (null_field fs) h = absurd h
  fields_loop_refl (field p t fs) h =
      and_then-true (can_equal t t) _ (type_refl t h.0) (fields_loop_refl fs h.1)

-- A plain type, one without placeholders, dynamic objects, projections and null fields, can equal
-- itself.
pub can_equal_refl : (t : Ty) → Plain t → can_equal t t ≡ ok true
can_equal_refl t h = type_refl t h
