-- ===== src/TyTy/Compare.antt =====
-- code/include/TyCtx/Compare.h, one definition for each of its classes, and the `canEqual` members of
-- code/TyCtx/TyTy.cpp that call them.
pub mod Classes
pub mod Returns
pub mod Reflexive
pub mod Rigid
pub mod Inference
use mlir_rustc.Prelude.{
  ℕ, zero, suc, Bool, true, false, ◌||◌, ◌==◌, ◌&&◌, if◌then◌else◌, List, [], ◌∷◌, Bytes, equal,
  Outcome, ok, aborted, undefined, ◌and_then◌,
}
use mlir_rustc.TyTy.Types.{
  Ty, bool, char, usize, isize, never, str, error, place_holder, int, uint, float, inferred,
  parameter, dynamic, array, slice, projection, raw_pointer, reference, tuple, function,
  function_pointer, closure, adt, Tys, nil, cons, Variants, no_variant, variant, Fields, no_field,
  null_field, field, InferKind, integral, any_float, general, IntKind, UintKind, FloatKind, AdtKind,
  int_value, uint_value, float_value, adt_value, is_general, no_float, no_integral, number_of_types,
  number_of_variants, same_fields,
}

abbrev pub int_cmp : IntKind → Ty → Outcome Bool
int_cmp k (int j) = ok (int_value k == int_value j)
int_cmp k (inferred i) = ok (no_float i)
int_cmp k _ = ok false

abbrev pub uint_cmp : UintKind → Ty → Outcome Bool
uint_cmp k (uint j) = ok (uint_value k == uint_value j)
uint_cmp k (inferred i) = ok (no_float i)
uint_cmp k _ = ok false

abbrev pub float_cmp : FloatKind → Ty → Outcome Bool
float_cmp k (float j) = ok (float_value k == float_value j)
float_cmp k (inferred i) = ok (no_integral i)
float_cmp k _ = ok false

abbrev pub usize_cmp : Ty → Outcome Bool
usize_cmp usize = ok true
usize_cmp (inferred i) = ok (no_float i)
usize_cmp _ = ok false

abbrev pub isize_cmp : Ty → Outcome Bool
isize_cmp isize = ok true
isize_cmp (inferred i) = ok (no_float i)
isize_cmp _ = ok false

abbrev pub char_cmp : Ty → Outcome Bool
char_cmp char = ok true
char_cmp (inferred i) = ok (is_general i)
char_cmp _ = ok false

abbrev pub bool_cmp : Ty → Outcome Bool
bool_cmp bool = ok true
bool_cmp (inferred i) = ok (is_general i)
bool_cmp _ = ok false

abbrev pub str_cmp : Ty → Outcome Bool
str_cmp str = ok true
str_cmp (inferred i) = ok (is_general i)
str_cmp _ = ok false

abbrev pub never_cmp : Ty → Outcome Bool
never_cmp never = ok true
never_cmp (inferred i) = ok (is_general i)
never_cmp _ = ok false

-- `ErrorType::canEqual` compares the kinds.
abbrev pub error_cmp : Ty → Outcome Bool
error_cmp error = ok true
error_cmp _ = ok false

-- A placeholder is cast to a parameter, which it is not.
abbrev pub param_cmp : Bytes → Ty → Outcome Bool
param_cmp symbol place_holder = undefined
param_cmp symbol _ = ok true

-- A placeholder is cast to an inference variable, which it is not.
abbrev pub placeholder_cmp : Ty → Outcome Bool
placeholder_cmp place_holder = undefined
placeholder_cmp (inferred i) = ok (is_general i)
placeholder_cmp _ = ok true

-- The inner switch on the kind of the variable itself.
abbrev pub infer_infer : InferKind → Bool
infer_infer general = true
infer_infer integral = true
infer_infer any_float = true

abbrev pub infer_cmp : InferKind → Ty → Outcome Bool
infer_cmp k (float _) = ok (no_integral k)
infer_cmp k (int _) = ok (no_float k)
infer_cmp k (uint _) = ok (no_float k)
infer_cmp k usize = ok (no_float k)
infer_cmp k isize = ok (no_float k)
infer_cmp k str = ok false
infer_cmp k error = ok false
infer_cmp k (function_pointer _ _) = ok false
infer_cmp k (projection _) = ok false
infer_cmp k (function _ _) = ok false
infer_cmp k place_holder = ok (infer_infer k)
infer_cmp k (inferred _) = ok (infer_infer k)
infer_cmp k (parameter _) = ok true
infer_cmp k never = ok true
infer_cmp k _ = ok (is_general k)

-- `BaseType::boundsCompatible`, where `satisfiesBound` is `assert(false)`.
abbrev pub bounds_compatible : List ℕ → Outcome Bool
bounds_compatible [] = ok (0 == 1)
bounds_compatible (_ ∷ _) = aborted

-- `DynamicObjectType::getNumberOfSpecifiedBounds` is 0 for both sides.
abbrev pub dynamic_cmp : List ℕ → Ty → Outcome Bool
dynamic_cmp bounds (dynamic _) = bounds_compatible bounds
dynamic_cmp bounds _ = ok false

-- The classes of the types that hold others take the comparison of their parts as a function.

abbrev pub reference_cmp : Bool → (Ty → Outcome Bool) → Ty → Outcome Bool
reference_cmp mut base (reference mut' t) = elim mut [
  | true ↦ elim mut' [ true ↦ base t | false ↦ ok false ]
  | false ↦ elim mut' [ true ↦ ok false | false ↦ base t ]
]
reference_cmp mut base (inferred i) = ok (is_general i)
reference_cmp mut base _ = ok false

abbrev pub raw_pointer_cmp : Bool → (Ty → Outcome Bool) → Ty → Outcome Bool
raw_pointer_cmp mut base (raw_pointer mut' t) = elim mut [
  | true ↦ elim mut' [ true ↦ base t | false ↦ ok false ]
  | false ↦ elim mut' [ true ↦ ok false | false ↦ base t ]
]
raw_pointer_cmp mut base (inferred i) = ok (is_general i)
raw_pointer_cmp mut base _ = ok false

abbrev pub array_cmp : (Ty → Outcome Bool) → Ty → Outcome Bool
array_cmp element (array t) = element t
array_cmp element (inferred i) = ok (is_general i)
array_cmp element _ = ok false

abbrev pub slice_cmp : (Ty → Outcome Bool) → Ty → Outcome Bool
slice_cmp element (slice t) = element t
slice_cmp element (inferred i) = ok (is_general i)
slice_cmp element _ = ok false

-- `visitTuple`: the numbers of fields, then the loop.
abbrev pub visit_tuple : ℕ → (Tys → Outcome Bool) → Tys → Outcome Bool
visit_tuple fields loop other = ok (fields == number_of_types other) and_then loop other

abbrev pub tuple_cmp : ℕ → (Tys → Outcome Bool) → Ty → Outcome Bool
tuple_cmp fields loop (tuple other) = visit_tuple fields loop other
tuple_cmp fields loop (inferred i) = ok (no_integral i)
tuple_cmp fields loop _ = ok false

-- `visitFunction` and `visitFunctionPointer`.
abbrev pub visit_function : ℕ → (Tys → Outcome Bool) → (Ty → Outcome Bool) → Tys → Ty → Outcome Bool
visit_function arguments loop result other_arguments other_result =
    ok (arguments == number_of_types other_arguments)
    and_then loop other_arguments
    and_then result other_result

abbrev pub function_cmp : ℕ → (Tys → Outcome Bool) → (Ty → Outcome Bool) → Ty → Outcome Bool
function_cmp arguments loop result (function ts t) = visit_function arguments loop result ts t
function_cmp arguments loop result (inferred i) = ok (is_general i)
function_cmp arguments loop result _ = ok false

abbrev pub function_pointer_cmp : ℕ → (Tys → Outcome Bool) → (Ty → Outcome Bool) → Ty → Outcome Bool
function_pointer_cmp arguments loop result (function ts t) =
    visit_function arguments loop result ts t
function_pointer_cmp arguments loop result (function_pointer ts t) =
    visit_function arguments loop result ts t
function_pointer_cmp arguments loop result (inferred i) = ok (is_general i)
function_pointer_cmp arguments loop result _ = ok false

abbrev pub closure_cmp : ℕ → ℕ → (Tys → Outcome Bool) → (Ty → Outcome Bool) → Ty → Outcome Bool
closure_cmp type_reference fields loop result (closure id ts t) =
    ok (type_reference == id) and_then visit_tuple fields loop ts and_then result t
closure_cmp type_reference fields loop result (inferred i) = ok (is_general i)
closure_cmp type_reference fields loop result _ = ok false

-- `visitADT`: kind, identifier and number of variants, then the loop over the variants.
abbrev pub adt_cmp : AdtKind → Bytes → ℕ → (Variants → Outcome Bool) → Ty → Outcome Bool
adt_cmp kind identifier variants loop (adt kind' identifier' other) =
    ok (adt_value kind == adt_value kind')
    and_then ok (equal identifier identifier')
    and_then ok (variants == number_of_variants other)
    and_then loop other
adt_cmp kind identifier variants loop (inferred i) = ok (is_general i)
adt_cmp kind identifier variants loop _ = ok false

unfoldable mutual
  unfolding equal

  pub can_equal : Ty → Ty → Outcome Bool
  can_equal bool other = bool_cmp other
  can_equal char other = char_cmp other
  can_equal usize other = usize_cmp other
  can_equal isize other = isize_cmp other
  can_equal never other = never_cmp other
  can_equal str other = str_cmp other
  can_equal error other = error_cmp other
  can_equal place_holder other = placeholder_cmp other
  can_equal (int k) other = int_cmp k other
  can_equal (uint k) other = uint_cmp k other
  can_equal (float k) other = float_cmp k other
  can_equal (inferred k) other = infer_cmp k other
  can_equal (parameter symbol) other = param_cmp symbol other
  can_equal (dynamic bounds) other = dynamic_cmp bounds other
  can_equal (array t) other = array_cmp (can_equal t) other
  can_equal (slice t) other = slice_cmp (can_equal t) other
  can_equal (projection t) other = can_equal t other
  can_equal (raw_pointer mut t) other = raw_pointer_cmp mut (can_equal t) other
  can_equal (reference mut t) other = reference_cmp mut (can_equal t) other
  can_equal (tuple ts) other = tuple_cmp (number_of_types ts) (tuple_loop ts) other
  can_equal (function ts t) other =
      function_cmp (number_of_types ts) (arguments_loop ts) (can_equal t) other
  can_equal (function_pointer ts t) other =
      function_pointer_cmp (number_of_types ts) (arguments_loop ts) (can_equal t) other
  can_equal (closure id ts t) other =
      closure_cmp id (number_of_types ts) (tuple_loop ts) (can_equal t) other
  can_equal (adt kind identifier vs) other =
      adt_cmp kind identifier (number_of_variants vs) (variants_loop vs) other

  -- The loop of `TupleCmp::visitTuple` returns in its first round.
  pub tuple_loop : Tys → Tys → Outcome Bool
  tuple_loop nil other = ok true
  tuple_loop (cons t ts) (cons u us) = can_equal t u
  tuple_loop (cons t ts) nil = undefined

  pub arguments_loop : Tys → Tys → Outcome Bool
  arguments_loop nil nil = ok true
  arguments_loop (cons t ts) (cons u us) = can_equal t u and_then arguments_loop ts us
  arguments_loop _ _ = undefined

  pub variants_loop : Variants → Variants → Outcome Bool
  variants_loop no_variant no_variant = ok true
  variants_loop (variant fs vs) (variant gs ws) =
      ok (same_fields fs gs) and_then fields_loop fs gs and_then variants_loop vs ws
  variants_loop _ _ = undefined

  pub fields_loop : Fields → Fields → Outcome Bool
  fields_loop no_field other = ok true
  fields_loop (null_field fs) other = ok false
  fields_loop (field p t fs) (field q u gs) = can_equal t u and_then fields_loop fs gs
  fields_loop (field p t fs) (null_field gs) = ok false
  fields_loop (field p t fs) no_field = undefined
