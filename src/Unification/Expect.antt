-- ===== src/Unification/Expect.antt =====
-- The members `expect...` of `Unification`: what a left type and a right type unify to. They are
-- given `clone` and `unifyWithSite`, at addresses. A left type that is an ADT, and a right type of a
-- kind that no shape stands for, are left out.
pub mod Steady
use mlir_rustc.Prelude.{
  ℕ, Bool, true, false, not, ◌==◌, ◌||◌, if◌then◌else◌, List, [], ◌∷◌, Option, none, some, length,
  ok,
}
use mlir_rustc.TyTy.Types.{
  InferKind, integral, any_float, general, IntKind, UintKind, int_value, uint_value, is_general,
  no_float, no_integral,
}
use mlir_rustc.Unification.Store.{
  BaseType, Shape, bool_type, char_type, usize_type, isize_type, never_type, str_type, error_type,
  int_type, uint_type, float_type, infer_type, tuple_type, array_type, slice_type, raw_pointer_type,
  reference_type, new_type, error_object,
}
use mlir_rustc.Unification.Store.Commands.{
  Command, pure, abort, ◌>>=◌, ◌>>◌, load, alloc, apply_scalar_type_hint, get_type, type_variable,
  is_error,
}

-- `return new ErrorType(0)`
unfoldable pub failure : Command ℕ
unfolding alloc
failure = alloc error_object

-- Two variables: whether the result is a clone of the right one.
abbrev pub infer_meets : InferKind → InferKind → Bool
infer_meets integral j = no_float j
infer_meets any_float j = no_integral j
infer_meets general j = true

-- The right type is an object `r` at `b`, with its shape apart; the left type is at `a`.
module _ (copy : ℕ → Command ℕ) (site : ℕ → ℕ → Command ℕ) where
  -- A variable on the right takes the hint, and the result is a clone of the left type.
  unfoldable pub hint_right : ℕ → ℕ → Shape → Command ℕ
  unfolding apply_scalar_type_hint
  hint_right a b hint = do apply_scalar_type_hint b hint; copy a

  unfoldable pub hint_left : ℕ → ℕ → Shape → Command ℕ
  unfolding apply_scalar_type_hint
  hint_left a b hint = do apply_scalar_type_hint a hint; copy b

  abbrev pub expect_int_type : ℕ → IntKind → ℕ → BaseType → Shape → Command ℕ
  expect_int_type a k b r (int_type j) =
      if int_value j == int_value k
      then alloc (new_type (int_type j) r.reference r.type_reference)
      else failure
  expect_int_type a k b r (infer_type i h) =
      if no_float i then hint_right a b (int_type k) else failure
  expect_int_type a k b r _ = failure

  abbrev pub expect_uint : ℕ → UintKind → ℕ → BaseType → Shape → Command ℕ
  expect_uint a k b r (infer_type i h) =
      if no_float i then hint_right a b (uint_type k) else failure
  expect_uint a k b r (uint_type j) =
      if uint_value k == uint_value j
      then alloc (new_type (uint_type j) r.reference r.type_reference)
      else failure
  expect_uint a k b r _ = failure

  abbrev pub expect_usize_type : ℕ → ℕ → Shape → Command ℕ
  expect_usize_type a b (infer_type i h) = if no_float i then hint_right a b usize_type else abort
  expect_usize_type a b usize_type = copy b
  expect_usize_type a b _ = failure

  abbrev pub expect_isize_type : ℕ → ℕ → Shape → Command ℕ
  expect_isize_type a b (infer_type i h) = if no_float i then hint_right a b isize_type else abort
  expect_isize_type a b isize_type = copy b
  expect_isize_type a b _ = failure

  abbrev pub expect_str : ℕ → ℕ → Shape → Command ℕ
  expect_str a b (infer_type i h) = if is_general i then copy a else failure
  expect_str a b str_type = copy b
  expect_str a b _ = failure

  abbrev pub expect_never : ℕ → ℕ → Shape → Command ℕ
  expect_never a b (infer_type i h) = if is_general i then copy a else failure
  expect_never a b usize_type = copy b
  expect_never a b bool_type = copy b
  expect_never a b char_type = copy b
  expect_never a b (int_type _) = copy b
  expect_never a b isize_type = copy b
  expect_never a b (float_type _) = copy b
  expect_never a b never_type = copy b
  expect_never a b _ = failure

  abbrev pub expect_inference_variable : ℕ → InferKind → ℕ → Shape → Command ℕ
  expect_inference_variable a k b (infer_type j _) = if infer_meets k j then copy b else failure
  expect_inference_variable a k b (int_type i) =
      if no_float k then hint_left a b (int_type i) else failure
  expect_inference_variable a k b (uint_type u) =
      if no_float k then hint_left a b (uint_type u) else failure
  expect_inference_variable a k b usize_type =
      if no_float k then hint_left a b usize_type else failure
  expect_inference_variable a k b isize_type =
      if no_float k then hint_left a b isize_type else failure
  expect_inference_variable a k b (float_type f) =
      if no_integral k then hint_left a b (float_type f) else failure
  expect_inference_variable a k b error_type = failure
  expect_inference_variable a k b _ = if is_general k then copy b else failure

  abbrev pub some_variable : ℕ → Bool → Command (Option ℕ)
  some_variable u true = pure none
  some_variable u false = do id ← type_variable u; pure (some id)

  -- `unifyWithSite` of the types of two variables: none where the result is an error, else a
  -- variable with the reference of the result.
  unfoldable pub unify_variables : ℕ → ℕ → Command (Option ℕ)
  unfolding get_type is_error type_variable
  unify_variables i j = do
    x ← get_type i
    y ← get_type j
    u ← site x y
    failed ← is_error u
    some_variable u failed

  abbrev pub with_field : ℕ → Option (List ℕ) → Option (List ℕ)
  with_field id none = none
  with_field id (some ids) = some (id ∷ ids)

  -- The rest of the loop, unless the field failed.
  abbrev pub after_field : Command (Option (List ℕ)) → Option ℕ → Command (Option (List ℕ))
  after_field rest none = pure none
  after_field rest (some id) = do ids ← rest; pure (with_field id ids)

  -- The loop of `expectTuple`, over as many fields on both sides.
  unfoldable pub unify_fields : List ℕ → List ℕ → Command (Option (List ℕ))
  unfolding unify_variables
  unify_fields (i ∷ is) (j ∷ js) = do o ← unify_variables i j; after_field (unify_fields is js) o
  unify_fields _ _ = pure (some [])

  -- The new type that holds what was unified, or the error.
  unfoldable pub built : {A : Type 0} → (A → BaseType) → Option A → Command ℕ
  unfolding failure alloc
  built t none = failure
  built t (some v) = alloc (t v)

  abbrev pub expect_tuple : ℕ → List ℕ → BaseType → Shape → Command ℕ
  expect_tuple a is r (infer_type i h) = if is_general i then copy a else failure
  expect_tuple a is r (tuple_type js) = if not (length is == length js) then failure else do
    o ← unify_fields is js
    built (λ ids. new_type (tuple_type ids) r.reference r.type_reference) o
  expect_tuple a is r _ = failure

  abbrev pub expect_slice : ℕ → ℕ → BaseType → Shape → Command ℕ
  expect_slice a i r (infer_type k h) = if is_general k then copy a else failure
  expect_slice a i r (slice_type j) = do
    o ← unify_variables i j
    built (λ id. new_type (slice_type id) r.reference r.type_reference) o
  expect_slice a i r _ = failure

  -- The constructor that `expectArray` calls takes one node id for both references.
  abbrev pub expect_array : ℕ → ℕ → BaseType → Shape → Command ℕ
  expect_array a i r (infer_type k h) = if is_general k then copy a else failure
  expect_array a i r (array_type j) = do
    o ← unify_variables i j
    built (λ id. new_type (array_type id) r.reference r.reference) o
  expect_array a i r _ = failure

  -- Whatever comes of the base types, the result is an error.
  abbrev pub expect_raw_pointer : ℕ → ℕ → Shape → Command ℕ
  expect_raw_pointer a i (infer_type k h) = if is_general k then copy a else failure
  expect_raw_pointer a i (raw_pointer_type _ j) = do
    x ← get_type i
    y ← get_type j
    u ← site x y
    failed ← is_error u
    if failed then failure else failure
  expect_raw_pointer a i _ = failure

  -- A mutable reference does not accept one that is not. The type variable is made only after
  -- that test, and the result is built on the left type `l`.
  abbrev pub reference_to : BaseType → Bool → ℕ → Command ℕ
  reference_to l m u = do
    id ← type_variable u
    alloc (new_type (reference_type m id) l.reference l.type_reference)

  abbrev pub expect_reference : ℕ → BaseType → Bool → ℕ → Shape → Command ℕ
  expect_reference a l m i (infer_type k h) = if is_general k then copy a else failure
  expect_reference a l m i (reference_type n j) = do
    x ← get_type i
    y ← get_type j
    u ← site x y
    failed ← is_error u
    if failed then failure else if not m || n then reference_to l m u else failure
  expect_reference a l m i _ = failure

  -- The switch of `expect` on the kind of the left type `l`.
  unfoldable pub expect_shape : ℕ → BaseType → ℕ → BaseType → Shape → Command ℕ
  unfolding failure alloc hint_right hint_left get_type is_error type_variable unify_variables
      unify_fields built
  expect_shape a l b r (int_type k) = expect_int_type a k b r r.shape
  expect_shape a l b r (uint_type k) = expect_uint a k b r r.shape
  expect_shape a l b r usize_type = expect_usize_type a b r.shape
  expect_shape a l b r isize_type = expect_isize_type a b r.shape
  expect_shape a l b r (infer_type k _) = expect_inference_variable a k b r.shape
  expect_shape a l b r never_type = expect_never a b r.shape
  expect_shape a l b r str_type = expect_str a b r.shape
  expect_shape a l b r (tuple_type is) = expect_tuple a is r r.shape
  expect_shape a l b r (array_type i) = expect_array a i r r.shape
  expect_shape a l b r (slice_type i) = expect_slice a i r r.shape
  expect_shape a l b r (raw_pointer_type _ i) = expect_raw_pointer a i r.shape
  expect_shape a l b r (reference_type m i) = expect_reference a l m i r.shape
  expect_shape a l b r _ = abort

  unfoldable pub expect : ℕ → ℕ → Command ℕ
  unfolding load expect_shape
  expect a b = do l ← load a; r ← load b; expect_shape a l b r l.shape
