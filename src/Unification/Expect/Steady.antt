-- ===== src/Unification/Expect/Steady.antt =====
-- What two types unify to is steady, where `clone` and `unifyWithSite` are.
use mlir_rustc.Prelude.{ℕ, Bool, true, false, List, [], ◌∷◌, Option, none, some}
use mlir_rustc.TyTy.Types.{InferKind, IntKind, UintKind, is_general}
use mlir_rustc.Unification.Store.{
  BaseType, Shape, bool_type, char_type, usize_type, isize_type, never_type, str_type, error_type,
  int_type, uint_type, float_type, infer_type, tuple_type, array_type, slice_type, raw_pointer_type,
  reference_type, error_object,
}
use mlir_rustc.Unification.Store.Commands.{Command, pure, abort, type_variable}
use mlir_rustc.Unification.Store.Steady.{
  IsSteady, pure-IsSteady, abort-IsSteady, bind-IsSteady, then-IsSteady, if-IsSteady,
}
use mlir_rustc.Unification.Store.Steady.Primitives.{
  load-IsSteady, get_type-IsSteady, alloc-IsSteady, type_variable-IsSteady, is_error-IsSteady,
  apply_scalar_type_hint-IsSteady,
}
use mlir_rustc.Unification.Expect

failure-IsSteady : IsSteady Expect.failure
unfolding Expect.failure
failure-IsSteady = alloc-IsSteady error_object

stop-IsSteady : IsSteady (abort {A = ℕ})
stop-IsSteady = abort-IsSteady ℕ

module _ (copy : ℕ → Command ℕ) (copies : (a : ℕ) → IsSteady (copy a)) (site : ℕ → ℕ → Command ℕ)
    (sites : (a b : ℕ) → IsSteady (site a b)) where
  hint_right-IsSteady : (a b : ℕ) (hint : Shape) → IsSteady (Expect.hint_right copy site a b hint)
  unfolding Expect.hint_right
  hint_right-IsSteady a b hint = search (then-IsSteady, apply_scalar_type_hint-IsSteady, copies)

  hint_left-IsSteady : (a b : ℕ) (hint : Shape) → IsSteady (Expect.hint_left copy site a b hint)
  unfolding Expect.hint_left
  hint_left-IsSteady a b hint = search (then-IsSteady, apply_scalar_type_hint-IsSteady, copies)

  ruleset leaves = (
    if-IsSteady, failure-IsSteady, stop-IsSteady, alloc-IsSteady, hint_right-IsSteady,
    hint_left-IsSteady,
  )

  int_type-IsSteady :
      (a : ℕ) (k : IntKind) (b : ℕ) (r : BaseType) (s : Shape)
      → IsSteady (Expect.expect_int_type copy site a k b r s)
  int_type-IsSteady a k b r (int_type j) = search leaves
  int_type-IsSteady a k b r (infer_type i h) = search leaves
  int_type-IsSteady a k b r _ = failure-IsSteady

  uint-IsSteady :
      (a : ℕ) (k : UintKind) (b : ℕ) (r : BaseType) (s : Shape)
      → IsSteady (Expect.expect_uint copy site a k b r s)
  uint-IsSteady a k b r (uint_type j) = search leaves
  uint-IsSteady a k b r (infer_type i h) = search leaves
  uint-IsSteady a k b r _ = failure-IsSteady

  usize_type-IsSteady : (a b : ℕ) (s : Shape) → IsSteady (Expect.expect_usize_type copy site a b s)
  usize_type-IsSteady a b (infer_type i h) = search leaves
  usize_type-IsSteady a b usize_type = copies b
  usize_type-IsSteady a b _ = failure-IsSteady

  isize_type-IsSteady : (a b : ℕ) (s : Shape) → IsSteady (Expect.expect_isize_type copy site a b s)
  isize_type-IsSteady a b (infer_type i h) = search leaves
  isize_type-IsSteady a b isize_type = copies b
  isize_type-IsSteady a b _ = failure-IsSteady

  str-IsSteady : (a b : ℕ) (s : Shape) → IsSteady (Expect.expect_str copy site a b s)
  str-IsSteady a b (infer_type i h) = search (leaves, copies)
  str-IsSteady a b str_type = copies b
  str-IsSteady a b _ = failure-IsSteady

  never-IsSteady : (a b : ℕ) (s : Shape) → IsSteady (Expect.expect_never copy site a b s)
  never-IsSteady a b (infer_type i h) = search (leaves, copies)
  never-IsSteady a b usize_type = copies b
  never-IsSteady a b bool_type = copies b
  never-IsSteady a b char_type = copies b
  never-IsSteady a b (int_type _) = copies b
  never-IsSteady a b isize_type = copies b
  never-IsSteady a b (float_type _) = copies b
  never-IsSteady a b never_type = copies b
  never-IsSteady a b _ = failure-IsSteady

  inference_variable-IsSteady :
      (a : ℕ) (k : InferKind) (b : ℕ) (s : Shape)
      → IsSteady (Expect.expect_inference_variable copy site a k b s)
  inference_variable-IsSteady a k b (infer_type j _) = search (leaves, copies)
  inference_variable-IsSteady a k b (int_type i) = search leaves
  inference_variable-IsSteady a k b (uint_type u) = search leaves
  inference_variable-IsSteady a k b usize_type = search leaves
  inference_variable-IsSteady a k b isize_type = search leaves
  inference_variable-IsSteady a k b (float_type f) = search leaves
  inference_variable-IsSteady a k b error_type = failure-IsSteady
  inference_variable-IsSteady a k b _ =
      if-IsSteady (is_general k) (copy b) Expect.failure (copies b) failure-IsSteady

  some_variable-IsSteady : (u : ℕ) (b : Bool) → IsSteady (Expect.some_variable copy site u b)
  some_variable-IsSteady u true = pure-IsSteady {A = Option ℕ} none
  some_variable-IsSteady u false =
      bind-IsSteady (type_variable u) (λ id. pure (some id)) (type_variable-IsSteady u)
        (λ id. pure-IsSteady (some id))

  unify_variables-IsSteady : (i j : ℕ) → IsSteady (Expect.unify_variables copy site i j)
  unfolding Expect.unify_variables
  unify_variables-IsSteady i j =
      search (bind-IsSteady, get_type-IsSteady, sites, is_error-IsSteady, some_variable-IsSteady)

  after_field-IsSteady :
      (rest : Command (Option (List ℕ))) (o : Option ℕ)
      → IsSteady rest
      → IsSteady (Expect.after_field copy site rest o)
  after_field-IsSteady rest none h = pure-IsSteady {A = Option (List ℕ)} none
  after_field-IsSteady rest (some id) h = search (bind-IsSteady, h, pure-IsSteady)

  unify_fields-IsSteady : (is js : List ℕ) → IsSteady (Expect.unify_fields copy site is js)
  unfolding Expect.unify_fields
  unify_fields-IsSteady (i ∷ is) (j ∷ js) = bind-IsSteady _ _ (unify_variables-IsSteady i j) (λ o.
      after_field-IsSteady (Expect.unify_fields copy site is js) o (unify_fields-IsSteady is js))
  unify_fields-IsSteady _ _ = pure-IsSteady {A = Option (List ℕ)} (some [])

  built-IsSteady :
      {A : Type 0} (t : A → BaseType) (o : Option A) → IsSteady (Expect.built copy site t o)
  unfolding Expect.built
  built-IsSteady t none = failure-IsSteady
  built-IsSteady t (some v) = alloc-IsSteady (t v)

  ruleset compounds = (
    bind-IsSteady, get_type-IsSteady, is_error-IsSteady, if-IsSteady, failure-IsSteady,
    unify_fields-IsSteady, unify_variables-IsSteady, built-IsSteady, alloc-IsSteady,
    type_variable-IsSteady,
  )

  tuple-IsSteady :
      (a : ℕ) (is : List ℕ) (r : BaseType) (s : Shape)
      → IsSteady (Expect.expect_tuple copy site a is r s)
  tuple-IsSteady a is r (infer_type k h) = search (compounds, copies)
  tuple-IsSteady a is r (tuple_type js) = search compounds
  tuple-IsSteady a is r _ = failure-IsSteady

  slice-IsSteady :
      (a i : ℕ) (r : BaseType) (s : Shape) → IsSteady (Expect.expect_slice copy site a i r s)
  slice-IsSteady a i r (infer_type k h) = search (compounds, copies)
  slice-IsSteady a i r (slice_type j) = search compounds
  slice-IsSteady a i r _ = failure-IsSteady

  array-IsSteady :
      (a i : ℕ) (r : BaseType) (s : Shape) → IsSteady (Expect.expect_array copy site a i r s)
  array-IsSteady a i r (infer_type k h) = search (compounds, copies)
  array-IsSteady a i r (array_type j) = search compounds
  array-IsSteady a i r _ = failure-IsSteady

  raw_pointer-IsSteady :
      (a i : ℕ) (s : Shape) → IsSteady (Expect.expect_raw_pointer copy site a i s)
  raw_pointer-IsSteady a i (infer_type k h) = search (compounds, copies)
  raw_pointer-IsSteady a i (raw_pointer_type _ j) = search (compounds, sites) depth 8
  raw_pointer-IsSteady a i _ = failure-IsSteady

  reference_to-IsSteady :
      (l : BaseType) (m : Bool) (u : ℕ) → IsSteady (Expect.reference_to copy site l m u)
  reference_to-IsSteady l m u = search (bind-IsSteady, type_variable-IsSteady, alloc-IsSteady)

  reference-IsSteady :
      (a : ℕ) (l : BaseType) (m : Bool) (i : ℕ) (s : Shape)
      → IsSteady (Expect.expect_reference copy site a l m i s)
  reference-IsSteady a l m i (infer_type k h) = search (compounds, copies)
  reference-IsSteady a l m i (reference_type n j) =
      search (compounds, reference_to-IsSteady, sites) depth 8
  reference-IsSteady a l m i _ = failure-IsSteady

  expect_shape-IsSteady :
      (a : ℕ) (l : BaseType) (b : ℕ) (r : BaseType) (s : Shape)
      → IsSteady (Expect.expect_shape copy site a l b r s)
  unfolding Expect.expect_shape
  expect_shape-IsSteady a l b r (int_type k) = int_type-IsSteady a k b r r.shape
  expect_shape-IsSteady a l b r (uint_type k) = uint-IsSteady a k b r r.shape
  expect_shape-IsSteady a l b r usize_type = usize_type-IsSteady a b r.shape
  expect_shape-IsSteady a l b r isize_type = isize_type-IsSteady a b r.shape
  expect_shape-IsSteady a l b r (infer_type k _) = inference_variable-IsSteady a k b r.shape
  expect_shape-IsSteady a l b r never_type = never-IsSteady a b r.shape
  expect_shape-IsSteady a l b r str_type = str-IsSteady a b r.shape
  expect_shape-IsSteady a l b r (tuple_type is) = tuple-IsSteady a is r r.shape
  expect_shape-IsSteady a l b r (array_type i) = array-IsSteady a i r r.shape
  expect_shape-IsSteady a l b r (slice_type i) = slice-IsSteady a i r r.shape
  expect_shape-IsSteady a l b r (raw_pointer_type _ i) = raw_pointer-IsSteady a i r.shape
  expect_shape-IsSteady a l b r (reference_type m i) = reference-IsSteady a l m i r.shape
  expect_shape-IsSteady a l b r _ = stop-IsSteady

  pub expect-IsSteady : (a b : ℕ) → IsSteady (Expect.expect copy site a b)
  unfolding Expect.expect
  expect-IsSteady a b = search (bind-IsSteady, load-IsSteady, expect_shape-IsSteady)
