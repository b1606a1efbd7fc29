-- ===== src/Target/Calls.antt =====
-- `getCall` of code/TargetInfo/Linux/AArch64.cpp: the calls of `addAction`, in their order, each with
-- the index of its argument.
pub mod Returns
pub mod Indexed
use mlir_rustc.Prelude.{
  ℕ, suc, ltb, if◌then◌else◌, Bool, true, false, List, [], ◌∷◌, ◌++◌, Outcome, ok, ◌>>=◌,
}
use mlir_rustc.Target.Types.{
  TargetType, struct_type, Action, copy_to_memory, size_round_up, set_size_with_unspecified_upper,
}
use mlir_rustc.Target.Sizes.{get_size_of}
use mlir_rustc.Target.Classes.{
  is_homogeneous_floating_point_aggregate, is_homogeneous_short_vector_aggregate,
  is_pure_scalable_type, is_float_or_short_vector, is_half_or_single, is_dynamically_sized_type,
}

abbrev pub Actions : Type 0
Actions = List (ℕ × Action)

abbrev pub when : Bool → ℕ → Action → Actions
when true idx action = (idx, action) ∷ []
when false idx action = []

-- `isHomogeneousFloatingPointAggregate(arg) || isHomogeneousShortVectorAggregate(arg)`.
unfoldable pub is_homogeneous_argument : TargetType → Outcome Bool
unfolding is_homogeneous_floating_point_aggregate is_homogeneous_short_vector_aggregate
is_homogeneous_argument arg = is_homogeneous_floating_point_aggregate arg >>= λ floats.
    if floats then ok true else is_homogeneous_short_vector_aggregate arg

-- B.4 and B.5.
unfoldable pub pad_struct : ℕ → TargetType → Outcome Actions
unfolding get_size_of
pad_struct idx (struct_type ms size align) = get_size_of (struct_type ms size align) >>= λ bytes.
    ok (
      when (ltb 16 bytes) idx (copy_to_memory (struct_type ms size align))
      ++ (idx, size_round_up (struct_type ms size align) 8) ∷ [])
pad_struct idx _ = ok []

-- A round of the loop of stage B. B.1 and B.3 ask and do nothing.
unfoldable pub stage_b : ℕ → TargetType → Outcome Actions
unfolding is_pure_scalable_type is_dynamically_sized_type is_homogeneous_argument pad_struct
stage_b idx arg = is_pure_scalable_type arg >>= λ _. is_homogeneous_argument arg >>= λ _.
    pad_struct idx arg >>= λ padded.
    ok (when (is_dynamically_sized_type arg) idx (copy_to_memory arg) ++ padded)

-- A round of the loop of stage C: C.3, C.5 and C.6. C.1 asks and does nothing.
unfoldable pub stage_c : ℕ → TargetType → Outcome Actions
unfolding is_homogeneous_argument is_half_or_single is_float_or_short_vector
stage_c idx arg = is_homogeneous_argument arg >>= λ homogeneous. ok (
    when homogeneous idx (size_round_up arg 8)
    ++ when (is_half_or_single arg) idx (set_size_with_unspecified_upper arg 8)
    ++ when (if homogeneous then true else is_float_or_short_vector arg) idx (copy_to_memory arg))

-- A loop over the arguments, with `idx` counted up.
unfoldable pub stage_loop :
    (ℕ → TargetType → Outcome Actions) → ℕ → List TargetType → Outcome Actions
stage_loop stage idx [] = ok []
stage_loop stage idx (arg ∷ arguments) = stage idx arg >>= λ actions.
    stage_loop stage (suc idx) arguments >>= λ rest. ok (actions ++ rest)

unfoldable pub get_call : List TargetType → Outcome Actions
unfolding stage_b stage_c stage_loop
get_call arguments = stage_loop stage_b 0 arguments >>= λ padded.
    stage_loop stage_c 0 arguments >>= λ assigned. ok (padded ++ assigned)
