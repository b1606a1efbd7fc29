-- ===== src/Target/Calls/Returns.antt =====
-- When `getCall` returns, and when it does not.
use mlir_rustc.Prelude.{
  ℕ, suc, ltb, Bool, true, false, List, [], ◌∷◌, ◌++◌, length, All, Outcome, ok, undefined, ◌>>=◌,
  IsOk, IsOk-ok, ◌≡◌, refl,
}
use mlir_rustc.Target.Types.{
  TargetType, array_type, bitfield_type, builtin_type, pointer_type, scalable_vector_type,
  scalable_predicate_type, function_type, struct_type, union_type, vector_type, Members, no_member,
  member, padding, get_members,
}
use mlir_rustc.Target.Classes.{
  is_homogeneous_aggregate, ask_aggregate, same_kinds, is_float_member, is_short_vector,
  is_homogeneous_floating_point_aggregate, is_homogeneous_short_vector_aggregate,
  is_pure_scalable_type, is_first_pure_scalable,
}
use mlir_rustc.Target.Classes.Scalable.{IsFilled, IsFirstFilled, IsOk-if, pure_scalable-IsOk}
use mlir_rustc.Target.Calls.{
  Actions, is_homogeneous_argument, pad_struct, stage_b, stage_c, stage_loop, get_call,
}

IsOk-bind :
    {A B : Type 0} (m : Outcome A) (f : A → Outcome B)
    → IsOk m
    → ((a : A) → IsOk (f a))
    → IsOk (m >>= f)
IsOk-bind m f h k = let (a, e) = IsOk-ok m h in rw e (k a)

filled-members :
    (ms : Members)
    → IsFirstFilled ms
    → (t : TargetType) × (ts : List TargetType) × (get_members ms ≡ t ∷ ts)
unfolding get_members
filled-members no_member h = absurd h
filled-members (member t ms) h = (t, get_members ms, refl)
filled-members (padding n ms) h = filled-members ms h

ask_aggregate-IsOk :
    (question : TargetType → Bool) (t : TargetType) → IsFilled t → IsOk (ask_aggregate question t)
ask_aggregate-IsOk question (struct_type ms size align) h =
    let (t, ts, e) = filled-members ms h in
    rw e (IsOk-if (ltb 4 (length (t ∷ ts))) (ok false) (ok (question t)) tt tt)
ask_aggregate-IsOk question (array_type base n) h = tt
ask_aggregate-IsOk question (bitfield_type size bits) h = tt
ask_aggregate-IsOk question (builtin_type bk) h = tt
ask_aggregate-IsOk question (pointer_type bk) h = tt
ask_aggregate-IsOk question (scalable_vector_type bk) h = tt
ask_aggregate-IsOk question (scalable_predicate_type bk) h = tt
ask_aggregate-IsOk question function_type h = tt
ask_aggregate-IsOk question (union_type size align) h = tt
ask_aggregate-IsOk question (vector_type bits) h = tt

homogeneous_argument-IsOk : (t : TargetType) → IsFilled t → IsOk (is_homogeneous_argument t)
unfolding is_homogeneous_argument is_homogeneous_floating_point_aggregate
    is_homogeneous_short_vector_aggregate
homogeneous_argument-IsOk t h =
    IsOk-bind _ _
      (IsOk-if (is_homogeneous_aggregate t) _ (ok false) (ask_aggregate-IsOk is_float_member t h)
        tt)
      λ floats. IsOk-if floats (ok true) _ tt (
        IsOk-if (is_homogeneous_aggregate t) _ (ok false) (ask_aggregate-IsOk is_short_vector t h)
          tt)

pad_struct-IsOk : (idx : ℕ) (t : TargetType) → IsOk (pad_struct idx t)
unfolding pad_struct
pad_struct-IsOk idx (struct_type ms size align) = tt
pad_struct-IsOk idx (array_type base n) = tt
pad_struct-IsOk idx _ = tt

stage_b-IsOk : (idx : ℕ) (t : TargetType) → IsFilled t → IsOk (stage_b idx t)
unfolding stage_b
stage_b-IsOk idx t h = IsOk-bind _ _ (pure_scalable-IsOk t h) λ _.
    IsOk-bind _ _ (homogeneous_argument-IsOk t h) λ _. IsOk-bind _ _ (pad_struct-IsOk idx t) λ _. tt

stage_c-IsOk : (idx : ℕ) (t : TargetType) → IsFilled t → IsOk (stage_c idx t)
unfolding stage_c
stage_c-IsOk idx t h = IsOk-bind _ _ (homogeneous_argument-IsOk t h) λ _. tt

stage_loop-IsOk :
    (stage : ℕ → TargetType → Outcome Actions)
    → ((idx : ℕ) (t : TargetType) → IsFilled t → IsOk (stage idx t))
    → (idx : ℕ) (ts : List TargetType) → All IsFilled ts
    → IsOk (stage_loop stage idx ts)
unfolding stage_loop
stage_loop-IsOk stage h idx [] fs = tt
stage_loop-IsOk stage h idx (t ∷ ts) fs =
    IsOk-bind _ _ (h idx t fs.0)
      λ _. IsOk-bind _ _ (stage_loop-IsOk stage h (suc idx) ts fs.1) λ _. tt

-- getCall returns if no argument is a struct without members or holds one as the first member of a
-- struct or as the element of an array.
pub get_call-IsOk :
    (arguments : List TargetType) → All IsFilled arguments → IsOk (get_call arguments)
unfolding get_call
get_call-IsOk ts h =
    IsOk-bind _ _ (stage_loop-IsOk stage_b stage_b-IsOk 0 ts h)
      λ _. IsOk-bind _ _ (stage_loop-IsOk stage_c stage_c-IsOk 0 ts h) λ _. tt

first_pure_scalable-undefined :
    (ms : Members) → get_members ms ≡ [] → is_first_pure_scalable ms ≡ undefined
unfolding is_pure_scalable_type get_members
first_pure_scalable-undefined no_member h = refl
first_pure_scalable-undefined (member t ms) h = cc
first_pure_scalable-undefined (padding n ms) h = first_pure_scalable-undefined ms h

stage_b-undefined :
    (idx : ℕ) (ms : Members) (size align : ℕ)
    → get_members ms ≡ []
    → stage_b idx (struct_type ms size align) ≡ undefined
unfolding stage_b is_pure_scalable_type is_homogeneous_aggregate same_kinds
stage_b-undefined idx ms size align h = rw (h, first_pure_scalable-undefined ms h) refl

stage_loop-undefined :
    (idx : ℕ) (before after : List TargetType) (t : TargetType)
    → All IsFilled before
    → ((n : ℕ) → stage_b n t ≡ undefined)
    → stage_loop stage_b idx (before ++ t ∷ after) ≡ undefined
unfolding stage_loop
stage_loop-undefined idx [] after t h e = rw (e idx) refl
stage_loop-undefined idx (u ∷ before) after t h e =
    let (actions, p) = IsOk-ok (stage_b idx u) (stage_b-IsOk idx u h.0) in
    rw (p, stage_loop-undefined (suc idx) before after t h.1 e) refl

-- For a struct without members among the arguments, getCall reads the first of no members, whatever
-- follows it, if no such struct stands in the arguments before it.
pub get_call-empty_struct :
    (before after : List TargetType) (ms : Members) (size align : ℕ)
    → All IsFilled before
    → get_members ms ≡ []
    → get_call (before ++ struct_type ms size align ∷ after) ≡ undefined
unfolding get_call
get_call-empty_struct before after ms size align h e =
    rw
      (stage_loop-undefined 0 before after (struct_type ms size align) h
        (λ n. stage_b-undefined n ms size align e))
      refl
