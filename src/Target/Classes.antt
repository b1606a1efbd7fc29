-- ===== src/Target/Classes.antt =====
-- The classes of types in code/TargetInfo/Linux/AArch64.cpp that the passing of arguments asks for.
-- `members[0]` of a struct without members is undefined behaviour.
pub mod Aggregates
pub mod Scalable
use mlir_rustc.Prelude.{
  ℕ, ◌==◌, ltb, Bool, true, false, if◌then◌else◌, ◌&&◌, ◌||◌, List, [], ◌∷◌, length, all, max,
  Outcome, ok, undefined, ◌>>=◌,
}
use mlir_rustc.Target.Types.{
  BuiltinKind, half, single, double, quad_float, TargetType, array_type, builtin_type,
  scalable_vector_type, scalable_predicate_type, struct_type, vector_type, Members, no_member,
  member, padding, get_members, type_kind, is_float_aapcs,
}
use mlir_rustc.Target.Sizes.{get_alignment_of, is_supported_vector_length}

-- The loop of `getMaxAlignment`, with `maxAlign` as an argument.
unfoldable pub max_alignment_loop : ℕ → List TargetType → Outcome ℕ
unfolding get_alignment_of
max_alignment_loop max_align [] = ok max_align
max_alignment_loop max_align (t ∷ members) =
    get_alignment_of t >>= λ align. max_alignment_loop (max max_align align) members

unfoldable pub get_max_alignment : List TargetType → Outcome ℕ
unfolding max_alignment_loop
get_max_alignment members = max_alignment_loop 0 members

-- The kinds are compared, not the types.
unfoldable pub same_kinds : List TargetType → Bool
unfolding type_kind
same_kinds [] = true
same_kinds (t ∷ members) = all (λ u. type_kind u == type_kind t) (t ∷ members)

unfoldable pub is_homogeneous_aggregate : TargetType → Bool
unfolding same_kinds get_members
is_homogeneous_aggregate (struct_type ms size align) = same_kinds (get_members ms)
is_homogeneous_aggregate _ = false

-- The short vectors, by `isShortVector`.
unfoldable pub is_short_vector : TargetType → Bool
is_short_vector (vector_type bits) = bits == 64 || bits == 128
is_short_vector _ = false

-- The question for the first member of at most four.
abbrev pub ask_first : (TargetType → Bool) → List TargetType → Outcome Bool
ask_first question members =
    if ltb 4 (length members)
    then ok false
    else elim members [ [] ↦ undefined | t ∷ rest ↦ ok (question t) ]

unfoldable pub is_float_member : TargetType → Bool
unfolding is_float_aapcs
is_float_member (builtin_type bk) = is_float_aapcs bk
is_float_member _ = false

abbrev pub ask_aggregate : (TargetType → Bool) → TargetType → Outcome Bool
ask_aggregate question (struct_type ms size align) = ask_first question (get_members ms)
ask_aggregate question _ = ok false

unfoldable pub is_homogeneous_floating_point_aggregate : TargetType → Outcome Bool
unfolding is_homogeneous_aggregate is_float_member get_members
is_homogeneous_floating_point_aggregate t =
    if is_homogeneous_aggregate t then ask_aggregate is_float_member t else ok false

unfoldable pub is_homogeneous_short_vector_aggregate : TargetType → Outcome Bool
unfolding is_homogeneous_aggregate is_short_vector get_members
is_homogeneous_short_vector_aggregate t =
    if is_homogeneous_aggregate t then ask_aggregate is_short_vector t else ok false

unfoldable mutual
  unfolding is_homogeneous_aggregate

  -- `isPureScalabeType`.
  pub is_pure_scalable_type : TargetType → Outcome Bool
  is_pure_scalable_type (scalable_vector_type bk) = ok true
  is_pure_scalable_type (scalable_predicate_type bk) = ok true
  is_pure_scalable_type (array_type base n) =
      let below = is_pure_scalable_type base in if n == 0 then ok false else below
  is_pure_scalable_type (struct_type ms size align) =
      let first = is_first_pure_scalable ms in
      if is_homogeneous_aggregate (struct_type ms size align) then first else ok false
  is_pure_scalable_type _ = ok false

  -- The question for `members[0]`.
  pub is_first_pure_scalable : Members → Outcome Bool
  is_first_pure_scalable no_member = undefined
  is_first_pure_scalable (member t ms) = is_pure_scalable_type t
  is_first_pure_scalable (padding n ms) = is_first_pure_scalable ms

-- `isFloat`.
unfoldable pub is_float : TargetType → Bool
is_float (builtin_type half) = true
is_float (builtin_type single) = true
is_float (builtin_type double) = true
is_float (builtin_type quad_float) = true
is_float _ = false

unfoldable pub is_float_or_short_vector : TargetType → Bool
unfolding is_short_vector is_float
is_float_or_short_vector t = is_short_vector t || is_float t

unfoldable pub is_half_or_single : TargetType → Bool
is_half_or_single (builtin_type half) = true
is_half_or_single (builtin_type single) = true
is_half_or_single _ = false

abbrev pub is_scalable : TargetType → Bool
is_scalable (scalable_vector_type bk) = true
is_scalable (scalable_predicate_type bk) = true
is_scalable _ = false

unfoldable mutual
  pub is_dynamically_sized_type : TargetType → Bool
  is_dynamically_sized_type (struct_type ms size align) = any_dynamically_sized ms
  is_dynamically_sized_type _ = false

  -- The loop over the members; only a struct among them can be dynamically sized in turn.
  pub any_dynamically_sized : Members → Bool
  any_dynamically_sized no_member = false
  any_dynamically_sized (member t ms) =
      is_scalable t || (is_dynamically_sized_type t || any_dynamically_sized ms)
  any_dynamically_sized (padding n ms) = any_dynamically_sized ms
