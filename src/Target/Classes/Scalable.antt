-- ===== src/Target/Classes/Scalable.antt =====
-- Scalable types below a struct, and which questions about aggregates have an answer.
use mlir_rustc.Prelude.{
  ℕ, ◌==◌, Bool, true, false, if◌then◌else◌, Outcome, ok, IsOk, ◌≡◌, ◌↔◌, refl, arith, Bool-cases,
  inl, inr,
}
use mlir_rustc.Target.Types.{
  TargetType, array_type, bitfield_type, builtin_type, pointer_type, scalable_vector_type,
  scalable_predicate_type, function_type, struct_type, union_type, vector_type, Members, no_member,
  member, padding,
}
use mlir_rustc.Target.Classes.{
  is_scalable, is_dynamically_sized_type, any_dynamically_sized, is_homogeneous_aggregate,
  is_pure_scalable_type, is_first_pure_scalable,
}

-- A scalable vector or predicate stands among the members, or below structs among them.
pub data HoldsScalable : Members → Type 0 where
  here : {t : TargetType} {ms : Members} → is_scalable t ≡ true → HoldsScalable (member t ms)
  below :
      {below ms : Members} {size align : ℕ}
      → HoldsScalable below
      → HoldsScalable (member (struct_type below size align) ms)
  later : {t : TargetType} {ms : Members} → HoldsScalable ms → HoldsScalable (member t ms)
  past : {n : ℕ} {ms : Members} → HoldsScalable ms → HoldsScalable (padding n ms)

Holds-any : {ms : Members} → HoldsScalable ms → any_dynamically_sized ms ≡ true
unfolding is_dynamically_sized_type
Holds-any (here h) = rw h refl
Holds-any (below h) = let ih = Holds-any h in ground arith
Holds-any (later h) = let ih = Holds-any h in ground arith
Holds-any (past h) = Holds-any h

mutual
  unfolding is_dynamically_sized_type

  dynamic-below :
      (t : TargetType) (ms : Members)
      → is_dynamically_sized_type t ≡ true
      → HoldsScalable (member t ms)
  dynamic-below (struct_type inner size align) ms h = below (any-Holds inner h)
  dynamic-below (array_type base n) ms h = cc
  dynamic-below (bitfield_type size bits) ms h = cc
  dynamic-below (builtin_type bk) ms h = cc
  dynamic-below (pointer_type bk) ms h = cc
  dynamic-below (scalable_vector_type bk) ms h = cc
  dynamic-below (scalable_predicate_type bk) ms h = cc
  dynamic-below function_type ms h = cc
  dynamic-below (union_type size align) ms h = cc
  dynamic-below (vector_type bits) ms h = cc

  any-Holds : (ms : Members) → any_dynamically_sized ms ≡ true → HoldsScalable ms
  any-Holds no_member h = cc
  any-Holds (padding n ms) h = past (any-Holds ms h)
  any-Holds (member t ms) h = elim (Bool-cases (is_scalable t)) [
    | inl e ↦ here e
    | inr e ↦ elim (Bool-cases (is_dynamically_sized_type t)) [
      | inl d ↦ dynamic-below t ms d
      | inr d ↦ later (any-Holds ms (ground arith))
    ]
  ]

-- isDynamicallySizedType holds of a struct exactly if a scalable vector or predicate stands among its
-- members or among those of the structs in it, at any depth.
pub is_dynamically_sized_type_iff :
    (ms : Members) (size align : ℕ)
    → (is_dynamically_sized_type (struct_type ms size align) ≡ true) ↔ HoldsScalable ms
unfolding is_dynamically_sized_type
is_dynamically_sized_type_iff ms size align = (any-Holds ms, λ h. Holds-any h)

-- The first member of every struct that the questions reach is there.
abbrev mutual
  pub IsFilled : TargetType → Type 0
  IsFilled (array_type base n) = IsFilled base
  IsFilled (struct_type ms size align) = IsFirstFilled ms
  IsFilled _ = Unit

  pub IsFirstFilled : Members → Type 0
  IsFirstFilled no_member = ⊥
  IsFirstFilled (member t ms) = IsFilled t
  IsFirstFilled (padding n ms) = IsFirstFilled ms

pub IsOk-if :
    {A : Type 0} (b : Bool) (x y : Outcome A) → IsOk x → IsOk y → IsOk (if b then x else y)
IsOk-if true x y h k = h
IsOk-if false x y h k = k

mutual
  unfolding is_pure_scalable_type

  pub pure_scalable-IsOk : (t : TargetType) → IsFilled t → IsOk (is_pure_scalable_type t)
  pure_scalable-IsOk (array_type base n) h =
      IsOk-if (n == 0) (ok false) (is_pure_scalable_type base) tt (pure_scalable-IsOk base h)
  pure_scalable-IsOk (struct_type ms size align) h =
      IsOk-if (is_homogeneous_aggregate (struct_type ms size align)) (is_first_pure_scalable ms)
        (ok false) (first_pure_scalable-IsOk ms h) tt
  pure_scalable-IsOk (bitfield_type size bits) h = tt
  pure_scalable-IsOk (builtin_type bk) h = tt
  pure_scalable-IsOk (pointer_type bk) h = tt
  pure_scalable-IsOk (scalable_vector_type bk) h = tt
  pure_scalable-IsOk (scalable_predicate_type bk) h = tt
  pure_scalable-IsOk function_type h = tt
  pure_scalable-IsOk (union_type size align) h = tt
  pure_scalable-IsOk (vector_type bits) h = tt

  first_pure_scalable-IsOk : (ms : Members) → IsFirstFilled ms → IsOk (is_first_pure_scalable ms)
  first_pure_scalable-IsOk no_member h = absurd h
  first_pure_scalable-IsOk (member t ms) h = pure_scalable-IsOk t h
  first_pure_scalable-IsOk (padding n ms) h = first_pure_scalable-IsOk ms h
