-- ===== src/Target/Classes/Aggregates.antt =====
-- The homogeneous aggregates, described without the code.
use mlir_rustc.Prelude.{
  ℕ, ◌<◌, ◌==◌, ltb, Bool, true, false, if◌then◌else◌, List, [], ◌∷◌, length, all, All, ok, ◌≡◌,
  ◌↔◌, refl, arith, ==_iff,
}
use mlir_rustc.Target.Types.{
  TargetType, array_type, bitfield_type, builtin_type, pointer_type, scalable_vector_type,
  scalable_predicate_type, function_type, struct_type, union_type, vector_type, Members,
  get_members, type_kind,
}
use mlir_rustc.Target.Classes.{
  same_kinds, is_homogeneous_aggregate, ask_first, is_float_member, is_short_vector,
  is_homogeneous_floating_point_aggregate, is_homogeneous_short_vector_aggregate,
}

abbrev pub IsBuiltin : TargetType → Type 0
IsBuiltin (builtin_type bk) = Unit
IsBuiltin _ = ⊥

abbrev pub IsVector : TargetType → Type 0
IsVector (vector_type bits) = Unit
IsVector _ = ⊥

abbrev pub FirstOf : (TargetType → Bool) → (TargetType → Type 0) → List TargetType → Type 0
FirstOf question P [] = ⊥
FirstOf question P (t ∷ ts) = (question t ≡ true) × All P ts × (length ts < 4)

Builtin-kind : (t : TargetType) → type_kind t ≡ 2 → IsBuiltin t
unfolding type_kind
Builtin-kind (builtin_type bk) h = tt
Builtin-kind (array_type t n) h = absurd (omega arith)
Builtin-kind (bitfield_type size bits) h = absurd (omega arith)
Builtin-kind (pointer_type bk) h = absurd (omega arith)
Builtin-kind (scalable_vector_type bk) h = absurd (omega arith)
Builtin-kind (scalable_predicate_type bk) h = absurd (omega arith)
Builtin-kind function_type h = absurd (omega arith)
Builtin-kind (struct_type ms size align) h = absurd (omega arith)
Builtin-kind (union_type size align) h = absurd (omega arith)
Builtin-kind (vector_type bits) h = absurd (omega arith)

Vector-kind : (t : TargetType) → type_kind t ≡ 9 → IsVector t
unfolding type_kind
Vector-kind (vector_type bits) h = tt
Vector-kind (builtin_type bk) h = absurd (omega arith)
Vector-kind (array_type t n) h = absurd (omega arith)
Vector-kind (bitfield_type size bits) h = absurd (omega arith)
Vector-kind (pointer_type bk) h = absurd (omega arith)
Vector-kind (scalable_vector_type bk) h = absurd (omega arith)
Vector-kind (scalable_predicate_type bk) h = absurd (omega arith)
Vector-kind function_type h = absurd (omega arith)
Vector-kind (struct_type ms size align) h = absurd (omega arith)
Vector-kind (union_type size align) h = absurd (omega arith)

kind-Builtin : (t : TargetType) → IsBuiltin t → type_kind t ≡ 2
unfolding type_kind
kind-Builtin (builtin_type bk) h = refl
kind-Builtin (array_type t n) h = absurd h
kind-Builtin _ h = absurd h

kind-Vector : (t : TargetType) → IsVector t → type_kind t ≡ 9
unfolding type_kind
kind-Vector (vector_type bits) h = refl
kind-Vector (array_type t n) h = absurd h
kind-Vector _ h = absurd h

-- A test on kinds, over members whose first one has the kind `k` whenever the question holds for it.
module _ (question : TargetType → Bool) (P : TargetType → Type 0) (k : ℕ)
    (of_kind : (t : TargetType) → type_kind t ≡ k → P t)
    (to_kind : (t : TargetType) → P t → type_kind t ≡ k)
    (first_kind : (t : TargetType) → question t ≡ true → type_kind t ≡ k) where
  kinds-All : (ts : List TargetType) → all (λ u. type_kind u == k) ts ≡ true → All P ts
  kinds-All [] h = tt
  kinds-All (t ∷ ts) h =
      (of_kind t ((==_iff (type_kind t) k).0 (ground arith)), kinds-All ts (ground arith))

  All-kinds : (ts : List TargetType) → All P ts → all (λ u. type_kind u == k) ts ≡ true
  All-kinds [] h = refl
  All-kinds (t ∷ ts) h = rw ((==_iff (type_kind t) k).1 (to_kind t h.0)) (All-kinds ts h.1)

  asked-FirstOf :
      (t : TargetType) (ts : List TargetType)
      → (if all (λ u. type_kind u == type_kind t) (t ∷ ts)
          then ask_first question (t ∷ ts)
          else ok false)
        ≡ ok true
      → FirstOf question P (t ∷ ts)
  asked-FirstOf t ts h =
      let q : question t ≡ true = ground arith in
      let same : all (λ u. type_kind u == type_kind t) ts ≡ true = ground arith in
      (q, kinds-All ts (rw (← first_kind t q) same), ground arith)

  FirstOf-asked :
      (t : TargetType) (ts : List TargetType)
      → FirstOf question P (t ∷ ts)
      → (if all (λ u. type_kind u == type_kind t) (t ∷ ts)
          then ask_first question (t ∷ ts)
          else ok false)
        ≡ ok true
  FirstOf-asked t ts h =
      let same : all (λ u. type_kind u == type_kind t) ts ≡ true =
        rw (first_kind t h.0) (All-kinds ts h.1) in
      let len : ltb 4 (length (t ∷ ts)) ≡ false = ground arith in
      rw ((==_iff (type_kind t) (type_kind t)).1 refl, same, len, h.0) refl

  pub homogeneous_iff :
      (ts : List TargetType)
      → ((if same_kinds ts then ask_first question ts else ok false) ≡ ok true)
        ↔ FirstOf question P ts
  unfolding same_kinds
  homogeneous_iff [] = (λ h. cc, λ h. absurd h)
  homogeneous_iff (t ∷ ts) = (asked-FirstOf t ts, FirstOf-asked t ts)

float-kind : (t : TargetType) → is_float_member t ≡ true → type_kind t ≡ 2
unfolding is_float_member type_kind
float-kind (builtin_type bk) h = refl
float-kind (array_type t n) h = cc
float-kind (bitfield_type size bits) h = cc
float-kind (pointer_type bk) h = cc
float-kind (scalable_vector_type bk) h = cc
float-kind (scalable_predicate_type bk) h = cc
float-kind function_type h = cc
float-kind (struct_type ms size align) h = cc
float-kind (union_type size align) h = cc
float-kind (vector_type bits) h = cc

short_vector-kind : (t : TargetType) → is_short_vector t ≡ true → type_kind t ≡ 9
unfolding is_short_vector type_kind
short_vector-kind (vector_type bits) h = refl
short_vector-kind (array_type t n) h = cc
short_vector-kind (bitfield_type size bits) h = cc
short_vector-kind (builtin_type bk) h = cc
short_vector-kind (pointer_type bk) h = cc
short_vector-kind (scalable_vector_type bk) h = cc
short_vector-kind (scalable_predicate_type bk) h = cc
short_vector-kind function_type h = cc
short_vector-kind (struct_type ms size align) h = cc
short_vector-kind (union_type size align) h = cc

-- A struct counts as an aggregate of floats exactly if its first member is a float, the others are
-- builtin types of any kind, and they are at most four; as one of short vectors exactly if the first
-- member is a short vector and the others, at most three, are vectors of any length.
pub homogeneous_aggregate_iff :
    (ms : Members) (size align : ℕ)
    → ((is_homogeneous_floating_point_aggregate (struct_type ms size align) ≡ ok true)
        ↔ FirstOf is_float_member IsBuiltin (get_members ms))
      × ((is_homogeneous_short_vector_aggregate (struct_type ms size align) ≡ ok true)
          ↔ FirstOf is_short_vector IsVector (get_members ms))
unfolding is_homogeneous_floating_point_aggregate is_homogeneous_short_vector_aggregate
    is_homogeneous_aggregate
homogeneous_aggregate_iff ms size align = (
  homogeneous_iff is_float_member IsBuiltin 2 Builtin-kind kind-Builtin float-kind (get_members ms),
  homogeneous_iff is_short_vector IsVector 9 Vector-kind kind-Vector short_vector-kind
      (get_members ms),
)
