-- ===== src/Resolver/Scopes/Kinds.antt =====
-- The kind of a declaration and the rib that declares it, which `insertCapturedItem` looks up one
-- after the other.
use mlir_rustc.Prelude.{ℕ, ◌==◌, true, ◌≡◌, refl, List, [], ◌∷◌, some, All, Bool-cases, inl, inr}
use mlir_rustc.Resolver.Maps.{find, contains, ids}
use mlir_rustc.Resolver.Ribs.{Rib, RibKind, was_decl_declared_here, rib_decl_type}
use mlir_rustc.Resolver.Ribs.Declared.{IsWf}
use mlir_rustc.Resolver.Scopes.{
  Scope, decl_type_loop, lookup_decl_type, rib_for_decl_loop, lookup_rib_for_decl, declared_loop,
  was_decl_declared_in_current_scope,
}

-- A key that is there has a value.
pub contains-some :
    {V : Type 0} (k : ℕ) (m : List (ℕ × V))
    → contains ids k m ≡ true
    → (v : V) × (find ids k m ≡ some v)
unfolding contains find
contains-some k [] h = cc
contains-some k ((j, v) ∷ m) h = elim (Bool-cases (j == k)) [
  | inl e ↦ (v, rw e refl)
  | inr e ↦ let rest = contains-some k m (rw e at h) in (rest.0, rw e rest.1)
]

kind_of-declared :
    {M : Type 0} (id : ℕ) (rib : Rib M)
    → IsWf rib
    → was_decl_declared_here id rib ≡ true
    → (k : RibKind) × (rib_decl_type id rib ≡ some k)
unfolding was_decl_declared_here rib_decl_type
kind_of-declared id rib wf h = contains-some id rib.decl_type_mappings (wf id h).0

decl_type_loop-declared :
    {M : Type 0} (id : ℕ) (ribs : List (Rib M)) (k : RibKind)
    → decl_type_loop id ribs ≡ some k
    → declared_loop id ribs ≡ true
unfolding decl_type_loop declared_loop
decl_type_loop-declared id [] k h = cc
decl_type_loop-declared id (rib ∷ ribs) k h = elim (Bool-cases (was_decl_declared_here id rib)) [
  | inl e ↦ rw e refl
  | inr e ↦ rw e (decl_type_loop-declared id ribs k (rw e at h))
]

rib_for_decl_loop-declared :
    {M : Type 0} (id : ℕ) (ribs : List (Rib M))
    → declared_loop id ribs ≡ true
    → (rib : Rib M) × (rib_for_decl_loop id ribs ≡ some rib)
      × (was_decl_declared_here id rib ≡ true)
unfolding rib_for_decl_loop declared_loop
rib_for_decl_loop-declared id [] h = cc
rib_for_decl_loop-declared id (rib ∷ ribs) h = elim (Bool-cases (was_decl_declared_here id rib)) [
  | inl e ↦ (rib, rw e refl, e)
  | inr e ↦
      let rest = rib_for_decl_loop-declared id ribs (rw e at h) in (rest.0, rw e rest.1, rest.2)
]

declared-decl_type_loop :
    {M : Type 0} (id : ℕ) (ribs : List (Rib M))
    → All IsWf ribs
    → declared_loop id ribs ≡ true
    → (k : RibKind) × (decl_type_loop id ribs ≡ some k)
unfolding decl_type_loop declared_loop
declared-decl_type_loop id [] wf h = cc
declared-decl_type_loop id (rib ∷ ribs) wf h = elim (Bool-cases (was_decl_declared_here id rib)) [
  | inl e ↦ let kind = kind_of-declared id rib wf.0 e in (kind.0, rw (e, kind.1) refl)
  | inr e ↦ let rest = declared-decl_type_loop id ribs wf.1 (rw e at h) in (rest.0, rw e rest.1)
]

-- Where a declaration has a kind, a rib of the scope declares it: the assertion in
-- `insertCapturedItem` holds.
pub lookup_decl_type-lookup_rib_for_decl :
    {M : Type 0} (id : ℕ) (s : Scope M) (k : RibKind)
    → lookup_decl_type id s ≡ some k
    → (rib : Rib M) × (lookup_rib_for_decl id s ≡ some rib) × (was_decl_declared_here id rib ≡ true)
unfolding lookup_decl_type lookup_rib_for_decl
lookup_decl_type-lookup_rib_for_decl id s k h =
    rib_for_decl_loop-declared id s.stack (decl_type_loop-declared id s.stack k h)

-- If every rib knows the kinds of what it declares, what the scope declares has a kind and a rib.
pub was_declared-lookups :
    {M : Type 0} (id : ℕ) (s : Scope M)
    → All IsWf s.stack
    → was_decl_declared_in_current_scope id s ≡ true
    → ((k : RibKind) × (lookup_decl_type id s ≡ some k))
      × ((rib : Rib M) × (lookup_rib_for_decl id s ≡ some rib)
          × (was_decl_declared_here id rib ≡ true))
unfolding lookup_decl_type lookup_rib_for_decl was_decl_declared_in_current_scope
was_declared-lookups id s wf h =
    (declared-decl_type_loop id s.stack wf h, rib_for_decl_loop-declared id s.stack h)
