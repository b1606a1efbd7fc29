-- ===== src/Unification/Tests.antt =====
-- Runs of unification on a small store: an integral variable, `i32`, two raw pointers to `i32`, and
-- the tuples `({integer}, i32)` and `(i32, i32)`, and `bool`.
use mlir_rustc.Prelude.{
  ℕ, zero, suc, ap, sym, get_elem?, ◌≤◌, ◌<◌, true, false, [], ◌∷◌, Option, none, some, ◌≡◌, refl,
  Outcome, ok, aborted, arith,
}
use mlir_rustc.TyTy.Types.{integral, i32}
use mlir_rustc.TyTy.Compare.{can_equal}
use mlir_rustc.Unification.Store.{
  BaseType, Shape, Context, TypeHint, bool_type, infer_type, int_type, raw_pointer_type, tuple_type,
  new_type, error_kind, unknown_sign, unknown_size,
}
use mlir_rustc.Unification.Store.Steady.{WellFormed}
use mlir_rustc.Unification.Unify.{unify_with_site}
use mlir_rustc.Unification.Unify.Sites.{unify_with_site-Resolved}
use mlir_rustc.Unification.Unify.Resolves.Variable.{Resolved}

abbrev no_hint : TypeHint
no_hint = record { kind = error_kind; sign_hint = unknown_sign; size_hint = unknown_size }

abbrev objects : ℕ → Option BaseType
objects = get_elem? (
    new_type (infer_type integral no_hint) 3 3
    ∷ new_type (int_type i32) 5 5
    ∷ new_type (raw_pointer_type false 5) 6 6
    ∷ new_type (raw_pointer_type true 5) 7 7
    ∷ new_type (tuple_type (3 ∷ 5 ∷ [])) 8 8
    ∷ new_type (tuple_type (5 ∷ 5 ∷ [])) 9 9
    ∷ new_type bool_type 10 10
    ∷ [])

abbrev resolved : ℕ → Option ℕ
resolved (suc (suc (suc zero))) = some 0
resolved (suc (suc (suc (suc (suc zero))))) = some 1
resolved _ = none

abbrev small : Context
small = record { objects = objects; used = 7; resolved = resolved; last_id = 10 }

unused_objects : (a : ℕ) → 7 ≤ a → objects a ≡ none
unused_objects (suc (suc (suc (suc (suc (suc (suc a))))))) h = refl
unused_objects _ h = absurd (omega arith)

unknown_ids : (i : ℕ) → 10 < i → resolved i ≡ none
unknown_ids (suc (suc (suc zero))) h = absurd (omega arith)
unknown_ids (suc (suc (suc (suc (suc zero))))) h = absurd (omega arith)
unknown_ids _ h = refl

small-WellFormed : WellFormed small
small-WellFormed = record { unused = unused_objects; unknown = unknown_ids }

some-injective : {A : Type 0} {a b : A} → Option.some a ≡ some b → a ≡ b
some-injective h = cc

known_objects : (i a : ℕ) → resolved i ≡ some a → (t : BaseType) × (objects a ≡ some t)
known_objects (suc (suc (suc zero))) a h =
    (new_type (infer_type integral no_hint) 3 3, ap objects (sym (some-injective h)))
known_objects (suc (suc (suc (suc (suc zero))))) a h =
    (new_type (int_type i32) 5 5, ap objects (sym (some-injective h)))
known_objects _ a h = cc

abbrev shape_at : ℕ → Outcome (ℕ × Context) → Option Shape
shape_at i (ok (_, c)) = elim (c.resolved i) [
  | none ↦ none
  | some a ↦ elim (c.objects a) [ none ↦ none | some t ↦ some t.shape ]
]
shape_at i _ = none

tuples_unify : shape_at 3 (unify_with_site 3 4 5 small) ≡ some (int_type i32)
unfolding unify_with_site
tuples_unify = refl

abbrev store_of : Outcome (ℕ × Context) → Context
store_of (ok (_, c)) = c
store_of _ = small

abbrev address_of : Outcome (ℕ × Context) → ℕ
address_of (ok (a, _)) = a
address_of _ = 0

bools_abort : unify_with_site 3 6 6 small ≡ aborted
unfolding unify_with_site
bools_abort = refl

unify_with_site-Resolved_example :
    Resolved small
      (new_type (infer_type integral no_hint) 3 3)
      (new_type (int_type i32) 5 5)
      (unify_with_site 4 0 1)
unfolding can_equal
unify_with_site-Resolved_example =
    unify_with_site-Resolved 2 small 0 1 (new_type (infer_type integral no_hint) 3 3)
      (new_type (int_type i32) 5 5) integral no_hint 0 (new_type (infer_type integral no_hint) 3 3)
      small-WellFormed known_objects refl refl refl refl refl refl refl refl
