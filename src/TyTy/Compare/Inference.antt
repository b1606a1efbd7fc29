-- ===== src/TyTy/Compare/Inference.antt =====
-- Inference variables, tuples and dynamic objects in `canEqual`.
use mlir_rustc.Prelude.{
  ℕ, suc, Bool, true, false, ◌≡◌, ◌≢◌, refl, ap, List, [], ◌∷◌, ok, ◌and_then◌, ==_iff,
}
use mlir_rustc.TyTy.Types.{
  Ty, bool, char, usize, isize, error, int, uint, float, inferred, parameter, dynamic, array, slice,
  raw_pointer, reference, tuple, closure, adt, Tys, cons, InferKind, integral, any_float, general,
  number_of_types,
}
use mlir_rustc.TyTy.Compare.{can_equal}

-- The types that treat an inference variable as the variable treats them: all but `!`, `str`, tuples,
-- functions, pointers to functions, dynamic objects, placeholders and projections.
abbrev pub is_symmetric : Ty → Bool
is_symmetric bool = true
is_symmetric char = true
is_symmetric usize = true
is_symmetric isize = true
is_symmetric error = true
is_symmetric (int _) = true
is_symmetric (uint _) = true
is_symmetric (float _) = true
is_symmetric (inferred _) = true
is_symmetric (parameter _) = true
is_symmetric (array _) = true
is_symmetric (slice _) = true
is_symmetric (raw_pointer _ _) = true
is_symmetric (reference _ _) = true
is_symmetric (closure _ _ _) = true
is_symmetric (adt _ _ _) = true
is_symmetric _ = false

-- Between an inference variable and a type that `is_symmetric` accepts, the order in which the two
-- are compared does not matter.
pub inferred-symmetric :
    (k : InferKind) (t : Ty)
    → is_symmetric t ≡ true
    → can_equal (inferred k) t ≡ can_equal t (inferred k)
unfolding can_equal
inferred-symmetric k bool h = refl
inferred-symmetric k char h = refl
inferred-symmetric k usize h = refl
inferred-symmetric k isize h = refl
inferred-symmetric k error h = refl
inferred-symmetric k (int _) h = refl
inferred-symmetric k (uint _) h = refl
inferred-symmetric k (float _) h = refl
inferred-symmetric integral (inferred integral) h = refl
inferred-symmetric integral (inferred any_float) h = refl
inferred-symmetric integral (inferred general) h = refl
inferred-symmetric any_float (inferred integral) h = refl
inferred-symmetric any_float (inferred any_float) h = refl
inferred-symmetric any_float (inferred general) h = refl
inferred-symmetric general (inferred integral) h = refl
inferred-symmetric general (inferred any_float) h = refl
inferred-symmetric general (inferred general) h = refl
inferred-symmetric k (parameter _) h = refl
inferred-symmetric k (array _) h = refl
inferred-symmetric k (slice _) h = refl
inferred-symmetric k (raw_pointer _ _) h = refl
inferred-symmetric k (reference _ _) h = refl
inferred-symmetric k (closure _ _ _) h = refl
inferred-symmetric k (adt _ _ _) h = refl
inferred-symmetric k _ h = cc

-- Two tuples of the same number of fields, at least one, can equal exactly as their first fields do:
-- the other fields are never compared.
pub tuple-first :
    (t u : Ty) (ts us : Tys)
    → number_of_types ts ≡ number_of_types us
    → can_equal (tuple (cons t ts)) (tuple (cons u us)) ≡ can_equal t u
unfolding can_equal
tuple-first t u ts us h =
    ap (λ b. ok b and_then can_equal t u)
      ((==_iff (number_of_types (cons t ts)) (number_of_types (cons u us))).1 (ap suc h))

-- A dynamic object can equal no type, itself included: the comparison of the bounds is false, or it
-- fails an assertion.
pub dynamic-none : (bounds : List ℕ) (u : Ty) → can_equal (dynamic bounds) u ≢ ok true
unfolding can_equal
dynamic-none [] (dynamic _) e = cc
dynamic-none (_ ∷ _) (dynamic _) e = cc
dynamic-none bounds _ e = cc
