-- ===== src/TyTy/Compare/Rigid.antt =====
-- `canEqual` on types without inference variables and parameters.
use mlir_rustc.Prelude.{
  ℕ, zero, suc, Bool, true, false, ◌==◌, ◌≡◌, ◌↔◌, refl, sym, ap, ap₂, ◌∙◌, Outcome, ok, ◌and_then◌,
  ==_iff, ok-injective,
}
use mlir_rustc.TyTy.Types.{
  Ty, bool, char, usize, isize, never, str, error, place_holder, int, uint, float, inferred,
  parameter, dynamic, array, slice, projection, raw_pointer, reference, tuple, function,
  function_pointer, closure, adt, Tys, nil, cons, IntKind, UintKind, FloatKind, i8, i16, i32, i64,
  i128, u8, u16, u32, u64, u128, f32, f64, int_value, uint_value, float_value, number_of_types,
}
use mlir_rustc.TyTy.Compare.{can_equal, tuple_loop, arguments_loop}
use mlir_rustc.TyTy.Compare.Classes.{Plain, AllPlain}
use mlir_rustc.TyTy.Compare.Reflexive.{can_equal_refl}
use mathlib.Core.Path.{subst}

-- The primitive types, and references, raw pointers, slices, pointers to functions and tuples of at
-- most one field made of such types.
unfoldable mutual
  pub Rigid : Ty → Type 0
  Rigid bool = Unit
  Rigid char = Unit
  Rigid usize = Unit
  Rigid isize = Unit
  Rigid never = Unit
  Rigid str = Unit
  Rigid (int _) = Unit
  Rigid (uint _) = Unit
  Rigid (float _) = Unit
  Rigid (slice t) = Rigid t
  Rigid (raw_pointer _ t) = Rigid t
  Rigid (reference _ t) = Rigid t
  Rigid (function_pointer ts t) = AllRigid ts × Rigid t
  Rigid (tuple ts) = OneRigid ts
  Rigid _ = ⊥

  pub AllRigid : Tys → Type 0
  AllRigid nil = Unit
  AllRigid (cons t ts) = Rigid t × AllRigid ts

  pub OneRigid : Tys → Type 0
  OneRigid nil = Unit
  OneRigid (cons t nil) = Rigid t
  OneRigid (cons t (cons u ts)) = ⊥

mutual
  unfolding Rigid Plain

  Rigid-Plain : (t : Ty) → Rigid t → Plain t
  Rigid-Plain (slice t) h = Rigid-Plain t h
  Rigid-Plain (raw_pointer m t) h = Rigid-Plain t h
  Rigid-Plain (reference m t) h = Rigid-Plain t h
  Rigid-Plain (function_pointer ts t) h = (AllRigid-AllPlain ts h.0, Rigid-Plain t h.1)
  Rigid-Plain (tuple ts) h = OneRigid-AllPlain ts h
  Rigid-Plain place_holder h = h
  Rigid-Plain (dynamic b) h = h
  Rigid-Plain (projection t) h = h
  Rigid-Plain (array t) h = absurd h
  Rigid-Plain (function ts t) h = absurd h
  Rigid-Plain (closure i ts t) h = absurd h
  Rigid-Plain (adt k n vs) h = absurd h
  Rigid-Plain _ h = tt

  AllRigid-AllPlain : (ts : Tys) → AllRigid ts → AllPlain ts
  AllRigid-AllPlain nil h = tt
  AllRigid-AllPlain (cons t ts) h = (Rigid-Plain t h.0, AllRigid-AllPlain ts h.1)

  OneRigid-AllPlain : (ts : Tys) → OneRigid ts → AllPlain ts
  OneRigid-AllPlain nil h = tt
  OneRigid-AllPlain (cons t nil) h = (Rigid-Plain t h, tt)
  OneRigid-AllPlain (cons t (cons u ts)) h = absurd h

-- The kinds are determined by their values.

abbrev int_of : ℕ → IntKind
int_of zero = i8
int_of (suc zero) = i16
int_of (suc (suc zero)) = i32
int_of (suc (suc (suc zero))) = i64
int_of _ = i128

int_of-value : (k : IntKind) → int_of (int_value k) ≡ k
int_of-value i8 = refl
int_of-value i16 = refl
int_of-value i32 = refl
int_of-value i64 = refl
int_of-value i128 = refl

abbrev uint_of : ℕ → UintKind
uint_of zero = u8
uint_of (suc zero) = u16
uint_of (suc (suc zero)) = u32
uint_of (suc (suc (suc zero))) = u64
uint_of _ = u128

uint_of-value : (k : UintKind) → uint_of (uint_value k) ≡ k
uint_of-value u8 = refl
uint_of-value u16 = refl
uint_of-value u32 = refl
uint_of-value u64 = refl
uint_of-value u128 = refl

abbrev float_of : ℕ → FloatKind
float_of zero = f32
float_of _ = f64

float_of-value : (k : FloatKind) → float_of (float_value k) ≡ k
float_of-value f32 = refl
float_of-value f64 = refl

by_value :
    {A : Type 0} (value : A → ℕ) (back : ℕ → A)
    → ((k : A) → back (value k) ≡ k)
    → (k j : A) → ok (value k == value j) ≡ ok true
    → k ≡ j
by_value value back e k j h =
    sym (e k) ∙ (ap back ((==_iff (value k) (value j)).0 (ok-injective h)) ∙ e j)

and_then-both : (a b : Outcome Bool) → (a and_then b) ≡ ok true → (a ≡ ok true) × (b ≡ ok true)
and_then-both (ok true) b h = (refl, h)
and_then-both (ok false) b h = cc
and_then-both _ b h = cc

mutual
  unfolding can_equal Rigid

  can_equal-path : (t u : Ty) → Rigid t → Rigid u → can_equal t u ≡ ok true → t ≡ u
  can_equal-path t (inferred i) h k e = absurd k
  can_equal-path bool bool h k e = refl
  can_equal-path char char h k e = refl
  can_equal-path usize usize h k e = refl
  can_equal-path isize isize h k e = refl
  can_equal-path never never h k e = refl
  can_equal-path str str h k e = refl
  can_equal-path (int i) (int j) h k e = ap int (by_value int_value int_of int_of-value i j e)
  can_equal-path (uint i) (uint j) h k e = ap uint (by_value uint_value uint_of uint_of-value i j e)
  can_equal-path (float i) (float j) h k e =
      ap float (by_value float_value float_of float_of-value i j e)
  can_equal-path (slice t) (slice u) h k e = ap slice (can_equal-path t u h k e)
  can_equal-path (raw_pointer true t) (raw_pointer true u) h k e =
      ap (raw_pointer true) (can_equal-path t u h k e)
  can_equal-path (raw_pointer false t) (raw_pointer false u) h k e =
      ap (raw_pointer false) (can_equal-path t u h k e)
  can_equal-path (reference true t) (reference true u) h k e =
      ap (reference true) (can_equal-path t u h k e)
  can_equal-path (reference false t) (reference false u) h k e =
      ap (reference false) (can_equal-path t u h k e)
  can_equal-path (function_pointer ts t) (function_pointer us u) h k e =
      let rest =
        (and_then-both (ok (number_of_types ts == number_of_types us))
          (arguments_loop ts us and_then can_equal t u) e).1 in
      let parts = and_then-both (arguments_loop ts us) (can_equal t u) rest in
      ap₂ function_pointer (arguments_loop-path ts us h.0 k.0 parts.0)
        (can_equal-path t u h.1 k.1 parts.1)
  can_equal-path (function_pointer ts t) (function us u) h k e = absurd k
  can_equal-path (tuple ts) (tuple us) h k e = ap tuple (
      tuple_loop-path ts us h k
        (and_then-both (ok (number_of_types ts == number_of_types us)) (tuple_loop ts us) e))
  can_equal-path (array t) u h k e = absurd h
  can_equal-path (projection t) u h k e = absurd h
  can_equal-path (dynamic b) u h k e = absurd h
  can_equal-path (parameter s) u h k e = absurd h
  can_equal-path (inferred i) u h k e = absurd h
  can_equal-path place_holder u h k e = absurd h
  can_equal-path error u h k e = absurd h
  can_equal-path (function ts t) u h k e = absurd h
  can_equal-path (closure i ts t) u h k e = absurd h
  can_equal-path (adt kd n vs) u h k e = absurd h
  can_equal-path _ _ h k e = cc

  arguments_loop-path :
      (ts us : Tys) → AllRigid ts → AllRigid us → arguments_loop ts us ≡ ok true → ts ≡ us
  arguments_loop-path nil nil h k e = refl
  arguments_loop-path (cons t ts) (cons u us) h k e =
      let parts = and_then-both (can_equal t u) (arguments_loop ts us) e in
      ap₂ cons (can_equal-path t u h.0 k.0 parts.0) (arguments_loop-path ts us h.1 k.1 parts.1)
  arguments_loop-path _ _ h k e = cc

  tuple_loop-path :
      (ts us : Tys)
      → OneRigid ts
      → OneRigid us
      → (ok (number_of_types ts == number_of_types us) ≡ ok true) × (tuple_loop ts us ≡ ok true)
      → ts ≡ us
  tuple_loop-path nil nil h k e = refl
  tuple_loop-path (cons t nil) (cons u nil) h k e =
      ap (λ v. cons v nil) (can_equal-path t u h k e.1)
  tuple_loop-path (cons t (cons _ _)) us h k e = absurd h
  tuple_loop-path ts (cons u (cons _ _)) h k e = absurd k
  tuple_loop-path _ _ h k e = absurd (cc)

-- Two rigid types, the primitive ones and references, raw pointers, slices, pointers to functions and
-- tuples of at most one field made of them, can equal exactly if they are the same type.
pub can_equal_iff : (t u : Ty) → Rigid t → Rigid u → (can_equal t u ≡ ok true) ↔ (t ≡ u)
can_equal_iff t u h k = (
  can_equal-path t u h k,
  λ e. subst (λ v. can_equal t v ≡ ok true) e (can_equal_refl t (Rigid-Plain t h)),
)
