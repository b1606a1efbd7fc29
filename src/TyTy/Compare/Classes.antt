-- ===== src/TyTy/Compare/Classes.antt =====
-- Plain types, and the classes of code/include/TyCtx/Compare.h on them.
use mlir_rustc.Prelude.{
  ℕ, Bool, true, false, ◌==◌, ◌≡◌, Bytes, equal, Outcome, ok, ◌and_then◌, IsOk, ok-injective,
  and_then-IsOk, ==_iff,
}
use mlir_rustc.TyTy.Types.{
  Ty, bool, char, usize, isize, never, str, error, place_holder, int, uint, float, inferred,
  dynamic, array, slice, projection, raw_pointer, reference, tuple, function, function_pointer,
  closure, adt, Tys, nil, cons, Variants, no_variant, variant, Fields, no_field, null_field, field,
  InferKind, IntKind, UintKind, FloatKind, AdtKind, adt_value, number_of_types, number_of_variants,
}
use mlir_rustc.TyTy.Compare.{
  int_cmp, uint_cmp, float_cmp, usize_cmp, isize_cmp, char_cmp, bool_cmp, str_cmp, never_cmp,
  error_cmp, param_cmp, infer_cmp, array_cmp, slice_cmp, reference_cmp, raw_pointer_cmp, tuple_cmp,
  visit_tuple, visit_function, function_cmp, function_pointer_cmp, closure_cmp, adt_cmp,
}

-- A type without placeholders, dynamic objects, projections and null fields.
unfoldable mutual
  pub Plain : Ty → Type 0
  Plain place_holder = ⊥
  Plain (dynamic _) = ⊥
  Plain (projection _) = ⊥
  Plain (array t) = Plain t
  Plain (slice t) = Plain t
  Plain (raw_pointer _ t) = Plain t
  Plain (reference _ t) = Plain t
  Plain (tuple ts) = AllPlain ts
  Plain (function ts t) = AllPlain ts × Plain t
  Plain (function_pointer ts t) = AllPlain ts × Plain t
  Plain (closure _ ts t) = AllPlain ts × Plain t
  Plain (adt _ _ vs) = VariantsPlain vs
  Plain _ = Unit

  pub AllPlain : Tys → Type 0
  AllPlain nil = Unit
  AllPlain (cons t ts) = Plain t × AllPlain ts

  pub VariantsPlain : Variants → Type 0
  VariantsPlain no_variant = Unit
  VariantsPlain (variant fs vs) = FieldsPlain fs × VariantsPlain vs

  pub FieldsPlain : Fields → Type 0
  FieldsPlain no_field = Unit
  FieldsPlain (null_field fs) = ⊥
  FieldsPlain (field _ t fs) = Plain t × FieldsPlain fs

-- The classes without parts.

pub int_cmp-IsOk : (k : IntKind) (u : Ty) → IsOk (int_cmp k u)
int_cmp-IsOk k (int j) = tt
int_cmp-IsOk k (inferred i) = tt
int_cmp-IsOk k _ = tt

pub uint_cmp-IsOk : (k : UintKind) (u : Ty) → IsOk (uint_cmp k u)
uint_cmp-IsOk k (uint j) = tt
uint_cmp-IsOk k (inferred i) = tt
uint_cmp-IsOk k _ = tt

pub float_cmp-IsOk : (k : FloatKind) (u : Ty) → IsOk (float_cmp k u)
float_cmp-IsOk k (float j) = tt
float_cmp-IsOk k (inferred i) = tt
float_cmp-IsOk k _ = tt

pub usize_cmp-IsOk : (u : Ty) → IsOk (usize_cmp u)
usize_cmp-IsOk usize = tt
usize_cmp-IsOk _ = tt

pub isize_cmp-IsOk : (u : Ty) → IsOk (isize_cmp u)
isize_cmp-IsOk isize = tt
isize_cmp-IsOk _ = tt

pub char_cmp-IsOk : (u : Ty) → IsOk (char_cmp u)
char_cmp-IsOk char = tt
char_cmp-IsOk _ = tt

pub bool_cmp-IsOk : (u : Ty) → IsOk (bool_cmp u)
bool_cmp-IsOk bool = tt
bool_cmp-IsOk _ = tt

pub str_cmp-IsOk : (u : Ty) → IsOk (str_cmp u)
str_cmp-IsOk str = tt
str_cmp-IsOk _ = tt

pub never_cmp-IsOk : (u : Ty) → IsOk (never_cmp u)
never_cmp-IsOk never = tt
never_cmp-IsOk _ = tt

pub error_cmp-IsOk : (u : Ty) → IsOk (error_cmp u)
error_cmp-IsOk error = tt
error_cmp-IsOk _ = tt

pub param_cmp-IsOk : (symbol : Bytes) (u : Ty) → Plain u → IsOk (param_cmp symbol u)
unfolding Plain
param_cmp-IsOk symbol place_holder h = absurd h
param_cmp-IsOk symbol _ h = tt

pub infer_cmp-IsOk : (k : InferKind) (u : Ty) → IsOk (infer_cmp k u)
infer_cmp-IsOk k bool = tt
infer_cmp-IsOk k _ = tt

-- The classes with parts, where comparing the parts returns.

module _ (element : Ty → Outcome Bool) (returns : (u : Ty) → Plain u → IsOk (element u)) where
  pub array_cmp-IsOk : (u : Ty) → Plain u → IsOk (array_cmp element u)
  unfolding Plain
  array_cmp-IsOk (array t) h = returns t h
  array_cmp-IsOk _ h = tt

  pub slice_cmp-IsOk : (u : Ty) → Plain u → IsOk (slice_cmp element u)
  unfolding Plain
  slice_cmp-IsOk (slice t) h = returns t h
  slice_cmp-IsOk _ h = tt

  pub reference_cmp-IsOk : (mut : Bool) (u : Ty) → Plain u → IsOk (reference_cmp mut element u)
  unfolding Plain
  reference_cmp-IsOk true (reference true t) h = returns t h
  reference_cmp-IsOk true (reference false t) h = tt
  reference_cmp-IsOk false (reference true t) h = tt
  reference_cmp-IsOk false (reference false t) h = returns t h
  reference_cmp-IsOk mut _ h = tt

  pub raw_pointer_cmp-IsOk : (mut : Bool) (u : Ty) → Plain u → IsOk (raw_pointer_cmp mut element u)
  unfolding Plain
  raw_pointer_cmp-IsOk true (raw_pointer true t) h = returns t h
  raw_pointer_cmp-IsOk true (raw_pointer false t) h = tt
  raw_pointer_cmp-IsOk false (raw_pointer true t) h = tt
  raw_pointer_cmp-IsOk false (raw_pointer false t) h = returns t h
  raw_pointer_cmp-IsOk mut _ h = tt

-- The tests before a loop.
ok-== : (n m : ℕ) → ok (n == m) ≡ ok true → n ≡ m
ok-== n m h = (==_iff n m).0 (ok-injective h)

module _ (n : ℕ) (loop : Tys → Outcome Bool)
    (loops : (us : Tys) → n ≡ number_of_types us → AllPlain us → IsOk (loop us)) where
  visit_tuple-IsOk : (us : Tys) → AllPlain us → IsOk (visit_tuple n loop us)
  visit_tuple-IsOk us h =
      and_then-IsOk (ok (n == number_of_types us)) (loop us) tt (λ e. loops us (ok-== _ _ e) h)

  pub tuple_cmp-IsOk : (u : Ty) → Plain u → IsOk (tuple_cmp n loop u)
  unfolding Plain
  tuple_cmp-IsOk (tuple us) h = visit_tuple-IsOk us h
  tuple_cmp-IsOk _ h = tt

  module _ (result : Ty → Outcome Bool) (returns : (u : Ty) → Plain u → IsOk (result u)) where
    visit_function-IsOk :
        (us : Tys) (u : Ty) → AllPlain us → Plain u → IsOk (visit_function n loop result us u)
    visit_function-IsOk us u h k =
        and_then-IsOk (ok (n == number_of_types us)) (loop us and_then result u) tt
          (λ e. and_then-IsOk (loop us) (result u) (loops us (ok-== _ _ e) h) (λ _. returns u k))

    pub function_cmp-IsOk : (u : Ty) → Plain u → IsOk (function_cmp n loop result u)
    unfolding Plain
    function_cmp-IsOk (function us u) h = visit_function-IsOk us u h.0 h.1
    function_cmp-IsOk _ h = tt

    pub function_pointer_cmp-IsOk : (u : Ty) → Plain u → IsOk (function_pointer_cmp n loop result u)
    unfolding Plain
    function_pointer_cmp-IsOk (function us u) h = visit_function-IsOk us u h.0 h.1
    function_pointer_cmp-IsOk (function_pointer us u) h = visit_function-IsOk us u h.0 h.1
    function_pointer_cmp-IsOk _ h = tt

    pub closure_cmp-IsOk : (id : ℕ) (u : Ty) → Plain u → IsOk (closure_cmp id n loop result u)
    unfolding Plain
    closure_cmp-IsOk id (closure j us u) h =
        and_then-IsOk (ok (id == j)) (visit_tuple n loop us and_then result u) tt (λ _.
          and_then-IsOk (visit_tuple n loop us) (result u) (visit_tuple-IsOk us h.0)
            (λ _. returns u h.1))
    closure_cmp-IsOk id _ h = tt

pub adt_cmp-IsOk :
    (kind : AdtKind) (name : Bytes) (n : ℕ) (loop : Variants → Outcome Bool)
    → ((ws : Variants) → n ≡ number_of_variants ws → VariantsPlain ws → IsOk (loop ws))
    → (u : Ty) → Plain u
    → IsOk (adt_cmp kind name n loop u)
unfolding Plain
adt_cmp-IsOk kind name n loop loops (adt kind' name' ws) h =
    and_then-IsOk (ok (adt_value kind == adt_value kind')) _ tt (λ _.
      and_then-IsOk (ok (equal name name')) _ tt (λ _.
        and_then-IsOk (ok (n == number_of_variants ws)) (loop ws) tt
          (λ e. loops ws (ok-== _ _ e) h)))
adt_cmp-IsOk kind name n loop loops _ h = tt
