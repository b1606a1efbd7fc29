-- ===== src/Unification/Unify/Resolves/Numbers.antt =====
-- The number types, and what an inference variable expects of one.
use mlir_rustc.Prelude.{ℕ, Bool, true, false, if◌then◌else◌, ◌≡◌, refl, Outcome, ok, ok-injective}
use mlir_rustc.TyTy.Types
use mlir_rustc.TyTy.Types.{InferKind, no_float, no_integral}
use mlir_rustc.TyTy.Compare.{can_equal}
use mlir_rustc.Unification.Store.{
  BaseType, Shape, TypeHint, infer_type, int_type, uint_type, usize_type, isize_type, float_type,
  error_type, is_inferred, is_error_shape,
}
use mlir_rustc.Unification.Store.Commands.{Command}
use mlir_rustc.Unification.Expect
use mlir_rustc.Unification.Unify
use mlir_rustc.Unification.Unify.Plain.{is_plain, plain_type}

abbrev pub is_number : Shape → Bool
is_number (int_type _) = true
is_number (uint_type _) = true
is_number usize_type = true
is_number isize_type = true
is_number (float_type _) = true
is_number _ = false

pub number-plain : (s : Shape) → is_number s ≡ true → is_plain s ≡ true
number-plain (int_type _) h = refl
number-plain (uint_type _) h = refl
number-plain usize_type h = refl
number-plain isize_type h = refl
number-plain (float_type _) h = refl
number-plain _ h = cc

pub number-error : (s : Shape) → is_number s ≡ true → is_error_shape s ≡ false
number-error error_type h = cc
number-error _ h = refl

pub number-inferred : (s : Shape) → is_number s ≡ true → is_inferred s ≡ false
number-inferred (infer_type _ _) h = cc
number-inferred _ h = refl

pub number-settled : (s : Shape) → is_number s ≡ true → Unify.is_settled s ≡ true
number-settled (infer_type _ _) h = cc
number-settled _ h = refl

chosen : (b : Bool) (m n : Command ℕ) → Outcome.ok b ≡ ok true → (if b then m else n) ≡ m
chosen b m n h = rw (ok-injective h) refl

hint-chosen :
    (copy : ℕ → Command ℕ) (site : ℕ → ℕ → Command ℕ) (a : ℕ) (k : InferKind) (b : ℕ) (s : Shape)
    → is_number s ≡ true
    → can_equal (Types.inferred k) (plain_type s) ≡ ok true
    → Expect.expect_inference_variable copy site a k b s ≡ Expect.hint_left copy site a b s
unfolding can_equal
hint-chosen copy site a k b (int_type i) n e =
    chosen (no_float k) (Expect.hint_left copy site a b (int_type i)) Expect.failure e
hint-chosen copy site a k b (uint_type i) n e =
    chosen (no_float k) (Expect.hint_left copy site a b (uint_type i)) Expect.failure e
hint-chosen copy site a k b usize_type n e =
    chosen (no_float k) (Expect.hint_left copy site a b usize_type) Expect.failure e
hint-chosen copy site a k b isize_type n e =
    chosen (no_float k) (Expect.hint_left copy site a b isize_type) Expect.failure e
hint-chosen copy site a k b (float_type i) n e =
    chosen (no_integral k) (Expect.hint_left copy site a b (float_type i)) Expect.failure e
hint-chosen copy site a k b _ n e = cc

pub expect_shape-variable :
    (copy : ℕ → Command ℕ) (site : ℕ → ℕ → Command ℕ) (a : ℕ) (l : BaseType) (b : ℕ) (r : BaseType)
    (k : InferKind) (h : TypeHint)
    → is_number r.shape ≡ true
    → can_equal (Types.inferred k) (plain_type r.shape) ≡ ok true
    → Expect.expect_shape copy site a l b r (infer_type k h)
      ≡ Expect.hint_left copy site a b r.shape
unfolding Expect.expect_shape
expect_shape-variable copy site a l b r k h = hint-chosen copy site a k b r.shape
