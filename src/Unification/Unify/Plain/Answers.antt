-- ===== src/Unification/Unify/Plain/Answers.antt =====
-- What `unify` answers for two types that hold no other type, and `canEqual` of code/TyCtx/TyTy.cpp.
use mlir_rustc.Prelude.{ℕ, Bool, true, false, some, ◌≡◌, refl, Outcome, ok, aborted}
use mlir_rustc.TyTy.Types
use mlir_rustc.TyTy.Types.{f32, f64}
use mlir_rustc.TyTy.Compare.{can_equal}
use mlir_rustc.Unification.Store.{
  BaseType, Shape, Context, bool_type, char_type, usize_type, isize_type, str_type, error_type,
  int_type, uint_type, float_type, is_error_shape,
}
use mlir_rustc.Unification.Store.Commands.{Command, is_error}
use mlir_rustc.Unification.Expect
use mlir_rustc.Unification.Unify
use mlir_rustc.Unification.Unify.Plain.{plain_type, load_lem}

-- The left types that `expect` has a member for, but `!`.
abbrev pub has_member : Shape → Bool
has_member (int_type _) = true
has_member (uint_type _) = true
has_member usize_type = true
has_member isize_type = true
has_member str_type = true
has_member _ = false

-- The right type where `canEqual` answers yes, and the error type otherwise.
abbrev pub agreed : Outcome Bool → Shape → Shape
agreed (ok true) s = s
agreed _ s = error_type

pub expect-loads :
    (copy : ℕ → Command ℕ) (site : ℕ → ℕ → Command ℕ) (a b : ℕ) (l r : BaseType) (c : Context)
    → c.objects a ≡ some l
    → c.objects b ≡ some r
    → Expect.expect copy site a b c ≡ Expect.expect_shape copy site a l b r l.shape c
unfolding Expect.expect
expect-loads copy site a b l r c h k = rw (load_lem a c l h, load_lem b c r k) refl

pub is_error_lem :
    (a : ℕ) (c : Context) (t : BaseType)
    → c.objects a ≡ some t
    → is_error a c ≡ ok (is_error_shape t.shape, c)
unfolding is_error
is_error_lem a c t h = rw (load_lem a c t h) refl

-- The left types that hold no type and that `expect` has no member for.
abbrev pub has_none : Shape → Bool
has_none bool_type = true
has_none char_type = true
has_none (float_type _) = true
has_none error_type = true
has_none _ = false

expect_shape-aborted :
    (copy : ℕ → Command ℕ) (site : ℕ → ℕ → Command ℕ) (a : ℕ) (l : BaseType) (b : ℕ) (r : BaseType)
    (s : Shape) (c : Context)
    → has_none s ≡ true
    → Expect.expect_shape copy site a l b r s c ≡ aborted
unfolding Expect.expect_shape
expect_shape-aborted copy site a l b r bool_type c h = refl
expect_shape-aborted copy site a l b r char_type c h = refl
expect_shape-aborted copy site a l b r (float_type _) c h = refl
expect_shape-aborted copy site a l b r error_type c h = refl
expect_shape-aborted copy site a l b r _ c h = cc

equals_itself : (s : Shape) → has_none s ≡ true → can_equal (plain_type s) (plain_type s) ≡ ok true
unfolding can_equal
equals_itself bool_type h = refl
equals_itself char_type h = refl
equals_itself (float_type f32) h = refl
equals_itself (float_type f64) h = refl
equals_itself error_type h = refl
equals_itself _ h = cc

-- For a left type that is `bool`, `char`, a floating-point type or an `ErrorType`, a failed assertion
-- ends `unify`, whatever the right type is and whether or not it commits or emits errors; and
-- `canEqual` answers yes for this left type and itself.
pub unify-aborted :
    (copy : ℕ → Command ℕ) (site : ℕ → ℕ → Command ℕ) (force_commit emit_errors : Bool) (a b : ℕ)
    (l r : BaseType) (c : Context)
    → c.objects a ≡ some l
    → c.objects b ≡ some r
    → has_none l.shape ≡ true
    → (Unify.unify copy site force_commit emit_errors false a b c ≡ aborted)
      × (can_equal (plain_type l.shape) (plain_type l.shape) ≡ ok true)
unfolding Unify.unify
unify-aborted copy site force_commit emit_errors a b l r c h k n = (
  rw (expect-loads copy site a b l r c h k, expect_shape-aborted copy site a l b r l.shape c n)
      refl,
  equals_itself l.shape n,
)
