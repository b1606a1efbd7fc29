-- ===== src/TyTy/Tests.antt =====
-- `canEqual` at concrete types.
use mlir_rustc.Prelude.{Bool, true, false, ◌≡◌, ◌↔◌, refl, codes, ok}
use mlir_rustc.TyTy.Types.{
  Ty, bool, str, int, uint, float, inferred, reference, slice, tuple, function_pointer, adt, nil,
  cons, variant, no_variant, field, no_field, i32, u8, f64, integral, any_float, enumeration,
}
use mlir_rustc.TyTy.Compare.{can_equal}
use mlir_rustc.TyTy.Compare.Classes.{Plain}
use mlir_rustc.TyTy.Compare.Returns.{can_equal-answers}
use mlir_rustc.TyTy.Compare.Reflexive.{can_equal_refl}
use mlir_rustc.TyTy.Compare.Rigid.{Rigid, can_equal_iff}

-- `Option<i32>`.
abbrev option : Ty
option =
    adt enumeration (codes "Option")
      (variant no_field (variant (field 16 (int i32) no_field) no_variant))

-- `fn(&mut [u8], bool) -> (f64,)`
abbrev pointer : Ty
pointer =
    function_pointer (cons (reference true (slice (uint u8))) (cons bool nil))
      (tuple (cons (float f64) nil))

can_equal-answers_example : (b : Bool) × (can_equal option pointer ≡ ok b)
unfolding Plain
can_equal-answers_example =
    can_equal-answers option pointer (tt, ((tt, tt), tt)) ((tt, (tt, tt)), (tt, tt))

can_equal_refl_example : can_equal option option ≡ ok true
unfolding Plain
can_equal_refl_example = can_equal_refl option (tt, ((tt, tt), tt))

can_equal_iff_example :
    (can_equal pointer (reference false str) ≡ ok true) ↔ (pointer ≡ reference false str)
unfolding Rigid
can_equal_iff_example = can_equal_iff pointer (reference false str) ((tt, (tt, tt)), tt) tt

-- A tuple of `bool` and `i32` passes for one of `bool` and `str`.
tuple_test :
    can_equal (tuple (cons bool (cons (int i32) nil))) (tuple (cons bool (cons str nil))) ≡ ok true
unfolding can_equal
tuple_test = refl

-- An integer variable and a float variable pass for each other, and a variable for `str` only one way.
infer_test : can_equal (inferred integral) (inferred any_float) ≡ ok true
unfolding can_equal
infer_test = refl
