-- ===== src/Unification/Unify/Plain.antt =====
-- Types that hold no other type, and runs that return one.
pub mod Answers
use mathlib.Core.Path.{subst}
use mlir_rustc.Prelude.{
  ℕ, suc, ◌==◌, Bool, true, false, not, ◌&&◌, if◌then◌else◌, List, [], ◌∷◌, Option, none, some, ◌≡◌,
  refl, sym, ap, ◌∙◌, Outcome, ok, aborted, arith, Bool-cases, inl, inr,
}
use mlir_rustc.TyTy.Types
use mlir_rustc.TyTy.Types.{IntKind, UintKind, int_value, uint_value}
use mlir_rustc.TyTy.Compare.{can_equal}
use mlir_rustc.Unification.Store.{
  BaseType, Shape, Context, bool_type, char_type, usize_type, isize_type, never_type, str_type,
  error_type, int_type, uint_type, float_type, infer_type, tuple_type, array_type, slice_type,
  raw_pointer_type, reference_type, error_object, updated, is_error_shape, new_type,
}
use mlir_rustc.Unification.Store.Commands.{Command, pure, abort, ◌>>=◌, ◌>>◌, load, alloc, is_error}
use mlir_rustc.Unification.Store.Clones
use mlir_rustc.Unification.Store.Clones.{clone}
use mlir_rustc.Unification.Store.Steady.Primitives.{updated-here}
use mlir_rustc.Unification.Expect
use mlir_rustc.Unification.Unify

-- The shapes that hold no type and are no inference variables, with their types.
abbrev pub is_plain : Shape → Bool
is_plain (infer_type _ _) = false
is_plain (tuple_type _) = false
is_plain (array_type _) = false
is_plain (slice_type _) = false
is_plain (raw_pointer_type _ _) = false
is_plain (reference_type _ _) = false
is_plain _ = true

abbrev pub plain_type : Shape → Types.Ty
plain_type bool_type = Types.bool
plain_type char_type = Types.char
plain_type usize_type = Types.usize
plain_type isize_type = Types.isize
plain_type never_type = Types.never
plain_type str_type = Types.str
plain_type (int_type k) = Types.int k
plain_type (uint_type k) = Types.uint k
plain_type (float_type k) = Types.float k
plain_type _ = Types.error

-- The run returns an object of the given shape.
pub record Gives (o : Outcome (ℕ × Context)) (s : Shape) : Type 0 where
  pub address : ℕ
  pub store : Context
  pub object : BaseType
  pub runs : o ≡ ok (address, store)
  pub there : store.objects address ≡ some object
  pub shaped : object.shape ≡ s

pub alloc-Gives : (t : BaseType) (c : Context) → Gives (alloc t c) t.shape
unfolding alloc
alloc-Gives t c = record {
  address = c.used;
  store = record c { objects = updated c.objects c.used t; used = suc c.used };
  object = t;
  runs = refl;
  there = updated-here c.objects c.used t;
  shaped = refl;
}

pub failure-Gives : (c : Context) → Gives (Expect.failure c) error_type
unfolding Expect.failure
failure-Gives c = alloc-Gives error_object c

pub load_lem : (a : ℕ) (c : Context) (t : BaseType) → c.objects a ≡ some t → load a c ≡ ok (t, c)
unfolding load
load_lem a c t h = rw (load, h) refl

clone_shape-plain :
    (copy : ℕ → Command ℕ) (t : BaseType) (s : Shape)
    → is_plain s ≡ true
    → Clones.clone_shape copy t s ≡ alloc t
clone_shape-plain copy t (infer_type _ _) h = cc
clone_shape-plain copy t (tuple_type _) h = cc
clone_shape-plain copy t (slice_type _) h = cc
clone_shape-plain copy t _ h = refl

pub clone-plain :
    (f a : ℕ) (c : Context) (t : BaseType)
    → c.objects a ≡ some t
    → is_plain t.shape ≡ true
    → clone (suc f) a c ≡ alloc t c
unfolding clone
clone-plain f a c t h k = rw (load_lem a c t h, clone_shape-plain (clone f) t t.shape k) refl
