-- ===== src/Unification/Store.antt =====
-- The store that unification reads and writes: the type objects of code/include/TyCtx/TyTy.h at
-- addresses, the map `resolved` of `TyCtx` from node ids to them, and the counter of node ids of
-- code/Basic/Ids.cpp. A type variable is the node id that it holds.
pub mod Commands
pub mod Clones
pub mod Steady
use mlir_rustc.Prelude.{ℕ, Bool, true, false, ◌==◌, ltb, if◌then◌else◌, List, [], ◌∷◌, Option, some}
use mlir_rustc.TyTy.Types.{
  InferKind, integral, any_float, IntKind, i8, i16, i32, i64, i128, UintKind, u8, u16, u32, u64,
  u128, FloatKind, f32, f64,
}

pub data SignedHint : Type 0 where
  signed unsigned unknown_sign : SignedHint

pub data SizeHint : Type 0 where
  s8 s16 s32 s64 s128 unknown_size : SizeHint

-- The kinds that a hint has: those of the types that `applyScalarTypeHint` reads, and `Error`.
pub data HintKind : Type 0 where
  usize_kind isize_kind int_kind uint_kind float_kind error_kind : HintKind

pub record TypeHint : Type 0 where
  pub kind : HintKind
  pub sign_hint : SignedHint
  pub size_hint : SizeHint

-- The kind of an object, with the data members of its class. Pointers have whether they are mutable.
pub data Shape : Type 0 where
  bool_type char_type usize_type isize_type never_type str_type error_type : Shape
  int_type : IntKind → Shape
  uint_type : UintKind → Shape
  float_type : FloatKind → Shape
  infer_type : InferKind → TypeHint → Shape
  tuple_type : List ℕ → Shape
  array_type slice_type : ℕ → Shape
  raw_pointer_type reference_type : Bool → ℕ → Shape

-- `combined` is a `std::set`, in ascending order.
pub record BaseType : Type 0 where
  pub shape : Shape
  pub reference : ℕ
  pub type_reference : ℕ
  pub combined : List ℕ

-- `used` is the first address that holds no object yet.
pub record Context : Type 0 where
  pub objects : ℕ → Option BaseType
  pub used : ℕ
  pub resolved : ℕ → Option ℕ
  pub last_id : ℕ

unfoldable pub updated : {A : Type 0} → (ℕ → Option A) → ℕ → A → ℕ → Option A
updated m k v j = if j == k then some v else m j

-- `std::set::insert`
unfoldable pub set_insert : ℕ → List ℕ → List ℕ
set_insert n [] = n ∷ []
set_insert n (m ∷ ms) =
    let rest = set_insert n ms in
    if ltb n m then n ∷ m ∷ ms else if ltb m n then m ∷ rest else m ∷ ms

abbrev pub is_inferred : Shape → Bool
is_inferred (infer_type _ _) = true
is_inferred _ = false

abbrev pub is_error_shape : Shape → Bool
is_error_shape error_type = true
is_error_shape _ = false

-- `new XType(reference, typeReference, ...)` without combined references, and `new ErrorType(0)`.
abbrev pub new_type : Shape → ℕ → ℕ → BaseType
new_type s r t = record { shape = s; reference = r; type_reference = t; combined = [] }

abbrev pub error_object : BaseType
error_object = new_type error_type 0 0

abbrev pub int_size : IntKind → SizeHint
int_size i8 = s8
int_size i16 = s16
int_size i32 = s32
int_size i64 = s64
int_size i128 = s128

abbrev pub uint_size : UintKind → SizeHint
uint_size u8 = s8
uint_size u16 = s16
uint_size u32 = s32
uint_size u64 = s64
uint_size u128 = s128

abbrev pub float_size : FloatKind → SizeHint
float_size f32 = s32
float_size f64 = s64

-- `InferType::applyScalarTypeHint`: what the variable is with the hint.
abbrev pub hinted : InferKind → TypeHint → Shape → Shape
hinted k h usize_type = infer_type integral (record h { kind = usize_kind })
hinted k h isize_type = infer_type integral (record h { kind = isize_kind })
hinted k h (int_type i) =
    infer_type integral (record { kind = int_kind; sign_hint = signed; size_hint = int_size i })
hinted k h (uint_type u) =
    infer_type integral (record { kind = uint_kind; sign_hint = unsigned; size_hint = uint_size u })
hinted k h (float_type f) =
    infer_type any_float
      (record { kind = float_kind; sign_hint = signed; size_hint = float_size f })
hinted k h _ = infer_type k h
