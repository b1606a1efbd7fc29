-- ===== src/TyTy/Types.antt =====
-- The types of code/include/TyCtx/TyTy.h, as far as their comparison reads them. A type variable
-- stands for the type that `TypeVariable::getType` finds for it, so a type is a finite tree here.
use mlir_rustc.Prelude.{ℕ, suc, Bool, true, false, List, Bytes, ◌==◌, ◌&&◌}

pub data InferKind : Type 0 where
  integral any_float general : InferKind

pub data IntKind : Type 0 where
  i8 i16 i32 i64 i128 : IntKind

pub data UintKind : Type 0 where
  u8 u16 u32 u64 u128 : UintKind

pub data FloatKind : Type 0 where
  f32 f64 : FloatKind

pub data AdtKind : Type 0 where
  struct_struct tuple_struct enumeration : AdtKind

mutual
  -- A closure has its type reference; a dynamic object the node ids of its bounds.
  pub data Ty : Type 0 where
    bool char usize isize never str error place_holder : Ty
    int : IntKind → Ty
    uint : UintKind → Ty
    float : FloatKind → Ty
    inferred : InferKind → Ty
    parameter : Bytes → Ty
    dynamic : List ℕ → Ty
    array slice projection : Ty → Ty
    raw_pointer reference : Bool → Ty → Ty
    tuple : Tys → Ty
    function function_pointer : Tys → Ty → Ty
    closure : ℕ → Tys → Ty → Ty
    adt : AdtKind → Bytes → Variants → Ty

  pub data Tys : Type 0 where
    nil : Tys
    cons : Ty → Tys → Tys

  pub data Variants : Type 0 where
    no_variant : Variants
    variant : Fields → Variants → Variants

  -- The fields of a variant are pointers: null, or an address with the type of the field there.
  pub data Fields : Type 0 where
    no_field : Fields
    null_field : Fields → Fields
    field : ℕ → Ty → Fields → Fields

abbrev pub int_value : IntKind → ℕ
int_value i8 = 0
int_value i16 = 1
int_value i32 = 2
int_value i64 = 3
int_value i128 = 4

abbrev pub uint_value : UintKind → ℕ
uint_value u8 = 0
uint_value u16 = 1
uint_value u32 = 2
uint_value u64 = 3
uint_value u128 = 4

abbrev pub float_value : FloatKind → ℕ
float_value f32 = 0
float_value f64 = 1

abbrev pub adt_value : AdtKind → ℕ
adt_value struct_struct = 0
adt_value tuple_struct = 1
adt_value enumeration = 2

-- `getInferredKind() == InferKind::General` and the other tests of the kind.
abbrev pub is_general : InferKind → Bool
is_general general = true
is_general _ = false

abbrev pub no_float : InferKind → Bool
no_float any_float = false
no_float _ = true

abbrev pub no_integral : InferKind → Bool
no_integral integral = false
no_integral _ = true

abbrev pub number_of_types : Tys → ℕ
number_of_types nil = 0
number_of_types (cons _ ts) = suc (number_of_types ts)

abbrev pub number_of_variants : Variants → ℕ
number_of_variants no_variant = 0
number_of_variants (variant _ vs) = suc (number_of_variants vs)

-- `==` of two vectors of pointers.
abbrev pub same_fields : Fields → Fields → Bool
same_fields no_field no_field = true
same_fields (null_field fs) (null_field gs) = same_fields fs gs
same_fields (field p _ fs) (field q _ gs) = p == q && same_fields fs gs
same_fields _ _ = false
