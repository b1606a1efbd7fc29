-- ===== src/Target/Types.antt =====
-- code/include/TargetInfo/Types.h, Struct.h and Actions.h: the types of the target.
use mlir_rustc.Prelude.{ℕ, ◌+◌, ◌-◌, ◌*◌, ◌%◌, ◌^◌, Bool, true, false, List, [], ◌∷◌}

pub data BuiltinKind : Type 0 where
  byte short word double_word quad_word half single double quad_float : BuiltinKind
  single_decimal double_decimal quad_decimal float_with_80_bits : BuiltinKind

-- The signature of a function type, the members of a union and the type below a bit-field are left
-- out, since no code reads them.
mutual
  pub data TargetType : Type 0 where
    -- its base type and its number of elements
    array_type : TargetType → ℕ → TargetType
    -- its size in bytes and its bits
    bitfield_type : ℕ → ℕ → TargetType
    builtin_type pointer_type scalable_vector_type scalable_predicate_type :
        BuiltinKind → TargetType
    function_type : TargetType
    -- its members, its size and its alignment in bytes
    struct_type : Members → ℕ → ℕ → TargetType
    -- its size and its alignment in bytes
    union_type : ℕ → ℕ → TargetType
    vector_type : ℕ → TargetType

  -- `std::vector<std::variant<Type *, unsigned>>`: an unsigned number is padding, in bytes.
  pub data Members : Type 0 where
    no_member : Members
    member : TargetType → Members → Members
    padding : ℕ → Members → Members

-- A sum or a product of two numbers of the type size_t.
abbrev pub size_t_mod : ℕ
size_t_mod = 2 ^ 64

-- `push_back` on the members of a struct.
unfoldable pub push_member : Members → TargetType → Members
push_member no_member t = member t no_member
push_member (member u ms) t = member u (push_member ms t)
push_member (padding n ms) t = padding n (push_member ms t)

unfoldable pub push_padding : Members → ℕ → Members
push_padding no_member n = padding n no_member
push_padding (member u ms) n = member u (push_padding ms n)
push_padding (padding k ms) n = padding k (push_padding ms n)

-- `getMembers`, without the padding.
unfoldable pub get_members : Members → List TargetType
get_members no_member = []
get_members (member t ms) = t ∷ get_members ms
get_members (padding n ms) = get_members ms

-- `getFreeBits`, a difference of the type size_t.
unfoldable pub get_free_bits : ℕ → ℕ → ℕ
get_free_bits size_in_bytes bits =
    (size_in_bytes * 8 % size_t_mod + size_t_mod - bits % size_t_mod) % size_t_mod

-- The value of the enumerator of `TypeKind`.
unfoldable pub type_kind : TargetType → ℕ
type_kind (array_type base n) = 0
type_kind (bitfield_type size bits) = 1
type_kind (builtin_type bk) = 2
type_kind function_type = 3
type_kind (pointer_type bk) = 4
type_kind (scalable_vector_type bk) = 5
type_kind (scalable_predicate_type bk) = 6
type_kind (struct_type ms size align) = 7
type_kind (union_type size align) = 8
type_kind (vector_type bits) = 9

-- `isFloatAAPCS`.
unfoldable pub is_float_aapcs : BuiltinKind → Bool
is_float_aapcs half = true
is_float_aapcs single = true
is_float_aapcs double = true
is_float_aapcs quad_float = true
is_float_aapcs single_decimal = true
is_float_aapcs double_decimal = true
is_float_aapcs quad_decimal = true
is_float_aapcs _ = false

pub data Action : Type 0 where
  copy_to_memory : TargetType → Action
  size_round_up set_size_with_unspecified_upper zero_or_sign_extend : TargetType → ℕ → Action
