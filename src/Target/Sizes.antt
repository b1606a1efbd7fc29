-- ===== src/Target/Sizes.antt =====
-- `getSizeOf` and `getAlignmentOf` of code/TargetInfo/Linux/AArch64.cpp, and the questions of
-- AArch64TypeBuilder.cpp about what is supported.
use mlir_rustc.Prelude.{
  ℕ, ◌*◌, ◌/◌, ◌%◌, ◌==◌, Bool, true, false, ◌||◌, Outcome, ok, aborted, assert, ◌>>=◌, ◌>>◌,
}
use mlir_rustc.Target.Types.{
  BuiltinKind, byte, short, word, double_word, quad_word, half, single, double, quad_float,
  single_decimal, double_decimal, quad_decimal, float_with_80_bits, TargetType, array_type,
  builtin_type, pointer_type, struct_type, union_type, vector_type, size_t_mod,
}

abbrev pub pointer_size : ℕ
pointer_size = 8

-- The switch over the builtin kinds, which `getSizeOf` and `getAlignmentOf` share to the letter.
unfoldable pub builtin_size : BuiltinKind → Outcome ℕ
builtin_size byte = ok 1
builtin_size short = ok 2
builtin_size word = ok 4
builtin_size double_word = ok 8
builtin_size quad_word = ok 16
builtin_size half = ok 2
builtin_size single = ok 4
builtin_size double = ok 8
builtin_size quad_float = ok 16
builtin_size single_decimal = ok 4
builtin_size double_decimal = ok 8
builtin_size quad_decimal = ok 16
builtin_size float_with_80_bits = aborted

unfoldable pub is_supported_vector_length : ℕ → Bool
is_supported_vector_length bits = bits == 64 || bits == 128

unfoldable pub vector_size : ℕ → Outcome ℕ
unfolding is_supported_vector_length
vector_size bits = assert (is_supported_vector_length bits) >> ok (bits / 8)

unfoldable pub get_size_of : TargetType → Outcome ℕ
unfolding builtin_size vector_size
get_size_of (builtin_type bk) = builtin_size bk
get_size_of (pointer_type bk) = ok pointer_size
get_size_of (vector_type bits) = vector_size bits
get_size_of (struct_type ms size align) = ok size
get_size_of (union_type size align) = ok size
get_size_of (array_type base n) = get_size_of base >>= λ size. ok (size * n % size_t_mod)
get_size_of _ = aborted

unfoldable pub get_alignment_of : TargetType → Outcome ℕ
unfolding builtin_size vector_size
get_alignment_of (builtin_type bk) = builtin_size bk
get_alignment_of (pointer_type bk) = ok pointer_size
get_alignment_of (vector_type bits) = vector_size bits
get_alignment_of (struct_type ms size align) = ok align
get_alignment_of (union_type size align) = ok align
get_alignment_of (array_type base n) = get_alignment_of base
get_alignment_of _ = aborted

-- `AArch64LinuxTypeBuilder::getBuiltin`.
unfoldable pub get_builtin : BuiltinKind → Outcome TargetType
get_builtin float_with_80_bits = aborted
get_builtin bk = ok (builtin_type bk)

unfoldable pub is_supported_bit_field_type : TargetType → Bool
is_supported_bit_field_type (builtin_type bk) = true
is_supported_bit_field_type (pointer_type bk) = true
is_supported_bit_field_type (vector_type bits) = true
is_supported_bit_field_type _ = false
