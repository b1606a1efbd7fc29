-- ===== src/Target/Tests.antt =====
-- Types, structs and calls of the target.
use mlir_rustc.Prelude.{
  ◌<◌, true, false, List, [], ◌∷◌, ok, aborted, undefined, IsOk, ◌≡◌, ◌↔◌, refl, arith,
}
use mlir_rustc.Target.Types.{
  byte, word, single, TargetType, array_type, bitfield_type, builtin_type, scalable_vector_type,
  struct_type, Members, no_member, member, padding, get_members, copy_to_memory, size_round_up,
  set_size_with_unspecified_upper,
}
use mlir_rustc.Target.Sizes.{get_size_of, get_alignment_of}
use mlir_rustc.Target.Structs.{get_struct}
use mlir_rustc.Target.Structs.Padding.{Part, Measured, layout_end, has_padding, get_struct-size}
use mlir_rustc.Target.Classes.{
  is_homogeneous_floating_point_aggregate, is_homogeneous_short_vector_aggregate,
  is_dynamically_sized_type, is_float_member, is_short_vector,
}
use mlir_rustc.Target.Classes.Aggregates.{FirstOf, IsBuiltin, IsVector, homogeneous_aggregate_iff}
use mlir_rustc.Target.Classes.Scalable.{HoldsScalable, is_dynamically_sized_type_iff}
use mlir_rustc.Target.Calls.{get_call}
use mlir_rustc.Target.Calls.Returns.{get_call-IsOk, get_call-empty_struct}
use mlir_rustc.Target.Calls.Indexed.{Indexed, get_call-Indexed}

abbrev words : TargetType
words = array_type (builtin_type word) 3

abbrev byte_part : Part
byte_part = record { type = builtin_type byte; size = 1; align = 1 }

abbrev word_part : Part
word_part = record { type = builtin_type word; size = 4; align = 4 }

byte_part-Measured : Measured byte_part
unfolding get_size_of get_alignment_of
byte_part-Measured = record {
  no_bitfield = λ h. h;
  aligned = refl;
  sized = refl;
  positive = omega arith;
}

word_part-Measured : Measured word_part
unfolding get_size_of get_alignment_of
word_part-Measured = record {
  no_bitfield = λ h. h;
  aligned = refl;
  sized = refl;
  positive = omega arith;
}

get_struct-size_example :
    (ms : Members) × (get_struct (builtin_type byte ∷ builtin_type word ∷ [])
      ≡ ok (struct_type ms 5 1))
    × (get_members ms ≡ builtin_type byte ∷ builtin_type word ∷ [])
    × ((has_padding ms ≡ true) ↔ (5 < layout_end (byte_part ∷ word_part ∷ []) 0))
    × ((has_padding ms ≡ false) ↔ (5 ≡ layout_end (byte_part ∷ word_part ∷ []) 0))
get_struct-size_example =
    get_struct-size byte_part (word_part ∷ []) (byte_part-Measured, (word_part-Measured, tt))
      (omega arith)

-- The word is padded to offset 4, and the struct ends within it.
byte_and_word :
    get_struct (builtin_type byte ∷ builtin_type word ∷ [])
    ≡ ok (
        struct_type
          (member (builtin_type byte) (padding 3 (member (builtin_type word) no_member)))
          5
          1)
unfolding get_struct
byte_and_word = refl

-- The size is no multiple of the alignment.
word_and_byte :
    get_struct (builtin_type word ∷ builtin_type byte ∷ [])
    ≡ ok (struct_type (member (builtin_type word) (member (builtin_type byte) no_member)) 5 4)
unfolding get_struct
word_and_byte = refl

-- A bit-field has no alignment, so it cannot stand first.
bits_first : get_struct (bitfield_type 4 3 ∷ builtin_type word ∷ []) ≡ aborted
unfolding get_struct
bits_first = refl

abbrev float_and_word : Members
float_and_word = member (builtin_type single) (member (builtin_type word) no_member)

float_and_word_homogeneous :
    is_homogeneous_floating_point_aggregate (struct_type float_and_word 8 4) ≡ ok true
unfolding is_homogeneous_floating_point_aggregate
float_and_word_homogeneous = refl

homogeneous_aggregate_iff_example :
    ((is_homogeneous_floating_point_aggregate (struct_type float_and_word 8 4) ≡ ok true)
      ↔ FirstOf is_float_member IsBuiltin (get_members float_and_word))
    × ((is_homogeneous_short_vector_aggregate (struct_type float_and_word 8 4) ≡ ok true)
        ↔ FirstOf is_short_vector IsVector (get_members float_and_word))
homogeneous_aggregate_iff_example = homogeneous_aggregate_iff float_and_word 8 4

abbrev vector_inside : Members
vector_inside = member (struct_type (member (scalable_vector_type byte) no_member) 0 1) no_member

is_dynamically_sized_type_iff_example :
    (is_dynamically_sized_type (struct_type vector_inside 0 1) ≡ true) ↔ HoldsScalable vector_inside
is_dynamically_sized_type_iff_example = is_dynamically_sized_type_iff vector_inside 0 1

abbrev arguments : List TargetType
arguments = builtin_type single ∷ struct_type (member words (member words no_member)) 24 4 ∷ []

call :
    get_call arguments
    ≡ ok (
        (1, copy_to_memory (struct_type (member words (member words no_member)) 24 4))
        ∷ (1, size_round_up (struct_type (member words (member words no_member)) 24 4) 8)
        ∷ (0, set_size_with_unspecified_upper (builtin_type single) 8)
        ∷ (0, copy_to_memory (builtin_type single))
        ∷ [])
unfolding get_call
call = refl

get_call-IsOk_example : IsOk (get_call arguments)
get_call-IsOk_example = get_call-IsOk arguments (tt, (tt, tt))

get_call-empty_struct_example :
    get_call (builtin_type single ∷ struct_type (padding 3 no_member) 0 1 ∷ []) ≡ undefined
unfolding get_members
get_call-empty_struct_example =
    get_call-empty_struct (builtin_type single ∷ []) [] (padding 3 no_member) 0 1 (tt, tt) refl

get_call-Indexed_example : Indexed arguments (
    (1, copy_to_memory (struct_type (member words (member words no_member)) 24 4))
    ∷ (1, size_round_up (struct_type (member words (member words no_member)) 24 4) 8)
    ∷ (0, set_size_with_unspecified_upper (builtin_type single) 8)
    ∷ (0, copy_to_memory (builtin_type single))
    ∷ [])
get_call-Indexed_example = get_call-Indexed arguments _ call
