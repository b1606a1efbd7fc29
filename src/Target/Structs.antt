-- ===== src/Target/Structs.antt =====
-- `getStruct` of code/TargetInfo/Linux/AArchStructBuilder.cpp, which AArch64LinuxTypeBuilder calls.
pub mod Padding
use mlir_rustc.Prelude.{
  ℕ, zero, suc, ◌+◌, ◌-◌, ◌/◌, ◌%◌, ◌^◌, ◌==◌, ltb, if◌then◌else◌, Bool, true, false, List, [], ◌∷◌,
  Outcome, ok, aborted, undefined, ◌>>=◌, ◌>>◌,
}
use mlir_rustc.Target.Types.{
  TargetType, bitfield_type, struct_type, Members, no_member, push_member, push_padding,
  get_free_bits, size_t_mod,
}
use mlir_rustc.Target.Sizes.{get_size_of, get_alignment_of}

-- `currentOffset`, `currentSize` and `newMembers`.
pub record Layout : Type 0 where
  pub offset : ℕ
  pub size : ℕ
  pub new_members : Members

abbrev pub start : Layout
start = record { offset = 0; size = 0; new_members = no_member }

abbrev pub add_size_t : ℕ → ℕ → ℕ
add_size_t a b = (a + b) % size_t_mod

-- The member with the padding before it that `swizzle` asks for; the padding is cut to `unsigned`.
unfoldable pub place : TargetType → ℕ → ℕ → Layout → Layout
unfolding push_member push_padding
place t align size l = record {
  offset = add_size_t l.offset size;
  size = add_size_t l.size size;
  new_members =
      if l.offset % align == 0
      then push_member l.new_members t
      else push_member (push_padding l.new_members ((align - l.offset % align) % 2 ^ 32)) t;
}

-- A remainder by zero is undefined.
unfoldable pub add_member : TargetType → Layout → Outcome Layout
unfolding get_alignment_of get_size_of place
add_member t l = get_alignment_of t >>= λ align.
    get_size_of t >>= λ size. if align == 0 then undefined else ok (place t align size l)

-- A bit-field is left out of the struct; the alignment of its successor is computed for nothing.
unfoldable pub skip_bitfield : ℕ → ℕ → List TargetType → Layout → Outcome Layout
unfolding get_free_bits get_alignment_of
skip_bitfield size_in_bytes bits [] l = ok l
skip_bitfield size_in_bytes bits (next ∷ members) l =
    if ltb 0 (get_free_bits size_in_bytes bits / 8)
    then (get_alignment_of next >>= λ align. ok l)
    else ok l

-- The loop over the members.
unfoldable pub layout_loop : List TargetType → Layout → Outcome Layout
unfolding add_member skip_bitfield
layout_loop [] l = ok l
layout_loop (bitfield_type size_in_bytes bits ∷ members) l =
    skip_bitfield size_in_bytes bits members l >>= λ l'. layout_loop members l'
layout_loop (t ∷ members) l = add_member t l >>= λ l'. layout_loop members l'

unfoldable pub get_struct : List TargetType → Outcome TargetType
unfolding layout_loop get_alignment_of
get_struct [] = aborted
get_struct (t ∷ members) = layout_loop (t ∷ members) start >>= λ l.
    get_alignment_of t >>= λ align. ok (struct_type l.new_members l.size align)
