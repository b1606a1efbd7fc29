-- ===== src/Mangler/Mangle.antt =====
-- The members of `Mangler`, with the two static counters as a state. The value of an array's length is
-- given: `evaluator.foldAsUsize` computes it.
pub mod Total
use mlir_rustc.Prelude.{
  ℕ, suc, ltb, Bool, true, false, if◌then◌else◌, List, [], ◌∷◌, ◌++◌, reverse, length, Option, none,
  some, Bytes, codes, Outcome, ok, undefined, ◌>>=◌,
}
use mlir_rustc.Mangler.Digits.{to_base62, to_decimal, mangle_const}
use mlir_rustc.Mangler.Basic.{basic_type}

-- `backCounter` of `mangleBackref` and `disambiguator` of `mangleIdentifier`, of the type int, which
-- start at 10.
pub record Counters : Type 0 where
  pub back_counter : ℕ
  pub disambiguator : ℕ

abbrev pub counters : Counters
counters = record { back_counter = 10; disambiguator = 10 }

-- `INT_MAX`, above which `++` on an int is undefined.
abbrev pub int_max : ℕ
int_max = 2_147_483_647

abbrev pub Mangled : Type 0
Mangled = Outcome (Bytes × Counters)

-- A segment's name: an identifier, or a keyword with its text.
pub data PathIdentSegment : Type 0 where
  identifier keyword : Bytes → PathIdentSegment

mutual
  -- The kinds of a type expression that the code does not mangle are `other_type`.
  pub data TypeExpression : Type 0 where
    type_path : Segments → TypeExpression
    tuple_type : Types → TypeExpression
    never_type other_type : TypeExpression
    -- whether it is `mut`, and whether it is `const`
    raw_pointer_type : Bool → Bool → TypeExpression → TypeExpression
    -- whether it is mutable, and whether it has a lifetime
    reference_type : Bool → Bool → TypeExpression → TypeExpression
    array_type : TypeExpression → ℕ → TypeExpression
    slice_type : TypeExpression → TypeExpression
    -- whether it is unsafe, its ABI, and its return type
    bare_function_type : Bool → Option Bytes → ReturnType → TypeExpression

  pub data ReturnType : Type 0 where
    no_return : ReturnType
    returns : TypeExpression → ReturnType

  pub data Types : Type 0 where
    no_type : Types
    one_type : TypeExpression → Types → Types

  -- A segment with its name, its generic arguments, and whether it is a function type.
  pub data Segments : Type 0 where
    no_segment : Segments
    segment : PathIdentSegment → GenericArgs → Bool → Segments → Segments

  pub data GenericArgs : Type 0 where
    no_generics : GenericArgs
    generics : Args → GenericArgs

  pub data Args : Type 0 where
    no_arg : Args
    lifetime_arg const_arg binding_arg : Args → Args
    type_arg : TypeExpression → Args → Args

unfoldable pub mangle_backref : Counters → Mangled
unfolding to_base62
mangle_backref s =
    if ltb s.back_counter int_max
    then ok (to_base62 s.back_counter, record s { back_counter = suc s.back_counter })
    else undefined

-- `ident.getAsBytes()` is given as the bytes of the identifier.
unfoldable pub mangle_identifier : Bytes → Counters → Mangled
unfolding to_base62 to_decimal
mangle_identifier bytes s =
    if ltb s.disambiguator int_max
    then ok (
      codes "s"
          ++ to_base62 s.disambiguator
          ++ codes "u"
          ++ to_decimal (length bytes)
          ++ codes "_"
          ++ bytes,
      record s { disambiguator = suc s.disambiguator },
    )
    else undefined

abbrev pub mangle_path_ident_segment : PathIdentSegment → Counters → Mangled
mangle_path_ident_segment (identifier bytes) s = mangle_identifier bytes s
mangle_path_ident_segment (keyword text) s = ok (text, s)

abbrev pub mangle_lifetime : Bool → Bytes
mangle_lifetime true = codes "L"
mangle_lifetime false = []

-- A path of one identifier without arguments may be a basic type.
unfoldable pub try_basic_type : Segments → Option ℕ
unfolding basic_type
try_basic_type (segment (identifier id) no_generics false no_segment) = basic_type id
try_basic_type _ = none

-- What is written in front of the result of a run, and what is written after it by the next one.
abbrev pub in_front : Bytes → Mangled → Mangled
in_front text m = m >>= λ (bytes, s). ok (text ++ bytes, s)

abbrev pub then_write : Mangled → (Counters → Mangled) → Mangled
then_write m k = m >>= λ (bytes, s). in_front bytes (k s)

abbrev pub write : Bytes → Counters → Mangled
write text s = ok (text, s)

abbrev pub qualifiers : Bool → Option Bytes → Bytes
qualifiers unsafe none = if unsafe then codes "FU" else codes "F"
qualifiers unsafe (some abi) = (if unsafe then codes "FUK" else codes "FK") ++ abi

abbrev pub pointer_letter : Bool → Bool → Bytes
pointer_letter true is_const = codes "O"
pointer_letter false true = codes "P"
pointer_letter false false = []

abbrev pub reference_letter : Bool → Bytes
reference_letter true = codes "Q"
reference_letter false = codes "R"

abbrev pub basic_or : Option ℕ → Mangled → Counters → Mangled
basic_or none m s = m
basic_or (some c) m s = ok (c ∷ [], s)

unfoldable mutual
  unfolding mangle_backref mangle_identifier try_basic_type mangle_const

  -- `!` is cast to a path, which it is not.
  pub mangle_type : TypeExpression → Counters → Mangled
  mangle_type (type_path segments) s =
      basic_or (try_basic_type segments) (mangle_segments segments s) s
  mangle_type (tuple_type types) s =
      in_front (codes "T") (then_write (mangle_types types s) (write (codes "E")))
  mangle_type never_type s = undefined
  mangle_type other_type s = mangle_backref s
  mangle_type (raw_pointer_type is_mut is_const t) s =
      in_front (pointer_letter is_mut is_const) (mangle_type t s)
  mangle_type (reference_type is_mut lifetime t) s =
      in_front (reference_letter is_mut ++ mangle_lifetime lifetime) (mangle_type t s)
  mangle_type (array_type t n) s =
      in_front (codes "A") (then_write (mangle_type t s) (write (mangle_const n)))
  mangle_type (slice_type t) s = in_front (codes "S") (mangle_type t s)
  mangle_type (bare_function_type unsafe abi ret) s =
      in_front (qualifiers unsafe abi) (mangle_return ret s)

  pub mangle_return : ReturnType → Counters → Mangled
  mangle_return no_return s = ok ([], s)
  mangle_return (returns t) s = in_front (codes "E") (mangle_type t s)

  pub mangle_types : Types → Counters → Mangled
  mangle_types no_type s = ok ([], s)
  mangle_types (one_type t ts) s = then_write (mangle_type t s) (mangle_types ts)

  -- The loop of `mangleTypePath`; a function type in a segment adds nothing.
  pub mangle_segments : Segments → Counters → Mangled
  mangle_segments no_segment s = ok ([], s)
  mangle_segments (segment name args _ rest) s =
      then_write (mangle_path_ident_segment name s)
        (λ t. then_write (mangle_generic_args args t) (mangle_segments rest))

  pub mangle_generic_args : GenericArgs → Counters → Mangled
  mangle_generic_args no_generics s = ok ([], s)
  mangle_generic_args (generics args) s = mangle_args args s

  -- `mangleGenericArg` of each argument.
  pub mangle_args : Args → Counters → Mangled
  mangle_args no_arg s = ok ([], s)
  mangle_args (lifetime_arg rest) s = in_front (codes "L") (mangle_args rest s)
  mangle_args (const_arg rest) s = in_front (codes "K") (mangle_args rest s)
  mangle_args (binding_arg rest) s = mangle_args rest s
  mangle_args (type_arg t rest) s = then_write (mangle_type t s) (mangle_args rest)

-- The items of a path; those that the code passes over are `other_item`.
pub data VisItem : Type 0 where
  module_item function_item struct_item : Bytes → VisItem
  inherent_impl : TypeExpression → VisItem
  trait_impl : TypeExpression → TypeExpression → VisItem
  use_declaration other_item : VisItem

abbrev pub tag_of : VisItem → List Bytes
tag_of (module_item _) = codes "Nt" ∷ []
tag_of (function_item _) = codes "Nv" ∷ []
tag_of (struct_item _) = codes "Nu" ∷ []
tag_of (inherent_impl _) = codes "M" ∷ []
tag_of (trait_impl _ _) = codes "X" ∷ []
tag_of use_declaration = []
tag_of other_item = []

unfoldable pub mangle_item : VisItem → Counters → Mangled
unfolding mangle_identifier mangle_type
mangle_item (module_item name) s = mangle_identifier name s
mangle_item (function_item name) s = mangle_identifier name s
mangle_item (struct_item name) s = mangle_identifier name s
mangle_item (inherent_impl t) s = mangle_type t s
mangle_item (trait_impl t path) s = then_write (mangle_type t s) (mangle_type path)
-- `llvm_unreachable`
mangle_item use_declaration s = undefined
mangle_item other_item s = ok ([], s)

-- The loop over the path: the tags in its order, and the names.
unfoldable pub tags_of : List VisItem → List Bytes
tags_of [] = []
tags_of (it ∷ path) = tag_of it ++ tags_of path

unfoldable pub mangle_items : List VisItem → Counters → Mangled
unfolding mangle_item
mangle_items [] s = ok ([], s)
mangle_items (it ∷ path) s = then_write (mangle_item it s) (mangle_items path)

unfoldable pub joined : List Bytes → Bytes
joined [] = []
joined (t ∷ ts) = t ++ joined ts

-- `_R0`, the tags from the last one to the first, and the crate.
unfoldable pub symbol_prefix : List VisItem → Bytes → Bytes
unfolding to_decimal tags_of joined
symbol_prefix path crate_name =
    codes "_R0"
    ++ joined (reverse (tags_of path))
    ++ codes "C"
    ++ to_decimal (length crate_name)
    ++ crate_name

unfoldable pub mangle : List VisItem → Bytes → Counters → Mangled
unfolding symbol_prefix mangle_items
mangle path crate_name s =
    in_front (symbol_prefix path crate_name)
      (then_write (mangle_items path s) (write (codes "$rust_compiler")))
