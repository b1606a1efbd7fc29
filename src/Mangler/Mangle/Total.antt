-- ===== src/Mangler/Mangle/Total.antt =====
-- Types without `!` are mangled while the counters do not overflow.
use mlir_rustc.Prelude.{
  ℕ, ◌+◌, ◌≤◌, ltb, true, ◌≡◌, arith, List, [], ◌∷◌, Option, none, some, Bytes, codes, ◌++◌, ok,
}
use mlir_rustc.Mangler.Digits.{mangle_const}
use mlir_rustc.Mangler.Mangle
use mlir_rustc.Mangler.Mangle.{
  Counters, Mangled, PathIdentSegment, identifier, keyword, TypeExpression, type_path, tuple_type,
  never_type, other_type, raw_pointer_type, reference_type, array_type, slice_type,
  bare_function_type, ReturnType, no_return, returns, Types, no_type, one_type, Segments,
  no_segment, segment, GenericArgs, no_generics, generics, Args, no_arg, lifetime_arg, const_arg,
  binding_arg, type_arg, VisItem, module_item, function_item, struct_item, inherent_impl,
  trait_impl, use_declaration,
}

unfoldable mutual
  -- The type `!` does not stand in the type.
  pub HasNoNever : TypeExpression → Type 0
  HasNoNever (type_path segments) = SegmentsHaveNone segments
  HasNoNever (tuple_type ts) = TypesHaveNone ts
  HasNoNever never_type = ⊥
  HasNoNever other_type = Unit
  HasNoNever (raw_pointer_type _ _ t) = HasNoNever t
  HasNoNever (reference_type _ _ t) = HasNoNever t
  HasNoNever (array_type t _) = HasNoNever t
  HasNoNever (slice_type t) = HasNoNever t
  HasNoNever (bare_function_type _ _ ret) = ReturnHasNone ret

  ReturnHasNone : ReturnType → Type 0
  ReturnHasNone no_return = Unit
  ReturnHasNone (returns t) = HasNoNever t

  TypesHaveNone : Types → Type 0
  TypesHaveNone no_type = Unit
  TypesHaveNone (one_type t ts) = HasNoNever t × TypesHaveNone ts

  SegmentsHaveNone : Segments → Type 0
  SegmentsHaveNone no_segment = Unit
  SegmentsHaveNone (segment _ args _ rest) = GenericsHaveNone args × SegmentsHaveNone rest

  GenericsHaveNone : GenericArgs → Type 0
  GenericsHaveNone no_generics = Unit
  GenericsHaveNone (generics args) = ArgsHaveNone args

  ArgsHaveNone : Args → Type 0
  ArgsHaveNone no_arg = Unit
  ArgsHaveNone (lifetime_arg rest) = ArgsHaveNone rest
  ArgsHaveNone (const_arg rest) = ArgsHaveNone rest
  ArgsHaveNone (binding_arg rest) = ArgsHaveNone rest
  ArgsHaveNone (type_arg t rest) = HasNoNever t × ArgsHaveNone rest

abbrev pub name_steps : PathIdentSegment → ℕ
name_steps (identifier bytes) = 1
name_steps (keyword text) = 0

unfoldable mutual
  -- How many identifiers and types without a mangling of their own the type has, each of which moves a
  -- counter by one.
  pub steps : TypeExpression → ℕ
  steps (type_path segments) = segments_steps segments
  steps (tuple_type ts) = types_steps ts
  steps never_type = 0
  steps other_type = 1
  steps (raw_pointer_type _ _ t) = steps t
  steps (reference_type _ _ t) = steps t
  steps (array_type t _) = steps t
  steps (slice_type t) = steps t
  steps (bare_function_type _ _ ret) = return_steps ret

  pub return_steps : ReturnType → ℕ
  return_steps no_return = 0
  return_steps (returns t) = steps t

  pub types_steps : Types → ℕ
  types_steps no_type = 0
  types_steps (one_type t ts) = steps t + types_steps ts

  pub segments_steps : Segments → ℕ
  segments_steps no_segment = 0
  segments_steps (segment name args _ rest) =
      name_steps name + (generics_steps args + segments_steps rest)

  pub generics_steps : GenericArgs → ℕ
  generics_steps no_generics = 0
  generics_steps (generics args) = args_steps args

  pub args_steps : Args → ℕ
  args_steps no_arg = 0
  args_steps (lifetime_arg rest) = args_steps rest
  args_steps (const_arg rest) = args_steps rest
  args_steps (binding_arg rest) = args_steps rest
  args_steps (type_arg t rest) = steps t + args_steps rest

-- Neither counter overflows in so many steps.
abbrev pub HasRoom : ℕ → Counters → Type 0
HasRoom n s = (s.back_counter + n ≤ Mangle.int_max) × (s.disambiguator + n ≤ Mangle.int_max)

-- A result, with counters that moved by so many steps at most.
abbrev Moved : ℕ → Counters → Mangled → Type 0
Moved n s (ok (bytes, t)) =
    (t.back_counter ≤ s.back_counter + n) × (t.disambiguator ≤ s.disambiguator + n)
Moved n s _ = ⊥

in_front-Moved :
    (n : ℕ) (s : Counters) (text : Bytes) (m : Mangled)
    → Moved n s m
    → Moved n s (Mangle.in_front text m)
in_front-Moved n s text (ok r) h = h
in_front-Moved n s text _ h = h

further :
    (n k : ℕ) (s t : Counters) (m : Mangled)
    → (t.back_counter ≤ s.back_counter + n) × (t.disambiguator ≤ s.disambiguator + n)
    → Moved k t m
    → Moved (n + k) s m
further n k s t (ok (bytes, u)) h l = (omega arith, omega arith)
further n k s t _ h l = l

then_write-Moved :
    (n k : ℕ) (s : Counters) (m : Mangled) (next : Counters → Mangled)
    → Moved n s m
    → HasRoom (n + k) s
    → ((t : Counters) → HasRoom k t → Moved k t (next t))
    → Moved (n + k) s (Mangle.then_write m next)
then_write-Moved n k s (ok (bytes, t)) next h room l =
    further n k s t (Mangle.in_front bytes (next t)) h
      (in_front-Moved k t bytes (next t) (l t (omega arith, omega arith)))
then_write-Moved n k s _ next h room l = h

-- What is written without a look at the counters.
last-Moved :
    (n : ℕ) (s : Counters) (m : Mangled) (text : Bytes)
    → Moved n s m
    → Moved n s (Mangle.then_write m (Mangle.write text))
last-Moved n s (ok r) text h = h
last-Moved n s _ text h = h

basic_or-Moved :
    (n : ℕ) (o : Option ℕ) (m : Mangled) (s : Counters)
    → Moved n s m
    → Moved n s (Mangle.basic_or o m s)
basic_or-Moved n none m s h = h
basic_or-Moved n (some c) m s h = (omega arith, omega arith)

backref-Moved : (s : Counters) → HasRoom 1 s → Moved 1 s (Mangle.mangle_backref s)
unfolding Mangle.mangle_backref
backref-Moved s room =
    let small : ltb s.back_counter Mangle.int_max ≡ true = ground arith in
    rw small (omega arith, omega arith)

identifier-Moved :
    (bytes : Bytes) (s : Counters) → HasRoom 1 s → Moved 1 s (Mangle.mangle_identifier bytes s)
unfolding Mangle.mangle_identifier
identifier-Moved bytes s room =
    let small : ltb s.disambiguator Mangle.int_max ≡ true = ground arith in
    rw small (omega arith, omega arith)

name-Moved :
    (name : PathIdentSegment) (s : Counters)
    → HasRoom (name_steps name) s
    → Moved (name_steps name) s (Mangle.mangle_path_ident_segment name s)
name-Moved (identifier bytes) s room = identifier-Moved bytes s room
name-Moved (keyword text) s room = (omega arith, omega arith)

mutual
  unfolding Mangle.mangle_type HasNoNever steps

  type-Moved :
      (t : TypeExpression) (s : Counters)
      → HasNoNever t
      → HasRoom (steps t) s
      → Moved (steps t) s (Mangle.mangle_type t s)
  type-Moved (type_path segments) s h room =
      basic_or-Moved (segments_steps segments) (Mangle.try_basic_type segments)
        (Mangle.mangle_segments segments s) s (segments-Moved segments s h room)
  type-Moved (tuple_type ts) s h room = in_front-Moved (types_steps ts) s (codes "T") _ (
      last-Moved (types_steps ts) s (Mangle.mangle_types ts s) (codes "E")
        (types-Moved ts s h room))
  type-Moved never_type s h room = h
  type-Moved other_type s h room = backref-Moved s room
  type-Moved (raw_pointer_type m c t) s h room =
      in_front-Moved (steps t) s (Mangle.pointer_letter m c) (Mangle.mangle_type t s)
        (type-Moved t s h room)
  type-Moved (reference_type m l t) s h room =
      in_front-Moved (steps t) s (Mangle.reference_letter m ++ Mangle.mangle_lifetime l)
        (Mangle.mangle_type t s) (type-Moved t s h room)
  type-Moved (array_type t n) s h room =
      in_front-Moved (steps t) s (codes "A") _
        (last-Moved (steps t) s (Mangle.mangle_type t s) (mangle_const n) (type-Moved t s h room))
  type-Moved (slice_type t) s h room =
      in_front-Moved (steps t) s (codes "S") (Mangle.mangle_type t s) (type-Moved t s h room)
  type-Moved (bare_function_type u abi ret) s h room =
      in_front-Moved (return_steps ret) s (Mangle.qualifiers u abi) (Mangle.mangle_return ret s)
        (return-Moved ret s h room)

  return-Moved :
      (r : ReturnType) (s : Counters)
      → ReturnHasNone r
      → HasRoom (return_steps r) s
      → Moved (return_steps r) s (Mangle.mangle_return r s)
  return-Moved no_return s h room = (omega arith, omega arith)
  return-Moved (returns t) s h room =
      in_front-Moved (steps t) s (codes "E") (Mangle.mangle_type t s) (type-Moved t s h room)

  types-Moved :
      (ts : Types) (s : Counters)
      → TypesHaveNone ts
      → HasRoom (types_steps ts) s
      → Moved (types_steps ts) s (Mangle.mangle_types ts s)
  types-Moved no_type s h room = (omega arith, omega arith)
  types-Moved (one_type t ts) s h room =
      then_write-Moved (steps t) (types_steps ts) s (Mangle.mangle_type t s)
        (Mangle.mangle_types ts) (type-Moved t s h.0 (omega arith, omega arith)) room
        (λ u r. types-Moved ts u h.1 r)

  segments-Moved :
      (ps : Segments) (s : Counters)
      → SegmentsHaveNone ps
      → HasRoom (segments_steps ps) s
      → Moved (segments_steps ps) s (Mangle.mangle_segments ps s)
  segments-Moved no_segment s h room = (omega arith, omega arith)
  segments-Moved (segment name args fn rest) s h room =
      then_write-Moved (name_steps name) (generics_steps args + segments_steps rest) s
        (Mangle.mangle_path_ident_segment name s) _ (name-Moved name s (omega arith, omega arith))
        room
        (λ u r.
          then_write-Moved (generics_steps args) (segments_steps rest) u
            (Mangle.mangle_generic_args args u) (Mangle.mangle_segments rest)
            (generics-Moved args u h.0 (omega arith, omega arith)) r
            (λ v q. segments-Moved rest v h.1 q))

  generics-Moved :
      (args : GenericArgs) (s : Counters)
      → GenericsHaveNone args
      → HasRoom (generics_steps args) s
      → Moved (generics_steps args) s (Mangle.mangle_generic_args args s)
  generics-Moved no_generics s h room = (omega arith, omega arith)
  generics-Moved (generics args) s h room = args-Moved args s h room

  args-Moved :
      (args : Args) (s : Counters)
      → ArgsHaveNone args
      → HasRoom (args_steps args) s
      → Moved (args_steps args) s (Mangle.mangle_args args s)
  args-Moved no_arg s h room = (omega arith, omega arith)
  args-Moved (lifetime_arg rest) s h room =
      in_front-Moved (args_steps rest) s (codes "L") (Mangle.mangle_args rest s)
        (args-Moved rest s h room)
  args-Moved (const_arg rest) s h room =
      in_front-Moved (args_steps rest) s (codes "K") (Mangle.mangle_args rest s)
        (args-Moved rest s h room)
  args-Moved (binding_arg rest) s h room = args-Moved rest s h room
  args-Moved (type_arg t rest) s h room =
      then_write-Moved (steps t) (args_steps rest) s (Mangle.mangle_type t s)
        (Mangle.mangle_args rest) (type-Moved t s h.0 (omega arith, omega arith)) room
        (λ u r. args-Moved rest u h.1 r)

-- The item is no use declaration, and `!` does not stand in its types.
abbrev pub IsMangled : VisItem → Type 0
IsMangled (inherent_impl t) = HasNoNever t
IsMangled (trait_impl t path) = HasNoNever t × HasNoNever path
IsMangled use_declaration = ⊥
IsMangled _ = Unit

abbrev pub AreMangled : List VisItem → Type 0
AreMangled [] = Unit
AreMangled (it ∷ path) = IsMangled it × AreMangled path

abbrev pub item_steps : VisItem → ℕ
item_steps (module_item name) = 1
item_steps (function_item name) = 1
item_steps (struct_item name) = 1
item_steps (inherent_impl t) = steps t
item_steps (trait_impl t path) = steps t + steps path
item_steps _ = 0

abbrev pub path_steps : List VisItem → ℕ
path_steps [] = 0
path_steps (it ∷ path) = item_steps it + path_steps path
