-- ===== src/Target/Structs/Padding.antt =====
-- What `getStruct` makes of members that have a size, against a layout with padding.
use native.Mathlib.Nat.{zero-add, mod-lt, mod-eq_of_lt}
use mlir_rustc.Prelude.{
  ℕ, suc, ◌+◌, ◌-◌, ◌%◌, ◌<◌, ◌≤◌, ◌==◌, if◌then◌else◌, Bool, true, false, not, ◌||◌, List, [], ◌∷◌,
  ◌++◌, map, All, append_assoc, ok, ◌>>=◌, ◌≡◌, ◌∙◌, sym, ap, append-nil, ◌↔◌, refl, arith,
  Bool-cases, inl, inr,
}
use mlir_rustc.Target.Types.{
  TargetType, array_type, bitfield_type, builtin_type, pointer_type, scalable_vector_type,
  scalable_predicate_type, function_type, struct_type, union_type, vector_type, Members, no_member,
  member, padding, get_members, push_member, push_padding, size_t_mod,
}
use mlir_rustc.Target.Sizes.{get_size_of, get_alignment_of}
use mlir_rustc.Target.Structs.{Layout, start, place, add_member, layout_loop, get_struct}

-- A member with the size and the alignment that the target has for it.
pub record Part : Type 0 where
  pub type : TargetType
  pub size : ℕ
  pub align : ℕ

abbrev IsBitfield : TargetType → Type 0
IsBitfield (bitfield_type size bits) = Unit
IsBitfield _ = ⊥

pub record Measured (p : Part) : Type 0 where
  pub no_bitfield : ¬ IsBitfield p.type
  pub aligned : get_alignment_of p.type ≡ ok p.align
  pub sized : get_size_of p.type ≡ ok p.size
  pub positive : 0 < p.align

abbrev pub total : List Part → ℕ
total [] = 0
total (p ∷ ps) = p.size + total ps

-- The next offset at which the alignment is met.
abbrev pub round_up : ℕ → ℕ → ℕ
round_up n align = if n % align == 0 then n else n + (align - n % align)

-- Where the last member ends, if each one stands at the next offset that its alignment allows.
abbrev pub layout_end : List Part → ℕ → ℕ
layout_end [] n = n
layout_end (p ∷ ps) n = layout_end ps (round_up n p.align + p.size)

abbrev pub has_padding : Members → Bool
has_padding no_member = false
has_padding (member t ms) = has_padding ms
has_padding (padding n ms) = true

-- Without padding before it, some member does not stand at its alignment.
abbrev misaligned : List Part → ℕ → Bool
misaligned [] n = false
misaligned (p ∷ ps) n = not (n % p.align == 0) || misaligned ps (n + p.size)

round_up-ge : (n align : ℕ) → n ≤ round_up n align
round_up-ge n align = ground arith

round_up_aligned : (n align : ℕ) → (n % align == 0) ≡ true → round_up n align ≡ n
round_up_aligned n align h = ground arith

round_up-lt : (n align : ℕ) → 0 < align → (n % align == 0) ≡ false → n < round_up n align
round_up-lt n align h e = ground (arith, mod-lt n h)

layout_end-ge : (ps : List Part) (m n : ℕ) → m ≤ n → m + total ps ≤ layout_end ps n
layout_end-ge [] m n h = omega arith
layout_end-ge (p ∷ ps) m n h =
    omega
      (arith, round_up-ge n p.align, layout_end-ge ps (m + p.size) (round_up n p.align + p.size))

layout_end-aligned :
    (ps : List Part) (n : ℕ) → misaligned ps n ≡ false → layout_end ps n ≡ n + total ps
layout_end-aligned [] n h = omega arith
layout_end-aligned (p ∷ ps) n h =
    rw (round_up_aligned n p.align (ground arith))
      (omega (arith, layout_end-aligned ps (n + p.size) (ground arith)))

layout_end-misaligned :
    (ps : List Part) (n : ℕ)
    → All Measured ps
    → misaligned ps n ≡ true
    → n + total ps < layout_end ps n
layout_end-misaligned [] n m h = cc
layout_end-misaligned (p ∷ ps) n m h = elim (Bool-cases (n % p.align == 0)) [
  | inl e ↦
      rw (round_up_aligned n p.align e)
        (omega (arith, layout_end-misaligned ps (n + p.size) m.1 (ground arith)))
  | inr e ↦ omega (
    arith,
    round_up-lt n p.align m.0.positive e,
    layout_end-ge ps (suc (n + p.size)) (round_up n p.align + p.size),
  )
]

abbrev place_all : List Part → Layout → Layout
place_all [] l = l
place_all (p ∷ ps) l = place_all ps (place p.type p.align p.size l)

has_padding-push_member :
    (ms : Members) (t : TargetType) → has_padding (push_member ms t) ≡ has_padding ms
unfolding push_member
has_padding-push_member no_member t = refl
has_padding-push_member (member u ms) t = has_padding-push_member ms t
has_padding-push_member (padding n ms) t = refl

has_padding-push_padding : (ms : Members) (n : ℕ) → has_padding (push_padding ms n) ≡ true
unfolding push_padding
has_padding-push_padding no_member t = refl
has_padding-push_padding (member u ms) t = has_padding-push_padding ms t
has_padding-push_padding (padding n ms) t = refl

get_members-push_member :
    (ms : Members) (t : TargetType) → get_members (push_member ms t) ≡ get_members ms ++ t ∷ []
unfolding push_member get_members
get_members-push_member no_member t = refl
get_members-push_member (member u ms) t = rw (get_members-push_member ms t)
get_members-push_member (padding n ms) t = get_members-push_member ms t

get_members-push_padding : (ms : Members) (n : ℕ) → get_members (push_padding ms n) ≡ get_members ms
unfolding push_padding get_members
get_members-push_padding no_member t = refl
get_members-push_padding (member u ms) t = rw (get_members-push_padding ms t)
get_members-push_padding (padding n ms) t = get_members-push_padding ms t

has_padding-place :
    (p : Part) (l : Layout)
    → has_padding (place p.type p.align p.size l).new_members
      ≡ (has_padding l.new_members || not (l.offset % p.align == 0))
unfolding place
has_padding-place p l = elim (Bool-cases (l.offset % p.align == 0)) [
  | inl e ↦ rw e (has_padding-push_member l.new_members p.type ∙ ground arith)
  | inr e ↦ rw e (
      has_padding-push_member (push_padding l.new_members _) p.type
      ∙ has_padding-push_padding l.new_members _
      ∙ ground arith)
]

get_members-place :
    (p : Part) (l : Layout)
    → get_members (place p.type p.align p.size l).new_members
      ≡ get_members l.new_members ++ p.type ∷ []
unfolding place
get_members-place p l = elim (Bool-cases (l.offset % p.align == 0)) [
  | inl e ↦ rw e (get_members-push_member l.new_members p.type)
  | inr e ↦ rw e (
      get_members-push_member (push_padding l.new_members _) p.type
      ∙ ap (λ (ms : List TargetType). ms ++ p.type ∷ []) (get_members-push_padding l.new_members _))
]

get_members-place_all :
    (ps : List Part) (l : Layout)
    → get_members (place_all ps l).new_members ≡ get_members l.new_members ++ map (λ p. p.type) ps
get_members-place_all [] l = sym (append-nil (get_members l.new_members))
get_members-place_all (p ∷ ps) l =
    get_members-place_all ps (place p.type p.align p.size l)
    ∙ rw (get_members-place p l)
        (append_assoc (get_members l.new_members) (p.type ∷ []) (map (λ p. p.type) ps))

-- The sums do not leave the range of size_t.
size-place :
    (p : Part) (l : Layout)
    → l.offset ≡ l.size
    → l.size + p.size < size_t_mod
    → ((place p.type p.align p.size l).offset ≡ l.size + p.size)
      × ((place p.type p.align p.size l).size ≡ l.size + p.size)
unfolding place
size-place p l e h = (rw e (mod-eq_of_lt h), mod-eq_of_lt h)

size-place_all :
    (ps : List Part) (l : Layout)
    → l.offset ≡ l.size
    → l.size + total ps < size_t_mod
    → (place_all ps l).size ≡ l.size + total ps
size-place_all [] l e h = omega arith
size-place_all (p ∷ ps) l e h =
    let s = size-place p l e (omega arith) in
    size-place_all ps (place p.type p.align p.size l) (s.0 ∙ sym s.1) (omega arith) ∙ omega arith

or_assoc : (a b c : Bool) → (a || b || c) ≡ (a || (b || c))
or_assoc true b c = refl
or_assoc false b c = refl

has_padding-place_all :
    (ps : List Part) (l : Layout)
    → l.offset ≡ l.size
    → l.size + total ps < size_t_mod
    → has_padding (place_all ps l).new_members
      ≡ (has_padding l.new_members || misaligned ps l.offset)
has_padding-place_all [] l e h = ground arith
has_padding-place_all (p ∷ ps) l e h =
    let s = size-place p l e (omega arith) in
    has_padding-place_all ps (place p.type p.align p.size l) (s.0 ∙ sym s.1) (omega arith)
    ∙ rw (has_padding-place p l, s.0, ← e) (or_assoc (has_padding l.new_members) _ _)

layout_loop-cons :
    (t : TargetType) (ts : List TargetType) (l : Layout)
    → ¬ IsBitfield t
    → layout_loop (t ∷ ts) l ≡ (add_member t l >>= λ l'. layout_loop ts l')
unfolding layout_loop
layout_loop-cons (bitfield_type size bits) ts l h = absurd (h tt)
layout_loop-cons (array_type base n) ts l h = refl
layout_loop-cons (builtin_type bk) ts l h = refl
layout_loop-cons (pointer_type bk) ts l h = refl
layout_loop-cons (scalable_vector_type bk) ts l h = refl
layout_loop-cons (scalable_predicate_type bk) ts l h = refl
layout_loop-cons function_type ts l h = refl
layout_loop-cons (struct_type ms size align) ts l h = refl
layout_loop-cons (union_type size align) ts l h = refl
layout_loop-cons (vector_type bits) ts l h = refl

positive_test : (n : ℕ) → 0 < n → (n == 0) ≡ false
positive_test n h = ground arith

add_member-place :
    (p : Part) (l : Layout) → Measured p → add_member p.type l ≡ ok (place p.type p.align p.size l)
unfolding add_member
add_member-place p l m = rw (m.aligned, m.sized, positive_test p.align m.positive) refl

layout_loop-place_all :
    (ps : List Part) (l : Layout)
    → All Measured ps
    → layout_loop (map (λ p. p.type) ps) l ≡ ok (place_all ps l)
unfolding layout_loop
layout_loop-place_all [] l m = refl
layout_loop-place_all (p ∷ ps) l m =
    layout_loop-cons p.type (map (λ p. p.type) ps) l m.0.no_bitfield
    ∙ rw (add_member-place p l m.0) (layout_loop-place_all ps (place p.type p.align p.size l) m.1)

gap_iff :
    (b : Bool) (n end : ℕ)
    → (b ≡ true → n < end)
    → (b ≡ false → n ≡ end)
    → ((b ≡ true) ↔ (n < end)) × ((b ≡ false) ↔ (n ≡ end))
gap_iff true n end h k = ((h, λ _. refl), (λ e. cc, λ e. absurd (omega (arith, h refl))))
gap_iff false n end h k = ((λ e. cc, λ e. absurd (omega (arith, k refl))), (k, λ _. refl))

-- The struct of members that have a size is as large as these together, whose sum is in range. It has
-- these members in their order and the alignment of the first one. A padding stands in it exactly if its
-- size is not where the last member ends when each one stands at its alignment: padding is not counted.
pub get_struct-size :
    (p : Part) (ps : List Part)
    → All Measured (p ∷ ps)
    → total (p ∷ ps) < size_t_mod
    → (ms : Members) × (get_struct (map (λ p. p.type) (p ∷ ps))
        ≡ ok (struct_type ms (total (p ∷ ps)) p.align))
      × (get_members ms ≡ map (λ p. p.type) (p ∷ ps))
      × ((has_padding ms ≡ true) ↔ (total (p ∷ ps) < layout_end (p ∷ ps) 0))
      × ((has_padding ms ≡ false) ↔ (total (p ∷ ps) ≡ layout_end (p ∷ ps) 0))
unfolding get_struct get_members
get_struct-size p ps m h =
    let l = place_all (p ∷ ps) start in
    let pad = has_padding-place_all (p ∷ ps) start refl (omega arith) in
    let size = size-place_all (p ∷ ps) start refl (omega arith) in
    let gap =
      gap_iff (has_padding l.new_members) (total (p ∷ ps)) (layout_end (p ∷ ps) 0)
        (λ e. omega (arith, layout_end-misaligned (p ∷ ps) 0 m (sym pad ∙ e)))
        (λ e. omega (arith, layout_end-aligned (p ∷ ps) 0 (sym pad ∙ e))) in
    (
      l.new_members,
      rw (layout_loop-place_all (p ∷ ps) start m, m.0.aligned, size)
          (ap (λ (n : ℕ). ok (struct_type l.new_members n p.align)) (zero-add (total (p ∷ ps)))),
      get_members-place_all (p ∷ ps) start,
      gap.0,
      gap.1,
    )
