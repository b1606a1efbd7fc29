-- ===== src/Target/Calls/Indexed.antt =====
-- The actions of a call belong to its arguments.
use mlir_rustc.Prelude.{
  ltb, ℕ, suc, Bool, true, false, if◌then◌else◌, List, [], ◌∷◌, ◌++◌, length, get_elem?, some, All,
  All-append, Outcome, ok, ok-injective, >>=-Ran, ◌≡◌, refl, ap, append_assoc,
}
use mathlib.Core.Path.{subst}
use mlir_rustc.Target.Types.{
  TargetType, array_type, bitfield_type, builtin_type, pointer_type, scalable_vector_type,
  scalable_predicate_type, function_type, struct_type, union_type, vector_type, Action,
  copy_to_memory, size_round_up, set_size_with_unspecified_upper, zero_or_sign_extend,
}
use mlir_rustc.Target.Classes.{
  is_pure_scalable_type, is_float_or_short_vector, is_half_or_single, is_dynamically_sized_type,
}
use mlir_rustc.Target.Calls.{
  Actions, when, is_homogeneous_argument, pad_struct, stage_b, stage_c, stage_loop, get_call,
}

abbrev pub action_type : Action → TargetType
action_type (copy_to_memory t) = t
action_type (size_round_up t n) = t
action_type (set_size_with_unspecified_upper t n) = t
action_type (zero_or_sign_extend t n) = t

-- Each action has this index and this type.
abbrev Of : ℕ → TargetType → Actions → Type 0
Of idx t actions = All (λ p. (p.0 ≡ idx) × (action_type p.1 ≡ t)) actions

Of-when :
    (b : Bool) (idx : ℕ) (t : TargetType) (a : Action) → action_type a ≡ t → Of idx t (when b idx a)
Of-when true idx t a h = ((refl, h), tt)
Of-when false idx t a h = tt

Of-append :
    (idx : ℕ) (t : TargetType) (xs ys : Actions) → Of idx t xs → Of idx t ys → Of idx t (xs ++ ys)
Of-append idx t xs ys h k = All-append (λ p. (p.0 ≡ idx) × (action_type p.1 ≡ t)) xs ys h k

pad_struct-Of :
    (idx : ℕ) (t : TargetType) (actions : Actions)
    → pad_struct idx t ≡ ok actions
    → Of idx t actions
unfolding pad_struct
pad_struct-Of idx (struct_type ms size align) actions h =
    let t : TargetType = struct_type ms size align in
    subst (Of idx t) (ok-injective h) (
      Of-append idx t (when (ltb 16 size) idx (copy_to_memory t)) ((idx, size_round_up t 8) ∷ [])
        (Of-when (ltb 16 size) idx t (copy_to_memory t) refl) ((refl, refl), tt))
pad_struct-Of idx (array_type base n) actions h = subst (Of idx _) (ok-injective h) tt
pad_struct-Of idx (bitfield_type size bits) actions h = subst (Of idx _) (ok-injective h) tt
pad_struct-Of idx (builtin_type bk) actions h = subst (Of idx _) (ok-injective h) tt
pad_struct-Of idx (pointer_type bk) actions h = subst (Of idx _) (ok-injective h) tt
pad_struct-Of idx (scalable_vector_type bk) actions h = subst (Of idx _) (ok-injective h) tt
pad_struct-Of idx (scalable_predicate_type bk) actions h = subst (Of idx _) (ok-injective h) tt
pad_struct-Of idx function_type actions h = subst (Of idx _) (ok-injective h) tt
pad_struct-Of idx (union_type size align) actions h = subst (Of idx _) (ok-injective h) tt
pad_struct-Of idx (vector_type bits) actions h = subst (Of idx _) (ok-injective h) tt

stage_b-Of :
    (idx : ℕ) (t : TargetType) (actions : Actions) → stage_b idx t ≡ ok actions → Of idx t actions
unfolding stage_b
stage_b-Of idx t actions h =
    let r = >>=-Ran (is_pure_scalable_type t) _ actions h in
    let r' = >>=-Ran (is_homogeneous_argument t) _ actions r.goes_on in
    let r'' = >>=-Ran (pad_struct idx t) _ actions r'.goes_on in
    subst (Of idx t) (ok-injective r''.goes_on) (
      Of-append idx t (when (is_dynamically_sized_type t) idx (copy_to_memory t)) r''.first
        (Of-when (is_dynamically_sized_type t) idx t (copy_to_memory t) refl)
        (pad_struct-Of idx t r''.first r''.runs))

stage_c-Of :
    (idx : ℕ) (t : TargetType) (actions : Actions) → stage_c idx t ≡ ok actions → Of idx t actions
unfolding stage_c
stage_c-Of idx t actions h =
    let r = >>=-Ran (is_homogeneous_argument t) _ actions h in
    let b : Bool = r.first in
    let float : Bool = is_half_or_single t in
    let copied : Bool = if b then true else is_float_or_short_vector t in
    subst (Of idx t) (ok-injective r.goes_on) (
      Of-append idx t
        (when b idx (size_round_up t 8) ++ when float idx (set_size_with_unspecified_upper t 8))
        (when copied idx (copy_to_memory t))
        (Of-append idx t (when b idx (size_round_up t 8))
          (when float idx (set_size_with_unspecified_upper t 8))
          (Of-when b idx t (size_round_up t 8) refl)
          (Of-when float idx t (set_size_with_unspecified_upper t 8) refl))
        (Of-when copied idx t (copy_to_memory t) refl))

-- The index of each action is that of an argument, and its type is the argument's.
abbrev pub Indexed : List TargetType → Actions → Type 0
Indexed arguments actions = All (λ p. get_elem? arguments p.0 ≡ some (action_type p.1)) actions

get_elem?-append :
    (before after : List TargetType) (t : TargetType)
    → get_elem? (before ++ t ∷ after) (length before) ≡ some t
get_elem?-append [] after t = refl
get_elem?-append (u ∷ before) after t = get_elem?-append before after t

length-snoc :
    (before : List TargetType) (t : TargetType) → length (before ++ t ∷ []) ≡ suc (length before)
length-snoc [] t = refl
length-snoc (u ∷ before) t = ap suc (length-snoc before t)

Of-Indexed :
    (before after : List TargetType) (t : TargetType) (actions : Actions)
    → Of (length before) t actions
    → Indexed (before ++ t ∷ after) actions
Of-Indexed before after t [] h = tt
Of-Indexed before after t ((i, a) ∷ actions) h =
    (rw (h.0.0, h.0.1) (get_elem?-append before after t), Of-Indexed before after t actions h.1)

stage_loop-Indexed :
    (stage : ℕ → TargetType → Outcome Actions)
    → ((idx : ℕ) (t : TargetType) (actions : Actions) → stage idx t ≡ ok actions → Of idx t actions)
    → (before ts : List TargetType) (actions : Actions)
    → stage_loop stage (length before) ts ≡ ok actions
    → Indexed (before ++ ts) actions
unfolding stage_loop
stage_loop-Indexed stage k before [] actions h = subst (Indexed (before ++ [])) (ok-injective h) tt
stage_loop-Indexed stage k before (t ∷ ts) actions h =
    let r = >>=-Ran (stage (length before) t) _ actions h in
    let r' = >>=-Ran (stage_loop stage (suc (length before)) ts) _ actions r.goes_on in
    subst (Indexed (before ++ t ∷ ts)) (ok-injective r'.goes_on) (
      All-append _ r.first r'.first
        (Of-Indexed before ts t r.first (k (length before) t r.first r.runs))
        (subst (λ l. Indexed l r'.first) (append_assoc before (t ∷ []) ts)
          (stage_loop-Indexed stage k (before ++ t ∷ []) ts r'.first
            (rw (length-snoc before t) r'.runs))))

-- Every action that getCall adds is for the index of an argument, and its type is that argument's.
pub get_call-Indexed :
    (arguments : List TargetType) (actions : Actions)
    → get_call arguments ≡ ok actions
    → Indexed arguments actions
unfolding get_call
get_call-Indexed arguments actions h =
    let r = >>=-Ran (stage_loop stage_b 0 arguments) _ actions h in
    let r' = >>=-Ran (stage_loop stage_c 0 arguments) _ actions r.goes_on in
    subst (Indexed arguments) (ok-injective r'.goes_on) (
      All-append _ r.first r'.first
        (stage_loop-Indexed stage_b stage_b-Of [] arguments r.first r.runs)
        (stage_loop-Indexed stage_c stage_c-Of [] arguments r'.first r'.runs))
