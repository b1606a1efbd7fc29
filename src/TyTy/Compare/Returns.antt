-- ===== src/TyTy/Compare/Returns.antt =====
-- `canEqual` on plain types.
use mlir_rustc.Prelude.{Bool, true, ◌≡◌, arith, ok, IsOk, IsOk-ok, ok-injective, and_then-IsOk}
use mlir_rustc.TyTy.Types.{
  Ty, bool, char, usize, isize, never, str, error, place_holder, int, uint, float, inferred,
  parameter, dynamic, array, slice, projection, raw_pointer, reference, tuple, function,
  function_pointer, closure, adt, Tys, nil, cons, Variants, no_variant, variant, Fields, no_field,
  null_field, field, number_of_types, number_of_variants, same_fields,
}
use mlir_rustc.TyTy.Compare.{can_equal, tuple_loop, arguments_loop, variants_loop, fields_loop}
use mlir_rustc.TyTy.Compare.Classes.{
  function_cmp-IsOk, function_pointer_cmp-IsOk, closure_cmp-IsOk, Plain, AllPlain, VariantsPlain,
  FieldsPlain, int_cmp-IsOk, uint_cmp-IsOk, float_cmp-IsOk, usize_cmp-IsOk, isize_cmp-IsOk,
  char_cmp-IsOk, bool_cmp-IsOk, str_cmp-IsOk, never_cmp-IsOk, error_cmp-IsOk, param_cmp-IsOk,
  infer_cmp-IsOk, array_cmp-IsOk, slice_cmp-IsOk, reference_cmp-IsOk, raw_pointer_cmp-IsOk,
  tuple_cmp-IsOk, adt_cmp-IsOk,
}

mutual
  unfolding can_equal Plain

  can_equal-IsOk : (t : Ty) (u : Ty) → Plain t → Plain u → IsOk (can_equal t u)
  can_equal-IsOk bool u h k = bool_cmp-IsOk u
  can_equal-IsOk char u h k = char_cmp-IsOk u
  can_equal-IsOk usize u h k = usize_cmp-IsOk u
  can_equal-IsOk isize u h k = isize_cmp-IsOk u
  can_equal-IsOk never u h k = never_cmp-IsOk u
  can_equal-IsOk str u h k = str_cmp-IsOk u
  can_equal-IsOk error u h k = error_cmp-IsOk u
  can_equal-IsOk place_holder u h k = absurd h
  can_equal-IsOk (int i) u h k = int_cmp-IsOk i u
  can_equal-IsOk (uint i) u h k = uint_cmp-IsOk i u
  can_equal-IsOk (float i) u h k = float_cmp-IsOk i u
  can_equal-IsOk (inferred i) u h k = infer_cmp-IsOk i u
  can_equal-IsOk (parameter s) u h k = param_cmp-IsOk s u k
  can_equal-IsOk (dynamic b) u h k = absurd h
  can_equal-IsOk (array t) u h k = array_cmp-IsOk (can_equal t) (λ v. can_equal-IsOk t v h) u k
  can_equal-IsOk (slice t) u h k = slice_cmp-IsOk (can_equal t) (λ v. can_equal-IsOk t v h) u k
  can_equal-IsOk (projection t) u h k = absurd h
  can_equal-IsOk (raw_pointer m t) u h k =
      raw_pointer_cmp-IsOk (can_equal t) (λ v. can_equal-IsOk t v h) m u k
  can_equal-IsOk (reference m t) u h k =
      reference_cmp-IsOk (can_equal t) (λ v. can_equal-IsOk t v h) m u k
  can_equal-IsOk (tuple ts) u h k =
      tuple_cmp-IsOk _ (tuple_loop ts) (λ us. tuple_loop-IsOk ts us h) u k
  can_equal-IsOk (function ts t) u h k =
      function_cmp-IsOk _ (arguments_loop ts) (λ us. arguments_loop-IsOk ts us h.0) (can_equal t)
        (λ v. can_equal-IsOk t v h.1) u k
  can_equal-IsOk (function_pointer ts t) u h k =
      function_pointer_cmp-IsOk _ (arguments_loop ts) (λ us. arguments_loop-IsOk ts us h.0)
        (can_equal t) (λ v. can_equal-IsOk t v h.1) u k
  can_equal-IsOk (closure id ts t) u h k =
      closure_cmp-IsOk _ (tuple_loop ts) (λ us. tuple_loop-IsOk ts us h.0) (can_equal t)
        (λ v. can_equal-IsOk t v h.1) id u k
  can_equal-IsOk (adt kind name vs) u h k =
      adt_cmp-IsOk kind name _ (variants_loop vs) (λ ws. variants_loop-IsOk vs ws h) u k

  tuple_loop-IsOk :
      (ts us : Tys)
      → AllPlain ts
      → number_of_types ts ≡ number_of_types us
      → AllPlain us
      → IsOk (tuple_loop ts us)
  tuple_loop-IsOk nil us h e k = tt
  tuple_loop-IsOk (cons t ts) nil h e k = absurd (omega arith)
  tuple_loop-IsOk (cons t ts) (cons u us) h e k = can_equal-IsOk t u h.0 k.0

  arguments_loop-IsOk :
      (ts us : Tys)
      → AllPlain ts
      → number_of_types ts ≡ number_of_types us
      → AllPlain us
      → IsOk (arguments_loop ts us)
  arguments_loop-IsOk nil nil h e k = tt
  arguments_loop-IsOk nil (cons u us) h e k = absurd (omega arith)
  arguments_loop-IsOk (cons t ts) nil h e k = absurd (omega arith)
  arguments_loop-IsOk (cons t ts) (cons u us) h e k =
      and_then-IsOk (can_equal t u) _ (can_equal-IsOk t u h.0 k.0)
        (λ _. arguments_loop-IsOk ts us h.1 (omega arith) k.1)

  variants_loop-IsOk :
      (vs ws : Variants)
      → VariantsPlain vs
      → number_of_variants vs ≡ number_of_variants ws
      → VariantsPlain ws
      → IsOk (variants_loop vs ws)
  variants_loop-IsOk no_variant no_variant h e k = tt
  variants_loop-IsOk no_variant (variant gs ws) h e k = absurd (omega arith)
  variants_loop-IsOk (variant fs vs) no_variant h e k = absurd (omega arith)
  variants_loop-IsOk (variant fs vs) (variant gs ws) h e k =
      and_then-IsOk (ok (same_fields fs gs)) _ tt (λ s.
        and_then-IsOk (fields_loop fs gs) _ (fields_loop-IsOk fs gs h.0 (ok-injective s) k.0)
          (λ _. variants_loop-IsOk vs ws h.1 (omega arith) k.1))

  fields_loop-IsOk :
      (fs gs : Fields)
      → FieldsPlain fs
      → same_fields fs gs ≡ true
      → FieldsPlain gs
      → IsOk (fields_loop fs gs)
  fields_loop-IsOk no_field gs h e k = tt
  fields_loop-IsOk (null_field fs) gs h e k = absurd h
  fields_loop-IsOk (field p t fs) no_field h e k = cc
  fields_loop-IsOk (field p t fs) (null_field gs) h e k = absurd k
  fields_loop-IsOk (field p t fs) (field q u gs) h e k =
      and_then-IsOk (can_equal t u) _ (can_equal-IsOk t u h.0 k.0)
        (λ _. fields_loop-IsOk fs gs h.1 (ground arith) k.1)

-- Comparing two plain types ends with an answer: no assertion fails, and nothing is read that is not
-- there.
pub can_equal-answers : (t u : Ty) → Plain t → Plain u → (b : Bool) × (can_equal t u ≡ ok b)
can_equal-answers t u h k = IsOk-ok (can_equal t u) (can_equal-IsOk t u h k)
