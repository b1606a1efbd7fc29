-- ===== src/Resolver/Closures/Agree.antt =====
-- The captures that the resolver keeps and those that the type context keeps.
use mlir_rustc.Prelude.{
  ℕ, Bool, true, false, ◌==◌, if◌then◌else◌, ◌≡◌, refl, sym, ap, ◌∙◌, List, [], ◌∷◌, Option, none,
  some, Outcome, ok, ◌>>=◌, IsOk, ok-injective, >>=-Ran, ==_iff, Bool-cases, Option-cases, inl, inr,
}
use mathlib.Core.Path.{subst}
use mlir_rustc.Resolver.Maps.{find, contains, insert_new, ids, find-put, contains-find}
use mlir_rustc.Resolver.Ribs.{Rib, RibKind, add_reference, references_of}
use mlir_rustc.Resolver.Scopes.{Scope, lookup_decl_type, lookup_rib_for_decl, decl_needs_capture}
use mlir_rustc.Resolver.Scopes.Kinds.{lookup_decl_type-lookup_rib_for_decl, contains-some}
use mlir_rustc.Resolver.Closures.{
  Resolver, insert_found, insert_closure_capture, capture_found, capture, is_variable, capture_loop,
  capture_from, capture_kind, no_closure, insert_captured_item, push_closure_context,
  pop_closure_context,
}

-- What a closure captures, by the resolver and by the type context.
abbrev pub captures_of : ℕ → List (ℕ × List ℕ) → List ℕ
captures_of closure m = references_of (find ids closure m)

-- Looking up declarations to capture never fails its assertion.
pub insert_captured_item-IsOk :
    {M : Type 0} → (id : ℕ) (s : Resolver M) → IsOk (insert_captured_item id s)
unfolding insert_captured_item capture_kind
insert_captured_item-IsOk id s = elim (Bool-cases (no_closure s.closure_context)) [
  | inl e ↦ rw e tt
  | inr e ↦ elim (Option-cases (lookup_decl_type id s.name_scope)) [
    | inl n ↦ rw (e, n) tt
    | inr (kind, k) ↦
        let found = lookup_decl_type-lookup_rib_for_decl id s.name_scope kind k in
        rw (e, k, found.1, capture_from) tt
  ]
]

none-some : {A : Type 0} {a : A} → Option.none ≡ some a → ⊥
none-some h = cc

find-insert_new-none :
    (k q : ℕ) (v : List ℕ) (m : List (ℕ × List ℕ))
    → find ids k m ≡ none
    → find ids q (insert_new ids k v m) ≡ (if k == q then some v else find ids q m)
unfolding insert_new
find-insert_new-none k q v m h = elim (Bool-cases (contains ids k m)) [
  | inl e ↦ absurd (none-some (sym h ∙ (contains-some k m e).1))
  | inr e ↦ rw e (find-put ids k q v m)
]

find-insert_closure_capture :
    (closure q id : ℕ) (m : List (ℕ × List ℕ))
    → find ids q (insert_closure_capture closure id m)
      ≡ (if closure == q then some (add_reference id (captures_of closure m)) else find ids q m)
unfolding insert_closure_capture insert_found add_reference
find-insert_closure_capture closure q id m = elim (Option-cases (find ids closure m)) [
  | inl n ↦ rw (n, insert_found) (find-insert_new-none closure q (id ∷ []) m n)
  | inr (captures, e) ↦ rw (e, insert_found) (find-put ids closure q (add_reference id captures) m)
]

-- The two agree on every closure.
abbrev Agree : {M : Type 0} → Resolver M → Type 0
Agree s = (q : ℕ) → captures_of q s.closure_captures ≡ captures_of q s.context_captures

same_captures :
    (b : Bool) (x y : List ℕ) (m n : Option (List ℕ))
    → x ≡ y
    → references_of m ≡ references_of n
    → references_of (if b then some x else m) ≡ references_of (if b then some y else n)
same_captures true x y m n h k = h
same_captures false x y m n h k = k

aborted-ok : {A : Type 0} {a : A} → Outcome.aborted ≡ ok a → ⊥
aborted-ok h = cc

new_captures :
    (id q : ℕ) (m : List (ℕ × List ℕ))
    → contains ids id m ≡ false
    → references_of (if id == q then some [] else find ids q m) ≡ captures_of q m
new_captures id q m c = elim (Bool-cases (id == q)) [
  | inl e ↦ rw e (
      sym (
        ap references_of
          (ap (λ i. find ids i m) (sym ((==_iff id q).0 e)) ∙ contains-find ids id m c)))
  | inr e ↦ rw e refl
]

capture_found-Agree :
    {M : Type 0} (closure id : ℕ) (o : Option (List ℕ)) (s : Resolver M)
    → find ids closure s.closure_captures ≡ o
    → Agree s
    → Agree (capture_found closure id o s)
unfolding capture_found
capture_found-Agree closure id none s e h q = h q
capture_found-Agree closure id (some captures) s e h q =
    ap references_of (find-put ids closure q (add_reference id captures) s.closure_captures)
    ∙ (same_captures (closure == q) (add_reference id captures)
          (add_reference id (captures_of closure s.context_captures))
          (find ids q s.closure_captures) (find ids q s.context_captures)
          (ap (add_reference id) (ap references_of (sym e) ∙ h closure)) (h q)
        ∙ ap references_of (sym (find-insert_closure_capture closure q id s.context_captures)))

capture-Agree :
    {M : Type 0} → (closure id : ℕ) (s : Resolver M) → Agree s → Agree (capture closure id s)
unfolding capture
capture-Agree closure id s h =
    capture_found-Agree closure id (find ids closure s.closure_captures) s refl h

if_either : {A : Type 0} (P : A → Type 0) (b : Bool) (x y : A) → P x → P y → P (if b then x else y)
if_either P true x y h k = h
if_either P false x y h k = k

capture_loop-Agree :
    {M : Type 0} (decl : ℕ) (kind : RibKind) (id : ℕ) (closures : List ℕ) (s : Resolver M)
    → Agree s
    → Agree (capture_loop decl kind id closures s)
unfolding capture_loop
capture_loop-Agree decl kind id [] s h = h
capture_loop-Agree decl kind id (closure ∷ rest) s h =
    if_either Agree (decl_needs_capture decl closure s.name_scope) _ _
      (if_either Agree (is_variable kind) _ _
        (capture_loop-Agree decl kind id rest (capture closure id s) (capture-Agree closure id s h))
        h)
      (capture_loop-Agree decl kind id rest s h)

capture_from-Agree :
    {M : Type 0} (o : Option (Rib M)) (kind : RibKind) (id : ℕ) (s t : Resolver M)
    → capture_from o kind id s ≡ ok t
    → Agree s
    → Agree t
unfolding capture_from
capture_from-Agree none kind id s t e h = cc
capture_from-Agree (some rib) kind id s t e h =
    subst Agree (ok-injective e) (capture_loop-Agree rib.node_id kind id s.closure_context s h)

capture_kind-Agree :
    {M : Type 0} (o : Option RibKind) (id : ℕ) (s t : Resolver M)
    → capture_kind o id s ≡ ok t
    → Agree s
    → Agree t
unfolding capture_kind
capture_kind-Agree none id s t e h = subst Agree (ok-injective e) h
capture_kind-Agree (some kind) id s t e h =
    capture_from-Agree (lookup_rib_for_decl id s.name_scope) kind id s t e h

insert_captured_item-Agree :
    {M : Type 0} (id : ℕ) (s t : Resolver M) → insert_captured_item id s ≡ ok t → Agree s → Agree t
unfolding insert_captured_item
insert_captured_item-Agree id s t e h = elim (Bool-cases (no_closure s.closure_context)) [
  | inl c ↦ subst Agree (ok-injective (rw c at e)) h
  | inr c ↦ capture_kind-Agree (lookup_decl_type id s.name_scope) id s t (rw c at e) h
]

push_closure_context-Agree :
    {M : Type 0} (id : ℕ) (s t : Resolver M) → push_closure_context id s ≡ ok t → Agree s → Agree t
unfolding push_closure_context insert_new
push_closure_context-Agree id s t e h = elim (Bool-cases (contains ids id s.closure_captures)) [
  | inl c ↦ absurd (aborted-ok (rw c at e))
  | inr c ↦ subst Agree (ok-injective (rw c at e)) (λ q.
      ap references_of (find-put ids id q [] s.closure_captures)
      ∙ (new_captures id q s.closure_captures c ∙ h q))
]

pop_closure_context-Agree :
    {M : Type 0} → (s t : Resolver M) → pop_closure_context s ≡ ok t → Agree s → Agree t
unfolding pop_closure_context
pop_closure_context-Agree s t e h = elim (Bool-cases (no_closure s.closure_context)) [
  | inl c ↦ absurd (aborted-ok (rw c at e))
  | inr c ↦ subst Agree (ok-injective (rw c at e)) h
]

-- What the resolver does with closures while it walks: it enters and leaves them, meets uses of
-- declarations, and changes its scope.
pub data ClosureOperation (M : Type 0) : Type 0 where
  enters uses : ℕ → ClosureOperation M
  leaves : ClosureOperation M
  changes_scope : Scope M → ClosureOperation M

abbrev pub perform_closure : {M : Type 0} → ClosureOperation M → Resolver M → Outcome (Resolver M)
perform_closure (enters id) s = push_closure_context id s
perform_closure (uses id) s = insert_captured_item id s
perform_closure leaves s = pop_closure_context s
perform_closure (changes_scope scope) s = ok (record s { name_scope = scope })

abbrev pub perform_closures :
    {M : Type 0} → List (ClosureOperation M) → Resolver M → Outcome (Resolver M)
perform_closures [] s = ok s
perform_closures (o ∷ os) s = perform_closure o s >>= perform_closures os

perform_closure-Agree :
    {M : Type 0} (o : ClosureOperation M) (s t : Resolver M)
    → perform_closure o s ≡ ok t
    → Agree s
    → Agree t
perform_closure-Agree (enters id) s t e h = push_closure_context-Agree id s t e h
perform_closure-Agree (uses id) s t e h = insert_captured_item-Agree id s t e h
perform_closure-Agree leaves s t e h = pop_closure_context-Agree s t e h
perform_closure-Agree (changes_scope scope) s t e h = subst Agree (ok-injective e) h

perform_closures-Agree :
    {M : Type 0} (os : List (ClosureOperation M)) (s t : Resolver M)
    → perform_closures os s ≡ ok t
    → Agree s
    → Agree t
perform_closures-Agree [] s t e h = subst Agree (ok-injective e) h
perform_closures-Agree (o ∷ os) s t e h =
    let ran = >>=-Ran (perform_closure o s) (perform_closures os) t e in
    perform_closures-Agree os ran.first t ran.goes_on
      (perform_closure-Agree o s ran.first ran.runs h)

-- A resolver before it resolves anything.
abbrev pub new_resolver : {M : Type 0} → Scope M → Resolver M
new_resolver scope = record {
  name_scope = scope;
  closure_context = [];
  closure_captures = [];
  resolved_names = [];
  context_captures = [];
  context_names = [];
}

-- However a new resolver enters and leaves closures, uses declarations and changes its scope, if it
-- gets through, its own captures of every closure and those of the type context are the same.
pub perform_closures-agree :
    {M : Type 0} (os : List (ClosureOperation M)) (scope : Scope M) (t : Resolver M) (closure : ℕ)
    → perform_closures os (new_resolver scope) ≡ ok t
    → captures_of closure t.closure_captures ≡ captures_of closure t.context_captures
perform_closures-agree os scope t closure e =
    perform_closures-Agree os (new_resolver scope) t e (λ q. refl) closure
