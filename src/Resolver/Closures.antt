-- ===== src/Resolver/Closures.antt =====
-- The closures that the resolver is in and what they capture, code/sema/Resolver/Resolver.cpp, with
-- the part of code/TyCtx/TyCtx.cpp that it writes to.
pub mod Agree
use mlir_rustc.Prelude.{
  ℕ, Bool, true, false, if◌then◌else◌, List, [], ◌∷◌, ◌++◌, Option, none, some, Outcome, ok,
  aborted, ◌>>=◌,
}
use mlir_rustc.Resolver.Maps.{find, contains, put, insert_new, ids}
use mlir_rustc.Resolver.Ribs.{Rib, RibKind, variable_rib, add_reference}
use mlir_rustc.Resolver.Scopes.{
  Scope, scope_append_reference, lookup_decl_type, lookup_rib_for_decl, decl_needs_capture,
}

-- The members of `Resolver` that these functions use, and those of the type context.
pub record Resolver (M : Type 0) : Type 0 where
  pub name_scope : Scope M
  pub closure_context : List ℕ
  pub closure_captures : List (ℕ × List ℕ)
  pub resolved_names : List (ℕ × ℕ)
  pub context_captures : List (ℕ × List ℕ)
  pub context_names : List (ℕ × ℕ)

unfoldable pub insert_found : ℕ → ℕ → Option (List ℕ) → List (ℕ × List ℕ) → List (ℕ × List ℕ)
unfolding insert_new put add_reference
insert_found closure item none m = insert_new ids closure (item ∷ []) m
insert_found closure item (some captures) m = put ids closure (add_reference item captures) m

-- `TyCtx::insertClosureCapture`.
unfoldable pub insert_closure_capture : ℕ → ℕ → List (ℕ × List ℕ) → List (ℕ × List ℕ)
unfolding insert_found find
insert_closure_capture closure item m = insert_found closure item (find ids closure m) m

unfoldable pub capture_found : {M : Type 0} → ℕ → ℕ → Option (List ℕ) → Resolver M → Resolver M
unfolding put add_reference insert_closure_capture
capture_found closure id none s = s
capture_found closure id (some captures) s = record s {
  closure_captures = put ids closure (add_reference id captures) s.closure_captures;
  context_captures = insert_closure_capture closure id s.context_captures;
}

-- `closureCaptureMappings.find(closureExprId)` and what follows it.
unfoldable pub capture : {M : Type 0} → ℕ → ℕ → Resolver M → Resolver M
unfolding capture_found find
capture closure id s = capture_found closure id (find ids closure s.closure_captures) s

abbrev pub is_variable : RibKind → Bool
is_variable variable_rib = true
is_variable _ = false

-- The loop over the closures, which returns at a declaration that is no variable.
unfoldable pub capture_loop : {M : Type 0} → ℕ → RibKind → ℕ → List ℕ → Resolver M → Resolver M
unfolding capture decl_needs_capture
capture_loop decl kind id [] s = s
capture_loop decl kind id (closure ∷ rest) s =
    let skipped = capture_loop decl kind id rest s in
    let captured = capture_loop decl kind id rest (capture closure id s) in
    if decl_needs_capture decl closure s.name_scope
    then if is_variable kind then captured else s
    else skipped

-- `assert(rib.has_value())`
unfoldable pub capture_from :
    {M : Type 0} → Option (Rib M) → RibKind → ℕ → Resolver M → Outcome (Resolver M)
unfolding capture_loop
capture_from none kind id s = aborted
capture_from (some rib) kind id s = ok (capture_loop rib.node_id kind id s.closure_context s)

unfoldable pub capture_kind : {M : Type 0} → Option RibKind → ℕ → Resolver M → Outcome (Resolver M)
unfolding capture_from lookup_rib_for_decl
capture_kind none id s = ok s
capture_kind (some kind) id s = capture_from (lookup_rib_for_decl id s.name_scope) kind id s

abbrev pub no_closure : List ℕ → Bool
no_closure [] = true
no_closure (_ ∷ _) = false

unfoldable pub insert_captured_item : {M : Type 0} → ℕ → Resolver M → Outcome (Resolver M)
unfolding capture_kind lookup_decl_type
insert_captured_item id s =
    if no_closure s.closure_context
    then ok s
    else capture_kind (lookup_decl_type id s.name_scope) id s

unfoldable pub insert_resolved_name : {M : Type 0} → ℕ → ℕ → Resolver M → Outcome (Resolver M)
unfolding put scope_append_reference insert_captured_item
insert_resolved_name ref def s = do
  scope ← scope_append_reference ref def s.name_scope
  t ←
      insert_captured_item def
        (record s { resolved_names = put ids ref def s.resolved_names; name_scope = scope })
  ok (record t { context_names = put ids ref def t.context_names })

unfoldable pub lookup_resolved_name : {M : Type 0} → ℕ → Resolver M → Option ℕ
unfolding find
lookup_resolved_name id s = find ids id s.resolved_names

unfoldable pub push_closure_context : {M : Type 0} → ℕ → Resolver M → Outcome (Resolver M)
unfolding contains insert_new
push_closure_context id s =
    if contains ids id s.closure_captures
    then aborted
    else ok (record s {
      closure_captures = insert_new ids id [] s.closure_captures;
      closure_context = s.closure_context ++ id ∷ [];
    })

unfoldable pub but_last_closure : List ℕ → List ℕ
but_last_closure [] = []
but_last_closure (c ∷ []) = []
but_last_closure (c ∷ rest) = c ∷ but_last_closure rest

unfoldable pub pop_closure_context : {M : Type 0} → Resolver M → Outcome (Resolver M)
unfolding but_last_closure
pop_closure_context s =
    if no_closure s.closure_context
    then aborted
    else ok (record s { closure_context = but_last_closure s.closure_context })
