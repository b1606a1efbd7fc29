-- ===== src/Resolver/Scopes.antt =====
-- `Scope` of code/sema/Resolver/Resolver.h and code/sema/Resolver/Resolver.cpp: the stack of ribs,
-- the outermost first, as the vector holds them.
pub mod Lookup
pub mod Kinds
pub mod Captures
use mlir_rustc.Prelude.{
  ℕ, Bool, true, false, ◌||◌, ◌==◌, if◌then◌else◌, List, [], ◌∷◌, ◌++◌, Option, none, some, Outcome,
  ok, aborted, undefined, ◌>>=◌,
}
use mlir_rustc.Lexer.Token.{Location}
use mlir_rustc.Adt.Paths.{CanonicalPath}
use mlir_rustc.Resolver.PathMaps.{PathMaps}
use mlir_rustc.Resolver.Ribs.{
  Rib, RibKind, new_rib, was_decl_declared_here, insert_name, append_reference, rib_decl_type,
  lookup_name,
}

pub record Scope (M : Type 0) : Type 0 where
  pub crate_num : ℕ
  pub stack : List (Rib M)

-- `stack.back()` and what stands before it.
unfoldable pub last_rib : {M : Type 0} → List (Rib M) → Outcome (Rib M)
last_rib [] = undefined
last_rib (r ∷ []) = ok r
last_rib (_ ∷ ribs) = last_rib ribs

unfoldable pub but_last : {M : Type 0} → List (Rib M) → List (Rib M)
but_last [] = []
but_last (r ∷ []) = []
but_last (r ∷ ribs) = r ∷ but_last ribs

unfoldable pub peek : {M : Type 0} → Scope M → Outcome (Rib M)
unfolding last_rib
peek s = last_rib s.stack

unfoldable pub push : {M : Type 0} → PathMaps M → ℕ → Scope M → Scope M
push maps id s = record s { stack = s.stack ++ new_rib maps s.crate_num id ∷ [] }

unfoldable pub pop : {M : Type 0} → Scope M → Outcome (Rib M × Scope M)
unfolding peek but_last
pop s = peek s >>= λ r. ok (r, record s { stack = but_last s.stack })

-- A change of the rib that `peek` returns.
unfoldable pub change_peek : {M : Type 0} → (Rib M → Rib M) → Scope M → Outcome (Scope M)
unfolding peek but_last
change_peek change s = peek s >>= λ r. ok (record s { stack = but_last s.stack ++ change r ∷ [] })

unfoldable pub scope_insert :
    {M : Type 0} → PathMaps M → CanonicalPath → ℕ → Location → RibKind → Scope M → Outcome (Scope M)
unfolding change_peek insert_name
scope_insert maps path id loc kind s = change_peek (insert_name maps path id loc true kind) s

-- The loop of `Scope::appendReferenceForDef` returns in its first round.
unfoldable pub reference_loop : {M : Type 0} → ℕ → ℕ → List (Rib M) → Outcome (List (Rib M))
unfolding was_decl_declared_here append_reference
reference_loop ref def [] = aborted
reference_loop ref def (rib ∷ ribs) =
    if was_decl_declared_here def rib
    then ok (append_reference ref def rib ∷ ribs)
    else ok (rib ∷ ribs)

unfoldable pub scope_append_reference : {M : Type 0} → ℕ → ℕ → Scope M → Outcome (Scope M)
unfolding reference_loop
scope_append_reference ref def s =
    reference_loop ref def s.stack >>= λ stack. ok (record s { stack = stack })

unfoldable pub declared_loop : {M : Type 0} → ℕ → List (Rib M) → Bool
unfolding was_decl_declared_here
declared_loop def [] = false
declared_loop def (rib ∷ ribs) =
    let rest = declared_loop def ribs in if was_decl_declared_here def rib then true else rest

unfoldable pub was_decl_declared_in_current_scope : {M : Type 0} → ℕ → Scope M → Bool
unfolding declared_loop
was_decl_declared_in_current_scope def s = declared_loop def s.stack

-- A result that is there, or the one after it.
abbrev pub or_else {ℓ} : {A : Type ℓ} → Option A → Option A → Option A
or_else (some a) later = some a
or_else none later = later

-- The loop of `Scope::lookup`.
unfoldable pub lookup_loop : {M : Type 0} → PathMaps M → CanonicalPath → List (Rib M) → Option ℕ
unfolding lookup_name
lookup_loop maps p [] = none
lookup_loop maps p (rib ∷ ribs) = or_else (lookup_name maps p rib) (lookup_loop maps p ribs)

unfoldable pub lookup : {M : Type 0} → PathMaps M → CanonicalPath → Scope M → Option ℕ
unfolding lookup_loop
lookup maps p s = lookup_loop maps p s.stack

unfoldable pub decl_type_loop : {M : Type 0} → ℕ → List (Rib M) → Option RibKind
unfolding was_decl_declared_here rib_decl_type
decl_type_loop id [] = none
decl_type_loop id (rib ∷ ribs) =
    let rest = decl_type_loop id ribs in
    if was_decl_declared_here id rib then or_else (rib_decl_type id rib) rest else rest

unfoldable pub lookup_decl_type : {M : Type 0} → ℕ → Scope M → Option RibKind
unfolding decl_type_loop
lookup_decl_type id s = decl_type_loop id s.stack

unfoldable pub rib_for_decl_loop : {M : Type 0} → ℕ → List (Rib M) → Option (Rib M)
unfolding was_decl_declared_here
rib_for_decl_loop id [] = none
rib_for_decl_loop id (rib ∷ ribs) =
    let rest = rib_for_decl_loop id ribs in if was_decl_declared_here id rib then some rib else rest

unfoldable pub lookup_rib_for_decl : {M : Type 0} → ℕ → Scope M → Option (Rib M)
unfolding rib_for_decl_loop
lookup_rib_for_decl id s = rib_for_decl_loop id s.stack

-- `Resolver::declNeedsCapture`.
unfoldable pub needs_capture_loop : {M : Type 0} → ℕ → ℕ → List (Rib M) → Bool
needs_capture_loop decl closure [] = false
needs_capture_loop decl closure (rib ∷ ribs) =
    let rest = needs_capture_loop decl closure ribs in
    if rib.node_id == closure then false else if rib.node_id == decl then true else rest

unfoldable pub decl_needs_capture : {M : Type 0} → ℕ → ℕ → Scope M → Bool
unfolding needs_capture_loop
decl_needs_capture decl closure s = needs_capture_loop decl closure s.stack
