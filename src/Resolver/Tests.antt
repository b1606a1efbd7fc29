-- ===== src/Resolver/Tests.antt =====
-- Ribs and scopes at concrete values.
use mlir_rustc.Prelude.{true, ◌≡◌, ◌↔◌, refl, if◌then◌else◌, List, [], ◌∷◌, some, codes, ok, ◌>>=◌}
use mlir_rustc.Lexer.Token.{Location}
use mlir_rustc.Adt.Paths.{CanonicalPath, new_segment, path_equal}
use mlir_rustc.Resolver.Maps.{contains, ids, find, put}
use mlir_rustc.Adt.Names.{name_less}
use mlir_rustc.Resolver.PathMaps.{is_order}
use mlir_rustc.Resolver.PathMaps.Listed.{Entries, listed, listed-IsOrderedMap}
use mlir_rustc.Resolver.Ribs.{
  Rib, variable_rib, new_rib, insert_name, clear_name, append_reference, lookup_name,
  was_decl_declared_here,
}
use mlir_rustc.Resolver.Ribs.Declared.{
  RibOperation, inserts, clears, refers, perform_all, perform_all-declared,
}
use mlir_rustc.Resolver.Scopes.{
  Scope, lookup, lookup_loop, or_else, scope_insert, decl_needs_capture,
}
use mlir_rustc.Resolver.Closures.{
  Resolver, insert_captured_item, push_closure_context, pop_closure_context,
}
use mlir_rustc.Resolver.Closures.Agree.{
  ClosureOperation, enters, uses, leaves, new_resolver, captures_of, perform_closures-agree,
}
use mlir_rustc.Resolver.Scopes.Lookup.{lookup-scope_insert}
use mlir_rustc.Resolver.Scopes.Captures.{Outside, decl_needs_capture_iff}

abbrev x : CanonicalPath
x = new_segment 10 (codes "x")

abbrev place : Location
place = record { file_name = codes "main.rs"; line = 2; column = 5 }

-- The operations that declare `x` and use it.
abbrev operations : List RibOperation
operations = inserts x 10 place true variable_rib ∷ refers 11 10 ∷ clears x 12 ∷ []

abbrev outer_rib : Rib Entries
outer_rib = perform_all listed (inserts x 10 place true variable_rib ∷ []) (new_rib listed 0 1)

abbrev scope : Scope Entries
scope = record { crate_num = 0; stack = outer_rib ∷ new_rib listed 0 2 ∷ [] }

abbrev used_rib : Rib Entries
used_rib = perform_all listed operations (new_rib listed 0 1)

perform_all-declared_example :
    (contains ids 10 used_rib.decl_type_mappings ≡ true)
    × (contains ids 10 used_rib.references ≡ true)
unfolding insert_name clear_name append_reference was_decl_declared_here
perform_all-declared_example = perform_all-declared listed operations 0 1 10 refl

lookup-scope_insert_example :
    (scope_insert listed x 20 place variable_rib scope >>= λ t. ok (lookup listed x t))
    ≡ ok (
        or_else
          (lookup_loop listed x (outer_rib ∷ []))
          (if path_equal x x then some 20 else lookup_name listed x (new_rib listed 0 2)))
unfolding listed-IsOrderedMap is_order name_less
lookup-scope_insert_example =
    lookup-scope_insert listed listed-IsOrderedMap x x 20 place variable_rib scope (outer_rib ∷ [])
      (new_rib listed 0 2) refl refl

decl_needs_capture_iff_example : (decl_needs_capture 1 2 scope ≡ true) ↔ Outside 1 2 scope.stack
decl_needs_capture_iff_example = decl_needs_capture_iff 1 2 scope

-- An inner declaration of `x` does not hide the outer one.
no_shadowing_test :
    (scope_insert listed x 20 place variable_rib scope >>= λ t. ok (lookup listed x t))
    ≡ ok (some 10)
unfolding scope_insert lookup insert_name path_equal find put
no_shadowing_test = refl

abbrev walk : List (ClosureOperation Entries)
walk = enters 2 ∷ uses 10 ∷ leaves ∷ []

abbrev walked : Resolver Entries
walked = record (new_resolver scope) {
  closure_captures = (2, 10 ∷ []) ∷ [];
  context_captures = (2, 10 ∷ []) ∷ [];
}

perform_closures-agree_example :
    captures_of 2 walked.closure_captures ≡ captures_of 2 walked.context_captures
unfolding push_closure_context insert_captured_item pop_closure_context insert_name
perform_closures-agree_example = perform_closures-agree walk scope walked 2 refl
