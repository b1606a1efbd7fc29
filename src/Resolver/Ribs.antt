-- ===== src/Resolver/Ribs.antt =====
-- `Rib` of code/sema/Resolver/Resolver.h and code/sema/Resolver/Resolver.cpp: the names that one
-- block or item declares.
pub mod Declared
use mlir_rustc.Prelude.{
  ℕ, Bool, true, false, not, ◌&&◌, ◌==◌, if◌then◌else◌, List, [], ◌∷◌, Option, none, some,
}
use mlir_rustc.Lexer.Token.{Location}
use mlir_rustc.Adt.Paths.{CanonicalPath}
use mlir_rustc.Resolver.Maps.{find, contains, put, insert_new, erase, ids}
use mlir_rustc.Resolver.PathMaps.{PathMaps}

pub data RibKind : Type 0 where
  dummy_rib function_rib label_rib parameter_rib unknown_rib : RibKind
  type_rib variable_rib trait_rib module_rib constant_rib : RibKind

pub record Rib (M : Type 0) : Type 0 where
  pub crate_num : ℕ
  pub node_id : ℕ
  pub path_mappings : M
  pub decl_type_mappings : List (ℕ × RibKind)
  pub references : List (ℕ × List ℕ)
  pub decls_within_rib : List (ℕ × Location)
  pub reverse_path_mappings : List (ℕ × CanonicalPath)

abbrev pub new_rib : {M : Type 0} → PathMaps M → ℕ → ℕ → Rib M
new_rib maps crate_num node_id = record {
  crate_num = crate_num;
  node_id = node_id;
  path_mappings = maps.no_paths;
  decl_type_mappings = [];
  references = [];
  decls_within_rib = [];
  reverse_path_mappings = [];
}

-- The loop of `wasDeclDeclaredHere`.
unfoldable pub was_decl_declared_here : {M : Type 0} → ℕ → Rib M → Bool
unfolding contains
was_decl_declared_here def rib = contains ids def rib.decls_within_rib

-- `find` did not give `end`.
abbrev pub is_found : Option ℕ → Bool
is_found none = false
is_found (some id) = true

-- What `insertName` stores, behind its guard.
unfoldable pub store_name :
    {M : Type 0} → PathMaps M → CanonicalPath → ℕ → Location → RibKind → Rib M → Rib M
unfolding put insert_new
store_name maps path id loc kind rib = record rib {
  path_mappings = maps.put_path path id rib.path_mappings;
  reverse_path_mappings = insert_new ids id path rib.reverse_path_mappings;
  decls_within_rib = insert_new ids id loc rib.decls_within_rib;
  references = put ids id [] rib.references;
  decl_type_mappings = insert_new ids id kind rib.decl_type_mappings;
}

unfoldable pub insert_name :
    {M : Type 0} → PathMaps M → CanonicalPath → ℕ → Location → Bool → RibKind → Rib M → Rib M
unfolding store_name
insert_name maps path id loc shadow kind rib =
    if is_found (maps.find_path path rib.path_mappings) && not shadow
    then rib
    else store_name maps path id loc kind rib

unfoldable pub clear_name : {M : Type 0} → PathMaps M → CanonicalPath → ℕ → Rib M → Rib M
unfolding erase
clear_name maps path id rib = record rib {
  path_mappings =
      if is_found (maps.find_path path rib.path_mappings)
      then maps.erase_path path rib.path_mappings
      else rib.path_mappings;
  reverse_path_mappings = erase ids id rib.reverse_path_mappings;
  decls_within_rib = erase ids id rib.decls_within_rib;
}

-- `insert` of a `std::set`.
unfoldable pub add_reference : ℕ → List ℕ → List ℕ
add_reference ref [] = ref ∷ []
add_reference ref (r ∷ refs) = if r == ref then r ∷ refs else r ∷ add_reference ref refs

-- `references[def]`, which makes an empty set if there is none.
abbrev pub references_of : Option (List ℕ) → List ℕ
references_of none = []
references_of (some refs) = refs

-- `references[def].insert(ref)`
unfoldable pub append_reference : {M : Type 0} → ℕ → ℕ → Rib M → Rib M
unfolding add_reference find put
append_reference ref def rib = record rib {
  references =
      put ids def (add_reference ref (references_of (find ids def rib.references))) rib.references;
}

unfoldable pub rib_decl_type : {M : Type 0} → ℕ → Rib M → Option RibKind
unfolding find
rib_decl_type def rib = find ids def rib.decl_type_mappings

unfoldable pub lookup_name : {M : Type 0} → PathMaps M → CanonicalPath → Rib M → Option ℕ
lookup_name maps ident rib = maps.find_path ident rib.path_mappings
