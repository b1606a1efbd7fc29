-- ===== src/Resolver/PathMaps/Listed.antt =====
-- Lists of entries as maps from paths: what is asked of a map can be met.
use mlir_rustc.Prelude.{ℕ, if◌then◌else◌, List, [], ◌∷◌, none, some, ◌≡◌, refl, sym, ◌∙◌, ap}
use mlir_rustc.Adt.Paths.{CanonicalPath}
use mlir_rustc.Resolver.Maps.{find, put, erase, paths, find-put}
use mlir_rustc.Resolver.PathMaps.{PathMaps, IsOrderedMap, equivalent_lem}

abbrev pub Entries : Type 0
Entries = List (CanonicalPath × ℕ)

abbrev pub keys_of : Entries → List CanonicalPath
keys_of [] = []
keys_of ((p, _) ∷ m) = p ∷ keys_of m

abbrev pub listed : PathMaps Entries
listed = record {
  no_paths = [];
  find_path = find paths;
  put_path = put paths;
  erase_path = erase paths;
}

pub find-no_paths : (q : CanonicalPath) → find {V = ℕ} paths q [] ≡ none
unfolding find
find-no_paths q = refl

unfoldable pub listed-IsOrderedMap : IsOrderedMap listed
listed-IsOrderedMap = record {
  keys = keys_of;
  find-empty = find-no_paths;
  find-put = λ p q id m h.
      find-put paths p q id m
      ∙ ap (λ b. if b then some id else find paths q m) (sym (equivalent_lem p q));
}
