-- ===== src/Resolver/PathMaps.antt =====
-- `std::map<CanonicalPath, NodeId>`, which code/sema/Resolver/Resolver.h has as a member of `Rib`: the
-- calls that the resolver makes of it, and what the standard says of them. The map is ordered by
-- `operator<` of `CanonicalPath`, which the standard requires to be a strict weak order.
pub mod Listed
use mlir_rustc.Prelude.{
  ℕ, Bool, true, false, not, ◌&&◌, ◌||◌, if◌then◌else◌, ◌≡◌, refl, arith, List, [], ◌∷◌, Option,
  none, some, Bool-cases, inl, inr,
}
use mlir_rustc.Adt.Paths.{CanonicalPath, path_equal, path_less}
use mlir_rustc.Adt.Paths.Laws.{path_less-total, path_equal-less}
use mlir_rustc.Resolver.Maps.{paths}

-- The calls, over the type of the maps.
pub record PathMaps (M : Type 0) : Type 0 where
  pub no_paths : M
  -- `find`, with the value behind the iterator
  pub find_path : CanonicalPath → M → Option ℕ
  -- `m[path] = id`
  pub put_path : CanonicalPath → ℕ → M → M
  -- `erase` of what `find` gives
  pub erase_path : CanonicalPath → M → M

-- Keys of which neither is less are one key.
abbrev pub equivalent : CanonicalPath → CanonicalPath → Bool
equivalent p q = not (path_less p q) && not (path_less q p)

abbrev pub every : (CanonicalPath → Bool) → List CanonicalPath → Bool
every test [] = true
every test (p ∷ ps) = test p && every test ps

-- What a strict weak order asks of three keys.
abbrev pub in_order : CanonicalPath → CanonicalPath → CanonicalPath → Bool
in_order p q r =
    not (path_less p p)
    && ((not (path_less p q && path_less q r) || path_less p r)
        && (not (equivalent p q && equivalent q r) || equivalent p r))

-- `operator<` is a strict weak order of these keys.
unfoldable pub is_order : List CanonicalPath → Bool
unfolding path_less
is_order ps = every (λ p. every (λ q. every (λ r. in_order p q r) ps) ps) ps

-- Where `operator<` is a strict weak order of the keys that a map holds and of those at hand, `find`
-- finds what was stored last under an equivalent key; in an empty map it finds nothing.
pub record IsOrderedMap {M : Type 0} (maps : PathMaps M) : Type 0 where
  pub keys : M → List CanonicalPath
  pub find-empty : (q : CanonicalPath) → maps.find_path q maps.no_paths ≡ none
  pub find-put :
      (p q : CanonicalPath) (id : ℕ) (m : M)
      → is_order (p ∷ q ∷ keys m) ≡ true
      → maps.find_path q (maps.put_path p id m)
        ≡ (if equivalent p q then some id else maps.find_path q m)

-- Two paths are equivalent exactly if `==` holds of them.
pub equivalent_lem : (p q : CanonicalPath) → equivalent p q ≡ path_equal p q
equivalent_lem p q = elim (Bool-cases (path_equal p q)) [
  | inl e ↦ rw (path_equal-less p q e, path_equal-less q p (paths.same_sym p q e), e) refl
  | inr e ↦ let total = path_less-total p q e in ground arith
]
