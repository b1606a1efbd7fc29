-- ===== src/Scoped/Tables.antt =====
-- `ScopedHashTable` and `ScopedHashTableScope` of code/include/ADT/ScopedHashTable.h. The chain of scopes
-- from `currentScope` on is a list of their maps. The keys are those of llvm::DenseMap, told apart by
-- an equality test; the empty key and the tombstone of its information are left out.
pub mod Blocks
use mlir_rustc.Prelude.{
  ℕ, Bool, true, false, not, ◌||◌, if◌then◌else◌, List, [], ◌∷◌, Option, none, some, Outcome, ok,
  aborted, ◌>>=◌,
}
use mlir_rustc.Resolver.Maps.{Keys, find, contains, insert_new}

module _ {K V : Type 0} (keys : Keys K) where
  -- `SmallMap::insert`: whether the key was not there.
  unfoldable pub local_insert : K → V → List (K × V) → Bool × List (K × V)
  unfolding contains insert_new
  local_insert k v m = (not (contains keys k m), insert_new keys k v m)

  unfoldable pub scope_contains : K → List (List (K × V)) → Bool
  unfolding contains
  scope_contains k [] = false
  scope_contains k (m ∷ scopes) = contains keys k m || scope_contains k scopes

  unfoldable pub scope_find : K → List (List (K × V)) → Option V
  unfolding contains find
  scope_find k [] = none
  scope_find k (m ∷ scopes) = if contains keys k m then find keys k m else scope_find k scopes

  -- The members of `ScopedHashTable`, which assert that there is a scope.
  unfoldable pub table_contains : K → List (List (K × V)) → Outcome Bool
  unfolding scope_contains
  table_contains k [] = aborted
  table_contains k (m ∷ scopes) = ok (scope_contains k (m ∷ scopes))

  unfoldable pub table_find : K → List (List (K × V)) → Outcome (Option V)
  unfolding scope_find
  table_find k [] = aborted
  table_find k (m ∷ scopes) = ok (scope_find k (m ∷ scopes))

  unfoldable pub table_insert : K → V → List (List (K × V)) → Outcome (Bool × List (List (K × V)))
  unfolding local_insert
  table_insert k v [] = aborted
  table_insert k v (m ∷ scopes) = ok ((local_insert k v m).0, (local_insert k v m).1 ∷ scopes)

module _ {K V : Type 0} where
  -- The constructor and the destructor of a scope.
  unfoldable pub enter_scope : List (List (K × V)) → List (List (K × V))
  enter_scope scopes = [] ∷ scopes

  unfoldable pub leave_scope : List (List (K × V)) → List (List (K × V))
  leave_scope [] = []
  leave_scope (m ∷ scopes) = scopes
