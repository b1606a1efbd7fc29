-- ===== src/Scoped/Tests.antt =====
-- Scopes and ribs with entries.
use mlir_rustc.Prelude.{ℕ, true, List, [], ◌∷◌, some, codes, equal, ok, ◌≡◌, refl}
use mlir_rustc.Resolver.Maps.{ids, find, contains}
use mlir_rustc.Scoped.Tables.{table_find, table_contains}
use mlir_rustc.Scoped.Tables.Blocks
use mlir_rustc.Scoped.Ribs.{
  Rib, normal, rib_insert, rib_get, result_after, found_after, rib_get-rib_insert,
}

abbrev outer : List (List (ℕ × ℕ))
outer = ((1, 10) ∷ []) ∷ []

abbrev inserts : Blocks.Commands ℕ ℕ
inserts = Blocks.next (Blocks.insert 1 11) (Blocks.next (Blocks.insert 2 12) Blocks.done)

perform-block_example : Blocks.perform ids (Blocks.block inserts) outer ≡ ok outer
perform-block_example = Blocks.perform-block ids inserts outer

table_find-flatten_example :
    (table_find ids 1 (((2, 20) ∷ []) ∷ outer)
      ≡ ok (find ids 1 (Blocks.flatten ids (((2, 20) ∷ []) ∷ outer))))
    × (table_contains ids 1 (((2, 20) ∷ []) ∷ outer)
        ≡ ok (contains ids 1 (Blocks.flatten ids (((2, 20) ∷ []) ∷ outer))))
table_find-flatten_example = Blocks.table_find-flatten ids 1 ((2, 20) ∷ []) outer

abbrev rib : Rib
rib = record { kind = normal; values = (codes "x", 1) ∷ [] }

rib_get-rib_insert_example :
    ((rib_insert (codes "x") 2 true rib).0 ≡ result_after 2 true (rib_get (codes "x") rib))
    × (rib_get (codes "x") (rib_insert (codes "x") 2 true rib).1
        ≡ found_after
            (equal (codes "x") (codes "x"))
            2
            (rib_get (codes "x") rib)
            (rib_get (codes "x") rib))
rib_get-rib_insert_example = rib_get-rib_insert (codes "x") (codes "x") 2 true rib

-- A shadowing insertion leaves the old id.
shadowed : rib_get (codes "x") (rib_insert (codes "x") 2 true rib).1 ≡ some 1
unfolding rib_insert rib_get contains find equal
shadowed = refl
