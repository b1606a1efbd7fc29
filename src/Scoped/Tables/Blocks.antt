-- ===== src/Scoped/Tables/Blocks.antt =====
-- Lookups through the scopes, and what a block leaves of them.
use mlir_rustc.Prelude.{
  Bool, true, false, not, ◌&&◌, ◌||◌, if◌then◌else◌, List, [], ◌∷◌, ◌++◌, Option, some, Outcome, ok,
  ◌>>=◌, ◌≡◌, refl, sym, ◌∙◌, ap, arith, Bool-cases, inl, inr,
}
use mlir_rustc.Resolver.Maps.{Keys, find, contains, insert_new, find-put, contains-put}
use mlir_rustc.Scoped.Tables.{
  local_insert, scope_contains, scope_find, table_contains, table_find, table_insert, enter_scope,
  leave_scope,
}

-- What the program does with the table: it inserts, and it opens a scope for the length of a block.
mutual
  pub data Command (K V : Type 0) : Type 0 where
    insert : K → V → Command K V
    block : Commands K V → Command K V

  pub data Commands (K V : Type 0) : Type 0 where
    done : Commands K V
    next : Command K V → Commands K V → Commands K V

if_found :
    {V : Type 0} (b : Bool) (v : V) (c : Bool) (o outer : Option V)
    → (if b || c then if b then some v else o else outer)
      ≡ (if b then some v else if c then o else outer)
if_found true v c o outer = refl
if_found false v c o outer = refl

module _ {K V : Type 0} (keys : Keys K) where
  unfoldable mutual
    unfolding table_insert enter_scope leave_scope

    pub perform : Command K V → List (List (K × V)) → Outcome (List (List (K × V)))
    perform (insert k v) table = table_insert keys k v table >>= λ r. ok r.1
    perform (block commands) table =
        perform_all commands (enter_scope table) >>= λ inner. ok (leave_scope inner)

    pub perform_all : Commands K V → List (List (K × V)) → Outcome (List (List (K × V)))
    perform_all done table = ok table
    perform_all (next command commands) table =
        perform command table >>= λ rest. perform_all commands rest

  mutual
    unfolding perform table_insert enter_scope leave_scope

    perform-tail :
        (command : Command K V) (m : List (K × V)) (scopes : List (List (K × V)))
        → (m' : List (K × V)) × (perform command (m ∷ scopes) ≡ ok (m' ∷ scopes))
    perform-tail (insert k v) m scopes = ((local_insert keys k v m).1, refl)
    perform-tail (block commands) m scopes =
        let (inner, e) = perform_all-tail commands [] (m ∷ scopes) in (m, rw e refl)

    perform_all-tail :
        (commands : Commands K V) (m : List (K × V)) (scopes : List (List (K × V)))
        → (m' : List (K × V)) × (perform_all commands (m ∷ scopes) ≡ ok (m' ∷ scopes))
    perform_all-tail done m scopes = (m, refl)
    perform_all-tail (next command commands) m scopes =
        let (m', e) = perform-tail command m scopes in
        let (m'', e') = perform_all-tail commands m' scopes in (m'', rw e e')

  -- A block leaves every table as it was, whatever is inserted in it and in the blocks within it.
  pub perform-block :
      (commands : Commands K V) (table : List (List (K × V)))
      → perform (block commands) table ≡ ok table
  unfolding perform enter_scope leave_scope
  perform-block commands table = let (inner, e) = perform_all-tail commands [] table in rw e refl

  -- The entries of all scopes, the innermost ones first.
  pub flatten : List (List (K × V)) → List (K × V)
  flatten [] = []
  flatten (m ∷ scopes) = m ++ flatten scopes

  find-append :
      (k : K) (m n : List (K × V))
      → find keys k (m ++ n) ≡ (if contains keys k m then find keys k m else find keys k n)
  unfolding find contains
  find-append k [] n = refl
  find-append k ((j, v) ∷ m) n = elim (Bool-cases (keys.same j k)) [
    | inl e ↦ rw e refl
    | inr e ↦ rw e (find-append k m n)
  ]

  contains-append :
      (k : K) (m n : List (K × V))
      → contains keys k (m ++ n) ≡ (contains keys k m || contains keys k n)
  unfolding contains
  contains-append k [] n = refl
  contains-append k ((j, v) ∷ m) n = ground (arith, contains-append k m n)

  scope_find-flatten :
      (k : K) (scopes : List (List (K × V)))
      → scope_find keys k scopes ≡ find keys k (flatten scopes)
  unfolding scope_find flatten find
  scope_find-flatten k [] = refl
  scope_find-flatten k (m ∷ scopes) =
      ap (λ o. if contains keys k m then find keys k m else o) (scope_find-flatten k scopes)
      ∙ sym (find-append k m (flatten scopes))

  scope_contains-flatten :
      (k : K) (scopes : List (List (K × V)))
      → scope_contains keys k scopes ≡ contains keys k (flatten scopes)
  unfolding scope_contains flatten contains
  scope_contains-flatten k [] = refl
  scope_contains-flatten k (m ∷ scopes) =
      ap (λ b. contains keys k m || b) (scope_contains-flatten k scopes)
      ∙ sym (contains-append k m (flatten scopes))

  -- With a scope at least, the table finds what a search through all entries finds that begins with the
  -- innermost ones, and it contains a key exactly where that search meets it.
  pub table_find-flatten :
      (k : K) (m : List (K × V)) (scopes : List (List (K × V)))
      → (table_find keys k (m ∷ scopes) ≡ ok (find keys k (flatten (m ∷ scopes))))
        × (table_contains keys k (m ∷ scopes) ≡ ok (contains keys k (flatten (m ∷ scopes))))
  unfolding table_find table_contains
  table_find-flatten k m scopes =
      (ap ok (scope_find-flatten k (m ∷ scopes)), ap ok (scope_contains-flatten k (m ∷ scopes)))

  find-top :
      (k q : K) (v : V) (m : List (K × V)) (outer : Option V)
      → (if contains keys q (insert_new keys k v m)
          then find keys q (insert_new keys k v m)
          else outer)
        ≡ (if not (contains keys k m) && keys.same k q
            then some v
            else if contains keys q m
            then find keys q m
            else outer)
  unfolding insert_new
  find-top k q v m outer = elim (Bool-cases (contains keys k m)) [
    | inl e ↦ rw e refl
    | inr e ↦
        rw (e, contains-put keys k q v m, find-put keys k q v m)
          (if_found (keys.same k q) v _ _ outer)
  ]

  -- An insertion tells whether the key is new to the innermost scope, and only then a lookup of the key
  -- finds the new value; every other lookup finds what it found before.
  pub table_find-insert :
      (k q : K) (v : V) (m : List (K × V)) (scopes : List (List (K × V)))
      → (top : List (K × V)) × (table_insert keys k v (m ∷ scopes)
          ≡ ok (not (contains keys k m), top ∷ scopes))
        × (table_find keys q (top ∷ scopes)
            ≡ ok (
                if not (contains keys k m) && keys.same k q
                then some v
                else scope_find keys q (m ∷ scopes)))
  unfolding table_find table_insert local_insert scope_find insert_new
  table_find-insert k q v m scopes =
      (insert_new keys k v m, refl, ap ok (find-top k q v m (scope_find keys q scopes)))
