-- ===== src/Resolver/Ribs/Declared.antt =====
-- What a rib knows of the ids that it declares.
use mlir_rustc.Prelude.{
  ℕ, Bool, true, false, not, ◌&&◌, ◌||◌, ◌==◌, if◌then◌else◌, ◌≡◌, refl, sym, ap, ◌∙◌, arith, List,
  [], ◌∷◌, some, Bool-cases, inl, inr, ◌⊎◌, ==_iff,
}
use mathlib.Core.Path.{subst}
use mlir_rustc.Lexer.Token.{Location}
use mlir_rustc.Adt.Paths.{CanonicalPath, path_equal}
use mlir_rustc.Resolver.PathMaps.{PathMaps, IsOrderedMap, is_order, equivalent_lem}
use mlir_rustc.Resolver.Maps.{contains, insert_new, ids, contains-put, contains-erase}
use mlir_rustc.Resolver.Ribs.{
  Rib, RibKind, new_rib, was_decl_declared_here, store_name, insert_name, clear_name,
  append_reference, lookup_name, is_found,
}

-- The operations that change a rib.
pub data RibOperation : Type 0 where
  inserts : CanonicalPath → ℕ → Location → Bool → RibKind → RibOperation
  clears : CanonicalPath → ℕ → RibOperation
  refers : ℕ → ℕ → RibOperation

abbrev pub perform : {M : Type 0} → PathMaps M → RibOperation → Rib M → Rib M
perform maps (inserts path id loc shadow kind) rib = insert_name maps path id loc shadow kind rib
perform maps (clears path id) rib = clear_name maps path id rib
perform maps (refers ref def) rib = append_reference ref def rib

abbrev pub perform_all : {M : Type 0} → PathMaps M → List RibOperation → Rib M → Rib M
perform_all maps [] rib = rib
perform_all maps (o ∷ os) rib = perform_all maps os (perform maps o rib)

-- Every id that the rib declares has a kind and a set of references.
abbrev pub IsWf : {M : Type 0} → Rib M → Type 0
IsWf rib =
    (id : ℕ)
    → contains ids id rib.decls_within_rib ≡ true
    → (contains ids id rib.decl_type_mappings ≡ true) × (contains ids id rib.references ≡ true)

or_here : (b c : Bool) → (b ≡ true → c ≡ true) → c ≡ (b || c)
or_here true c h = h refl
or_here false c h = refl

contains-insert_new :
    {V : Type 0} (k q : ℕ) (v : V) (m : List (ℕ × V))
    → contains ids q (insert_new ids k v m) ≡ (k == q || contains ids q m)
unfolding insert_new
contains-insert_new k q v m = elim (Bool-cases (contains ids k m)) [
  | inl e ↦ rw e (
      or_here (k == q) (contains ids q m)
        (λ h. ap (λ i. contains ids i m) (sym ((==_iff k q).0 h)) ∙ e))
  | inr e ↦ rw e (contains-put ids k q v m)
]

store_name-IsWf :
    {M : Type 0} (maps : PathMaps M) (path : CanonicalPath) (id : ℕ) (loc : Location)
    (kind : RibKind) (rib : Rib M)
    → IsWf rib
    → IsWf (store_name maps path id loc kind rib)
unfolding store_name
store_name-IsWf maps path id loc kind rib h q k =
    let old = sym (contains-insert_new id q loc rib.decls_within_rib) ∙ k in
    (
      contains-insert_new id q kind rib.decl_type_mappings ∙ ground (arith, h q, old),
      contains-put ids id q [] rib.references ∙ ground (arith, h q, old),
    )

insert_name-cases :
    {M : Type 0} (maps : PathMaps M) (path : CanonicalPath) (id : ℕ) (loc : Location)
    (shadow : Bool) (kind : RibKind) (rib : Rib M)
    → (insert_name maps path id loc shadow kind rib ≡ rib)
      ⊎ (insert_name maps path id loc shadow kind rib ≡ store_name maps path id loc kind rib)
unfolding insert_name
insert_name-cases maps path id loc shadow kind rib =
    elim (Bool-cases (is_found (maps.find_path path rib.path_mappings) && not shadow)) [
      | inl e ↦ inl (rw e)
      | inr e ↦ inr (rw e)
    ]

perform-IsWf :
    {M : Type 0} (maps : PathMaps M) (o : RibOperation) (rib : Rib M)
    → IsWf rib
    → IsWf (perform maps o rib)
unfolding clear_name append_reference
perform-IsWf maps (inserts path id loc shadow kind) rib h q k =
    elim (insert_name-cases maps path id loc shadow kind rib) [
      | inl e ↦ subst IsWf (sym e) h q k
      | inr e ↦ subst IsWf (sym e) (store_name-IsWf maps path id loc kind rib h) q k
    ]
perform-IsWf maps (clears path id) rib h q k = h q (contains-erase ids id q rib.decls_within_rib k)
perform-IsWf maps (refers ref def) rib h q k =
    ((h q k).0, contains-put ids def q _ rib.references ∙ ground (arith, (h q k).1))

perform_all-IsWf :
    {M : Type 0} (maps : PathMaps M) (os : List RibOperation) (rib : Rib M)
    → IsWf rib
    → IsWf (perform_all maps os rib)
perform_all-IsWf maps [] rib h = h
perform_all-IsWf maps (o ∷ os) rib h =
    perform_all-IsWf maps os (perform maps o rib) (perform-IsWf maps o rib h)

-- Any operations on a new rib leave it well formed.
pub perform_all-new_rib :
    {M : Type 0} (maps : PathMaps M) (os : List RibOperation) (crate_num node_id : ℕ)
    → IsWf (perform_all maps os (new_rib maps crate_num node_id))
unfolding contains
perform_all-new_rib maps os crate_num node_id =
    perform_all-IsWf maps os (new_rib maps crate_num node_id) (λ id h. cc)

-- After any operations on a new rib, an id that the rib declares has a kind and a set of references.
pub perform_all-declared :
    {M : Type 0} (maps : PathMaps M) (os : List RibOperation) (crate_num node_id id : ℕ)
    → was_decl_declared_here id (perform_all maps os (new_rib maps crate_num node_id)) ≡ true
    → (contains ids id (perform_all maps os (new_rib maps crate_num node_id)).decl_type_mappings
        ≡ true)
      × (contains ids id (perform_all maps os (new_rib maps crate_num node_id)).references ≡ true)
unfolding was_decl_declared_here
perform_all-declared maps os crate_num node_id id h =
    perform_all-new_rib maps os crate_num node_id id h

-- A conjunct that holds.
pub if_and-true :
    {A : Type 0} (b : Bool) (x y : A) → (if b then x else y) ≡ (if b && true then x else y)
if_and-true true x y = refl
if_and-true false x y = refl

if_and-false : {A : Type 0} (b : Bool) (x y : A) → y ≡ (if b && false then x else y)
if_and-false true x y = refl
if_and-false false x y = refl

-- Whether the name may be stored.
abbrev may_store : Bool → Bool → Bool
may_store known shadow = shadow || not known

guard-false : (known shadow : Bool) → may_store known shadow ≡ true → (known && not shadow) ≡ false
guard-false known shadow h = ground arith

guard-true : (known shadow : Bool) → may_store known shadow ≡ false → (known && not shadow) ≡ true
guard-true known shadow h = ground arith

-- A name inserted into a rib is found there with its new id if it may shadow or was not there; every
-- other name is found as before.
pub lookup_name-insert_name :
    {M : Type 0} (maps : PathMaps M) (ordered : IsOrderedMap maps) (path q : CanonicalPath) (id : ℕ)
    (loc : Location) (shadow : Bool) (kind : RibKind) (rib : Rib M)
    → is_order (path ∷ q ∷ ordered.keys rib.path_mappings) ≡ true
    → lookup_name maps q (insert_name maps path id loc shadow kind rib) ≡ (
        if path_equal path q && (shadow || not (is_found (lookup_name maps path rib)))
        then some id
        else lookup_name maps q rib)
unfolding lookup_name insert_name store_name
lookup_name-insert_name maps ordered path q id loc shadow kind rib o =
    let known = is_found (maps.find_path path rib.path_mappings) in
    let before = maps.find_path q rib.path_mappings in
    elim (Bool-cases (may_store known shadow)) [
      | inl e ↦
          rw (guard-false known shadow e, e)
            (ordered.find-put path q id rib.path_mappings o
              ∙ (ap (λ b. if b then some id else before) (equivalent_lem path q)
                  ∙ if_and-true (path_equal path q) (some id) before))
      | inr e ↦
          rw (guard-true known shadow e, e) (if_and-false (path_equal path q) (some id) before)
    ]
