-- ===== src/Scoped/Ribs.antt =====
-- `Rib` of code/sema/Rib.cpp and code/include/Sema/Rib.h.
use mlir_rustc.Prelude.{
  ℕ, Bool, true, false, not, ◌&&◌, if◌then◌else◌, List, [], ◌∷◌, Option, none, some, Bytes, equal,
  equal_iff, equal_refl, ◌≡◌, refl, sym, ◌∙◌, arith, Bool-cases, inl, inr,
}
use mlir_rustc.Resolver.Maps.{find-put, contains-find, Keys, find, contains, insert_new}

pub data RibKind : Type 0 where
  normal module_rib function constant_item trait_or_impl item closure macro_definition : RibKind
  const_param_type : RibKind

pub record Rib : Type 0 where
  pub kind : RibKind
  pub values : List (Bytes × ℕ)

abbrev pub names : Keys Bytes
names = record {
  same = equal;
  same_refl = equal_refl;
  same_sym = λ a b h. (equal_iff b a).1 (sym ((equal_iff a b).0 h));
  same_trans = λ a b c h k. (equal_iff a c).1 ((equal_iff a b).0 h ∙ (equal_iff b c).0 k);
}

-- `insert`: the result, `none` where it is the error, and the rib. The map keeps an entry that is there.
unfoldable pub rib_insert : Bytes → ℕ → Bool → Rib → Option ℕ × Rib
unfolding contains find insert_new
rib_insert name id can_shadow rib = (
  if contains names name rib.values && not can_shadow
      then none
      else find names name (insert_new names name id rib.values),
  record rib { values = insert_new names name id rib.values },
)

unfoldable pub rib_get : Bytes → Rib → Option ℕ
unfolding find
rib_get name rib = find names name rib.values

-- What the name had before decides: the result and what a lookup finds afterwards.
abbrev pub result_after : ℕ → Bool → Option ℕ → Option ℕ
result_after id can_shadow none = some id
result_after id can_shadow (some old) = if can_shadow then some old else none

abbrev pub found_after : Bool → ℕ → Option ℕ → Option ℕ → Option ℕ
found_after asked id none other = if asked then some id else other
found_after asked id (some old) other = other

old_result :
    (can_shadow : Bool) (old : ℕ)
    → (if true && not can_shadow then none else some old) ≡ (if can_shadow then some old else none)
old_result true old = refl
old_result false old = refl

found-contains :
    (name : Bytes) (m : List (Bytes × ℕ))
    → contains names name m ≡ true
    → (old : ℕ) × (find names name m ≡ some old)
unfolding contains find
found-contains name [] h = cc
found-contains name ((j, v) ∷ m) h = elim (Bool-cases (equal j name)) [
  | inl e ↦ (v, rw e refl)
  | inr e ↦ let (old, f) = found-contains name m (ground arith) in (old, rw (e, f) refl)
]

-- A name that was not in the rib is stored with its id, which is the result. A name that was there keeps
-- its id: this is the result if the name may shadow, and the insertion is an error if not. Every other
-- name is found as before.
pub rib_get-rib_insert :
    (name q : Bytes) (id : ℕ) (can_shadow : Bool) (rib : Rib)
    → ((rib_insert name id can_shadow rib).0 ≡ result_after id can_shadow (rib_get name rib))
      × (rib_get q (rib_insert name id can_shadow rib).1
          ≡ found_after (equal name q) id (rib_get name rib) (rib_get q rib))
unfolding rib_insert rib_get insert_new
rib_get-rib_insert name q id can_shadow rib = elim (Bool-cases (contains names name rib.values)) [
  | inl e ↦
      let (old, f) = found-contains name rib.values e in
      (rw (e, f) (old_result can_shadow old), rw (e, f) refl)
  | inr e ↦ (
    rw
        (
          e,
          find-put names name name id rib.values,
          equal_refl name,
          contains-find names name rib.values e,
        )
        refl,
    rw (e, find-put names name q id rib.values, contains-find names name rib.values e) refl,
  )
]
