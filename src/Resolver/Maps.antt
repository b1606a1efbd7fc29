-- ===== src/Resolver/Maps.antt =====
-- `std::map` with node ids as keys, as the resolver uses it: a list of entries under an equality test of
-- the keys, and the laws of a test that is an equivalence.
use mlir_rustc.Prelude.{
  ℕ, Bool, true, false, ◌||◌, ◌==◌, if◌then◌else◌, ◌≡◌, refl, sym, ◌∙◌, arith, List, [], ◌∷◌,
  Option, none, some, Bool-cases, inl, inr,
}
use mlir_rustc.Adt.Names.Order.{true-false}
use mlir_rustc.Adt.Paths.{CanonicalPath, path_equal}
use mlir_rustc.Adt.Paths.Laws.{path_equal_iff}

-- An equality test of keys.
pub record Keys (K : Type 0) : Type 0 where
  pub same : K → K → Bool
  pub same_refl : (a : K) → same a a ≡ true
  pub same_sym : (a b : K) → same a b ≡ true → same b a ≡ true
  pub same_trans : (a b c : K) → same a b ≡ true → same b c ≡ true → same a c ≡ true

module _ {K : Type 0} (keys : Keys K) where
  -- Where two keys are the same, they are the same as the same keys.
  same_left : (a b c : K) → keys.same a b ≡ true → keys.same a c ≡ keys.same b c
  same_left a b c h = elim (Bool-cases (keys.same b c)) [
    | inl e ↦ keys.same_trans a b c h e ∙ sym e
    | inr e ↦ elim (Bool-cases (keys.same a c)) [
      | inl k ↦ absurd (true-false (sym (keys.same_trans b a c (keys.same_sym a b h) k) ∙ e))
      | inr k ↦ k ∙ sym e
    ]
  ]

  same_right : (a b c : K) → keys.same a c ≡ true → keys.same b c ≡ true → keys.same a b ≡ true
  same_right a b c h k = keys.same_trans a c b h (keys.same_sym b c k)

if_same : {A : Type 0} (b : Bool) (x : A) → x ≡ (if b then x else x)
if_same true x = refl
if_same false x = refl

or_again : (b c : Bool) → (b || c) ≡ (b || (b || c))
or_again true c = refl
or_again false c = refl

if_again :
    {A : Type 0} (b : Bool) (x y z : A)
    → (if b then x else z) ≡ (if b then x else if b then y else z)
if_again true x y z = refl
if_again false x y z = refl

if_swap :
    {A : Type 0} (b c : Bool) (x y z : A)
    → (b ≡ true → c ≡ true → ⊥)
    → (if b then x else if c then y else z) ≡ (if c then y else if b then x else z)
if_swap true true x y z h = absurd (h refl refl)
if_swap true false x y z h = refl
if_swap false true x y z h = refl
if_swap false false x y z h = refl

module _ {K V : Type 0} (keys : Keys K) where
  unfoldable pub find : K → List (K × V) → Option V
  find k [] = none
  find k ((j, v) ∷ m) = let rest = find k m in if keys.same j k then some v else rest

  unfoldable pub contains : K → List (K × V) → Bool
  contains k [] = false
  contains k ((j, v) ∷ m) = keys.same j k || contains k m

  -- `m[k] = v`
  unfoldable pub put : K → V → List (K × V) → List (K × V)
  put k v [] = (k, v) ∷ []
  put k v ((j, w) ∷ m) = let rest = put k v m in if keys.same j k then (j, v) ∷ m else (j, w) ∷ rest

  -- `m.insert({k, v})`, which leaves an entry that is there.
  unfoldable pub insert_new : K → V → List (K × V) → List (K × V)
  unfolding contains put
  insert_new k v m = if contains k m then m else put k v m

  unfoldable pub erase : K → List (K × V) → List (K × V)
  erase k [] = []
  erase k ((j, v) ∷ m) = let rest = erase k m in if keys.same j k then rest else (j, v) ∷ rest

  pub find-put :
      (k q : K) (v : V) (m : List (K × V))
      → find q (put k v m) ≡ (if keys.same k q then some v else find q m)
  unfolding find put
  find-put k q v [] = refl
  find-put k q v ((j, w) ∷ m) = elim (Bool-cases (keys.same j k)) [
    | inl e ↦ rw (e, same_left keys j k q e) (if_again (keys.same k q) (some v) (some w) (find q m))
    | inr e ↦
        rw (e, find-put k q v m)
          (if_swap (keys.same j q) (keys.same k q) (some w) (some v) (find q m)
            (λ h i. true-false (sym (same_right keys j k q h i) ∙ e)))
  ]

  pub find-erase :
      (k q : K) (m : List (K × V)) → find q (erase k m) ≡ (if keys.same k q then none else find q m)
  unfolding find erase
  find-erase k q [] = if_same (keys.same k q) none
  find-erase k q ((j, w) ∷ m) = elim (Bool-cases (keys.same j k)) [
    | inl e ↦
        rw (e, find-erase k q m, same_left keys j k q e)
          (if_again (keys.same k q) none (some w) (find q m))
    | inr e ↦
        rw (e, find-erase k q m)
          (if_swap (keys.same j q) (keys.same k q) (some w) none (find q m)
            (λ h i. true-false (sym (same_right keys j k q h i) ∙ e)))
  ]

  pub contains-put :
      (k q : K) (v : V) (m : List (K × V))
      → contains q (put k v m) ≡ (keys.same k q || contains q m)
  unfolding contains put
  contains-put k q v [] = refl
  contains-put k q v ((j, w) ∷ m) = elim (Bool-cases (keys.same j k)) [
    | inl e ↦ rw (e, same_left keys j k q e) (or_again (keys.same k q) (contains q m))
    | inr e ↦ rw (e, contains-put k q v m) (ground arith)
  ]

  pub contains-erase :
      (k q : K) (m : List (K × V)) → contains q (erase k m) ≡ true → contains q m ≡ true
  unfolding contains erase
  contains-erase k q [] h = h
  contains-erase k q ((j, w) ∷ m) h = ground (arith, contains-erase k q m)

  pub contains-find : (k : K) (m : List (K × V)) → contains k m ≡ false → find k m ≡ none
  unfolding contains find
  contains-find k [] h = refl
  contains-find k ((j, v) ∷ m) h = ground (arith, contains-find k m)

-- Node ids.
pub id_refl : (a : ℕ) → (a == a) ≡ true
id_refl a = ground arith

pub id_sym : (a b : ℕ) → (a == b) ≡ true → (b == a) ≡ true
id_sym a b h = ground arith

pub id_trans : (a b c : ℕ) → (a == b) ≡ true → (b == c) ≡ true → (a == c) ≡ true
id_trans a b c h k = ground arith

abbrev pub ids : Keys ℕ
ids = record { same = λ a b. a == b; same_refl = id_refl; same_sym = id_sym; same_trans = id_trans }

-- Paths, which `==` tells apart by the names of their segments.
abbrev pub paths : Keys CanonicalPath
paths = record {
  same = λ p q. path_equal p q;
  same_refl = λ p. (path_equal_iff p p).1 refl;
  same_sym = λ p q h. (path_equal_iff q p).1 (sym ((path_equal_iff p q).0 h));
  same_trans =
      λ p q r h k. (path_equal_iff p r).1 ((path_equal_iff p q).0 h ∙ (path_equal_iff q r).0 k);
}
