-- ===== src/Unification/Unify/Learning/Sharing.antt =====
-- `share_references` from objects that are there.
use mlir_rustc.Prelude.{ℕ, true, List, [], ◌∷◌, some, ◌≡◌, refl, ◌∙◌, ok}
use mlir_rustc.Unification.Store.{BaseType, Context}
use mlir_rustc.Unification.Store.Commands.{Command, ◌>>=◌, ◌>>◌, load, append_reference}
use mlir_rustc.Unification.Unify
use mlir_rustc.Unification.Unify.Plain.{load_lem}
use mlir_rustc.Unification.Unify.Learning.{
  has, Learns, Learns-refl, Learns-trans, Taught, append_reference-Added,
}

module _ (c : Context) where
  -- The command teaches whatever was taught to `c` before.
  abbrev Can : Command (Unit {0}) → Type 0
  Can m = (d : Context) → Learns c d → Taught m d

  then-Can : (m n : Command (Unit {0})) → Can m → Can n → Can (m >> n)
  then-Can m n h k d l =
      let t = h d l in
      let u = k t.store (Learns-trans c d t.store l t.learns) in
      record {
        store = u.store;
        runs = rw (t.runs, u.runs) refl;
        learns = Learns-trans d t.store u.store t.learns u.learns;
      }

  append-Can : (a n : ℕ) (t : BaseType) → c.objects a ≡ some t → Can (append_reference a n)
  append-Can a n t h d l =
      let q = l.objects a t h in (append_reference-Added a n d q.object q.here).taught

  append_references-Can :
      (a : ℕ) (ns : List ℕ) (t : BaseType)
      → c.objects a ≡ some t
      → Can (Unify.append_references a ns)
  unfolding Unify.append_references
  append_references-Can a [] t h d l = record { store = d; runs = refl; learns = Learns-refl d }
  append_references-Can a (n ∷ ns) t h d l =
      then-Can (append_reference a n) (Unify.append_references a ns) (append-Can a n t h)
        (append_references-Can a ns t h) d l

  fetch-Can :
      (a : ℕ) (f : BaseType → Command (Unit {0})) (t : BaseType)
      → c.objects a ≡ some t
      → ((u : BaseType) → Can (f u))
      → Can (load a >>= f)
  fetch-Can a f t h k d l =
      let q = l.objects a t h in
      let u = k q.object d l in
      record {
        store = u.store;
        runs = rw (load_lem a d q.object q.here, u.runs) refl;
        learns = u.learns;
      }

  -- What follows the first reference that is appended.
  abbrev afterwards : ℕ → ℕ → ℕ → BaseType → BaseType → Command (Unit {0})
  afterwards b o x l r = do
    append_reference x r.reference
    Unify.append_references x l.combined
    Unify.append_references x r.combined
    t ← load x
    append_reference o t.reference
    append_reference o l.reference
    append_reference b t.reference
    append_reference b r.reference

  module _ (b o x : ℕ) (l r t : BaseType) (left : c.objects b ≡ some l)
      (right : c.objects o ≡ some r) (result : c.objects x ≡ some t) where
    afterwards-Can : Can (afterwards b o x l r)
    afterwards-Can =
        then-Can (append_reference x r.reference) _ (append-Can x r.reference t result) (
          then-Can (Unify.append_references x l.combined) _
            (append_references-Can x l.combined t result)
            (then-Can (Unify.append_references x r.combined) _
              (append_references-Can x r.combined t result)
              (fetch-Can x _ t result (λ u.
                then-Can (append_reference o u.reference) _ (append-Can o u.reference r right) (
                  then-Can (append_reference o l.reference) _ (append-Can o l.reference r right) (
                    then-Can (append_reference b u.reference) _ (append-Can b u.reference l left)
                      (append-Can b r.reference l left)))))))

    -- The result has the reference of the left type.
    pub record Shares : Type 0 where
      pub store : Context
      pub runs : (copy : ℕ → Command ℕ) → Unify.share_references copy b o x c ≡ ok (tt, store)
      pub learns : Learns c store
      pub object : BaseType
      pub here : store.objects x ≡ some object
      pub shaped : object.shape ≡ t.shape
      pub knows : has l.reference object.combined ≡ true

    pub share_references-Shares : Shares
    unfolding Unify.share_references
    share_references-Shares =
        let added = append_reference-Added x l.reference c t result in
        let first = added.taught in
        let rest = afterwards-Can first.store first.learns in
        let q = rest.learns.objects x added.object added.here in
        record {
          store = rest.store;
          runs = λ copy. rw (load_lem b c l left, load_lem o c r right, first.runs, rest.runs) refl;
          learns = Learns-trans c first.store rest.store first.learns rest.learns;
          object = q.object;
          here = q.here;
          shaped = q.learned.shaped ∙ added.shaped;
          knows = q.learned.more l.reference added.knows;
        }
