-- ===== src/Unification/Unify/Resolves/Variable.antt =====
-- Unification of an inference variable with a number type.
use mathlib.Core.Path.{subst}
use mlir_rustc.Prelude.{
  ℕ, suc, ◌==◌, true, false, ◌&&◌, if◌then◌else◌, some, ◌≡◌, refl, sym, ap, ◌∙◌, inl, inr, Outcome,
  ok, arith, Bool-cases, ==_iff,
}
use mlir_rustc.Adt.Names.Order.{true-false}
use mlir_rustc.TyTy.Types
use mlir_rustc.TyTy.Types.{InferKind, no_float, no_integral}
use mlir_rustc.TyTy.Compare.{can_equal}
use mlir_rustc.Unification.Store.{
  BaseType, Shape, Context, TypeHint, infer_type, updated, is_inferred,
}
use mlir_rustc.Unification.Store.Commands.{
  Command, pure, abort, ◌>>=◌, store, alloc, apply_scalar_type_hint, with_hint, is_error,
}
use mlir_rustc.Unification.Store.Clones.{clone}
use mlir_rustc.Unification.Store.Steady.{WellFormed, IsAt, Leaves, IsSteady}
use mlir_rustc.Unification.Store.Steady.Cloning.{clone-IsSteady}
use mlir_rustc.Unification.Expect.Steady.{expect-IsSteady}
use mlir_rustc.Unification.Store.Steady.Primitives.{updated-here, updated-there}
use mlir_rustc.Unification.Expect
use mlir_rustc.Unification.Unify
use mlir_rustc.Unification.Unify.Plain.{plain_type, load_lem, clone-plain}
use mlir_rustc.Unification.Unify.Plain.Answers.{expect-loads, is_error_lem}
use mlir_rustc.Unification.Unify.Learning.{has}
use mlir_rustc.Unification.Unify.Learning.Sharing.{Shares, share_references-Shares}
use mlir_rustc.Unification.Unify.Resolves.{At, IsOfShape, Waits, Ready, resolve_all-Looped}
use mlir_rustc.Unification.Unify.Resolves.Numbers.{
  is_number, number-plain, number-error, number-inferred, number-settled, expect_shape-variable,
}

-- The run returns an object with the members of `r`, and the node id of `l` resolves to one.
pub record Resolved (c : Context) (l r : BaseType) (m : Command ℕ) : Type 0 where
  pub address : ℕ
  pub store : Context
  pub runs : m c ≡ ok (address, store)
  pub object : BaseType
  pub there : store.objects address ≡ some object
  pub shaped : object.shape ≡ r.shape
  pub resolved : At store l.reference (IsOfShape r.shape)

hinting :
    (a : ℕ) (hint : Shape) (c : Context) (l : BaseType)
    → c.objects a ≡ some l
    → apply_scalar_type_hint a hint c
      ≡ ok (tt, record c { objects = updated c.objects a (with_hint l hint l.shape) })
unfolding apply_scalar_type_hint store
hinting a hint c l h = rw (load_lem a c l h) refl

-- The store with the hint taken and the right type cloned.
abbrev hinted_store : Context → ℕ → BaseType → BaseType → Context
hinted_store c a l r = record c {
  objects = updated (updated c.objects a (with_hint l r.shape l.shape)) c.used r;
  used = suc c.used;
}

module _ (f : ℕ) (site : ℕ → ℕ → Command ℕ) (c : Context) (a b : ℕ) (l r : BaseType) (k : InferKind)
    (h : TypeHint) (left : c.objects a ≡ some l) (right : c.objects b ≡ some r)
    (variable : l.shape ≡ infer_type k h) (number : is_number r.shape ≡ true)
    (fits : can_equal (Types.inferred k) (plain_type r.shape) ≡ ok true) (w : WellFormed c)
    (sites : (a b : ℕ) → IsSteady (site a b)) where
  distinct : (b == a) ≡ false
  distinct = elim (Bool-cases (b == a)) [
    | inl e ↦
        (let q = (==_iff b a).0 e in
          let p = number-inferred r.shape number in
          let v = ap is_inferred variable in absurd (true-false (cc)))
    | inr e ↦ e
  ]

  hint_left-runs :
      Expect.hint_left (clone (suc f)) site a b r.shape c ≡ ok (c.used, hinted_store c a l r)
  unfolding Expect.hint_left alloc
  hint_left-runs =
      let d = record c { objects = updated c.objects a (with_hint l r.shape l.shape) } in
      rw
        (
          hinting a r.shape c l left,
          clone-plain f b d r
              (updated-there c.objects a b (with_hint l r.shape l.shape) distinct ∙ right)
              (number-plain r.shape number),
        )
        refl

  expect-runs : Expect.expect (clone (suc f)) site a b c ≡ ok (c.used, hinted_store c a l r)
  expect-runs =
      expect-loads (clone (suc f)) site a b l r c left right
      ∙ ap (λ s. Expect.expect_shape (clone (suc f)) site a l b r s c) variable
      ∙ ap (λ m. m c) (expect_shape-variable (clone (suc f)) site a l b r k h number fits)
      ∙ hint_left-runs

  hinted_store-Leaves : Leaves c (Outcome.ok (c.used, hinted_store c a l r))
  hinted_store-Leaves =
      subst (Leaves c) expect-runs
        (expect-IsSteady (clone (suc f)) (clone-IsSteady (suc f)) site sites a b c w)

  -- The left type, after `expect`.
  left_later : IsAt (hinted_store c a l r) a l
  left_later = hinted_store-Leaves.0.object_stays a l left

  shared :
      Shares
        (hinted_store c a l r)
        a
        b
        c.used
        left_later.object
        (hinted_store-Leaves.0.object_stays b r right).object
        r
        left_later.here
        (hinted_store-Leaves.0.object_stays b r right).here
        (updated-here (updated c.objects a (with_hint l r.shape l.shape)) c.used r)
  shared =
      share_references-Shares (hinted_store c a l r) a b c.used left_later.object
        (hinted_store-Leaves.0.object_stays b r right).object r left_later.here
        (hinted_store-Leaves.0.object_stays b r right).here
        (updated-here (updated c.objects a (with_hint l r.shape l.shape)) c.used r)

  learned-Ready :
      ((i x : ℕ) → c.resolved i ≡ some x → (t : BaseType) × (c.objects x ≡ some t))
      → Ready shared.store c.used r.shape
  learned-Ready typed =
      let v = hinted_store-Leaves.1 in
      let s = shared.learns in
      record {
        well_formed = record {
          unused = λ x u. s.nothing x (v.unused x (omega (arith, u, s.used)));
          unknown = λ i u. s.resolved i ∙ v.unknown i (omega (arith, u, s.last_id));
        };
        typed = λ i x e.
            let t = typed i x (sym (s.resolved i) ∙ e) in
            let q = hinted_store-Leaves.0.object_stays x t.0 t.1 in
            let p = s.objects x q.object q.here in (p.object, p.here);
        result = shared.object;
        here = shared.here;
        shaped = shared.shaped;
      }

  still_waits :
      (x : ℕ) (t : BaseType)
      → c.resolved l.reference ≡ some x
      → c.objects x ≡ some t
      → is_inferred t.shape ≡ true
      → At shared.store l.reference (Waits r.shape)
  still_waits x t known here v =
      let q = hinted_store-Leaves.0.object_stays x t here in
      let p = shared.learns.objects x q.object q.here in
      record {
        address = x;
        object = p.object;
        known = shared.learns.resolved l.reference ∙ known;
        here = p.here;
        holds = inl (ap is_inferred p.learned.shaped ∙ q.same.variable ∙ v);
      }

  quiet :
      (d : Context) (t : BaseType)
      → d.objects c.used ≡ some t
      → t.shape ≡ r.shape
      → (is_error c.used >>= λ e. if e && true then abort else pure c.used) d ≡ ok (c.used, d)
  quiet d t here e = rw (is_error_lem c.used d t here, e, number-error r.shape number) refl

  pub commit-runs :
      (x : ℕ) (t : BaseType)
      → ((i y : ℕ) → c.resolved i ≡ some y → (u : BaseType) × (c.objects y ≡ some u))
      → c.resolved l.reference ≡ some x
      → c.objects x ≡ some t
      → is_inferred t.shape ≡ true
      → Resolved c l r (Unify.unify (clone (suc f)) site true true false a b)
  unfolding Unify.unify Unify.commit
  commit-runs x t typed known here v =
      let q =
        resolve_all-Looped f c.used r.shape shared.object.combined shared.store
          (number-plain r.shape number) (learned-Ready typed) in
      let e = left_later.same.identity in
      record {
        address = c.used;
        store = q.store;
        runs =
            rw
              (
                expect-runs,
                shared.runs (clone (suc f)),
                load_lem c.used shared.store shared.object shared.here,
                shared.shaped,
                number-settled r.shape number,
                q.runs,
                quiet q.store q.ready.result q.ready.here q.ready.shaped,
              )
              refl;
        object = q.ready.result;
        there = q.ready.here;
        shaped = q.ready.shaped;
        resolved =
            q.resolves l.reference (subst (λ n. has n shared.object.combined ≡ true) e shared.knows)
              (still_waits x t known here v);
      }
