-- ===== src/Unification/Unify/Sites.antt =====
-- What `unifyWithSite` returns.
use mathlib.Core.Path.{subst}
use mlir_rustc.Prelude.{
  ℕ, zero, suc, Bool, true, false, ◌&&◌, if◌then◌else◌, Option, none, some, ◌≡◌, refl, sym, ap, ◌∙◌,
  ◌≢◌, Outcome, ok,
}
use mlir_rustc.Adt.Names.Order.{true-false}
use mlir_rustc.TyTy.Types
use mlir_rustc.TyTy.Types.{InferKind}
use mlir_rustc.TyTy.Compare.{can_equal}
use mlir_rustc.Unification.Store.{
  BaseType, Context, TypeHint, infer_type, raw_pointer_type, error_object, is_inferred,
  is_error_shape,
}
use mlir_rustc.Unification.Store.Commands.{
  Command, pure, abort, ◌>>=◌, ◌>>◌, resume, load, alloc, is_error, get_type,
}
use mlir_rustc.Unification.Store.Clones.{clone}
use mlir_rustc.Unification.Store.Steady.{WellFormed, Leaves}
use mlir_rustc.Unification.Store.Steady.Cloning.{clone-IsSteady}
use mlir_rustc.Unification.Store.Steady.Primitives.{updated-here}
use mlir_rustc.Unification.Expect
use mlir_rustc.Unification.Expect.Steady.{expect-IsSteady}
use mlir_rustc.Unification.Unify
use mlir_rustc.Unification.Unify.Steady.{steps-IsSteady, commit-IsSteady}
use mlir_rustc.Unification.Unify.Plain.{plain_type}
use mlir_rustc.Unification.Unify.Plain.Answers.{expect-loads}
use mlir_rustc.Unification.Unify.Resolves.Numbers.{is_number}
use mlir_rustc.Unification.Unify.Resolves.Variable.{Resolved, commit-runs}

-- In a well-formed store where every known node id has an object, `unifyWithSite` of an inference
-- variable and a number type that `canEqual` accepts for it returns, on two rounds of fuel, an object
-- with the number type's class and members; and where the variable's node id resolves to an
-- inference variable before, it resolves to such an object after.
pub unify_with_site-Resolved :
    (f : ℕ) (c : Context) (a b : ℕ) (l r : BaseType) (k : InferKind) (h : TypeHint) (x : ℕ)
    (t : BaseType)
    → WellFormed c
    → ((i y : ℕ) → c.resolved i ≡ some y → (u : BaseType) × (c.objects y ≡ some u))
    → c.objects a ≡ some l
    → c.objects b ≡ some r
    → l.shape ≡ infer_type k h
    → is_number r.shape ≡ true
    → can_equal (Types.inferred k) (plain_type r.shape) ≡ ok true
    → c.resolved l.reference ≡ some x
    → c.objects x ≡ some t
    → is_inferred t.shape ≡ true
    → Resolved c l r (Unify.unify_with_site (suc (suc f)) a b)
unfolding Unify.unify_with_site
unify_with_site-Resolved f c a b l r k h x t w typed left right variable number fits known here v =
    commit-runs f (Unify.unify_with_site (suc f)) c a b l r k h left right variable number fits w
      (steps-IsSteady (suc f)) x t typed known here v

-- A run that goes on after another.
record Goes {A B : Type 0} (o : Outcome (A × Context)) (k : A → Command B) (y : B) (e : Context)
    : Type 0 where
  value : A
  store : Context
  first : o ≡ ok (value, store)
  rest : k value store ≡ ok (y, e)

resume-Goes :
    {A B : Type 0} (o : Outcome (A × Context)) (k : A → Command B) (y : B) (e : Context)
    → resume o k ≡ ok (y, e)
    → Goes o k y e
resume-Goes (ok (a, d)) k y e h = record { value = a; store = d; first = refl; rest = h }
resume-Goes _ k y e h = cc

pub record IsRight (x : ℕ) (d : Context) : Type 0 where
  pub object : BaseType
  pub here : d.objects x ≡ some object
  pub right : is_error_shape object.shape ≡ false

read_object : Context → Option BaseType → Outcome (BaseType × Context)
read_object c none = Outcome.undefined
read_object c (some t) = ok (t, c)

read_object_lem :
    (c : Context) (o : Option BaseType) (t : BaseType) (d : Context)
    → read_object c o ≡ ok (t, d)
    → (o ≡ some t) × (d ≡ c)
unfolding read_object
read_object_lem c none t d h = cc
read_object_lem c (some u) t d h = (cc, cc)

found :
    (x : ℕ) (c : Context) (t : BaseType) (d : Context)
    → load x c ≡ ok (t, d)
    → (c.objects x ≡ some t) × (d ≡ c)
unfolding load read_object
found x c t d h = read_object_lem c (c.objects x) t d h

answered :
    (b : Bool) (x : ℕ) (d : Context) (y : ℕ) (e : Context)
    → (if b && true then abort else pure x) d ≡ ok (y, e)
    → (b ≡ false) × (x ≡ y) × (d ≡ e)
answered true x d y e h = cc
answered false x d y e h = (refl, cc, cc)

-- `is_error` and the last test of `unify`.
checked :
    (x : ℕ) (d : Context) (y : ℕ) (e : Context)
    → (is_error x >>= λ b. if b && true then abort else pure x) d ≡ ok (y, e)
    → IsRight y e × (x ≡ y) × (d ≡ e)
unfolding is_error
checked x d y e h =
    let g = resume-Goes (is_error x d) (λ b. if b && true then abort else pure x) y e h in
    let p = resume-Goes (load x d) (λ t. pure (is_error_shape t.shape)) g.value g.store g.first in
    let q = found x d p.value p.store p.first in
    let z = answered g.value x g.store y e g.rest in
    let w = p.rest in
    (record { object = p.value; here = (let v = q.0 in cc); right = cc }, z.1, (let v = q.1 in cc))

-- The end of `unify` after `expect`.
abbrev finish : (ℕ → Command ℕ) → ℕ → ℕ → ℕ → Command ℕ
finish copy a b x = do Unify.commit copy a b x; e ← is_error x; if e && true then abort else pure x

-- Where `unifyWithSite` returns, its result is no `ErrorType`.
pub unify_with_site-IsRight :
    (f a b : ℕ) (c : Context) (x : ℕ) (d : Context)
    → Unify.unify_with_site f a b c ≡ ok (x, d)
    → IsRight x d
unfolding Unify.unify_with_site Unify.unify
unify_with_site-IsRight zero a b c x d h = cc
unify_with_site-IsRight (suc f) a b c x d h =
    let m = Expect.expect (clone f) (Unify.unify_with_site f) a b in
    let g = resume-Goes (m c) (finish (clone f) a b) x d h in
    let p = resume-Goes (Unify.commit (clone f) a b g.value g.store) _ x d g.rest in
    (checked g.value p.store x d p.rest).0

failed-failure :
    (b : Bool) (c : Context) (x : ℕ) (d : Context)
    → (if b then Expect.failure else Expect.failure) c ≡ ok (x, d)
    → d.objects x ≡ some error_object
unfolding Expect.failure alloc
failed-failure true c x d h = let q = updated-here c.objects c.used error_object in cc
failed-failure false c x d h = let q = updated-here c.objects c.used error_object in cc

module _ (copy : ℕ → Command ℕ) (site : ℕ → ℕ → Command ℕ) where
  raw_pointers-failure :
      (a : ℕ) (n : Bool) (i j : ℕ) (c : Context) (x : ℕ) (d : Context)
      → Expect.expect_raw_pointer copy site a i (raw_pointer_type n j) c ≡ ok (x, d)
      → d.objects x ≡ some error_object
  raw_pointers-failure a n i j c x d h =
      let g = resume-Goes (get_type i c) _ x d h in
      let p = resume-Goes (get_type j g.store) _ x d g.rest in
      let q = resume-Goes (site g.value p.value p.store) _ x d p.rest in
      let r = resume-Goes (is_error q.value q.store) _ x d q.rest in
      failed-failure r.value r.store x d r.rest

-- `unifyWithSite` of two raw pointers never returns, whatever they point to: `expectRawPointer` gives
-- an `ErrorType` although the base types unify, and an error that is emitted is a failed assertion.
pub raw_pointers-unmatched :
    (f a b : ℕ) (c : Context) (l r : BaseType) (m n : Bool) (i j x : ℕ) (d : Context)
    → WellFormed c
    → c.objects a ≡ some l
    → c.objects b ≡ some r
    → l.shape ≡ raw_pointer_type m i
    → r.shape ≡ raw_pointer_type n j
    → Unify.unify_with_site f a b c ≢ ok (x, d)
unfolding Unify.unify_with_site Unify.unify Expect.expect_shape
raw_pointers-unmatched zero a b c l r m n i j x d w left right e k h = cc
raw_pointers-unmatched (suc f) a b c l r m n i j x d w left right e k h =
    let copy = clone f in
    let site = Unify.unify_with_site f in
    let run = Expect.expect copy site a b in
    let g = resume-Goes (run c) (finish copy a b) x d h in
    let start =
      ap (λ s. Expect.expect_raw_pointer copy site a i s c) (sym k)
      ∙ ap (λ s. Expect.expect_shape copy site a l b r s c) (sym e)
      ∙ sym (expect-loads copy site a b l r c left right)
      ∙ g.first in
    let wrong = raw_pointers-failure copy site a n i j c g.value g.store start in
    let steady =
      subst (Leaves c) g.first
        (expect-IsSteady copy (clone-IsSteady f) site (steps-IsSteady f) a b c w) in
    let p = resume-Goes (Unify.commit copy a b g.value g.store) _ x d g.rest in
    let later =
      subst (Leaves g.store) p.first
        (commit-IsSteady copy (clone-IsSteady f) a b g.value g.store steady.1) in
    let q = later.0.object_stays g.value error_object wrong in
    let z = checked g.value p.store x d p.rest in
    let here = q.here in
    let there = z.0.here in
    let right = z.0.right in
    let shape = ap is_error_shape (q.same.rigid refl) in
    let same_place = z.1 in let same_store = z.2 in true-false (cc)
