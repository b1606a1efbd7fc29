-- ===== src/Unification/Unify/Steady.antt =====
-- Commits and unification are steady.
use mathlib.Core.Path.{subst}
use mlir_rustc.Prelude.{
  ℕ, zero, suc, ◌==◌, Bool, true, false, not, ◌&&◌, if◌then◌else◌, List, [], ◌∷◌, Option, none,
  some, ◌≡◌, refl, sym, ◌∙◌, Outcome, ok, arith, Bool-cases, inl, inr, ==_iff,
}
use mlir_rustc.Adt.Names.Order.{true-false}
use mlir_rustc.Unification.Store.{BaseType, Context, updated, is_inferred}
use mlir_rustc.Unification.Store.Commands.{
  Command, pure, abort, ◌>>=◌, ◌>>◌, resume, load, insert_type, lookup_type, append_reference,
  is_error,
}
use mlir_rustc.Unification.Store.Clones.{clone}
use mlir_rustc.Unification.Store.Steady.{
  WellFormed, Extends-refl, Leaves, IsSteady, pure-IsSteady, abort-IsSteady, no_fuel-IsSteady,
  bind-IsSteady, then-IsSteady, if-IsSteady,
}
use mlir_rustc.Unification.Store.Steady.Primitives.{
  updated-there, load-IsSteady, append_reference-IsSteady, is_error-IsSteady,
}
use mlir_rustc.Unification.Store.Steady.Cloning.{clone-IsSteady}
use mlir_rustc.Unification.Expect.{expect}
use mlir_rustc.Unification.Expect.Steady.{expect-IsSteady}
use mlir_rustc.Unification.Unify

append_references-IsSteady : (a : ℕ) (rs : List ℕ) → IsSteady (Unify.append_references a rs)
unfolding Unify.append_references
append_references-IsSteady a [] = pure-IsSteady tt
append_references-IsSteady a (r ∷ rs) =
    then-IsSteady (append_reference a r) (Unify.append_references a rs)
      (append_reference-IsSteady a r) (append_references-IsSteady a rs)

-- A node id that resolves to a variable is given another type.
module _ (c : Context) (ref a : ℕ) (t : BaseType) (known : c.resolved ref ≡ some a)
    (at : c.objects a ≡ some t) (variable : is_inferred t.shape ≡ true) where
  rebound-Leaves :
      (o : Outcome (ℕ × Context))
      → WellFormed c
      → Leaves c o
      → Leaves c (resume o (λ x d. ok (tt, record d { resolved = updated d.resolved ref x })))
  rebound-Leaves (ok (x, d)) w (h, v) = (
    record {
      object_stays = λ b u e.
          let q = h.object_stays b u e in
          record { object = q.object; here = q.here; same = q.same };
      type_stays = λ i b u e o r. elim (Bool-cases (i == ref)) [
        | inl p ↦ (let q = (==_iff i ref).0 p in absurd (true-false (cc)))
        | inr p ↦ updated-there d.resolved ref i x p ∙ h.type_stays i b u e o r
      ];
      ids_grow = h.ids_grow;
    },
    record {
      unused = v.unused;
      unknown = λ i k. elim (Bool-cases (i == ref)) [
        | inl p ↦
            (let q = (==_iff i ref).0 p in let r = w.unknown i (omega (arith, k, h.ids_grow)) in cc)
        | inr p ↦ updated-there d.resolved ref i x p ∙ v.unknown i k
      ];
    },
  )
  rebound-Leaves Outcome.exited w h = tt
  rebound-Leaves Outcome.aborted w h = tt
  rebound-Leaves Outcome.undefined w h = tt
  rebound-Leaves Outcome.diverges w h = tt
  rebound-Leaves Outcome.out_of_fuel w h = tt

module _ (copy : ℕ → Command ℕ) (copies : (a : ℕ) → IsSteady (copy a)) where
  -- The object that a known node id resolves to.
  at_object-Leaves :
      (result ref a : ℕ) (c : Context) (o : Option BaseType)
      → WellFormed c
      → c.resolved ref ≡ some a
      → c.objects a ≡ o
      → Leaves c (
          resume
            (elim o [ none ↦ Outcome.undefined | some t ↦ ok (t, c) ])
            (λ t.
              if not (is_inferred t.shape)
              then pure tt
              else copy result >>= λ x. insert_type ref x))
  unfolding insert_type
  at_object-Leaves result ref a c none w known at = tt
  at_object-Leaves result ref a c (some t) w known at = elim (Bool-cases (is_inferred t.shape)) [
    | inl v ↦
        subst
          (λ b. Leaves c ((if not b then pure tt else copy result >>= λ x. insert_type ref x) c))
          (sym v) (rebound-Leaves c ref a t known at v (copy result c) w (copies result c w))
    | inr v ↦
        subst
          (λ b. Leaves c ((if not b then pure tt else copy result >>= λ x. insert_type ref x) c))
          (sym v) (Extends-refl c, w)
  ]

  resolve_type-Leaves :
      (result ref : ℕ) (c : Context) (o : Option ℕ)
      → WellFormed c
      → c.resolved ref ≡ o
      → Leaves c (Unify.resolve_type copy result ref o c)
  unfolding load
  resolve_type-Leaves result ref c none w known = (Extends-refl c, w)
  resolve_type-Leaves result ref c (some a) w known =
      at_object-Leaves result ref a c (c.objects a) w known refl

  resolve-IsSteady : (result ref : ℕ) → IsSteady (Unify.resolve copy result ref)
  unfolding Unify.resolve lookup_type
  resolve-IsSteady result ref c w = resolve_type-Leaves result ref c (c.resolved ref) w refl

  resolve_all-IsSteady : (result : ℕ) (rs : List ℕ) → IsSteady (Unify.resolve_all copy result rs)
  unfolding Unify.resolve_all
  resolve_all-IsSteady result [] = pure-IsSteady tt
  resolve_all-IsSteady result (r ∷ rs) =
      then-IsSteady (Unify.resolve copy result r) (Unify.resolve_all copy result rs)
        (resolve-IsSteady result r) (resolve_all-IsSteady result rs)

  nothing-IsSteady : IsSteady (pure {A = Unit {0}} tt)
  nothing-IsSteady = pure-IsSteady tt

  add_reference :
      {B : Type 0} (a r : ℕ) (m : Command B) → IsSteady m → IsSteady (append_reference a r >> m)
  add_reference a r m h = then-IsSteady (append_reference a r) m (append_reference-IsSteady a r) h

  add_references :
      {B : Type 0} (a : ℕ) (rs : List ℕ) (m : Command B)
      → IsSteady m
      → IsSteady (Unify.append_references a rs >> m)
  add_references a rs m h =
      then-IsSteady (Unify.append_references a rs) m (append_references-IsSteady a rs) h

  fetch :
      {B : Type 0} (a : ℕ) (f : BaseType → Command B)
      → ((t : BaseType) → IsSteady (f t))
      → IsSteady (load a >>= f)
  fetch a f h = bind-IsSteady (load a) f (load-IsSteady a) h

  share_references-IsSteady : (b o result : ℕ) → IsSteady (Unify.share_references copy b o result)
  unfolding Unify.share_references
  share_references-IsSteady b o result = fetch b _ (λ tb. fetch o _ (λ to.
      add_reference result tb.reference _ (
        add_reference result to.reference _ (
          add_references result tb.combined _ (
            add_references result to.combined _ (
              fetch result _ (λ tr. add_reference o tr.reference _ (
                add_reference o tb.reference _ (
                  add_reference b tr.reference _ (append_reference-IsSteady b to.reference))))))))))

  pub commit-IsSteady : (b o result : ℕ) → IsSteady (Unify.commit copy b o result)
  unfolding Unify.commit
  commit-IsSteady b o result = search (
    bind-IsSteady, then-IsSteady, load-IsSteady, if-IsSteady, nothing-IsSteady,
    share_references-IsSteady, resolve_all-IsSteady,
  )

  module _ (site : ℕ → ℕ → Command ℕ) (sites : (a b : ℕ) → IsSteady (site a b)) where
    answer-IsSteady : (b : Bool) (r : ℕ) → IsSteady (if b then abort else pure r)
    answer-IsSteady b r = if-IsSteady b abort (pure r) (abort-IsSteady ℕ) (pure-IsSteady r)

    pub unify-IsSteady :
        (force_commit emit_errors infer : Bool) (a b : ℕ)
        → IsSteady (Unify.unify copy site force_commit emit_errors infer a b)
    unfolding Unify.unify
    unify-IsSteady force_commit emit_errors true a b = abort-IsSteady ℕ
    unify-IsSteady force_commit emit_errors false a b =
        bind-IsSteady (expect copy site a b) _ (expect-IsSteady copy copies site sites a b) (λ r.
          then-IsSteady (if force_commit then Unify.commit copy a b r else pure tt) _
            (if-IsSteady force_commit (Unify.commit copy a b r) (pure tt) (commit-IsSteady a b r)
              nothing-IsSteady)
            (bind-IsSteady (is_error r) _ (is_error-IsSteady r)
              (λ e. answer-IsSteady (e && emit_errors) r)))

pub steps-IsSteady : (f a b : ℕ) → IsSteady (Unify.unify_with_site f a b)
unfolding Unify.unify_with_site
steps-IsSteady zero a b = no_fuel-IsSteady ℕ
steps-IsSteady (suc f) a b =
    unify-IsSteady (clone f) (clone-IsSteady f) (Unify.unify_with_site f) (steps-IsSteady f) true
      true false a b
