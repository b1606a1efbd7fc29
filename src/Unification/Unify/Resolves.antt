-- ===== src/Unification/Unify/Resolves.antt =====
-- The loop of `commit` that gives inference variables the result's type.
pub mod Numbers
pub mod Variable
use mathlib.Core.Path.{subst}
use mlir_rustc.Prelude.{
  ℕ, suc, ◌==◌, ◌||◌, Bool, true, false, not, if◌then◌else◌, List, [], ◌∷◌, Option, none, some, ◌≡◌,
  refl, sym, ap, ◌∙◌, ◌⊎◌, inl, inr, Outcome, ok, arith, Bool-cases, Option-cases, ==_iff,
}
use mlir_rustc.Adt.Names.Order.{true-false}
use mlir_rustc.Unification.Store.{BaseType, Shape, infer_type, Context, updated, is_inferred}
use mlir_rustc.Unification.Store.Commands.{
  Command, pure, ◌>>=◌, ◌>>◌, load, alloc, insert_type, lookup_type,
}
use mlir_rustc.Unification.Store.Clones.{clone}
use mlir_rustc.Unification.Store.Steady.{WellFormed}
use mlir_rustc.Unification.Store.Steady.Primitives.{
  updated-here, updated-at, updated-there, updated-none,
}
use mlir_rustc.Unification.Unify
use mlir_rustc.Unification.Unify.Plain.{is_plain, load_lem, clone-plain}
use mlir_rustc.Unification.Unify.Learning.{has}

-- The node id has an object for its type, of which `P` holds.
pub record At (c : Context) (i : ℕ) (P : BaseType → Type 0) : Type 0 where
  pub address : ℕ
  pub object : BaseType
  pub known : c.resolved i ≡ some address
  pub here : c.objects address ≡ some object
  pub holds : P object

abbrev pub IsOfShape : Shape → BaseType → Type 0
IsOfShape s t = t.shape ≡ s

-- A variable, or resolved already.
abbrev pub Waits : Shape → BaseType → Type 0
Waits s t = (is_inferred t.shape ≡ true) ⊎ (t.shape ≡ s)

-- The loop's store: the result is at `x`, and every type of a node id is an object.
pub record Ready (c : Context) (x : ℕ) (s : Shape) : Type 0 where
  pub well_formed : WellFormed c
  pub typed : (i a : ℕ) → c.resolved i ≡ some a → (t : BaseType) × (c.objects a ≡ some t)
  pub result : BaseType
  pub here : c.objects x ≡ some result
  pub shaped : result.shape ≡ s

abbrev rebound : Context → ℕ → BaseType → Context
rebound c i t = record c {
  objects = updated c.objects c.used t;
  used = suc c.used;
  resolved = updated c.resolved i c.used;
}

module _ (c : Context) (i : ℕ) (t : BaseType) (w : WellFormed c) where
  older : (a : ℕ) (u : BaseType) → c.objects a ≡ some u → (rebound c i t).objects a ≡ some u
  older a u = updated-none c.objects c.used a t u (w.unused c.used (omega arith))

  rebound-At :
      (P : BaseType → Type 0) (j : ℕ)
      → P t
      → (((j == i) ≡ false) → At c j P)
      → At (rebound c i t) j P
  rebound-At P j p h = elim (Bool-cases (j == i)) [
    | inl e ↦ record {
      address = c.used;
      object = t;
      known = updated-at c.resolved i j c.used e;
      here = updated-here c.objects c.used t;
      holds = p;
    }
    | inr e ↦
        let q = h e in
        record {
          address = q.address;
          object = q.object;
          known = updated-there c.resolved i j c.used e ∙ q.known;
          here = older q.address q.object q.here;
          holds = q.holds;
        }
  ]

  rebound-WellFormed : (a : ℕ) → c.resolved i ≡ some a → WellFormed (rebound c i t)
  rebound-WellFormed a k = record {
    unused = λ b h. updated-there c.objects c.used b t (ground arith) ∙ w.unused b (omega arith);
    unknown = λ j h. elim (Bool-cases (j == i)) [
      | inl e ↦ (let q = (==_iff j i).0 e in let r = w.unknown j h in cc)
      | inr e ↦ updated-there c.resolved i j c.used e ∙ w.unknown j h
    ];
  }

  rebound-typed :
      ((j a : ℕ) → c.resolved j ≡ some a → (u : BaseType) × (c.objects a ≡ some u))
      → (j a : ℕ) → (rebound c i t).resolved j ≡ some a
      → (u : BaseType) × ((rebound c i t).objects a ≡ some u)
  rebound-typed h j a k = elim (Bool-cases (j == i)) [
    | inl e ↦
        (let q = updated-at c.resolved i j c.used e in
          let r = updated-here c.objects c.used t in (t, cc))
    | inr e ↦
        (let q = h j a (sym (updated-there c.resolved i j c.used e) ∙ k) in (q.0, older a q.0 q.1))
  ]

-- A round: a variable gets the type, a type that is no variable keeps it.
pub record Rounded (m : Command (Unit {0})) (c : Context) (x : ℕ) (s : Shape) (i : ℕ) : Type 0 where
  pub store : Context
  pub runs : m c ≡ ok (tt, store)
  pub ready : Ready store x s
  pub waits : (j : ℕ) → At c j (Waits s) → At store j (Waits s)
  pub keeps : (j : ℕ) → At c j (IsOfShape s) → At store j (IsOfShape s)
  pub resolves : At c i (Waits s) → At store i (IsOfShape s)

settled : (s : Shape) → is_plain s ≡ true → is_inferred s ≡ false
settled (infer_type _ _) h = cc
settled _ h = refl

module _ (f x i : ℕ) (s : Shape) (plain : is_plain s ≡ true) (c : Context)
    (ready : Ready c x s) where
  unknown-Rounded : c.resolved i ≡ none → Rounded (Unify.resolve (clone (suc f)) x i) c x s i
  unfolding Unify.resolve
  unknown-Rounded h = record {
    store = c;
    runs = rw h refl;
    ready = ready;
    waits = λ j w. w;
    keeps = λ j k. k;
    resolves = λ w. (let q = w.known in cc);
  }

  known-Rounded :
      (a : ℕ) (t : BaseType)
      → c.resolved i ≡ some a
      → c.objects a ≡ some t
      → is_inferred t.shape ≡ false
      → Rounded (Unify.resolve (clone (suc f)) x i) c x s i
  unfolding Unify.resolve
  known-Rounded a t h k v = record {
    store = c;
    runs = rw (h, load_lem a c t k, v) refl;
    ready = ready;
    waits = λ j w. w;
    keeps = λ j k. k;
    resolves = λ w.
        let q = w.known in
        let r = w.here in
        elim w.holds [
          | inl p ↦ absurd (true-false (cc))
          | inr p ↦ record {
            address = w.address;
            object = w.object;
            known = w.known;
            here = w.here;
            holds = p;
          }
        ];
  }

  variable-Rounded :
      (a : ℕ) (t : BaseType)
      → c.resolved i ≡ some a
      → c.objects a ≡ some t
      → is_inferred t.shape ≡ true
      → Rounded (Unify.resolve (clone (suc f)) x i) c x s i
  unfolding Unify.resolve alloc insert_type
  variable-Rounded a t h k v =
      let w = ready.well_formed in
      let u = ready.result in
      record {
        store = rebound c i u;
        runs =
            rw
              (
                h,
                load_lem a c t k,
                v,
                clone-plain f x c u ready.here (ap is_plain ready.shaped ∙ plain),
              )
              refl;
        ready = record {
          well_formed = rebound-WellFormed c i u w a h;
          typed = rebound-typed c i u w ready.typed;
          result = u;
          here = older c i u w x u ready.here;
          shaped = ready.shaped;
        };
        waits = λ j p. rebound-At c i u w (Waits s) j (inr ready.shaped) (λ _. p);
        keeps = λ j p. rebound-At c i u w (IsOfShape s) j ready.shaped (λ _. p);
        resolves = λ p.
            rebound-At c i u w (IsOfShape s) i ready.shaped
              (λ e. absurd (true-false (sym ((==_iff i i).1 refl) ∙ e)));
      }

  resolve-Rounded : Rounded (Unify.resolve (clone (suc f)) x i) c x s i
  resolve-Rounded = elim (Option-cases (c.resolved i)) [
    | inl h ↦ unknown-Rounded h
    | inr (a, h) ↦
        let o = ready.typed i a h in
        elim (Bool-cases (is_inferred o.0.shape)) [
          | inl v ↦ variable-Rounded a o.0 h o.1 v
          | inr v ↦ known-Rounded a o.0 h o.1 v
        ]
  ]

-- The loop: every waiting node id of the list gets the type.
pub record Looped (m : Command (Unit {0})) (c : Context) (x : ℕ) (s : Shape) (is : List ℕ)
    : Type 0 where
  pub store : Context
  pub runs : m c ≡ ok (tt, store)
  pub ready : Ready store x s
  pub keeps : (j : ℕ) → At c j (IsOfShape s) → At store j (IsOfShape s)
  pub resolves : (j : ℕ) → has j is ≡ true → At c j (Waits s) → At store j (IsOfShape s)

pub resolve_all-Looped :
    (f x : ℕ) (s : Shape) (is : List ℕ) (c : Context)
    → is_plain s ≡ true
    → Ready c x s
    → Looped (Unify.resolve_all (clone (suc f)) x is) c x s is
unfolding Unify.resolve_all
resolve_all-Looped f x s [] c p r = record {
  store = c;
  runs = refl;
  ready = r;
  keeps = λ j k. k;
  resolves = λ j h w. absurd (true-false (sym h));
}
resolve_all-Looped f x s (i ∷ is) c p r =
    let q = resolve-Rounded f x i s p c r in
    let l = resolve_all-Looped f x s is q.store p q.ready in
    record {
      store = l.store;
      runs = rw (q.runs, l.runs) refl;
      ready = l.ready;
      keeps = λ j k. l.keeps j (q.keeps j k);
      resolves = λ j h w. elim (Bool-cases (j == i)) [
        | inl e ↦ l.keeps j (
            subst (λ n. At q.store n (IsOfShape s)) (sym ((==_iff j i).0 e))
              (q.resolves (subst (λ n. At c n (Waits s)) ((==_iff j i).0 e) w)))
        | inr e ↦ l.resolves j (ground (arith, h, e)) (q.waits j w)
      ];
    }
