-- ===== src/Unification/Unify/Learning.antt =====
-- The part of `commit` that only adds references to objects.
pub mod Sharing
use mlir_rustc.Prelude.{
  ℕ, ◌==◌, ◌||◌, ltb, Bool, true, false, if◌then◌else◌, List, [], ◌∷◌, Option, none, some, ◌≡◌,
  refl, sym, ◌∙◌, Outcome, ok, arith, Bool-cases, inl, inr, ==_iff,
}
use mlir_rustc.Unification.Store.{BaseType, Shape, Context, updated, set_insert}
use mlir_rustc.Unification.Store.Commands.{
  Command, pure, ◌>>=◌, ◌>>◌, load, store, append_reference,
}
use mlir_rustc.Unification.Store.Steady.Primitives.{updated-here, updated-at, updated-there}
use mlir_rustc.Unification.Unify
use mlir_rustc.Unification.Unify.Plain.{load_lem}

abbrev pub has : ℕ → List ℕ → Bool
has n [] = false
has n (m ∷ ms) = n == m || has n ms

pub has-set_insert : (n : ℕ) (ms : List ℕ) → has n (set_insert n ms) ≡ true
unfolding set_insert
has-set_insert n [] = ground arith
has-set_insert n (m ∷ ms) = ground (arith, has-set_insert n ms)

has_more : (k n : ℕ) (ms : List ℕ) → has k ms ≡ true → has k (set_insert n ms) ≡ true
unfolding set_insert
has_more k n [] h = cc
has_more k n (m ∷ ms) h = ground (arith, has_more k n ms, h)

-- The object with more references.
pub record Learned (t u : BaseType) : Type 0 where
  pub shaped : u.shape ≡ t.shape
  pub identity : u.reference ≡ t.reference
  pub more : (n : ℕ) → has n t.combined ≡ true → has n u.combined ≡ true

pub record Later (d : Context) (a : ℕ) (t : BaseType) : Type 0 where
  pub object : BaseType
  pub here : d.objects a ≡ some object
  pub learned : Learned t object

-- A store in which objects have more references, and nothing else is changed.
pub record Learns (c d : Context) : Type 0 where
  pub objects : (a : ℕ) (t : BaseType) → c.objects a ≡ some t → Later d a t
  pub nothing : (a : ℕ) → c.objects a ≡ none → d.objects a ≡ none
  pub used : d.used ≡ c.used
  pub resolved : (i : ℕ) → d.resolved i ≡ c.resolved i
  pub last_id : d.last_id ≡ c.last_id

pub Learned-refl : (t : BaseType) → Learned t t
Learned-refl t = record { shaped = refl; identity = refl; more = λ n h. h }

pub Learns-refl : (c : Context) → Learns c c
Learns-refl c = record {
  objects = λ a t h. record { object = t; here = h; learned = Learned-refl t };
  nothing = λ a h. h;
  used = refl;
  resolved = λ i. refl;
  last_id = refl;
}

pub Learns-trans : (c d e : Context) → Learns c d → Learns d e → Learns c e
Learns-trans c d e h k = record {
  objects = λ a t p.
      let q = h.objects a t p in
      let r = k.objects a q.object q.here in
      record {
        object = r.object;
        here = r.here;
        learned = record {
          shaped = r.learned.shaped ∙ q.learned.shaped;
          identity = r.learned.identity ∙ q.learned.identity;
          more = λ n m. r.learned.more n (q.learned.more n m);
        };
      };
  nothing = λ a p. k.nothing a (h.nothing a p);
  used = k.used ∙ h.used;
  resolved = λ i. k.resolved i ∙ h.resolved i;
  last_id = k.last_id ∙ h.last_id;
}

-- A run that returns with such a store.
pub record Taught (m : Command (Unit {0})) (c : Context) : Type 0 where
  pub store : Context
  pub runs : m c ≡ ok (tt, store)
  pub learns : Learns c store

append_reference_lem :
    (a n : ℕ) (c : Context) (t : BaseType)
    → c.objects a ≡ some t
    → append_reference a n c
      ≡ ok (
        tt,
        record c {
          objects = updated c.objects a (record t { combined = set_insert n t.combined });
        },
      )
unfolding append_reference store
append_reference_lem a n c t h = rw (load_lem a c t h) refl

taught-objects :
    (a n : ℕ) (c : Context) (t : BaseType)
    → c.objects a ≡ some t
    → (b : ℕ) (u : BaseType) → c.objects b ≡ some u
    → Later
        (record c {
          objects = updated c.objects a (record t { combined = set_insert n t.combined });
        })
        b
        u
taught-objects a n c t h b u k = elim (Bool-cases (b == a)) [
  | inl p ↦ record {
    object = record u { combined = set_insert n u.combined };
    here =
        (let q = (==_iff b a).0 p in
          let r = updated-at c.objects a b (record t { combined = set_insert n t.combined }) p in
          cc);
    learned = record { shaped = refl; identity = refl; more = λ j e. has_more j n u.combined e };
  }
  | inr p ↦ record {
    object = u;
    here = updated-there c.objects a b (record t { combined = set_insert n t.combined }) p ∙ k;
    learned = Learned-refl u;
  }
]

-- The run, and the object that knows the reference.
pub record Added (a n : ℕ) (c : Context) (t : BaseType) : Type 0 where
  pub taught : Taught (append_reference a n) c
  pub object : BaseType
  pub here : taught.store.objects a ≡ some object
  pub shaped : object.shape ≡ t.shape
  pub knows : has n object.combined ≡ true

pub append_reference-Added :
    (a n : ℕ) (c : Context) (t : BaseType) → c.objects a ≡ some t → Added a n c t
append_reference-Added a n c t h = record {
  taught = record {
    store = record c {
      objects = updated c.objects a (record t { combined = set_insert n t.combined });
    };
    runs = append_reference_lem a n c t h;
    learns = record {
      objects = taught-objects a n c t h;
      nothing = λ b e. elim (Bool-cases (b == a)) [
        | inl p ↦ (let q = (==_iff b a).0 p in cc)
        | inr p ↦
            updated-there c.objects a b (record t { combined = set_insert n t.combined }) p ∙ e
      ];
      used = refl;
      resolved = λ i. refl;
      last_id = refl;
    };
  };
  object = record t { combined = set_insert n t.combined };
  here = updated-here c.objects a (record t { combined = set_insert n t.combined });
  shaped = refl;
  knows = has-set_insert n t.combined;
}
