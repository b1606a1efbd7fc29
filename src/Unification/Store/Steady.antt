-- ===== src/Unification/Store/Steady.antt =====
-- Commands that leave the types that are known as they are.
pub mod Primitives
pub mod Cloning
use mlir_rustc.Prelude.{
  ℕ, ◌≤◌, ◌<◌, Bool, true, false, if◌then◌else◌, Option, none, some, ◌≡◌, refl, ◌∙◌, Outcome, ok,
  arith, exited, aborted, undefined, diverges, out_of_fuel,
}
use mlir_rustc.Unification.Store.{BaseType, Shape, Context, is_inferred}
use mlir_rustc.Unification.Store.Commands.{Command, pure, abort, no_fuel, ◌>>=◌, ◌>>◌, resume}

-- No address above the used ones holds an object, and no node id above the last one has a type.
pub record WellFormed (c : Context) : Type 0 where
  pub unused : (a : ℕ) → c.used ≤ a → c.objects a ≡ none
  pub unknown : (i : ℕ) → c.last_id < i → c.resolved i ≡ none

-- The same object later: a variable may take a hint, and any object may learn references.
pub record IsSame (t u : BaseType) : Type 0 where
  pub variable : is_inferred u.shape ≡ is_inferred t.shape
  pub rigid : is_inferred t.shape ≡ false → u.shape ≡ t.shape
  pub identity : u.reference ≡ t.reference

pub record IsAt (c : Context) (a : ℕ) (t : BaseType) : Type 0 where
  pub object : BaseType
  pub here : c.objects a ≡ some object
  pub same : IsSame t object

-- Every object is still there, a node id whose type is no variable still has that type, and node ids
-- are not given out again.
pub record Extends (c d : Context) : Type 0 where
  pub object_stays : (a : ℕ) (t : BaseType) → c.objects a ≡ some t → IsAt d a t
  pub type_stays :
      (i a : ℕ) (t : BaseType)
      → c.resolved i ≡ some a
      → c.objects a ≡ some t
      → is_inferred t.shape ≡ false
      → d.resolved i ≡ some a
  pub ids_grow : c.last_id ≤ d.last_id

pub IsSame-refl : (t : BaseType) → IsSame t t
IsSame-refl t = record { variable = refl; rigid = λ h. refl; identity = refl }

IsSame-trans : (t u v : BaseType) → IsSame t u → IsSame u v → IsSame t v
IsSame-trans t u v h k = record {
  variable = k.variable ∙ h.variable;
  rigid = λ e. k.rigid (h.variable ∙ e) ∙ h.rigid e;
  identity = k.identity ∙ h.identity;
}

pub Extends-refl : (c : Context) → Extends c c
Extends-refl c = record {
  object_stays = λ a t e. record { object = t; here = e; same = IsSame-refl t };
  type_stays = λ i a t e h k. e;
  ids_grow = omega arith;
}

pub Extends-trans : (c d e : Context) → Extends c d → Extends d e → Extends c e
Extends-trans c d e h k = record {
  object_stays = λ a t p.
      let q = h.object_stays a t p in
      let r = k.object_stays a q.object q.here in
      record {
        object = r.object;
        here = r.here;
        same = IsSame-trans t q.object r.object q.same r.same;
      };
  type_stays = λ i a t p o v.
      let q = h.object_stays a t o in
      k.type_stays i a q.object (h.type_stays i a t p o v) q.here (q.same.variable ∙ v);
  ids_grow = omega (arith, h.ids_grow, k.ids_grow);
}

module _ {A : Type 0} where
  -- If the run ends, then the store it leaves extends `c` and is well formed.
  abbrev pub Leaves : Context → Outcome (A × Context) → Type 0
  Leaves c (ok (a, d)) = Extends c d × WellFormed d
  Leaves c _ = Unit

  abbrev pub IsSteady : Command A → Type 0
  IsSteady m = (c : Context) → WellFormed c → Leaves c (m c)

  pub pure-IsSteady : (a : A) → IsSteady (pure a)
  pure-IsSteady a c w = (Extends-refl c, w)

  pub if-IsSteady :
      (b : Bool) (m n : Command A) → IsSteady m → IsSteady n → IsSteady (if b then m else n)
  if-IsSteady true m n h k = h
  if-IsSteady false m n h k = k

  pub Leaves-trans :
      (c d : Context) (o : Outcome (A × Context)) → Extends c d → Leaves d o → Leaves c o
  Leaves-trans c d (ok (a, e)) h k = (Extends-trans c d e h k.0, k.1)
  Leaves-trans c d exited h k = tt
  Leaves-trans c d aborted h k = tt
  Leaves-trans c d undefined h k = tt
  Leaves-trans c d diverges h k = tt
  Leaves-trans c d out_of_fuel h k = tt

pub abort-IsSteady : (A : Type 0) → IsSteady (abort {A = A})
abort-IsSteady A c w = tt

pub no_fuel-IsSteady : (A : Type 0) → IsSteady (no_fuel {A = A})
no_fuel-IsSteady A c w = tt

module _ {A B : Type 0} where
  resume-Leaves :
      (c : Context) (o : Outcome (A × Context)) (f : A → Command B)
      → Leaves c o
      → ((a : A) → IsSteady (f a))
      → Leaves c (resume o f)
  resume-Leaves c (ok (a, d)) f h k = Leaves-trans c d (f a d) h.0 (k a d h.1)
  resume-Leaves c exited f h k = tt
  resume-Leaves c aborted f h k = tt
  resume-Leaves c undefined f h k = tt
  resume-Leaves c diverges f h k = tt
  resume-Leaves c out_of_fuel f h k = tt

  pub bind-IsSteady :
      (m : Command A) (f : A → Command B)
      → IsSteady m
      → ((a : A) → IsSteady (f a))
      → IsSteady (m >>= f)
  bind-IsSteady m f h k c w = resume-Leaves c (m c) f (h c w) k

  pub then-IsSteady : (m : Command A) (n : Command B) → IsSteady m → IsSteady n → IsSteady (m >> n)
  then-IsSteady m n h k = bind-IsSteady m (λ _. n) h (λ _. k)
