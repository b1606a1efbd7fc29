-- ===== src/Unification/Store/Steady/Primitives.antt =====
-- The primitive commands are steady.
use mlir_rustc.Prelude.{
  ℕ, ◌==◌, true, false, Option, none, some, ◌≡◌, refl, sym, ap, ◌∙◌, Outcome, ok, arith, Bool-cases,
  ==_iff, inl, inr,
}
use mlir_rustc.Adt.Names.Order.{true-false}
use mlir_rustc.TyTy.Types.{InferKind}
use mlir_rustc.Unification.Store.{
  BaseType, Shape, Context, TypeHint, is_inferred, updated, set_insert, hinted, infer_type,
  int_type, uint_type, float_type, usize_type, isize_type,
}
use mlir_rustc.Unification.Store.Commands
use mlir_rustc.Unification.Store.Steady.{
  WellFormed, IsSame, IsAt, IsSame-refl, Extends-refl, IsSteady, Leaves, bind-IsSteady,
  pure-IsSteady,
}

pub updated-here : {A : Type 0} (m : ℕ → Option A) (k : ℕ) (v : A) → updated m k v k ≡ some v
unfolding updated
updated-here m k v = ground arith

pub updated-at :
    {A : Type 0} (m : ℕ → Option A) (k j : ℕ) (v : A) → (j == k) ≡ true → updated m k v j ≡ some v
unfolding updated
updated-at m k j v h = rw h refl

pub updated-there :
    {A : Type 0} (m : ℕ → Option A) (k j : ℕ) (v : A) → (j == k) ≡ false → updated m k v j ≡ m j
unfolding updated
updated-there m k j v h = rw h

pub updated-none :
    {A : Type 0} (m : ℕ → Option A) (k j : ℕ) (v w : A)
    → m k ≡ none
    → m j ≡ some w
    → updated m k v j ≡ some w
unfolding updated
updated-none m k j v w h e = ground (arith, h)

load-Leaves :
    (c : Context) (o : Option BaseType)
    → WellFormed c
    → Leaves c (elim o [ none ↦ Outcome.undefined | some t ↦ ok (t, c) ])
load-Leaves c none w = tt
load-Leaves c (some t) w = (Extends-refl c, w)

pub load-IsSteady : (a : ℕ) → IsSteady (Commands.load a)
unfolding Commands.load
load-IsSteady a c w = load-Leaves c (c.objects a) w

get_type-Leaves :
    (c : Context) (o : Option ℕ)
    → WellFormed c
    → Leaves c (elim o [ none ↦ Outcome.aborted | some a ↦ ok (a, c) ])
get_type-Leaves c none w = tt
get_type-Leaves c (some a) w = (Extends-refl c, w)

pub get_type-IsSteady : (i : ℕ) → IsSteady (Commands.get_type i)
unfolding Commands.get_type
get_type-IsSteady i c w = get_type-Leaves c (c.resolved i) w

pub lookup_type-IsSteady : (i : ℕ) → IsSteady (Commands.lookup_type i)
unfolding Commands.lookup_type
lookup_type-IsSteady i c w = (Extends-refl c, w)

-- An object at an address that was not used.
pub alloc-IsSteady : (t : BaseType) → IsSteady (Commands.alloc t)
unfolding Commands.alloc
alloc-IsSteady t c w = (
  record {
    object_stays = λ a u e. record {
      object = u;
      here = updated-none c.objects c.used a t u (w.unused c.used (omega arith)) e;
      same = IsSame-refl u;
    };
    type_stays = λ i a u e o v. e;
    ids_grow = omega arith;
  },
  record {
    unused = λ a h. updated-there c.objects c.used a t (ground arith) ∙ w.unused a (omega arith);
    unknown = w.unknown;
  },
)

-- A node id that was not known.
pub get_next_node_id-IsSteady : IsSteady Commands.get_next_node_id
unfolding Commands.get_next_node_id
get_next_node_id-IsSteady c w = (
  record {
    object_stays = λ a u e. record { object = u; here = e; same = IsSame-refl u };
    type_stays = λ i a u e o v. e;
    ids_grow = omega arith;
  },
  record { unused = w.unused; unknown = λ i h. w.unknown i (omega arith) },
)

-- An object changed in place.
module _ (f : BaseType → BaseType) (same : (t : BaseType) → IsSame t (f t)) where
  changed-stays :
      (c : Context) (a : ℕ) (t : BaseType)
      → c.objects a ≡ some t
      → (b : ℕ) (u : BaseType) → c.objects b ≡ some u
      → IsAt (record c { objects = updated c.objects a (f t) }) b u
  changed-stays c a t h b u e = elim (Bool-cases (b == a)) [
    | inl p ↦ record {
      object = f u;
      here = (let q = (==_iff b a).0 p in let r = updated-at c.objects a b (f t) p in cc);
      same = same u;
    }
    | inr p ↦ record {
      object = u;
      here = updated-there c.objects a b (f t) p ∙ e;
      same = IsSame-refl u;
    }
  ]

  change-Leaves :
      (c : Context) (a : ℕ) (o : Option BaseType)
      → c.objects a ≡ o
      → WellFormed c
      → Leaves c (
          Commands.resume
            (elim o [ none ↦ Outcome.undefined | some t ↦ ok (t, c) ])
            (λ t d. ok (tt, record d { objects = updated d.objects a (f t) })))
  change-Leaves c a none h w = tt
  change-Leaves c a (some t) h w = (
    record {
      object_stays = changed-stays c a t h;
      type_stays = λ i b u e o v. e;
      ids_grow = omega arith;
    },
    record {
      unused = λ b k. elim (Bool-cases (b == a)) [
        | inl p ↦ (let q = (==_iff b a).0 p in let r = w.unused b k in cc)
        | inr p ↦ updated-there c.objects a b (f t) p ∙ w.unused b k
      ];
      unknown = w.unknown;
    },
  )

  pub change-IsSteady :
      (a : ℕ) → IsSteady (Commands.◌>>=◌ (Commands.load a) (λ t. Commands.store a (f t)))
  unfolding Commands.load Commands.store
  change-IsSteady a c w = change-Leaves c a (c.objects a) refl w

pub append_reference-IsSteady : (a r : ℕ) → IsSteady (Commands.append_reference a r)
unfolding Commands.append_reference
append_reference-IsSteady a r =
    change-IsSteady (λ t. record t { combined = set_insert r t.combined })
      (λ t. record { variable = refl; rigid = λ h. refl; identity = refl }) a

is_inferred-hinted : (k : InferKind) (h : TypeHint) (s : Shape) → is_inferred (hinted k h s) ≡ true
is_inferred-hinted k h (int_type i) = refl
is_inferred-hinted k h (uint_type u) = refl
is_inferred-hinted k h (float_type f) = refl
is_inferred-hinted k h usize_type = refl
is_inferred-hinted k h isize_type = refl
is_inferred-hinted k h _ = refl

with_hint-IsSame :
    (t : BaseType) (hint s : Shape) → t.shape ≡ s → IsSame t (Commands.with_hint t hint s)
with_hint-IsSame t hint (infer_type k h) e = record {
  variable = is_inferred-hinted k h hint ∙ sym (ap is_inferred e);
  rigid = λ v. absurd (true-false (sym (ap is_inferred e) ∙ v));
  identity = refl;
}
with_hint-IsSame t hint _ e = IsSame-refl t

pub apply_scalar_type_hint-IsSteady :
    (a : ℕ) (hint : Shape) → IsSteady (Commands.apply_scalar_type_hint a hint)
unfolding Commands.apply_scalar_type_hint
apply_scalar_type_hint-IsSteady a hint =
    change-IsSteady (λ t. Commands.with_hint t hint t.shape)
      (λ t. with_hint-IsSame t hint t.shape refl) a

pub is_error-IsSteady : (a : ℕ) → IsSteady (Commands.is_error a)
unfolding Commands.is_error
is_error-IsSteady a = search (bind-IsSteady, load-IsSteady, pure-IsSteady)

pub type_variable-IsSteady : (a : ℕ) → IsSteady (Commands.type_variable a)
unfolding Commands.type_variable
type_variable-IsSteady a = search (bind-IsSteady, load-IsSteady, get_type-IsSteady, pure-IsSteady)
