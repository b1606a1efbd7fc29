-- ===== src/Unification/Store/Commands.antt =====
-- Commands on the store: the accessors of `TyCtx` and of the type objects.
use mlir_rustc.Prelude.{
  ℕ, suc, Bool, Option, none, some, Outcome, ok, exited, aborted, undefined, diverges, out_of_fuel,
}
use mlir_rustc.Unification.Store.{
  Context, BaseType, Shape, infer_type, updated, set_insert, hinted, is_error_shape,
}

abbrev pub Command : Type 0 → Type 0
Command A = Context → Outcome (A × Context)

module _ {A : Type 0} where
  abbrev pub pure : A → Command A
  pure a c = ok (a, c)

  -- A failed `assert`, and a run without fuel.
  abbrev pub abort : Command A
  abort c = aborted

  abbrev pub no_fuel : Command A
  no_fuel c = out_of_fuel

module _ {A B : Type 0} where
  abbrev pub resume : Outcome (A × Context) → (A → Command B) → Outcome (B × Context)
  resume (ok (a, c)) k = k a c
  resume exited k = exited
  resume aborted k = aborted
  resume undefined k = undefined
  resume diverges k = diverges
  resume out_of_fuel k = out_of_fuel

  infixl 5 ◌>>=◌ ◌>>◌
  abbrev pub ◌>>=◌ : Command A → (A → Command B) → Command B
  m >>= k = λ c. resume (m c) k

  abbrev pub ◌>>◌ : Command A → Command B → Command B
  m >> n = m >>= λ _. n

-- `*a`: there is no object at an address that was not given out.
unfoldable pub load : ℕ → Command BaseType
load a c = elim (c.objects a) [ none ↦ undefined | some t ↦ ok (t, c) ]

unfoldable pub store : ℕ → BaseType → Command (Unit {0})
unfolding updated
store a t c = ok (tt, record c { objects = updated c.objects a t })

-- `new`
unfoldable pub alloc : BaseType → Command ℕ
unfolding updated
alloc t c = ok (c.used, record c { objects = updated c.objects c.used t; used = suc c.used })

unfoldable pub append_reference : ℕ → ℕ → Command (Unit {0})
unfolding load store set_insert
append_reference a r = do t ← load a; store a (record t { combined = set_insert r t.combined })

abbrev pub with_hint : BaseType → Shape → Shape → BaseType
with_hint t hint (infer_type k h) = record t { shape = hinted k h hint }
with_hint t hint _ = t

-- It is called on inference variables only.
unfoldable pub apply_scalar_type_hint : ℕ → Shape → Command (Unit {0})
unfolding load store
apply_scalar_type_hint a hint = do t ← load a; store a (with_hint t hint t.shape)

unfoldable pub get_next_node_id : Command ℕ
get_next_node_id c = ok (suc c.last_id, record c { last_id = suc c.last_id })

unfoldable pub insert_type : ℕ → ℕ → Command (Unit {0})
unfolding updated
insert_type id a c = ok (tt, record c { resolved = updated c.resolved id a })

unfoldable pub lookup_type : ℕ → Command (Option ℕ)
lookup_type id c = ok (c.resolved id, c)

-- `TypeVariable::getType`
unfoldable pub get_type : ℕ → Command ℕ
get_type id c = elim (c.resolved id) [ none ↦ aborted | some a ↦ ok (a, c) ]

-- The constructor of `TypeVariable` from the reference of the object at `a`.
unfoldable pub type_variable : ℕ → Command ℕ
unfolding load get_type
type_variable a = do t ← load a; b ← get_type t.reference; pure t.reference

unfoldable pub is_error : ℕ → Command Bool
unfolding load
is_error a = do t ← load a; pure (is_error_shape t.shape)
