-- ===== src/Unification/Store/Clones.antt =====
-- The members `clone` of the types in code/TyCtx/TyTy.cpp.
use mlir_rustc.Prelude.{ℕ, zero, suc, List, [], ◌∷◌}
use mlir_rustc.Unification.Store.{BaseType, Shape, infer_type, tuple_type, slice_type}
use mlir_rustc.Unification.Store.Commands.{
  Command, pure, no_fuel, ◌>>=◌, ◌>>◌, load, alloc, append_reference, get_next_node_id, insert_type,
  get_type, type_variable,
}

-- `InferType::clone`: a variable of its own.
unfoldable pub clone_infer_type : BaseType → Command ℕ
unfolding get_next_node_id alloc insert_type append_reference
clone_infer_type t = do
  id ← get_next_node_id
  a ← alloc (record t { reference = id; type_reference = id })
  insert_type id a
  append_reference a t.reference
  pure a

module _ (copy : ℕ → Command ℕ) where
  -- `TypeVariable::clone`
  unfoldable pub clone_variable : ℕ → Command ℕ
  unfolding get_type type_variable
  clone_variable id = do a ← get_type id; b ← copy a; type_variable b

  unfoldable pub clone_fields : List ℕ → Command (List ℕ)
  unfolding clone_variable
  clone_fields [] = pure []
  clone_fields (id ∷ ids) = do j ← clone_variable id; js ← clone_fields ids; pure (j ∷ js)

  -- A tuple and a slice clone what they hold; every other type has the members of the original.
  abbrev pub clone_shape : BaseType → Shape → Command ℕ
  clone_shape t (infer_type k h) = clone_infer_type t
  clone_shape t (tuple_type ids) = do
    js ← clone_fields ids
    alloc (record t { shape = tuple_type js })
  clone_shape t (slice_type id) = do
    j ← clone_variable id
    alloc (record t { shape = slice_type j })
  clone_shape t _ = alloc t

-- On fuel, since a type may hold itself.
unfoldable pub clone : ℕ → ℕ → Command ℕ
unfolding load alloc clone_infer_type clone_variable clone_fields
clone zero a = no_fuel
clone (suc f) a = do t ← load a; clone_shape (clone f) t t.shape
