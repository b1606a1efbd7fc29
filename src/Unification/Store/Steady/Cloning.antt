-- ===== src/Unification/Store/Steady/Cloning.antt =====
-- Clones are steady.
use mlir_rustc.Prelude.{ℕ, zero, suc, List, [], ◌∷◌, ◌∙◌, arith}
use mlir_rustc.Unification.Store.{
  BaseType, Shape, Context, updated, infer_type, tuple_type, slice_type,
}
use mlir_rustc.Unification.Store.Commands.{
  Command, pure, ◌>>=◌, ◌>>◌, get_next_node_id, alloc, insert_type, append_reference,
}
use mlir_rustc.Unification.Store.Clones
use mlir_rustc.Unification.Store.Commands
use mlir_rustc.Unification.Store.Steady.{
  WellFormed, Extends, IsSame-refl, Leaves-trans, IsSteady, pure-IsSteady, no_fuel-IsSteady,
  bind-IsSteady, then-IsSteady,
}
use mlir_rustc.Unification.Store.Steady.Primitives.{
  updated-there, updated-none, load-IsSteady, get_type-IsSteady, alloc-IsSteady,
  append_reference-IsSteady, type_variable-IsSteady,
}

-- A new object, registered under a new node id.
abbrev registered : Context → BaseType → Context
registered c t = record {
  objects = updated c.objects c.used t;
  used = suc c.used;
  resolved = updated c.resolved (suc c.last_id) c.used;
  last_id = suc c.last_id;
}

registered-Extends : (c : Context) (t : BaseType) → WellFormed c → Extends c (registered c t)
registered-Extends c t w = record {
  object_stays = λ a u e. record {
    object = u;
    here = updated-none c.objects c.used a t u (w.unused c.used (omega arith)) e;
    same = IsSame-refl u;
  };
  type_stays = λ i a u e o v.
      updated-none c.resolved (suc c.last_id) i c.used a (w.unknown (suc c.last_id) (omega arith))
        e;
  ids_grow = omega arith;
}

registered-WellFormed : (c : Context) (t : BaseType) → WellFormed c → WellFormed (registered c t)
registered-WellFormed c t w = record {
  unused = λ a h. updated-there c.objects c.used a t (ground arith) ∙ w.unused a (omega arith);
  unknown = λ i h.
      updated-there c.resolved (suc c.last_id) i c.used (ground arith) ∙ w.unknown i (omega arith);
}

clone_infer_type-IsSteady : (t : BaseType) → IsSteady (Clones.clone_infer_type t)
unfolding Clones.clone_infer_type get_next_node_id alloc insert_type
clone_infer_type-IsSteady t c w =
    let u = record t { reference = suc c.last_id; type_reference = suc c.last_id } in
    let d = registered c u in
    let m = append_reference c.used t.reference >> pure c.used in
    Leaves-trans c d (m d) (registered-Extends c u w) (
      then-IsSteady (append_reference c.used t.reference) (pure c.used)
        (append_reference-IsSteady c.used t.reference) (pure-IsSteady c.used) d
        (registered-WellFormed c u w))

module _ (copy : ℕ → Command ℕ) (steady : (a : ℕ) → IsSteady (copy a)) where
  clone_variable-IsSteady : (i : ℕ) → IsSteady (Clones.clone_variable copy i)
  unfolding Clones.clone_variable
  clone_variable-IsSteady i =
      search (bind-IsSteady, get_type-IsSteady, steady, type_variable-IsSteady)

  clone_fields-IsSteady : (is : List ℕ) → IsSteady (Clones.clone_fields copy is)
  unfolding Clones.clone_fields
  clone_fields-IsSteady [] = pure-IsSteady {A = List ℕ} []
  clone_fields-IsSteady (i ∷ is) =
      search (bind-IsSteady, pure-IsSteady, clone_variable-IsSteady i, clone_fields-IsSteady is)

  clone_shape-IsSteady : (t : BaseType) (s : Shape) → IsSteady (Clones.clone_shape copy t s)
  clone_shape-IsSteady t (infer_type k h) = clone_infer_type-IsSteady t
  clone_shape-IsSteady t (tuple_type is) =
      search (bind-IsSteady, alloc-IsSteady, clone_fields-IsSteady)
  clone_shape-IsSteady t (slice_type i) =
      search (bind-IsSteady, alloc-IsSteady, clone_variable-IsSteady)
  clone_shape-IsSteady t _ = alloc-IsSteady t

pub clone-IsSteady : (f a : ℕ) → IsSteady (Clones.clone f a)
unfolding Clones.clone
clone-IsSteady zero a = no_fuel-IsSteady ℕ
clone-IsSteady (suc f) a =
    bind-IsSteady (Commands.load a) (λ t. Clones.clone_shape (Clones.clone f) t t.shape)
      (load-IsSteady a) (λ t. clone_shape-IsSteady (Clones.clone f) (clone-IsSteady f) t t.shape)
