-- ===== src/Unification/Unify.antt =====
-- `Unification::unify`, `commit` and `unifyWithSite`. What is appended to `commits` is never read, and
-- no modelled type has specified bounds, so the first assertion of `unify` holds.

pub mod Steady
pub mod Plain
pub mod Learning
pub mod Resolves
pub mod Sites
use mlir_rustc.Prelude.{
  ℕ, zero, suc, Bool, true, false, ◌&&◌, not, if◌then◌else◌, List, [], ◌∷◌, Option, none, some, ok,
  aborted,
}
use mlir_rustc.TyTy.Types.{InferKind, is_general}
use mlir_rustc.Unification.Store.{BaseType, Shape, infer_type, is_inferred}
use mlir_rustc.Unification.Store.Commands.{
  Command, pure, abort, no_fuel, ◌>>=◌, ◌>>◌, load, append_reference, insert_type, lookup_type,
  is_error,
}
use mlir_rustc.Unification.Store.Clones.{clone}
use mlir_rustc.Unification.Expect.{expect}

unfoldable pub append_references : ℕ → List ℕ → Command (Unit {0})
unfolding append_reference
append_references a [] = pure tt
append_references a (r ∷ rs) = append_reference a r >> append_references a rs

-- Every result is committed but a general inference variable.
abbrev pub is_settled : Shape → Bool
is_settled (infer_type k _) = not (is_general k)
is_settled _ = true

module _ (copy : ℕ → Command ℕ) where
  -- A round of the loop of `commit`, after `lookupType(ref)`.
  abbrev pub resolve_type : ℕ → ℕ → Option ℕ → Command (Unit {0})
  resolve_type result ref none = pure tt
  resolve_type result ref (some a) = do
    t ← load a
    if not (is_inferred t.shape) then pure tt else do x ← copy result; insert_type ref x

  unfoldable pub resolve : ℕ → ℕ → Command (Unit {0})
  unfolding lookup_type load insert_type
  resolve result ref = do o ← lookup_type ref; resolve_type result ref o

  unfoldable pub resolve_all : ℕ → List ℕ → Command (Unit {0})
  unfolding resolve
  resolve_all result [] = pure tt
  resolve_all result (ref ∷ refs) = resolve result ref >> resolve_all result refs

  -- The first part of `commit`: the three objects learn each other's references.
  unfoldable pub share_references : ℕ → ℕ → ℕ → Command (Unit {0})
  unfolding load append_reference append_references
  share_references b o result = do
    tb ← load b
    to ← load o
    append_reference result tb.reference
    append_reference result to.reference
    append_references result tb.combined
    append_references result to.combined
    tr ← load result
    append_reference o tr.reference
    append_reference o tb.reference
    append_reference b tr.reference
    append_reference b to.reference

  unfoldable pub commit : ℕ → ℕ → ℕ → Command (Unit {0})
  unfolding load share_references resolve_all
  commit b o result = do
    share_references b o result
    t ← load result
    if is_settled t.shape then resolve_all result t.combined else pure tt

module _ (copy : ℕ → Command ℕ) (site : ℕ → ℕ → Command ℕ) where
  -- `Unification::unify`; `emitFailedUnification` ends in a failed assertion.
  unfoldable pub unify : Bool → Bool → Bool → ℕ → ℕ → Command ℕ
  unfolding expect commit is_error
  unify force_commit emit_errors infer a b = if infer then abort else do
    result ← expect copy site a b
    if force_commit then commit copy a b result else pure tt
    failed ← is_error result
    if failed && emit_errors then abort else pure result

-- On fuel, since a type may hold itself.
unfoldable pub unify_with_site : ℕ → ℕ → ℕ → Command ℕ
unfolding unify clone
unify_with_site zero a b = no_fuel
unify_with_site (suc f) a b = unify (clone f) (unify_with_site f) true true false a b
