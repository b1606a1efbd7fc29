-- ===== src/Resolver/Scopes/Captures.antt =====
-- When a declaration has to be captured by a closure, and where a reference is recorded.
use mlir_rustc.Prelude.{
  ℕ, Bool, true, false, ◌==◌, if◌then◌else◌, ◌≡◌, ◌↔◌, refl, sym, ap, ◌∙◌, List, [], ◌∷◌, ◌++◌, All,
  ok, ◌>>=◌, Bool-cases, inl, inr,
}
use mlir_rustc.Resolver.Ribs.{Rib, was_decl_declared_here}
use mlir_rustc.Resolver.Scopes.{
  Scope, needs_capture_loop, decl_needs_capture, reference_loop, scope_append_reference,
}

-- A rib of the declaration that stands outside of every rib of the closure.
pub record Outside {M : Type 0} (decl closure : ℕ) (ribs : List (Rib M)) : Type 0 where
  pub outer : List (Rib M)
  pub rib : Rib M
  pub inner : List (Rib M)
  pub ribs_are : ribs ≡ outer ++ rib ∷ inner
  pub declares : (rib.node_id == decl) ≡ true
  pub not_of_closure : (rib.node_id == closure) ≡ false
  pub none_outer : All (λ r. (r.node_id == closure) ≡ false) outer

false-true : false ≡ true → ⊥
false-true h = cc

if_true : (b : Bool) → (if b then true else true) ≡ true
if_true true = refl
if_true false = refl

needs_capture_loop-Outside :
    {M : Type 0} (decl closure : ℕ) (ribs : List (Rib M))
    → needs_capture_loop decl closure ribs ≡ true
    → Outside decl closure ribs
unfolding needs_capture_loop
needs_capture_loop-Outside decl closure [] h = cc
needs_capture_loop-Outside decl closure (r ∷ ribs) h = elim (Bool-cases (r.node_id == closure)) [
  | inl e ↦ absurd (false-true (rw e at h))
  | inr e ↦ elim (Bool-cases (r.node_id == decl)) [
    | inl d ↦ record {
      outer = [];
      rib = r;
      inner = ribs;
      ribs_are = refl;
      declares = d;
      not_of_closure = e;
      none_outer = tt;
    }
    | inr d ↦
        let rest = needs_capture_loop-Outside decl closure ribs (rw (e, d) at h) in
        record {
          outer = r ∷ rest.outer;
          rib = rest.rib;
          inner = rest.inner;
          ribs_are = ap (λ rs. r ∷ rs) rest.ribs_are;
          declares = rest.declares;
          not_of_closure = rest.not_of_closure;
          none_outer = (e, rest.none_outer);
        }
  ]
]

Outside-needs_capture_loop :
    {M : Type 0} (decl closure : ℕ) (outer : List (Rib M)) (rib : Rib M) (inner : List (Rib M))
    → (rib.node_id == decl) ≡ true
    → (rib.node_id == closure) ≡ false
    → All (λ r. (r.node_id == closure) ≡ false) outer
    → needs_capture_loop decl closure (outer ++ rib ∷ inner) ≡ true
unfolding needs_capture_loop
Outside-needs_capture_loop decl closure [] rib inner d e h = rw (e, d) refl
Outside-needs_capture_loop decl closure (r ∷ outer) rib inner d e h =
    rw (h.0, Outside-needs_capture_loop decl closure outer rib inner d e h.1)
      (if_true (r.node_id == decl))

-- A declaration needs to be captured by a closure exactly if a rib of the declaration stands in the
-- scope with no rib of the closure further out, and is not the closure's itself.
pub decl_needs_capture_iff :
    {M : Type 0} (decl closure : ℕ) (s : Scope M)
    → (decl_needs_capture decl closure s ≡ true) ↔ Outside decl closure s.stack
unfolding decl_needs_capture
decl_needs_capture_iff decl closure s = (
  needs_capture_loop-Outside decl closure s.stack,
  λ o.
      ap (needs_capture_loop decl closure) o.ribs_are
      ∙ Outside-needs_capture_loop decl closure o.outer o.rib o.inner o.declares o.not_of_closure
          o.none_outer,
)

reference_loop-dropped :
    {M : Type 0} (ref def : ℕ) (rib : Rib M) (ribs : List (Rib M))
    → was_decl_declared_here def rib ≡ false
    → reference_loop ref def (rib ∷ ribs) ≡ ok (rib ∷ ribs)
unfolding reference_loop
reference_loop-dropped ref def rib ribs h = rw h

-- A reference to what the outermost rib does not declare is dropped, whichever rib declares it.
pub scope_append_reference-dropped :
    {M : Type 0} (ref def : ℕ) (s : Scope M) (outermost : Rib M) (ribs : List (Rib M))
    → s.stack ≡ outermost ∷ ribs
    → was_decl_declared_here def outermost ≡ false
    → scope_append_reference ref def s ≡ ok s
unfolding scope_append_reference
scope_append_reference-dropped ref def s outermost ribs e h =
    ap (λ st. reference_loop ref def st >>= λ stack. ok (record s { stack = stack })) e
    ∙ (ap (λ m. m >>= λ stack. ok (record s { stack = stack }))
          (reference_loop-dropped ref def outermost ribs h)
        ∙ ap (λ stack. ok (record s { stack = stack })) (sym e))
