-- ===== src/Resolver/Scopes/Lookup.antt =====
-- What pushing, popping and inserting do to what a scope finds.
use mlir_rustc.Prelude.{
  ℕ, true, if◌then◌else◌, ◌≡◌, refl, sym, ap, ◌∙◌, List, [], ◌∷◌, ◌++◌, Option, none, some, ok,
  ◌>>=◌,
}
use mlir_rustc.Lexer.Token.{Location}
use mlir_rustc.Adt.Paths.{CanonicalPath, path_equal}
use mlir_rustc.Resolver.PathMaps.{PathMaps, IsOrderedMap, is_order}
use mlir_rustc.Resolver.Ribs.{Rib, RibKind, new_rib, insert_name, lookup_name}
use mlir_rustc.Resolver.Ribs.Declared.{lookup_name-insert_name, if_and-true}
use mlir_rustc.Resolver.Scopes.{
  Scope, last_rib, but_last, peek, push, pop, change_peek, scope_insert, or_else, lookup_loop,
  lookup,
}

last_rib-append :
    {M : Type 0} → (ribs : List (Rib M)) (r : Rib M) → last_rib (ribs ++ r ∷ []) ≡ ok r
unfolding last_rib
last_rib-append [] r = refl
last_rib-append (a ∷ []) r = refl
last_rib-append (a ∷ b ∷ ribs) r = last_rib-append (b ∷ ribs) r

but_last-append :
    {M : Type 0} → (ribs : List (Rib M)) (r : Rib M) → but_last (ribs ++ r ∷ []) ≡ ribs
unfolding but_last
but_last-append [] r = refl
but_last-append (a ∷ []) r = refl
but_last-append (a ∷ b ∷ ribs) r = ap (λ rest. a ∷ rest) (but_last-append (b ∷ ribs) r)

-- Popping what was pushed gives a new rib with the id back, and the scope as it was.
pub pop-push :
    {M : Type 0} (maps : PathMaps M) (id : ℕ) (s : Scope M)
    → pop (push maps id s) ≡ ok (new_rib maps s.crate_num id, s)
unfolding pop push peek
pop-push maps id s =
    rw
      (
        last_rib-append s.stack (new_rib maps s.crate_num id),
        but_last-append s.stack (new_rib maps s.crate_num id),
      )
      refl

or_else_assoc : (a b c : Option ℕ) → or_else (or_else a b) c ≡ or_else a (or_else b c)
or_else_assoc none b c = refl
or_else_assoc (some x) b c = refl

or_else-none : (a : Option ℕ) → or_else a none ≡ a
or_else-none none = refl
or_else-none (some x) = refl

lookup_loop-append :
    {M : Type 0} (maps : PathMaps M) (p : CanonicalPath) (ribs : List (Rib M)) (r : Rib M)
    → lookup_loop maps p (ribs ++ r ∷ []) ≡ or_else (lookup_loop maps p ribs) (lookup_name maps p r)
unfolding lookup_loop
lookup_loop-append maps p [] r = or_else-none (lookup_name maps p r)
lookup_loop-append maps p (a ∷ ribs) r =
    ap (or_else (lookup_name maps p a)) (lookup_loop-append maps p ribs r)
    ∙ sym (or_else_assoc (lookup_name maps p a) (lookup_loop maps p ribs) (lookup_name maps p r))

-- A new rib hides nothing and adds nothing.
pub lookup-push :
    {M : Type 0} (maps : PathMaps M) (ordered : IsOrderedMap maps) (p : CanonicalPath) (id : ℕ)
    (s : Scope M)
    → lookup maps p (push maps id s) ≡ lookup maps p s
unfolding lookup push lookup_name
lookup-push maps ordered p id s =
    lookup_loop-append maps p s.stack (new_rib maps s.crate_num id)
    ∙ (ap (or_else (lookup_loop maps p s.stack)) (ordered.find-empty p)
        ∙ or_else-none (lookup_loop maps p s.stack))

change_peek-append :
    {M : Type 0} (change : Rib M → Rib M) (s : Scope M) (outer : List (Rib M)) (inner : Rib M)
    → s.stack ≡ outer ++ inner ∷ []
    → change_peek change s ≡ ok (record s { stack = outer ++ change inner ∷ [] })
unfolding change_peek peek
change_peek-append change s outer inner e =
    ap (λ ribs. last_rib ribs >>= λ r. ok (record s { stack = but_last ribs ++ change r ∷ [] })) e
    ∙ rw (last_rib-append outer inner, but_last-append outer inner) refl

-- A name inserted into a scope goes into the innermost rib, and is found with its new id unless an
-- outer rib has the name: the outermost rib decides. Every other name is found as before. The map from
-- paths behaves as the standard says, and `operator<` is a strict weak order of the two paths and
-- those in the innermost rib.
pub lookup-scope_insert :
    {M : Type 0} (maps : PathMaps M) (ordered : IsOrderedMap maps) (p q : CanonicalPath) (id : ℕ)
    (loc : Location) (kind : RibKind) (s : Scope M) (outer : List (Rib M)) (inner : Rib M)
    → s.stack ≡ outer ++ inner ∷ []
    → is_order (p ∷ q ∷ ordered.keys inner.path_mappings) ≡ true
    → (scope_insert maps p id loc kind s >>= λ t. ok (lookup maps q t))
      ≡ ok (
          or_else
            (lookup_loop maps q outer)
            (if path_equal p q then some id else lookup_name maps q inner))
unfolding scope_insert lookup
lookup-scope_insert maps ordered p q id loc kind s outer inner e o =
    ap (λ m. m >>= λ t. ok (lookup maps q t))
      (change_peek-append (insert_name maps p id loc true kind) s outer inner e)
    ∙ ap ok (
        lookup_loop-append maps q outer (insert_name maps p id loc true kind inner)
        ∙ ap (or_else (lookup_loop maps q outer)) (
            lookup_name-insert_name maps ordered p q id loc true kind inner o
            ∙ sym (if_and-true (path_equal p q) (some id) (lookup_name maps q inner))))
