-- ===== src/Adt/Paths/Laws.antt =====
-- Equality, order, printing and appending in code/include/ADT/CanonicalPath.h.
use mlir_rustc.Prelude.{
  ℕ, suc, true, false, ◌||◌, ◌==◌, ◌≡◌, ◌↔◌, refl, sym, ap, ◌∙◌, arith, List, [], ◌∷◌, ◌++◌,
  append_assoc, length, Bytes, codes, Outcome, ok, ◌>>=◌, ok-injective, Bool-cases, inl, inr,
  ==_iff,
}
use mlir_rustc.Adt.Names.{Name, to_string}
use mlir_rustc.Adt.Names.Order.{true-false, name_equal_iff, name_less-total, name_equal-less}
use mlir_rustc.Adt.Paths.{
  Segments, CanonicalPath, no_segment, is_empty_path, join, as_string, append_path, segments_equal,
  path_equal, segments_less, path_less,
}

-- The names of the segments.
abbrev pub segment_names : Segments → List Name
segment_names [] = []
segment_names ((_, a) ∷ p) = a ∷ segment_names p

abbrev pub names : CanonicalPath → List Name
names p = segment_names p.segments

segment_names-length : (p : Segments) → length (segment_names p) ≡ length p
segment_names-length [] = refl
segment_names-length (s ∷ p) = ap suc (segment_names-length p)

segments_equal-path :
    (p q : Segments)
    → length p ≡ length q
    → (segments_equal p q ≡ true) ↔ (segment_names p ≡ segment_names q)
unfolding segments_equal
segments_equal-path [] [] e = (λ _. refl, λ _. refl)
segments_equal-path [] (_ ∷ q) e = absurd (omega arith)
segments_equal-path (_ ∷ p) [] e = absurd (omega arith)
segments_equal-path ((i, a) ∷ p) ((j, b) ∷ q) e =
    ground (arith, name_equal_iff a b, segments_equal-path p q (omega arith))

-- `==` holds of two paths exactly if their segments have the same names in the same order; the node
-- ids and the crate do not matter.
pub path_equal_iff : (p q : CanonicalPath) → (path_equal p q ≡ true) ↔ (names p ≡ names q)
unfolding path_equal
path_equal_iff p q = elim (Bool-cases (length p.segments == length q.segments)) [
  | inl same ↦ rw same (
      segments_equal-path p.segments q.segments
        ((==_iff (length p.segments) (length q.segments)).0 same))
  | inr other ↦ (
    λ h. absurd (true-false (sym h ∙ rw other)),
    λ e.
        let sizes =
          sym (segment_names-length p.segments) ∙ (ap length e ∙ segment_names-length q.segments) in
        absurd
          (true-false (sym ((==_iff (length p.segments) (length q.segments)).1 sizes) ∙ other)),
  )
]

segments_less-total :
    (p q : Segments)
    → length p ≡ length q
    → segments_equal p q ≡ false
    → (segments_less p q || segments_less q p) ≡ true
unfolding segments_less segments_equal
segments_less-total [] [] e h = cc
segments_less-total [] (_ ∷ q) e h = absurd (omega arith)
segments_less-total (_ ∷ p) [] e h = absurd (omega arith)
segments_less-total ((i, a) ∷ p) ((j, b) ∷ q) e h =
    ground (arith, name_less-total a b, segments_less-total p q (omega arith))

-- Of two paths that `==` tells apart one is less than the other.
pub path_less-total :
    (p q : CanonicalPath) → path_equal p q ≡ false → (path_less p q || path_less q p) ≡ true
unfolding path_less path_equal
path_less-total p q h = ground (arith, segments_less-total p.segments q.segments)

segments_equal-less :
    (p q : Segments) → length p ≡ length q → segments_equal p q ≡ true → segments_less p q ≡ false
unfolding segments_less segments_equal
segments_equal-less [] [] e h = refl
segments_equal-less [] (_ ∷ q) e h = absurd (omega arith)
segments_equal-less (_ ∷ p) [] e h = absurd (omega arith)
segments_equal-less ((i, a) ∷ p) ((j, b) ∷ q) e h =
    ground (arith, name_equal-less a b, segments_equal-less p q (omega arith))

-- Of two paths of which `==` holds none is less than the other.
pub path_equal-less : (p q : CanonicalPath) → path_equal p q ≡ true → path_less p q ≡ false
unfolding path_less path_equal
path_equal-less p q h = ground (arith, segments_equal-less p.segments q.segments)

-- Two texts with `::` between them.
abbrev glue : Outcome Bytes → Outcome Bytes → Outcome Bytes
glue m n = m >>= λ seg. n >>= λ buf. ok (seg ++ (codes "::" ++ buf))

glue-ok :
    (m n : Outcome Bytes) (a b : Bytes)
    → m ≡ ok a
    → n ≡ ok b
    → glue m n ≡ ok (a ++ (codes "::" ++ b))
glue-ok m n a b e f = rw (e, f)

record Glued (m n : Outcome Bytes) (a : Bytes) : Type 0 where
  seg : Bytes
  buf : Bytes
  left : m ≡ ok seg
  right : n ≡ ok buf
  both : a ≡ seg ++ (codes "::" ++ buf)

glue-parts : (m n : Outcome Bytes) (a : Bytes) → glue m n ≡ ok a → Glued m n a
glue-parts (ok x) (ok y) a e = record {
  seg = x;
  buf = y;
  left = refl;
  right = refl;
  both = sym (ok-injective e);
}
glue-parts (ok x) _ a e = cc
glue-parts _ n a e = cc

join-cons :
    (s : ℕ × Name) (p : Segments)
    → no_segment p ≡ false
    → join (s ∷ p) ≡ glue (to_string s.1) (join p)
unfolding join
join-cons s [] h = cc
join-cons s (t ∷ p) h = refl

join-single : (s : ℕ × Name) → join (s ∷ []) ≡ to_string s.1
unfolding join
join-single s = refl

join-append :
    (p q : Segments) (a b : Bytes)
    → no_segment p ≡ false
    → no_segment q ≡ false
    → join p ≡ ok a
    → join q ≡ ok b
    → join (p ++ q) ≡ ok (a ++ (codes "::" ++ b))
join-append [] q a b h k e f = cc
join-append (s ∷ []) q a b h k e f =
    join-cons s q k ∙ glue-ok (to_string s.1) (join q) a b (sym (join-single s) ∙ e) f
join-append (s ∷ t ∷ p) q a b h k e f =
    let parts = glue-parts (to_string s.1) (join (t ∷ p)) a (sym (join-cons s (t ∷ p) refl) ∙ e) in
    let rest = join-append (t ∷ p) q parts.buf b refl k parts.right f in
    join-cons s (t ∷ (p ++ q)) refl
    ∙ (glue-ok (to_string s.1) (join (t ∷ (p ++ q))) parts.seg (parts.buf ++ (codes "::" ++ b))
          parts.left rest
        ∙ ap ok (
            sym (
              ap (λ t. t ++ (codes "::" ++ b)) parts.both
              ∙ append_assoc parts.seg (codes "::" ++ parts.buf) (codes "::" ++ b))))

-- A path appended to another that is not empty prints as the two with `::` between them, where both
-- print.
pub as_string-append :
    (p q : CanonicalPath) (a b : Bytes)
    → is_empty_path p ≡ false
    → is_empty_path q ≡ false
    → as_string p ≡ ok a
    → as_string q ≡ ok b
    → (append_path p q >>= as_string) ≡ ok (a ++ (codes "::" ++ b))
unfolding append_path as_string
as_string-append p q a b h k e f = rw (k, h) (join-append p.segments q.segments a b h k e f)

append_path_cases :
    (ps qs rs : Segments) (i j k : ℕ)
    → no_segment qs ≡ false
    → (let p : CanonicalPath = record { segments = ps; crate_num = i } in
        let q : CanonicalPath = record { segments = qs; crate_num = j } in
        let r : CanonicalPath = record { segments = rs; crate_num = k } in
        (append_path p q >>= λ pq. append_path pq r) ≡ (append_path q r >>= append_path p))
unfolding append_path
append_path_cases ps [] rs i j k h = cc
append_path_cases [] (y ∷ qs) [] i j k h = refl
append_path_cases [] (y ∷ qs) (z ∷ rs) i j k h = refl
append_path_cases (x ∷ ps) (y ∷ qs) [] i j k h = refl
append_path_cases (x ∷ ps) (y ∷ qs) (z ∷ rs) i j k h =
    ap (λ s. ok (record { segments = x ∷ s; crate_num = i })) (append_assoc ps (y ∷ qs) (z ∷ rs))

-- Appending is associative if the path in the middle is not empty.
pub append_path_assoc :
    (p q r : CanonicalPath)
    → is_empty_path q ≡ false
    → (append_path p q >>= λ pq. append_path pq r) ≡ (append_path q r >>= append_path p)
append_path_assoc p q r h =
    append_path_cases p.segments q.segments r.segments p.crate_num q.crate_num r.crate_num h
