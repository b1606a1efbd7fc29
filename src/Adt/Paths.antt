-- ===== src/Adt/Paths.antt =====
-- code/include/ADT/CanonicalPath.h and code/ADT/CanonicalPath.cpp: paths of named segments, each with
-- a node id.
pub mod Laws
use mlir_rustc.Prelude.{
  ℕ, Bool, true, false, ◌==◌, ltb, if◌then◌else◌, List, [], ◌∷◌, ◌++◌, length, Bytes, codes,
  Outcome, ok, aborted, ◌>>=◌,
}
use mlir_rustc.Adt.Names.{Name, name_equal, name_less, to_string}

abbrev pub Segments : Type 0
Segments = List (ℕ × Name)

pub record CanonicalPath : Type 0 where
  pub segments : Segments
  pub crate_num : ℕ

-- `UNKNOWN_CREATENUM`, the largest `uint32_t`.
abbrev pub unknown_crate_num : ℕ
unknown_crate_num = 4_294_967_295

abbrev pub new_segment : ℕ → Name → CanonicalPath
new_segment id path = record { segments = (id, path) ∷ []; crate_num = unknown_crate_num }

abbrev pub create_empty : CanonicalPath
create_empty = record { segments = []; crate_num = unknown_crate_num }

abbrev pub get_big_self : ℕ → CanonicalPath
get_big_self id = new_segment id (codes "Self")

abbrev pub no_segment : Segments → Bool
no_segment [] = true
no_segment (_ ∷ _) = false

abbrev pub is_empty_path : CanonicalPath → Bool
is_empty_path p = no_segment p.segments

-- The loop of `asString`: `::` stands behind every segment but the last.
unfoldable pub join : Segments → Outcome Bytes
join [] = ok []
join ((id, name) ∷ []) = to_string name
join ((id, name) ∷ rest) =
    to_string name >>= λ seg. join rest >>= λ buf. ok (seg ++ (codes "::" ++ buf))

unfoldable pub as_string : CanonicalPath → Outcome Bytes
unfolding join
as_string p = join p.segments

-- `append`, which asserts that the other path is not empty.
unfoldable pub append_segments : CanonicalPath → CanonicalPath → CanonicalPath
append_segments p other =
    if is_empty_path p
    then record { segments = other.segments; crate_num = p.crate_num }
    else record { segments = p.segments ++ other.segments; crate_num = p.crate_num }

unfoldable pub append_path : CanonicalPath → CanonicalPath → Outcome CanonicalPath
unfolding append_segments
append_path p other = if is_empty_path other then aborted else ok (append_segments p other)

-- `segments.back().first`.
unfoldable pub last_id : Segments → Outcome ℕ
last_id [] = aborted
last_id ((id, _) ∷ []) = ok id
last_id (_ ∷ rest) = last_id rest

unfoldable pub get_node_id : CanonicalPath → Outcome ℕ
unfolding last_id
get_node_id p = last_id p.segments

-- The loop of `operator==`, on paths of one size; node ids are ignored.
unfoldable pub segments_equal : Segments → Segments → Bool
unfolding name_equal
segments_equal ((_, a) ∷ p) ((_, b) ∷ q) =
    let rest = segments_equal p q in if name_equal a b then rest else false
segments_equal _ _ = true

-- `operator==`, `isEqual` and `isEqualByName`.
unfoldable pub path_equal : CanonicalPath → CanonicalPath → Bool
unfolding segments_equal
path_equal p q =
    if length p.segments == length q.segments then segments_equal p.segments q.segments else false

-- The loop of `operator<`, on paths of one size.
unfoldable pub segments_less : Segments → Segments → Bool
unfolding name_less
segments_less ((_, a) ∷ p) ((_, b) ∷ q) =
    let rest = segments_less p q in if name_less a b then true else rest
segments_less _ _ = false

unfoldable pub path_less : CanonicalPath → CanonicalPath → Bool
unfolding segments_less
path_less p q =
    if ltb (length p.segments) (length q.segments)
    then true
    else if ltb (length q.segments) (length p.segments)
    then false
    else segments_less p.segments q.segments

unfoldable pub trait_impl_projection_segment :
    ℕ → CanonicalPath → CanonicalPath → Outcome CanonicalPath
unfolding as_string
trait_impl_projection_segment id trait_segment impl_type_segment = do
  type ← as_string impl_type_segment
  trait ← as_string trait_segment
  ok (new_segment id (codes "<" ++ (type ++ (codes " as " ++ (trait ++ codes ">")))))
