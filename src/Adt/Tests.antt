-- ===== src/Adt/Tests.antt =====
-- Names and paths at concrete values.
use mlir_rustc.Prelude.{true, ◌||◌, ◌&&◌, ◌≡◌, refl, [], ◌∷◌, codes}
use mlir_rustc.Adt.Names.{name_equal, name_less}
use mlir_rustc.Adt.Names.Order.{name_less-total}
use mlir_rustc.Adt.Paths.{CanonicalPath, new_segment}

abbrev std : CanonicalPath
std = new_segment 1 (codes "std")

abbrev vec : CanonicalPath
vec = record { segments = (2, codes "vec") ∷ (3, codes "Vec") ∷ []; crate_num = 4 }

name_less-total_example :
    (name_less (codes "ab") (codes "ba") || name_less (codes "ba") (codes "ab")) ≡ true
unfolding name_equal
name_less-total_example = name_less-total (codes "ab") (codes "ba") refl

-- `<` holds both ways between "ab" and "ba".
name_less_test : (name_less (codes "ab") (codes "ba") && name_less (codes "ba") (codes "ab")) ≡ true
unfolding name_less
name_less_test = refl
