-- ===== src/Adt/Names/Order.antt =====
-- `operator==` and `operator<` of code/include/ADT/Utf8String.h.
use mlir_rustc.Prelude.{
  true, false, ◌||◌, ◌==◌, ◌≡◌, ◌≢◌, ◌↔◌, refl, ap, arith, [], ◌∷◌, length, Bool-cases, inl, inr,
  sym, ◌∙◌, ==_iff,
}
use mlir_rustc.Adt.Names.{Name, equal_loop, name_equal, less_loop, name_less}

-- The two are apart.
pub true-false : true ≢ false
true-false h = cc

equal_loop-path : (a b : Name) → length a ≡ length b → (equal_loop a b ≡ true) ↔ (a ≡ b)
unfolding equal_loop
equal_loop-path [] [] e = (λ _. refl, λ _. refl)
equal_loop-path [] (d ∷ b) e = absurd (omega arith)
equal_loop-path (c ∷ a) [] e = absurd (omega arith)
equal_loop-path (c ∷ a) (d ∷ b) e = ground (arith, equal_loop-path a b (omega arith))

-- `==` holds of two names exactly if they are equal.
pub name_equal_iff : (a b : Name) → (name_equal a b ≡ true) ↔ (a ≡ b)
unfolding name_equal
name_equal_iff a b = elim (Bool-cases (length a == length b)) [
  | inl same ↦ rw same (equal_loop-path a b ((==_iff (length a) (length b)).0 same))
  | inr other ↦ (
    λ h. absurd (true-false (sym h ∙ rw other)),
    λ e. absurd (true-false (sym ((==_iff (length a) (length b)).1 (ap length e)) ∙ other)),
  )
]

less_loop-total :
    (a b : Name)
    → length a ≡ length b
    → equal_loop a b ≡ false
    → (less_loop a b || less_loop b a) ≡ true
unfolding less_loop equal_loop
less_loop-total [] [] e h = cc
less_loop-total [] (d ∷ b) e h = absurd (omega arith)
less_loop-total (c ∷ a) [] e h = absurd (omega arith)
less_loop-total (c ∷ a) (d ∷ b) e h = ground (arith, less_loop-total a b (omega arith))

-- Of two different names one is less than the other.
pub name_less-total :
    (a b : Name) → name_equal a b ≡ false → (name_less a b || name_less b a) ≡ true
unfolding name_less name_equal
name_less-total a b h = ground (arith, less_loop-total a b)

equal_loop-less : (a b : Name) → length a ≡ length b → equal_loop a b ≡ true → less_loop a b ≡ false
unfolding less_loop equal_loop
equal_loop-less [] [] e h = refl
equal_loop-less [] (d ∷ b) e h = absurd (omega arith)
equal_loop-less (c ∷ a) [] e h = absurd (omega arith)
equal_loop-less (c ∷ a) (d ∷ b) e h = ground (arith, equal_loop-less a b (omega arith))

-- Of two equal names none is less than the other.
pub name_equal-less : (a b : Name) → name_equal a b ≡ true → name_less a b ≡ false
unfolding name_less name_equal
name_equal-less a b h = ground (arith, equal_loop-less a b)
