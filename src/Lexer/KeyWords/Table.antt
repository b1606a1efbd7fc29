-- ===== src/Lexer/KeyWords/Table.antt =====
-- The table of code/lexer/KeyWords.cpp, searched by kind and by text.
use mathlib.Core.Path.{subst, subst₂}
use mathlib.Core.Option.{some-injective}
use mlir_rustc.Prelude.{
  ◌≡◌, refl, ◌↔◌, List, [], ◌∷◌, some, inl, inr, Bool-cases, Bytes, equal, equal_iff, All,
}
use mlir_rustc.Lexer.KeyWords.{
  KeyWordKind, kw_as, kw_macro_rules, kw, find_text, key_word_to_string, is_key_word,
}

-- What holds of each entry of a table holds of what a search by spelling finds in it.
find_text-All :
    (Q : KeyWordKind → Bytes → Type 0) (table : List (KeyWordKind × Bytes)) (s : Bytes)
    {k : KeyWordKind}
    → All (λ e. Q e.0 e.1) table
    → find_text s table ≡ some k
    → Q k s
unfolding find_text
find_text-All Q [] s h e = cc
find_text-All Q ((k, text) ∷ rest) s h e = elim (Bool-cases (equal text s)) [
  | inl same ↦ subst₂ Q (some-injective _ _ (rw same at e)) ((equal_iff text s).0 same) h.0
  | inr other ↦ find_text-All Q rest s h.1 (rw other at e)
]

abbrev Spells : KeyWordKind → Bytes → Type 0
Spells k s = key_word_to_string k ≡ some s

kw-Spells : All (λ e. Spells e.0 e.1) kw
unfolding key_word_to_string
kw-Spells = (
  refl,
  (
    refl,
    (
      refl,
      (
        refl,
        (
          refl,
          (
            refl,
            (
              refl,
              (
                refl,
                (
                  refl,
                  (
                    refl,
                    (
                      refl,
                      (
                        refl,
                        (
                          refl,
                          (
                            refl,
                            (
                              refl,
                              (
                                refl,
                                (
                                  refl,
                                  (
                                    refl,
                                    (
                                      refl,
                                      (
                                        refl,
                                        (
                                          refl,
                                          (
                                            refl,
                                            (
                                              refl,
                                              (
                                                refl,
                                                (
                                                  refl,
                                                  (
                                                    refl,
                                                    (
                                                      refl,
                                                      (
                                                        refl,
                                                        (
                                                          refl,
                                                          (
                                                            refl,
                                                            (
                                                            refl,
                                                            (
                                                            refl,
                                                            (
                                                            refl,
                                                            (
                                                            refl,
                                                            (
                                                            refl,
                                                            (
                                                            refl,
                                                            (
                                                            refl,
                                                            (
                                                            refl,
                                                            (
                                                            refl,
                                                            (
                                                            refl,
                                                            (
                                                            refl,
                                                            (
                                                            refl,
                                                            (
                                                            refl,
                                                            (
                                                            refl,
                                                            (
                                                            refl,
                                                            (
                                                            refl,
                                                            (
                                                            refl,
                                                            (
                                                            refl,
                                                            (
                                                            refl,
                                                            (refl, (refl, (refl, (refl, tt)))),
                                                            ),
                                                            ),
                                                            ),
                                                            ),
                                                            ),
                                                            ),
                                                            ),
                                                            ),
                                                            ),
                                                            ),
                                                            ),
                                                            ),
                                                            ),
                                                            ),
                                                            ),
                                                            ),
                                                            ),
                                                            ),
                                                            ),
                                                          ),
                                                        ),
                                                      ),
                                                    ),
                                                  ),
                                                ),
                                              ),
                                            ),
                                          ),
                                        ),
                                      ),
                                    ),
                                  ),
                                ),
                              ),
                            ),
                          ),
                        ),
                      ),
                    ),
                  ),
                ),
              ),
            ),
          ),
        ),
      ),
    ),
  ),
)

is_key_word-text :
    (k : KeyWordKind) (s : Bytes) → key_word_to_string k ≡ some s → is_key_word s ≡ some k
unfolding key_word_to_string is_key_word
is_key_word-text kw_as s h = subst (λ t. is_key_word t ≡ some kw_as) (some-injective _ _ h) refl
is_key_word-text kw_macro_rules s h = cc
is_key_word-text k s h = subst (λ t. is_key_word t ≡ some k) (some-injective _ _ h) refl

-- `isKeyWord` finds a keyword for a text exactly when `KeyWord2String` prints that keyword as
-- that text.
pub is_key_word_iff :
    (s : Bytes) (k : KeyWordKind) → (is_key_word s ≡ some k) ↔ (key_word_to_string k ≡ some s)
unfolding is_key_word
is_key_word_iff s k = (find_text-All Spells kw s kw-Spells, is_key_word-text k s)
