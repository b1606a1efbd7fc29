-- ===== src/Toml/Lex/Completes.antt =====
-- The loop of `tryLexToml` comes to its end.
use mlir_rustc.Prelude.{
  ℕ, zero, suc, ◌≤◌, ◌<◌, ◌==◌, [], ◌∷◌, ◌++◌, Option, none, some, Bytes, length, length-drop, drop,
  ok, exited, ◌>>=◌, ◌≡◌, refl, arith, Settles, Settles-bind, Settles-if, Settles-mono, Ends,
}
use mlir_rustc.Toml.Values.{TomlKind, identifier, string, integer}
use mlir_rustc.Toml.Lex

after_newline-Ends : (rest line : Bytes) → Ends (Lex.after_newline rest line)
after_newline-Ends rest [] = tt
after_newline-Ends rest (d ∷ line) = tt

consume-Ends : (rest line : Bytes) → Ends (Lex.consume_rest_of_line rest line)
unfolding Lex.consume_rest_of_line
consume-Ends rest [] = tt
consume-Ends rest (c ∷ line) =
    Settles-if (λ _. Unit {0}) (c == 10) (Lex.after_newline rest line) _
      (λ _. after_newline-Ends rest line) (λ _. consume-Ends (rest ++ c ∷ []) line)

-- What is left is shorter than `view`.
abbrev Shorter : Bytes → Lex.TomlState → Type 0
Shorter view t = length t.toml < length view

lex_sign-Shorter :
    (s : Lex.TomlState) (c : ℕ) (line : Bytes) (o : Option TomlKind)
    → s.toml ≡ c ∷ line
    → Settles (Shorter (c ∷ line)) (Lex.lex_sign s c o)
lex_sign-Shorter s c line (some k) e = rw e (omega arith)
lex_sign-Shorter s c line none e =
    Settles-if (Shorter (c ∷ line)) (Lex.is_blank c) (ok (record s { toml = drop 1 s.toml })) exited
      (λ _. rw e (omega arith)) (λ _. tt)

lex_rest-Shorter :
    (s : Lex.TomlState) (view : Bytes)
    → s.toml ≡ view
    → Settles (Shorter view) (Lex.lex_rest s view)
unfolding Lex.lex_rest
lex_rest-Shorter s [] e = tt
lex_rest-Shorter s (c ∷ line) e =
    Settles-if (Shorter (c ∷ line)) (c == b'#') _ (Lex.lex_sign s c (Lex.sign c))
      (λ _.
        Settles-bind (λ _. Unit {0}) (Shorter (c ∷ line)) (Lex.consume_rest_of_line [] line)
          (λ rest. ok (record s { toml = drop (length rest) line })) (consume-Ends [] line)
          (λ rest _. omega (arith, length-drop (length rest) line)))
      (λ _. lex_sign-Shorter s c line (Lex.sign c) e)

scanned-shorter :
    (k : TomlKind) (o : Option Bytes) (s : Lex.TomlState)
    → length (Lex.scanned k o s).toml ≤ length s.toml
scanned-shorter k none s = omega arith
scanned-shorter k (some text) s = omega (arith, length-drop (length text) s.toml)

toml_round-Shorter : (s : Lex.TomlState) → Settles (Shorter s.toml) (Lex.toml_round s)
unfolding Lex.toml_round
toml_round-Shorter s =
    let s1 = Lex.scanned identifier (Lex.try_lex_key s.toml) s in
    let s2 = Lex.scanned string (Lex.try_lex_string s1.toml) s1 in
    let s3 = Lex.scanned integer (Lex.try_lex_integer s2.toml) s2 in
    Settles-mono (Shorter s3.toml) (Shorter s.toml) (Lex.lex_rest s3 s3.toml)
      (lex_rest-Shorter s3 s3.toml refl)
      (λ t h. omega (
        arith,
        h,
        scanned-shorter identifier (Lex.try_lex_key s.toml) s,
        scanned-shorter string (Lex.try_lex_string s1.toml) s1,
        scanned-shorter integer (Lex.try_lex_integer s2.toml) s2,
      ))

toml_loop-Ends : (f : ℕ) (s : Lex.TomlState) → length s.toml < f → Ends (Lex.toml_loop f s)
unfolding Lex.toml_loop
toml_loop-Ends zero s h = absurd (omega arith)
toml_loop-Ends (suc f) s h =
    elim s.toml
      as (λ v.
        Ends
          (elim v [ [] ↦ ok s.tokens | c ∷ rest ↦ Lex.toml_round s >>= λ t. Lex.toml_loop f t ])) [
            | [] ↦ tt
            | c ∷ rest ↦
                Settles-bind (Shorter s.toml) (λ _. Unit {0}) (Lex.toml_round s)
                  (λ t. Lex.toml_loop f t) (toml_round-Shorter s)
                  (λ t k. toml_loop-Ends f t (omega (arith, h, k)))
          ]

-- The lexer of TOML ends on every text: it returns tokens, exits, or reads past the end of the text;
-- no loop runs on and the fuel of one round for each byte and one more is enough.
pub try_lex_toml-Ends : (toml : Bytes) → Ends (Lex.try_lex_toml toml)
unfolding Lex.try_lex_toml
try_lex_toml-Ends toml =
    toml_loop-Ends (suc (length toml)) (record { tokens = []; toml = toml }) (omega arith)
