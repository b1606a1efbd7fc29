-- ===== src/Prelude/Runs.antt =====
-- How a run of C++ code ends, and the monad of such runs.
use mathlib.Core.Path.{◌≡◌, refl, subst}
use mathlib.Core.Bool.{Bool, true, false}
use mlir_rustc.Prelude.Tests.{if◌then◌else◌}

-- `exited` is a call of `exit(EXIT_FAILURE)`, `aborted` a failed `assert` or an exception that
-- nothing catches, `undefined` undefined behaviour such as a read past the end of a view, `diverges` a
-- loop whose round leaves its state as it was; `out_of_fuel` has no counterpart in the program.
pub data Outcome {ℓ} (A : Type ℓ) : Type ℓ where
  ok : A → Outcome A
  exited aborted undefined diverges out_of_fuel : Outcome A

infixl 5 ◌>>=◌ ◌>>◌
abbrev pub ◌>>=◌ {ℓ κ} : {A : Type ℓ} {B : Type κ} → Outcome A → (A → Outcome B) → Outcome B
ok a >>= f = f a
exited >>= f = exited
aborted >>= f = aborted
undefined >>= f = undefined
diverges >>= f = diverges
out_of_fuel >>= f = out_of_fuel

abbrev pub ◌>>◌ {ℓ} : {B : Type ℓ} → Outcome (Unit {0}) → Outcome B → Outcome B
m >> k = m >>= λ _. k

-- `assert(b)`.
abbrev pub assert : Bool → Outcome (Unit {0})
assert true = ok tt
assert false = aborted

-- `a && b`: the second test runs only if the first one holds.
infixr 35 ◌and_then◌
abbrev pub ◌and_then◌ : Outcome Bool → Outcome Bool → Outcome Bool
a and_then b = elim a [
  | ok x ↦ elim x [ true ↦ b | false ↦ ok false ]
  | exited ↦ exited
  | aborted ↦ aborted
  | undefined ↦ undefined
  | diverges ↦ diverges
  | out_of_fuel ↦ out_of_fuel
]

-- The run ends, without a failed assertion, and `P` holds of its result if it has one.
abbrev pub Settles {ℓ} : {A : Type ℓ} → (A → Type 0) → Outcome A → Type 0
Settles P (ok a) = P a
Settles P exited = Unit
Settles P undefined = Unit
Settles P _ = ⊥

module _ {ℓ} {A : Type ℓ} (P : A → Type 0) where
  pub Settles-bind {κ} :
      {B : Type κ} (Q : B → Type 0) (m : Outcome A) (f : A → Outcome B)
      → Settles P m
      → ((a : A) → P a → Settles Q (f a))
      → Settles Q (m >>= f)
  Settles-bind Q (ok a) f h k = k a h
  Settles-bind Q exited f h k = tt
  Settles-bind Q undefined f h k = tt
  Settles-bind Q aborted f h k = absurd h
  Settles-bind Q diverges f h k = absurd h
  Settles-bind Q out_of_fuel f h k = absurd h

  pub Settles-ok : (m : Outcome A) {a : A} → Settles P m → m ≡ ok a → P a
  Settles-ok (ok b) h e = subst P (cc) h
  Settles-ok exited h e = cc
  Settles-ok _ h e = cc

  pub Settles-mono :
      (Q : A → Type 0) (m : Outcome A) → Settles P m → ((a : A) → P a → Q a) → Settles Q m
  Settles-mono Q (ok a) h k = k a h
  Settles-mono Q exited h k = tt
  Settles-mono Q undefined h k = tt
  Settles-mono Q aborted h k = absurd h
  Settles-mono Q diverges h k = absurd h
  Settles-mono Q out_of_fuel h k = absurd h

  pub Settles-if :
      (b : Bool) (x y : Outcome A)
      → (b ≡ true → Settles P x)
      → (b ≡ false → Settles P y)
      → Settles P (if b then x else y)
  Settles-if true x y hx hy = hx refl
  Settles-if false x y hx hy = hy refl

-- No assertion fails and no loop runs on.
abbrev pub Ends {ℓ} : {A : Type ℓ} → Outcome A → Type 0
Ends m = Settles (λ _. Unit {0}) m

pub and_then-Ends : (a b : Outcome Bool) → Ends a → Ends b → Ends (a and_then b)
and_then-Ends (ok true) b h k = k
and_then-Ends (ok false) b h k = tt
and_then-Ends exited b h k = tt
and_then-Ends undefined b h k = tt
and_then-Ends aborted b h k = absurd h
and_then-Ends diverges b h k = absurd h
and_then-Ends out_of_fuel b h k = absurd h

-- The run returns.
abbrev pub IsOk {ℓ} : {A : Type ℓ} → Outcome A → Type 0
IsOk (ok _) = Unit
IsOk _ = ⊥

pub IsOk-ok {ℓ} : {A : Type ℓ} (m : Outcome A) → IsOk m → (a : A) × (m ≡ ok a)
IsOk-ok (ok a) h = (a, refl)
IsOk-ok exited h = absurd h
IsOk-ok aborted h = absurd h
IsOk-ok undefined h = absurd h
IsOk-ok diverges h = absurd h
IsOk-ok out_of_fuel h = absurd h

-- The second test matters only where the first one holds.
pub and_then-IsOk : (a b : Outcome Bool) → IsOk a → (a ≡ ok true → IsOk b) → IsOk (a and_then b)
and_then-IsOk (ok true) b h k = k refl
and_then-IsOk (ok false) b h k = tt
and_then-IsOk exited b h k = absurd h
and_then-IsOk aborted b h k = absurd h
and_then-IsOk undefined b h k = absurd h
and_then-IsOk diverges b h k = absurd h
and_then-IsOk out_of_fuel b h k = absurd h

pub and_then-true : (a b : Outcome Bool) → a ≡ ok true → b ≡ ok true → (a and_then b) ≡ ok true
and_then-true a b h k = rw (h, k)

pub ok-injective {ℓ} : {A : Type ℓ} {a b : A} → Outcome.ok a ≡ ok b → a ≡ b
ok-injective h = cc

-- A run that goes on after another: where the first one came to.
pub record Ran {ℓ κ} {A : Type ℓ} {B : Type κ} (m : Outcome A) (f : A → Outcome B) (b : B)
    : Type (ℓ ⊔ κ) where
  pub first : A
  pub runs : m ≡ ok first
  pub goes_on : f first ≡ ok b

pub >>=-Ran {ℓ κ} :
    {A : Type ℓ} {B : Type κ} (m : Outcome A) (f : A → Outcome B) (b : B)
    → (m >>= f) ≡ ok b
    → Ran m f b
>>=-Ran (ok a) f b e = record { first = a; runs = refl; goes_on = e }
>>=-Ran exited f b e = cc
>>=-Ran _ f b e = cc
