-- ===== src/Base/Results.antt =====
-- What a call of the C++ code can end in besides a value, and the monad that carries it.

use mathlib.Core.Path.{◌≡◌, refl, subst}
use mathlib.Core.Logic.{◌⊎◌, inl, inr}
use mathlib.Core.Bool.{Bool, true, false}
use estar_go.Base.Tests.{if◌then◌else◌}

-- out_of_range: `at()` outside a container; bad_index: an unchecked access outside one;
-- null_pointer: a null dereferenced; overrun: a write behind a stack buffer; exited: `exit(1)`;
-- failed_assert: an `assert`; bad_division: an integer divided by 0;
-- uninitialised: a buffer read that nothing was written to; hung: a loop that the fuel did not see end.
pub data Error : Type 0 where
  out_of_range bad_index null_pointer overrun exited failed_assert bad_division uninitialised hung :
      Error

pub data Result {ℓ} (A : Type ℓ) : Type ℓ where
  ok : A → Result A
  err : Error → Result A

infixl 5 ◌>>=◌
abbrev pub ◌>>=◌ {ℓ κ} : {A : Type ℓ} {B : Type κ} → Result A → (A → Result B) → Result B
ok a >>= f = f a
err e >>= f = err e

pub Result-cases {ℓ} :
    {A : Type ℓ} (r : Result A) → ((a : A) × (r ≡ ok a)) ⊎ ((e : Error) × (r ≡ err e))
Result-cases (ok a) = inl (a, refl)
Result-cases (err e) = inr (e, refl)

-- What holds of the value, if there is one.
abbrev pub OnOk {ℓ κ} : {A : Type ℓ} → (A → Type κ) → Result A → Type κ
OnOk P (ok a) = P a
OnOk P (err e) = Unit

pub OnOk-ok {ℓ κ} : {A : Type ℓ} (P : A → Type κ) (r : Result A) {a : A} → OnOk P r → r ≡ ok a → P a
OnOk-ok P r h e = subst (OnOk P) e h

-- The call returns, with a value of which P holds.
abbrev pub Returns {ℓ} : {A : Type ℓ} → (A → Type 0) → Result A → Type 0
Returns P (ok a) = P a
Returns P (err e) = ⊥

pub Returns-bind {ℓ κ} :
    {A : Type ℓ} {B : Type κ} (P : A → Type 0) (Q : B → Type 0) (m : Result A) (f : A → Result B)
    → Returns P m
    → ((a : A) → P a → Returns Q (f a))
    → Returns Q (m >>= f)
Returns-bind P Q (ok a) f h k = k a h
Returns-bind P Q (err e) f h k = absurd h

pub OnOk-map {ℓ κ} :
    {A : Type ℓ} (P Q : A → Type κ) (r : Result A) → ((a : A) → P a → Q a) → OnOk P r → OnOk Q r
OnOk-map P Q (ok a) f h = f a h
OnOk-map P Q (err e) f h = tt

pub Returns-map {ℓ} :
    {A : Type ℓ} (P Q : A → Type 0) (r : Result A)
    → ((a : A) → P a → Q a)
    → Returns P r
    → Returns Q r
Returns-map P Q (ok a) f h = f a h
Returns-map P Q (err e) f h = h

pub OnOk-bind {ℓ κ} :
    {A : Type ℓ} {B : Type κ} (P : A → Type 0) (Q : B → Type 0) (m : Result A) (f : A → Result B)
    → OnOk P m
    → ((a : A) → P a → OnOk Q (f a))
    → OnOk Q (m >>= f)
OnOk-bind P Q (ok a) f h k = k a h
OnOk-bind P Q (err e) f h k = tt

pub OnOk-trivial {ℓ} : {A : Type ℓ} (r : Result A) → OnOk (λ a. Unit {0}) r
OnOk-trivial (ok a) = tt
OnOk-trivial (err e) = tt

pub OnOk-if {ℓ κ} :
    {A : Type ℓ} (P : A → Type κ) (b : Bool) (r s : Result A)
    → (b ≡ true → OnOk P r)
    → (b ≡ false → OnOk P s)
    → OnOk P (if b then r else s)
OnOk-if P true r s h k = h refl
OnOk-if P false r s h k = k refl
