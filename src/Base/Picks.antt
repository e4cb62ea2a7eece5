-- ===== src/Base/Picks.antt =====
-- An element taken out of a list by its number, and what holds of the elements that stay.
use Prim.Native.Nat.{ℕ, zero, suc, ◌+◌}
use mathlib.Core.Path.{◌≡◌, refl}
use mathlib.Core.Bool.{Bool, true, false}
use mathlib.Core.Option.{Option, none, some}
use mathlib.Core.List.{List, [], ◌∷◌, ◌++◌}
use native.Mathlib.Omega.{arith}
use estar_go.Base.Tests.{if◌then◌else◌}
use estar_go.Base.Lists.{length}

-- The element with the number, and the others.
unfoldable pub pick {ℓ} : {A : Type ℓ} → ℕ → List A → Option (A × List A)
pick i [] = none
pick zero (x ∷ xs) = some (x, xs)
pick (suc i) (x ∷ xs) = elim (pick i xs) [ none ↦ none | some r ↦ some (r.0, x ∷ r.1) ]

-- What holds of a state, if there is one.
abbrev pub OnSome {ℓ} : {A : Type ℓ} → (A → Type 0) → Option A → Type 0
OnSome P none = Unit {0}
OnSome P (some a) = P a

pub OnSome-if :
    {A : Type 0} (P : A → Type 0) (b : Bool) (r s : Option A)
    → (b ≡ true → OnSome P r)
    → (b ≡ false → OnSome P s)
    → OnSome P (if b then r else s)
OnSome-if P true r s h k = h refl
OnSome-if P false r s h k = k refl

-- The cases of an option with what holds of it.
pub on_option :
    {A B : Type 0} (Q : A → Type 0) (P : B → Type 0) (o : Option A) (f : A → Option B)
    → OnSome Q o
    → ((a : A) → Q a → OnSome P (f a))
    → OnSome P (elim o [ none ↦ none | some a ↦ f a ])
on_option Q P none f h k = tt
on_option Q P (some a) f h k = k a h

abbrev pub on_pick {ℓ κ} :
    {A : Type ℓ} {B : Type κ} → (A → List A → Option B) → Option (A × List A) → Option B
on_pick f none = none
on_pick f (some r) = f r.0 r.1

abbrev pub sum_by : {A : Type 0} → (A → ℕ) → List A → ℕ
sum_by f [] = 0
sum_by f (x ∷ xs) = f x + sum_by f xs

pub sum_by-append :
    {A : Type 0} (f : A → ℕ) (xs ys : List A) → sum_by f (xs ++ ys) ≡ sum_by f xs + sum_by f ys
sum_by-append f [] ys = omega arith
sum_by-append f (x ∷ xs) ys = omega (arith, sum_by-append f xs ys)

-- The list is the element and the rest, in any order.
abbrev pub IsSplit : {A : Type 0} → List A → A → List A → Type 0
IsSplit {A} xs x rest = (f : A → ℕ) → sum_by f xs ≡ f x + sum_by f rest

sum_by_one : {A : Type 0} (xs : List A) → sum_by (λ x. 1) xs ≡ length xs
sum_by_one [] = refl
sum_by_one (x ∷ xs) = omega (arith, sum_by_one xs)

pub IsSplit-length :
    {A : Type 0} (xs : List A) (x : A) (rest : List A)
    → IsSplit xs x rest
    → length xs ≡ suc (length rest)
IsSplit-length xs x rest h = omega (arith, h (λ y. 1), sum_by_one xs, sum_by_one rest)

pub pick-IsSplit : {A : Type 0} (i : ℕ) (xs : List A) → OnSome (λ r. IsSplit xs r.0 r.1) (pick i xs)
unfolding pick
pick-IsSplit i [] = tt
pick-IsSplit zero (x ∷ xs) = λ f. refl
pick-IsSplit (suc i) (x ∷ xs) =
    on_option (λ r. IsSplit xs r.0 r.1) (λ r. IsSplit (x ∷ xs) r.0 r.1) (pick i xs) _
      (pick-IsSplit i xs) λ r h f. omega (arith, h f)

-- What holds behind every element that can be picked.
pub on_pick-OnSome :
    {A B : Type 0} (P : B → Type 0) (i : ℕ) (xs : List A) (f : A → List A → Option B)
    → ((x : A) (rest : List A) → IsSplit xs x rest → OnSome P (f x rest))
    → OnSome P (on_pick f (pick i xs))
on_pick-OnSome P i xs f h = cases (pick i xs) (pick-IsSplit i xs)
  where
    cases : (o : Option (_ × List _)) → OnSome (λ r. IsSplit xs r.0 r.1) o → OnSome P (on_pick f o)
    cases none s = tt
    cases (some r) s = h r.0 r.1 s
