-- ===== src/MctsTree/Store.antt =====
-- Reads after writes in the store of nodes.
use estar_go.Base.{
  ℕ, zero, suc, ◌≡◌, refl, ap, ◌∙◌, Bool, true, false, List, [], ◌∷◌, Option, none, some, arith,
  if◌then◌else◌, ◌==◌, get_elem?, length,
}
use estar_go.Base.Floats.{Floats}
use estar_go.MctsTree.{Node, Tree, modify}

abbrev pub map_some {ℓ κ} : {A : Type ℓ} {B : Type κ} → (A → B) → Option A → Option B
map_some f none = none
map_some f (some a) = some (f a)

unfoldable pub contains : List ℕ → ℕ → Bool
contains [] j = false
contains (i ∷ is') j = if i == j then true else contains is' j

module _ (fl : Floats) where
  pub get_elem?-modify :
      (i j : ℕ) (f : Node fl → Node fl) (t : Tree fl)
      → get_elem? (modify fl i f t) j
        ≡ (if i == j then map_some f (get_elem? t j) else get_elem? t j)
  unfolding modify
  get_elem?-modify i j f [] = ground arith
  get_elem?-modify zero zero f (nd ∷ t) = refl
  get_elem?-modify zero (suc j) f (nd ∷ t) = ground arith
  get_elem?-modify (suc i) zero f (nd ∷ t) = ground arith
  get_elem?-modify (suc i) (suc j) f (nd ∷ t) = ground (arith, get_elem?-modify i j f t)

  pub length-modify :
      (i : ℕ) (f : Node fl → Node fl) (t : Tree fl) → length (modify fl i f t) ≡ length t
  unfolding modify
  length-modify i f [] = refl
  length-modify zero f (nd ∷ t) = refl
  length-modify (suc i) f (nd ∷ t) = ap suc (length-modify i f t)

  pub get_elem?-modify_self :
      (i : ℕ) (f : Node fl → Node fl) (t : Tree fl) (nd : Node fl)
      → get_elem? t i ≡ some nd
      → get_elem? (modify fl i f t) i ≡ some (f nd)
  get_elem?-modify_self i f t nd h =
      let e : (i == i) ≡ true = ground arith in get_elem?-modify i i f t ∙ rw (e, h)
