-- ===== src/MctsTree/Descent/Order.antt =====
-- The order of the store, for the marks and the choice of a child in src/MCTSTree.cpp.
use estar_go.Base.{
  ℕ, zero, suc, ◌≡◌, ◌≢◌, ◌<◌, refl, sym, ap, ◌∙◌, inl, inr, Bool, true, false, ◌&&◌, List, [], ◌∷◌,
  Option, none, some, Result, ok, err, hung, null_pointer, exited, ◌>>=◌, Bool-cases, if◌then◌else◌,
  get_elem?, length, arith, ◌==◌,
}
use estar_go.Base.Int.{ℤ, pos, ◌-ℤ◌, eqb_ℤ}
use estar_go.Base.Floats.{Floats}
use estar_go.MctsTree.{Node, Edge, Tree, node_at, modify, score}
use estar_go.MctsTree.Store.{contains, map_some, get_elem?-modify, length-modify}
use estar_go.MctsTree.Descent.{Choice, choose, marked, won}
use estar_go.MctsTree.Descent.Choose.{choose-elim, scored, keep}

-- A call that returns a value with P, or fails otherwise than by the end of the fuel.
abbrev pub Ends {ℓ} : {A : Type ℓ} → (A → Type 0) → Result A → Type 0
Ends P (ok a) = P a
Ends P (err e) = e ≢ hung

pub Ends-bind {ℓ κ} :
    {A : Type ℓ} {B : Type κ} (P : A → Type 0) (Q : B → Type 0) (m : Result A) (f : A → Result B)
    → Ends P m
    → ((a : A) → P a → Ends Q (f a))
    → Ends Q (m >>= f)
Ends-bind P Q (ok a) f h k = k a h
Ends-bind P Q (err e) f h k = h

pub Ends-map {ℓ} :
    {A : Type ℓ} (P Q : A → Type 0) (r : Result A) → ((a : A) → P a → Q a) → Ends P r → Ends Q r
Ends-map P Q (ok a) f h = f a h
Ends-map P Q (err e) f h = h

pub null_ne_hung : null_pointer ≢ hung
null_ne_hung h = ground arith

pub exited_ne_hung : exited ≢ hung
exited_ne_hung h = ground arith

module _ (fl : Floats) where
  pub node_at-Ends :
      (t : Tree fl) (i : ℕ)
      → Ends (λ nd. (get_elem? t i ≡ some nd) × (i < length t)) (node_at fl t i)
  unfolding node_at
  node_at-Ends [] i = null_ne_hung
  node_at-Ends (nd ∷ t) zero = (refl, omega arith)
  node_at-Ends (nd ∷ t) (suc i) =
      Ends-map (λ x. (get_elem? t i ≡ some x) × (i < length t)) _ (node_at fl t i)
        (λ x (g, l). (g, omega (arith, l))) (node_at-Ends t i)

  some-eq : (a b : Node fl) → ◌≡◌ {A = Option (Node fl)} (some a) (some b) → a ≡ b
  some-eq a b h = cc

  -- Children stand behind their father in the store.
  abbrev pub IsOrdered : Tree fl → Type 0
  IsOrdered t =
      (i k : ℕ) (nd : Node fl) (kids : List ℕ)
      → get_elem? t i ≡ some nd
      → nd.nexts ≡ some kids
      → contains kids k ≡ true
      → i < k

  -- A change of a node that keeps its children.
  abbrev KeepsKids : (Node fl → Node fl) → Type 0
  KeepsKids f = (nd : Node fl) → (f nd).nexts ≡ nd.nexts

  pub modify-IsOrdered :
      (t : Tree fl) (i : ℕ) (f : Node fl → Node fl)
      → KeepsKids f
      → IsOrdered t
      → IsOrdered (modify fl i f t)
  modify-IsOrdered t i f keeps o j k nd kids g e c = elim (Bool-cases (i == j)) [
    | inl q ↦ at_self (get_elem? t j) refl (sym g ∙ get_elem?-modify fl i j f t ∙ rw q refl)
    | inr q ↦ o j k nd kids (sym (get_elem?-modify fl i j f t ∙ rw q refl) ∙ g) e c
  ]
    where
      at_self : (x : Option (Node fl)) → x ≡ get_elem? t j → some nd ≡ map_some f x → j < k
      at_self none q h = absurd (ground arith)
      at_self (some y) q h =
          o j k y kids (sym q)
            (sym (keeps y) ∙ sym (ap (λ (z : Node fl). z.nexts) (some-eq nd (f y) h)) ∙ e) c

  pub marked-IsOrdered :
      (t : Tree fl) (cur : ℕ) (max : ℤ) (w : Bool) (best : Node fl)
      → IsOrdered t
      → IsOrdered (marked fl t cur max w best) × (length (marked fl t cur max w best) ≡ length t)
  unfolding marked
  marked-IsOrdered t cur max w best o =
      let first = both t w max o in
      let second =
        both (if w then modify fl cur (won fl max) t else t)
          (best.is_terminate && eqb_ℤ best.result (pos 0 -ℤ max)) (pos 0 -ℤ max) first.0 in
      (second.0, second.1 ∙ first.1)
    where
      both :
          (u : Tree fl) (b : Bool) (m : ℤ)
          → IsOrdered u
          → IsOrdered (if b then modify fl cur (won fl m) u else u)
            × (length (if b then modify fl cur (won fl m) u else u) ≡ length u)
      both u true m h =
          (modify-IsOrdered u cur (won fl m) (λ x. refl) h, length-modify fl cur (won fl m) u)
      both u false m h = (h, refl)

  module _ (t : Tree fl) (pruned : ℕ → Bool) (c : fl.F) (max : ℤ) (fa_w fa_n : fl.F)
      (kids : List ℕ) where
    abbrev pub In : Option ℕ → Type 0
    In none = Unit {0}
    In (some k) = contains kids k ≡ true

    abbrev InKids : Choice fl → Type 0
    InKids ch = In ch.best

    abbrev Among : List ℕ → Type 0
    Among ks = (j : ℕ) → contains ks j ≡ true → contains kids j ≡ true

    Among-head : (k : ℕ) (ks : List ℕ) → Among (k ∷ ks) → contains kids k ≡ true
    unfolding contains
    Among-head k ks a = a k (ground arith)

    Among-tail : (k : ℕ) (ks : List ℕ) → Among (k ∷ ks) → Among ks
    unfolding contains
    Among-tail k ks a j h = a j (ground arith)

    first_of :
        (o : Option ℕ) (k : ℕ)
        → contains kids k ≡ true
        → In o
        → In (elim o [ none ↦ some k | some j ↦ some j ])
    first_of none k m h = m
    first_of (some j) k m h = h

    scored-InKids :
        (s : Choice fl) (k : ℕ) (e : Edge fl)
        → contains kids k ≡ true
        → InKids s
        → InKids (scored fl t pruned c max fa_w fa_n s k e)
    scored-InKids s k e m h =
        elim (Bool-cases (fl.less s.best_score (score fl e c max fa_w fa_n))) [
          | inl b ↦ rw b m
          | inr b ↦ rw b h
        ]

    pub choose-Ends :
        (ks : List ℕ) (s : Choice fl)
        → Among ks
        → InKids s
        → Ends InKids (choose fl t pruned c max fa_w fa_n ks s)
    choose-Ends [] s a h = unfold choose in h
    choose-Ends (k ∷ ks) s a h =
        let m = Among-head k ks a in
        let a' = Among-tail k ks a in
        choose-elim fl t pruned c max fa_w fa_n (Ends InKids) k ks s (λ x. null_ne_hung)
          (λ nd g r. choose-Ends ks s a' h) (λ nd g u r. m)
          (λ nd g u r.
            choose-Ends ks (keep fl t pruned c max fa_w fa_n s k) a' (first_of s.best k m h))
          (λ nd e g u n. (
            (λ q. choose-Ends ks s a' h),
            (λ q. (
              scored-InKids s k e m h,
              choose-Ends ks (scored fl t pruned c max fa_w fa_n s k e) a'
                  (scored-InKids s k e m h),
            )),
          ))
