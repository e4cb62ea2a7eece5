-- ===== src/MctsTree/Descent/Marks.antt =====
-- The marks that a step of the descent puts on the node that it leaves.
use estar_go.Base.{
  ℕ, ◌≡◌, ◌≢◌, refl, sym, ap, ◌∙◌, ◌⊎◌, inl, inr, Bool, true, false, ◌&&◌, List, Option, none, some,
  arith, get_elem?, Bool-cases,
}
use estar_go.Base.Int.{ℤ, pos, negsuc, ◌-ℤ◌, eqb_ℤ}
use estar_go.Base.Floats.{Floats}
use estar_go.MctsTree.{Node, Tree}
use estar_go.MctsTree.Store.{contains, get_elem?-modify_self}
use estar_go.MctsTree.Descent.{Choice, marked, won}
use estar_go.MctsTree.Descent.Choose.{WinsFor, AllSettled, Outcome, IsLive}

-- The player to move: 1 or -1.
abbrev pub IsPlayer : ℤ → Type 0
IsPlayer max = (max ≡ pos 1) ⊎ (max ≡ negsuc 0)

opponent_ne : (max : ℤ) → IsPlayer max → max ≢ pos 0 -ℤ max
unfolding ◌-ℤ◌
opponent_ne max h = ground arith

not_opponent :
    (over : Bool) (r max : ℤ) → IsPlayer max → r ≡ max → (over && eqb_ℤ r (pos 0 -ℤ max)) ≡ false
unfolding ◌-ℤ◌
not_opponent over r max p h = ground arith

live_node :
    (fl : Floats) (t : Tree fl) (o : Option ℕ) (best : ℕ) (b : Node fl)
    → o ≡ some best
    → get_elem? t best ≡ some b
    → IsLive fl t o
    → b.is_terminate ≡ false
live_node fl t none best b e g l = absurd l
live_node fl t (some k) best b e g (nd, gk, u) = ground arith

same_node :
    (fl : Floats) (t : Tree fl) (i j : ℕ) (a b : Node fl)
    → ◌≡◌ {A = Option ℕ} (some i) (some j)
    → get_elem? t i ≡ some a
    → get_elem? t j ≡ some b
    → a ≡ b
same_node fl t i j a b e ga gb = cc

module _ (fl : Floats) (t : Tree fl) (max : ℤ) (kids : List ℕ) where
  -- One of the children wins for the player.
  abbrev pub WonByChild : Type 0
  WonByChild = (k : ℕ) × (contains kids k ≡ true) × WinsFor fl t max k

  -- The node is not over, or it is won by a winning child, or lost with all its children settled.
  abbrev pub Justified : Node fl → Type 0
  Justified nd =
      (nd.is_terminate ≡ false)
      ⊎ (nd.result ≡ max) × WonByChild
      ⊎ (nd.result ≡ pos 0 -ℤ max) × AllSettled fl t max kids

  -- `marked` with the best child of a verdict.
  pub marked-Justified :
      (cur best : ℕ) (nd b : Node fl) (ch : Choice fl)
      → IsPlayer max
      → get_elem? t cur ≡ some nd
      → nd.is_terminate ≡ false
      → ch.best ≡ some best
      → get_elem? t best ≡ some b
      → Outcome fl t max kids ch ⊎ (ch.is_won ≡ false) × AllSettled fl t max kids
      → (nd' : Node fl) × (get_elem? (marked fl t cur max ch.is_won b) cur ≡ some nd')
        × Justified nd'
  unfolding marked
  marked-Justified cur best nd b ch p g u eb gb (inl (inl (w, k, bk, m, (kn, gk, tk, rk)))) =
      let same : b ≡ kn = same_node fl t best k b kn (sym eb ∙ bk) gb gk in
      let r : b.result ≡ max = ap (λ (x : Node fl). x.result) same ∙ rk in
      let off : (b.is_terminate && eqb_ℤ b.result (pos 0 -ℤ max)) ≡ false =
        not_opponent b.is_terminate b.result max p r in
      rw (w, off)
        (
          won fl max nd,
          get_elem?-modify_self fl cur (won fl max) t nd g,
          inr (inl (refl, (k, m, (kn, gk, tk, rk)))),
        )
  marked-Justified cur best nd b ch p g u eb gb (inl (inr (w, live))) =
      let open' : b.is_terminate ≡ false = live_node fl t ch.best best b eb gb live in
      rw (w, open') (nd, g, inl u)
  marked-Justified cur best nd b ch p g u eb gb (inr (w, a)) =
      elim (Bool-cases (b.is_terminate && eqb_ℤ b.result (pos 0 -ℤ max))) [
        | inl h ↦
            rw (w, h)
              (
                won fl (pos 0 -ℤ max) nd,
                get_elem?-modify_self fl cur (won fl (pos 0 -ℤ max)) t nd g,
                inr (inr (refl, a)),
              )
        | inr h ↦ rw (w, h) (nd, g, inl u)
      ]
