-- ===== src/MctsTree/Descent/Loss.antt =====
-- The virtual loss over a rollout of src/MCTSTree.cpp: links and losses behind a write.
pub mod Step
pub mod Path
mod Tests
use estar_go.Base.{
  ℕ, zero, suc, ◌+◌, ◌≡◌, ◌≢◌, ◌≤◌, ◌<◌, refl, sym, ap, subst, ◌∙◌, ◌⊎◌, inl, inr, Bool, true,
  false, not, ◌&&◌, List, [], ◌∷◌, Option, none, some, Result, ok, err, OnOk, OnOk-bind, Returns,
  Returns-map, null_pointer, ◌>>=◌, Bool-cases, if◌then◌else◌, ◌==◌, get_elem?, length, arith,
}
use estar_go.Base.Int.{
  ℤ, pos, negsuc, ◌+ℤ◌, ◌-ℤ◌, ◌*ℤ◌, eqb_ℤ, ltb_ℤ, eq_of_parts, +ℤ_parts, pos_part, neg_part, sub_ℕ,
}
use estar_go.Base.Floats.{Floats}
use estar_go.GoBoard.{Pachi, GoBoard}
use estar_go.MctsTree.{Node, Edge, Tree, modify, with_edge, node_at, back_update}
use estar_go.MctsTree.Store.{contains, map_some, get_elem?-modify}
use estar_go.MctsTree.Backup.{
  IsRoot, Under, Chain, climbers, contains-climbers, KeepsLinks, Chain-modify, with_edge-KeepsLinks,
  updated, back_update-Effect,
}
use estar_go.MctsTree.Descent.{
  marked, won, lend, Selected, select_step, select_path, select_path_root, prune_threshold,
}

module _ (fl : Floats) where
  -- The virtual loss of the node's edge.
  abbrev pub edge_loss : Option (Edge fl) → Option ℤ
  edge_loss none = none
  edge_loss (some e) = some e.vl

  abbrev pub loss_of : Option (Node fl) → Option ℤ
  loss_of none = none
  loss_of (some nd) = edge_loss nd.edge

  -- The children of the nodes from `r` on hang under them.
  abbrev pub IsLinked : ℕ → Tree fl → Type 0
  IsLinked r t =
      (i k : ℕ) (nd : Node fl) (kids : List ℕ)
      → r ≤ i
      → get_elem? t i ≡ some nd
      → nd.nexts ≡ some kids
      → contains kids k ≡ true
      → Under fl t k i

  abbrev KeepsTree : (Node fl → Node fl) → Type 0
  KeepsTree f = KeepsLinks fl f × ((nd : Node fl) → (f nd).nexts ≡ nd.nexts)

  pub Under-modify :
      (t : Tree fl) (i : ℕ) (f : Node fl → Node fl) (k p : ℕ)
      → KeepsLinks fl f
      → Under fl t k p
      → Under fl (modify fl i f t) k p
  Under-modify t i f k p keeps (nd, e, g, fa, ed, lt) = elim (Bool-cases (i == k)) [
    | inl same ↦
        let (e', ed') = (keeps nd).1 e ed in
        (f nd, e', get_elem?-modify fl i k f t ∙ rw (same, g), (keeps nd).0 ∙ fa, ed', lt)
    | inr other ↦ (nd, e, get_elem?-modify fl i k f t ∙ rw (other, g), fa, ed, lt)
  ]

  some-node : (a b : Node fl) → ◌≡◌ {A = Option (Node fl)} (some a) (some b) → a ≡ b
  some-node a b h = cc

  pub modify-IsLinked :
      (r : ℕ) (t : Tree fl) (i : ℕ) (f : Node fl → Node fl)
      → KeepsTree f
      → IsLinked r t
      → IsLinked r (modify fl i f t)
  modify-IsLinked r t i f keeps o j k nd kids le g e c =
      Under-modify t i f k j keeps.0 (elim (Bool-cases (i == j)) [
        | inl q ↦ at_self (get_elem? t j) refl (sym g ∙ get_elem?-modify fl i j f t ∙ rw q refl)
        | inr q ↦ o j k nd kids le (sym (get_elem?-modify fl i j f t ∙ rw q refl) ∙ g) e c
      ])
    where
      at_self : (x : Option (Node fl)) → x ≡ get_elem? t j → some nd ≡ map_some f x → Under fl t k j
      at_self none q h = absurd (ground arith)
      at_self (some y) q h =
          o j k y kids le (sym q)
            (sym (keeps.1 y) ∙ sym (ap (λ (z : Node fl). z.nexts) (some-node nd (f y) h)) ∙ e) c

  won-KeepsTree : (m : ℤ) → KeepsTree (won fl m)
  won-KeepsTree m = ((λ nd. (refl, λ e h. (e, h))), λ nd. refl)

  pub lend-KeepsTree : (vl : ℤ) → KeepsTree (with_edge fl (lend fl vl))
  lend-KeepsTree vl = (with_edge-KeepsLinks fl (lend fl vl), λ nd. ground arith)

  -- A write that keeps the losses.
  modify-loss_of :
      (t : Tree fl) (i : ℕ) (f : Node fl → Node fl)
      → ((nd : Node fl) → edge_loss (f nd).edge ≡ edge_loss nd.edge)
      → (j : ℕ) → loss_of (get_elem? (modify fl i f t) j) ≡ loss_of (get_elem? t j)
  modify-loss_of t i f h j =
      ap loss_of (get_elem?-modify fl i j f t) ∙ on_test (i == j) (get_elem? t j)
    where
      on_test :
          (b : Bool) (o : Option (Node fl)) → loss_of (if b then map_some f o else o) ≡ loss_of o
      on_test true none = refl
      on_test true (some nd) = h nd
      on_test false o = refl

  unfoldable pub lent : Bool → ℤ → Option ℤ → Option ℤ
  lent b vl o = if b then map_some (λ x. x +ℤ vl) o else o

  pub lend-loss_of :
      (t : Tree fl) (i j : ℕ) (vl : ℤ)
      → loss_of (get_elem? (modify fl i (with_edge fl (lend fl vl)) t) j)
        ≡ lent (i == j) vl (loss_of (get_elem? t j))
  unfolding lent
  lend-loss_of t i j vl =
      ap loss_of (get_elem?-modify fl i j (with_edge fl (lend fl vl)) t)
      ∙ on_test (i == j) (get_elem? t j)
    where
      on_edge :
          (nd : Node fl) (o : Option (Edge fl))
          → nd.edge ≡ o
          → edge_loss (with_edge fl (lend fl vl) nd).edge
            ≡ map_some (λ x. x +ℤ vl) (edge_loss nd.edge)
      on_edge nd none e = rw (e, with_edge) (ap edge_loss e)
      on_edge nd (some d) e = rw (e, with_edge) refl

      on_test :
          (b : Bool) (o : Option (Node fl))
          → loss_of (if b then map_some (with_edge fl (lend fl vl)) o else o)
            ≡ (if b then map_some (λ x. x +ℤ vl) (loss_of o) else loss_of o)
      on_test true none = refl
      on_test true (some nd) = on_edge nd nd.edge refl
      on_test false o = refl

  -- The marks change no link and no loss.
  pub marked-IsLinked :
      (r : ℕ) (t : Tree fl) (cur : ℕ) (max : ℤ) (w : Bool) (best : Node fl) (fs : List ℕ) (i : ℕ)
      → IsLinked r t
      → Chain fl t i fs
      → IsLinked r (marked fl t cur max w best)
        × Chain fl (marked fl t cur max w best) i fs
        × ((j : ℕ) → loss_of (get_elem? (marked fl t cur max w best) j) ≡ loss_of (get_elem? t j))
  unfolding marked
  marked-IsLinked r t cur max w best fs i o c =
      let first = both t w max o c in
      let second =
        both (if w then modify fl cur (won fl max) t else t)
          (best.is_terminate && eqb_ℤ best.result (pos 0 -ℤ max)) (pos 0 -ℤ max) first.0 first.1 in
      (second.0, second.1, λ j. second.2 j ∙ first.2 j)
    where
      both :
          (u : Tree fl) (b : Bool) (m : ℤ)
          → IsLinked r u
          → Chain fl u i fs
          → IsLinked r (if b then modify fl cur (won fl m) u else u)
            × Chain fl (if b then modify fl cur (won fl m) u else u) i fs
            × ((j : ℕ)
                → loss_of (get_elem? (if b then modify fl cur (won fl m) u else u) j)
                  ≡ loss_of (get_elem? u j))
      both u true m h k = (
        modify-IsLinked r u cur (won fl m) (won-KeepsTree m) h,
        Chain-modify fl u cur (won fl m) i fs (won-KeepsTree m).0 k,
        modify-loss_of u cur (won fl m) (λ nd. refl),
      )
      both u false m h k = (h, k, λ j. refl)

  pub repay_lem :
      (b : Bool) (vl : ℤ) (o : Option ℤ)
      → (if b then map_some (λ x. x -ℤ pos (0 + 1) *ℤ vl) (lent b vl o) else lent b vl o) ≡ o
  unfolding lent ◌+ℤ◌ ◌-ℤ◌ ◌*ℤ◌
  repay_lem false vl o = refl
  repay_lem true vl none = refl
  repay_lem true vl (some x) = ap some (eq_of_parts _ x (ground arith))
