-- ===== src/MctsTree/SelfPlay/Answer.antt =====
-- The answer of selfplay_select_action of src/MCTSTree.cpp.
use estar_go.Base.{
  ℕ, zero, suc, ◌≡◌, ◌<◌, refl, sym, ap, ◌∙◌, subst, ◌⊎◌, inl, inr, Bool, true, false, List, [],
  ◌∷◌, none, some, Result, ok, err, Returns, Returns-bind, if◌then◌else◌, leb, get_elem?, length,
  arith, Text,
}
use estar_go.Base.Int.{ℤ, pos, eqb_ℤ}
use estar_go.Base.Floats.{Floats}
use estar_go.GoBoard.{Pachi, GoBoard, get_total_moves}
use estar_go.MctsTree.{Edge, Node, Tree, modify}
use estar_go.MctsTree.Store.{contains}
use estar_go.MctsTree.Select.{Best, no_best, no_action}
use estar_go.MctsTree.SelfPlay.{
  MctsPair, zeros, visit_sum, shares, fill, entropy, best_loop, drawn, or_pass, labelled, finish,
  selfplay_select_action,
}
use estar_go.MctsTree.SelfPlay.Labels.{
  place_of-no_action, AllEdged, node_edge, edges-AllEdged, fill-Returns, entropy-Returns,
}
use estar_go.MctsTree.SelfPlay.Chosen.{IsKid, IsGood, IsPicked, best_loop-from_start}

module _ (fl : Floats) (t : Tree fl) (kids : List ℕ) where
  open fl use {F, of_int, less}

  picked_at :
      (ks : List ℕ) (es : List (Edge fl))
      → ((j : ℕ) → contains ks j ≡ true → contains kids j ≡ true)
      → AllEdged fl t ks es
      → (i : ℕ) → i < length ks
      → (k : ℕ) × (nd : Node fl) × (e : Edge fl) × (get_elem? ks i ≡ some k)
        × (get_elem? es i ≡ some e)
        × IsKid fl t kids k nd e
  unfolding AllEdged contains
  picked_at [] es a h i l = absurd (omega arith)
  picked_at (k ∷ ks) [] a h i l = absurd h
  picked_at (k ∷ ks) (e ∷ es) a ((nd, n, u), p, h) zero l =
      (k, nd, e, refl, refl, (a k (ground arith), n, u, p))
  picked_at (k ∷ ks) (e ∷ es) a ((nd, n, u), p, h) (suc i) l =
      picked_at ks es (λ j m. a j (ground arith)) h i (omega (arith, l))

  module _ (log : F → F) (to_string : F → Text) (pachi : Pachi) (g : GoBoard pachi) (low : F) where
    drawn-IsPicked :
        (select : ℕ) (es : List (Edge fl))
        → AllEdged fl t kids es
        → select < length kids
        → Returns (IsPicked fl t kids) (drawn fl log to_string pachi t g low select kids es)
    unfolding drawn
    drawn-IsPicked select es h l =
        let (k, nd, e, p, q, i) = picked_at kids es (λ j m. m) h select l in
        rw (p, Returns) (rw (q, Returns) (k, nd, e, refl, i, refl))

    or_pass-IsPicked :
        (b : Best fl)
        → IsGood fl t kids b
        → Returns (IsPicked fl t kids) (or_pass fl log to_string pachi t g low b)
    unfolding or_pass
    or_pass-IsPicked b (inl (k, nd, e, p, i, a)) =
        let z = ap (λ x. eqb_ℤ x no_action) (sym a) ∙ place_of-no_action e.action i.3.0 i.3.1 in
        rw (z, Returns) (k, nd, e, p, i, a)
    or_pass-IsPicked b (inr (f, (k, nd, e, p, i, a))) =
        let z = ap (λ x. eqb_ℤ x no_action) f.0 in
        rw (z, Returns) (rw (p, Returns) (k, nd, e, refl, i, a))

    -- The pair names a child with its action, or a resignation where its win rate is low, and the child
    -- has lost its father, and nothing else of the tree has changed.
    abbrev pub IsAnswer : MctsPair fl × Tree fl → Type 0
    IsAnswer r =
        (nd : Node fl) × (e : Edge fl) × IsKid fl t kids r.0.node nd e
        × ((r.0.action ≡ e.action) ⊎ (r.0.action ≡ no_action) × (less r.0.win_rate low ≡ true))
        × (r.1 ≡ modify fl r.0.node (λ nd. record nd { father = none }) t)

    resigned :
        (b : Bool) (x y a : ℤ)
        → a ≡ x
        → ((if b then y else x) ≡ a) ⊎ ((if b then y else x) ≡ y) × (b ≡ true)
    resigned true x y a h = inr (refl, refl)
    resigned false x y a h = inl (sym h)

    labelled-IsAnswer :
        (o : Bool) (dis : List F) (s : F) (k : ℕ) (a : ℤ) (nd : Node fl) (e : Edge fl)
        → IsKid fl t kids k nd e
        → e.action ≡ a
        → IsAnswer (labelled fl log to_string pachi t g low o dis s k a e)
    unfolding labelled
    labelled-IsAnswer o dis s k a nd e i h = (nd, e, i, resigned _ a no_action e.action h, refl)

    finish-IsAnswer :
        (o : Bool) (dis : List F) (s : F) (b : Best fl)
        → IsPicked fl t kids b
        → Returns IsAnswer (finish fl log to_string pachi t g low o dis s b)
    unfolding finish
    finish-IsAnswer o dis s b (k, nd, e, p, i, a) =
        rw (p, Returns)
          (subst (Returns IsAnswer) (sym (node_edge fl t k nd e i.1 i.2 _))
            (labelled-IsAnswer o dis s k b.best_action nd e i a))

    chosen-IsGood :
        (b : Bool) (m n : Result (Best fl))
        → Returns (IsGood fl t kids) m
        → Returns (IsGood fl t kids) n
        → Returns (IsGood fl t kids) (if b then m else n)
    chosen-IsGood true m n h k = h
    chosen-IsGood false m n h k = k

    shares-length :
        (sum : ℕ) (ks : List ℕ) (es : List (Edge fl))
        → AllEdged fl t ks es
        → length (shares fl sum es) ≡ length ks
    unfolding AllEdged
    shares-length sum [] [] h = refl
    shares-length sum [] (e ∷ es) h = absurd h
    shares-length sum (k ∷ ks) [] h = absurd h
    shares-length sum (k ∷ ks) (e ∷ es) h = ap suc (shares-length sum ks es h.2)

    zeros-length : (n : ℕ) (a : F) → length (zeros n a) ≡ n
    zeros-length zero a = refl
    zeros-length (suc n) a = ap suc (zeros-length n a)

    is_good : (m : Result (Best fl)) → Returns (IsPicked fl t kids) m → Returns (IsGood fl t kids) m
    is_good (ok b) h = inl h
    is_good (err e) h = h

    started :
        (ks : List ℕ) (es : List (Edge fl))
        → ((j : ℕ) → contains ks j ≡ true → contains kids j ≡ true)
        → 0 < length ks
        → AllEdged fl t ks es
        → Returns (IsGood fl t kids) (best_loop fl log to_string pachi t g low ks (no_best fl))
    started [] es a l h = absurd (omega arith)
    started (k ∷ ks) es a l h = best_loop-from_start fl t kids log to_string pachi g low k ks es a h

  -- selfplay_select_action at a node that has children, each with an edge whose action is a point of the
  -- board or a pass, returns, if the draw from a distribution is one of its indexes: a child with its action,
  -- or with a resignation where its win rate is below the threshold, and the tree with the child's father
  -- reset and nothing else changed.
  pub selfplay_select_action-IsAnswer :
      (log : F → F) (to_string : F → Text) (pachi : Pachi) (g : GoBoard pachi) (low : F)
      (draw : List F → ℕ)
      → ((xs : List F) → 0 < length xs → draw xs < length xs)
      → (cur : Node fl) (is_opponent : Bool) (es : List (Edge fl)) → cur.nexts ≡ some kids
      → 0 < length kids
      → AllEdged fl t kids es
      → Returns
          (IsAnswer log to_string pachi g low)
          (selfplay_select_action fl log to_string pachi t g low draw cur is_opponent)
  unfolding selfplay_select_action
  selfplay_select_action-IsAnswer log to_string pachi g low draw range cur is_opponent es n l h =
      rw (n, Returns)
        (rw (edges-AllEdged fl t kids es h, Returns)
          (Returns-bind (λ dis. length dis ≡ 362) (IsAnswer log to_string pachi g low)
            (fill fl (visit_sum fl es) es (zeros 362 (of_int (pos 0)))) _
            (fill-Returns fl t (visit_sum fl es) kids es (zeros 362 (of_int (pos 0))) h
              (zeros-length log to_string pachi g low 362 (of_int (pos 0))))
            λ dis d.
              Returns-bind (λ s. Unit {0}) (IsAnswer log to_string pachi g low)
                (entropy fl log to_string dis es (of_int (pos 0))) _
                (entropy-Returns fl t log to_string kids es dis (of_int (pos 0)) h d)
                λ s u.
                  Returns-bind (IsGood fl t kids) (IsAnswer log to_string pachi g low) _ _
                    (chosen-IsGood log to_string pachi g low (leb 30 (get_total_moves pachi g)) _ _
                      (started log to_string pachi g low kids es (λ j m. m) l h)
                      (is_good log to_string pachi g low _ (
                        drawn-IsPicked log to_string pachi g low
                          (draw (shares fl (visit_sum fl es) es)) es h in_range)))
                    λ b0 good.
                      Returns-bind (IsPicked fl t kids) (IsAnswer log to_string pachi g low) _ _
                        (or_pass-IsPicked log to_string pachi g low b0 good)
                        λ b p. finish-IsAnswer log to_string pachi g low is_opponent dis s b p))
    where
      size : length (shares fl (visit_sum fl es) es) ≡ length kids
      size = shares-length log to_string pachi g low (visit_sum fl es) kids es h

      in_range : draw (shares fl (visit_sum fl es) es) < length kids
      in_range =
          omega (arith, range (shares fl (visit_sum fl es) es) (omega (arith, size, l)), size)
