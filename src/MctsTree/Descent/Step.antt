-- ===== src/MctsTree/Descent/Step.antt =====
-- One step of the descent: the marks that it leaves on the node, and the step that fails.
mod Tests
use estar_go.Base.{
  ℕ, zero, suc, ◌+◌, ◌≡◌, ◌≢◌, refl, sym, ap, ◌∙◌, ◌⊎◌, inl, inr, Bool, true, false, not, ◌&&◌,
  List, [], ◌∷◌, Option, none, some, arith, if◌then◌else◌, ◌==◌, get_elem?, Result, ok, err, OnOk,
  OnOk-trivial, OnOk-map, OnOk-bind, ◌>>=◌, Bool-cases, Option-cases, null_pointer, length,
}
use estar_go.Base.Int.{ℤ, pos, negsuc, ◌-ℤ◌}
use estar_go.Base.Floats.{Floats}
use estar_go.GoBoard.{Pachi, GoBoard, apply_move}
use estar_go.MctsTree.{Node, Edge, Tree, node_at, edge_of, modify, with_edge}
use estar_go.MctsTree.Store.{contains, get_elem?-modify, map_some}
use estar_go.MctsTree.Descent.{
  Choice, choose, no_choice, exploration, marked, lend, Selected, descend, father_values,
  select_step, select_path,
}
use estar_go.MctsTree.Descent.Choose.{Verdict, Scored, choose-Verdict, IsRepeated}
use estar_go.MctsTree.Descent.Marks.{IsPlayer, Justified, marked-Justified}

module _ (fl : Floats) (pachi : Pachi) where
  open fl use {F, of_int}

  -- The node `i` of the tree is over just as `nd` is.
  abbrev SameMarks : Tree fl → ℕ → Node fl → Type 0
  SameMarks t i nd =
      (nd' : Node fl) × (get_elem? t i ≡ some nd')
      × (nd'.is_terminate ≡ nd.is_terminate)
      × (nd'.result ≡ nd.result)

  modify-SameMarks :
      (t : Tree fl) (i k : ℕ) (nd : Node fl) (f : Edge fl → Edge fl)
      → get_elem? t i ≡ some nd
      → SameMarks (modify fl k (with_edge fl f) t) i nd
  modify-SameMarks t i k nd f g = elim (Bool-cases (k == i)) [
    | inl e ↦ (
      with_edge fl f nd,
      get_elem?-modify fl k i (with_edge fl f) t ∙ rw (e, g),
      ground arith,
      ground arith,
    )
    | inr e ↦ (nd, get_elem?-modify fl k i (with_edge fl f) t ∙ rw (e, g), refl, refl)
  ]

  descend-SameMarks :
      (t : Tree fl) (i best : ℕ) (nd : Node fl) (vl : ℤ) (state : GoBoard pachi)
      → get_elem? t i ≡ some nd
      → OnOk (λ d. SameMarks d.0 i nd) (descend fl pachi t best vl state)
  unfolding descend
  descend-SameMarks t i best nd vl state g =
      OnOk-bind (λ b. Unit {0}) (λ d. SameMarks d.0 i nd) (node_at fl t best) _
        (OnOk-trivial (node_at fl t best))
        λ b x.
          OnOk-bind (λ e. Unit {0}) (λ d. SameMarks d.0 i nd) (edge_of fl b) _
            (OnOk-trivial (edge_of fl b))
            λ e y. elim (Bool-cases (apply_move pachi state e.action).0) [
              | inl q ↦ rw q (modify-SameMarks t i best nd (lend fl vl) g)
              | inr q ↦ rw q tt
            ]

  Justified-SameMarks :
      (t : Tree fl) (max : ℤ) (kids : List ℕ) (nd nd' : Node fl)
      → nd'.is_terminate ≡ nd.is_terminate
      → nd'.result ≡ nd.result
      → Justified fl t max kids nd
      → Justified fl t max kids nd'
  Justified-SameMarks t max kids nd nd' a b (inl u) = inl (a ∙ u)
  Justified-SameMarks t max kids nd nd' a b (inr (inl (r, w))) = inr (inl (b ∙ r, w))
  Justified-SameMarks t max kids nd nd' a b (inr (inr (r, w))) = inr (inr (b ∙ r, w))

  -- The father's values that a step passes to the scores.
  abbrev pub values : Node fl → F × F
  values cur = father_values fl pachi (of_int (pos 0)) cur

  abbrev pub Scores : Tree fl → Node fl → F → ℤ → Type 0
  Scores t cur c_puct max =
      Scored fl t (exploration fl c_puct cur) max (values cur).0 (values cur).1

  abbrev pub step : Selected fl pachi → ℤ → F → ℤ → Result (Bool × Selected fl pachi)
  step = select_step fl pachi (λ n. false) (λ nd. of_int (pos 0)) (λ s. err null_pointer)

  abbrev Goal : Selected fl pachi → ℤ → List ℕ → Bool × Selected fl pachi → Type 0
  Goal s max kids r =
      (nd : Node fl) × (get_elem? r.1.tree s.leaf ≡ some nd) × Justified fl s.tree max kids nd

  -- The part of a step behind the choice.
  after_choice :
      (s : Selected fl pachi) (vl : ℤ) (max : ℤ) (cur : Node fl) (kids : List ℕ) (ch : Choice fl)
      (best : ℕ)
      → IsPlayer max
      → get_elem? s.tree s.leaf ≡ some cur
      → cur.is_terminate ≡ false
      → Verdict fl s.tree
          (λ m. false)
          (of_int (pos 0))
          max
          (of_int (pos 0))
          (of_int (pos 0))
          kids
          ch
      → ch.best ≡ some best
      → OnOk (Goal s max kids) (
          node_at fl s.tree best >>= λ nd.
          descend fl pachi (marked fl s.tree s.leaf max ch.is_won nd) best vl s.state >>= λ d. ok (
            true,
            record {
              leaf = best;
              tree = d.0;
              state = d.1;
              select_depth = s.select_depth + 1;
              visit_num = s.visit_num + length kids;
              score_num = ch.score_num;
            },
          ))
  unfolding node_at
  after_choice s vl max cur kids ch best p g u v e = elim (Option-cases (get_elem? s.tree best)) [
    | inl none' ↦ rw (none', node_at) tt
    | inr (b, gb) ↦
        let (nd, gn, j) = marked-Justified fl s.tree max kids s.leaf best cur b ch p g u e gb v in
        rw (gb, node_at)
          (OnOk-bind (λ d. SameMarks d.0 s.leaf nd) (Goal s max kids) _ _
            (descend-SameMarks (marked fl s.tree s.leaf max ch.is_won b) s.leaf best nd vl s.state
              gn)
            λ d (nd', g', t', r'). (nd', g', Justified-SameMarks s.tree max kids nd nd' t' r' j))
  ]

  -- A node that is not over before a step of mcts_select_path is marked rightly by it: if it is over
  -- behind it, it is won by one of its children, or lost with each of its children a repetition or
  -- over and not won. The scores exceed the loop's starting value -1e8.
  pub select_step-Justified :
      (s : Selected fl pachi) (vl : ℤ) (c_puct : F) (max : ℤ) (cur : Node fl) (kids : List ℕ)
      → IsPlayer max
      → get_elem? s.tree s.leaf ≡ some cur
      → cur.is_terminate ≡ false
      → cur.nexts ≡ some kids
      → Scores s.tree cur c_puct max
      → OnOk
          (λ r.
            (nd : Node fl) × (get_elem? r.1.tree s.leaf ≡ some nd)
            × Justified fl s.tree max kids nd)
          (step s vl c_puct max)
  unfolding select_step node_at
  select_step-Justified s vl c_puct max cur [] p g u n high =
      let a : node_at fl s.tree s.leaf ≡ ok cur = rw (g, node_at) in
      rw (a, n)
        (elim (Bool-cases (cur.eval_ready && not cur.is_terminate)) [
          | inl r ↦ rw r (cur, g, inl u)
          | inr r ↦ rw r (cur, g, inl u)
        ])
  select_step-Justified s vl c_puct max cur (k ∷ ks) p g u n high =
      let a : node_at fl s.tree s.leaf ≡ ok cur = rw (g, node_at) in
      rw (a, n)
        (elim (Bool-cases (cur.eval_ready && not cur.is_terminate)) [
          | inl r ↦ rw r (
              OnOk-bind
                (Verdict fl s.tree (λ m. false) (of_int (pos 0)) max (of_int (pos 0))
                  (of_int (pos 0)) (k ∷ ks))
                (Goal s max (k ∷ ks)) _ _
                (choose-Verdict fl s.tree (λ m. false) _ max _ _ (λ m. refl) high (k ∷ ks)
                  (no_choice fl s.score_num) refl refl)
                λ ch v. elim (Option-cases ch.best) [
                  | inl e ↦ rw e tt
                  | inr (best, e) ↦ rw e (after_choice s vl max cur (k ∷ ks) ch best p g u v e)
                ])
          | inr r ↦ rw r (cur, g, inl u)
        ])

  -- Each child is marked as the repetition of a position.
  abbrev pub AllRepeated : Tree fl → List ℕ → Type 0
  AllRepeated t [] = Unit {0}
  AllRepeated t (k ∷ ks) =
      ((nd : Node fl) × (get_elem? t k ≡ some nd) × IsRepeated fl t nd) × AllRepeated t ks

  choose-AllRepeated :
      (t : Tree fl) (pruned : ℕ → Bool) (c : F) (max : ℤ) (fa_w fa_n : F) (kids : List ℕ)
      (ch : Choice fl)
      → AllRepeated t kids
      → choose fl t pruned c max fa_w fa_n kids ch ≡ ok ch
  unfolding choose node_at
  choose-AllRepeated t pruned c max fa_w fa_n [] ch h = refl
  choose-AllRepeated t pruned c max fa_w fa_n (k ∷ ks) ch ((nd, g, (a, b)), h) =
      rw (g, node_at, a, b) (choose-AllRepeated t pruned c max fa_w fa_n ks ch h)

  -- mcts_select_path dereferences a null best child at every evaluated node, not over, whose children
  -- are all marked as repetitions.
  pub select_path-AllRepeated :
      (fuel : ℕ) (s : Selected fl pachi) (vl : ℤ) (c_puct : F) (max : ℤ) (cur : Node fl) (k : ℕ)
      (ks : List ℕ)
      → get_elem? s.tree s.leaf ≡ some cur
      → cur.eval_ready ≡ true
      → cur.is_terminate ≡ false
      → cur.nexts ≡ some (k ∷ ks)
      → AllRepeated s.tree (k ∷ ks)
      → select_path fl pachi (suc fuel) s vl c_puct max ≡ err null_pointer
  unfolding select_path select_step node_at
  select_path-AllRepeated fuel s vl c_puct max cur k ks g r u n h = rw (
    g,
    node_at,
    r,
    u,
    n,
    choose-AllRepeated s.tree (λ m. false) (exploration fl c_puct cur) max (values cur).0
        (values cur).1 (k ∷ ks) (no_choice fl s.score_num) h,
  )
