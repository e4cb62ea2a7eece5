-- ===== src/MctsTree/Descent/Ends.antt =====
-- The loops of mcts_select_path and mcts_select_path_root in src/MCTSTree.cpp, and their fuel.
pub mod Tests
use estar_go.Base.{
  ℕ, zero, suc, ◌+◌, ◌≡◌, ◌≢◌, ◌≤◌, ◌<◌, refl, sym, ap, ◌∙◌, ◌⊎◌, inl, inr, Bool, true, false, not,
  ◌&&◌, List, [], ◌∷◌, Option, none, some, Result, ok, err, Error, hung, null_pointer, exited,
  ◌>>=◌, Bool-cases, Option-cases, if◌then◌else◌, get_elem?, length, arith, ◌==◌,
}
use estar_go.Base.Int.{ℤ, pos, negsuc, ltb_ℤ, ◌-ℤ◌, eqb_ℤ}
use estar_go.Base.Floats.{Floats}
use estar_go.GoBoard.{Pachi, GoBoard, apply_move}
use estar_go.MctsTree.{Node, Edge, Tree, node_at, edge_of, modify, with_edge, score}
use estar_go.MctsTree.Store.{contains, map_some, get_elem?-modify, length-modify}
use estar_go.MctsTree.Descent.{
  Choice, choose, no_choice, exploration, marked, won, lend, descend, Selected, select_step,
  select_path, select_path_root, prune_threshold, father_values,
}
use estar_go.MctsTree.Descent.Choose.{choose-elim, scored, keep}
use estar_go.MctsTree.Descent.Order.{
  Ends, Ends-bind, Ends-map, null_ne_hung, exited_ne_hung, node_at-Ends, IsOrdered,
  modify-IsOrdered, marked-IsOrdered, In, choose-Ends,
}

module _ (fl : Floats) where
  edge_of-Ends : (nd : Node fl) → Ends (λ e. Unit {0}) (edge_of fl nd)
  unfolding edge_of
  edge_of-Ends nd = of_option nd.edge
    where
      of_option :
          (o : Option (Edge fl))
          → Ends (λ e. Unit {0}) (elim o [ none ↦ err null_pointer | some e ↦ ok e ])
      of_option none = null_ne_hung
      of_option (some e) = tt

  prune_threshold-Ends :
      (pachi : Pachi) (t : Tree fl) (kids : List ℕ) (remain thr : ℤ)
      → Ends (λ x. Unit {0}) (prune_threshold fl pachi t kids remain thr)
  unfolding prune_threshold
  prune_threshold-Ends pachi t [] remain thr = tt
  prune_threshold-Ends pachi t (k ∷ ks) remain thr =
      Ends-bind (λ nd. (get_elem? t k ≡ some nd) × (k < length t)) (λ x. Unit {0}) (node_at fl t k)
        _ (node_at-Ends fl t k)
        λ nd g.
          Ends-bind (λ e. Unit {0}) (λ x. Unit {0}) (edge_of fl nd) _ (edge_of-Ends nd)
            λ e x. prune_threshold-Ends pachi t ks remain _

  module _ (pachi : Pachi) where
    -- The step ended the descent, or went to a node that stands behind, in a store with the same order.
    abbrev Steps : Selected fl pachi → Bool × Selected fl pachi → Type 0
    Steps s r =
        (r.0 ≡ false)
        ⊎ IsOrdered fl r.1.tree
          × (length r.1.tree ≡ length s.tree)
          × (s.leaf < r.1.leaf)
          × (r.1.leaf < length s.tree)

    descend-Ends :
        (t : Tree fl) (best : ℕ) (vl : ℤ) (state : GoBoard pachi)
        → IsOrdered fl t
        → Ends
            (λ d. IsOrdered fl d.0 × (length d.0 ≡ length t) × (best < length t))
            (descend fl pachi t best vl state)
    unfolding descend
    descend-Ends t best vl state o =
        Ends-bind (λ nd. (get_elem? t best ≡ some nd) × (best < length t)) _ (node_at fl t best) _
          (node_at-Ends fl t best)
          λ nd g.
            Ends-bind (λ e. Unit {0})
              (λ d. IsOrdered fl d.0 × (length d.0 ≡ length t) × (best < length t)) (edge_of fl nd)
              _ (edge_of-Ends nd)
              λ e x.
                on_test (apply_move pachi state e.action).0 _
                  (lent-IsOrdered, length-modify fl best (with_edge fl (lend fl vl)) t, g.1)
      where
        keeps : (nd : Node fl) → (with_edge fl (lend fl vl) nd).nexts ≡ nd.nexts
        keeps nd = ground arith

        lent-IsOrdered : IsOrdered fl (modify fl best (with_edge fl (lend fl vl)) t)
        lent-IsOrdered = modify-IsOrdered fl t best (with_edge fl (lend fl vl)) keeps o

        on_test :
            (b : Bool) (d : Tree fl × GoBoard pachi)
            → IsOrdered fl d.0 × (length d.0 ≡ length t) × (best < length t)
            → Ends
                (λ d. IsOrdered fl d.0 × (length d.0 ≡ length t) × (best < length t))
                (if b then ok d else err exited)
        on_test true d h = h
        on_test false d h = exited_ne_hung

    module _ (pruned : ℕ → Bool) (default : Node fl → fl.F)
        (no_best : Selected fl pachi → Result (Bool × Selected fl pachi)) (s : Selected fl pachi)
        (vl : ℤ) (c_puct : fl.F) (max : ℤ) (o : IsOrdered fl s.tree)
        (stops : (s' : Selected fl pachi) → Ends (Steps s) (no_best s')) where
      -- Behind the choice of a child.
      went :
          (cur : Node fl) (kids : List ℕ) (ch : Choice fl)
          → get_elem? s.tree s.leaf ≡ some cur
          → cur.nexts ≡ some kids
          → (x : Option ℕ) → In fl s.tree pruned c_puct max c_puct c_puct kids x
          → Ends (Steps s) (elim x [
            | none ↦
                no_best
                  (record s { visit_num = s.visit_num + length kids; score_num = ch.score_num })
            | some best ↦
                (node_at fl s.tree best >>= λ nd.
                descend fl pachi (marked fl s.tree s.leaf max ch.is_won nd) best vl s.state >>= λ d.
                ok (
                  true,
                  record {
                    leaf = best;
                    tree = d.0;
                    state = d.1;
                    select_depth = s.select_depth + 1;
                    visit_num = s.visit_num + length kids;
                    score_num = ch.score_num;
                  },
                ))
          ])
      went cur kids ch g e none m = stops _
      went cur kids ch g e (some best) m =
          Ends-bind (λ nd. (get_elem? s.tree best ≡ some nd) × (best < length s.tree)) (Steps s)
            (node_at fl s.tree best) _ (node_at-Ends fl s.tree best)
            λ nd l.
              let (mo, ml) = marked-IsOrdered fl s.tree s.leaf max ch.is_won nd o in
              let t' = marked fl s.tree s.leaf max ch.is_won nd in
              Ends-bind (λ d. IsOrdered fl d.0 × (length d.0 ≡ length t') × (best < length t'))
                (Steps s) (descend fl pachi t' best vl s.state) _
                (descend-Ends t' best vl s.state mo)
                λ d h. inr (h.0, h.1 ∙ ml, o s.leaf best cur kids g e m, l.1)

      on_nexts :
          (cur : Node fl) (x : Option (List ℕ))
          (chosen : List ℕ → Result (Bool × Selected fl pachi))
          → ((kids : List ℕ) → x ≡ some kids → Ends (Steps s) (chosen kids))
          → Ends (Steps s) (elim x [
            | none ↦ err null_pointer
            | some [] ↦ ok (false, s)
            | some (k ∷ ks) ↦ chosen (k ∷ ks)
          ])
      on_nexts cur none chosen h = null_ne_hung
      on_nexts cur (some []) chosen h = inl refl
      on_nexts cur (some (k ∷ ks)) chosen h = h (k ∷ ks) refl

      on_ready :
          (b : Bool) (r : Result (Bool × Selected fl pachi))
          → Ends (Steps s) r
          → Ends (Steps s) (if b then r else ok (false, s))
      on_ready true r h = h
      on_ready false r h = inl refl

      select_step-Ends :
          Ends (Steps s) (select_step fl pachi pruned default no_best s vl c_puct max)
      unfolding select_step
      select_step-Ends =
          Ends-bind (λ nd. (get_elem? s.tree s.leaf ≡ some nd) × (s.leaf < length s.tree)) (Steps s)
            (node_at fl s.tree s.leaf) _ (node_at-Ends fl s.tree s.leaf)
            λ cur g.
              let fa = father_values fl pachi (default cur) cur in
              on_ready (cur.eval_ready && not cur.is_terminate) _ (
                on_nexts cur cur.nexts _ (λ kids e.
                  Ends-bind (λ ch. In fl s.tree pruned c_puct max c_puct c_puct kids ch.best)
                    (Steps s)
                    (choose fl s.tree pruned (exploration fl c_puct cur) max fa.0 fa.1 kids
                      (no_choice fl s.score_num))
                    _
                    (choose-Ends fl s.tree pruned (exploration fl c_puct cur) max fa.0 fa.1 kids
                      kids (no_choice fl s.score_num) (λ j m. m) tt)
                    λ ch m. went cur kids ch g.0 e ch.best m))

    goes :
        (s : Selected fl pachi) (b : Bool) (q : Selected fl pachi)
        (rest : Result (Selected fl pachi))
        → Steps s (b, q)
        → (IsOrdered fl q.tree
              × (length q.tree ≡ length s.tree)
              × (s.leaf < q.leaf)
              × (q.leaf < length s.tree)
            → Ends (λ r. Unit {0}) rest)
        → Ends (λ r. Unit {0}) (elim b [ false ↦ ok q | true ↦ rest ])
    goes s false q rest h k = tt
    goes s true q rest (inl e) k = absurd (ground arith)
    goes s true q rest (inr h) k = k h

    -- mcts_select_path ends before its fuel, if that reaches from its node to the end of the store.
    select_path-Ends :
        (fuel : ℕ) (s : Selected fl pachi) (vl : ℤ) (c_puct : fl.F) (max : ℤ)
        → IsOrdered fl s.tree
        → s.leaf < length s.tree
        → length s.tree ≤ s.leaf + fuel
        → Ends (λ r. Unit {0}) (select_path fl pachi fuel s vl c_puct max)
    unfolding select_path
    select_path-Ends zero s vl c_puct max o l b = absurd (omega arith)
    select_path-Ends (suc fuel) s vl c_puct max o l b =
        Ends-bind (Steps s) (λ r. Unit {0})
          (select_step fl pachi (λ n. false) (λ nd. fl.of_int (pos 0)) (λ s'. err null_pointer) s vl
            c_puct max)
          _
          (select_step-Ends (λ n. false) (λ nd. fl.of_int (pos 0)) (λ s'. err null_pointer) s vl
            c_puct max o (λ s'. null_ne_hung))
          λ r h.
            goes s r.0 r.1 (select_path fl pachi fuel r.1 vl c_puct (pos 0 -ℤ max)) h
              λ (io, le, lt, lb).
                select_path-Ends fuel r.1 vl c_puct (pos 0 -ℤ max) io (omega (arith, le, lb))
                  (omega (arith, le, lt, b))

    -- In fl a store in which children stand behind their father, mcts_select_path_root never comes to the end
    -- of a fuel that is the number of nodes or more: it gives a leaf or fails in another way.
    pub select_path_root-Ends :
        (fuel : ℕ) (s : Selected fl pachi) (vl : ℤ) (c_puct : fl.F) (max rollout_remain : ℤ)
        → IsOrdered fl s.tree
        → length s.tree ≤ fuel
        → Ends (λ r. Unit {0}) (select_path_root fl pachi fuel s vl c_puct max rollout_remain)
    unfolding select_path_root
    select_path_root-Ends fuel s vl c_puct max rollout_remain o b =
        Ends-bind (λ nd. (get_elem? s.tree s.leaf ≡ some nd) × (s.leaf < length s.tree))
          (λ r. Unit {0}) (node_at fl s.tree s.leaf) _ (node_at-Ends fl s.tree s.leaf)
          λ nd g.
            let nexts : List ℕ = elim nd.nexts [ none ↦ [] | some ks ↦ ks ] in
            Ends-bind (λ x. Unit {0}) (λ r. Unit {0}) _ _
              (threshold (nd.eval_ready && not nd.is_terminate && eqb_ℤ max (pos 1)) _
                (prune_threshold-Ends pachi s.tree nexts rollout_remain (negsuc 0)))
              λ thr x.
                Ends-bind (Steps s) (λ r. Unit {0})
                  (select_step fl pachi (λ n. ltb_ℤ (pos n) thr) (λ r. r.value_pred)
                    (λ s'. ok (false, s')) s vl c_puct max)
                  _
                  (select_step-Ends (λ n. ltb_ℤ (pos n) thr) (λ r. r.value_pred)
                    (λ s'. ok (false, s')) s vl c_puct max o (λ s'. inl refl))
                  λ r h.
                    goes s r.0 r.1 (select_path fl pachi fuel r.1 vl c_puct (pos 0 -ℤ max)) h
                      λ (io, le, lt, lb).
                        select_path-Ends fuel r.1 vl c_puct (pos 0 -ℤ max) io
                          (omega (arith, le, lb)) (omega (arith, le, lt, b))
      where
        threshold :
            (c : Bool) (r : Result ℤ)
            → Ends (λ x. Unit {0}) r
            → Ends (λ x. Unit {0}) (if c then r else ok (negsuc 0))
        threshold true r h = h
        threshold false r h = tt
