-- ===== src/MctsTree/Descent.antt =====
-- The descent of src/MCTSTree.cpp: mcts_select_path_root and mcts_select_path, with the virtual loss,
-- the marks on nodes that are won or lost, and the moves on the board.
pub mod Choose
pub mod Marks
pub mod Step
pub mod Order
pub mod Ends
pub mod Loss
use estar_go.Base.{
  ℕ, zero, suc, ◌+◌, ◌-◌, ◌≡◌, Bool, true, false, not, ◌&&◌, List, [], ◌∷◌, Option, none, some,
  Result, ok, err, null_pointer, hung, exited, ◌>>=◌, if◌then◌else◌, ◌==◌, length, codes,
}
use estar_go.Base.Int.{ℤ, pos, negsuc, ◌+ℤ◌, ◌-ℤ◌, eqb_ℤ, ltb_ℤ}
use estar_go.Base.Floats.{Floats}
use estar_go.GoBoard.{Pachi, GoBoard, apply_move}
use estar_go.MctsTree.{Edge, Node, Tree, node_at, edge_of, modify, with_edge, score}

module _ (fl : Floats) where
  open fl use {F, of_int, of_text, mul, root, less}

  -- What the loop over the children has come to: the best child, its score, the number of scores
  -- taken, and whether it met a child that wins for the player.
  pub record Choice : Type 0 where
    pub best : Option ℕ
    pub best_score : F
    pub score_num : ℕ
    pub is_won : Bool

  -- The loop over the children, for a player `max`; `pruned` says which visit counts are passed over.
  pub choose : Tree fl → (ℕ → Bool) → F → ℤ → F → F → List ℕ → Choice → Result Choice
  choose t pruned c max fa_w fa_n [] s = ok s
  choose t pruned c max fa_w fa_n (i ∷ rest) s = node_at fl t i >>= λ child.
      let passed = choose t pruned c max fa_w fa_n rest s in
      let lost =
        choose t pruned c max fa_w fa_n rest
          (record s { best = elim s.best [ none ↦ some i | some j ↦ some j ] }) in
      if child.is_repetition_checked && child.is_repetition
      then passed
      else if child.is_terminate
      then (if eqb_ℤ child.result max then ok (record s { best = some i; is_won = true }) else lost)
      else (edge_of fl child >>= λ e.
          let v = score fl e c max fa_w fa_n in
          let scored =
            if less s.best_score v
            then record s { best = some i; best_score = v; score_num = s.score_num + 1 }
            else record s { score_num = s.score_num + 1 } in
          let later = choose t pruned c max fa_w fa_n rest scored in
          if pruned e.n then passed else if e.n == 0 then ok scored else later)

  -- c_puct * sqrt(total_n + 1)
  abbrev pub exploration : F → Node fl → F
  exploration c_puct nd = mul c_puct (root (of_int (pos (nd.total_n + 1))))

  abbrev pub no_choice : ℕ → Choice
  no_choice score_num = record {
    best = none;
    best_score = of_text (codes "-1e8");
    score_num = score_num;
    is_won = false;
  }

  -- The marks that the node gets after the loop.
  abbrev pub won : ℤ → Node fl → Node fl
  won max nd = record nd { is_terminate = true; result = max }

  pub marked : Tree fl → ℕ → ℤ → Bool → Node fl → Tree fl
  marked t cur max is_won best =
      let t' = if is_won then modify fl cur (won max) t else t in
      if best.is_terminate && eqb_ℤ best.result (pos 0 -ℤ max)
      then modify fl cur (won (pos 0 -ℤ max)) t'
      else t'

  abbrev pub lend : ℤ → Edge fl → Edge fl
  lend vl e = record e { vl = e.vl +ℤ vl }

  module _ (pachi : Pachi) where
    -- select_depth, visit_num and score_num, passed by reference.
    pub record Selected : Type 0 where
      pub leaf : ℕ
      pub tree : Tree fl
      pub state : GoBoard pachi
      pub select_depth : ℕ
      pub visit_num : ℕ
      pub score_num : ℕ

    -- From the best child on: lend it the virtual loss and play its move.
    pub descend : Tree fl → ℕ → ℤ → GoBoard pachi → Result (Tree fl × GoBoard pachi)
    descend t best vl state = node_at fl t best >>= λ nd. edge_of fl nd >>= λ e.
        let (succ, state') = apply_move pachi state e.action in
        if succ then ok (modify fl best (with_edge fl (lend vl)) t, state') else err exited

    -- fa_w and fa_n of mcts_select_path.
    pub father_values : F → Node fl → F × F
    father_values default nd = elim nd.edge [
      | none ↦ (default, of_int (pos 1))
      | some e ↦ if e.n == 0 then (default, of_int (pos 1)) else (e.w, of_int (pos e.n))
    ]

    -- One step down from the node `s.leaf`, for a player `max`. The result is whether the descent
    -- goes on. The two functions differ in the children that they pass over, in the value for a node
    -- without a visited edge, and in what they do with no best child.
    pub select_step :
        (ℕ → Bool)
        → (Node fl → F)
        → (Selected → Result (Bool × Selected))
        → Selected
        → ℤ
        → F
        → ℤ
        → Result (Bool × Selected)
    select_step pruned default no_best s vl c_puct max = node_at fl s.tree s.leaf >>= λ cur.
        let chosen : List ℕ → Result (Bool × Selected) = λ nexts.
          let (fa_w, fa_n) = father_values (default cur) cur in
          choose s.tree pruned (exploration c_puct cur) max fa_w fa_n nexts (no_choice s.score_num)
          >>= λ ch. elim ch.best [
            | none ↦
                no_best
                  (record s { visit_num = s.visit_num + length nexts; score_num = ch.score_num })
            | some best ↦
                (node_at fl s.tree best >>= λ nd.
                descend (marked s.tree s.leaf max ch.is_won nd) best vl s.state >>= λ d. ok (
                  true,
                  record {
                    leaf = best;
                    tree = d.0;
                    state = d.1;
                    select_depth = s.select_depth + 1;
                    visit_num = s.visit_num + length nexts;
                    score_num = ch.score_num;
                  },
                ))
          ] in
        if cur.eval_ready && not cur.is_terminate
        then elim cur.nexts [
          | none ↦ err null_pointer
          | some [] ↦ ok (false, s)
          | some (k ∷ ks) ↦ chosen (k ∷ ks)
        ]
        else ok (false, s)

    -- mcts_select_path, in which a null best child is dereferenced.
    pub select_path : ℕ → Selected → ℤ → F → ℤ → Result Selected
    select_path zero s vl c_puct max = err hung
    select_path (suc fuel) s vl c_puct max =
        select_step (λ n. false) (λ nd. of_int (pos 0)) (λ s'. err null_pointer) s vl c_puct max
        >>= λ r. elim r.0 [ false ↦ ok r.1 | true ↦ select_path fuel r.1 vl c_puct (pos 0 -ℤ max) ]

    -- The largest visit count less the rollouts that remain, and -1 if all are less.
    pub prune_threshold : Tree fl → List ℕ → ℤ → ℤ → Result ℤ
    prune_threshold t [] remain thr = ok thr
    prune_threshold t (i ∷ rest) remain thr = node_at fl t i >>= λ child. edge_of fl child >>= λ e.
        prune_threshold t rest remain
          (if ltb_ℤ thr (pos e.n -ℤ remain) then pos e.n -ℤ remain else thr)

    -- mcts_select_path_root
    pub select_path_root : ℕ → Selected → ℤ → F → ℤ → ℤ → Result Selected
    select_path_root fuel s vl c_puct max rollout_remain = node_at fl s.tree s.leaf >>= λ nd.
        let nexts : List ℕ = elim nd.nexts [ none ↦ [] | some ks ↦ ks ] in
        (if nd.eval_ready && not nd.is_terminate && eqb_ℤ max (pos 1)
          then prune_threshold s.tree nexts rollout_remain (negsuc 0)
          else ok (negsuc 0))
        >>= λ thr.
            select_step (λ n. ltb_ℤ (pos n) thr) (λ r. r.value_pred) (λ s'. ok (false, s')) s vl
              c_puct max
            >>= λ r. elim r.0 [
              | false ↦ ok r.1
              | true ↦ select_path fuel r.1 vl c_puct (pos 0 -ℤ max)
            ]
