-- ===== src/MctsTree/Select.antt =====
-- mcts_select_action of src/MCTSTree.cpp: the move that is played at the root after the rollouts.
pub mod Rounds
pub mod Visits
pub mod Tests
use estar_go.Base.{
  ℕ, ◌≡◌, Bool, true, false, not, ◌&&◌, List, [], ◌∷◌, Option, none, some, Result, ok, err, exited,
  null_pointer, ltb, ◌>>=◌, if◌then◌else◌, codes,
}
use estar_go.Base.Int.{ℤ, pos, negsuc, eqb_ℤ, ltb_ℤ}
use estar_go.Base.Floats.{Floats}
use estar_go.GoBoard.{Pachi, GoBoard, is_pass_safe, get_total_moves, pos_pass}
use estar_go.MctsTree.{Edge, Node, Tree, node_at, edge_of}

-- The action that stands for no action and for a resignation.
abbrev pub no_action : ℤ
no_action = negsuc 99

module _ (fl : Floats) where
  open fl use {F, of_int, of_text, add, div, less}

  -- ((w + n) / 2) / (n + 1e-8)
  pub win_rate : Edge fl → F
  win_rate e =
      let n = of_int (pos e.n) in
      div (div (add e.w n) (of_int (pos 2))) (add n (of_text (codes "1e-8")))

  -- The variables of the loop over the children.
  pub record Best : Type 0 where
    pub best_action : ℤ
    pub best_node : Option ℕ
    pub pass_node : Option ℕ
    pub max_visit : ℤ

  abbrev pub no_best : Best
  no_best = record {
    best_action = no_action;
    best_node = none;
    pass_node = none;
    max_visit = negsuc 99;
  }

  module _ (pachi : Pachi) (t : Tree fl) (root_board : GoBoard pachi) where
    -- The settings of Config.h that the choice reads.
    module _ (pass_after_n_moves : ℤ) (pass_threshold resign_threshold : F) where
      pub select_loop : Bool → List ℕ → Best → Result Best
      select_loop is_opponent_pass [] b = ok b
      select_loop is_opponent_pass (i ∷ rest) b = node_at fl t i >>= λ nd. edge_of fl nd >>= λ e.
          let is_pass = eqb_ℤ e.action pos_pass in
          let b1 = if is_pass then record b { pass_node = some i } else b in
          let taken = record b1 { best_action = e.action; best_node = some i } in
          let skipped = select_loop is_opponent_pass rest b1 in
          let more = select_loop is_opponent_pass rest (record taken { max_visit = pos e.n }) in
          if is_pass && not (is_pass_safe pachi root_board)
          then skipped
          else if is_pass
              && is_opponent_pass
              && ltb_ℤ pass_after_n_moves (pos (get_total_moves pachi root_board))
              && less pass_threshold (win_rate e)
          then ok (record b1 { best_action = pos_pass; best_node = some i })
          else if nd.is_terminate && eqb_ℤ nd.result (pos 1)
          then ok taken
          else if ltb_ℤ b1.max_visit (pos e.n)
          then more
          else skipped

      -- No sensible move on the board: pass.
      pub or_pass : Best → Result Best
      or_pass b =
          if eqb_ℤ b.best_action no_action
          then elim b.pass_node [
            | none ↦ err exited
            | some i ↦ ok (record b { best_action = pos_pass; best_node = some i })
          ]
          else ok b

      -- A win rate below the threshold is a resignation.
      pub or_resign : Edge fl → ℤ → ℤ
      or_resign e action =
          if ltb 0 e.n && less (win_rate e) resign_threshold then no_action else action

      -- mcts_select_action: the node and the action.
      pub select_action : Node fl → Bool → Result (ℕ × ℤ)
      select_action cur_node is_opponent_pass = elim cur_node.nexts [
        | none ↦ err exited
        | some nexts ↦
            (select_loop is_opponent_pass nexts no_best >>= λ b0. or_pass b0 >>= λ b.
            elim b.best_node [
              | none ↦ err null_pointer
              | some i ↦
                  (node_at fl t i >>= λ nd.
                  edge_of fl nd >>= λ e. ok (i, or_resign e b.best_action))
            ])
      ]
