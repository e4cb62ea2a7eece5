-- ===== src/MctsTree/SelfPlay.antt =====
-- selfplay_select_action of src/MCTSTree.cpp: the move of a game that the program plays against itself, with
-- the labels for training. The random draw, the logarithm and the text of a number are parameters.
pub mod Labels
pub mod Chosen
pub mod Answer
mod Tests
use estar_go.Base.{
  ℕ, zero, suc, ◌+◌, ◌≡◌, Bool, true, false, not, ◌&&◌, List, [], ◌∷◌, ◌++◌, Option, none, some,
  Result, ok, err, exited, null_pointer, overrun, bad_index, ltb, leb, ◌==◌, ◌>>=◌, if◌then◌else◌,
  get_elem?, length, Text, codes,
}
use estar_go.Base.Int.{ℤ, pos, negsuc, eqb_ℤ, ltb_ℤ, ◌*ℤ◌}
use estar_go.Base.Floats.{Floats}
use estar_go.GoBoard.{Pachi, GoBoard, is_pass_safe, get_total_moves, pos_pass}
use estar_go.MctsTree.{Edge, Node, Tree, node_at, edge_of, modify}
use estar_go.MctsTree.Select.{Best, no_best, no_action}

-- The place of an action in policy_dis, or none outside its 362 places.
pub place_of : ℤ → Option ℕ
place_of (pos a) = if ltb a 362 then some a else none
place_of (negsuc zero) = some 361
place_of (negsuc (suc a)) = none

pub put_at {ℓ} : {A : Type ℓ} → ℕ → A → List A → List A
put_at i a [] = []
put_at zero a (x ∷ xs) = a ∷ xs
put_at (suc i) a (x ∷ xs) = x ∷ put_at i a xs

abbrev pub zeros {ℓ} : {A : Type ℓ} → ℕ → A → List A
zeros zero a = []
zeros (suc n) a = a ∷ zeros n a

module _ (fl : Floats) where
  open fl use {F, of_int, of_text, add, sub, mul, div, less}

  pub record MctsPair : Type 0 where
    pub node : ℕ
    pub action : ℤ
    pub policy_label : Text
    pub win_label : F
    pub win_rate : F
    pub cross_entropy : F

  -- The edges of the children, which the first loop reads.
  pub edges : Tree fl → List ℕ → Result (List (Edge fl))
  edges t [] = ok []
  edges t (i ∷ rest) =
      node_at fl t i >>= λ nd. edge_of fl nd >>= λ e. edges t rest >>= λ es. ok (e ∷ es)

  abbrev pub visit_sum : List (Edge fl) → ℕ
  visit_sum [] = 0
  visit_sum (e ∷ es) = e.n + visit_sum es

  -- nexts[i]->edge->n * 1.0 / n_visit_sum
  abbrev pub share : ℕ → Edge fl → F
  share sum e = div (of_int (pos e.n)) (of_int (pos sum))

  abbrev pub shares : ℕ → List (Edge fl) → List F
  shares sum [] = []
  shares sum (e ∷ es) = share sum e ∷ shares sum es

  -- policy_dis, with a write outside it as what it is.
  pub fill : ℕ → List (Edge fl) → List F → Result (List F)
  unfolding place_of put_at
  fill sum [] dis = ok dis
  fill sum (e ∷ es) dis = elim (place_of e.action) [
    | none ↦ err overrun
    | some i ↦ fill sum es (put_at i (share sum e) dis)
  ]

  module _ (log : F → F) (to_string : F → Text) where
    -- The numbers with a blank between two.
    pub label : List F → Text
    label [] = []
    label (d ∷ []) = to_string d
    label (d ∷ ds) = to_string d ++ codes " " ++ label ds

    -- The sum over the children of -policy_dis * log(old_p), where both are positive.
    pub entropy : List F → List (Edge fl) → F → Result F
    entropy dis [] sum = ok sum
    entropy dis (e ∷ es) sum = elim (place_of e.action) [
      | none ↦ err overrun
      | some i ↦ elim (get_elem? dis i) [
        | none ↦ err overrun
        | some d ↦ entropy dis es (
            if less (of_int (pos 0)) d && less (of_int (pos 0)) e.old_p
            then add sum (mul (sub (of_int (pos 0)) d) (log e.old_p))
            else sum)
      ]
    ]

    module _ (pachi : Pachi) (t : Tree fl) (root_board : GoBoard pachi) (resign_threshold : F) where
      -- The loop from the thirtieth move on.
      pub best_loop : List ℕ → Best fl → Result (Best fl)
      best_loop [] b = ok b
      best_loop (i ∷ rest) b = node_at fl t i >>= λ nd. edge_of fl nd >>= λ e.
          let is_pass = eqb_ℤ e.action pos_pass in
          let b1 = if is_pass then record b { pass_node = some i } else b in
          let taken = record b1 { best_action = e.action; best_node = some i } in
          let skipped = best_loop rest b1 in
          let more = best_loop rest (record taken { max_visit = pos e.n }) in
          if is_pass && not (is_pass_safe pachi root_board)
          then skipped
          else if nd.is_terminate && eqb_ℤ nd.result (pos 1)
          then ok taken
          else if ltb_ℤ b1.max_visit (pos e.n)
          then more
          else skipped

      -- nexts[select], by the draw of discrete_distribution.
      pub drawn : ℕ → List ℕ → List (Edge fl) → Result (Best fl)
      drawn select nexts es = elim (get_elem? nexts select) [
        | none ↦ err bad_index
        | some i ↦ elim (get_elem? es select) [
          | none ↦ err bad_index
          | some e ↦ ok (record (no_best fl) { best_action = e.action; best_node = some i })
        ]
      ]

      -- No sensible move on the board: pass.
      pub or_pass : Best fl → Result (Best fl)
      or_pass b =
          if eqb_ℤ b.best_action no_action
          then elim b.pass_node [
            | none ↦ err exited
            | some i ↦ ok (record b { best_action = pos_pass; best_node = some i })
          ]
          else ok b

      -- What the labels say of the chosen node, and its father's pointer reset.
      pub labelled : Bool → List F → F → ℕ → ℤ → Edge fl → MctsPair × Tree fl
      labelled is_opponent dis entropy_sum i action e =
          let w = if is_opponent then mul e.w (of_int (negsuc 0)) else e.w in
          let n = of_int (pos e.n) in
          let rate = div (div (add w n) (of_int (pos 2))) (add n (of_text (codes "1e-8"))) in
          (
            record {
              node = i;
              action = if less rate resign_threshold then no_action else action;
              policy_label = label dis;
              win_label = div w n;
              win_rate = rate;
              cross_entropy = entropy_sum;
            },
            modify fl i (λ nd. record nd { father = none }) t,
          )

      pub finish : Bool → List F → F → Best fl → Result (MctsPair × Tree fl)
      unfolding labelled
      finish is_opponent dis entropy_sum b = elim b.best_node [
        | none ↦ err null_pointer
        | some i ↦
            (node_at fl t i >>= λ nd.
            edge_of fl nd >>= λ e. ok (labelled is_opponent dis entropy_sum i b.best_action e))
      ]

      -- selfplay_select_action; `draw` is the distribution with its generator.
      pub selfplay_select_action : (List F → ℕ) → Node fl → Bool → Result (MctsPair × Tree fl)
      unfolding edges fill entropy best_loop drawn or_pass finish
      selfplay_select_action draw cur_node is_opponent = elim cur_node.nexts [
        | none ↦ err exited
        | some nexts ↦
            (edges t nexts >>= λ es.
            let sum = visit_sum es in
            fill sum es (zeros 362 (of_int (pos 0))) >>= λ dis.
            entropy dis es (of_int (pos 0)) >>= λ entropy_sum.
            (if leb 30 (get_total_moves pachi root_board)
              then best_loop nexts (no_best fl)
              else drawn (draw (shares sum es)) nexts es)
            >>= λ b0. or_pass b0 >>= λ b. finish is_opponent dis entropy_sum b)
      ]
