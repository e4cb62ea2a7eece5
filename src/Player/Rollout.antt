-- ===== src/Player/Rollout.antt =====
-- rollout and server_evaluate of src/MCTSPlayer.cpp, for one search thread. What happens to it comes as a
-- sequence of events: a turn of the loop at a time, or the evaluator's answer to the first open request.
-- Latencies and messages are left out.
pub mod Expand
pub mod Count
mod Tests
use estar_go.Base.{
  ℕ, zero, suc, ◌+◌, ◌≡◌, Bool, true, false, not, ◌&&◌, ◌||◌, List, [], ◌∷◌, ◌++◌, Option, none,
  some, Result, ok, err, null_pointer, ◌>>=◌, if◌then◌else◌, ltb, ◌==◌, length, codes,
}
use estar_go.Base.Int.{ℤ, pos, negsuc, ◌+ℤ◌, ◌-ℤ◌, ◌*ℤ◌, eqb_ℤ, ltb_ℤ}
use estar_go.Base.Floats.{Floats}
use estar_go.GoBoard.{Pachi, GoBoard, get_color, get_score_black, pos_pass}
use estar_go.MctsTree.{Node, Edge, Tree, node_at, edge_of, modify, new_node, new_edge, back_update}
use estar_go.MctsTree.Descent.{Selected, select_path_root}
use estar_go.Player.{Player}
use estar_go.Player.TimePolicy.{est_timeout_rollout, cal_rollout_speed}

module _ (fl : Floats) (pachi : Pachi) where
  open fl use {F, of_int, mul, div, less}

  -- PolicyItem
  pub record PolicyItem : Type 0 where
    pub position : ℤ
    pub prob : F

  -- What the callback of a request holds on to.
  pub record Request : Type 0 where
    pub leaf : ℕ
    pub min_max : ℤ
    pub tromp_taylor : ℤ

  -- The variables of the loop, and whether it waits for the evaluation of the root.
  pub record Search : Type 0 where
    pub player : Player fl pachi
    pub rollout_in_turn : ℤ
    pub exit_flag : Bool
    pub waiting : Bool
    pub requests : List Request

  -- std::sort by falling probability.
  pub insert_item : PolicyItem → List PolicyItem → List PolicyItem
  insert_item x [] = x ∷ []
  insert_item x (y ∷ ys) =
      let later = insert_item x ys in if less x.prob y.prob then y ∷ later else x ∷ y ∷ ys

  pub sort_items : List PolicyItem → List PolicyItem
  unfolding insert_item
  sort_items [] = []
  sort_items (x ∷ xs) = insert_item x (sort_items xs)

  -- A child of an evaluated leaf.
  pub child_node : ℕ → Node fl → ℤ → PolicyItem → Node fl
  child_node leaf nd tromp_taylor item =
      let second_pass : Bool = elim nd.edge [
        | none ↦ false
        | some e ↦ eqb_ℤ item.position pos_pass && ltb 300 nd.depth && eqb_ℤ e.action pos_pass
      ] in
      record (new_node fl (some leaf) (some (new_edge fl item.position item.prob))) {
        depth = nd.depth + 1;
        result = if second_pass then tromp_taylor else pos 0;
      }

  pub child_nodes : F → ℕ → Node fl → ℤ → List PolicyItem → List (Node fl)
  unfolding child_node
  child_nodes threshold leaf nd tromp_taylor [] = []
  child_nodes threshold leaf nd tromp_taylor (item ∷ rest) =
      let later = child_nodes threshold leaf nd tromp_taylor rest in
      if not (eqb_ℤ item.position pos_pass) && less item.prob threshold
      then later
      else child_node leaf nd tromp_taylor item ∷ later

  -- The indexes that the new nodes have in the store.
  pub indexes : ℕ → List (Node fl) → List ℕ
  indexes start [] = []
  indexes start (nd ∷ rest) = start ∷ indexes (suc start) rest

  -- The store with the children of the leaf.
  pub expand : F → Request → F → List PolicyItem → Tree fl → Node fl → Tree fl
  unfolding child_nodes indexes sort_items
  expand threshold rq score policy t nd =
      let children = child_nodes threshold rq.leaf nd rq.tromp_taylor (sort_items policy) in
      modify fl rq.leaf
        (λ l. record l {
          value_pred = score;
          nexts = some (indexes (length t) children);
          eval_ready = true;
        })
        (t ++ children)

  -- The callback of server_evaluate.
  pub evaluated : F → ℤ → Request → F → List PolicyItem → Tree fl → Result (Tree fl)
  unfolding expand
  evaluated threshold vl rq value policy t = node_at fl t rq.leaf >>= λ nd.
      let score = mul value (of_int rq.min_max) in
      back_update fl (suc (length t)) (expand threshold rq score policy t nd) rq.leaf vl score
        nd.invalid_visit

  -- score * m > 0, for m 1 or -1
  abbrev pub is_positive : pachi.Score → Bool
  is_positive s = not (pachi.is_nonnegative (pachi.negate s))

  pub request_for : GoBoard pachi → GoBoard pachi → ℕ → Node fl → ℤ → Request
  request_for root_board cur_board leaf nd max =
      let root_color = get_color pachi root_board in
      let temp = if root_color == 1 then pos 0 -ℤ max else max in
      let score = get_score_black pachi cur_board in
      let signed = if eqb_ℤ temp (pos 1) then score else pachi.negate score in
      record {
        leaf = leaf;
        min_max = if get_color pachi cur_board == root_color then max else pos 0 -ℤ max;
        tromp_taylor =
            if ltb 300 nd.depth then (if is_positive signed then pos 1 else negsuc 0) else pos 0;
      }

  pub server_evaluate : GoBoard pachi → ℕ → ℤ → Search → Result Search
  unfolding request_for
  server_evaluate cur_board leaf max s = node_at fl s.player.tree leaf >>= λ nd.
      if nd.rq_sent
      then ok (record s {
        player = record s.player {
          tree =
              modify fl leaf (λ l. record l { invalid_visit = l.invalid_visit + 1 }) s.player.tree;
        };
      })
      else ok (record s {
        rollout_in_turn = s.rollout_in_turn +ℤ pos 1;
        requests = s.requests ++ request_for s.player.root_board cur_board leaf nd max ∷ [];
        player = record s.player {
          tree = modify fl leaf (λ l. record l { rq_sent = true }) s.player.tree;
        };
      })

  -- max_n and sec_n: the two largest visit counts of the children.
  pub top_two : Tree fl → List ℕ → ℤ → ℤ → Result (ℤ × ℤ)
  top_two t [] max_n sec_n = ok (max_n, sec_n)
  top_two t (i ∷ rest) max_n sec_n = node_at fl t i >>= λ nd. edge_of fl nd >>= λ e.
      let cur_n = pos e.n in
      if ltb_ℤ max_n cur_n
      then top_two t rest cur_n max_n
      else if ltb_ℤ sec_n cur_n
      then top_two t rest max_n cur_n
      else top_two t rest max_n sec_n

  -- The lead of the first child cannot be made up for.
  pub is_decided : Search → Node fl → ℤ → Result Bool
  unfolding top_two
  is_decided s root max =
      let p = s.player in
      let nexts : List ℕ = elim root.nexts [ none ↦ [] | some ks ↦ ks ] in
      let left = p.dynamic_rollout -ℤ s.rollout_in_turn in
      let counted = top_two p.tree nexts (negsuc 0) (negsuc 0) >>= λ n.
      ok (ltb 100 root.total_n && less (div (of_int left) p.f_early) (of_int (n.0 -ℤ n.1))) in
      if p.config.is_time_policy && eqb_ℤ max (pos 1) then counted else ok false

  -- Behind the descent: mark the leaf, then back up, or ask the evaluator.
  pub visit_leaf : ℤ → Search → Selected fl pachi → Result Search
  unfolding server_evaluate
  visit_leaf max s d = node_at fl d.tree d.leaf >>= λ nd.
      let repeated = d.state.board_repetition in
      let t =
        modify fl d.leaf (λ l. record l { is_repetition = repeated; is_repetition_checked = true })
          d.tree in
      let s' = record s { player = record s.player { tree = t } } in
      if repeated
      then ok s'
      else if not (eqb_ℤ nd.result (pos 0)) || nd.is_terminate
      then (back_update fl (suc (length t)) t d.leaf s.player.config.virtual_loss (of_int nd.result)
            0
          >>= λ t'. ok (record s {
            rollout_in_turn = s.rollout_in_turn +ℤ pos 1;
            player = record s.player { tree = t' };
          }))
      else server_evaluate d.state d.leaf max s'

  -- The rest of a turn, behind its tests; it waits while the root is being evaluated.
  pub simulate : ℤ → ℕ → Node fl → Search → Result Search
  unfolding visit_leaf
  simulate max r root s =
      let p = s.player in
      let going = record s { waiting = false } in
      if root.rq_sent && not root.eval_ready
      then ok (record s { waiting = true })
      else select_path_root fl pachi (suc (length p.tree))
          (record {
            leaf = r;
            tree = p.tree;
            state = p.root_board;
            select_depth = 0;
            visit_num = 0;
            score_num = 0;
          })
          p.config.virtual_loss p.config.c_puct max (p.dynamic_rollout -ℤ s.rollout_in_turn)
        >>= λ d. visit_leaf max going d

  -- The tests of a turn, `elapsed` milliseconds after the start.
  pub begin : ℤ → ℤ → ℕ → Node fl → Search → Result Search
  unfolding is_decided simulate
  begin max elapsed r root s =
      let p = s.player in
      let stopped = record s { exit_flag = true } in
      if s.exit_flag
      then ok s
      else if ltb_ℤ p.dynamic_timeout elapsed || not (ltb_ℤ s.rollout_in_turn p.dynamic_rollout)
      then ok stopped
      else is_decided s root max >>= λ decided.
          if decided || root.is_terminate
          then ok stopped
          else simulate max r root (record s { exit_flag = p.is_exit_rollout })

  -- One turn of the loop, or the rest of one that waits.
  pub turn : ℤ → ℤ → Search → Result Search
  unfolding begin
  turn max elapsed s = elim s.player.root [
    | none ↦ err null_pointer
    | some r ↦
        (node_at fl s.player.tree r >>= λ root.
        if s.waiting then simulate max r root s else begin max elapsed r root s)
  ]

  pub data Event : Type 0 where
    at_time : ℤ → Event
    reply : F → List PolicyItem → Event

  pub happens : ℤ → Event → Search → Result Search
  unfolding turn evaluated
  happens max (at_time elapsed) s = turn max elapsed s
  happens max (reply value policy) s = elim s.requests [
    | [] ↦ ok s
    | rq ∷ rest ↦
        (evaluated s.player.config.policy_prob_threshold s.player.config.virtual_loss rq value
            policy s.player.tree
          >>= λ t. ok (record s { player = record s.player { tree = t }; requests = rest }))
  ]

  pub all_happen : ℤ → List Event → Search → Result Search
  unfolding happens
  all_happen max [] s = ok s
  all_happen max (e ∷ rest) s = happens max e s >>= λ s'. all_happen max rest s'

  -- rollout, with the events up to its end. The count of the server's evaluations and the time that it
  -- took are read from the clients and the clock.
  pub rollout : ℤ → ℕ → List Event → Bool → ℤ → ℤ → Player fl pachi → Result (Player fl pachi)
  unfolding all_happen
  rollout max fuel events use_server_evaluator server_eval_cnt cost_time p =
      (if eqb_ℤ max (pos 1)
        then est_timeout_rollout fl pachi fuel p
        else ok (record p { dynamic_timeout = pos 30000 }))
      >>= λ q.
          all_happen max events (record {
            player = record q { is_rollout_finished = false };
            rollout_in_turn = pos 0;
            exit_flag = false;
            waiting = false;
            requests = [];
          })
          >>= λ s.
              let done =
                if eqb_ℤ max (pos 1)
                then cal_rollout_speed fl pachi use_server_evaluator s.rollout_in_turn
                    server_eval_cnt cost_time s.player
                else s.player in
              ok (record done { is_rollout_finished = true })
