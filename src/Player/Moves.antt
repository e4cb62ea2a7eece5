-- ===== src/Player/Moves.antt =====
-- play and gen_apply_move of src/MCTSPlayer.cpp: a move of the opponent, and one of the player's own.
-- What is printed is left out.
pub mod Names
pub mod Played
mod Tests
use estar_go.Base.{
  ℕ, zero, suc, ◌+◌, ◌-◌, ◌/◌, ◌%◌, ◌≡◌, Bool, true, false, not, ◌&&◌, List, [], ◌∷◌, ◌++◌, Option,
  none, some, Result, ok, err, exited, failed_assert, bad_index, null_pointer, ◌>>=◌, if◌then◌else◌,
  ltb, leb, ◌==◌, Text, text_eq, length, codes, map,
}
use estar_go.Base.Int.{
  decimal, ℤ, pos, negsuc, ◌+ℤ◌, ◌-ℤ◌, ◌*ℤ◌, quot, rem, eqb_ℤ, ltb_ℤ, to_char, char_value,
}
use estar_go.Base.Floats.{Floats}
use estar_go.Ini.Values.{atoi}
use estar_go.GoBoard.{Pachi, GoBoard, apply_move, get_total_moves, pos_pass}
use estar_go.MctsTree.{Node, Tree, node_at, edge_of, modify, new_node}
use estar_go.MctsTree.Select.{select_action, no_action}
use estar_go.Player.{Player}

-- `toupper` and `tolower`
abbrev pub upper : ℕ → ℕ
upper c = if leb b'a' c && leb c b'z' then c - 32 else c

abbrev pub lower : ℕ → ℕ
lower c = if leb b'A' c && leb c b'Z' then c + 32 else c

-- strcasecmp(a, b)==0
unfoldable pub same_letters : Text → Text → Bool
same_letters a b = text_eq (map lower a) (map lower b)

-- "%c%d" of gen_apply_move: the letter I is left out.
unfoldable pub move_name : ℤ → Text
move_name action =
    let row = quot action 19 in
    let col = rem action 19 in
    to_char (pos b'A' +ℤ col +ℤ (if ltb_ℤ col (pos 8) then pos 0 else pos 1))
    ∷ decimal (row +ℤ pos 1)

-- row*19+col of play.
unfoldable pub named_move : ℕ → Text → ℤ
named_move letter number =
    let row = atoi number -ℤ pos 1 in
    let s0 = char_value (upper letter) in
    let col = s0 -ℤ pos b'A' -ℤ (if ltb_ℤ (pos b'I') s0 then pos 1 else pos 0) in
    row *ℤ pos 19 +ℤ col

module _ (fl : Floats) (pachi : Pachi) where
  open fl use {F}

  -- The first child whose edge has the action.
  pub find_child : Tree fl → List ℕ → ℤ → Result (Option ℕ)
  find_child t [] action = ok none
  find_child t (i ∷ rest) action = node_at fl t i >>= λ nd. edge_of fl nd >>= λ e.
      let later = find_child t rest action in if eqb_ℤ e.action action then ok (some i) else later

  pub child_of_root : Player fl pachi → ℕ → ℤ → Result (Option ℕ)
  unfolding find_child
  child_of_root p r action = node_at fl p.tree r >>= λ nd. elim nd.nexts [
    | none ↦ ok none
    | some nexts ↦ find_child p.tree nexts action
  ]

  -- What play makes of the text: whether the move was taken, the board, op_action, and the child.
  pub record Answer : Type 0 where
    pub succ : Bool
    pub board : GoBoard pachi
    pub op_action : ℤ
    pub id : Option ℕ

  -- For a resignation a pass is recorded, and no child is looked for.
  pub answer : Player fl pachi → ℕ → Text → Result Answer
  unfolding child_of_root
  answer p r [] = err bad_index
  answer p r (c ∷ cs) =
      let passed = apply_move pachi p.root_board pos_pass in
      let action = if same_letters (c ∷ cs) (codes "pass") then negsuc 0 else named_move c cs in
      let moved =
        if same_letters (c ∷ cs) (codes "pass")
        then passed
        else apply_move pachi p.root_board action in
      if same_letters (c ∷ cs) (codes "resign")
      then ok (record { succ = passed.0; board = passed.1; op_action = p.op_action; id = none })
      else (child_of_root p r action >>= λ id.
          ok (record { succ = moved.0; board = moved.1; op_action = action; id = id }))

  -- An unevaluated move makes a new root; the child of an evaluated one becomes the root and loses
  -- its father.
  abbrev pub rooted : Player fl pachi → Answer → Player fl pachi
  rooted p a = elim a.id [
    | none ↦ record p {
      root_board = a.board;
      op_action = a.op_action;
      root = some (length p.tree);
      tree =
          p.tree ++ record (new_node fl none none) { depth = get_total_moves pachi a.board } ∷ [];
    }
    | some i ↦ record p {
      root_board = a.board;
      op_action = a.op_action;
      root = some i;
      tree = modify fl i (λ nd. record nd { father = none }) p.tree;
    }
  ]

  pub play : Player fl pachi → Text → Result (Player fl pachi)
  unfolding answer
  play p s_pos = elim p.root [
    | none ↦ err failed_assert
    | some r ↦
        if p.stop_rollout
        then ok p
        else (answer p r s_pos >>= λ a. if a.succ then ok (rooted p a) else err exited)
  ]

  -- gen_apply_move, with the search of its threads in `search`.
  pub gen_apply_move :
      (Player fl pachi → Result (Player fl pachi))
      → Player fl pachi
      → Result (Text × Player fl pachi)
  gen_apply_move search p =
      if not (p.search_thread_vec == 0)
      then err failed_assert
      else if p.stop_rollout
      then ok (codes "pass", p)
      else (search p >>= λ q. elim q.root [
        | none ↦ err null_pointer
        | some r ↦
            (node_at fl q.tree r >>= λ nd.
            select_action fl pachi q.tree q.root_board q.config.pass_after_n_moves
              q.config.pass_threshold q.config.resign_threshold nd (eqb_ℤ q.op_action pos_pass)
            >>= λ res.
                let moved = apply_move pachi q.root_board res.1 in
                if eqb_ℤ res.1 no_action
                then ok (codes "resign", record q { root = none })
                else if moved.0
                then ok (
                  (if eqb_ℤ res.1 pos_pass then codes "pass" else move_name res.1),
                  record q { root = some res.0; root_board = moved.1 },
                )
                else err exited)
      ])
