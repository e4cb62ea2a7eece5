-- ===== src/MctsTree/Select/Tests.antt =====
-- The choice at a root with the children 1 (five visits) and 2 (two visits).
use estar_go.Base.{
  arith, zero, suc, ℕ, ◌+◌, ◌≡◌, refl, inl, true, false, [], ◌∷◌, Option, none, some, OnOk, codes,
}
use estar_go.Base.Int.{ℤ, pos, negsuc}
use estar_go.Base.Floats.{int_floats}
use estar_go.GoBoard.{Pachi, GoBoard}
use estar_go.MctsTree.{Node, Edge, Tree, new_node}
use estar_go.MctsTree.Store.{contains}
use estar_go.MctsTree.Select.{select_action, select_loop, no_best}
use estar_go.MctsTree.Select.Visits.{
  Chosen, Leads, AllWithin, NoneWins, select_action-Chosen, select_loop-most_visited,
}

abbrev pub toy : Pachi
toy = record {
  Board = ℕ;
  Score = ℕ;
  new_board = λ komi. 0;
  clear = λ b. 0;
  put_komi = λ komi b. b;
  is_valid_move = λ b s x y. true;
  play = λ b s x y. b + 1;
  hash = λ b. b;
  official_score = λ b. b;
  negate = λ s. s;
  is_nonnegative = λ s. true;
}

abbrev pub board : GoBoard toy
board = record { b = 3; history = codes "CcDd"; hash8 = []; board_repetition = false }

abbrev pub edge_to : ℤ → ℕ → Edge int_floats
edge_to a n = record { action = a; p = pos 0; old_p = pos 0; n = n; w = pos 1; vl = pos 0 }

abbrev root_node : Node int_floats
root_node = record (new_node int_floats none none) { nexts = some (1 ∷ 2 ∷ []) }

abbrev child : ℤ → ℕ → Node int_floats
child a n = new_node int_floats (some 0) (some (edge_to a n))

abbrev pub tree : Tree int_floats
tree = root_node ∷ child (pos 60) 5 ∷ child (negsuc 0) 2 ∷ []

select_action-Chosen_example :
    OnOk
      (Chosen int_floats toy tree board (1 ∷ 2 ∷ []) (pos 200) (pos 9) (pos 0))
      (select_action int_floats toy tree board (pos 200) (pos 9) (pos 0) root_node true)
select_action-Chosen_example =
    select_action-Chosen int_floats toy tree board (1 ∷ 2 ∷ []) (pos 200) (pos 9) (pos 0) root_node
      true refl

live :
    (a nd : Node int_floats)
    → ◌≡◌ {A = Option (Node int_floats)} (some a) (some nd)
    → a.is_terminate ≡ false
    → nd.is_terminate ≡ false
live a nd e h = ground arith

none_wins : NoneWins int_floats toy tree board (1 ∷ 2 ∷ []) (pos 200) (pos 9) (pos 0)
unfolding contains new_node
none_wins zero nd m g = absurd (ground arith)
none_wins (suc zero) nd m g = inl (live (child (pos 60) 5) nd g refl)
none_wins (suc (suc zero)) nd m g = inl (live (child (negsuc 0) 2) nd g refl)
none_wins (suc (suc (suc k))) nd m g = absurd (ground arith)

select_loop-most_visited_example :
    OnOk
      (λ b.
        Leads int_floats toy tree board (1 ∷ 2 ∷ []) (pos 200) (pos 9) (pos 0) b
        × AllWithin int_floats toy tree board
            (1 ∷ 2 ∷ [])
            (pos 200)
            (pos 9)
            (pos 0)
            b.max_visit
            (1 ∷ 2 ∷ []))
      (select_loop int_floats toy tree board
        (pos 200)
        (pos 9)
        (pos 0)
        false
        (1 ∷ 2 ∷ [])
        (no_best int_floats))
select_loop-most_visited_example =
    select_loop-most_visited int_floats toy tree board (1 ∷ 2 ∷ []) (pos 200) (pos 9) (pos 0)
      none_wins
