-- ===== src/MctsTree/SelfPlay/Tests.antt =====
-- The choice of a game against itself, at a root with the children 1 (five visits) and 2 (a pass).
use estar_go.Base.{refl, false, [], ◌∷◌, none, some, Returns, codes, arith}
use estar_go.Base.Int.{pos, negsuc}
use estar_go.Base.Floats.{int_floats}
use estar_go.MctsTree.{Node, new_node}
use estar_go.MctsTree.Select.Tests.{toy, board, edge_to, tree}
use estar_go.MctsTree.SelfPlay.{place_of, selfplay_select_action}
use estar_go.MctsTree.SelfPlay.Labels.{AllEdged}
use estar_go.MctsTree.SelfPlay.Answer.{IsAnswer, selfplay_select_action-IsAnswer}

abbrev root_node : Node int_floats
root_node = record (new_node int_floats none none) { nexts = some (1 ∷ 2 ∷ []) }

children : AllEdged int_floats tree (1 ∷ 2 ∷ []) (edge_to (pos 60) 5 ∷ edge_to (negsuc 0) 2 ∷ [])
unfolding AllEdged place_of new_node
children = ((_, refl, refl), (60, refl), ((_, refl, refl), (361, refl), tt))

selfplay_select_action-IsAnswer_example :
    Returns (IsAnswer int_floats tree (1 ∷ 2 ∷ []) (λ a. a) (λ a. codes "0") toy board (pos 0)) (
      selfplay_select_action int_floats
        (λ a. a)
        (λ a. codes "0")
        toy
        tree
        board
        (pos 0)
        (λ ds. 0)
        root_node
        false)
selfplay_select_action-IsAnswer_example =
    selfplay_select_action-IsAnswer int_floats tree (1 ∷ 2 ∷ []) (λ a. a) (λ a. codes "0") toy board
      (pos 0) (λ ds. 0) (λ ds h. h) root_node false (edge_to (pos 60) 5 ∷ edge_to (negsuc 0) 2 ∷ [])
      refl (omega arith) children
