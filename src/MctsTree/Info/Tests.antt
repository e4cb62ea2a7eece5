-- ===== src/MctsTree/Info/Tests.antt =====
-- The numbers of the sample player's tree.
use estar_go.Base.{◌+◌, ◌≡◌, refl, [], ◌∷◌, Returns, ok, arith}
use estar_go.Base.Floats.{int_floats}
use estar_go.Player.Sample.{sample_root, sample_child}
use estar_go.MctsTree.{new_node, node_at}
use estar_go.MctsTree.Descent.Order.{Ends}
use estar_go.MctsTree.Descent.Ends.Tests.{pair}
use estar_go.MctsTree.Info.{TreeInfo, new_info, empty_places, collect_tree_info}
use estar_go.MctsTree.Info.Tally.{preorder}
use estar_go.MctsTree.Info.Sums.{Grown, ready_at, collect_tree_info-Grown}

abbrev four : TreeInfo
four = record new_info { width = empty_places 4 }

pair-preorder : preorder int_floats 3 pair 0 0 ≡ ok (sample_root, (sample_child, 1) ∷ [])
unfolding preorder node_at new_node
pair-preorder = refl

collect_tree_info-Grown_example :
    Returns
      (Grown 2
        (0 + (1 + 0))
        (1 + 0)
        (0 + (1 + 0))
        (λ i. ready_at int_floats i sample_root 0 + (ready_at int_floats i sample_child 1 + 0))
        four)
      (collect_tree_info int_floats 3 pair 0 0 four)
unfolding new_node
collect_tree_info-Grown_example =
    collect_tree_info-Grown int_floats 3 pair 0 0 four sample_root ((sample_child, 1) ∷ [])
      pair-preorder (omega arith, (omega arith, tt))
