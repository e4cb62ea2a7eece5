-- ===== src/MctsTree/Descent/Loss/Tests.antt =====
-- A rollout down the sample player's tree and back.
use estar_go.Base.{
  ℕ, zero, suc, ◌≡◌, refl, sym, subst, Option, some, List, [], ◌∷◌, arith, ◌∙◌, true, OnOk, Returns,
}
use estar_go.Base.Int.{pos}
use estar_go.Base.Floats.{int_floats}
use estar_go.MctsTree.{new_node, back_update}
use estar_go.MctsTree.Store.{contains}
use estar_go.MctsTree.Backup.{Under}
use estar_go.MctsTree.Descent.{select_path_root}
use estar_go.MctsTree.Descent.Loss.{IsLinked}
use estar_go.MctsTree.Descent.Loss.Path.{IsRepaid, select_path_root-back_update}
use estar_go.MctsTree.Descent.Ends.Tests.{pair, same_nexts, no_kids, start}
use estar_go.Player.Sample.{toy, sample_root, sample_child, sample_edge}

hangs : Under int_floats pair 1 0
unfolding new_node
hangs = (sample_child, sample_edge, refl, refl, refl, omega arith)

only_child :
    (kids : List ℕ) (k : ℕ)
    → ◌≡◌ {A = Option (List ℕ)} (some (1 ∷ [])) (some kids)
    → contains kids k ≡ true
    → k ≡ 1
unfolding contains
only_child kids k h c = ground arith

pair-IsLinked : IsLinked int_floats 0 pair
unfolding new_node
pair-IsLinked zero k nd kids le g e c =
    subst (λ k. Under int_floats pair k 0)
      (sym (only_child kids k (same_nexts sample_root nd g ∙ e) c)) hangs
pair-IsLinked (suc zero) k nd kids le g e c =
    absurd (no_kids kids (same_nexts sample_child nd g ∙ e))
pair-IsLinked (suc (suc i)) k nd kids le g e c = absurd (ground arith)

select_path_root-back_update_example :
    OnOk
      (λ q.
        Returns
          (IsRepaid int_floats toy 0 pair (pos 3))
          (back_update int_floats (suc q.leaf) q.tree q.leaf (pos 3) (pos 1) 0))
      (select_path_root int_floats toy 2 start (pos 3) (pos 1) (pos 1) (pos 50))
unfolding new_node
select_path_root-back_update_example =
    select_path_root-back_update int_floats toy 0 pair (pos 3) 2 start (pos 1) (pos 1) (pos 50)
      (pos 1) sample_root refl refl refl refl pair-IsLinked
