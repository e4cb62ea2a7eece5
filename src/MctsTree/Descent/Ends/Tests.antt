-- ===== src/MctsTree/Descent/Ends/Tests.antt =====
-- The descent from the root of the sample player's tree.
use estar_go.Base.{ℕ, zero, suc, ◌≡◌, Option, none, some, List, [], ◌∷◌, ◌<◌, arith, ◌∙◌, true}
use estar_go.Base.Int.{pos}
use estar_go.Base.Floats.{int_floats}
use estar_go.MctsTree.{Node, Tree, new_node}
use estar_go.MctsTree.Store.{contains}
use estar_go.MctsTree.Descent.{Selected, select_path_root}
use estar_go.MctsTree.Descent.Order.{Ends, IsOrdered}
use estar_go.MctsTree.Descent.Ends.{select_path_root-Ends}
use estar_go.Player.Sample.{toy, sample_root, sample_child, sample_board}

abbrev pub pair : Tree int_floats
pair = sample_root ∷ sample_child ∷ []

pub same_nexts :
    (a nd : Node int_floats)
    → ◌≡◌ {A = Option (Node int_floats)} (some a) (some nd)
    → a.nexts ≡ nd.nexts
same_nexts a nd h = ground arith

behind_root :
    (kids : List ℕ) (k : ℕ)
    → ◌≡◌ {A = Option (List ℕ)} (some (1 ∷ [])) (some kids)
    → contains kids k ≡ true
    → 0 < k
unfolding contains
behind_root kids zero h c = absurd (ground arith)
behind_root kids (suc k) h c = omega arith

pub no_kids : (kids : List ℕ) → ◌≡◌ {A = Option (List ℕ)} none (some kids) → ⊥
no_kids kids h = ground arith

pub pair-IsOrdered : IsOrdered int_floats pair
unfolding new_node
pair-IsOrdered zero k nd kids g e c = behind_root kids k (same_nexts sample_root nd g ∙ e) c
pair-IsOrdered (suc zero) k nd kids g e c = absurd (no_kids kids (same_nexts sample_child nd g ∙ e))
pair-IsOrdered (suc (suc i)) k nd kids g e c = absurd (ground arith)

abbrev pub start : Selected int_floats toy
start = record {
  leaf = 0;
  tree = pair;
  state = sample_board [];
  select_depth = 0;
  visit_num = 0;
  score_num = 0;
}

select_path_root-Ends_example :
    Ends (λ r. Unit {0}) (select_path_root int_floats toy 2 start (pos 3) (pos 1) (pos 1) (pos 50))
select_path_root-Ends_example =
    select_path_root-Ends int_floats toy 2 start (pos 3) (pos 1) (pos 1) (pos 50) pair-IsOrdered
      (omega arith)
