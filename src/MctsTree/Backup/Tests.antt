-- ===== src/MctsTree/Backup/Tests.antt =====
-- The backup in a store of four nodes: 0 over 1 over 3, and 2 beside.
use estar_go.Base.{ℕ, ◌≡◌, refl, true, false, [], ◌∷◌, none, some, arith, get_elem?, Returns}
use estar_go.Base.Int.{ℤ, pos, negsuc}
use estar_go.Base.Floats.{int_floats}
use estar_go.MctsTree.{Node, Edge, Tree, back_update}
use estar_go.MctsTree.Store.{contains, map_some}
use estar_go.MctsTree.Backup.{Chain, climbers, updated, back_update-Effect}

abbrev edge_to : ℤ → Edge int_floats
edge_to a = record { action = a; p = pos 0; old_p = pos 0; n = 2; w = pos 1; vl = pos 3 }

abbrev blank : Node int_floats
blank = record {
  nexts = none;
  father = none;
  edge = none;
  total_n = 4;
  invalid_visit = 0;
  depth = 0;
  value_pred = pos 0;
  rq_sent = true;
  eval_ready = true;
  is_terminate = false;
  is_repetition_checked = true;
  is_repetition = false;
  result = pos 0;
  add_dirichlet = false;
  dirichlet_max_action = negsuc 0;
}

abbrev store : Tree int_floats
store =
    record blank { nexts = some (1 ∷ 2 ∷ []) }
    ∷ record blank { father = some 0; edge = some (edge_to (pos 5)); nexts = some (3 ∷ []) }
    ∷ record blank { father = some 0; edge = some (edge_to (pos 6)) }
    ∷ record blank { father = some 1; edge = some (edge_to (pos 7)) }
    ∷ []

store-Chain : Chain int_floats store 3 (1 ∷ 0 ∷ [])
store-Chain = (
  (
    record blank { father = some 1; edge = some (edge_to (pos 7)) },
    edge_to (pos 7),
    refl,
    refl,
    refl,
    omega arith,
  ),
  (
    (
      record blank { father = some 0; edge = some (edge_to (pos 5)); nexts = some (3 ∷ []) },
      edge_to (pos 5),
      refl,
      refl,
      refl,
      omega arith,
    ),
    (record blank { nexts = some (1 ∷ 2 ∷ []) }, refl, refl),
  ),
)

back_update-Effect_example :
    Returns
      (λ t'.
        (j : ℕ)
        → get_elem? t' j
          ≡ map_some
              (updated int_floats
                (pos 3)
                (pos 1)
                0
                (contains (1 ∷ 0 ∷ []) j)
                (contains (climbers int_floats 3 (1 ∷ 0 ∷ [])) j))
              (get_elem? store j))
      (back_update int_floats 4 store 3 (pos 3) (pos 1) 0)
back_update-Effect_example =
    back_update-Effect int_floats store 3 (1 ∷ 0 ∷ []) (pos 3) (pos 1) 0 store-Chain
