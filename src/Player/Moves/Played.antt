-- ===== src/Player/Moves/Played.antt =====
-- The player behind play of src/MCTSPlayer.cpp, a move of the opponent.
use estar_go.Base.{ℕ, ◌≡◌, ◌⊎◌, true, List, Option, none, some, get_elem?, length}
use estar_go.Base.Int.{ℤ}
use estar_go.Base.Floats.{Floats}
use estar_go.GoBoard.{Pachi, get_total_moves}
use estar_go.MctsTree.{Node, Edge, Tree}
use estar_go.MctsTree.Store.{contains}
use estar_go.Player.{Player}
use estar_go.Player.Moves.{Answer}

module _ (fl : Floats) (pachi : Pachi) where
  -- A child of the list whose edge has the action.
  abbrev pub IsFor : Tree fl → List ℕ → ℤ → ℕ → Type 0
  IsFor t kids action i =
      (nd : Node fl) × (e : Edge fl) × (contains kids i ≡ true)
      × (get_elem? t i ≡ some nd)
      × (nd.edge ≡ some e)
      × (e.action ≡ action)

  abbrev pub Found : Tree fl → List ℕ → ℤ → Option ℕ → Type 0
  Found t kids action o = (o ≡ none) ⊎ ((i : ℕ) × (o ≡ some i) × IsFor t kids action i)

  module _ (p : Player fl pachi) (r : ℕ) (cur : Node fl) (kids : List ℕ) where
    -- The root is the evaluated node `cur`, with the children `kids`.
    abbrev pub IsRoot : Type 0
    IsRoot = (p.root ≡ some r) × (get_elem? p.tree r ≡ some cur) × (cur.nexts ≡ some kids)

    abbrev Answers : Answer fl pachi → Type 0
    Answers a = Found p.tree kids a.op_action a.id

    -- The new root is the child with the action, cut off from its father, or a new node that stands
    -- behind the store.
    abbrev pub Rooted : Player fl pachi → Type 0
    Rooted p' =
        ((i : ℕ) × (p'.root ≡ some i) × IsFor p.tree kids p'.op_action i)
        ⊎ ((p'.root ≡ some (length p.tree))
            × (nd : Node fl) × (get_elem? p'.tree (length p.tree) ≡ some nd)
            × (nd.nexts ≡ none)
            × (nd.father ≡ none)
            × (nd.depth ≡ get_total_moves pachi p'.root_board))
