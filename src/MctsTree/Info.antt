-- ===== src/MctsTree/Info.antt =====
-- TreeInfo of include/MCTSTree.h and collect_tree_info of src/MCTSTree.cpp: the numbers of a search tree.
pub mod Ends
pub mod Sums
pub mod Tally
mod Tests
use estar_go.Base.{
  ℕ, zero, suc, ◌+◌, ◌≡◌, Bool, true, false, List, [], ◌∷◌, ◌++◌, Option, none, some, Result, ok,
  err, null_pointer, overrun, hung, ltb, ◌==◌, ◌>>=◌, if◌then◌else◌,
}
use estar_go.Base.Int.{ℤ, pos, negsuc, ltb_ℤ}
use estar_go.Base.Floats.{Floats}
use estar_go.MctsTree.{Edge, Node, Tree, node_at}

pub record TreeInfo : Type 0 where
  pub width : List ℕ
  pub max_depth : ℤ
  pub avg_depth : ℕ
  pub avg_width : ℕ
  pub max_width : ℤ
  pub node_number : ℕ
  pub non_leaf_node_number : ℕ

abbrev pub empty_places : ℕ → List ℕ
empty_places zero = []
empty_places (suc n) = 0 ∷ empty_places n

-- The constructor.
abbrev pub new_info : TreeInfo
new_info = record {
  width = empty_places 1000;
  max_depth = negsuc 0;
  avg_depth = 0;
  avg_width = 0;
  max_width = negsuc 0;
  node_number = 0;
  non_leaf_node_number = 0;
}

-- width[depth]++
pub count_at : ℕ → List ℕ → Result (List ℕ)
count_at i [] = err overrun
count_at zero (n ∷ ns) = ok (suc n ∷ ns)
count_at (suc i) (n ∷ ns) = count_at i ns >>= λ r. ok (n ∷ r)

abbrev pub deeper : ℕ → TreeInfo → TreeInfo
deeper depth info =
    if ltb_ℤ info.max_depth (pos depth) then record info { max_depth = pos depth } else info

-- TreeInfo::collect
pub collect : ℕ → TreeInfo → Result TreeInfo
unfolding count_at
collect depth info =
    count_at depth info.width >>= λ w. ok (record (deeper depth info) { width = w })

module _ (fl : Floats) where
  -- Whether there is an edge with more than `m` visits.
  abbrev pub visited_above : ℕ → Option (Edge fl) → Bool
  visited_above m none = false
  visited_above m (some e) = ltb m e.n

  -- The node in the numbers.
  abbrev pub counted : Node fl → ℕ → TreeInfo → TreeInfo
  counted nd depth info = record (deeper depth info) {
    node_number = info.node_number + 1;
    avg_depth = info.avg_depth + depth;
    non_leaf_node_number =
        if visited_above 1 nd.edge
        then info.non_leaf_node_number + 1
        else info.non_leaf_node_number;
  }

  -- What the node itself adds.
  pub count_node : Node fl → ℕ → TreeInfo → Result TreeInfo
  unfolding collect
  count_node nd depth info =
      if nd.eval_ready then collect depth (counted nd depth info) else ok (counted nd depth info)

  -- What a child adds before the call for it.
  abbrev pub count_child : Node fl → TreeInfo → TreeInfo
  count_child nd info =
      if visited_above 0 nd.edge then record info { avg_width = info.avg_width + 1 } else info

  -- The loop over the children, for the call `visit`.
  pub each_child : (ℕ → TreeInfo → Result TreeInfo) → Tree fl → List ℕ → TreeInfo → Result TreeInfo
  each_child visit t [] info = ok info
  each_child visit t (k ∷ ks) info =
      node_at fl t k >>= λ nd. visit k (count_child nd info) >>= λ r. each_child visit t ks r

  -- collect_tree_info
  pub collect_tree_info : ℕ → Tree fl → ℕ → ℕ → TreeInfo → Result TreeInfo
  unfolding count_node each_child
  collect_tree_info zero t cur depth info = err hung
  collect_tree_info (suc fuel) t cur depth info = node_at fl t cur >>= λ nd.
      count_node nd depth info >>= λ r. elim nd.eval_ready [
        | false ↦ ok r
        | true ↦ elim nd.nexts [
          | none ↦ err null_pointer
          | some nexts ↦ each_child (λ k. collect_tree_info fuel t k (suc depth)) t nexts r
        ]
      ]
