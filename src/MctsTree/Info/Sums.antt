-- ===== src/MctsTree/Info/Sums.antt =====
-- The sums that collect_tree_info in src/MCTSTree.cpp comes to, over the nodes that it visits.
use estar_go.Base.{
  ℕ, zero, suc, ◌+◌, ◌≡◌, ◌<◌, refl, sym, ap, ◌∙◌, subst, Bool, true, false, ◌&&◌, List, [], ◌∷◌,
  ok, Returns, Returns-bind, Returns-map, OnOk-ok, ◌==◌, if◌then◌else◌, length, get_or, sum_by,
  arith,
}
use estar_go.Base.Int.{pos, ltb_ℤ}
use estar_go.Base.Floats.{Floats}
use estar_go.MctsTree.{Node, Tree}
use estar_go.MctsTree.Info.{
  TreeInfo, count_at, deeper, collect, counted, count_node, count_child, collect_tree_info,
  visited_above,
}
use estar_go.MctsTree.Info.Tally.{Entry, preorder, tally, collect_tree_info-tally}

abbrev one_if : Bool → ℕ
one_if b = if b then 1 else 0

count_at-Returns :
    (d : ℕ) (ns : List ℕ)
    → d < length ns
    → Returns
        (λ r. (length r ≡ length ns) × ((i : ℕ) → get_or r i 0 ≡ get_or ns i 0 + one_if (i == d)))
        (count_at d ns)
unfolding count_at
count_at-Returns d [] h = omega (arith, h)
count_at-Returns zero (n ∷ ns) h = (refl, at_head)
  where
    at_head : (i : ℕ) → get_or (suc n ∷ ns) i 0 ≡ get_or (n ∷ ns) i 0 + one_if (i == 0)
    at_head zero = omega arith
    at_head (suc i) = ground arith
count_at-Returns (suc d) (n ∷ ns) h =
    Returns-bind _ _ (count_at d ns) _ (count_at-Returns d ns (omega (arith, h)))
      λ r c. (ap suc c.0, behind r c.1)
  where
    behind :
        (r : List ℕ)
        → ((i : ℕ) → get_or r i 0 ≡ get_or ns i 0 + one_if (i == d))
        → (i : ℕ) → get_or (n ∷ r) i 0 ≡ get_or (n ∷ ns) i 0 + one_if (i == suc d)
    behind r c zero = ground arith
    behind r c (suc i) = ground (arith, c i)

-- By how much the numbers have grown, the places of width included.
pub record Grown (nodes depths wide inner : ℕ) (places : ℕ → ℕ) (info r : TreeInfo) : Type 0 where
  pub node_sum : r.node_number ≡ info.node_number + nodes
  pub depth_sum : r.avg_depth ≡ info.avg_depth + depths
  pub width_sum : r.avg_width ≡ info.avg_width + wide
  pub inner_sum : r.non_leaf_node_number ≡ info.non_leaf_node_number + inner
  pub same_length : length r.width ≡ length info.width
  pub place_sum : (i : ℕ) → get_or r.width i 0 ≡ get_or info.width i 0 + places i

Grown-trans :
    {n m d e w v k j nodes depths wide inner : ℕ} {f g places : ℕ → ℕ} (a b c : TreeInfo)
    → Grown n d w k f a b
    → Grown m e v j g b c
    → nodes ≡ n + m
    → depths ≡ d + e
    → wide ≡ w + v
    → inner ≡ k + j
    → ((i : ℕ) → places i ≡ f i + g i)
    → Grown nodes depths wide inner places a c
Grown-trans a b c p q x y z u h = record {
  node_sum = omega (arith, x, p.node_sum, q.node_sum);
  depth_sum = omega (arith, y, p.depth_sum, q.depth_sum);
  width_sum = omega (arith, z, p.width_sum, q.width_sum);
  inner_sum = omega (arith, u, p.inner_sum, q.inner_sum);
  same_length = q.same_length ∙ p.same_length;
  place_sum = λ i. omega (arith, h i, p.place_sum i, q.place_sum i);
}

-- Numbers that differ in the depths only.
deeper-Grown : (d : ℕ) (info : TreeInfo) → Grown 0 0 0 0 (λ i. 0) info (deeper d info)
deeper-Grown d info = by_test (ltb_ℤ info.max_depth (pos d))
  where
    by_test :
        (b : Bool)
        → Grown 0 0 0 0 (λ i. 0) info (if b then record info { max_depth = pos d } else info)
    by_test true = record {
      node_sum = omega arith;
      depth_sum = omega arith;
      width_sum = omega arith;
      inner_sum = omega arith;
      same_length = refl;
      place_sum = λ i. omega arith;
    }
    by_test false = record {
      node_sum = omega arith;
      depth_sum = omega arith;
      width_sum = omega arith;
      inner_sum = omega arith;
      same_length = refl;
      place_sum = λ i. omega arith;
    }

module _ (fl : Floats) where
  abbrev pub inner_node : Node fl → ℕ
  inner_node nd = one_if (visited_above fl 1 nd.edge)

  abbrev pub visited_child : Node fl → ℕ
  visited_child nd = one_if (visited_above fl 0 nd.edge)

  -- The node counts for the place of its depth, when it has an evaluation.
  abbrev pub ready_at : ℕ → Node fl → ℕ → ℕ
  ready_at i nd d = one_if (nd.eval_ready && (i == d))

  -- The node's depth is within the array.
  abbrev pub IsShallow : ℕ → List (Entry fl) → Type 0
  IsShallow n [] = Unit
  IsShallow n (x ∷ l) = (x.1 < n) × IsShallow n l

  collect-Grown :
      (d : ℕ) (info : TreeInfo)
      → d < length info.width
      → Returns (Grown 0 0 0 0 (λ i. one_if (i == d)) info) (collect d info)
  unfolding collect
  collect-Grown d info h =
      Returns-bind _ _ (count_at d info.width) _ (count_at-Returns d info.width h) λ w c.
        let p = deeper-Grown d info in
        record {
          node_sum = p.node_sum;
          depth_sum = p.depth_sum;
          width_sum = p.width_sum;
          inner_sum = p.inner_sum;
          same_length = c.0;
          place_sum = c.1;
        }

  count_node-Grown :
      (nd : Node fl) (d : ℕ) (info : TreeInfo)
      → d < length info.width
      → Returns (Grown 1 d 0 (inner_node nd) (λ i. ready_at i nd d) info) (count_node fl nd d info)
  unfolding count_node
  count_node-Grown nd d info h = by_ready nd.eval_ready (counted fl nd d info) (
      let p = deeper-Grown d info in
      record {
        node_sum = refl;
        depth_sum = refl;
        width_sum = p.width_sum;
        inner_sum = leaves (visited_above fl 1 nd.edge);
        same_length = p.same_length;
        place_sum = p.place_sum;
      })
    where
      leaves :
          (b : Bool)
          → (if b then info.non_leaf_node_number + 1 else info.non_leaf_node_number)
            ≡ info.non_leaf_node_number + one_if b
      leaves true = refl
      leaves false = omega arith

      by_ready :
          (ready : Bool) (new : TreeInfo)
          → Grown 1 d 0 (inner_node nd) (λ i. 0) info new
          → Returns
              (Grown 1 d 0 (inner_node nd) (λ i. one_if (ready && (i == d))) info)
              (if ready then collect d new else ok new)
      by_ready false new p = p
      by_ready true new p =
          Returns-map _ _ (collect d new)
            (λ r q.
              Grown-trans info new r p q (omega arith) (omega arith) (omega arith) (omega arith)
                (λ i. omega arith))
            (collect-Grown d new (omega (arith, h, p.same_length)))

  count_child-Grown :
      (nd : Node fl) (info : TreeInfo)
      → Grown 0 0 (visited_child nd) 0 (λ i. 0) info (count_child fl nd info)
  count_child-Grown nd info = by_visits (visited_above fl 0 nd.edge)
    where
      by_visits :
          (b : Bool)
          → Grown 0 0
              (one_if b)
              0
              (λ i. 0)
              info
              (if b then record info { avg_width = info.avg_width + 1 } else info)
      by_visits true = record {
        node_sum = omega arith;
        depth_sum = omega arith;
        width_sum = refl;
        inner_sum = omega arith;
        same_length = refl;
        place_sum = λ i. omega arith;
      }
      by_visits false = record {
        node_sum = omega arith;
        depth_sum = omega arith;
        width_sum = omega arith;
        inner_sum = omega arith;
        same_length = refl;
        place_sum = λ i. omega arith;
      }

  -- The numbers have grown by those of a list of nodes below the first.
  abbrev pub GrownBy : List (Entry fl) → TreeInfo → TreeInfo → Type 0
  GrownBy l info r =
      Grown (length l) (sum_by (λ x. x.1) l) (sum_by (λ x. visited_child x.0) l)
        (sum_by (λ x. inner_node x.0) l) (λ i. sum_by (λ x. ready_at i x.0 x.1) l) info r

  tally-Grown :
      (l : List (Entry fl)) (info : TreeInfo)
      → IsShallow (length info.width) l
      → Returns (GrownBy l info) (tally fl l info)
  unfolding tally
  tally-Grown [] info h = record {
    node_sum = omega arith;
    depth_sum = omega arith;
    width_sum = omega arith;
    inner_sum = omega arith;
    same_length = refl;
    place_sum = λ i. omega arith;
  }
  tally-Grown (x ∷ l) info (h, hs) =
      let child = count_child-Grown x.0 info in
      Returns-bind _ _ (count_node fl x.0 x.1 (count_child fl x.0 info)) _
        (count_node-Grown x.0 x.1 (count_child fl x.0 info) (omega (arith, h, child.same_length)))
        λ r node.
          let both : Grown 1 x.1 (visited_child x.0) (inner_node x.0) (λ i. ready_at i x.0 x.1) info
              r =
            Grown-trans info (count_child fl x.0 info) r child node (omega arith) (omega arith)
              (omega arith) (omega arith) (λ i. omega arith) in
          Returns-map _ _ (tally fl l r)
            (λ q rest.
              Grown-trans info r q both rest (omega arith) (omega arith) (omega arith) (omega arith)
                (λ i. omega arith))
            (tally-Grown l r (subst (λ n. IsShallow n l) (sym both.same_length) hs))

  -- If the nodes below a node are those of a list, and the depths are within the array, collect_tree_info
  -- returns, and the numbers have grown: by the nodes, by their depths, by the nodes below the first with a
  -- visit, by the nodes with two visits or more, and at each place of the array by the nodes of that depth
  -- that have an evaluation.
  pub collect_tree_info-Grown :
      (fuel : ℕ) (t : Tree fl) (cur depth : ℕ) (info : TreeInfo) (nd : Node fl)
      (l : List (Entry fl))
      → preorder fl fuel t cur depth ≡ ok (nd, l)
      → IsShallow (length info.width) ((nd, depth) ∷ l)
      → Returns
          (Grown
            (suc (length l))
            (depth + sum_by (λ x. x.1) l)
            (sum_by (λ x. visited_child x.0) l)
            (inner_node nd + sum_by (λ x. inner_node x.0) l)
            (λ i. ready_at i nd depth + sum_by (λ x. ready_at i x.0 x.1) l)
            info)
          (collect_tree_info fl fuel t cur depth info)
  collect_tree_info-Grown fuel t cur depth info nd l e (h, hs) =
      let same =
        OnOk-ok _ (preorder fl fuel t cur depth) (collect_tree_info-tally fl fuel t cur depth) e in
      subst (Returns _) (sym (same.1 info)) (
        Returns-bind _ _ (count_node fl nd depth info) _ (count_node-Grown nd depth info h)
          λ r node.
            Returns-map _ _ (tally fl l r)
              (λ q rest.
                Grown-trans info r q node rest (omega arith) (omega arith) (omega arith)
                  (omega arith) (λ i. omega arith))
              (tally-Grown l r (subst (λ n. IsShallow n l) (sym node.same_length) hs)))
