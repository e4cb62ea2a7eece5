-- ===== src/MctsTree/Info/Tally.antt =====
-- The numbers of collect_tree_info in src/MCTSTree.cpp as those of a list of nodes.
use estar_go.Base.{
  ℕ, zero, suc, ◌≡◌, refl, sym, ap, ◌∙◌, Bool, true, false, List, [], ◌∷◌, ◌++◌, Option, none, some,
  Result, ok, err, null_pointer, hung, OnOk, OnOk-bind, OnOk-map, ◌>>=◌,
}
use estar_go.Base.Floats.{Floats}
use estar_go.MctsTree.{Node, Tree, node_at}
use estar_go.MctsTree.Info.{TreeInfo, count_node, count_child, each_child, collect_tree_info}

module _ (fl : Floats) where
  -- A node and its depth in the call.
  abbrev pub Entry : Type 0
  Entry = Node fl × ℕ

  -- The nodes below the children, each child before those below it.
  below : (ℕ → Result (Node fl × List Entry)) → ℕ → List ℕ → Result (List Entry)
  below list depth [] = ok []
  below list depth (k ∷ ks) =
      list k >>= λ r. below list depth ks >>= λ rest. ok ((r.0, depth) ∷ r.1 ++ rest)

  -- The node, and the nodes below it in the order of the calls: those of nodes without an evaluation are
  -- left out.
  unfoldable pub preorder : ℕ → Tree fl → ℕ → ℕ → Result (Node fl × List Entry)
  unfolding below
  preorder zero t cur depth = err hung
  preorder (suc fuel) t cur depth = node_at fl t cur >>= λ nd. elim nd.eval_ready [
    | false ↦ ok (nd, [])
    | true ↦ elim nd.nexts [
      | none ↦ err null_pointer
      | some nexts ↦
          (below (λ k. preorder fuel t k (suc depth)) (suc depth) nexts >>= λ l. ok (nd, l))
    ]
  ]

  -- The nodes of a list are counted one after the other.
  unfoldable pub tally : List Entry → TreeInfo → Result TreeInfo
  tally [] info = ok info
  tally (x ∷ l) info = count_node fl x.0 x.1 (count_child fl x.0 info) >>= λ r. tally l r

  tally-append :
      (l m : List Entry) (info : TreeInfo) → tally (l ++ m) info ≡ (tally l info >>= λ r. tally m r)
  unfolding tally
  tally-append [] m info = refl
  tally-append (x ∷ l) m info =
      on_result (count_node fl x.0 x.1 (count_child fl x.0 info)) (λ r. tally-append l m r)
    where
      on_result :
          (c : Result TreeInfo)
          → ((r : TreeInfo) → tally (l ++ m) r ≡ (tally l r >>= λ q. tally m q))
          → (c >>= λ r. tally (l ++ m) r) ≡ ((c >>= λ r. tally l r) >>= λ r. tally m r)
      on_result (ok r) h = h r
      on_result (err e) h = refl

  abbrev root_tally : Node fl → List Entry → ℕ → TreeInfo → Result TreeInfo
  root_tally nd l depth info = count_node fl nd depth info >>= λ r. tally l r

  bind_both :
      {A B : Type 0} (m : Result A) (f g : A → Result B)
      → ((a : A) → f a ≡ g a)
      → (m >>= f) ≡ (m >>= g)
  bind_both (ok a) f g h = h a
  bind_both (err e) f g h = refl

  bind_twice :
      {A B C : Type 0} (m : Result A) (f : A → Result B) (g : B → Result C)
      → ((m >>= f) >>= g) ≡ (m >>= λ a. f a >>= g)
  bind_twice (ok a) f g = refl
  bind_twice (err e) f g = refl

  -- The calls count what the lists hold.
  abbrev Counts : Tree fl → ℕ → (ℕ → TreeInfo → Result TreeInfo) → ℕ → Node fl × List Entry → Type 0
  Counts t depth visit k r =
      (node_at fl t k ≡ ok r.0) × ((info : TreeInfo) → visit k info ≡ root_tally r.0 r.1 depth info)

  abbrev Tallied : ℕ → Node fl → (TreeInfo → Result TreeInfo) → Node fl × List Entry → Type 0
  Tallied at nd g r = (nd ≡ r.0) × ((info : TreeInfo) → g info ≡ root_tally r.0 r.1 at info)

  module _ (t : Tree fl) (depth : ℕ) (visit : ℕ → TreeInfo → Result TreeInfo)
      (list : ℕ → Result (Node fl × List Entry))
      (h : (k : ℕ) → OnOk (Counts t depth visit k) (list k)) where
    each_child-tally :
        (ks : List ℕ)
        → OnOk
            (λ l. (info : TreeInfo) → each_child fl visit t ks info ≡ tally l info)
            (below list depth ks)
    unfolding below each_child tally
    each_child-tally [] = λ info. refl
    each_child-tally (k ∷ ks) = OnOk-bind (Counts t depth visit k) _ (list k) _ (h k) λ r c.
        OnOk-bind (λ l. (info : TreeInfo) → each_child fl visit t ks info ≡ tally l info) _
          (below list depth ks) _ (each_child-tally ks)
          λ rest e info.
            ap
              (λ m.
                m >>= λ nd. visit k (count_child fl nd info) >>= λ q. each_child fl visit t ks q)
              c.0
            ∙ ap (λ m. m >>= λ q. each_child fl visit t ks q) (c.1 (count_child fl r.0 info))
            ∙ bind_twice (count_node fl r.0 depth (count_child fl r.0 info)) (λ q. tally r.1 q)
                (λ q. each_child fl visit t ks q)
            ∙ bind_both (count_node fl r.0 depth (count_child fl r.0 info)) _ _
                (λ q. bind_both (tally r.1 q) _ _ e ∙ sym (tally-append r.1 rest q))

    -- What the call does behind the node's own part.
    abbrev children : Bool → Option (List ℕ) → TreeInfo → Result TreeInfo
    children ready nexts q = elim ready [
      | false ↦ ok q
      | true ↦ elim nexts [ none ↦ err null_pointer | some ks ↦ each_child fl visit t ks q ]
    ]

    abbrev entries : Node fl → Bool → Option (List ℕ) → Result (Node fl × List Entry)
    entries nd ready nexts = elim ready [
      | false ↦ ok (nd, [])
      | true ↦ elim nexts [
        | none ↦ err null_pointer
        | some ks ↦ (below list depth ks >>= λ l. ok (nd, l))
      ]
    ]

    node-tally :
        (nd : Node fl) (at : ℕ) (ready : Bool) (nexts : Option (List ℕ))
        → OnOk
            (Tallied at nd λ info. count_node fl nd at info >>= λ q. children ready nexts q)
            (entries nd ready nexts)
    unfolding tally
    node-tally nd at false nexts = (refl, λ info. refl)
    node-tally nd at true none = tt
    node-tally nd at true (some ks) =
        OnOk-bind (λ l. (info : TreeInfo) → each_child fl visit t ks info ≡ tally l info) _
          (below list depth ks) _ (each_child-tally ks)
          λ l h. (refl, λ info. bind_both (count_node fl nd at info) _ _ h)

  -- What collect_tree_info adds to the numbers is what the node and then each node below it adds, in the order
  -- of the calls.
  pub collect_tree_info-tally :
      (fuel : ℕ) (t : Tree fl) (cur depth : ℕ)
      → OnOk
          (λ r.
            (node_at fl t cur ≡ ok r.0)
            × ((info : TreeInfo)
                → collect_tree_info fl fuel t cur depth info
                  ≡ (count_node fl r.0 depth info >>= λ q. tally r.1 q)))
          (preorder fuel t cur depth)
  unfolding collect_tree_info preorder
  collect_tree_info-tally zero t cur depth = tt
  collect_tree_info-tally (suc fuel) t cur depth = of_node (node_at fl t cur) _ _ (λ nd.
      node-tally t (suc depth) (λ k. collect_tree_info fl fuel t k (suc depth))
        (λ k. preorder fuel t k (suc depth)) (λ k. collect_tree_info-tally fuel t k (suc depth)) nd
        depth nd.eval_ready nd.nexts)
    where
      of_node :
          (m : Result (Node fl)) (f : Node fl → Result (Node fl × List Entry))
          (g : Node fl → TreeInfo → Result TreeInfo)
          → ((nd : Node fl) → OnOk (Tallied depth nd (g nd)) (f nd))
          → OnOk
              (λ r.
                (m ≡ ok r.0)
                × ((info : TreeInfo) → (m >>= λ nd. g nd info) ≡ root_tally r.0 r.1 depth info))
              (m >>= f)
      of_node (err e) f g h = tt
      of_node (ok nd) f g h =
          OnOk-map (Tallied depth nd (g nd)) _ (f nd) (λ r c. (ap ok c.0, c.1)) (h nd)
