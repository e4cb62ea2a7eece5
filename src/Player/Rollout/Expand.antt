-- ===== src/Player/Rollout/Expand.antt =====
-- The children that the callback of server_evaluate in src/MCTSPlayer.cpp makes.
use estar_go.Base.{
  ℕ, zero, suc, ◌+◌, ◌≡◌, ◌≤◌, ◌<◌, ◌-◌, ◌==◌, refl, ◌⊎◌, inl, inr, Bool, true, false, not, ◌&&◌,
  List, [], ◌∷◌, ◌++◌, none, some, Bool-cases, arith, get_elem?, length, ◌∙◌, ap,
}
use estar_go.Base.Int.{ℤ, eqb_ℤ, eqb_ℤ-eq}
use estar_go.Base.Floats.{Floats}
use estar_go.GoBoard.{Pachi, pos_pass}
use estar_go.MctsTree.{Node, Edge, Tree, modify, new_node, new_edge}
use estar_go.MctsTree.Store.{contains, get_elem?-modify, get_elem?-modify_self}
use estar_go.Player.Rollout.{
  PolicyItem, Request, child_node, child_nodes, indexes, sort_items, expand,
}

module _ (fl : Floats) (pachi : Pachi) where
  open fl use {F, less}

  -- A child as the callback makes it: of the leaf, one deeper, unvisited, with a prior that is not below
  -- the threshold unless it is a pass.
  abbrev pub IsFresh : F → ℕ → Node fl → Node fl → Type 0
  IsFresh threshold leaf nd child =
      (e : Edge fl) × (child.edge ≡ some e)
      × (child.father ≡ some leaf)
      × (child.depth ≡ nd.depth + 1)
      × (child.nexts ≡ none)
      × (e.n ≡ 0)
      × ((e.action ≡ pos_pass) ⊎ (less e.p threshold ≡ false))

  abbrev AllFresh : F → ℕ → Node fl → List (Node fl) → Type 0
  AllFresh threshold leaf nd [] = Unit {0}
  AllFresh threshold leaf nd (c ∷ cs) = IsFresh threshold leaf nd c × AllFresh threshold leaf nd cs

  kept : (a b : Bool) → (not a && b) ≡ false → (a ≡ true) ⊎ (b ≡ false)
  kept a b h = ground arith

  child_node-IsFresh :
      (threshold : F) (leaf : ℕ) (nd : Node fl) (tt' : ℤ) (item : PolicyItem fl pachi)
      → (not (eqb_ℤ item.position pos_pass) && less item.prob threshold) ≡ false
      → IsFresh threshold leaf nd (child_node fl pachi leaf nd tt' item)
  unfolding child_node new_node new_edge
  child_node-IsFresh threshold leaf nd tt' item h =
      elim (kept (eqb_ℤ item.position pos_pass) (less item.prob threshold) h) [
        | inl p ↦ (
          new_edge fl item.position item.prob,
          refl,
          refl,
          refl,
          refl,
          refl,
          inl (eqb_ℤ-eq _ _ p),
        )
        | inr q ↦ (new_edge fl item.position item.prob, refl, refl, refl, refl, refl, inr q)
      ]

  child_nodes-AllFresh :
      (threshold : F) (leaf : ℕ) (nd : Node fl) (tt' : ℤ) (items : List (PolicyItem fl pachi))
      → AllFresh threshold leaf nd (child_nodes fl pachi threshold leaf nd tt' items)
  unfolding child_nodes
  child_nodes-AllFresh threshold leaf nd tt' [] = tt
  child_nodes-AllFresh threshold leaf nd tt' (item ∷ items) =
      elim (Bool-cases (not (eqb_ℤ item.position pos_pass) && less item.prob threshold)) [
        | inl b ↦ rw b (child_nodes-AllFresh threshold leaf nd tt' items)
        | inr b ↦ rw b (
          child_node-IsFresh threshold leaf nd tt' item b,
          child_nodes-AllFresh threshold leaf nd tt' items,
        )
      ]

  -- The index `i` leads to a fresh child of the list, which starts at `start` in the store.
  abbrev FreshAt : F → ℕ → Node fl → List (Node fl) → ℕ → ℕ → Type 0
  FreshAt threshold leaf nd cs start i =
      (c : Node fl) × (get_elem? cs (i - start) ≡ some c)
      × IsFresh threshold leaf nd c
      × (start ≤ i)

  later :
      (cs : List (Node fl)) (c : Node fl) (start i : ℕ)
      → suc start ≤ i
      → get_elem? (c ∷ cs) (i - start) ≡ get_elem? cs (i - suc start)
  later cs c start i h =
      let e : i - start ≡ suc (i - suc start) = omega arith in ap (get_elem? (c ∷ cs)) e

  first :
      (cs : List (Node fl)) (c : Node fl) (start i : ℕ)
      → (start == i) ≡ true
      → get_elem? (c ∷ cs) (i - start) ≡ some c
  first cs c start i h = let e : i - start ≡ 0 = ground arith in ap (get_elem? (c ∷ cs)) e

  indexes-FreshAt :
      (threshold : F) (leaf : ℕ) (nd : Node fl) (cs : List (Node fl)) (start i : ℕ)
      → AllFresh threshold leaf nd cs
      → contains (indexes fl pachi start cs) i ≡ true
      → FreshAt threshold leaf nd cs start i
  unfolding indexes contains
  indexes-FreshAt threshold leaf nd [] start i a h = absurd (ground arith)
  indexes-FreshAt threshold leaf nd (c ∷ cs) start i (f, a) h = elim (Bool-cases (start == i)) [
    | inl e ↦ (c, first cs c start i e, f, ground arith)
    | inr e ↦
        let (d, g, k, l) = indexes-FreshAt threshold leaf nd cs (suc start) i a (ground arith) in
        (d, later cs c start i l ∙ g, k, omega arith)
  ]

  get_elem?-append_right :
      (t cs : List (Node fl)) (i : ℕ)
      → length t ≤ i
      → get_elem? (t ++ cs) i ≡ get_elem? cs (i - length t)
  get_elem?-append_right [] cs i h = ap (get_elem? cs) (omega arith)
  get_elem?-append_right (x ∷ t) cs zero h = absurd (omega arith)
  get_elem?-append_right (x ∷ t) cs (suc i) h =
      get_elem?-append_right t cs i (omega arith) ∙ ap (get_elem? cs) (omega arith)

  get_elem?-append_left :
      (t cs : List (Node fl)) (i : ℕ) (nd : Node fl)
      → get_elem? t i ≡ some nd
      → (get_elem? (t ++ cs) i ≡ some nd) × (i < length t)
  get_elem?-append_left [] cs i nd h = absurd (ground arith)
  get_elem?-append_left (x ∷ t) cs zero nd h = (h, omega arith)
  get_elem?-append_left (x ∷ t) cs (suc i) nd h =
      let r = get_elem?-append_left t cs i nd h in (r.0, omega (arith, r.1))

  -- What the callback leaves: the leaf is ready, with its value and its children, each of them fresh, and
  -- every other node is as it was.
  pub record IsExpanded (threshold : F) (rq : Request fl pachi) (score : F) (t : Tree fl)
      (nd : Node fl) (t' : Tree fl) : Type 0 where
    pub ready :
        (kids : List ℕ) × (get_elem? t' rq.leaf
          ≡ some (record nd { value_pred = score; nexts = some kids; eval_ready = true }))
        × ((i : ℕ)
            → contains kids i ≡ true
            → (c : Node fl) × (get_elem? t' i ≡ some c) × IsFresh threshold rq.leaf nd c)
    pub others :
        (j : ℕ) (other : Node fl)
        → get_elem? t j ≡ some other
        → (j ≡ rq.leaf) ⊎ (get_elem? t' j ≡ some other)

  elsewhere :
      (t : Tree fl) (f : Node fl → Node fl) (leaf j : ℕ)
      → (leaf == j) ≡ false
      → get_elem? (modify fl leaf f t) j ≡ get_elem? t j
  elsewhere t f leaf j e = get_elem?-modify fl leaf j f t ∙ rw e refl

  -- The callback of server_evaluate before its backup: the leaf gets the value, is ready, and has children
  -- that are new nodes, its own, one deeper, unvisited, and with a prior that is not below the threshold
  -- unless they are a pass. Every other node is as it was.
  pub expand-IsExpanded :
      (threshold : F) (rq : Request fl pachi) (score : F) (policy : List (PolicyItem fl pachi))
      (t : Tree fl) (nd : Node fl)
      → get_elem? t rq.leaf ≡ some nd
      → IsExpanded threshold rq score t nd (expand fl pachi threshold rq score policy t nd)
  unfolding expand
  expand-IsExpanded threshold rq score policy t nd h =
      let cs =
        child_nodes fl pachi threshold rq.leaf nd rq.tromp_taylor (sort_items fl pachi policy) in
      let kids = indexes fl pachi (length t) cs in
      let f : Node fl → Node fl =
        λ l. record l { value_pred = score; nexts = some kids; eval_ready = true } in
      let (at_leaf, inside) = get_elem?-append_left t cs rq.leaf nd h in
      record {
        ready = (
          kids,
          get_elem?-modify_self fl rq.leaf f (t ++ cs) nd at_leaf,
          λ i m.
              let (c, g, k, l) =
                indexes-FreshAt threshold rq.leaf nd cs (length t) i
                  (child_nodes-AllFresh threshold rq.leaf nd rq.tromp_taylor
                    (sort_items fl pachi policy))
                  m in
              (
                c,
                elsewhere (t ++ cs) f rq.leaf i (ground (arith, inside, l))
                    ∙ (get_elem?-append_right t cs i l ∙ g),
                k,
              ),
        );
        others = λ j other g. elim (Bool-cases (rq.leaf == j)) [
          | inl e ↦ inl (ground arith)
          | inr e ↦
              inr (elsewhere (t ++ cs) f rq.leaf j e ∙ (get_elem?-append_left t cs j other g).0)
        ];
      }
