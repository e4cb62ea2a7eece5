-- ===== src/MctsTree.antt =====
-- include/MCTSTree.h and src/MCTSTree.cpp: the search tree's nodes and edges, and the backup. The
-- nodes live in a store, a list; a pointer to a node is its index there, and an edge belongs to the
-- one node that it leads to. One thread's steps are modelled, in the order of the code; counts and
-- visits are taken as numbers that do not reach 2^31.
pub mod Store
pub mod Backup
pub mod Descent
pub mod Select
pub mod SelfPlay
pub mod Info
use estar_go.Base.{
  ℕ, zero, suc, ◌+◌, ◌-◌, ◌≡◌, Bool, true, false, not, ◌&&◌, ◌||◌, List, [], ◌∷◌, ◌++◌, Option,
  none, some, Result, ok, err, null_pointer, hung, exited, ◌>>=◌, if◌then◌else◌, ◌==◌, get_elem?,
  length, Text, codes,
}
use estar_go.Base.Int.{ℤ, pos, negsuc, ◌+ℤ◌, ◌-ℤ◌, ◌*ℤ◌, eqb_ℤ, ltb_ℤ}
use estar_go.Base.Floats.{Floats}
use estar_go.GoBoard.{Pachi, GoBoard, apply_move}

module _ (fl : Floats) where
  open fl use {F, of_int, of_text, add, sub, mul, div, root, less}

  pub record Edge : Type 0 where
    pub action : ℤ
    pub p : F
    pub old_p : F
    pub n : ℕ
    pub w : F
    pub vl : ℤ

  -- The constructor; its third argument is not used.
  unfoldable pub new_edge : ℤ → F → Edge
  new_edge action p = record {
    action = action;
    p = p;
    old_p = p;
    n = 0;
    w = of_int (pos 0);
    vl = pos 0;
  }

  -- Edge::score: the utility by the UCT formula; an edge without a visit takes its father's values.
  unfoldable pub score : Edge → F → ℤ → F → F → F
  score e c max fa_w fa_n =
      let b = e.vl in
      let q = of_int (e.vl *ℤ max) in
      let explore = div (mul c e.p) (of_int (pos 1 +ℤ pos e.n +ℤ b)) in
      if e.n == 0
      then add explore
          (mul (div (sub fa_w q) (add (add fa_n (of_int b)) (of_text (codes "0.1")))) (of_int max))
      else add explore (mul (div (sub e.w q) (of_int (pos e.n +ℤ b))) (of_int max))

  pub record Node : Type 0 where
    pub nexts : Option (List ℕ)
    pub father : Option ℕ
    pub edge : Option Edge
    pub total_n : ℕ
    pub invalid_visit : ℕ
    pub depth : ℕ
    pub value_pred : F
    pub rq_sent : Bool
    pub eval_ready : Bool
    pub is_terminate : Bool
    pub is_repetition_checked : Bool
    pub is_repetition : Bool
    pub result : ℤ
    pub add_dirichlet : Bool
    pub dirichlet_max_action : ℤ

  -- The constructor.
  unfoldable pub new_node : Option ℕ → Option Edge → Node
  new_node father edge = record {
    nexts = none;
    father = father;
    edge = edge;
    total_n = 0;
    invalid_visit = 0;
    depth = 0;
    value_pred = of_int (pos 0);
    rq_sent = false;
    eval_ready = false;
    is_terminate = false;
    is_repetition_checked = false;
    is_repetition = false;
    result = pos 0;
    add_dirichlet = false;
    dirichlet_max_action = negsuc 0;
  }

  abbrev pub Tree : Type 0
  Tree = List Node

  -- A pointer that leads nowhere is null.
  unfoldable pub node_at : Tree → ℕ → Result Node
  node_at t i = elim (get_elem? t i) [ none ↦ err null_pointer | some nd ↦ ok nd ]

  unfoldable pub edge_of : Node → Result Edge
  edge_of nd = elim nd.edge [ none ↦ err null_pointer | some e ↦ ok e ]

  -- A write through a pointer.
  unfoldable pub modify : ℕ → (Node → Node) → Tree → Tree
  modify i f [] = []
  modify zero f (nd ∷ t) = f nd ∷ t
  modify (suc i) f (nd ∷ t) = nd ∷ modify i f t

  abbrev pub with_edge : (Edge → Edge) → Node → Node
  with_edge f nd = elim nd.edge [ none ↦ nd | some e ↦ record nd { edge = some (f e) } ]

  -- edge->vl -= (invalid_visit + 1) * vl; edge->n++; edge->w += z
  abbrev pub backed_up : ℤ → F → ℕ → Edge → Edge
  backed_up vl z invalid_visit e = record e {
    vl = e.vl -ℤ pos (invalid_visit + 1) *ℤ vl;
    n = e.n + 1;
    w = add e.w z;
  }

  abbrev pub visited : Node → Node
  visited nd = record nd { total_n = nd.total_n + 1 }

  -- mcts_back_update: up along the fathers, from `cur` to the root.
  pub back_update : ℕ → Tree → ℕ → ℤ → F → ℕ → Result Tree
  back_update zero t cur vl z invalid_visit = err hung
  back_update (suc fuel) t cur vl z invalid_visit = node_at t cur >>= λ nd. elim nd.father [
    | none ↦ ok t
    | some father ↦
        (edge_of nd >>= λ e.
        back_update fuel
          (modify father visited (modify cur (with_edge (backed_up vl z invalid_visit)) t)) father
          vl z invalid_visit)
  ]
