-- ===== src/MctsTree/Descent/Loss/Step.antt =====
-- One step of the descent of src/MCTSTree.cpp, as a write to the store.
use estar_go.Base.{
  ℕ, ◌+◌, ◌≡◌, ◌<◌, refl, ◌⊎◌, inl, inr, Bool, true, false, not, ◌&&◌, List, [], ◌∷◌, Option, none,
  some, Result, ok, err, OnOk, OnOk-bind, null_pointer, exited, ◌>>=◌, if◌then◌else◌, get_elem?,
  length,
}
use estar_go.Base.Int.{ℤ}
use estar_go.Base.Floats.{Floats}
use estar_go.GoBoard.{Pachi, GoBoard, apply_move}
use estar_go.MctsTree.{Node, Tree, node_at, edge_of, modify, with_edge}
use estar_go.MctsTree.Store.{contains}
use estar_go.MctsTree.Descent.{
  Choice, choose, no_choice, exploration, marked, lend, descend, Selected, select_step,
  father_values,
}
use estar_go.MctsTree.Descent.Order.{Ends, node_at-Ends, In, choose-Ends}

-- A call that ends has the property if it returns.
pub Ends-OnOk {ℓ} : {A : Type ℓ} (P : A → Type 0) (r : Result A) → Ends P r → OnOk P r
Ends-OnOk P (ok a) h = h
Ends-OnOk P (err e) h = tt

module _ (fl : Floats) (pachi : Pachi) (vl : ℤ) (max : ℤ) (s : Selected fl pachi) where
  -- The descent goes to a child, which is lent the virtual loss behind the marks.
  pub record IsLower (q : Selected fl pachi) : Type 0 where
    pub father_node : Node fl
    pub kids : List ℕ
    pub child_node : Node fl
    pub is_won : Bool
    pub here : get_elem? s.tree s.leaf ≡ some father_node
    pub nexts : father_node.nexts ≡ some kids
    pub chosen : contains kids q.leaf ≡ true
    pub lent :
        q.tree
        ≡ modify fl q.leaf
            (with_edge fl (lend fl vl))
            (marked fl s.tree s.leaf max is_won child_node)

  -- The step leaves the node and the store, or goes to a child.
  abbrev pub Went : Bool × Selected fl pachi → Type 0
  Went r = (r.0 ≡ false) × (r.1.tree ≡ s.tree) × (r.1.leaf ≡ s.leaf) ⊎ (r.0 ≡ true) × IsLower r.1

  descend-Lent :
      (t : Tree fl) (best : ℕ)
      → OnOk
          (λ d. d.0 ≡ modify fl best (with_edge fl (lend fl vl)) t)
          (descend fl pachi t best vl s.state)
  unfolding descend
  descend-Lent t best =
      OnOk-bind (λ nd. Unit {0}) (λ d. d.0 ≡ modify fl best (with_edge fl (lend fl vl)) t)
        (node_at fl t best) _ (any (node_at fl t best))
        λ nd x.
          OnOk-bind (λ e. Unit {0}) (λ d. d.0 ≡ modify fl best (with_edge fl (lend fl vl)) t)
            (edge_of fl nd) _ (any (edge_of fl nd))
            λ e x.
              on_test (apply_move pachi s.state e.action).0
                (modify fl best (with_edge fl (lend fl vl)) t) _ refl
    where
      any : {A : Type 0} (r : Result A) → OnOk (λ a. Unit {0}) r
      any (ok a) = tt
      any (err e) = tt

      on_test :
          (b : Bool) (t' : Tree fl) (g : GoBoard pachi) {u : Tree fl}
          → t' ≡ u
          → OnOk (λ (d : Tree fl × GoBoard pachi). d.0 ≡ u) (if b then ok (t', g) else err exited)
      on_test true t' g h = h
      on_test false t' g h = tt

  module _ (pruned : ℕ → Bool) (default : Node fl → fl.F)
      (no_best : Selected fl pachi → Result (Bool × Selected fl pachi)) (c_puct : fl.F)
      (stops : (s' : Selected fl pachi)
        → s'.tree ≡ s.tree
        → s'.leaf ≡ s.leaf
        → OnOk (λ r. (r.0 ≡ false) × (r.1.tree ≡ s.tree) × (r.1.leaf ≡ s.leaf)) (no_best s')) where
    went :
        (cur : Node fl) (kids : List ℕ) (ch : Choice fl)
        → get_elem? s.tree s.leaf ≡ some cur
        → cur.nexts ≡ some kids
        → (x : Option ℕ) → In fl s.tree pruned c_puct max c_puct c_puct kids x
        → OnOk Went (elim x [
          | none ↦
              no_best (record s { visit_num = s.visit_num + length kids; score_num = ch.score_num })
          | some best ↦
              (node_at fl s.tree best >>= λ nd.
              descend fl pachi (marked fl s.tree s.leaf max ch.is_won nd) best vl s.state >>= λ d.
              ok (
                true,
                record {
                  leaf = best;
                  tree = d.0;
                  state = d.1;
                  select_depth = s.select_depth + 1;
                  visit_num = s.visit_num + length kids;
                  score_num = ch.score_num;
                },
              ))
        ])
    went cur kids ch g e none m = stopped (no_best _) (
        stops (record s { visit_num = s.visit_num + length kids; score_num = ch.score_num }) refl
          refl)
      where
        stopped :
            (r : Result (Bool × Selected fl pachi))
            → OnOk (λ r. (r.0 ≡ false) × (r.1.tree ≡ s.tree) × (r.1.leaf ≡ s.leaf)) r
            → OnOk Went r
        stopped (ok r) h = inl h
        stopped (err e) h = tt
    went cur kids ch g e (some best) m =
        OnOk-bind (λ nd. (get_elem? s.tree best ≡ some nd) × (best < length s.tree)) Went
          (node_at fl s.tree best) _
          (Ends-OnOk (λ nd. (get_elem? s.tree best ≡ some nd) × (best < length s.tree))
            (node_at fl s.tree best) (node_at-Ends fl s.tree best))
          λ nd l.
            let t' = marked fl s.tree s.leaf max ch.is_won nd in
            OnOk-bind (λ d. d.0 ≡ modify fl best (with_edge fl (lend fl vl)) t') Went
              (descend fl pachi t' best vl s.state) _ (descend-Lent t' best)
              λ d h. inr (
                refl,
                record {
                  father_node = cur;
                  kids = kids;
                  child_node = nd;
                  is_won = ch.is_won;
                  here = g;
                  nexts = e;
                  chosen = m;
                  lent = h;
                },
              )

    on_nexts :
        (x : Option (List ℕ)) (chosen : List ℕ → Result (Bool × Selected fl pachi))
        → ((kids : List ℕ) → x ≡ some kids → OnOk Went (chosen kids))
        → OnOk Went (elim x [
          | none ↦ err null_pointer
          | some [] ↦ ok (false, s)
          | some (k ∷ ks) ↦ chosen (k ∷ ks)
        ])
    on_nexts none chosen h = tt
    on_nexts (some []) chosen h = inl (refl, refl, refl)
    on_nexts (some (k ∷ ks)) chosen h = h (k ∷ ks) refl

    on_ready :
        (b : Bool) (r : Result (Bool × Selected fl pachi))
        → OnOk Went r
        → OnOk Went (if b then r else ok (false, s))
    on_ready true r h = h
    on_ready false r h = inl (refl, refl, refl)

    pub select_step-Went : OnOk Went (select_step fl pachi pruned default no_best s vl c_puct max)
    unfolding select_step
    select_step-Went =
        OnOk-bind (λ nd. (get_elem? s.tree s.leaf ≡ some nd) × (s.leaf < length s.tree)) Went
          (node_at fl s.tree s.leaf) _
          (Ends-OnOk (λ nd. (get_elem? s.tree s.leaf ≡ some nd) × (s.leaf < length s.tree))
            (node_at fl s.tree s.leaf) (node_at-Ends fl s.tree s.leaf))
          λ cur g.
            let fa = father_values fl pachi (default cur) cur in
            on_ready (cur.eval_ready && not cur.is_terminate) _ (
              on_nexts cur.nexts _ (λ kids e.
                let r =
                  choose fl s.tree pruned (exploration fl c_puct cur) max fa.0 fa.1 kids
                    (no_choice fl s.score_num) in
                OnOk-bind (λ ch. In fl s.tree pruned c_puct max c_puct c_puct kids ch.best) Went r _
                  (Ends-OnOk (λ ch. In fl s.tree pruned c_puct max c_puct c_puct kids ch.best) r
                    (choose-Ends fl s.tree pruned (exploration fl c_puct cur) max fa.0 fa.1 kids
                      kids (no_choice fl s.score_num) (λ j m. m) tt))
                  λ ch m. went cur kids ch g.0 e ch.best m))
