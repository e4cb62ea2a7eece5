-- ===== src/MctsTree/Descent/Loss/Path.antt =====
-- The virtual loss over a rollout of src/MCTSTree.cpp: what the descent lends, the backup gives back.
use estar_go.Base.{
  ℕ, zero, suc, ◌+◌, ◌≡◌, ◌≤◌, ◌<◌, refl, sym, ap, subst, ◌∙◌, inl, inr, Bool, true, false, List,
  [], ◌∷◌, Option, none, some, Result, ok, err, OnOk, OnOk-bind, OnOk-map, Returns, Returns-map,
  null_pointer, if◌then◌else◌, ◌==◌, get_elem?, arith,
}
use estar_go.Base.Int.{ℤ, pos, ◌-ℤ◌, ◌*ℤ◌, ltb_ℤ}
use estar_go.Base.Floats.{Floats}
use estar_go.GoBoard.{Pachi}
use estar_go.MctsTree.{Node, Edge, Tree, modify, with_edge, node_at, back_update}
use estar_go.MctsTree.Store.{contains, map_some}
use estar_go.MctsTree.Backup.{
  Chain, climbers, contains-climbers, Chain-modify, updated, repaid, back_update-Effect,
}
use estar_go.MctsTree.Descent.{marked, lend, Selected, select_step, select_path, select_path_root}
use estar_go.MctsTree.Descent.Loss.{
  loss_of, edge_loss, IsLinked, lent, lend-loss_of, marked-IsLinked, repay_lem, modify-IsLinked,
  lend-KeepsTree,
}
use estar_go.MctsTree.Descent.Loss.Step.{IsLower, Went, select_step-Went}

module _ (fl : Floats) (pachi : Pachi) (r : ℕ) (t0 : Tree fl) (vl : ℤ) where
  -- The descent from the root `r` of `t0` is at a node with these fathers, and has lent each of their edges
  -- and its own the virtual loss, and no other.
  pub record IsOnPath (t : Tree fl) (leaf : ℕ) (fs : List ℕ) : Type 0 where
    pub chain : Chain fl t leaf fs
    pub linked : IsLinked fl r t
    pub behind : r ≤ leaf
    pub losses :
        (j : ℕ)
        → loss_of fl (get_elem? t j)
          ≡ lent fl (contains (climbers fl leaf fs) j) vl (loss_of fl (get_elem? t0 j))

  abbrev pub IsLoaned : Selected fl pachi → Type 0
  IsLoaned s = (fs : List ℕ) × IsOnPath s.tree s.leaf fs

  lent_twice :
      (a b : Bool) (o : Option ℤ)
      → (a ≡ true → b ≡ false)
      → lent fl a vl (lent fl b vl o) ≡ lent fl (if a then true else b) vl o
  unfolding lent
  lent_twice true b o h = ap (λ c. lent fl true vl (lent fl c vl o)) (h refl)
  lent_twice false b o h = refl

  lent_tree : (max : ℤ) (s q : Selected fl pachi) → IsLower fl pachi vl max s q → Tree fl
  lent_tree max s q d =
      modify fl q.leaf (with_edge fl (lend fl vl))
        (marked fl s.tree s.leaf max d.is_won d.child_node)

  lower-IsOnPath :
      (max : ℤ) (s q : Selected fl pachi) (fs : List ℕ)
      → IsOnPath s.tree s.leaf fs
      → (d : IsLower fl pachi vl max s q) → IsOnPath (lent_tree max s q d) q.leaf (s.leaf ∷ fs)
  unfolding contains climbers lent_tree
  lower-IsOnPath max s q fs p d =
      let u = marked fl s.tree s.leaf max d.is_won d.child_node in
      let under = p.linked s.leaf q.leaf d.father_node d.kids p.behind d.here d.nexts d.chosen in
      let m =
        marked-IsLinked fl r s.tree s.leaf max d.is_won d.child_node (s.leaf ∷ fs) q.leaf p.linked
          (under, p.chain) in
      let lower : s.leaf < q.leaf = under.5 in
      record {
        chain =
            Chain-modify fl u q.leaf (with_edge fl (lend fl vl)) q.leaf (s.leaf ∷ fs)
              (lend-KeepsTree fl vl).0 m.1;
        linked =
            modify-IsLinked fl r u q.leaf (with_edge fl (lend fl vl)) (lend-KeepsTree fl vl) m.0;
        behind = omega (arith, p.behind, lower);
        losses = λ j.
            lend-loss_of fl u q.leaf j vl
            ∙ ap (lent fl (q.leaf == j) vl) (m.2 j ∙ p.losses j)
            ∙ lent_twice (q.leaf == j) (contains (climbers fl s.leaf fs) j)
                (loss_of fl (get_elem? t0 j))
                (λ z. contains-climbers fl s.tree s.leaf j fs p.chain (ground (arith, z, lower)));
      }

  step-IsLoaned :
      (max : ℤ) (s : Selected fl pachi) (x : Bool × Selected fl pachi)
      → IsLoaned s
      → Went fl pachi vl max s x
      → IsLoaned x.1
  unfolding lent_tree
  step-IsLoaned max s (b, q) (fs, p) (inl (f, e, l)) =
      (fs, subst (λ t. IsOnPath t q.leaf fs) (sym e) (subst (λ i. IsOnPath s.tree i fs) (sym l) p))
  step-IsLoaned max s (b, q) (fs, p) (inr (f, d)) = (
    s.leaf ∷ fs,
    subst (λ t. IsOnPath t q.leaf (s.leaf ∷ fs)) (sym d.lent) (lower-IsOnPath max s q fs p d),
  )

  on_bool :
      (x : Bool × Selected fl pachi) (rest : Result (Selected fl pachi))
      → IsLoaned x.1
      → (x.0 ≡ true → OnOk IsLoaned rest)
      → OnOk IsLoaned (elim x.0 [ false ↦ ok x.1 | true ↦ rest ])
  on_bool (true, q) rest p h = h refl
  on_bool (false, q) rest p h = p

  select_path-IsLoaned :
      (fuel : ℕ) (s : Selected fl pachi) (c_puct : fl.F) (max : ℤ)
      → IsLoaned s
      → OnOk IsLoaned (select_path fl pachi fuel s vl c_puct max)
  unfolding select_path
  select_path-IsLoaned zero s c_puct max p = tt
  select_path-IsLoaned (suc fuel) s c_puct max p =
      OnOk-bind (Went fl pachi vl max s) IsLoaned
        (select_step fl pachi (λ n. false) (λ nd. fl.of_int (pos 0)) (λ s'. err null_pointer) s vl
          c_puct max)
        _
        (select_step-Went fl pachi vl max s (λ n. false) (λ nd. fl.of_int (pos 0))
          (λ s'. err null_pointer) c_puct (λ s' e l. tt))
        λ x h.
          let q = step-IsLoaned max s x p h in
          on_bool x (select_path fl pachi fuel x.1 vl c_puct (pos 0 -ℤ max)) q
            (λ z. select_path-IsLoaned fuel x.1 c_puct (pos 0 -ℤ max) q)

  select_path_root-IsLoaned :
      (fuel : ℕ) (s : Selected fl pachi) (c_puct : fl.F) (max remain : ℤ)
      → IsLoaned s
      → OnOk IsLoaned (select_path_root fl pachi fuel s vl c_puct max remain)
  unfolding select_path_root
  select_path_root-IsLoaned fuel s c_puct max remain p =
      OnOk-bind (λ nd. Unit {0}) IsLoaned (node_at fl s.tree s.leaf) _
        (any (node_at fl s.tree s.leaf))
        λ nd x.
          OnOk-bind (λ thr. Unit {0}) IsLoaned _ _ (any _)
            λ thr x.
              OnOk-bind (Went fl pachi vl max s) IsLoaned
                (select_step fl pachi (λ n. ltb_ℤ (pos n) thr) (λ nd. nd.value_pred)
                  (λ s'. ok (false, s')) s vl c_puct max)
                _
                (select_step-Went fl pachi vl max s (λ n. ltb_ℤ (pos n) thr) (λ nd. nd.value_pred)
                  (λ s'. ok (false, s')) c_puct (λ s' e l. (refl, e, l)))
                λ x h.
                  let q = step-IsLoaned max s x p h in
                  on_bool x (select_path fl pachi fuel x.1 vl c_puct (pos 0 -ℤ max)) q
                    (λ z. select_path-IsLoaned fuel x.1 c_puct (pos 0 -ℤ max) q)
    where
      any : {A : Type 0} (m : Result A) → OnOk (λ a. Unit {0}) m
      any (ok a) = tt
      any (err e) = tt

  -- The losses of the store are those of `t0`.
  abbrev pub IsRepaid : Tree fl → Type 0
  IsRepaid t = (j : ℕ) → loss_of fl (get_elem? t j) ≡ loss_of fl (get_elem? t0 j)

  updated-loss_of :
      (z : fl.F) (a b : Bool) (o : Option (Node fl))
      → loss_of fl (map_some (updated fl vl z 0 a b) o)
        ≡ (if b then map_some (λ x. x -ℤ pos (0 + 1) *ℤ vl) (loss_of fl o) else loss_of fl o)
  updated-loss_of z a true none = refl
  updated-loss_of z a false none = refl
  updated-loss_of z a false (some nd) = refl
  updated-loss_of z a true (some nd) = on_edge nd.edge
    where
      on_edge :
          (e : Option (Edge fl))
          → edge_loss fl (map_some (repaid fl vl z 0) e)
            ≡ map_some (λ x. x -ℤ pos (0 + 1) *ℤ vl) (edge_loss fl e)
      on_edge none = refl
      on_edge (some e) = refl

  back_update-IsRepaid :
      (z : fl.F) (q : Selected fl pachi)
      → IsLoaned q
      → Returns IsRepaid (back_update fl (suc q.leaf) q.tree q.leaf vl z 0)
  back_update-IsRepaid z q (fs, p) =
      Returns-map _ IsRepaid (back_update fl (suc q.leaf) q.tree q.leaf vl z 0)
        (λ t e j.
          ap (loss_of fl) (e j)
          ∙ updated-loss_of z (contains fs j) (contains (climbers fl q.leaf fs) j)
              (get_elem? q.tree j)
          ∙ ap
              (λ o.
                if contains (climbers fl q.leaf fs) j
                then map_some (λ x. x -ℤ pos (0 + 1) *ℤ vl) o
                else o)
              (p.losses j)
          ∙ repay_lem fl (contains (climbers fl q.leaf fs) j) vl (loss_of fl (get_elem? t0 j)))
        (back_update-Effect fl q.tree q.leaf fs vl z 0 p.chain)

  -- From a root whose descendants are linked to it, whatever leaf mcts_select_path_root comes to, the backup of
  -- its value returns and leaves every edge of the store the virtual loss that it had before the descent.
  pub select_path_root-back_update :
      (fuel : ℕ) (s : Selected fl pachi) (c_puct : fl.F) (max remain : ℤ) (z : fl.F)
      (root : Node fl)
      → s.tree ≡ t0
      → s.leaf ≡ r
      → get_elem? t0 r ≡ some root
      → root.father ≡ none
      → IsLinked fl r t0
      → OnOk
          (λ q. Returns IsRepaid (back_update fl (suc q.leaf) q.tree q.leaf vl z 0))
          (select_path_root fl pachi fuel s vl c_puct max remain)
  unfolding lent climbers contains
  select_path_root-back_update fuel s c_puct max remain z root e l g f k =
      OnOk-map IsLoaned _ (select_path_root fl pachi fuel s vl c_puct max remain)
        (λ q p. back_update-IsRepaid z q p)
        (select_path_root-IsLoaned fuel s c_puct max remain (
          [],
          subst (λ t. IsOnPath t s.leaf []) (sym e)
              (subst (λ i. IsOnPath t0 i []) (sym l)
                (record {
                  chain = (root, g, f);
                  linked = k;
                  behind = omega arith;
                  losses = λ j. refl;
                })),
        ))
