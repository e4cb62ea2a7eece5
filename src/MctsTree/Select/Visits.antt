-- ===== src/MctsTree/Select/Visits.antt =====
-- The child that mcts_select_action of src/MCTSTree.cpp chooses.
use estar_go.Base.{
  ap, sym, ◌≢◌, ℕ, ◌≡◌, refl, subst, ltb, ◌>>=◌, ◌⊎◌, inl, inr, ◌≤◌, Bool, true, false, ◌&&◌, List,
  [], ◌∷◌, Option, none, some, Result, ok, err, OnOk, OnOk-bind, OnOk-map, Bool-cases, Option-cases,
  arith, get_elem?, null_pointer,
}
use estar_go.Base.Int.{ℤ, pos, negsuc, eqb_ℤ, eqb_ℤ-eq, ltb_ℤ, ◌≤ℤ◌, pos_part, neg_part}
use estar_go.Base.Floats.{Floats}
use estar_go.GoBoard.{Pachi, GoBoard, pos_pass}
use estar_go.MctsTree.{Edge, Node, Tree, node_at, edge_of}
use estar_go.MctsTree.Store.{contains}
use estar_go.MctsTree.Select.{
  Best, no_best, no_action, select_loop, or_pass, or_resign, select_action, win_rate,
}
use estar_go.MctsTree.Select.Rounds.{
  IsChild, IsUnsafe, loop, note_pass, take, select_loop-elim, Among, Among-head, Among-tail,
}

module _ (fl : Floats) (pachi : Pachi) (t : Tree fl) (g : GoBoard pachi) (kids : List ℕ) where
  open fl use {F, less}

  -- The choice stands at a node that has an edge with its action.
  abbrev At : Option ℕ → ℤ → Type 0
  At none a = ⊥
  At (some k) a = (nd : Node fl) × (e : Edge fl) × IsChild fl pachi t g kids k nd e × (e.action ≡ a)

  -- Nothing chosen yet, or a child with the largest visits so far.
  abbrev Sound : Best fl → Type 0
  Sound b =
      ((b.best_action ≡ no_action) ⊎ At b.best_node b.best_action)
      × ((b.pass_node ≡ none) ⊎ At b.pass_node pos_pass)

  module _ (after : ℤ) (pass_threshold resign_threshold : F) where
    note_pass-Sound :
        (b : Best fl) (k : ℕ) (nd : Node fl) (e : Edge fl)
        → IsChild fl pachi t g kids k nd e
        → Sound b
        → Sound (note_pass fl pachi t g kids after pass_threshold resign_threshold b k e)
    unfolding note_pass
    note_pass-Sound b k nd e h s = elim (Bool-cases (eqb_ℤ e.action pos_pass)) [
      | inl p ↦ rw p (s.0, inr (nd, e, h, eqb_ℤ-eq e.action pos_pass p))
      | inr p ↦ rw p s
    ]

    Sound-loop :
        (o : Bool) (ks : List ℕ) (b : Best fl)
        → Among fl pachi t g kids after pass_threshold resign_threshold ks
        → Sound b
        → OnOk Sound (loop fl pachi t g kids after pass_threshold resign_threshold o ks b)
    Sound-loop o [] b a s = unfold select_loop in s
    Sound-loop o (k ∷ ks) b a s =
        select_loop-elim fl pachi t g kids after pass_threshold resign_threshold (OnOk Sound) o k ks
          b (Among-head fl pachi t g kids after pass_threshold resign_threshold k ks a) (λ x. tt)
          (λ nd e h.
            let s' : Sound
                (note_pass fl pachi t g kids after pass_threshold resign_threshold b k e) =
              note_pass-Sound b k nd e h s in
            let here : Sound (take fl pachi t g kids after pass_threshold resign_threshold b k e) =
              (inr (nd, e, h, refl), s'.1) in
            let a' = Among-tail fl pachi t g kids after pass_threshold resign_threshold k ks a in
            (
              (λ p q.
                  Sound-loop o ks
                    (note_pass fl pachi t g kids after pass_threshold resign_threshold b k e) a'
                    s'),
              (λ p q. (inr (nd, e, h, q), s'.1)),
              (λ p q. here),
              (λ p.
                  Sound-loop o ks
                    (record (take fl pachi t g kids after pass_threshold resign_threshold b k e) {
                      max_visit = pos e.n;
                    })
                    a' here),
              (λ p.
                  Sound-loop o ks
                    (note_pass fl pachi t g kids after pass_threshold resign_threshold b k e) a'
                    s'),
            ))

    -- What mcts_select_action gives: one of the children with its edge's action, or a resignation, which
    -- needs a visit and a win rate below the threshold.
    abbrev pub Chosen : ℕ × ℤ → Type 0
    Chosen r =
        (nd : Node fl) × (e : Edge fl) × IsChild fl pachi t g kids r.0 nd e
        × ((r.1 ≡ e.action)
            ⊎ (r.1 ≡ no_action) × (1 ≤ e.n) × (less (win_rate fl e) resign_threshold ≡ true))

    abbrev IsAt : Best fl → Type 0
    IsAt b = At b.best_node b.best_action

    pass_of :
        (o : Option ℕ) (k : ℕ) → o ≡ some k → (o ≡ none) ⊎ At o pos_pass → At (some k) pos_pass
    pass_of none k e h = absurd (ground arith)
    pass_of (some j) k e (inl h) = absurd (ground arith)
    pass_of (some j) k e (inr h) = subst (λ (o : Option ℕ). At o pos_pass) e h

    named : (a : ℤ) (o : Option ℕ) → (a ≡ no_action) ⊎ At o a → eqb_ℤ a no_action ≡ false → At o a
    named a o (inl e) n = absurd (ground arith)
    named a o (inr h) n = h

    or_pass-At :
        (b : Best fl)
        → Sound b
        → OnOk IsAt (or_pass fl pachi t g after pass_threshold resign_threshold b)
    unfolding or_pass
    or_pass-At b s = elim (Bool-cases (eqb_ℤ b.best_action no_action)) [
      | inl n ↦ rw n (elim (Option-cases b.pass_node) [
        | inl p ↦ rw p tt
        | inr (k, p) ↦ rw p (pass_of b.pass_node k p s.1)
      ])
      | inr n ↦ rw n (named b.best_action b.best_node s.0 n)
    ]

    or_resign-Chosen :
        (k : ℕ) (nd : Node fl) (e : Edge fl)
        → IsChild fl pachi t g kids k nd e
        → Chosen (k, or_resign fl pachi t g after pass_threshold resign_threshold e e.action)
    unfolding or_resign
    or_resign-Chosen k nd e h =
        elim (Bool-cases (ltb 0 e.n && less (win_rate fl e) resign_threshold)) [
          | inl r ↦ rw r (nd, e, h, inr (refl, ground arith, ground arith))
          | inr r ↦ rw r (nd, e, h, inl refl)
        ]

    finish-Chosen :
        (o : Option ℕ) (a : ℤ)
        → At o a
        → OnOk Chosen (elim o [
          | none ↦ err null_pointer
          | some i ↦
              (node_at fl t i >>= λ nd. edge_of fl nd >>= λ e.
              ok (i, or_resign fl pachi t g after pass_threshold resign_threshold e a))
        ])
    unfolding node_at edge_of
    finish-Chosen none a h = tt
    finish-Chosen (some k) a (nd, e, h, c) =
        rw (h.1, node_at, h.2, edge_of)
          (subst
            (λ (x : ℤ).
              Chosen (k, or_resign fl pachi t g after pass_threshold resign_threshold e x))
            c (or_resign-Chosen k nd e h))

    -- The action that mcts_select_action gives is that of one of the children, or a resignation: then the
    -- child has a visit and its win rate is below the threshold.
    pub select_action-Chosen :
        (cur : Node fl) (o : Bool)
        → cur.nexts ≡ some kids
        → OnOk Chosen (select_action fl pachi t g after pass_threshold resign_threshold cur o)
    unfolding select_action
    select_action-Chosen cur o h = rw h (
        OnOk-bind Sound Chosen
          (loop fl pachi t g kids after pass_threshold resign_threshold o kids (no_best fl)) _
          (Sound-loop o kids (no_best fl) (λ j m. m) (inl refl, inl refl))
          λ b s.
            OnOk-bind IsAt Chosen (or_pass fl pachi t g after pass_threshold resign_threshold b) _
              (or_pass-At b s) λ b' s'. finish-Chosen b'.best_node b'.best_action s')

    -- The child is not one that could be chosen, or it has at most `m` visits.
    abbrev Within : ℤ → ℕ → Type 0
    Within m k =
        (nd : Node fl) × (e : Edge fl) × IsChild fl pachi t g kids k nd e
        × (IsUnsafe fl pachi t g kids e ⊎ ltb_ℤ m (pos e.n) ≡ false)

    abbrev pub AllWithin : ℤ → List ℕ → Type 0
    AllWithin m [] = Unit {0}
    AllWithin m (k ∷ ks) = Within m k × AllWithin m ks

    abbrev Leader : Option ℕ → ℤ → ℤ → Type 0
    Leader none a m = ⊥
    Leader (some k) a m =
        (nd : Node fl) × (e : Edge fl) × IsChild fl pachi t g kids k nd e
        × (e.action ≡ a)
        × (m ≡ pos e.n)

    -- Nothing is chosen, or a child with the visits that are noted as the largest.
    abbrev pub Leads : Best fl → Type 0
    Leads b =
        (b.best_node ≡ none) × (b.max_visit ≡ negsuc 99)
        ⊎ Leader b.best_node b.best_action b.max_visit

    -- The largest number of visits has not fallen below `m`, and is at least that of every child passed.
    abbrev Bounded : List ℕ → ℤ → Best fl → Type 0
    Bounded ks m b = Leads b × (m ≤ℤ b.max_visit) × AllWithin b.max_visit ks

    -- No child is known to win.
    abbrev pub NoneWins : Type 0
    NoneWins =
        (k : ℕ) (nd : Node fl)
        → contains kids k ≡ true
        → get_elem? t k ≡ some nd
        → (nd.is_terminate ≡ false) ⊎ (nd.result ≢ pos 1)

    note_pass-Leads :
        (b : Best fl) (k : ℕ) (e : Edge fl)
        → Leads b
        → Leads (note_pass fl pachi t g kids after pass_threshold resign_threshold b k e)
    unfolding note_pass
    note_pass-Leads b k e h = elim (Bool-cases (eqb_ℤ e.action pos_pass)) [
      | inl p ↦ rw p h
      | inr p ↦ rw p h
    ]

    note_pass-max_visit :
        (b : Best fl) (k : ℕ) (e : Edge fl)
        → (note_pass fl pachi t g kids after pass_threshold resign_threshold b k e).max_visit
          ≡ b.max_visit
    unfolding note_pass
    note_pass-max_visit b k e = ground arith

    no_win : (a : Bool) (r : ℤ) → (a ≡ false) ⊎ (r ≢ pos 1) → a ≡ true → r ≡ pos 1 → ⊥
    no_win a r (inl f) u w = ground arith
    no_win a r (inr f) u w = f w

    still_within : (m m' : ℤ) (n : ℕ) → m ≤ℤ m' → ltb_ℤ m (pos n) ≡ false → ltb_ℤ m' (pos n) ≡ false
    still_within m m' n l h = ground arith

    -- The rest of the loop fl pachi t g kids after pass_threshold resign_threshold, from a `b'` whose largest visits are not below those of `b`, keeps the bound
    -- for a child that `b'` covers.
    Bounded-cons :
        (k : ℕ) (ks : List ℕ) (m m' : ℤ) (nd : Node fl) (e : Edge fl) (r : Result (Best fl))
        → IsChild fl pachi t g kids k nd e
        → m ≤ℤ m'
        → IsUnsafe fl pachi t g kids e ⊎ ltb_ℤ m' (pos e.n) ≡ false
        → OnOk (Bounded ks m') r
        → OnOk (Bounded (k ∷ ks) m) r
    Bounded-cons k ks m m' nd e r h l c s =
        OnOk-map (Bounded ks m') (Bounded (k ∷ ks) m) r
          (λ b (i, q, w). (
            i,
            le_trans m m' b.max_visit l q,
            (
              (
                nd,
                e,
                h,
                elim c [ inl u ↦ inl u | inr v ↦ inr (still_within m' b.max_visit e.n q v) ],
              ),
              w,
            ),
          ))
          s
      where
        le_trans : (x y z : ℤ) → x ≤ℤ y → y ≤ℤ z → x ≤ℤ z
        le_trans x y z h k = omega arith

    module _ (none_wins : NoneWins) where
      Bounded-loop :
          (ks : List ℕ) (b : Best fl)
          → Among fl pachi t g kids after pass_threshold resign_threshold ks
          → Leads b
          → OnOk
              (Bounded ks b.max_visit)
              (loop fl pachi t g kids after pass_threshold resign_threshold false ks b)
      Bounded-loop [] b a s = unfold select_loop in (s, omega arith, tt)
      Bounded-loop (k ∷ ks) b a s =
          select_loop-elim fl pachi t g kids after pass_threshold resign_threshold
            (OnOk (Bounded (k ∷ ks) b.max_visit)) false k ks b
            (Among-head fl pachi t g kids after pass_threshold resign_threshold k ks a) (λ x. tt)
            (λ nd e h.
              let a' = Among-tail fl pachi t g kids after pass_threshold resign_threshold k ks a in
              let b' = note_pass fl pachi t g kids after pass_threshold resign_threshold b k e in
              let same : b.max_visit ≡ b'.max_visit = sym (note_pass-max_visit b k e) in
              let rest = Bounded-loop ks b' a' (note_pass-Leads b k e s) in
              let more =
                record (take fl pachi t g kids after pass_threshold resign_threshold b k e) {
                  max_visit = pos e.n;
                } in
              (
                (λ p q.
                    Bounded-cons k ks b.max_visit b'.max_visit nd e _ h
                      (omega (arith, ap pos_part same, ap neg_part same))
                      (inl (eqb_ℤ-eq e.action pos_pass p, q)) rest),
                (λ p q. absurd (ground arith)),
                (λ p q. absurd (no_win nd.is_terminate nd.result (none_wins k nd h.0 h.1) p q)),
                (λ p.
                    Bounded-cons k ks b.max_visit (pos e.n) nd e _ h
                      (ground (arith, ap pos_part same, ap neg_part same)) (inr (ground arith))
                      (Bounded-loop ks more a' (inr (nd, e, h, refl, refl)))),
                (λ p.
                    Bounded-cons k ks b.max_visit b'.max_visit nd e _ h
                      (omega (arith, ap pos_part same, ap neg_part same)) (inr p) rest),
              ))

      -- If no child is known to win and the opponent did not pass, the loop fl pachi t g kids after pass_threshold resign_threshold of mcts_select_action
      -- ends with a child that no other exceeds in visits, unsafe passes excepted, or with none and the
      -- starting value -100, which no child but unsafe passes fits.
      pub select_loop-most_visited :
          OnOk
            (λ b. Leads b × AllWithin b.max_visit kids)
            (loop fl pachi t g kids after pass_threshold resign_threshold false kids (no_best fl))
      select_loop-most_visited =
          OnOk-map (Bounded kids (negsuc 99)) (λ b. Leads b × AllWithin b.max_visit kids)
            (loop fl pachi t g kids after pass_threshold resign_threshold false kids (no_best fl))
            (λ b (s, l, w). (s, w)) (Bounded-loop kids (no_best fl) (λ j m. m) (inl (refl, refl)))
