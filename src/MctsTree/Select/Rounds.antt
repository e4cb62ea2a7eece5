-- ===== src/MctsTree/Select/Rounds.antt =====
-- A round of the loop of mcts_select_action of src/MCTSTree.cpp.
use estar_go.Base.{
  ℕ, ◌≡◌, refl, inl, inr, Bool, true, false, not, ◌&&◌, List, ◌∷◌, some, Result, ok, err,
  Option-cases, arith, get_elem?, null_pointer, if◌then◌else◌,
}
use estar_go.Base.Int.{ℤ, pos, eqb_ℤ, eqb_ℤ-eq, ltb_ℤ}
use estar_go.Base.Floats.{Floats}
use estar_go.GoBoard.{Pachi, GoBoard, is_pass_safe, get_total_moves, pos_pass}
use estar_go.MctsTree.{Edge, Node, Tree, node_at, edge_of}
use estar_go.MctsTree.Store.{contains}
use estar_go.MctsTree.Select.{Best, select_loop, win_rate}

-- Four tests in a row.
pick {ℓ} :
    {X : Type ℓ} (P : X → Type 0) (p q r s : Bool) (a b c d : X)
    → (p ≡ true → P a)
    → (q ≡ true → P b)
    → (r ≡ true → P c)
    → (s ≡ true → P d)
    → (s ≡ false → P a)
    → P (if p then a else if q then b else if r then c else if s then d else a)
pick P true q r s a b c d ha hb hc hd he = ha refl
pick P false true r s a b c d ha hb hc hd he = hb refl
pick P false false true s a b c d ha hb hc hd he = hc refl
pick P false false false true a b c d ha hb hc hd he = hd refl
pick P false false false false a b c d ha hb hc hd he = he refl

both : (a b : Bool) → (a && b) ≡ true → (a ≡ true) × (b ≡ true)
both a b h = ground arith

module _ (fl : Floats) (pachi : Pachi) (t : Tree fl) (g : GoBoard pachi) (kids : List ℕ) where
  open fl use {F, less}

  -- `k` is one of the children, with its node and its edge.
  abbrev pub IsChild : ℕ → Node fl → Edge fl → Type 0
  IsChild k nd e = (contains kids k ≡ true) × (get_elem? t k ≡ some nd) × (nd.edge ≡ some e)

  -- A child that the choice may not take: a pass that is not safe.
  abbrev pub IsUnsafe : Edge fl → Type 0
  IsUnsafe e = (e.action ≡ pos_pass) × (is_pass_safe pachi g ≡ false)

  module _ (after : ℤ) (pass_threshold resign_threshold : F) where
    abbrev pub loop : Bool → List ℕ → Best fl → Result (Best fl)
    loop = select_loop fl pachi t g after pass_threshold resign_threshold

    unfoldable pub note_pass : Best fl → ℕ → Edge fl → Best fl
    note_pass b k e = if eqb_ℤ e.action pos_pass then record b { pass_node = some k } else b

    abbrev pub take : Best fl → ℕ → Edge fl → Best fl
    take b k e = record (note_pass b k e) { best_action = e.action; best_node = some k }

    -- The branches of one round.
    pub select_loop-elim :
        (P : Result (Best fl) → Type 0) (o : Bool) (k : ℕ) (ks : List ℕ) (b : Best fl)
        → contains kids k ≡ true
        → ((x : Unit {0}) → P (err null_pointer))
        → ((nd : Node fl) (e : Edge fl)
            → IsChild k nd e
            → ((eqb_ℤ e.action pos_pass ≡ true)
                → (is_pass_safe pachi g ≡ false)
                → P (loop o ks (note_pass b k e)))
              × (o ≡ true
                  → (e.action ≡ pos_pass)
                  → P (
                      ok (record (note_pass b k e) { best_action = pos_pass; best_node = some k })))
              × (nd.is_terminate ≡ true → nd.result ≡ pos 1 → P (ok (take b k e)))
              × (ltb_ℤ (note_pass b k e).max_visit (pos e.n) ≡ true
                  → P (loop o ks (record (take b k e) { max_visit = pos e.n })))
              × (ltb_ℤ (note_pass b k e).max_visit (pos e.n) ≡ false
                  → P (loop o ks (note_pass b k e))))
        → P (loop o (k ∷ ks) b)
    unfolding select_loop node_at edge_of note_pass
    select_loop-elim P o k ks b m missing rest = elim (Option-cases (get_elem? t k)) [
      | inl n ↦ rw (n, node_at) (missing tt)
      | inr (nd, n) ↦
          rw (n, node_at)
            (elim (Option-cases nd.edge) [
              | inl u ↦ rw (u, edge_of) (missing tt)
              | inr (e, u) ↦
                  rw (u, edge_of)
                    (let (skipped, answered, winning, more, fewer) = rest nd e (m, n, u) in
                      pick P (eqb_ℤ e.action pos_pass && not (is_pass_safe pachi g))
                        (eqb_ℤ e.action pos_pass
                          && o
                          && ltb_ℤ after (pos (get_total_moves pachi g))
                          && less pass_threshold (win_rate fl e))
                        (nd.is_terminate && eqb_ℤ nd.result (pos 1))
                        (ltb_ℤ (note_pass b k e).max_visit (pos e.n)) (loop o ks (note_pass b k e))
                        (ok
                          (record (note_pass b k e) { best_action = pos_pass; best_node = some k }))
                        (ok (take b k e)) (loop o ks (record (take b k e) { max_visit = pos e.n }))
                        (λ h. skipped (ground arith) (ground arith))
                        (λ h. answered (ground arith) (eqb_ℤ-eq e.action pos_pass (ground arith)))
                        (λ h. winning (ground arith) (eqb_ℤ-eq nd.result (pos 1) (ground arith)))
                        more fewer)
            ])
    ]

    abbrev pub Among : List ℕ → Type 0
    Among ks = (j : ℕ) → contains ks j ≡ true → contains kids j ≡ true

    pub Among-head : (k : ℕ) (ks : List ℕ) → Among (k ∷ ks) → contains kids k ≡ true
    unfolding contains
    Among-head k ks a = a k (ground arith)

    pub Among-tail : (k : ℕ) (ks : List ℕ) → Among (k ∷ ks) → Among ks
    unfolding contains
    Among-tail k ks a j h = a j (ground arith)
