-- ===== src/MctsTree/SelfPlay/Chosen.antt =====
-- What selfplay_select_action of src/MCTSTree.cpp gives.
use estar_go.Base.{
  ℕ, ◌≡◌, refl, sym, subst, ◌⊎◌, inl, inr, Bool, true, false, not, ◌&&◌, List, [], ◌∷◌, some,
  Result, ok, Returns, Bool-cases, if◌then◌else◌, get_elem?, arith, Text,
}
use estar_go.Base.Int.{pos, negsuc, eqb_ℤ, eqb_ℤ-eq, ltb_ℤ}
use estar_go.Base.Floats.{Floats}
use estar_go.GoBoard.{Pachi, GoBoard, is_pass_safe, pos_pass}
use estar_go.MctsTree.{Edge, Node, Tree}
use estar_go.MctsTree.Store.{contains}
use estar_go.MctsTree.Select.{Best, no_best, no_action}
use estar_go.MctsTree.SelfPlay.{place_of, best_loop}
use estar_go.MctsTree.SelfPlay.Labels.{AllEdged, node_edge}

module _ (fl : Floats) (t : Tree fl) where
  open fl use {F, of_int, less}

  -- A child with its node and its edge, whose action has a place.
  abbrev pub IsKid : List ℕ → ℕ → Node fl → Edge fl → Type 0
  IsKid kids k nd e =
      (contains kids k ≡ true)
      × (get_elem? t k ≡ some nd)
      × (nd.edge ≡ some e)
      × ((i : ℕ) × (place_of e.action ≡ some i))

  module _ (kids : List ℕ) where
    -- A child is chosen.
    abbrev pub IsPicked : Best fl → Type 0
    IsPicked b =
        (k : ℕ) × (nd : Node fl) × (e : Edge fl) × (b.best_node ≡ some k)
        × IsKid kids k nd e
        × (e.action ≡ b.best_action)

    abbrev pub IsPassed : Best fl → Type 0
    IsPassed b =
        (k : ℕ) × (nd : Node fl) × (e : Edge fl) × (b.pass_node ≡ some k)
        × IsKid kids k nd e
        × (e.action ≡ pos_pass)

    abbrev pub IsFresh : Best fl → Type 0
    IsFresh b = (b.best_action ≡ no_action) × (b.max_visit ≡ negsuc 99)

    abbrev IsReady : Best fl → Type 0
    IsReady b = IsPicked b ⊎ IsFresh b

    abbrev pub IsGood : Best fl → Type 0
    IsGood b = IsPicked b ⊎ IsFresh b × IsPassed b

    ready : (b : Best fl) → IsGood b → IsReady b
    ready b (inl p) = inl p
    ready b (inr (f, p)) = inr f

    module _ (log : F → F) (to_string : F → Text) (pachi : Pachi) (g : GoBoard pachi)
        (low : F) where
      abbrev loop : List ℕ → Best fl → Result (Best fl)
      loop = best_loop fl log to_string pachi t g low

      -- Three tests in a row.
      three :
          (P : Result (Best fl) → Type 0) (p q r : Bool) (a b c : Result (Best fl))
          → (p ≡ true → P a)
          → P b
          → (r ≡ true → P c)
          → (p ≡ false → r ≡ false → P a)
          → P (if p then a else if q then b else if r then c else a)
      three P true q r a b c ha hb hc he = ha refl
      three P false true r a b c ha hb hc he = hb
      three P false false true a b c ha hb hc he = hc refl
      three P false false false a b c ha hb hc he = he refl refl

      noted : Best fl → ℕ → Edge fl → Best fl
      noted b k e = if eqb_ℤ e.action pos_pass then record b { pass_node = some k } else b

      abbrev taken : Best fl → ℕ → Edge fl → Best fl
      taken b k e = record (noted b k e) { best_action = e.action; best_node = some k }

      noted-IsGood :
          (b : Best fl) (k : ℕ) (nd : Node fl) (e : Edge fl)
          → IsKid kids k nd e
          → IsReady b
          → eqb_ℤ e.action pos_pass ≡ true
          → IsGood (noted b k e)
      unfolding noted
      noted-IsGood b k nd e h (inl p) z = rw z (inl p)
      noted-IsGood b k nd e h (inr f) z =
          rw z (inr (f, (k, nd, e, refl, h, eqb_ℤ-eq e.action pos_pass z)))

      not_more :
          (b : Best fl) (k : ℕ) (e : Edge fl)
          → IsReady b
          → eqb_ℤ e.action pos_pass ≡ false
          → ltb_ℤ (noted b k e).max_visit (pos e.n) ≡ false
          → IsGood (noted b k e)
      unfolding noted
      not_more b k e (inl p) z m = rw z (inl p)
      not_more b k e (inr f) z m = absurd (ground (arith, z, m, f.1))

      -- A child that is not taken for its visits: a pass, or another was taken before.
      passed_over :
          (b : Best fl) (k : ℕ) (nd : Node fl) (e : Edge fl)
          → IsKid kids k nd e
          → IsReady b
          → ltb_ℤ (noted b k e).max_visit (pos e.n) ≡ false
          → IsGood (noted b k e)
      passed_over b k nd e h r m = elim (Bool-cases (eqb_ℤ e.action pos_pass)) [
        | inl z ↦ noted-IsGood b k nd e h r z
        | inr z ↦ not_more b k e r z m
      ]

      -- One round leaves a child or a pass.
      round :
          (k : ℕ) (ks : List ℕ) (b : Best fl) (nd : Node fl) (e : Edge fl)
          → IsKid kids k nd e
          → IsReady b
          → ((b' : Best fl) → IsGood b' → Returns IsGood (loop ks b'))
          → Returns IsGood (loop (k ∷ ks) b)
      unfolding best_loop noted
      round k ks b nd e h r rest = subst (Returns IsGood) (sym (node_edge fl t k nd e h.1 h.2 _)) (
          three (Returns IsGood) (eqb_ℤ e.action pos_pass && not (is_pass_safe pachi g))
            (nd.is_terminate && eqb_ℤ nd.result (pos 1)) (ltb_ℤ (noted b k e).max_visit (pos e.n))
            (loop ks (noted b k e)) (ok (taken b k e))
            (loop ks (record (taken b k e) { max_visit = pos e.n }))
            (λ z. rest (noted b k e) (noted-IsGood b k nd e h r (ground (arith, z))))
            (inl (k, nd, e, refl, h, refl))
            (λ z.
              rest (record (taken b k e) { max_visit = pos e.n }) (inl (k, nd, e, refl, h, refl)))
            (λ z m. rest (noted b k e) (passed_over b k nd e h r m)))

      abbrev pub Among : List ℕ → Type 0
      Among ks = (j : ℕ) → contains ks j ≡ true → contains kids j ≡ true

      Among-head : (k : ℕ) (ks : List ℕ) → Among (k ∷ ks) → contains kids k ≡ true
      unfolding contains
      Among-head k ks a = a k (ground arith)

      Among-tail : (k : ℕ) (ks : List ℕ) → Among (k ∷ ks) → Among ks
      unfolding contains
      Among-tail k ks a j h = a j (ground arith)

      best_loop-IsGood :
          (ks : List ℕ) (es : List (Edge fl)) (b : Best fl)
          → Among ks
          → AllEdged fl t ks es
          → IsGood b
          → Returns IsGood (loop ks b)
      unfolding AllEdged
      best_loop-IsGood [] [] b a h s = unfold best_loop in s
      best_loop-IsGood [] (e ∷ es) b a h s = absurd h
      best_loop-IsGood (k ∷ ks) [] b a h s = absurd h
      best_loop-IsGood (k ∷ ks) (e ∷ es) b a ((nd, n, u), p, h) s =
          round k ks b nd e (Among-head k ks a, n, u, p) (ready b s)
            λ b' s'. best_loop-IsGood ks es b' (Among-tail k ks a) h s'

      -- The loop from its start, over a child or more.
      pub best_loop-from_start :
          (k : ℕ) (ks : List ℕ) (es : List (Edge fl))
          → Among (k ∷ ks)
          → AllEdged fl t (k ∷ ks) es
          → Returns IsGood (loop (k ∷ ks) (no_best fl))
      unfolding AllEdged
      best_loop-from_start k ks [] a h = absurd h
      best_loop-from_start k ks (e ∷ es) a ((nd, n, u), p, h) =
          round k ks (no_best fl) nd e (Among-head k ks a, n, u, p) (inr (refl, refl))
            λ b' s'. best_loop-IsGood ks es b' (Among-tail k ks a) h s'
