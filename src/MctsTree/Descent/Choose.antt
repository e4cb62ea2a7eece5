-- ===== src/MctsTree/Descent/Choose.antt =====
-- What the loop over the children finds out about them.
use estar_go.Base.{
  ℕ, ◌+◌, ◌≡◌, refl, ◌⊎◌, inl, inr, Bool, true, false, ◌&&◌, List, [], ◌∷◌, Option, none, some,
  arith, if◌then◌else◌, ◌==◌, get_elem?, Result, ok, err, OnOk, OnOk-map, null_pointer, Bool-cases,
  Option-cases, codes,
}
use estar_go.Base.Int.{ℤ, eqb_ℤ, eqb_ℤ-eq}
use estar_go.Base.Floats.{Floats}
use estar_go.MctsTree.{Node, Edge, Tree, node_at, edge_of, score}
use estar_go.MctsTree.Store.{contains}
use estar_go.MctsTree.Descent.{Choice, choose}

clash : (b : Bool) → b ≡ true → b ≡ false → ⊥
clash b p q = ground arith

module _ (fl : Floats) (t : Tree fl) where
  open fl use {F, of_text, less}

  abbrev pub IsRepeated : Node fl → Type 0
  IsRepeated nd = (nd.is_repetition_checked ≡ true) × (nd.is_repetition ≡ true)

  -- The child `k` is over, and won by the player `max`.
  abbrev pub WinsFor : ℤ → ℕ → Type 0
  WinsFor max k =
      (nd : Node fl) × (get_elem? t k ≡ some nd) × (nd.is_terminate ≡ true) × (nd.result ≡ max)

  -- The child `k` offers the player nothing: its move repeats a position, or it is over and not won.
  abbrev pub Settled : ℤ → ℕ → Type 0
  Settled max k =
      (nd : Node fl) × (get_elem? t k ≡ some nd)
      × (IsRepeated nd ⊎ (nd.is_terminate ≡ true) × (eqb_ℤ nd.result max ≡ false))

  abbrev pub AllSettled : ℤ → List ℕ → Type 0
  AllSettled max [] = Unit {0}
  AllSettled max (k ∷ ks) = Settled max k × AllSettled max ks

  -- The best child is one that is not over.
  abbrev pub IsLive : Option ℕ → Type 0
  IsLive none = ⊥
  IsLive (some k) = (nd : Node fl) × (get_elem? t k ≡ some nd) × (nd.is_terminate ≡ false)

  abbrev pub Winner : ℤ → List ℕ → Choice fl → Type 0
  Winner max kids ch =
      (ch.is_won ≡ true) × (k : ℕ) × (ch.best ≡ some k) × (contains kids k ≡ true) × WinsFor max k

  abbrev pub lowest : F
  lowest = of_text (codes "-1e8")

  -- The scores of the children exceed the starting value -1e8 of the loop.
  abbrev pub Scored : F → ℤ → F → F → Type 0
  Scored c max fa_w fa_n =
      (k : ℕ) (nd : Node fl) (e : Edge fl)
      → get_elem? t k ≡ some nd
      → nd.edge ≡ some e
      → less lowest (score fl e c max fa_w fa_n) ≡ true

  abbrev pub Outcome : ℤ → List ℕ → Choice fl → Type 0
  Outcome max kids ch = Winner max kids ch ⊎ (ch.is_won ≡ false) × IsLive ch.best

  contains-head : (k : ℕ) (ks : List ℕ) → contains (k ∷ ks) k ≡ true
  unfolding contains
  contains-head k ks = ground arith

  contains-tail : (k j : ℕ) (ks : List ℕ) → contains ks j ≡ true → contains (k ∷ ks) j ≡ true
  unfolding contains
  contains-tail k j ks h = ground arith

  Outcome-cons :
      (max : ℤ) (k : ℕ) (ks : List ℕ) (ch : Choice fl) → Outcome max ks ch → Outcome max (k ∷ ks) ch
  Outcome-cons max k ks ch (inl (w, j, b, m, v)) = inl (w, j, b, contains-tail k j ks m, v)
  Outcome-cons max k ks ch (inr l) = inr l

  module _ (pruned : ℕ → Bool) (c : F) (max : ℤ) (fa_w fa_n : F) where
    abbrev pub keep : Choice fl → ℕ → Choice fl
    keep s k = record s { best = elim s.best [ none ↦ some k | some j ↦ some j ] }

    abbrev pub scored : Choice fl → ℕ → Edge fl → Choice fl
    scored s k e =
        let v = score fl e c max fa_w fa_n in
        if less s.best_score v
        then record s { best = some k; best_score = v; score_num = s.score_num + 1 }
        else record s { score_num = s.score_num + 1 }

    abbrev loop : List ℕ → Choice fl → Result (Choice fl)
    loop = choose fl t pruned c max fa_w fa_n

    -- The branches of one round.
    pub choose-elim :
        (P : Result (Choice fl) → Type 0) (k : ℕ) (ks : List ℕ) (s : Choice fl)
        → ((x : Unit {0}) → P (err null_pointer))
        → ((nd : Node fl) → get_elem? t k ≡ some nd → IsRepeated nd → P (loop ks s))
        → ((nd : Node fl)
            → get_elem? t k ≡ some nd
            → nd.is_terminate ≡ true
            → nd.result ≡ max
            → P (ok (record s { best = some k; is_won = true })))
        → ((nd : Node fl)
            → get_elem? t k ≡ some nd
            → nd.is_terminate ≡ true
            → eqb_ℤ nd.result max ≡ false
            → P (loop ks (keep s k)))
        → ((nd : Node fl) (e : Edge fl)
            → get_elem? t k ≡ some nd
            → nd.is_terminate ≡ false
            → nd.edge ≡ some e
            → (pruned e.n ≡ true → P (loop ks s))
              × (pruned e.n ≡ false → P (ok (scored s k e)) × P (loop ks (scored s k e))))
        → P (loop (k ∷ ks) s)
    unfolding choose node_at edge_of
    choose-elim P k ks s missing repeated winning losing open' =
        elim (Option-cases (get_elem? t k)) [
          | inl e ↦ rw (e, node_at) (missing tt)
          | inr (nd, e) ↦
              rw (e, node_at)
                (elim (Bool-cases (nd.is_repetition_checked && nd.is_repetition)) [
                  | inl r ↦ rw r (repeated nd e (ground arith))
                  | inr r ↦ rw r (elim (Bool-cases nd.is_terminate) [
                    | inl u ↦ rw u (elim (Bool-cases (eqb_ℤ nd.result max)) [
                      | inl w ↦ rw w (winning nd e u (eqb_ℤ-eq nd.result max w))
                      | inr w ↦ rw w (losing nd e u w)
                    ])
                    | inr u ↦ rw u (elim (Option-cases nd.edge) [
                      | inl n ↦ rw (n, edge_of) (missing tt)
                      | inr (ed, n) ↦
                          let (skip, take) = open' nd ed e u n in
                          rw (n, edge_of)
                            (elim (Bool-cases (pruned ed.n)) [
                              | inl q ↦ rw q (skip q)
                              | inr q ↦ rw q (elim (Bool-cases (ed.n == 0)) [
                                | inl z ↦ rw z (take q).0
                                | inr z ↦ rw z (take q).1
                              ])
                            ])
                    ])
                  ])
                ])
        ]

    keep-IsLive :
        (o : Option ℕ) (k : ℕ) → IsLive o → IsLive (elim o [ none ↦ some k | some j ↦ some j ])
    keep-IsLive none k l = absurd l
    keep-IsLive (some j) k l = l

    scored-IsLive :
        (s : Choice fl) (k : ℕ) (nd : Node fl) (e : Edge fl)
        → get_elem? t k ≡ some nd
        → nd.is_terminate ≡ false
        → IsLive s.best
        → IsLive (scored s k e).best
    scored-IsLive s k nd e g u l =
        elim (Bool-cases (less s.best_score (score fl e c max fa_w fa_n))) [
          | inl b ↦ rw b (nd, g, u)
          | inr b ↦ rw b l
        ]

    scored-first :
        (s : Choice fl) (k : ℕ) (nd : Node fl) (e : Edge fl)
        → get_elem? t k ≡ some nd
        → nd.is_terminate ≡ false
        → less s.best_score (score fl e c max fa_w fa_n) ≡ true
        → IsLive (scored s k e).best
    scored-first s k nd e g u b = rw b (nd, g, u)

    -- A live best child stays one, unless a winning child is met.
    choose-live :
        (kids : List ℕ) (s : Choice fl)
        → s.is_won ≡ false
        → IsLive s.best
        → OnOk (Outcome max kids) (loop kids s)
    choose-live [] s w l = unfold choose in inr (w, l)
    choose-live (k ∷ ks) s w l =
        choose-elim (OnOk (Outcome max (k ∷ ks))) k ks s (λ x. tt)
          (λ nd e r. later (loop ks s) (choose-live ks s w l))
          (λ nd e u r. inl (refl, k, refl, contains-head k ks, (nd, e, u, r)))
          (λ nd e u r.
            later (loop ks (keep s k)) (choose-live ks (keep s k) w (keep-IsLive s.best k l)))
          (λ nd ed e u n.
            let live = scored-IsLive s k nd ed e u l in
            let not_won : (scored s k ed).is_won ≡ false = ground arith in
            (
              (λ q. later (loop ks s) (choose-live ks s w l)),
              (λ q. (
                inr (not_won, live),
                later (loop ks (scored s k ed)) (choose-live ks (scored s k ed) not_won live),
              )),
            ))
      where
        later : (r : Result (Choice fl)) → OnOk (Outcome max ks) r → OnOk (Outcome max (k ∷ ks)) r
        later r h = OnOk-map (Outcome max ks) (Outcome max (k ∷ ks)) r (Outcome-cons max k ks) h

    -- With no live child so far: the loop ends with a winning child, with a live one, or all children
    -- are settled.
    abbrev pub Verdict : List ℕ → Choice fl → Type 0
    Verdict kids ch = Outcome max kids ch ⊎ (ch.is_won ≡ false) × AllSettled max kids

    Verdict-cons :
        (k : ℕ) (ks : List ℕ) (r : Result (Choice fl))
        → Settled max k
        → OnOk (Verdict ks) r
        → OnOk (Verdict (k ∷ ks)) r
    Verdict-cons k ks r st h =
        OnOk-map (Verdict ks) (Verdict (k ∷ ks)) r
          (λ ch v. elim v [
            | inl o ↦ inl (Outcome-cons max k ks ch o)
            | inr (w, a) ↦ inr (w, (st, a))
          ])
          h

    Outcome-Verdict :
        (kids : List ℕ) (r : Result (Choice fl)) → OnOk (Outcome max kids) r → OnOk (Verdict kids) r
    Outcome-Verdict kids r h = OnOk-map (Outcome max kids) (Verdict kids) r (λ ch o. inl o) h

    module _ (unpruned : (n : ℕ) → pruned n ≡ false) (high : Scored c max fa_w fa_n) where
      pub choose-Verdict :
          (kids : List ℕ) (s : Choice fl)
          → s.is_won ≡ false
          → s.best_score ≡ lowest
          → OnOk (Verdict kids) (loop kids s)
      choose-Verdict [] s w l = unfold choose in inr (w, tt)
      choose-Verdict (k ∷ ks) s w l =
          choose-elim (OnOk (Verdict (k ∷ ks))) k ks s (λ x. tt)
            (λ nd e r. Verdict-cons k ks (loop ks s) (nd, e, inl r) (choose-Verdict ks s w l))
            (λ nd e u r. inl (inl (refl, k, refl, contains-head k ks, (nd, e, u, r))))
            (λ nd e u r.
              Verdict-cons k ks (loop ks (keep s k)) (nd, e, inr (u, r))
                (choose-Verdict ks (keep s k) w l))
            (λ nd ed e u n.
              let b : less s.best_score (score fl ed c max fa_w fa_n) ≡ true =
                rw l (high k nd ed e n) in
              let live = scored-first s k nd ed e u b in
              let not_won : (scored s k ed).is_won ≡ false = ground arith in
              (
                (λ q. absurd (clash (pruned ed.n) q (unpruned ed.n))),
                (λ q. (
                  inl (inr (not_won, live)),
                  Outcome-Verdict (k ∷ ks) (loop ks (scored s k ed)) (
                      OnOk-map (Outcome max ks) (Outcome max (k ∷ ks)) (loop ks (scored s k ed))
                        (Outcome-cons max k ks) (choose-live ks (scored s k ed) not_won live)),
                )),
              ))
