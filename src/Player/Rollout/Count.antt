-- ===== src/Player/Rollout/Count.antt =====
-- The number of rollouts that rollout of src/MCTSPlayer.cpp counts.
use estar_go.Base.{
  ℕ, ◌≡◌, refl, ◌⊎◌, inl, inr, true, false, not, ◌&&◌, ◌||◌, List, [], ◌∷◌, Option, none, some,
  Result, ok, err, OnOk, OnOk-bind, OnOk-map, OnOk-if, OnOk-trivial, Option-cases, arith,
  if◌then◌else◌, ◌>>=◌, ◌∙◌, null_pointer,
}
use estar_go.Base.Int.{ℤ, pos, ◌+ℤ◌, ◌≤ℤ◌, ltb_ℤ, eqb_ℤ, +ℤ_parts}
use estar_go.Base.Floats.{Floats}
use estar_go.GoBoard.{Pachi, GoBoard}
use estar_go.MctsTree.{Node, Tree, node_at, modify}
use estar_go.MctsTree.Descent.{Selected}
use estar_go.Player.Rollout.{
  Search, Event, at_time, reply, server_evaluate, visit_leaf, simulate, is_decided, begin, turn,
  happens, all_happen, Request, evaluated,
}

step_up : (a b c d : ℤ) → ltb_ℤ a b ≡ true → (c ≡ a) ⊎ (c ≡ a +ℤ pos 1) → d ≡ b → c ≤ℤ d
unfolding ◌+ℤ◌
step_up a b c d h (inl e) q = rw (e, q) (ground arith)
step_up a b c d h (inr e) q = rw (e, q) (ground (arith, +ℤ_parts a (pos 1)))

module _ (fl : Floats) (pachi : Pachi) where
  -- The rollouts do not exceed the most that the move may take; one more fits while the loop waits.
  abbrev pub Within : Search fl pachi → Type 0
  Within s =
      (s.rollout_in_turn ≤ℤ s.player.dynamic_rollout)
      × ((s.waiting ≡ false) ⊎ (ltb_ℤ s.rollout_in_turn s.player.dynamic_rollout ≡ true))

  -- One rollout more, or none.
  abbrev Counts : Search fl pachi → Search fl pachi → Type 0
  Counts s s' =
      (s'.player.dynamic_rollout ≡ s.player.dynamic_rollout)
      × (s'.waiting ≡ s.waiting)
      × ((s'.rollout_in_turn ≡ s.rollout_in_turn)
          ⊎ (s'.rollout_in_turn ≡ s.rollout_in_turn +ℤ pos 1))

  server_evaluate-Counts :
      (g : GoBoard pachi) (leaf : ℕ) (max : ℤ) (s : Search fl pachi)
      → OnOk (Counts s) (server_evaluate fl pachi g leaf max s)
  unfolding server_evaluate
  server_evaluate-Counts g leaf max s =
      OnOk-bind (λ nd. Unit {0}) (Counts s) (node_at fl s.player.tree leaf) _ (OnOk-trivial _)
        λ nd x.
          OnOk-if (Counts s) nd.rq_sent _ _ (λ e. (refl, refl, inl refl))
            (λ e. (refl, refl, inr refl))

  backed :
      (s : Search fl pachi) (m : Result (Tree fl))
      → OnOk (Counts s) (
          m >>= λ t'. ok (record s {
            rollout_in_turn = s.rollout_in_turn +ℤ pos 1;
            player = record s.player { tree = t' };
          }))
  backed s (ok t) = (refl, refl, inr refl)
  backed s (err e) = tt

  visit_leaf-Counts :
      (max : ℤ) (s : Search fl pachi) (d : Selected fl pachi)
      → OnOk (Counts s) (visit_leaf fl pachi max s d)
  unfolding visit_leaf
  visit_leaf-Counts max s d =
      let noted : Search fl pachi = record s {
        player = record s.player {
          tree =
              modify fl d.leaf
                (λ l. record l {
                  is_repetition = d.state.board_repetition;
                  is_repetition_checked = true;
                })
                d.tree;
        };
      } in
      OnOk-bind (λ nd. Unit {0}) (Counts s) (node_at fl d.tree d.leaf) _ (OnOk-trivial _)
        λ nd x.
          OnOk-if (Counts s) d.state.board_repetition (ok noted) _ (λ e. (refl, refl, inl refl))
            λ e.
              OnOk-if (Counts s) (not (eqb_ℤ nd.result (pos 0)) || nd.is_terminate) _ _
                (λ b. backed s _) (λ b. server_evaluate-Counts d.state d.leaf max _)

  Counts-Within :
      (s s' : Search fl pachi)
      → s.waiting ≡ false
      → ltb_ℤ s.rollout_in_turn s.player.dynamic_rollout ≡ true
      → Counts s s'
      → Within s'
  Counts-Within s s' w l (d, v, c) = (
    step_up s.rollout_in_turn s.player.dynamic_rollout s'.rollout_in_turn s'.player.dynamic_rollout
        l c d,
    inl (v ∙ w),
  )

  simulate-Within :
      (max : ℤ) (r : ℕ) (root : Node fl) (s : Search fl pachi)
      → ltb_ℤ s.rollout_in_turn s.player.dynamic_rollout ≡ true
      → OnOk Within (simulate fl pachi max r root s)
  unfolding simulate
  simulate-Within max r root s l =
      OnOk-if Within (root.rq_sent && not root.eval_ready) _ _
        (λ e. (
          step_up s.rollout_in_turn s.player.dynamic_rollout s.rollout_in_turn
              s.player.dynamic_rollout l (inl refl) refl,
          inr l,
        ))
        λ e.
          OnOk-bind (λ d. Unit {0}) Within _ _ (OnOk-trivial _)
            λ d x.
              OnOk-map (Counts (record s { waiting = false })) Within _
                (λ s' c. Counts-Within (record s { waiting = false }) s' refl l c)
                (visit_leaf-Counts max (record s { waiting = false }) d)

  begin-Within :
      (max elapsed : ℤ) (r : ℕ) (root : Node fl) (s : Search fl pachi)
      → Within s
      → OnOk Within (begin fl pachi max elapsed r root s)
  unfolding begin
  begin-Within max elapsed r root s w =
      OnOk-if Within s.exit_flag _ _ (λ e. w)
        λ e.
          OnOk-if Within
            (ltb_ℤ s.player.dynamic_timeout elapsed
              || not (ltb_ℤ s.rollout_in_turn s.player.dynamic_rollout))
            _ _ (λ b. w)
            λ b.
              OnOk-bind (λ d. Unit {0}) Within (is_decided fl pachi s root max) _
                (OnOk-trivial (is_decided fl pachi s root max))
                λ d x.
                  OnOk-if Within (d || root.is_terminate) (ok (record s { exit_flag = true })) _
                    (λ t. w)
                    λ t.
                      simulate-Within max r root (record s { exit_flag = s.player.is_exit_rollout })
                        (ground arith)

  turn-Within :
      (max elapsed : ℤ) (s : Search fl pachi) → Within s → OnOk Within (turn fl pachi max elapsed s)
  unfolding turn
  turn-Within max elapsed s w = elim (Option-cases s.player.root) [
    | inl n ↦ on_root s.player.root
    | inr (r, n) ↦ on_root s.player.root
  ]
    where
      go :
          (r : ℕ)
          → OnOk Within (
              node_at fl s.player.tree r >>= λ root.
              if s.waiting
              then simulate fl pachi max r root s
              else begin fl pachi max elapsed r root s)
      go r =
          OnOk-bind (λ d. Unit {0}) Within _ _ (OnOk-trivial _)
            λ root x.
              OnOk-if Within s.waiting _ _ (λ e. simulate-Within max r root s (ground arith))
                (λ e. begin-Within max elapsed r root s w)

      on_root :
          (o : Option ℕ)
          → OnOk Within (elim o [
            | none ↦ err null_pointer
            | some r ↦
                (node_at fl s.player.tree r >>= λ root.
                if s.waiting
                then simulate fl pachi max r root s
                else begin fl pachi max elapsed r root s)
          ])
      on_root none = tt
      on_root (some r) = go r

  answered :
      (s : Search fl pachi) (rest : List (Request fl pachi))
      → Within s
      → (m : Result (Tree fl))
      → OnOk Within
          (m >>= λ t. ok (record s { player = record s.player { tree = t }; requests = rest }))
  answered s rest w (ok t) = w
  answered s rest w (err e) = tt

  happens-Within :
      (max : ℤ) (e : Event fl pachi) (s : Search fl pachi)
      → Within s
      → OnOk Within (happens fl pachi max e s)
  unfolding happens
  happens-Within max (at_time elapsed) s w = turn-Within max elapsed s w
  happens-Within max (reply value policy) s w = on_requests s.requests
    where
      on_requests :
          (rs : List (Request fl pachi))
          → OnOk Within (elim rs [
            | [] ↦ ok s
            | rq ∷ rest ↦
                (evaluated fl pachi s.player.config.policy_prob_threshold
                    s.player.config.virtual_loss rq value policy s.player.tree
                  >>= λ t. ok (record s { player = record s.player { tree = t }; requests = rest }))
          ])
      on_requests [] = w
      on_requests (rq ∷ rest) = answered s rest w (
          evaluated fl pachi s.player.config.policy_prob_threshold s.player.config.virtual_loss rq
            value policy s.player.tree)

  -- However the turns and the evaluator's answers follow each other, a search never counts more rollouts
  -- than dynamic_rollout, if it has not before.
  pub all_happen-Within :
      (max : ℤ) (es : List (Event fl pachi)) (s : Search fl pachi)
      → Within s
      → OnOk Within (all_happen fl pachi max es s)
  unfolding all_happen
  all_happen-Within max [] s w = w
  all_happen-Within max (e ∷ es) s w =
      OnOk-bind Within Within (happens fl pachi max e s) _ (happens-Within max e s w)
        λ s' w'. all_happen-Within max es s' w'
