-- ===== src/GoBoard/Replay.antt =====
-- apply_history of src/GoBoard.cpp against apply_move.
use estar_go.Base.{
  ℕ, zero, suc, ◌+◌, ◌*◌, ◌%◌, ◌<◌, ◌≡◌, refl, sym, ap, ◌∙◌, true, false, Bool-cases, inl, inr,
  List, [], ◌∷◌, ◌++◌, append_assoc, append-nil, Text, arith, if◌then◌else◌, ◌==◌, length,
  length-append, Result, ok, err, exited, OnOk, OnOk-ok, OnOk-map, subst,
}
use estar_go.Base.Int.{ℤ, pos, negsuc}
use estar_go.GoBoard.{
  Pachi, GoBoard, move_code, apply_move, add_move_to_history, place, note_hash, get_color, color_of,
  replay, apply_history, new_go_board,
}
use estar_go.GoBoard.Moves.{move_code_point, decode_move_point, length-move_code, history-place}

-- A point, a pass or a resignation.
abbrev pub IsAction : ℤ → Type 0
IsAction (pos n) = n < 361
IsAction (negsuc n) = n < 2

abbrev pub AllActions : List ℤ → Type 0
AllActions [] = Unit {0}
AllActions (a ∷ as') = IsAction a × AllActions as'

module _ (pachi : Pachi) where
  -- A game: the moves in order, each of which has to be taken (the callers exit if one is not).
  unfoldable pub play_all : GoBoard pachi → List ℤ → Result (GoBoard pachi)
  play_all g [] = ok g
  play_all g (a ∷ as') =
      let (succ, g') = apply_move pachi g a in
      let rest = play_all g' as' in if succ then rest else err exited

  codes_of : List ℤ → Text
  codes_of [] = []
  codes_of (a ∷ as') = move_code a ++ codes_of as'

  codes_of_even : (as' : List ℤ) → length (codes_of as') % 2 ≡ 0
  unfolding codes_of
  codes_of_even [] = refl
  codes_of_even (a ∷ as') =
      omega
        (arith, length-append (move_code a) (codes_of as'), length-move_code a, codes_of_even as')

  abbrev with_history : GoBoard pachi → Text → GoBoard pachi
  with_history g h = record g { history = h }

  place-with_history :
      (g : GoBoard pachi) (h : Text) (a : ℤ) (c : ℕ)
      → ((place pachi (with_history g h) a c).0 ≡ (place pachi g a c).0)
        × ((place pachi (with_history g h) a c).1 ≡ with_history (place pachi g a c).1 h)
  unfolding place note_hash
  place-with_history g h a c = ground arith

  replay_point :
      (step n : ℕ) (rest : Text) (g : GoBoard pachi)
      → n < 361
      → (place pachi g (pos n) (step % 2)).0 ≡ true
      → replay pachi step (move_code (pos n) ++ rest) g
        ≡ replay pachi (suc step) rest (place pachi g (pos n) (step % 2)).1
  unfolding replay
  replay_point step n rest g h s =
      let ne : ((n % 19 + b'A') == b'Z') ≡ false = ground arith in
      rw (move_code_point n h, replay, decode_move_point n h, ne, s)

  replay_pass :
      (step n : ℕ) (rest : Text) (g : GoBoard pachi)
      → n < 2
      → replay pachi step (move_code (negsuc n) ++ rest) g ≡ replay pachi (suc step) rest g
  unfolding replay move_code
  replay_pass step zero rest g h = refl
  replay_pass step (suc zero) rest g h = refl
  replay_pass step (suc (suc n)) rest g h = absurd (omega arith)

  color_of_even : (n : ℕ) (h : Text) → length h ≡ 2 * n → color_of h ≡ n % 2
  unfolding color_of
  color_of_even n h e = rw e (omega arith)

  abbrev Replays : ℕ → List ℤ → GoBoard pachi → Text → GoBoard pachi → Type 0
  Replays n as' g h g' =
      (replay pachi n (codes_of as') (with_history g h) ≡ ok (with_history g' h))
      × (g'.history ≡ g.history ++ codes_of as')

  -- One move of the game, given the rest.
  Replays-point :
      (as' : List ℤ) (n m : ℕ) (g : GoBoard pachi) (h : Text) (g' : GoBoard pachi)
      → length g.history ≡ 2 * n
      → m < 361
      → (place pachi g (pos m) (get_color pachi g)).0 ≡ true
      → Replays
          (suc n)
          as'
          (add_move_to_history pachi (place pachi g (pos m) (get_color pachi g)).1 (pos m))
          h
          g'
      → Replays n (pos m ∷ as') g h g'
  unfolding codes_of get_color add_move_to_history
  Replays-point as' n m g h g' l b s (r, e) =
      let c : color_of g.history ≡ n % 2 = color_of_even n g.history l in
      let moved = place-with_history g h (pos m) (n % 2) in
      let s' : (place pachi g (pos m) (n % 2)).0 ≡ true = rw c at s in
      (
        replay_point n m (codes_of as') (with_history g h) b (moved.0 ∙ s')
            ∙ ap (replay pachi (suc n) (codes_of as')) moved.1
            ∙ subst
                (λ k.
                  replay pachi (suc n) (codes_of as') (with_history (place pachi g (pos m) k).1 h)
                  ≡ ok (with_history g' h))
                c r,
        e
            ∙ ap (λ t. (t ++ move_code (pos m)) ++ codes_of as') (history-place pachi g (pos m) _)
            ∙ append_assoc g.history (move_code (pos m)) (codes_of as'),
      )

  Replays-pass :
      (as' : List ℤ) (n m : ℕ) (g : GoBoard pachi) (h : Text) (g' : GoBoard pachi)
      → m < 2
      → Replays (suc n) as' (add_move_to_history pachi g (negsuc m)) h g'
      → Replays n (negsuc m ∷ as') g h g'
  unfolding codes_of add_move_to_history
  Replays-pass as' n m g h g' b (r, e) = (
    replay_pass n m (codes_of as') (with_history g h) b ∙ r,
    e ∙ append_assoc g.history (move_code (negsuc m)) (codes_of as'),
  )

  length-add_move :
      (g : GoBoard pachi) (a : ℤ) (n : ℕ)
      → length g.history ≡ 2 * n
      → length (add_move_to_history pachi g a).history ≡ 2 * suc n
  unfolding add_move_to_history
  length-add_move g a n l = omega (arith, length-append g.history (move_code a), length-move_code a)

  replay-play_all :
      (as' : List ℤ) (n : ℕ) (g : GoBoard pachi) (h : Text)
      → length g.history ≡ 2 * n
      → AllActions as'
      → OnOk (Replays n as' g h) (play_all g as')
  unfolding play_all apply_move
  replay-play_all [] n g h l w = unfold replay codes_of in (refl, sym (append-nil g.history))
  replay-play_all (pos m ∷ as') n g h l w =
      let k = (place pachi g (pos m) (get_color pachi g)).1 in
      let added = add_move_to_history pachi k (pos m) in
      let lk : length k.history ≡ 2 * n = ap length (history-place pachi g (pos m) _) ∙ l in
      elim (Bool-cases (place pachi g (pos m) (get_color pachi g)).0) [
        | inl s ↦ rw s (
            OnOk-map (Replays (suc n) as' added h) (Replays n (pos m ∷ as') g h)
              (play_all added as') (λ g' r. Replays-point as' n m g h g' l w.0 s r)
              (replay-play_all as' (suc n) added h (length-add_move k (pos m) n lk) w.1))
        | inr s ↦ rw s tt
      ]
  replay-play_all (negsuc m ∷ as') n g h l w =
      let added = add_move_to_history pachi g (negsuc m) in
      OnOk-map (Replays (suc n) as' added h) (Replays n (negsuc m ∷ as') g h) (play_all added as')
        (λ g' r. Replays-pass as' n m g h g' w.0 r)
        (replay-play_all as' (suc n) added h (length-add_move g (negsuc m) n l) w.1)

  -- A new board that is given the history of a game comes to the very state that the game left: the
  -- same pachi board, history, window of hashes and repetition flag. The moves are points, passes
  -- and resignations, and all were taken.
  pub apply_history-play_all :
      (komi : pachi.Score) (as' : List ℤ) (g : GoBoard pachi)
      → AllActions as'
      → play_all (new_go_board pachi komi) as' ≡ ok g
      → apply_history pachi (new_go_board pachi komi) g.history ≡ ok g
  unfolding apply_history
  apply_history-play_all komi as' g w e =
      let fresh = new_go_board pachi komi in
      let (r, h) =
        OnOk-ok (Replays 0 as' fresh g.history) (play_all fresh as')
          (replay-play_all as' 0 fresh g.history (unfold new_go_board in refl) w) e in
      let h' : g.history ≡ codes_of as' = unfold new_go_board in h in
      let even : (length g.history % 2 == 0) ≡ true =
        ground (arith, ap length h', codes_of_even as') in
      rw even (subst (λ t. replay pachi 0 t (with_history fresh g.history) ≡ ok g) (sym h') r)
