-- ===== src/GoBoard/Tests.antt =====
-- The wrapper over a small stand-in for pachi: a board is a number that grows with each stone, and
-- the points of the diagonal are refused.
use estar_go.Base.{ℕ, ◌+◌, ◌*◌, ◌≡◌, refl, true, false, not, [], ◌∷◌, ◌⊎◌, arith, codes, ok}
use estar_go.Base.Int.{pos, pos_part, eqb_ℤ, quot, rem, to_char, ◌+ℤ◌}
use estar_go.GoBoard.{
  Pachi, GoBoard, new_go_board, apply_move, note_hash, apply_history, check_repetition, pos_pass,
}
use estar_go.GoBoard.Moves.{apply_move-turn, Taken, Refused}
use estar_go.GoBoard.Replay.{play_all, apply_history-play_all}
use estar_go.GoBoard.Window.{Windowed, apply_move-Windowed, refused_sets_repetition}

abbrev toy : Pachi
toy = record {
  Board = ℕ;
  Score = ℕ;
  new_board = λ komi. 0;
  clear = λ b. 0;
  put_komi = λ komi b. b;
  is_valid_move = λ b s x y. not (eqb_ℤ x y);
  play = λ b s x y. b * 1000 + pos_part x * 20 + pos_part y;
  hash = λ b. b;
  official_score = λ b. b;
  negate = λ s. s;
  is_nonnegative = λ s. true;
}

abbrev fresh : GoBoard toy
fresh = record {
  b = 0;
  history = [];
  hash8 = 0 ∷ 0 ∷ 0 ∷ 0 ∷ 0 ∷ 0 ∷ 0 ∷ 0 ∷ [];
  board_repetition = false;
}

-- The second move of the third column by black, then a pass.
abbrev after_two : GoBoard toy
after_two = record {
  b = 61;
  history = codes "CaZP";
  hash8 = 0 ∷ 0 ∷ 0 ∷ 0 ∷ 0 ∷ 0 ∷ 0 ∷ 61 ∷ [];
  board_repetition = false;
}

two_moves : play_all toy (new_go_board toy 7) (pos 2 ∷ pos_pass ∷ []) ≡ ok after_two
unfolding play_all apply_move note_hash new_go_board rem quot to_char ◌+ℤ◌
two_moves = refl

apply_move-turn_example :
    ((apply_move toy fresh (pos 2)).0 ≡ true)
      × Taken toy fresh (pos 2) (apply_move toy fresh (pos 2)).1
    ⊎ ((apply_move toy fresh (pos 2)).0 ≡ false)
      × Refused toy fresh (apply_move toy fresh (pos 2)).1
apply_move-turn_example = apply_move-turn toy fresh (pos 2) refl

apply_history-play_all_example :
    apply_history toy (new_go_board toy 7) (codes "CaZP") ≡ ok after_two
unfolding play_all apply_move note_hash new_go_board rem quot to_char ◌+ℤ◌
apply_history-play_all_example =
    apply_history-play_all toy 7 (pos 2 ∷ pos_pass ∷ []) after_two (omega arith, (omega arith, tt))
      refl

apply_move-Windowed_example : Windowed toy (apply_move toy fresh (pos 2)).1
apply_move-Windowed_example = apply_move-Windowed toy fresh 2 refl

-- The point 0 is on the diagonal.
refused_sets_repetition_test :
    (apply_move toy fresh (pos 0)).1 ≡ record fresh { board_repetition = true }
unfolding apply_move check_repetition rem quot ◌+ℤ◌
refused_sets_repetition_test = refused_sets_repetition toy fresh 0 (refl, refl) refl
