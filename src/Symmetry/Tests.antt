-- ===== src/Symmetry/Tests.antt =====
-- The symmetries on a short game.
use estar_go.Base.{◌≡◌, ◌≢◌, refl, inl, inr, Text, arith, codes, length}
use estar_go.Base.Int.{pos, ◌+ℤ◌, ◌-ℤ◌, to_char}
use estar_go.Symmetry.{symmetry_history, get_symfunc, get_revert_symfunc, rotate_move, mirror}
use estar_go.Symmetry.Inverse.{apply, get_revert_symfunc-get_symfunc}
use estar_go.Symmetry.History.{
  IsGame, symmetry_history-inverse, symmetry_history-IsGame, symmetry_history_resign, resign_code,
}

-- D4, pass, Q16.
abbrev game : Text
game = codes "DdZPQp"

game-IsGame : IsGame game
game-IsGame = (
  inr (omega arith, omega arith, omega arith, omega arith),
  (inl (refl, refl), (inr (omega arith, omega arith, omega arith, omega arith), tt)),
)

quarter_turn : symmetry_history game (pos 1) ≡ codes "PdZPDq"
unfolding symmetry_history get_symfunc rotate_move mirror ◌+ℤ◌ ◌-ℤ◌ to_char
quarter_turn = refl

get_revert_symfunc-get_symfunc_example :
    (apply (get_revert_symfunc (pos 5)) (get_symfunc (pos 5) (pos 3) (pos 30)) ≡ (pos 3, pos 30))
    × (apply (get_symfunc (pos 5)) (get_revert_symfunc (pos 5) (pos 3) (pos 30)) ≡ (pos 3, pos 30))
get_revert_symfunc-get_symfunc_example = get_revert_symfunc-get_symfunc (pos 5) (pos 3) (pos 30)

symmetry_history-inverse_example : symmetry_history (symmetry_history game (pos 1)) (pos 3) ≡ game
symmetry_history-inverse_example = symmetry_history-inverse (pos 1) game game-IsGame

symmetry_history-IsGame_test :
    IsGame (symmetry_history game (pos 1)) × (length (symmetry_history game (pos 1)) ≡ 6)
symmetry_history-IsGame_test = symmetry_history-IsGame (pos 1) game game-IsGame

symmetry_history_resign_test : symmetry_history resign_code (pos 4) ≢ resign_code
symmetry_history_resign_test = symmetry_history_resign 4 (omega arith) (omega arith)
