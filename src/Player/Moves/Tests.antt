-- ===== src/Player/Moves/Tests.antt =====
-- Moves of the opponent at an evaluated root.
use estar_go.Base.{◌≡◌, false, arith, codes}
use estar_go.Base.Int.{pos}
use estar_go.Player.Moves.{move_name, same_letters}
use estar_go.Player.Moves.Names.{read_move, is_under_i, named_move-move_name}

named_move-move_name_example :
    (read_move (move_name (pos 180)) ≡ pos 180)
    × (same_letters (move_name (pos 180)) (codes "pass") ≡ false)
    × (same_letters (move_name (pos 180)) (codes "resign") ≡ false)
    × (is_under_i (move_name (pos 180)) ≡ false)
named_move-move_name_example = named_move-move_name 180 (omega arith)
