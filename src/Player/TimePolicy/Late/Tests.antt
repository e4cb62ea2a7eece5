-- ===== src/Player/TimePolicy/Late/Tests.antt =====
-- A game of 300 moves, with 20 seconds left and with none.
use estar_go.Base.{◌≡◌, refl, err, hung, arith}
use estar_go.Base.Int.{pos}
use estar_go.Base.Floats.{int_floats}
use estar_go.GoBoard.{get_total_moves}
use estar_go.Player.Sample.{toy, sample, long_history}
use estar_go.Player.TimePolicy.{est_timeout_rollout}
use estar_go.Player.TimePolicy.Late.{IsLate, est_timeout_rollout_hangs}

too_late : IsLate int_floats toy (sample long_history (pos 0))
unfolding get_total_moves
too_late = (refl, refl, omega arith)

est_timeout_rollout_hangs_example :
    est_timeout_rollout int_floats toy 1000 (sample long_history (pos 0)) ≡ err hung
est_timeout_rollout_hangs_example =
    est_timeout_rollout_hangs int_floats toy (sample long_history (pos 0)) 1000 30 too_late refl
      (omega arith)
