-- ===== src/Player/TimePolicy/Late.antt =====
-- est_timeout_rollout of src/MCTSPlayer.cpp from the 150th move of a side on.
mod Tests
use estar_go.Base.{
  ℕ, zero, suc, ◌+◌, ◌/◌, ◌≡◌, ◌≤◌, refl, ◌⊎◌, inl, inr, Bool, true, false, Result, err, hung,
  ◌>>=◌, Bool-cases, arith, leb, if◌then◌else◌,
}
use estar_go.Base.Int.{ℤ, pos, negsuc, quot, ltb_ℤ, ◌≤ℤ◌}
use estar_go.Base.Floats.{Floats}
use estar_go.GoBoard.{Pachi, get_total_moves}
use estar_go.Player.{Player}
use estar_go.Player.TimePolicy.{halve, est_timeout, est_timeout_rollout}

halve_hangs :
    (fuel s : ℕ) (time_remain : ℤ)
    → time_remain ≤ℤ pos 0
    → halve fuel time_remain (pos s) ≡ err hung
unfolding halve quot
halve_hangs zero s r h = refl
halve_hangs (suc fuel) s r h = elim (Bool-cases (ltb_ℤ (pos s) r)) [
  | inl l ↦ absurd (ground arith)
  | inr l ↦ rw l (halve_hangs fuel (s / 2) r h)
]

module _ (fl : Floats) (pachi : Pachi) (p : Player fl pachi) where
  -- The game is in its last stage, under the time policy, and not by the rules of UEC.
  abbrev pub IsLate : Type 0
  IsLate =
      (p.config.is_time_policy ≡ true)
      × (p.is_uec ≡ false)
      × (150 ≤ get_total_moves pachi p.root_board / 2)

  -- In the last stage, with no time left, or less than none, est_timeout_rollout does not end, whatever
  -- fuel it has; the safe time of the stage is not negative.
  pub est_timeout_rollout_hangs :
      (fuel s : ℕ)
      → IsLate
      → p.config.stage_150_safe_time_s ≡ pos s
      → p.time_remain ≤ℤ pos 0
      → est_timeout_rollout fl pachi fuel p ≡ err hung
  unfolding est_timeout_rollout est_timeout
  est_timeout_rollout_hangs fuel s (a, b, c) e h =
      rw (a, b, late, e, halve_hangs fuel s p.time_remain h) refl
    where
      late : leb 150 (get_total_moves pachi p.root_board / 2) ≡ true
      late = ground arith
