-- ===== src/Player/TimePolicy.antt =====
-- est_timeout_rollout and cal_rollout_speed of src/MCTSPlayer.cpp: how much time and how many rollouts a
-- move may take, and the speed that is reckoned with.
pub mod Late
use estar_go.Base.{
  ℕ, zero, suc, ◌+◌, ◌-◌, ◌/◌, ◌≡◌, Bool, true, false, ◌&&◌, Result, ok, err, hung, ◌>>=◌,
  if◌then◌else◌, ltb, leb, not, codes,
}
use estar_go.Base.Int.{ℤ, pos, negsuc, ◌+ℤ◌, ◌-ℤ◌, ◌*ℤ◌, quot, ltb_ℤ}
use estar_go.Base.Floats.{Floats}
use estar_go.GoBoard.{Pachi, get_total_moves}
use estar_go.Player.{Player, divide}

-- while (time_remain<=safe_time) safe_time=safe_time/2
unfoldable pub halve : ℕ → ℤ → ℤ → Result ℤ
halve zero time_remain safe_time = err hung
halve (suc fuel) time_remain safe_time =
    let later = halve fuel time_remain (quot safe_time 2) in
    if ltb_ℤ safe_time time_remain then ok safe_time else later

module _ (fl : Floats) (pachi : Pachi) where
  open fl use {F, of_int, of_text, to_int, add, sub, mul, div, less}

  -- The timeout of the middle game.
  pub stage_0_timeout : Player fl pachi → ℕ → ℤ
  stage_0_timeout p n_mymove =
      let safe_time = p.config.stage_0_safe_time_s in
      let timeout = to_int (
        div (mul (of_int (p.time_remain -ℤ safe_time)) (of_text (codes "1000.0")))
          (of_int (pos (50 + (if ltb 50 n_mymove then 0 else 50 - n_mymove))))) in
      if ltb_ℤ p.config.over_using_thr_time_out_ms timeout
      then to_int (mul p.f_early (of_int timeout))
      else if ltb_ℤ timeout p.config.under_using_thr_time_out_ms
      then pos 1000
      else timeout

  -- The timeout and whether rollouts stop.
  pub est_timeout : ℕ → Player fl pachi → Result (ℤ × Bool)
  est_timeout fuel p =
      let n_mymove = get_total_moves pachi p.root_board / 2 in
      if not p.config.is_time_policy
      then ok (p.config.time_out_ms, p.stop_rollout)
      else if p.is_uec && leb 200 n_mymove
      then ok (pos 0, true)
      else if leb 150 n_mymove
      then (halve fuel p.time_remain p.config.stage_150_safe_time_s >>= λ safe_time.
          divide ((p.time_remain -ℤ safe_time) *ℤ pos 1000)
            (if p.is_uec then pos 200 -ℤ pos n_mymove else pos 100)
          >>= λ timeout. ok (timeout, p.stop_rollout))
      else if not (ltb_ℤ (pos n_mymove) p.config.quick_play_move_num)
      then ok (stage_0_timeout p n_mymove, p.stop_rollout)
      else ok (p.config.quick_play_move_time_out_ms, p.stop_rollout)

  pub est_timeout_rollout : ℕ → Player fl pachi → Result (Player fl pachi)
  unfolding est_timeout
  est_timeout_rollout fuel p = est_timeout fuel p >>= λ r. ok (record p {
    dynamic_timeout = r.0;
    stop_rollout = r.1;
    dynamic_rollout = quot (r.0 *ℤ p.rollout_speed) 1000;
  })

  -- `use_server_evaluator` is a setting that Sinit does not read.
  unfoldable pub cal_rollout_speed : Bool → ℤ → ℤ → ℤ → Player fl pachi → Player fl pachi
  cal_rollout_speed use_server_evaluator in_turn server_eval_cnt cost_time p =
      let ignore = if use_server_evaluator then pos 400 *ℤ p.config.proxy_number else pos 400 in
      let done = if use_server_evaluator then server_eval_cnt else in_turn in
      let counts = ltb_ℤ ignore done in
      let n_speed =
        if counts
        then to_int (
            div (of_int done)
              (add (div (of_int cost_time) (of_int (pos 1000))) (of_text (codes "0.01"))))
        else p.n_speed in
      record p {
        total_rollout = p.total_rollout +ℤ done;
        n_speed = n_speed;
        rollout_speed =
            if ltb_ℤ (pos 200) p.rollout_speed && counts
            then to_int (
                add (mul (of_int p.rollout_speed) (of_text (codes "0.9")))
                  (mul (of_int n_speed) (of_text (codes "0.1"))))
            else p.rollout_speed;
      }
