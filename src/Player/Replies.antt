-- ===== src/Player/Replies.antt =====
-- The end of rollout in src/MCTSPlayer.cpp with the server: on_server_rollout_loop_over, and the counts of
-- include/PolicyValueEvaluatorClient.h that it reads and clears. They are taken not to reach 2^29.
pub mod Drained
mod Tests
use estar_go.Base.{
  ℕ, ◌*◌, ◌≡◌, Bool, true, false, List, [], ◌∷◌, Result, ok, err, hung, ◌>>=◌, if◌then◌else◌,
}
use estar_go.Base.Int.{ℤ, pos, ◌+ℤ◌, ltb_ℤ}
use estar_go.Base.Floats.{Floats}
use estar_go.Latency.{Latency, clear}

-- The loop until get_pending gives 0 or less, with the values that it reads one after the other.
pub wait_pending : List ℤ → Result (List ℤ)
wait_pending [] = err hung
wait_pending (x ∷ reads) =
    let rest = wait_pending reads in if ltb_ℤ (pos 0) x then rest else ok reads

module _ (fl : Floats) where
  pub record ClientCounts : Type 0 where
    pub resend_times : ℕ
    pub request_latencys : List (Latency fl)
    pub dummy_request_latencys : List (Latency fl)

  -- The loop over the latencies of the proxies: each is counted and cleared.
  pub count_latencys : List (Latency fl) → ℤ → ℤ × List (Latency fl)
  count_latencys [] server_eval_cnt = (server_eval_cnt, [])
  count_latencys (l ∷ ls) server_eval_cnt =
      let r = count_latencys ls (server_eval_cnt +ℤ pos (l.latency_count * 4)) in
      (r.0, clear fl ∷ r.1)

  -- The loop over those of the dummy requests.
  pub clear_latencys : List (Latency fl) → List (Latency fl)
  clear_latencys [] = []
  clear_latencys (l ∷ ls) = clear fl ∷ clear_latencys ls

  -- on_server_rollout_loop_over
  pub on_server_rollout_loop_over : List ℤ → ClientCounts → Result (ℤ × ClientCounts)
  unfolding wait_pending count_latencys clear_latencys
  on_server_rollout_loop_over reads c = wait_pending reads >>= λ left.
      let r = count_latencys c.request_latencys (pos 0) in
      ok (
        r.0,
        record {
          resend_times = 0;
          request_latencys = r.1;
          dummy_request_latencys = clear_latencys c.dummy_request_latencys;
        },
      )
