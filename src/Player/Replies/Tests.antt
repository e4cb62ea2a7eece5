-- ===== src/Player/Replies/Tests.antt =====
-- The counts of two proxies behind a rollout of the sample player.
use estar_go.Base.{ℕ, ◌+◌, ◌*◌, ◌≡◌, true, [], ◌∷◌, Returns}
use estar_go.Base.Int.{pos, ◌+ℤ◌}
use estar_go.Base.Floats.{int_floats}
use estar_go.Latency.{Latency}
use estar_go.Player.Sample.{toy, sample}
use estar_go.Player.TimePolicy.{cal_rollout_speed}
use estar_go.Player.Replies.{ClientCounts, on_server_rollout_loop_over}
use estar_go.Player.Replies.Drained.{IsCleared, on_server_rollout_loop_over-Drained}

abbrev used : ℕ → Latency int_floats
used n = record { ema_latency = pos 2; latency_count = n; latency_sum = pos 9; latency_max = pos 5 }

abbrev two_proxies : ClientCounts int_floats
two_proxies = record {
  resend_times = 1;
  request_latencys = used 3 ∷ used 2 ∷ [];
  dummy_request_latencys = used 1 ∷ used 0 ∷ [];
}

on_server_rollout_loop_over-Drained_example :
    Returns
      (λ r.
        IsCleared int_floats toy two_proxies r.1
        × ((cal_rollout_speed int_floats toy true
              (pos 7)
              r.0
              (pos 800)
              (sample [] (pos 300))).total_rollout
            ≡ pos 0 +ℤ pos ((3 + (2 + 0)) * 4)))
      (on_server_rollout_loop_over int_floats (pos 2 ∷ pos 1 ∷ pos 0 ∷ []) two_proxies)
on_server_rollout_loop_over-Drained_example =
    on_server_rollout_loop_over-Drained int_floats toy (pos 2 ∷ pos 1 ∷ pos 0 ∷ []) two_proxies
      (pos 7) (pos 800) (sample [] (pos 300)) tt
