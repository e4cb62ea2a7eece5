-- ===== src/Player/Replies/Drained.antt =====
-- What on_server_rollout_loop_over and cal_rollout_speed of src/MCTSPlayer.cpp make of the server's counts.
use estar_go.Base.{
  ℕ, ◌+◌, ◌*◌, ◌≡◌, refl, ap, ◌∙◌, Bool, true, false, List, [], ◌∷◌, ok, Returns, Returns-bind,
  if◌then◌else◌, sum_by, replicate, length, arith,
}
use estar_go.Base.Int.{ℤ, pos, ◌+ℤ◌, ltb_ℤ, +ℤ_pos}
use estar_go.Base.Floats.{Floats}
use estar_go.GoBoard.{Pachi}
use estar_go.Latency.{Latency, clear}
use estar_go.Player.{Player}
use estar_go.Player.TimePolicy.{cal_rollout_speed}
use estar_go.Player.Replies.{
  ClientCounts, wait_pending, count_latencys, clear_latencys, on_server_rollout_loop_over,
}

-- Some read says that no reply is pending.
abbrev pub IsOver : List ℤ → Type 0
IsOver [] = ⊥
IsOver (x ∷ reads) = if ltb_ℤ (pos 0) x then IsOver reads else Unit

wait_pending-Returns :
    (reads : List ℤ) → IsOver reads → Returns (λ r. Unit {0}) (wait_pending reads)
unfolding wait_pending
wait_pending-Returns [] h = h
wait_pending-Returns (x ∷ reads) h = by_test (ltb_ℤ (pos 0) x) h (wait_pending-Returns reads)
  where
    by_test :
        (b : Bool)
        → (if b then IsOver reads else Unit {0})
        → (IsOver reads → Returns (λ r. Unit {0}) (wait_pending reads))
        → Returns (λ r. Unit {0}) (if b then wait_pending reads else ok reads)
    by_test true o f = f o
    by_test false o f = tt

module _ (fl : Floats) (pachi : Pachi) where
  abbrev pub recorded : List (Latency fl) → ℕ
  recorded = sum_by (λ l. l.latency_count)

  clear_latencys-replicate :
      (ls : List (Latency fl)) → clear_latencys fl ls ≡ replicate (length ls) (clear fl)
  unfolding clear_latencys
  clear_latencys-replicate [] = refl
  clear_latencys-replicate (l ∷ ls) = ap (λ r. clear fl ∷ r) (clear_latencys-replicate ls)

  count_latencys-recorded :
      (ls : List (Latency fl)) (n : ℕ)
      → (count_latencys fl ls (pos n)).0 ≡ pos (n + recorded ls * 4)
  unfolding count_latencys
  count_latencys-recorded [] n = ap pos (omega arith)
  count_latencys-recorded (l ∷ ls) n =
      ap (λ k. (count_latencys fl ls k).0) (+ℤ_pos n (l.latency_count * 4))
      ∙ count_latencys-recorded ls (n + l.latency_count * 4)
      ∙ ap pos (omega arith)

  count_latencys-replicate :
      (ls : List (Latency fl)) (n : ℤ)
      → (count_latencys fl ls n).1 ≡ replicate (length ls) (clear fl)
  unfolding count_latencys
  count_latencys-replicate [] n = refl
  count_latencys-replicate (l ∷ ls) n =
      ap (λ r. clear fl ∷ r) (count_latencys-replicate ls (n +ℤ pos (l.latency_count * 4)))

  -- Nothing is left of the counts.
  abbrev pub IsCleared : ClientCounts fl → ClientCounts fl → Type 0
  IsCleared c c' =
      (c'.resend_times ≡ 0)
      × (c'.request_latencys ≡ replicate (length c.request_latencys) (clear fl))
      × (c'.dummy_request_latencys ≡ replicate (length c.dummy_request_latencys) (clear fl))

  -- If some read of the pending replies is 0 or less, on_server_rollout_loop_over returns, the counts of every
  -- proxy are cleared, and cal_rollout_speed with what it returns adds to the player's rollouts, with the
  -- server in use, four for each latency that the proxies' requests recorded.
  pub on_server_rollout_loop_over-Drained :
      (reads : List ℤ) (c : ClientCounts fl) (in_turn cost_time : ℤ) (p : Player fl pachi)
      → IsOver reads
      → Returns
          (λ r.
            IsCleared c r.1
            × ((cal_rollout_speed fl pachi true in_turn r.0 cost_time p).total_rollout
                ≡ p.total_rollout +ℤ pos (recorded c.request_latencys * 4)))
          (on_server_rollout_loop_over fl reads c)
  unfolding on_server_rollout_loop_over cal_rollout_speed
  on_server_rollout_loop_over-Drained reads c in_turn cost_time p h =
      Returns-bind (λ r. Unit {0}) _ (wait_pending reads) _ (wait_pending-Returns reads h)
        λ left u. (
          (
            refl,
            count_latencys-replicate c.request_latencys (pos 0),
            clear_latencys-replicate c.dummy_request_latencys,
          ),
          ap (λ n. p.total_rollout +ℤ n)
              (count_latencys-recorded c.request_latencys 0 ∙ ap pos (omega arith)),
        )
