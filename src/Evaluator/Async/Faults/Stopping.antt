-- ===== src/Evaluator/Async/Faults/Stopping.antt =====
-- ProcessEval's end in src/PolicyValueEvaluatorClient.cpp, which waits until no request is open.
use estar_go.Base.{
  OnSome, OnSome-if, on_option, on_pick-OnSome, ℕ, suc, ◌+◌, ◌≡◌, ◌<◌, Bool, true, false, List, [],
  ◌∷◌, Option, none, some, ok, OnOk, OnOk-bind, OnOk-if, OnOk-trivial, err, bad_division, Returns,
  ◌>>=◌, Result, ◌==◌, ltb, length, arith,
}
use estar_go.Evaluator.{wait}
use estar_go.Evaluator.Balance.{wait-Takes, wait-Takes_one}
use estar_go.Evaluator.Async.{
  Phase, Caller, Sender, Client, Limits, Action, waiting, reserved, pushed, looping, granted,
  fetching, fetched, popped, sending, draining, left, reserve, push_item, announce, return_call,
  grant_send, begin_evaluate, look_queue, take, split_queue, pop_items, free_slots, asyn_request,
  evaluate_cb, failure_cb, end_sending, end_sender, act, run_all, or_same, call_wait, call_push,
  call_notify, call_return, answer, fail, grant, look, fetch, pop, release, send, stop, end_loop,
  leave,
}
use estar_go.Evaluator.Async.Steady.{IsSteady}
use estar_go.Evaluator.Async.Steady.Runs.{act-IsSteady}

module _ (Item : Type 0) (weigh : Item → ℕ) (l : Limits) (total : ℕ) where
  abbrev IsThere : Sender Item → Type 0
  IsThere left = ⊥
  IsThere _ = Unit

  -- A request has thrown, and the sender's thread has not ended.
  abbrev pub IsHeld : Client Item → Type 0
  IsHeld c = (0 < length c.lost) × IsThere c.sender

  module _ (c : Client Item) (p : IsHeld c) where
    caller-Held :
        (ph : Phase) (xs : List Item) (f : Bool) (rest : List (Caller Item))
        → OnSome IsHeld (reserve Item ph xs f rest c)
          × OnSome IsHeld (push_item Item ph xs f rest c)
          × OnSome IsHeld (announce Item ph xs f rest c)
          × OnSome IsHeld (return_call Item ph xs f rest c)
    unfolding reserve push_item announce return_call
    caller-Held waiting [] f rest = (tt, tt, tt, p)
    caller-Held waiting (x ∷ xs) f rest = (
      on_option (λ w. suc w.1 ≡ c.full) IsHeld (wait 1 c.full) _ (wait-Takes_one c.full) λ w e. p,
      tt,
      tt,
      tt,
    )
    caller-Held reserved [] f rest = (tt, tt, tt, tt)
    caller-Held reserved (x ∷ xs) f rest = (tt, p, tt, tt)
    caller-Held pushed xs f rest = (tt, tt, p, tt)

    begin_evaluate-Held :
        (throws : Bool) (b : List Item) (is_dummy : Bool)
        → OnOk (OnSome IsHeld) (begin_evaluate Item l throws b is_dummy c)
    unfolding begin_evaluate
    begin_evaluate-Held true b is_dummy =
        OnOk-if (OnSome IsHeld) (l.proxy_number == 0) (err bad_division) _ (λ z. tt)
          (λ z. (omega arith, tt))
    begin_evaluate-Held false b is_dummy =
        OnOk-if (OnSome IsHeld) (l.proxy_number == 0) (err bad_division) _ (λ z. tt)
          (λ z. (p.0, tt))

    sender-Held :
        (throws : Bool) (sd : Sender Item)
        → OnSome IsHeld (grant_send Item sd c)
          × OnSome IsHeld (take Item l sd c)
          × OnSome IsHeld (free_slots Item sd c)
          × OnSome IsHeld (end_sending Item sd c)
    unfolding grant_send take free_slots end_sending
    sender-Held throws looping = (
      OnSome-if IsHeld c.eval_terminate _ _ (λ z. tt)
          (λ z.
            on_option (λ w. suc w.1 ≡ c.remain) IsHeld (wait 1 c.remain) _ (wait-Takes_one c.remain)
              λ w e. (p.0, tt)),
      tt,
      tt,
      OnSome-if IsHeld c.eval_terminate _ _ (λ z. (p.0, tt)) (λ z. tt),
    )
    sender-Held throws fetching = (
      tt,
      on_option (λ w. w.0 + w.1 ≡ c.empty) IsHeld (wait l.batch_size c.empty) _
          (wait-Takes l.batch_size c.empty) (λ w e. (p.0, tt)),
      tt,
      tt,
    )
    sender-Held throws (popped b) = (tt, tt, (p.0, tt), tt)
    sender-Held throws granted = (tt, tt, tt, tt)
    sender-Held throws (fetched n) = (tt, tt, tt, tt)
    sender-Held throws (sending b) = (tt, tt, tt, tt)
    sender-Held throws draining = (tt, tt, tt, tt)
    sender-Held throws left = (tt, tt, tt, tt)

    request-Held :
        (throws : Bool) (sd : Sender Item)
        → OnOk (OnSome IsHeld) (look_queue Item l throws sd c)
          × OnOk (OnSome IsHeld) (asyn_request Item l throws sd c)
          × OnOk (OnSome IsHeld) (pop_items Item sd c)
    unfolding look_queue asyn_request pop_items
    request-Held throws granted = (
      OnOk-if (OnSome IsHeld) (c.empty == 0) (begin_evaluate Item l throws [] true c) _
          (λ z. begin_evaluate-Held throws [] true) (λ z. (p.0, tt)),
      tt,
      tt,
    )
    request-Held throws (sending b) = (tt, begin_evaluate-Held throws b false, tt)
    request-Held throws (fetched n) = (
      tt,
      tt,
      OnOk-bind (λ r. Unit {0}) (OnSome IsHeld) (split_queue Item n c.send_queue) _
          (OnOk-trivial (split_queue Item n c.send_queue)) (λ r k. (p.0, tt)),
    )
    request-Held throws _ = (tt, tt, tt)

    -- The sender cannot end while remain_can_send is short of its first count.
    end_sender-Held :
        IsSteady Item weigh l total c → (sd : Sender Item) → OnSome IsHeld (end_sender Item l sd c)
    unfolding end_sender
    end_sender-Held s draining =
        OnSome-if IsHeld (ltb c.remain l.once_total_send) _ _ (λ z. tt)
          (λ z. absurd (ground (arith, z, p.0, s.permits)))
    end_sender-Held s _ = tt

    act-Held :
        IsSteady Item weigh l total c → (a : Action Item) → OnOk (OnSome IsHeld) (act Item l a c)
    unfolding act evaluate_cb failure_cb
    act-Held s (call_wait i) =
        on_pick-OnSome IsHeld i c.callers _
          λ t rest h. (caller-Held t.phase t.items t.is_failure rest).0
    act-Held s (call_push i) =
        on_pick-OnSome IsHeld i c.callers _
          λ t rest h. (caller-Held t.phase t.items t.is_failure rest).1
    act-Held s (call_notify i) =
        on_pick-OnSome IsHeld i c.callers _
          λ t rest h. (caller-Held t.phase t.items t.is_failure rest).2
    act-Held s (call_return i) =
        on_pick-OnSome IsHeld i c.callers _
          λ t rest h. (caller-Held t.phase t.items t.is_failure rest).3
    act-Held s (answer i) = on_pick-OnSome IsHeld i c.open_requests _ λ r rest h. p
    act-Held s (fail i) = on_pick-OnSome IsHeld i c.open_requests _ λ r rest h. p
    act-Held s grant = (sender-Held true c.sender).0
    act-Held s (look throws) = (request-Held throws c.sender).0
    act-Held s fetch = (sender-Held true c.sender).1
    act-Held s pop = (request-Held true c.sender).2
    act-Held s release = (sender-Held true c.sender).2
    act-Held s (send throws) = (request-Held throws c.sender).1
    act-Held s stop = p
    act-Held s end_loop = (sender-Held true c.sender).3
    act-Held s leave = end_sender-Held s c.sender

  -- Once a request has thrown, no run sees the sender's thread end, so that Stop's join does not return.
  pub run_all-Held :
      0 < l.proxy_number
      → 0 < l.batch_size
      → (as' : List (Action Item)) (c : Client Item) → IsSteady Item weigh l total c
      → IsHeld c
      → Returns IsHeld (run_all Item l as' c)
  unfolding run_all
  run_all-Held pr bs [] c s p = p
  run_all-Held pr bs (a ∷ rest) c s p =
      next (act Item l a c) (act-IsSteady Item weigh l total c pr bs a s) (act-Held c p s a)
        λ q t k. run_all-Held pr bs rest q t k
    where
      next :
          (m : Result (Option (Client Item)))
          → Returns (OnSome (IsSteady Item weigh l total)) m
          → OnOk (OnSome IsHeld) m
          → ((q : Client Item)
              → IsSteady Item weigh l total q
              → IsHeld q
              → Returns IsHeld (run_all Item l rest q))
          → Returns IsHeld (m >>= λ o. run_all Item l rest (or_same Item c o))
      next (ok none) t k f = f c s p
      next (ok (some q)) t k f = f q t k
      next (err e) t k f = absurd t
