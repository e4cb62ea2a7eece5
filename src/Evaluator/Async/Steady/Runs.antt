-- ===== src/Evaluator/Async/Steady/Runs.antt =====
-- The runs of src/PolicyValueEvaluatorClient.cpp with `use_asyn_request`.
use estar_go.Base.{
  OnSome, on_pick-OnSome, ℕ, ◌≤◌, ◌<◌, List, [], ◌∷◌, Option, none, some, Returns, Returns-bind,
  length, arith,
}
use estar_go.Evaluator.Async.{
  Client, Limits, Action, act, run_all, or_same, call_wait, call_push, call_notify, call_return,
  answer, fail, grant, look, fetch, pop, release, send, stop, end_loop, leave,
}
use estar_go.Evaluator.Async.Steady.{IsSteady}
use estar_go.Evaluator.Async.Steady.Callers.{
  reserve-IsSteady, push_item-IsSteady, announce-IsSteady, return_call-IsSteady,
  evaluate_cb-IsSteady, failure_cb-IsSteady,
}
use estar_go.Evaluator.Async.Steady.Sending.{
  grant_send-IsSteady, look_queue-IsSteady, take-IsSteady, pop_items-IsSteady, free_slots-IsSteady,
  asyn_request-IsSteady, end_sending-IsSteady, end_sender-IsSteady,
}

module _ (Item : Type 0) (weigh : Item → ℕ) (l : Limits) (total : ℕ) where
  abbrev Steady : Client Item → Type 0
  Steady = IsSteady Item weigh l total

  pub act-IsSteady :
      (c : Client Item)
      → 0 < l.proxy_number
      → 0 < l.batch_size
      → (a : Action Item) → Steady c
      → Returns (OnSome Steady) (act Item l a c)
  unfolding act
  act-IsSteady c pr bs (call_wait i) s =
      on_pick-OnSome Steady i c.callers _
        λ t rest h. reserve-IsSteady Item weigh l total c s t.phase t.items t.is_failure rest h
  act-IsSteady c pr bs (call_push i) s =
      on_pick-OnSome Steady i c.callers _
        λ t rest h. push_item-IsSteady Item weigh l total c s t.phase t.items t.is_failure rest h
  act-IsSteady c pr bs (call_notify i) s =
      on_pick-OnSome Steady i c.callers _
        λ t rest h. announce-IsSteady Item weigh l total c s t.phase t.items t.is_failure rest h
  act-IsSteady c pr bs (call_return i) s =
      on_pick-OnSome Steady i c.callers _
        λ t rest h. return_call-IsSteady Item weigh l total c s t.phase t.items t.is_failure rest h
  act-IsSteady c pr bs (answer i) s =
      on_pick-OnSome Steady i c.open_requests _ (evaluate_cb-IsSteady Item weigh l total c s)
  act-IsSteady c pr bs (fail i) s =
      on_pick-OnSome Steady i c.open_requests _ (failure_cb-IsSteady Item weigh l total c s)
  act-IsSteady c pr bs grant s = grant_send-IsSteady Item weigh l total c c.sender s
  act-IsSteady c pr bs (look throws) s =
      look_queue-IsSteady Item weigh l total c throws c.sender pr s
  act-IsSteady c pr bs fetch s = take-IsSteady Item weigh l total c c.sender bs s
  act-IsSteady c pr bs pop s = pop_items-IsSteady Item weigh l total c c.sender s
  act-IsSteady c pr bs release s = free_slots-IsSteady Item weigh l total c c.sender s
  act-IsSteady c pr bs (send throws) s =
      asyn_request-IsSteady Item weigh l total c throws c.sender pr s
  act-IsSteady c pr bs stop s = record {
    slots = s.slots;
    announced = s.announced;
    permits = s.permits;
    unanswered = s.unanswered;
    loaded = s.loaded;
    formed = s.formed;
    kept = s.kept;
  }
  act-IsSteady c pr bs end_loop s = end_sending-IsSteady Item weigh l total c c.sender s
  act-IsSteady c pr bs leave s = end_sender-IsSteady Item weigh l total c c.sender s

  -- What a run leaves.
  abbrev pub IsSent : Client Item → Type 0
  IsSent q = Steady q × (length q.open_requests ≤ l.once_total_send)

  -- Every run of the asynchronous client returns.
  pub run_all-IsSteady :
      0 < l.proxy_number
      → 0 < l.batch_size
      → (as' : List (Action Item)) (c : Client Item) → Steady c
      → Returns IsSent (run_all Item l as' c)
  unfolding run_all
  run_all-IsSteady pr bs [] c s = (s, omega (arith, s.permits))
  run_all-IsSteady pr bs (a ∷ rest) c s =
      Returns-bind (OnSome Steady) IsSent (act Item l a c) _ (act-IsSteady c pr bs a s)
        λ o h. run_all-IsSteady pr bs rest (or_same Item c o) (same o h)
    where
      same : (o : Option (Client Item)) → OnSome Steady o → Steady (or_same Item c o)
      same none h = s
      same (some q) h = h
