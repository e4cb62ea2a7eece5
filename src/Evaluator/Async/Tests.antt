-- ===== src/Evaluator/Async/Tests.antt =====
-- An asynchronous client with one slot, one open request and three calls of Eval.
use estar_go.Base.{
  OnSome, ℕ, ◌≡◌, refl, Bool, true, false, List, [], ◌∷◌, ◌++◌, Returns, OnOk, ok, arith,
}
use estar_go.Evaluator.Async.{
  Client, Limits, Action, waiting, looping, new_client, act, run_all, eval_call, call_wait,
  call_push, call_notify, call_return, grant, look, fetch, pop, release, send, fail, stop, end_loop,
  leave,
}
use estar_go.Evaluator.Async.Steady.{IsSteady, new_client-IsSteady}
use estar_go.Evaluator.Async.Steady.Runs.{IsSent, run_all-IsSteady}
use estar_go.Evaluator.Async.Progress.{Lower, act-Lower}
use estar_go.Evaluator.Async.Faults.{IsJammed, IsSame, run_all-Jammed}
use estar_go.Evaluator.Async.Faults.Stopping.{IsHeld, run_all-Held}

abbrev one_each : Limits
one_each = record { queue_size = 1; once_total_send = 1; batch_size = 1; proxy_number = 1 }

abbrev weigh : ℕ → ℕ
weigh x = x

abbrev start : Client ℕ
start = new_client ℕ one_each (7 ∷ 8 ∷ 9 ∷ [])

abbrev one_call : List (Action ℕ)
one_call = call_wait 0 ∷ call_push 0 ∷ call_notify 0 ∷ call_return 0 ∷ []

abbrev one_batch : Bool → List (Action ℕ)
one_batch throws = grant ∷ look false ∷ fetch ∷ pop ∷ release ∷ send throws ∷ []

-- The first batch fails while the second call has filled the queue.
abbrev jamming : List (Action ℕ)
jamming = one_call ++ one_batch false ++ one_call ++ fail 0 ∷ []

abbrev jammed : Client ℕ
jammed = record {
  full = 0;
  empty = 1;
  remain = 0;
  callers = record { phase = waiting; items = 7 ∷ []; is_failure = true } ∷ eval_call ℕ 9 ∷ [];
  send_queue = 8 ∷ [];
  sender = looping;
  open_requests = [];
  lost = [];
  answered = [];
  pending = 1;
  resend_times = 1;
  proxy_count = 1;
  eval_terminate = false;
}

jamming_runs : run_all ℕ one_each jamming start ≡ ok jammed
unfolding run_all new_client
jamming_runs = refl

jammed-IsJammed : IsJammed ℕ weigh one_each jammed
jammed-IsJammed = record {
  no_slot = refl;
  no_permit = refl;
  none_open = refl;
  all_wait = refl;
  sender_waits = tt;
}

run_all-Jammed_example :
    Returns
      (IsSame ℕ weigh one_each jammed)
      (run_all ℕ one_each (stop ∷ end_loop ∷ leave ∷ []) jammed)
run_all-Jammed_example =
    run_all-Jammed ℕ weigh one_each (omega arith) (stop ∷ end_loop ∷ leave ∷ []) jammed
      jammed-IsJammed

-- The first request's begin_evaluate threw.
abbrev thrown : Client ℕ
thrown = record {
  full = 1;
  empty = 0;
  remain = 0;
  callers = eval_call ℕ 8 ∷ eval_call ℕ 9 ∷ [];
  send_queue = [];
  sender = looping;
  open_requests = [];
  lost = record { items = 7 ∷ []; is_dummy = false; target = 0 } ∷ [];
  answered = [];
  pending = 1;
  resend_times = 0;
  proxy_count = 1;
  eval_terminate = false;
}

thrown_runs : run_all ℕ one_each (one_call ++ one_batch true) start ≡ ok thrown
unfolding run_all new_client
thrown_runs = refl

thrown-IsSteady : IsSteady ℕ weigh one_each 24 thrown
thrown-IsSteady = record {
  slots = refl;
  announced = refl;
  permits = refl;
  unanswered = refl;
  loaded = tt;
  formed = refl;
  kept = refl;
}

run_all-Held_example :
    Returns (IsHeld ℕ weigh one_each 24) (run_all ℕ one_each (stop ∷ end_loop ∷ leave ∷ []) thrown)
run_all-Held_example =
    run_all-Held ℕ weigh one_each 24 (omega arith) (omega arith) (stop ∷ end_loop ∷ leave ∷ [])
      thrown thrown-IsSteady (omega arith, tt)

start-IsSteady : IsSteady ℕ weigh one_each 24 start
start-IsSteady = new_client-IsSteady ℕ weigh one_each (7 ∷ 8 ∷ 9 ∷ [])

run_all-IsSteady_example : Returns (IsSent ℕ weigh one_each 24) (run_all ℕ one_each jamming start)
run_all-IsSteady_example =
    run_all-IsSteady ℕ weigh one_each 24 (omega arith) (omega arith) jamming start start-IsSteady

act-Lower_test : OnOk (OnSome (Lower ℕ weigh one_each start)) (act ℕ one_each (call_wait 0) start)
unfolding new_client
act-Lower_test = act-Lower ℕ weigh one_each start tt (call_wait 0) refl
