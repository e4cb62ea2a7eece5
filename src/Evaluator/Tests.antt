-- ===== src/Evaluator/Tests.antt =====
-- A pipe with two slots, two callers and a batch that fails once. An item is its request's number.
use estar_go.Base.{ℕ, ◌≡◌, refl, List, [], ◌∷◌, Returns, OnOk, ok, if◌then◌else◌, ◌==◌}
use estar_go.Evaluator.{
  Action, new_pipe, run_all, eval_wait, eval_push, eval_notify, take_fetch, pop_front, notify_full,
  send, fail,
}
use estar_go.Evaluator.Balance.{Runs, run_all-IsBalanced, new_pipe-IsBalanced}
use estar_go.Evaluator.Requests.{held, run_all-held}

abbrev round : List (Action ℕ)
round =
    eval_wait 0
    ∷ eval_push 0
    ∷ eval_notify
    ∷ take_fetch
    ∷ pop_front
    ∷ notify_full
    ∷ send
    ∷ fail 0
    ∷ eval_wait 1
    ∷ eval_push 0
    ∷ []

-- The failed request is back in the queue, behind no other.
round_runs :
    run_all ℕ 4 round (new_pipe ℕ 2 (7 ∷ 8 ∷ []))
    ≡ ok (record {
      full = 1;
      empty = 0;
      callers = 8 ∷ [];
      reserved = [];
      send_queue = 7 ∷ [];
      pushed = 1;
      fetch = 0;
      popped = 0;
      batch = [];
      in_flight = [];
      lost = [];
      answered = [];
      pending = 1;
    })
unfolding run_all new_pipe
round_runs = refl

run_all-IsBalanced_example : Returns (Runs ℕ 2) (run_all ℕ 4 round (new_pipe ℕ 2 (7 ∷ 8 ∷ [])))
run_all-IsBalanced_example =
    run_all-IsBalanced ℕ 2 4 round (new_pipe ℕ 2 (7 ∷ 8 ∷ []))
      (new_pipe-IsBalanced ℕ 2 (7 ∷ 8 ∷ []))

run_all-held_example :
    OnOk
      (λ q.
        held ℕ (λ i. if i == 7 then 1 else 0) q
        ≡ held ℕ (λ i. if i == 7 then 1 else 0) (new_pipe ℕ 2 (7 ∷ 8 ∷ [])))
      (run_all ℕ 4 round (new_pipe ℕ 2 (7 ∷ 8 ∷ [])))
run_all-held_example =
    run_all-held ℕ (λ i. if i == 7 then 1 else 0) 4 round (new_pipe ℕ 2 (7 ∷ 8 ∷ []))
