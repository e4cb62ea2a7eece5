-- ===== src/Evaluator/Sync.antt =====
-- SyncRequest of src/PolicyValueEvaluatorClient.cpp: the sender waits for the replies to its batch.
mod Tests
use estar_go.Base.{
  ℕ, zero, suc, ◌+◌, ◌-◌, ◌%◌, inl, inr, Bool, [], ◌++◌, Option, none, some, Result, ok, err,
  bad_index, exited, bad_division, Bool-cases, if◌then◌else◌, ltb, ◌==◌, length, take, drop,
}
use estar_go.Evaluator.{Pipe, evaluate_cb}

module _ (Item : Type 0) where
  -- prxs_[target]->evaluate, which throws or gives a number of replies; an exception ends the program. Each reply
  -- goes to the callback with its number, and pending_ falls by one; a request without a reply is lost.
  pub sync_request : ℕ → Option ℕ → Pipe Item → Result (Option (Pipe Item))
  sync_request proxy_number replies p =
      let answer : Result (Option (Pipe Item)) = elim replies [
        | none ↦ err exited
        | some n ↦
            if ltb (length p.batch) n
            then err bad_index
            else ok (
                some (record p {
                  batch = [];
                  lost = p.lost ++ drop n p.batch;
                  answered = p.answered ++ take n p.batch;
                  pending = p.pending - n;
                }))
      ] in
      if p.fetch + p.popped == 0
      then (if proxy_number == 0 then err bad_division else answer)
      else ok none

  abbrev pub answered_at : ℕ → Option (Pipe Item) → Option (Pipe Item)
  answered_at i none = none
  answered_at i (some q) = evaluate_cb Item i q
