-- ===== src/Evaluator/Async.antt =====
-- src/PolicyValueEvaluatorClient.cpp with its header, with `use_asyn_request`: the sender of ProcessEval
-- that holds at most asyn_once_send batches open, its dummy requests, the callbacks' threads that send a
-- failed batch again, and Stop. One sender is modelled; its steps and the callers' are the parts of the
-- code between two waits. The queue is popped in one step, under the lock that every push takes.
mod Steady
mod Progress
mod Faults
mod Tests
use estar_go.Base.{
  on_pick, pick, ℕ, zero, suc, ◌+◌, ◌-◌, ◌%◌, ◌≡◌, Bool, true, false, not, List, [], ◌∷◌, ◌++◌,
  Option, none, some, Result, ok, err, bad_index, bad_division, ◌>>=◌, if◌then◌else◌, ltb, ◌==◌,
  length,
}
use estar_go.Evaluator.{wait, notify}

-- Where a thread is in its call of Eval or EvalByHistory: before full_->wait(), behind it, or behind
-- the push and before empty_->notify().
pub data Phase : Type 0 where
  waiting reserved pushed : Phase

-- Config's queue_size, asyn_once_send, batch_size and proxy_number.
pub record Limits : Type 0 where
  pub queue_size : ℕ
  pub once_total_send : ℕ
  pub batch_size : ℕ
  pub proxy_number : ℕ

module _ (Item : Type 0) where
  -- A thread that calls Eval, or EvalByHistory for each request of a batch that failed. It has yet to
  -- push the items. One of a failed batch ends in remain_can_send->notify().
  pub record Caller : Type 0 where
    pub phase : Phase
    pub items : List Item
    pub is_failure : Bool

  -- ProcessEval: at the loop's head; behind remain_can_send->wait(); before empty_->wait; with the number
  -- that it gave; with the batch before full_->notify; before AsynRequest; behind the loop; returned.
  pub data Sender : Type 0 where
    looping granted fetching : Sender
    fetched : ℕ → Sender
    popped sending : List Item → Sender
    draining left : Sender

  -- A batch sent, or a dummy request, which has no callbacks.
  pub record Request : Type 0 where
    pub items : List Item
    pub is_dummy : Bool
    pub target : ℕ

  -- lost: the requests whose begin_evaluate threw.
  pub record Client : Type 0 where
    pub full : ℕ
    pub empty : ℕ
    pub remain : ℕ
    pub callers : List Caller
    pub send_queue : List Item
    pub sender : Sender
    pub open_requests : List Request
    pub lost : List Request
    pub answered : List Item
    pub pending : ℕ
    pub resend_times : ℕ
    pub proxy_count : ℕ
    pub eval_terminate : Bool

  -- A call of Eval.
  abbrev pub eval_call : Item → Caller
  eval_call x = record { phase = waiting; items = x ∷ []; is_failure = false }

  abbrev pub eval_calls : List Item → List Caller
  eval_calls [] = []
  eval_calls (x ∷ xs) = eval_call x ∷ eval_calls xs

  -- The constructor and Start, with the calls to come.
  pub new_client : Limits → List Item → Client
  new_client l calls = record {
    full = l.queue_size;
    empty = 0;
    remain = l.once_total_send;
    callers = eval_calls calls;
    send_queue = [];
    sender = looping;
    open_requests = [];
    lost = [];
    answered = [];
    pending = 0;
    resend_times = 0;
    proxy_count = 0;
    eval_terminate = false;
  }

  -- grant: remain_can_send->wait(); look: the test of empty_->get(), whose dummy request may throw.
  pub data Action : Type 0 where
    call_wait call_push call_notify call_return answer fail : ℕ → Action
    look send : Bool → Action
    grant fetch pop release stop end_loop leave : Action

  -- full_->wait(), by the chosen thread; the others are `rest`.
  pub reserve : Phase → List Item → Bool → List Caller → Client → Option Client
  unfolding wait
  reserve waiting (x ∷ xs) f rest c = elim (wait 1 c.full) [
    | none ↦ none
    | some w ↦ some (record c {
      full = w.1;
      callers = record { phase = reserved; items = x ∷ xs; is_failure = f } ∷ rest;
    })
  ]
  reserve _ xs f rest c = none

  -- pending_++ and send_queue_.push
  pub push_item : Phase → List Item → Bool → List Caller → Client → Option Client
  push_item reserved (x ∷ xs) f rest c = some (record c {
    callers = record { phase = pushed; items = xs; is_failure = f } ∷ rest;
    send_queue = c.send_queue ++ x ∷ [];
    pending = c.pending + 1;
  })
  push_item _ xs f rest c = none

  -- empty_->notify()
  pub announce : Phase → List Item → Bool → List Caller → Client → Option Client
  announce pushed xs f rest c = some (record c {
    callers = record { phase = waiting; items = xs; is_failure = f } ∷ rest;
    empty = notify 1 c.empty;
  })
  announce _ xs f rest c = none

  -- Eval returns, or failed_callback, whereupon failure_cb notifies remain_can_send.
  pub return_call : Phase → List Item → Bool → List Caller → Client → Option Client
  return_call waiting [] f rest c =
      some (record c { callers = rest; remain = if f then notify 1 c.remain else c.remain })
  return_call _ xs f rest c = none

  -- remain_can_send->wait()
  pub grant_send : Sender → Client → Option Client
  unfolding wait
  grant_send looping c = if c.eval_terminate then none else elim (wait 1 c.remain) [
    | none ↦ none
    | some w ↦ some (record c { remain = w.1; sender = granted })
  ]
  grant_send _ c = none

  -- begin_evaluate at the next proxy, which takes the request or throws.
  pub begin_evaluate : Limits → Bool → List Item → Bool → Client → Result (Option Client)
  begin_evaluate l throws items is_dummy c =
      if l.proxy_number == 0
      then err bad_division
      else let r : Request = record {
        items = items;
        is_dummy = is_dummy;
        target = c.proxy_count % l.proxy_number;
      } in
        ok (
          some (
            if throws
            then record c { sender = looping; lost = r ∷ c.lost; proxy_count = c.proxy_count + 1 }
            else record c {
              sender = looping;
              open_requests = r ∷ c.open_requests;
              proxy_count = c.proxy_count + 1;
            }))

  -- empty_->get() and AsyncRequestDummyData
  pub look_queue : Limits → Bool → Sender → Client → Result (Option Client)
  unfolding begin_evaluate
  look_queue l throws granted c =
      if c.empty == 0
      then begin_evaluate l throws [] true c
      else ok (some (record c { sender = fetching }))
  look_queue l throws _ c = ok none

  -- empty_->wait(request_batch_size_)
  pub take : Limits → Sender → Client → Option Client
  unfolding wait
  take l fetching c = elim (wait l.batch_size c.empty) [
    | none ↦ none
    | some w ↦ some (record c { empty = w.1; sender = fetched w.0 })
  ]
  take l _ c = none

  -- `n` times front and pop of the queue; on an empty one they are undefined.
  pub split_queue : ℕ → List Item → Result (List Item × List Item)
  split_queue zero q = ok ([], q)
  split_queue (suc n) [] = err bad_index
  split_queue (suc n) (x ∷ q) = split_queue n q >>= λ r. ok (x ∷ r.0, r.1)

  pub pop_items : Sender → Client → Result (Option Client)
  unfolding split_queue
  pop_items (fetched n) c = split_queue n c.send_queue >>= λ r.
      ok (some (record c { send_queue = r.1; sender = popped r.0 }))
  pop_items _ c = ok none

  -- full_->notify(fetch)
  pub free_slots : Sender → Client → Option Client
  free_slots (popped b) c = some (record c { full = notify (length b) c.full; sender = sending b })
  free_slots _ c = none

  -- AsynRequest
  pub asyn_request : Limits → Bool → Sender → Client → Result (Option Client)
  unfolding begin_evaluate
  asyn_request l throws (sending b) c = begin_evaluate l throws b false c
  asyn_request l throws _ c = ok none

  -- evaluate_cb: every callback is called, pending falls by one for each, and the batch is no longer open.
  pub evaluate_cb : Request → List Request → Client → Client
  evaluate_cb r rest c = record c {
    open_requests = rest;
    answered = r.items ++ c.answered;
    pending = c.pending - length r.items;
    remain = notify 1 c.remain;
  }

  -- failure_cb up to the failed callback, which counts a batch and goes on as a caller of its requests.
  pub failure_cb : Request → List Request → Client → Client
  failure_cb r rest c = record c {
    open_requests = rest;
    pending = c.pending - length r.items;
    resend_times = if r.is_dummy then c.resend_times else c.resend_times + 1;
    callers = record { phase = waiting; items = r.items; is_failure = true } ∷ c.callers;
  }

  -- The test of eval_terminate at the loop's head, when Stop has set it.
  pub end_sending : Sender → Client → Option Client
  end_sending looping c = if c.eval_terminate then some (record c { sender = draining }) else none
  end_sending _ c = none

  -- ProcessEval returns as soon as remain_can_send has its first count.
  pub end_sender : Limits → Sender → Client → Option Client
  end_sender l draining c =
      if ltb c.remain l.once_total_send then none else some (record c { sender = left })
  end_sender l _ c = none

  -- One action; none where it cannot happen, or its thread blocks.
  pub act : Limits → Action → Client → Result (Option Client)
  unfolding reserve push_item announce return_call grant_send look_queue take pop_items free_slots
      asyn_request evaluate_cb failure_cb end_sending end_sender pick
  act l (call_wait i) c =
      ok (on_pick (λ t rest. reserve t.phase t.items t.is_failure rest c) (pick i c.callers))
  act l (call_push i) c =
      ok (on_pick (λ t rest. push_item t.phase t.items t.is_failure rest c) (pick i c.callers))
  act l (call_notify i) c =
      ok (on_pick (λ t rest. announce t.phase t.items t.is_failure rest c) (pick i c.callers))
  act l (call_return i) c =
      ok (on_pick (λ t rest. return_call t.phase t.items t.is_failure rest c) (pick i c.callers))
  act l (answer i) c = ok (on_pick (λ r rest. some (evaluate_cb r rest c)) (pick i c.open_requests))
  act l (fail i) c = ok (on_pick (λ r rest. some (failure_cb r rest c)) (pick i c.open_requests))
  act l grant c = ok (grant_send c.sender c)
  act l (look throws) c = look_queue l throws c.sender c
  act l fetch c = ok (take l c.sender c)
  act l pop c = pop_items c.sender c
  act l release c = ok (free_slots c.sender c)
  act l (send throws) c = asyn_request l throws c.sender c
  act l stop c = ok (some (record c { eval_terminate = true }))
  act l end_loop c = ok (end_sending c.sender c)
  act l leave c = ok (end_sender l c.sender c)

  -- The state behind an action; one that cannot happen is passed over.
  abbrev pub or_same : Client → Option Client → Client
  or_same c none = c
  or_same c (some q) = q

  -- A run.
  pub run_all : Limits → List Action → Client → Result Client
  unfolding act
  run_all l [] c = ok c
  run_all l (a ∷ rest) c = act l a c >>= λ o. run_all l rest (or_same c o)
