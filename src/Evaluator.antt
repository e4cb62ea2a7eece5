-- ===== src/Evaluator.antt =====
-- src/PolicyValueEvaluatorClient.cpp with its header, and the Semaphore of include/Utils.h: the requests on
-- their way from Eval through the send queue to the server and back. The threads' steps are the parts of
-- the code between two waits, under the lock where the code takes it; any order of them is a run.
-- The server, Ice and the proxies are not modelled: an answer or a failure comes as an action.
pub mod Balance
pub mod Requests
pub mod Async
pub mod Sync
mod Tests
use estar_go.Base.{
  pick, ℕ, zero, suc, ◌+◌, ◌-◌, ◌≡◌, Bool, true, false, List, [], ◌∷◌, ◌++◌, Option, none, some,
  Result, ok, err, bad_index, ◌>>=◌, if◌then◌else◌, leb, ltb, ◌==◌, length,
}

-- Semaphore::notify
abbrev pub notify : ℕ → ℕ → ℕ
notify add count = count + add

-- Semaphore::wait: what it returns and leaves, or none while it blocks.
pub wait : ℕ → ℕ → Option (ℕ × ℕ)
wait max count =
    if count == 0 then none else if ltb count max then some (count, 0) else some (max, count - max)

module _ (Item : Type 0) where
  -- callers: calls of Eval before full_->wait(); reserved: behind it; pushed: pushes without their
  -- empty_->notify(); fetch: what the sender still pops of what empty_->wait gave it; popped: what it
  -- has popped before full_->notify(fetch); batch: its caches; in_flight: the batches sent;
  -- lost: those whose sending threw.
  pub record Pipe : Type 0 where
    pub full : ℕ
    pub empty : ℕ
    pub callers : List Item
    pub reserved : List Item
    pub send_queue : List Item
    pub pushed : ℕ
    pub fetch : ℕ
    pub popped : ℕ
    pub batch : List Item
    pub in_flight : List (List Item)
    pub lost : List Item
    pub answered : List Item
    pub pending : ℕ

  -- The constructor, with the calls to come.
  pub new_pipe : ℕ → List Item → Pipe
  new_pipe queue_size callers = record {
    full = queue_size;
    empty = 0;
    callers = callers;
    reserved = [];
    send_queue = [];
    pushed = 0;
    fetch = 0;
    popped = 0;
    batch = [];
    in_flight = [];
    lost = [];
    answered = [];
    pending = 0;
  }

  pub data Action : Type 0 where
    eval_wait eval_push answer fail : ℕ → Action
    eval_notify take_fetch pop_front notify_full send send_throws : Action

  -- full_->wait() in Eval and EvalByHistory, by the i-th caller.
  pub reserve : ℕ → Pipe → Option Pipe
  unfolding wait pick
  reserve i p = elim (pick i p.callers) [
    | none ↦ none
    | some c ↦ elim (wait 1 p.full) [
      | none ↦ none
      | some w ↦ some (record p { full = w.1; callers = c.1; reserved = p.reserved ++ c.0 ∷ [] })
    ]
  ]

  -- pending_++ and send_queue_.push
  pub push_item : ℕ → Pipe → Option Pipe
  unfolding pick
  push_item i p = elim (pick i p.reserved) [
    | none ↦ none
    | some c ↦ some (record p {
      reserved = c.1;
      send_queue = p.send_queue ++ c.0 ∷ [];
      pending = p.pending + 1;
      pushed = p.pushed + 1;
    })
  ]

  -- empty_->notify()
  pub announce : Pipe → Option Pipe
  announce p =
      if p.pushed == 0
      then none
      else some (record p { pushed = p.pushed - 1; empty = notify 1 p.empty })

  -- The sender has nothing in its hands.
  abbrev is_idle : Pipe → Bool
  is_idle p = p.fetch + p.popped + length p.batch == 0

  -- empty_->wait(request_batch_size_)
  pub take : ℕ → Pipe → Option Pipe
  unfolding wait
  take batch_size p = elim (wait batch_size p.empty) [
    | none ↦ none
    | some w ↦ if is_idle p then some (record p { fetch = w.0; empty = w.1 }) else none
  ]

  -- front and pop of the queue; on an empty one they are undefined.
  pub pop_item : Pipe → Result (Option Pipe)
  pop_item p = if p.fetch == 0 then ok none else elim p.send_queue [
    | [] ↦ err bad_index
    | x ∷ rest ↦ ok (
        some (record p {
          send_queue = rest;
          fetch = p.fetch - 1;
          popped = p.popped + 1;
          batch = p.batch ++ x ∷ [];
        }))
  ]

  -- full_->notify(fetch)
  pub release : Pipe → Option Pipe
  release p =
      if p.fetch == 0 then some (record p { full = notify p.popped p.full; popped = 0 }) else none

  -- AsynRequest: the batch is sent, or begin_evaluate throws, which the code only prints.
  pub request : Bool → Pipe → Option Pipe
  request throws p =
      if p.fetch + p.popped == 0
      then some (
          if throws
          then record p { lost = p.lost ++ p.batch; batch = [] }
          else record p { in_flight = p.in_flight ++ p.batch ∷ []; batch = [] })
      else none

  -- evaluate_cb: every callback of the batch is called, and pending falls by one for each.
  pub evaluate_cb : ℕ → Pipe → Option Pipe
  unfolding pick
  evaluate_cb i p = elim (pick i p.in_flight) [
    | none ↦ none
    | some b ↦ some (record p {
      in_flight = b.1;
      pending = p.pending - length b.0;
      answered = p.answered ++ b.0;
    })
  ]

  -- failure_cb: pending falls, and every request calls EvalByHistory.
  pub failure_cb : ℕ → Pipe → Option Pipe
  unfolding pick
  failure_cb i p = elim (pick i p.in_flight) [
    | none ↦ none
    | some b ↦
        some (record p {
          in_flight = b.1;
          pending = p.pending - length b.0;
          callers = p.callers ++ b.0;
        })
  ]

  -- One action; none where it cannot happen, or its thread blocks.
  pub act : ℕ → Action → Pipe → Result (Option Pipe)
  unfolding reserve push_item announce take pop_item release request evaluate_cb failure_cb
  act batch_size (eval_wait i) p = ok (reserve i p)
  act batch_size (eval_push i) p = ok (push_item i p)
  act batch_size eval_notify p = ok (announce p)
  act batch_size take_fetch p = ok (take batch_size p)
  act batch_size pop_front p = pop_item p
  act batch_size notify_full p = ok (release p)
  act batch_size send p = ok (request false p)
  act batch_size send_throws p = ok (request true p)
  act batch_size (answer i) p = ok (evaluate_cb i p)
  act batch_size (fail i) p = ok (failure_cb i p)

  -- A run; an action that cannot happen is passed over.
  pub run_all : ℕ → List Action → Pipe → Result Pipe
  unfolding act
  run_all batch_size [] p = ok p
  run_all batch_size (a ∷ rest) p = act batch_size a p >>= λ o. elim o [
    | none ↦ run_all batch_size rest p
    | some q ↦ run_all batch_size rest q
  ]
