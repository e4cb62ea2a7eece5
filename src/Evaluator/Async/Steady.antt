-- ===== src/Evaluator/Async/Steady.antt =====
-- The semaphores, the queue and the requests of src/PolicyValueEvaluatorClient.cpp with `use_asyn_request`.
pub mod Callers
pub mod Sending
pub mod Runs
use estar_go.Base.{
  OnSome, on_option, on_pick, pick, sum_by, ℕ, zero, suc, ◌+◌, ◌-◌, ◌*◌, ◌≡◌, ◌≤◌, ◌<◌, refl, Bool,
  true, false, List, [], ◌∷◌, ◌++◌, Option, none, some, if◌then◌else◌, length, length-append, arith,
}
use estar_go.Evaluator.Async.{
  Phase, Caller, Sender, Request, Client, Limits, waiting, reserved, pushed, looping, granted,
  fetching, fetched, popped, sending, draining, left, eval_call, eval_calls, new_client,
}

abbrev pub holds_slot : Phase → ℕ
holds_slot reserved = 1
holds_slot _ = 0

abbrev pub holds_item : Phase → ℕ
holds_item pushed = 1
holds_item _ = 0

abbrev pub one_if : Bool → ℕ
one_if b = if b then 1 else 0

module _ (Item : Type 0) (weigh : Item → ℕ) where
  abbrev pub slot_of : Caller Item → ℕ
  slot_of t = holds_slot t.phase

  abbrev pub item_of : Caller Item → ℕ
  item_of t = holds_item t.phase

  abbrev pub failure_of : Caller Item → ℕ
  failure_of t = one_if t.is_failure

  -- A call behind full_->wait() without a request; there is none.
  abbrev pub stray_in : Phase → List Item → ℕ
  stray_in reserved [] = 1
  stray_in _ xs = 0

  abbrev pub stray : Caller Item → ℕ
  stray t = stray_in t.phase t.items

  abbrev pub weight_of : Caller Item → ℕ
  weight_of t = sum_by weigh t.items

  abbrev pub request_weight : Request Item → ℕ
  request_weight r = sum_by weigh r.items

  abbrev pub request_length : Request Item → ℕ
  request_length r = length r.items

  abbrev pub sender_items : Sender Item → List Item
  sender_items (popped b) = b
  sender_items (sending b) = b
  sender_items _ = []

  abbrev pub sender_slots : Sender Item → ℕ
  sender_slots (popped b) = length b
  sender_slots _ = 0

  abbrev pub sender_fetch : Sender Item → ℕ
  sender_fetch (fetched n) = n
  sender_fetch _ = 0

  -- The sender has its count of remain_can_send.
  abbrev pub sender_permit : Sender Item → ℕ
  sender_permit looping = 0
  sender_permit draining = 0
  sender_permit left = 0
  sender_permit _ = 1

  -- What the sender has fetched is never nothing.
  abbrev pub IsLoaded : Sender Item → Type 0
  IsLoaded (fetched n) = 0 < n
  IsLoaded (popped b) = 0 < length b
  IsLoaded (sending b) = 0 < length b
  IsLoaded _ = Unit

  -- Each slot of the queue is free, reserved, taken or about to be freed; each request of the queue is
  -- announced, about to be, or about to be popped; each count of remain_can_send is there, or with the
  -- sender, an open request, a failed batch that is sent again, or a request that threw; pending_ counts
  -- the requests from the queue on without an answer; none is lost from sight.
  pub record IsSteady (l : Limits) (total : ℕ) (c : Client Item) : Type 0 where
    pub slots :
        c.full + sum_by slot_of c.callers + length c.send_queue + sender_slots c.sender
        ≡ l.queue_size
    pub announced : c.empty + sum_by item_of c.callers + sender_fetch c.sender ≡ length c.send_queue
    pub permits :
        c.remain
          + sender_permit c.sender
          + length c.open_requests
          + sum_by failure_of c.callers
          + length c.lost
        ≡ l.once_total_send
    pub unanswered :
        c.pending
        ≡ length c.send_queue
          + length (sender_items c.sender)
          + sum_by request_length c.open_requests
          + sum_by request_length c.lost
    pub loaded : IsLoaded c.sender
    pub formed : sum_by stray c.callers ≡ 0
    pub kept :
        sum_by weight_of c.callers
          + sum_by weigh c.send_queue
          + sum_by weigh (sender_items c.sender)
          + sum_by request_weight c.open_requests
          + sum_by request_weight c.lost
          + sum_by weigh c.answered
        ≡ total

  calls_kept :
      (f : Caller Item → ℕ)
      → ((x : Item) → f (eval_call Item x) ≡ 0)
      → (calls : List Item) → sum_by f (eval_calls Item calls) ≡ 0
  calls_kept f h [] = refl
  calls_kept f h (x ∷ calls) = omega (arith, h x, calls_kept f h calls)

  calls_weight : (calls : List Item) → sum_by weight_of (eval_calls Item calls) ≡ sum_by weigh calls
  calls_weight [] = refl
  calls_weight (x ∷ calls) = omega (arith, calls_weight calls)

  -- The client begins steady.
  pub new_client-IsSteady :
      (l : Limits) (calls : List Item) → IsSteady l (sum_by weigh calls) (new_client Item l calls)
  unfolding new_client
  new_client-IsSteady l calls = record {
    slots = omega (arith, calls_kept slot_of (λ x. refl) calls);
    announced = omega (arith, calls_kept item_of (λ x. refl) calls);
    permits = omega (arith, calls_kept failure_of (λ x. refl) calls);
    unanswered = refl;
    loaded = tt;
    formed = calls_kept stray (λ x. refl) calls;
    kept = omega (arith, calls_weight calls);
  }
