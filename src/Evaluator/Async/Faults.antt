-- ===== src/Evaluator/Async/Faults.antt =====
-- What stops the asynchronous client of src/PolicyValueEvaluatorClient.cpp: a full queue while every batch that
-- may be open is sent again, and a request whose begin_evaluate threw.
pub mod Stopping
use estar_go.Base.{
  IsSplit, IsSplit-length, OnSome, OnSome-if, on_option, on_pick, on_pick-OnSome, pick, sum_by,
  sum_by-append, ℕ, zero, suc, ◌+◌, ◌-◌, ◌*◌, ◌%◌, ◌≡◌, ◌≤◌, ◌<◌, refl, ap, ◌∙◌, inl, inr, Bool,
  true, false, List, [], ◌∷◌, ◌++◌, not, Option, none, some, ok, OnOk, OnOk-bind, OnOk-if, OnOk-map,
  OnOk-trivial, Returns-map, err, bad_division, Returns, Returns-bind, Bool-cases, if◌then◌else◌,
  ◌==◌, ltb, length, length-append, arith,
}
use estar_go.Evaluator.{wait}
use estar_go.Evaluator.Balance.{wait-Takes, wait-Takes_one, wait-Takes_some}
use estar_go.Evaluator.Async.{
  Phase, Caller, Sender, Request, Client, Limits, Action, waiting, reserved, pushed, looping,
  granted, fetching, fetched, popped, sending, draining, left, reserve, push_item, announce,
  return_call, grant_send, begin_evaluate, look_queue, take, split_queue, pop_items, free_slots,
  asyn_request, evaluate_cb, failure_cb, end_sending, end_sender, act, run_all, or_same, call_wait,
  call_push, call_notify, call_return, answer, fail, grant, look, fetch, pop, release, send, stop,
  end_loop, leave,
}
use estar_go.Evaluator.Async.Steady.{
  IsSteady, slot_of, item_of, failure_of, stray, weight_of, request_weight, request_length,
  sender_permit, sender_slots, sender_fetch, sender_items, IsLoaded,
}

module _ (Item : Type 0) (weigh : Item → ℕ) (l : Limits) where
  abbrev moving_in : Phase → List Item → ℕ
  moving_in waiting (x ∷ xs) = 0
  moving_in _ xs = 1

  -- 0 for a thread that waits for full_ with a request.
  abbrev pub moving : Caller Item → ℕ
  moving t = moving_in t.phase t.items

  abbrev pub IsWaitingSender : Sender Item → Type 0
  IsWaitingSender looping = Unit
  IsWaitingSender draining = Unit
  IsWaitingSender _ = ⊥

  -- The queue is full, every count of remain_can_send is with a failed batch, and every thread waits.
  pub record IsJammed (c : Client Item) : Type 0 where
    pub no_slot : c.full ≡ 0
    pub no_permit : c.remain ≡ 0
    pub none_open : c.open_requests ≡ []
    pub all_wait : sum_by moving c.callers ≡ 0
    pub sender_waits : IsWaitingSender c.sender

  -- Nothing has moved.
  abbrev pub IsSame : Client Item → Client Item → Type 0
  IsSame c q =
      IsJammed q
      × (q.callers ≡ c.callers)
      × (q.send_queue ≡ c.send_queue)
      × (q.answered ≡ c.answered)

  module _ (c : Client Item) (j : IsJammed c) where
    -- A thread of a jammed client makes no step.
    call-Jammed :
        (i : ℕ) (f : Phase → List Item → Bool → List (Caller Item) → Option (Client Item))
        → ((x : Item) (xs : List Item) (b : Bool) (rest : List (Caller Item))
            → OnSome (IsSame c) (f waiting (x ∷ xs) b rest))
        → OnSome
            (IsSame c)
            (on_pick (λ t rest. f t.phase t.items t.is_failure rest) (pick i c.callers))
    call-Jammed i f h =
        on_pick-OnSome (IsSame c) i c.callers _ λ t rest s.
          blocked t.phase t.items t.is_failure rest (omega (arith, s moving, j.all_wait))
      where
        blocked :
            (ph : Phase) (xs : List Item) (b : Bool) (rest : List (Caller Item))
            → moving_in ph xs ≡ 0
            → OnSome (IsSame c) (f ph xs b rest)
        blocked waiting (x ∷ xs) b rest k = h x xs b rest
        blocked waiting [] b rest k = absurd (omega (arith, k))
        blocked reserved xs b rest k = absurd (omega (arith, k))
        blocked pushed xs b rest k = absurd (omega (arith, k))

    reserve-Jammed :
        (x : Item) (xs : List Item) (b : Bool) (rest : List (Caller Item))
        → OnSome (IsSame c) (reserve Item waiting (x ∷ xs) b rest c)
    unfolding reserve
    reserve-Jammed x xs b rest =
        on_option (λ w. suc w.1 ≡ c.full) (IsSame c) (wait 1 c.full) _ (wait-Takes_one c.full)
          λ w e. absurd (omega (arith, e, j.no_slot))

    grant_send-Jammed : (sd : Sender Item) → OnSome (IsSame c) (grant_send Item sd c)
    unfolding grant_send
    grant_send-Jammed looping =
        OnSome-if (IsSame c) c.eval_terminate _ _ (λ z. tt)
          λ z.
            on_option (λ w. suc w.1 ≡ c.remain) (IsSame c) (wait 1 c.remain) _
              (wait-Takes_one c.remain) λ w e. absurd (omega (arith, e, j.no_permit))
    grant_send-Jammed _ = tt

    no_answer :
        (i : ℕ) (f : Request Item → List (Request Item) → Option (Client Item))
        → OnSome (IsSame c) (on_pick f (pick i c.open_requests))
    unfolding pick
    no_answer i f = rw j.none_open tt

    -- The sender's own steps, from where it waits.
    sent-Jammed :
        (throws : Bool) (sd : Sender Item)
        → IsWaitingSender sd
        → Returns (OnSome (IsSame c)) (look_queue Item l throws sd c)
          × Returns (OnSome (IsSame c)) (pop_items Item sd c)
          × Returns (OnSome (IsSame c)) (asyn_request Item l throws sd c)
          × OnSome (IsSame c) (take Item l sd c)
          × OnSome (IsSame c) (free_slots Item sd c)
    unfolding look_queue pop_items asyn_request take free_slots
    sent-Jammed throws looping h = (tt, tt, tt, tt, tt)
    sent-Jammed throws draining h = (tt, tt, tt, tt, tt)
    sent-Jammed throws granted h = absurd h
    sent-Jammed throws fetching h = absurd h
    sent-Jammed throws (fetched n) h = absurd h
    sent-Jammed throws (popped b) h = absurd h
    sent-Jammed throws (sending b) h = absurd h
    sent-Jammed throws left h = absurd h

    end_sending-Jammed : (sd : Sender Item) → OnSome (IsSame c) (end_sending Item sd c)
    unfolding end_sending
    end_sending-Jammed looping =
        OnSome-if (IsSame c) c.eval_terminate _ _
          (λ z. (
            record {
              no_slot = j.no_slot;
              no_permit = j.no_permit;
              none_open = j.none_open;
              all_wait = j.all_wait;
              sender_waits = tt;
            },
            refl,
            refl,
            refl,
          ))
          (λ z. tt)
    end_sending-Jammed _ = tt

    end_sender-Jammed :
        0 < l.once_total_send → (sd : Sender Item) → OnSome (IsSame c) (end_sender Item l sd c)
    unfolding end_sender
    end_sender-Jammed h draining =
        OnSome-if (IsSame c) (ltb c.remain l.once_total_send) _ _ (λ z. tt)
          (λ z. absurd (ground (arith, z, h, j.no_permit)))
    end_sender-Jammed h _ = tt

    act-Jammed :
        0 < l.once_total_send → (a : Action Item) → Returns (OnSome (IsSame c)) (act Item l a c)
    unfolding act push_item announce return_call
    act-Jammed h (call_wait i) =
        call-Jammed i (λ ph xs f rest. reserve Item ph xs f rest c) reserve-Jammed
    act-Jammed h (call_push i) =
        call-Jammed i (λ ph xs f rest. push_item Item ph xs f rest c) λ x xs b rest. tt
    act-Jammed h (call_notify i) =
        call-Jammed i (λ ph xs f rest. announce Item ph xs f rest c) λ x xs b rest. tt
    act-Jammed h (call_return i) =
        call-Jammed i (λ ph xs f rest. return_call Item ph xs f rest c) λ x xs b rest. tt
    act-Jammed h (answer i) = no_answer i _
    act-Jammed h (fail i) = no_answer i _
    act-Jammed h grant = grant_send-Jammed c.sender
    act-Jammed h (look throws) = (sent-Jammed throws c.sender j.sender_waits).0
    act-Jammed h fetch = (sent-Jammed true c.sender j.sender_waits).3
    act-Jammed h pop = (sent-Jammed true c.sender j.sender_waits).1
    act-Jammed h release = (sent-Jammed true c.sender j.sender_waits).4
    act-Jammed h (send throws) = (sent-Jammed throws c.sender j.sender_waits).2
    act-Jammed h stop = (
      record {
        no_slot = j.no_slot;
        no_permit = j.no_permit;
        none_open = j.none_open;
        all_wait = j.all_wait;
        sender_waits = j.sender_waits;
      },
      refl,
      refl,
      refl,
    )
    act-Jammed h end_loop = end_sending-Jammed c.sender
    act-Jammed h leave = end_sender-Jammed h c.sender

  -- A jammed client stays so: whatever happens, Stop included, no thread goes on and no request is answered.
  pub run_all-Jammed :
      0 < l.once_total_send
      → (as' : List (Action Item)) (c : Client Item) → IsJammed c
      → Returns (IsSame c) (run_all Item l as' c)
  unfolding run_all
  run_all-Jammed h [] c j = (j, refl, refl, refl)
  run_all-Jammed h (a ∷ rest) c j =
      Returns-bind (OnSome (IsSame c)) (IsSame c) (act Item l a c) _ (act-Jammed c j h a)
        λ o k. next o k (λ q i. run_all-Jammed h rest q i)
    where
      next :
          (o : Option (Client Item))
          → OnSome (IsSame c) o
          → ((q : Client Item) → IsJammed q → Returns (IsSame q) (run_all Item l rest q))
          → Returns (IsSame c) (run_all Item l rest (or_same Item c o))
      next none k f = f c j
      next (some q) k f =
          Returns-map (IsSame q) (IsSame c) (run_all Item l rest q)
            (λ r m. (m.0, m.1 ∙ k.1, m.2 ∙ k.2, m.3 ∙ k.3)) (f q k.0)
