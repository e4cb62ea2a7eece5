-- ===== src/Evaluator/Async/Progress.antt =====
-- That the asynchronous client of src/PolicyValueEvaluatorClient.cpp gets on: the work that is left.
pub mod Ready
pub mod Steps
pub mod Served
use estar_go.Base.{
  IsSplit, IsSplit-length, OnSome, OnSome-if, on_option, on_pick-OnSome, sum_by, sum_by-append, ℕ,
  zero, suc, ◌+◌, ◌-◌, ◌*◌, ◌%◌, ◌≡◌, ◌≤◌, ◌<◌, refl, ap, inl, inr, Bool, true, false, List, [],
  ◌∷◌, ◌++◌, not, Option, none, some, ok, OnOk, OnOk-bind, OnOk-if, err, bad_division, Returns,
  Returns-bind, Bool-cases, if◌then◌else◌, ◌==◌, ltb, length, length-append, arith,
}
use estar_go.Evaluator.{wait}
use estar_go.Evaluator.Balance.{wait-Takes, wait-Takes_one, wait-Takes_some}
use estar_go.Evaluator.Async.{
  Phase, Caller, Sender, Request, Client, Limits, Action, waiting, reserved, pushed, looping,
  granted, fetching, fetched, popped, sending, draining, left, reserve, push_item, announce,
  return_call, grant_send, begin_evaluate, look_queue, take, split_queue, pop_items, free_slots,
  asyn_request, evaluate_cb, failure_cb, end_sending, end_sender, act, run_all, or_same, call_wait,
  call_push, call_notify, call_return, answer, fail, grant, look, fetch, pop, release, send, stop,
  end_loop, leave,
}
use estar_go.Evaluator.Async.Steady.{
  IsSteady, slot_of, item_of, failure_of, stray, weight_of, request_weight, request_length,
  sender_permit, sender_slots, sender_fetch, sender_items, IsLoaded,
}

module _ (Item : Type 0) (weigh : Item → ℕ) where
  -- The steps that a caller still has before it, the batch's way included.
  abbrev pub call_work : Phase → List Item → ℕ
  call_work waiting xs = 20 * length xs + 1
  call_work reserved xs = 20 * length xs
  call_work pushed xs = 20 * length xs + 2

  abbrev pub caller_work : Caller Item → ℕ
  caller_work t = call_work t.phase t.items

  abbrev pub sender_work : Sender Item → ℕ
  sender_work looping = 5
  sender_work granted = 4
  sender_work fetching = 3
  sender_work (fetched n) = 2
  sender_work (popped b) = 9 * length b + 1
  sender_work (sending b) = 9 * length b
  sender_work draining = 1
  sender_work left = 0

  abbrev pub request_work : Request Item → ℕ
  request_work r = 2 * length r.items + 1

  abbrev pub work : Client Item → ℕ
  work c =
      sum_by caller_work c.callers
      + 10 * length c.send_queue
      + sender_work c.sender
      + sum_by request_work c.open_requests

  -- An action that is no failure, no dummy request and not Stop's.
  abbrev pub advances : Action Item → Client Item → Bool
  advances (fail i) c = false
  advances (look throws) c = not (c.empty == 0)
  advances stop c = false
  advances _ c = true

  module _ (l : Limits) (c : Client Item) where
    abbrev pub Lower : Client Item → Type 0
    Lower q = work q < work c

    reserve-Lower :
        (ph : Phase) (xs : List Item) (f : Bool) (rest : List (Caller Item))
        → IsSplit c.callers (record { phase = ph; items = xs; is_failure = f }) rest
        → OnSome Lower (reserve Item ph xs f rest c)
    unfolding reserve
    reserve-Lower waiting (x ∷ xs) f rest h =
        on_option (λ w. suc w.1 ≡ c.full) Lower (wait 1 c.full) _ (wait-Takes_one c.full)
          λ w e. omega (arith, h caller_work)
    reserve-Lower waiting [] f rest h = tt
    reserve-Lower reserved xs f rest h = tt
    reserve-Lower pushed xs f rest h = tt

    push_item-Lower :
        (ph : Phase) (xs : List Item) (f : Bool) (rest : List (Caller Item))
        → IsSplit c.callers (record { phase = ph; items = xs; is_failure = f }) rest
        → OnSome Lower (push_item Item ph xs f rest c)
    unfolding push_item
    push_item-Lower reserved (x ∷ xs) f rest h =
        omega (arith, h caller_work, length-append c.send_queue (x ∷ []))
    push_item-Lower reserved [] f rest h = tt
    push_item-Lower waiting xs f rest h = tt
    push_item-Lower pushed xs f rest h = tt

    announce-Lower :
        (ph : Phase) (xs : List Item) (f : Bool) (rest : List (Caller Item))
        → IsSplit c.callers (record { phase = ph; items = xs; is_failure = f }) rest
        → OnSome Lower (announce Item ph xs f rest c)
    unfolding announce
    announce-Lower pushed xs f rest h = omega (arith, h caller_work)
    announce-Lower waiting xs f rest h = tt
    announce-Lower reserved xs f rest h = tt

    return_call-Lower :
        (ph : Phase) (xs : List Item) (f : Bool) (rest : List (Caller Item))
        → IsSplit c.callers (record { phase = ph; items = xs; is_failure = f }) rest
        → OnSome Lower (return_call Item ph xs f rest c)
    unfolding return_call
    return_call-Lower waiting [] f rest h = omega (arith, h caller_work)
    return_call-Lower waiting (x ∷ xs) f rest h = tt
    return_call-Lower reserved xs f rest h = tt
    return_call-Lower pushed xs f rest h = tt

    grant_send-Lower : (sd : Sender Item) → sd ≡ c.sender → OnSome Lower (grant_send Item sd c)
    unfolding grant_send
    grant_send-Lower looping e =
        OnSome-if Lower c.eval_terminate _ _ (λ z. tt)
          λ z.
            on_option (λ w. suc w.1 ≡ c.remain) Lower (wait 1 c.remain) _ (wait-Takes_one c.remain)
              λ w k. omega (arith, ap sender_work e)
    grant_send-Lower _ e = tt

    look_queue-Lower :
        (throws : Bool) (sd : Sender Item)
        → sd ≡ c.sender
        → not (c.empty == 0) ≡ true
        → OnOk (OnSome Lower) (look_queue Item l throws sd c)
    unfolding look_queue
    look_queue-Lower throws granted e h = elim (Bool-cases (c.empty == 0)) [
      | inl z ↦ absurd (ground (arith, z, h))
      | inr z ↦ rw z (omega (arith, ap sender_work e))
    ]
    look_queue-Lower throws _ e h = tt

    take-Lower : (sd : Sender Item) → sd ≡ c.sender → OnSome Lower (take Item l sd c)
    unfolding take
    take-Lower fetching e =
        on_option (λ w. w.0 + w.1 ≡ c.empty) Lower (wait l.batch_size c.empty) _
          (wait-Takes l.batch_size c.empty) λ w k. omega (arith, ap sender_work e)
    take-Lower _ e = tt

    split_queue-Shorter :
        (n : ℕ) (q : List Item)
        → OnOk (λ r. length r.0 + length r.1 ≡ length q) (split_queue Item n q)
    unfolding split_queue
    split_queue-Shorter zero q = omega arith
    split_queue-Shorter (suc n) [] = tt
    split_queue-Shorter (suc n) (x ∷ q) =
        OnOk-bind (λ r. length r.0 + length r.1 ≡ length q)
          (λ r. length r.0 + length r.1 ≡ length (x ∷ q)) (split_queue Item n q) _
          (split_queue-Shorter n q) λ r e. omega (arith, e)

    pop_items-Lower : (sd : Sender Item) → sd ≡ c.sender → OnOk (OnSome Lower) (pop_items Item sd c)
    unfolding pop_items
    pop_items-Lower (fetched n) e =
        OnOk-bind (λ r. length r.0 + length r.1 ≡ length c.send_queue) (OnSome Lower)
          (split_queue Item n c.send_queue) _ (split_queue-Shorter n c.send_queue)
          λ r k. omega (arith, k, ap sender_work e)
    pop_items-Lower _ e = tt

    free_slots-Lower : (sd : Sender Item) → sd ≡ c.sender → OnSome Lower (free_slots Item sd c)
    unfolding free_slots
    free_slots-Lower (popped b) e = omega (arith, ap sender_work e)
    free_slots-Lower _ e = tt

    asyn_request-Lower :
        (throws : Bool) (sd : Sender Item)
        → sd ≡ c.sender
        → IsLoaded Item weigh sd
        → OnOk (OnSome Lower) (asyn_request Item l throws sd c)
    unfolding asyn_request begin_evaluate
    asyn_request-Lower true (sending b) e h =
        OnOk-if (OnSome Lower) (l.proxy_number == 0) (err bad_division) _ (λ z. tt)
          λ z. omega (arith, h, ap sender_work e)
    asyn_request-Lower false (sending b) e h =
        OnOk-if (OnSome Lower) (l.proxy_number == 0) (err bad_division) _ (λ z. tt)
          λ z. omega (arith, h, ap sender_work e)
    asyn_request-Lower throws _ e h = tt

    end_sending-Lower : (sd : Sender Item) → sd ≡ c.sender → OnSome Lower (end_sending Item sd c)
    unfolding end_sending
    end_sending-Lower looping e =
        OnSome-if Lower c.eval_terminate _ _ (λ z. omega (arith, ap sender_work e)) (λ z. tt)
    end_sending-Lower _ e = tt

    end_sender-Lower : (sd : Sender Item) → sd ≡ c.sender → OnSome Lower (end_sender Item l sd c)
    unfolding end_sender
    end_sender-Lower draining e =
        OnSome-if Lower (ltb c.remain l.once_total_send) _ _ (λ z. tt)
          (λ z. omega (arith, ap sender_work e))
    end_sender-Lower _ e = tt

    -- Each action but a failure, a dummy request and Stop's lowers the work that is left, so that a run of
    -- them ends, at the latest when everything is answered.
    pub act-Lower :
        IsLoaded Item weigh c.sender
        → (a : Action Item) → advances a c ≡ true
        → OnOk (OnSome Lower) (act Item l a c)
    unfolding act evaluate_cb
    act-Lower h (call_wait i) k =
        on_pick-OnSome Lower i c.callers _
          λ t rest s. reserve-Lower t.phase t.items t.is_failure rest s
    act-Lower h (call_push i) k =
        on_pick-OnSome Lower i c.callers _
          λ t rest s. push_item-Lower t.phase t.items t.is_failure rest s
    act-Lower h (call_notify i) k =
        on_pick-OnSome Lower i c.callers _
          λ t rest s. announce-Lower t.phase t.items t.is_failure rest s
    act-Lower h (call_return i) k =
        on_pick-OnSome Lower i c.callers _
          λ t rest s. return_call-Lower t.phase t.items t.is_failure rest s
    act-Lower h (answer i) k =
        on_pick-OnSome Lower i c.open_requests _ λ r rest s. omega (arith, s request_work)
    act-Lower h (fail i) k = absurd (grind (arith, k))
    act-Lower h grant k = grant_send-Lower c.sender refl
    act-Lower h (look throws) k = look_queue-Lower throws c.sender refl k
    act-Lower h fetch k = take-Lower c.sender refl
    act-Lower h pop k = pop_items-Lower c.sender refl
    act-Lower h release k = free_slots-Lower c.sender refl
    act-Lower h (send throws) k = asyn_request-Lower throws c.sender refl h
    act-Lower h stop k = absurd (grind (arith, k))
    act-Lower h end_loop k = end_sending-Lower c.sender refl
    act-Lower h leave k = end_sender-Lower c.sender refl
