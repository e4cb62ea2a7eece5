-- ===== src/Evaluator/Async/Progress/Steps.antt =====
-- The next step of the asynchronous client of src/PolicyValueEvaluatorClient.cpp.
use estar_go.Base.{
  IsSplit, OnSome, pick, pick-IsSplit, sum_by, ℕ, ◌+◌, ◌≡◌, ◌≤◌, ◌<◌, refl, ap, subst, Bool, true,
  false, List, [], ◌∷◌, ◌++◌, some, Result, ok, err, Returns, if◌then◌else◌, length, arith,
}
use estar_go.Evaluator.{wait}
use estar_go.Evaluator.Async.{
  Phase, Caller, Sender, Request, Client, Limits, Action, waiting, reserved, pushed, draining, left,
  reserve, push_item, announce, return_call, split_queue, evaluate_cb, act, call_wait, call_push,
  call_notify, call_return, answer,
}
use estar_go.Evaluator.Async.Steady.{failure_of, request_weight, request_length}
use estar_go.Evaluator.Async.Steady.Sending.{split_queue-Splits}
use estar_go.Evaluator.Async.Progress.{advances}
use estar_go.Evaluator.Async.Progress.Ready.{wait-is_some, IsReady}

module _ (Item : Type 0) (weigh : Item → ℕ) where
  module _ (l : Limits) where
    abbrev pub IsSending : Sender Item → Type 0
    IsSending draining = ⊥
    IsSending left = ⊥
    IsSending _ = Unit

    -- No batch is being sent again, a count of remain_can_send is left, and Stop was not called.
    pub record IsQuiet (c : Client Item) : Type 0 where
      pub no_failure : sum_by (failure_of Item weigh) c.callers ≡ 0
      pub permit_left : length c.lost < l.once_total_send
      pub running : c.eval_terminate ≡ false
      pub sends : IsSending c.sender

    -- Every call has returned, every request is answered but those that threw, and pending_ is their number.
    pub record IsServed (total : ℕ) (c : Client Item) : Type 0 where
      pub returned : c.callers ≡ []
      pub settled : c.pending ≡ sum_by (request_length Item weigh) c.lost
      pub answers : sum_by weigh c.answered + sum_by (request_weight Item weigh) c.lost ≡ total

    pub record NextAction (c : Client Item) : Type 0 where
      pub action : Action Item
      pub next : Client Item
      pub taken : act Item l action c ≡ ok (some next)
      pub advancing : advances Item weigh action c ≡ true
      pub quiet : IsQuiet next

    picked-IsSplit :
        (c : Client Item) (i : ℕ) {t : Caller Item} {rest : List (Caller Item)}
        → pick i c.callers ≡ some (t, rest)
        → IsSplit c.callers t rest
    picked-IsSplit c i e =
        subst (OnSome (λ r. IsSplit c.callers r.0 r.1)) e (pick-IsSplit i c.callers)

    pub call_step :
        (c : Client Item) (i : ℕ) (ph : Phase) (xs : List Item) (f : Bool)
        (rest : List (Caller Item))
        → pick i c.callers ≡ some (record { phase = ph; items = xs; is_failure = f }, rest)
        → IsReady Item weigh ph xs
        → IsQuiet c
        → NextAction c
    unfolding act return_call push_item announce
    call_step c i waiting [] f rest e r q = record {
      action = call_return i;
      next = record c { callers = rest; remain = if f then c.remain + 1 else c.remain };
      taken = rw e refl;
      advancing = refl;
      quiet = record {
        no_failure = omega (arith, q.no_failure, picked-IsSplit c i e (failure_of Item weigh));
        permit_left = q.permit_left;
        running = q.running;
        sends = q.sends;
      };
    }
    call_step c i waiting (x ∷ xs) f rest e r q = absurd r
    call_step c i reserved [] f rest e r q = absurd r
    call_step c i reserved (x ∷ xs) f rest e r q = record {
      action = call_push i;
      next = record c {
        callers = record { phase = pushed; items = xs; is_failure = f } ∷ rest;
        send_queue = c.send_queue ++ x ∷ [];
        pending = c.pending + 1;
      };
      taken = rw e refl;
      advancing = refl;
      quiet = record {
        no_failure = omega (arith, q.no_failure, picked-IsSplit c i e (failure_of Item weigh));
        permit_left = q.permit_left;
        running = q.running;
        sends = q.sends;
      };
    }
    call_step c i pushed xs f rest e r q = record {
      action = call_notify i;
      next = record c {
        callers = record { phase = waiting; items = xs; is_failure = f } ∷ rest;
        empty = c.empty + 1;
      };
      taken = rw e refl;
      advancing = refl;
      quiet = record {
        no_failure = omega (arith, q.no_failure, picked-IsSplit c i e (failure_of Item weigh));
        permit_left = q.permit_left;
        running = q.running;
        sends = q.sends;
      };
    }

    pub answer_step :
        (c : Client Item) (r : Request Item) (rest : List (Request Item))
        → c.open_requests ≡ r ∷ rest
        → IsQuiet c
        → NextAction c
    unfolding act pick evaluate_cb
    answer_step c r rest e q = record {
      action = answer 0;
      next = evaluate_cb Item r rest c;
      taken = rw e refl;
      advancing = refl;
      quiet = record {
        no_failure = q.no_failure;
        permit_left = q.permit_left;
        running = q.running;
        sends = q.sends;
      };
    }

    pub first_call :
        (c : Client Item) (x : Item) (xs : List Item) (f : Bool) (rest : List (Caller Item))
        → c.callers ≡ record { phase = waiting; items = x ∷ xs; is_failure = f } ∷ rest
        → 0 < c.full
        → IsQuiet c
        → NextAction c
    unfolding act pick reserve
    first_call c x xs f rest e h q = waits (wait-is_some 1 c.full (omega arith) h)
      where
        first :
            pick 0 c.callers
            ≡ some (record { phase = waiting; items = x ∷ xs; is_failure = f }, rest)
        first = rw e refl

        waits : (w : ℕ × ℕ) × (wait 1 c.full ≡ some w) → NextAction c
        waits (w, k) = record {
          action = call_wait 0;
          next = record c {
            full = w.1;
            callers = record { phase = reserved; items = x ∷ xs; is_failure = f } ∷ rest;
          };
          taken = rw first (rw (reserve, k) refl);
          advancing = refl;
          quiet = record {
            no_failure = omega (arith, q.no_failure, ap (sum_by (failure_of Item weigh)) e);
            permit_left = q.permit_left;
            running = q.running;
            sends = q.sends;
          };
        }

    pub split_is_ok :
        (c : Client Item) (n : ℕ) (q : List Item)
        → n ≤ length q
        → (r : List Item × List Item) × (split_queue Item n q ≡ ok r)
    split_is_ok c n q h =
        of_returns _ (split_queue Item n q) (split_queue-Splits Item weigh l 0 c n q h)
      where
        of_returns :
            (P : List Item × List Item → Type 0) (m : Result (List Item × List Item))
            → Returns P m
            → (r : List Item × List Item) × (m ≡ ok r)
        of_returns P (ok r) h = (r, refl)
        of_returns P (err e) h = absurd h
