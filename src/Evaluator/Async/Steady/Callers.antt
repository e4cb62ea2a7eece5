-- ===== src/Evaluator/Async/Steady/Callers.antt =====
-- The steps of Eval, EvalByHistory and the callbacks of src/PolicyValueEvaluatorClient.cpp with `use_asyn_request`.
use estar_go.Base.{
  IsSplit, IsSplit-length, OnSome, on_option, sum_by-append, ℕ, suc, ◌≡◌, Bool, List, [], ◌∷◌,
  length-append, arith,
}
use estar_go.Evaluator.{wait}
use estar_go.Evaluator.Balance.{wait-Takes_one}
use estar_go.Evaluator.Async.{
  Phase, Caller, Request, Client, Limits, waiting, reserved, pushed, reserve, push_item, announce,
  return_call, evaluate_cb, failure_cb,
}
use estar_go.Evaluator.Async.Steady.{
  IsSteady, slot_of, item_of, failure_of, stray, weight_of, request_weight, request_length,
}

module _ (Item : Type 0) (weigh : Item → ℕ) (l : Limits) (total : ℕ) where
  abbrev Steady : Client Item → Type 0
  Steady = IsSteady Item weigh l total

  module _ (c : Client Item) (s : Steady c) where
    -- What the sums over the callers say of a caller that is picked.
    abbrev At : Phase → List Item → Bool → List (Caller Item) → Type 0
    At ph xs f rest = IsSplit c.callers (record { phase = ph; items = xs; is_failure = f }) rest

    pub reserve-IsSteady :
        (ph : Phase) (xs : List Item) (f : Bool) (rest : List (Caller Item))
        → At ph xs f rest
        → OnSome Steady (reserve Item ph xs f rest c)
    unfolding reserve
    reserve-IsSteady waiting (x ∷ xs) f rest h =
        on_option (λ w. suc w.1 ≡ c.full) Steady (wait 1 c.full) _ (wait-Takes_one c.full)
          λ w e. record {
            slots = omega (arith, e, s.slots, h (slot_of Item weigh));
            announced = omega (arith, s.announced, h (item_of Item weigh));
            permits = omega (arith, s.permits, h (failure_of Item weigh));
            unanswered = s.unanswered;
            loaded = s.loaded;
            formed = omega (arith, s.formed, h (stray Item weigh));
            kept = omega (arith, s.kept, h (weight_of Item weigh));
          }
    reserve-IsSteady waiting [] f rest h = tt
    reserve-IsSteady reserved xs f rest h = tt
    reserve-IsSteady pushed xs f rest h = tt

    pub push_item-IsSteady :
        (ph : Phase) (xs : List Item) (f : Bool) (rest : List (Caller Item))
        → At ph xs f rest
        → OnSome Steady (push_item Item ph xs f rest c)
    unfolding push_item
    push_item-IsSteady reserved (x ∷ xs) f rest h = record {
      slots = omega (arith, s.slots, h (slot_of Item weigh), length-append c.send_queue (x ∷ []));
      announced =
          omega (arith, s.announced, h (item_of Item weigh), length-append c.send_queue (x ∷ []));
      permits = omega (arith, s.permits, h (failure_of Item weigh));
      unanswered = omega (arith, s.unanswered, length-append c.send_queue (x ∷ []));
      loaded = s.loaded;
      formed = omega (arith, s.formed, h (stray Item weigh));
      kept =
          omega
            (arith, s.kept, h (weight_of Item weigh), sum_by-append weigh c.send_queue (x ∷ []));
    }
    push_item-IsSteady reserved [] f rest h = tt
    push_item-IsSteady waiting xs f rest h = tt
    push_item-IsSteady pushed xs f rest h = tt

    pub announce-IsSteady :
        (ph : Phase) (xs : List Item) (f : Bool) (rest : List (Caller Item))
        → At ph xs f rest
        → OnSome Steady (announce Item ph xs f rest c)
    unfolding announce
    announce-IsSteady pushed xs f rest h = record {
      slots = omega (arith, s.slots, h (slot_of Item weigh));
      announced = omega (arith, s.announced, h (item_of Item weigh));
      permits = omega (arith, s.permits, h (failure_of Item weigh));
      unanswered = s.unanswered;
      loaded = s.loaded;
      formed = omega (arith, s.formed, h (stray Item weigh));
      kept = omega (arith, s.kept, h (weight_of Item weigh));
    }
    announce-IsSteady waiting xs f rest h = tt
    announce-IsSteady reserved xs f rest h = tt

    pub return_call-IsSteady :
        (ph : Phase) (xs : List Item) (f : Bool) (rest : List (Caller Item))
        → At ph xs f rest
        → OnSome Steady (return_call Item ph xs f rest c)
    unfolding return_call
    return_call-IsSteady waiting [] f rest h = record {
      slots = omega (arith, s.slots, h (slot_of Item weigh));
      announced = omega (arith, s.announced, h (item_of Item weigh));
      permits = ground (arith, s.permits, h (failure_of Item weigh));
      unanswered = s.unanswered;
      loaded = s.loaded;
      formed = omega (arith, s.formed, h (stray Item weigh));
      kept = omega (arith, s.kept, h (weight_of Item weigh));
    }
    return_call-IsSteady waiting (x ∷ xs) f rest h = tt
    return_call-IsSteady reserved xs f rest h = tt
    return_call-IsSteady pushed xs f rest h = tt

    pub evaluate_cb-IsSteady :
        (r : Request Item) (rest : List (Request Item))
        → IsSplit c.open_requests r rest
        → Steady (evaluate_cb Item r rest c)
    unfolding evaluate_cb
    evaluate_cb-IsSteady r rest h = record {
      slots = s.slots;
      announced = s.announced;
      permits = omega (arith, s.permits, IsSplit-length c.open_requests r rest h);
      unanswered = omega (arith, s.unanswered, h (request_length Item weigh));
      loaded = s.loaded;
      formed = s.formed;
      kept =
          omega
            (arith, s.kept, h (request_weight Item weigh), sum_by-append weigh r.items c.answered);
    }

    pub failure_cb-IsSteady :
        (r : Request Item) (rest : List (Request Item))
        → IsSplit c.open_requests r rest
        → Steady (failure_cb Item r rest c)
    unfolding failure_cb
    failure_cb-IsSteady r rest h = record {
      slots = omega (arith, s.slots);
      announced = omega (arith, s.announced);
      permits = omega (arith, s.permits, IsSplit-length c.open_requests r rest h);
      unanswered = omega (arith, s.unanswered, h (request_length Item weigh));
      loaded = s.loaded;
      formed = omega (arith, s.formed);
      kept = omega (arith, s.kept, h (request_weight Item weigh));
    }
