-- ===== src/Evaluator/Async/Steady/Sending.antt =====
-- The steps of ProcessEval of src/PolicyValueEvaluatorClient.cpp with `use_asyn_request`.
use estar_go.Base.{
  OnSome, OnSome-if, on_option, sum_by, ℕ, zero, suc, ◌+◌, ◌≡◌, ◌≤◌, ◌<◌, refl, ap, inl, inr, Bool,
  true, false, List, [], ◌∷◌, Returns, Returns-bind, Bool-cases, ◌==◌, ltb, length, arith,
}
use estar_go.Evaluator.{wait}
use estar_go.Evaluator.Balance.{wait-Takes_one, wait-Takes_some}
use estar_go.Evaluator.Async.{
  Sender, Client, Limits, looping, granted, fetching, fetched, popped, sending, draining, left,
  grant_send, begin_evaluate, look_queue, take, split_queue, pop_items, free_slots, asyn_request,
  end_sending, end_sender,
}
use estar_go.Evaluator.Async.Steady.{
  IsSteady, sender_permit, sender_slots, sender_fetch, sender_items, IsLoaded,
}

module _ (Item : Type 0) (weigh : Item → ℕ) (l : Limits) (total : ℕ) where
  abbrev Steady : Client Item → Type 0
  Steady = IsSteady Item weigh l total

  module _ (c : Client Item) where
    pub grant_send-IsSteady :
        (sd : Sender Item)
        → Steady (record c { sender = sd })
        → OnSome Steady (grant_send Item sd c)
    unfolding grant_send
    grant_send-IsSteady looping s =
        OnSome-if Steady c.eval_terminate _ _ (λ z. tt)
          λ z.
            on_option (λ w. suc w.1 ≡ c.remain) Steady (wait 1 c.remain) _ (wait-Takes_one c.remain)
              λ w e. record {
                slots = s.slots;
                announced = s.announced;
                permits = omega (arith, s.permits, e);
                unanswered = s.unanswered;
                loaded = tt;
                formed = s.formed;
                kept = s.kept;
              }
    grant_send-IsSteady _ s = tt

    -- The sender goes to a place with the same counts.
    moved :
        (sd sd' : Sender Item)
        → Steady (record c { sender = sd })
        → sender_slots Item weigh sd' ≡ sender_slots Item weigh sd
        → sender_fetch Item weigh sd' ≡ sender_fetch Item weigh sd
        → sender_permit Item weigh sd' ≡ sender_permit Item weigh sd
        → sender_items Item weigh sd' ≡ sender_items Item weigh sd
        → IsLoaded Item weigh sd'
        → Steady (record c { sender = sd' })
    moved sd sd' s sl fe pe it lo = record {
      slots = omega (arith, s.slots, sl);
      announced = omega (arith, s.announced, fe);
      permits = omega (arith, s.permits, pe);
      unanswered = omega (arith, s.unanswered, ap length it);
      loaded = lo;
      formed = s.formed;
      kept = omega (arith, s.kept, ap (sum_by weigh) it);
    }

    pub begin_evaluate-IsSteady :
        (throws : Bool) (b : List Item) (is_dummy : Bool) (sd : Sender Item)
        → 0 < l.proxy_number
        → Steady (record c { sender = sd })
        → sender_permit Item weigh sd ≡ 1
        → sender_slots Item weigh sd ≡ 0
        → sender_fetch Item weigh sd ≡ 0
        → sender_items Item weigh sd ≡ b
        → Returns (OnSome Steady) (begin_evaluate Item l throws b is_dummy c)
    unfolding begin_evaluate
    begin_evaluate-IsSteady true b is_dummy sd pos s pe sl fe it =
        elim (Bool-cases (l.proxy_number == 0)) [
          | inl z ↦ absurd (ground (arith, z))
          | inr z ↦ rw z (record {
            slots = omega (arith, s.slots, sl);
            announced = omega (arith, s.announced, fe);
            permits = omega (arith, s.permits, pe);
            unanswered = omega (arith, s.unanswered, ap length it);
            loaded = tt;
            formed = s.formed;
            kept = omega (arith, s.kept, ap (sum_by weigh) it);
          })
        ]
    begin_evaluate-IsSteady false b is_dummy sd pos s pe sl fe it =
        elim (Bool-cases (l.proxy_number == 0)) [
          | inl z ↦ absurd (ground (arith, z))
          | inr z ↦ rw z (record {
            slots = omega (arith, s.slots, sl);
            announced = omega (arith, s.announced, fe);
            permits = omega (arith, s.permits, pe);
            unanswered = omega (arith, s.unanswered, ap length it);
            loaded = tt;
            formed = s.formed;
            kept = omega (arith, s.kept, ap (sum_by weigh) it);
          })
        ]

    pub look_queue-IsSteady :
        (throws : Bool) (sd : Sender Item)
        → 0 < l.proxy_number
        → Steady (record c { sender = sd })
        → Returns (OnSome Steady) (look_queue Item l throws sd c)
    unfolding look_queue
    look_queue-IsSteady throws granted pos s = elim (Bool-cases (c.empty == 0)) [
      | inl z ↦ rw z (begin_evaluate-IsSteady throws [] true granted pos s refl refl refl refl)
      | inr z ↦ rw z (moved granted fetching s refl refl refl refl tt)
    ]
    look_queue-IsSteady throws _ pos s = tt

    pub take-IsSteady :
        (sd : Sender Item)
        → 0 < l.batch_size
        → Steady (record c { sender = sd })
        → OnSome Steady (take Item l sd c)
    unfolding take
    take-IsSteady fetching pos s =
        on_option (λ w. (w.0 + w.1 ≡ c.empty) × (0 < w.0)) Steady (wait l.batch_size c.empty) _
          (wait-Takes_some l.batch_size c.empty pos)
          λ w e. record {
            slots = s.slots;
            announced = omega (arith, s.announced, e.0);
            permits = s.permits;
            unanswered = s.unanswered;
            loaded = e.1;
            formed = s.formed;
            kept = s.kept;
          }
    take-IsSteady _ pos s = tt

    pub split_queue-Splits :
        (n : ℕ) (q : List Item)
        → n ≤ length q
        → Returns
            (λ r.
              (length r.0 ≡ n)
              × (length r.0 + length r.1 ≡ length q)
              × (sum_by weigh r.0 + sum_by weigh r.1 ≡ sum_by weigh q))
            (split_queue Item n q)
    unfolding split_queue
    split_queue-Splits zero q h = (refl, omega arith, omega arith)
    split_queue-Splits (suc n) [] h = absurd (omega arith)
    split_queue-Splits (suc n) (x ∷ q) h =
        Returns-bind
          (λ r.
            (length r.0 ≡ n)
            × (length r.0 + length r.1 ≡ length q)
            × (sum_by weigh r.0 + sum_by weigh r.1 ≡ sum_by weigh q))
          (λ r.
            (length r.0 ≡ suc n)
            × (length r.0 + length r.1 ≡ length (x ∷ q))
            × (sum_by weigh r.0 + sum_by weigh r.1 ≡ sum_by weigh (x ∷ q)))
          (split_queue Item n q) _ (split_queue-Splits n q (omega arith))
          λ r e. (omega (arith, e.0), omega (arith, e.1), omega (arith, e.2))

    pub pop_items-IsSteady :
        (sd : Sender Item)
        → Steady (record c { sender = sd })
        → Returns (OnSome Steady) (pop_items Item sd c)
    unfolding pop_items
    pop_items-IsSteady (fetched n) s =
        Returns-bind
          (λ r.
            (length r.0 ≡ n)
            × (length r.0 + length r.1 ≡ length c.send_queue)
            × (sum_by weigh r.0 + sum_by weigh r.1 ≡ sum_by weigh c.send_queue))
          (OnSome Steady) (split_queue Item n c.send_queue) _
          (split_queue-Splits n c.send_queue (omega (arith, s.announced)))
          λ r e. record {
            slots = omega (arith, s.slots, e.1);
            announced = omega (arith, s.announced, e.0, e.1);
            permits = s.permits;
            unanswered = omega (arith, s.unanswered, e.1);
            loaded = omega (arith, s.loaded, e.0);
            formed = s.formed;
            kept = omega (arith, s.kept, e.2);
          }
    pop_items-IsSteady _ s = tt

    pub free_slots-IsSteady :
        (sd : Sender Item)
        → Steady (record c { sender = sd })
        → OnSome Steady (free_slots Item sd c)
    unfolding free_slots
    free_slots-IsSteady (popped b) s = record {
      slots = omega (arith, s.slots);
      announced = s.announced;
      permits = s.permits;
      unanswered = s.unanswered;
      loaded = s.loaded;
      formed = s.formed;
      kept = s.kept;
    }
    free_slots-IsSteady _ s = tt

    pub asyn_request-IsSteady :
        (throws : Bool) (sd : Sender Item)
        → 0 < l.proxy_number
        → Steady (record c { sender = sd })
        → Returns (OnSome Steady) (asyn_request Item l throws sd c)
    unfolding asyn_request
    asyn_request-IsSteady throws (sending b) pos s =
        begin_evaluate-IsSteady throws b false (sending b) pos s refl refl refl refl
    asyn_request-IsSteady throws _ pos s = tt

    pub end_sending-IsSteady :
        (sd : Sender Item)
        → Steady (record c { sender = sd })
        → OnSome Steady (end_sending Item sd c)
    unfolding end_sending
    end_sending-IsSteady looping s =
        OnSome-if Steady c.eval_terminate _ _ (λ z. moved looping draining s refl refl refl refl tt)
          (λ z. tt)
    end_sending-IsSteady _ s = tt

    pub end_sender-IsSteady :
        (sd : Sender Item)
        → Steady (record c { sender = sd })
        → OnSome Steady (end_sender Item l sd c)
    unfolding end_sender
    end_sender-IsSteady draining s =
        OnSome-if Steady (ltb c.remain l.once_total_send) _ _ (λ z. tt)
          (λ z. moved draining left s refl refl refl refl tt)
    end_sender-IsSteady _ s = tt
