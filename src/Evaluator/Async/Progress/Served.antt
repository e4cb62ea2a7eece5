-- ===== src/Evaluator/Async/Progress/Served.antt =====
-- The way to the last answer of the asynchronous client of src/PolicyValueEvaluatorClient.cpp.
use estar_go.Base.{
  sum_by, ℕ, ◌+◌, ◌%◌, ◌≡◌, ◌<◌, refl, ap, ◌⊎◌, inl, inr, false, List, [], ◌∷◌, ok, ◌==◌, length,
  arith,
}
use estar_go.Evaluator.Async.{
  Sender, Request, Client, Limits, looping, granted, fetching, fetched, popped, sending, draining,
  left, grant_send, begin_evaluate, look_queue, take, pop_items, free_slots, asyn_request, act,
  grant, look, fetch, pop, release, send,
}
use estar_go.Evaluator.Async.Steady.{
  IsSteady, weight_of, request_weight, request_length, sender_items, sender_slots,
}
use estar_go.Evaluator.Async.Progress.Ready.{
  wait-is_some, if_false, queue_cases, queue_cases, IsBlocked, caller_cases, caller_cases,
}
use estar_go.Evaluator.Async.Progress.Steps.{
  IsQuiet, IsServed, NextAction, call_step, answer_step, first_call, split_is_ok,
}

module _ (Item : Type 0) (weigh : Item → ℕ) where
  module _ (l : Limits) where
    module _ (total : ℕ) (room : 0 < l.queue_size) (batch : 0 < l.batch_size)
        (prx : 0 < l.proxy_number) where
      -- Nothing is queued or open: every call has returned, or the first goes on.
      idle_step :
          (c : Client Item)
          → IsSteady Item weigh l total c
          → IsQuiet Item weigh l c
          → IsBlocked Item weigh c.callers
          → c.open_requests ≡ []
          → c.send_queue ≡ []
          → sender_items Item weigh c.sender ≡ []
          → sender_slots Item weigh c.sender ≡ 0
          → IsServed Item weigh l total c ⊎ NextAction Item weigh l c
      idle_step c s q b o e i z = elim b.front [
        | inl n ↦ inl (record {
          returned = n;
          settled = omega (
            arith,
            s.unanswered,
            ap length e,
            ap length i,
            ap (sum_by (request_length Item weigh)) o,
          );
          answers = omega (
            arith,
            s.kept,
            ap (sum_by (weight_of Item weigh)) n,
            ap (sum_by weigh) e,
            ap (sum_by weigh) i,
            ap (sum_by (request_weight Item weigh)) o,
          );
        })
        | inr (x, xs, f, rest, k) ↦ inr (
            first_call Item weigh l c x xs f rest k
              (omega (arith, room, s.slots, b.no_slot, ap length e, z)) q)
      ]

      sender_step :
          (c : Client Item) (sd : Sender Item)
          → IsSteady Item weigh l total (record c { sender = sd })
          → IsQuiet Item weigh l (record c { sender = sd })
          → IsBlocked Item weigh c.callers
          → c.open_requests ≡ []
          → IsServed Item weigh l total (record c { sender = sd })
            ⊎ NextAction Item weigh l (record c { sender = sd })
      unfolding act grant_send look_queue take pop_items free_slots asyn_request begin_evaluate
      sender_step c looping s q b o = elim (queue_cases c.send_queue) [
        | inl e ↦ idle_step (record c { sender = looping }) s q b o e refl refl
        | inr h ↦
            (let (w, k) =
                wait-is_some 1 c.remain (omega arith)
                  (omega (arith, s.permits, q.permit_left, q.no_failure, ap length o)) in
              inr (record {
                action = grant;
                next = record c { sender = granted; remain = w.1 };
                taken = ap ok (if_false c.eval_terminate _ _ q.running (rw k refl));
                advancing = refl;
                quiet = record {
                  no_failure = q.no_failure;
                  permit_left = q.permit_left;
                  running = q.running;
                  sends = tt;
                };
              }))
      ]
      sender_step c granted s q b o = elim (queue_cases c.send_queue) [
        | inl e ↦ idle_step (record c { sender = granted }) s q b o e refl refl
        | inr h ↦ inr (record {
          action = look false;
          next = record c { sender = fetching };
          taken = rw (is_there h) refl;
          advancing = rw (is_there h) refl;
          quiet = record {
            no_failure = q.no_failure;
            permit_left = q.permit_left;
            running = q.running;
            sends = tt;
          };
        })
      ]
        where
          is_there : 0 < length c.send_queue → (c.empty == 0) ≡ false
          is_there h = ground (arith, h, s.announced, b.no_item)
      sender_step c fetching s q b o = elim (queue_cases c.send_queue) [
        | inl e ↦ idle_step (record c { sender = fetching }) s q b o e refl refl
        | inr h ↦
            (let (w, k) =
                wait-is_some l.batch_size c.empty batch
                  (omega (arith, h, s.announced, b.no_item)) in
              inr (record {
                action = fetch;
                next = record c { sender = fetched w.0; empty = w.1 };
                taken = ap ok (rw (take, k) refl);
                advancing = refl;
                quiet = record {
                  no_failure = q.no_failure;
                  permit_left = q.permit_left;
                  running = q.running;
                  sends = tt;
                };
              }))
      ]
      sender_step c (fetched n) s q b o =
          let (r, k) = split_is_ok Item weigh l c n c.send_queue (omega (arith, s.announced)) in
          inr (record {
            action = pop;
            next = record c { sender = popped r.0; send_queue = r.1 };
            taken = rw k refl;
            advancing = refl;
            quiet = record {
              no_failure = q.no_failure;
              permit_left = q.permit_left;
              running = q.running;
              sends = tt;
            };
          })
      sender_step c (popped xs) s q b o = inr (record {
        action = release;
        next = record c { sender = sending xs; full = c.full + length xs };
        taken = refl;
        advancing = refl;
        quiet = record {
          no_failure = q.no_failure;
          permit_left = q.permit_left;
          running = q.running;
          sends = tt;
        };
      })
      sender_step c (sending xs) s q b o = inr (record {
        action = send false;
        next = record c {
          sender = looping;
          open_requests =
              record { items = xs; is_dummy = false; target = c.proxy_count % l.proxy_number }
              ∷ c.open_requests;
          proxy_count = c.proxy_count + 1;
        };
        taken = rw has_proxy refl;
        advancing = refl;
        quiet = record {
          no_failure = q.no_failure;
          permit_left = q.permit_left;
          running = q.running;
          sends = tt;
        };
      })
        where
          has_proxy : (l.proxy_number == 0) ≡ false
          has_proxy = ground (arith, prx)
      sender_step c draining s q b o = absurd q.sends
      sender_step c left s q b o = absurd q.sends

      -- A quiet client whose requests are not all answered has an action that advances it.
      pub progress :
          (c : Client Item)
          → IsSteady Item weigh l total c
          → IsQuiet Item weigh l c
          → IsServed Item weigh l total c ⊎ NextAction Item weigh l c
      progress c s q = elim (caller_cases Item weigh c.callers s.formed) [
        | inl r ↦ inr (
            call_step Item weigh l c r.at r.caller.phase r.caller.items r.caller.is_failure r.others
              r.picked r.ready q)
        | inr b ↦ opened c.open_requests refl b
      ]
        where
          opened :
              (rs : List (Request Item))
              → c.open_requests ≡ rs
              → IsBlocked Item weigh c.callers
              → IsServed Item weigh l total c ⊎ NextAction Item weigh l c
          opened [] e b = sender_step c c.sender s q b e
          opened (r ∷ rs) e b = inr (answer_step Item weigh l c r rs e q)
