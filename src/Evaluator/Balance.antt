-- ===== src/Evaluator/Balance.antt =====
-- The semaphores and the queue of src/PolicyValueEvaluatorClient.cpp.
use estar_go.Base.{
  OnSome, OnSome-if, on_option, pick, ℕ, zero, suc, ◌+◌, ◌-◌, ◌≡◌, ◌≤◌, ◌<◌, refl, ap, inl, inr,
  Bool, true, false, List, [], ◌∷◌, ◌++◌, Option, none, some, ok, err, bad_index, Returns,
  Returns-bind, Bool-cases, ltb, ◌==◌, length, length-append, arith,
}
use estar_go.Evaluator.{
  Pipe, Action, wait, new_pipe, reserve, push_item, announce, take, pop_item, release, request,
  evaluate_cb, failure_cb, act, run_all, eval_wait, eval_push, eval_notify, take_fetch, pop_front,
  notify_full, send, send_throws, answer, fail,
}

-- What Semaphore::wait returns is what it takes off the count.
pub wait-Takes : (max count : ℕ) → OnSome (λ w. w.0 + w.1 ≡ count) (wait max count)
unfolding wait
wait-Takes max count = elim (Bool-cases (count == 0)) [
  | inl z ↦ rw z tt
  | inr z ↦ rw z (elim (Bool-cases (ltb count max)) [
    | inl l ↦ rw l (omega arith)
    | inr l ↦ rw l (ground arith)
  ])
]

-- What it returns is not 0, unless it is asked for 0.
pub wait-Takes_some :
    (max count : ℕ) → 0 < max → OnSome (λ w. (w.0 + w.1 ≡ count) × (0 < w.0)) (wait max count)
unfolding wait
wait-Takes_some max count h = elim (Bool-cases (count == 0)) [
  | inl z ↦ rw z tt
  | inr z ↦ rw z (elim (Bool-cases (ltb count max)) [
    | inl l ↦ rw l (omega arith, ground (arith, z))
    | inr l ↦ rw l (ground (arith, l), omega arith)
  ])
]

pub wait-Takes_one : (count : ℕ) → OnSome (λ w. suc w.1 ≡ count) (wait 1 count)
unfolding wait
wait-Takes_one count = elim (Bool-cases (count == 0)) [
  | inl z ↦ rw z tt
  | inr z ↦ rw z (elim (Bool-cases (ltb count 1)) [
    | inl l ↦ rw l (ground arith)
    | inr l ↦ rw l (ground arith)
  ])
]

module _ (Item : Type 0) where
  abbrev pub total : List (List Item) → ℕ
  total [] = 0
  total (b ∷ bs) = length b + total bs

  total-append :
      (bs : List (List Item)) (b : List Item) → total (bs ++ b ∷ []) ≡ total bs + length b
  total-append [] b = omega arith
  total-append (c ∷ bs) b = omega (arith, total-append bs b)

  pick-length : (i : ℕ) (xs : List Item) → OnSome (λ r. length xs ≡ suc (length r.1)) (pick i xs)
  unfolding pick
  pick-length i [] = tt
  pick-length zero (x ∷ xs) = refl
  pick-length (suc i) (x ∷ xs) =
      on_option (λ r. length xs ≡ suc (length r.1)) (λ r. length (x ∷ xs) ≡ suc (length r.1))
        (pick i xs) _ (pick-length i xs) λ r h. omega (arith, h)

  pick-total :
      (i : ℕ) (bs : List (List Item)) → OnSome (λ r. total bs ≡ length r.0 + total r.1) (pick i bs)
  unfolding pick
  pick-total i [] = tt
  pick-total zero (b ∷ bs) = refl
  pick-total (suc i) (b ∷ bs) =
      on_option (λ r. total bs ≡ length r.0 + total r.1)
        (λ r. total (b ∷ bs) ≡ length r.0 + total r.1) (pick i bs) _ (pick-total i bs)
        λ r h. omega (arith, h)

  -- Each slot of the queue is free, reserved, taken by a request, or about to be freed; each request of
  -- the queue is announced, about to be announced, or about to be popped; pending_ counts the requests
  -- from the queue on that have no answer.
  pub record IsBalanced (size : ℕ) (p : Pipe Item) : Type 0 where
    pub slots : p.full + length p.reserved + length p.send_queue + p.popped ≡ size
    pub announced : p.empty + p.pushed + p.fetch ≡ length p.send_queue
    pub unanswered :
        p.pending ≡ length p.send_queue + length p.batch + total p.in_flight + length p.lost

  module _ (size : ℕ) (p : Pipe Item) (b : IsBalanced size p) where
    reserve-IsBalanced : (i : ℕ) → OnSome (IsBalanced size) (reserve Item i p)
    unfolding reserve
    reserve-IsBalanced i =
        on_option (λ r. Unit {0}) (IsBalanced size) (pick i p.callers) _ (free (pick i p.callers))
          λ c x.
            on_option (λ w. suc w.1 ≡ p.full) (IsBalanced size) (wait 1 p.full) _
              (wait-Takes_one p.full)
              λ w h. record {
                slots = omega (arith, h, b.slots, length-append p.reserved (c.0 ∷ []));
                announced = b.announced;
                unanswered = b.unanswered;
              }
      where
        free : {A : Type 0} (o : Option A) → OnSome (λ a. Unit {0}) o
        free none = tt
        free (some a) = tt

    push_item-IsBalanced : (i : ℕ) → OnSome (IsBalanced size) (push_item Item i p)
    unfolding push_item
    push_item-IsBalanced i =
        on_option (λ r. length p.reserved ≡ suc (length r.1)) (IsBalanced size) (pick i p.reserved)
          _ (pick-length i p.reserved)
          λ c h. record {
            slots = omega (arith, h, b.slots, length-append p.send_queue (c.0 ∷ []));
            announced = omega (arith, b.announced, length-append p.send_queue (c.0 ∷ []));
            unanswered = omega (arith, b.unanswered, length-append p.send_queue (c.0 ∷ []));
          }

    announce-IsBalanced : OnSome (IsBalanced size) (announce Item p)
    unfolding announce
    announce-IsBalanced =
        OnSome-if (IsBalanced size) (p.pushed == 0) _ _ (λ z. tt)
          λ z. record {
            slots = b.slots;
            announced = ground (arith, z, b.announced);
            unanswered = b.unanswered;
          }

    take-IsBalanced : (batch_size : ℕ) → OnSome (IsBalanced size) (take Item batch_size p)
    unfolding take
    take-IsBalanced batch_size =
        on_option (λ w. w.0 + w.1 ≡ p.empty) (IsBalanced size) (wait batch_size p.empty) _
          (wait-Takes batch_size p.empty)
          λ w h.
            OnSome-if (IsBalanced size) (p.fetch + p.popped + length p.batch == 0) _ _
              (λ z. record {
                slots = b.slots;
                announced = ground (arith, h, z, b.announced);
                unanswered = b.unanswered;
              })
              (λ z. tt)

    release-IsBalanced : OnSome (IsBalanced size) (release Item p)
    unfolding release
    release-IsBalanced =
        OnSome-if (IsBalanced size) (p.fetch == 0) _ _
          (λ z. record {
            slots = omega (arith, b.slots);
            announced = b.announced;
            unanswered = b.unanswered;
          })
          (λ z. tt)

    request-IsBalanced : (throws : Bool) → OnSome (IsBalanced size) (request Item throws p)
    unfolding request
    request-IsBalanced true =
        OnSome-if (IsBalanced size) (p.fetch + p.popped == 0) _ _
          (λ z. record {
            slots = b.slots;
            announced = b.announced;
            unanswered = omega (arith, b.unanswered, length-append p.lost p.batch);
          })
          (λ z. tt)
    request-IsBalanced false =
        OnSome-if (IsBalanced size) (p.fetch + p.popped == 0) _ _
          (λ z. record {
            slots = b.slots;
            announced = b.announced;
            unanswered = omega (arith, b.unanswered, total-append p.in_flight p.batch);
          })
          (λ z. tt)

    evaluate_cb-IsBalanced : (i : ℕ) → OnSome (IsBalanced size) (evaluate_cb Item i p)
    unfolding evaluate_cb
    evaluate_cb-IsBalanced i =
        on_option (λ r. total p.in_flight ≡ length r.0 + total r.1) (IsBalanced size)
          (pick i p.in_flight) _ (pick-total i p.in_flight)
          λ r h. record {
            slots = b.slots;
            announced = b.announced;
            unanswered = omega (arith, h, b.unanswered);
          }

    failure_cb-IsBalanced : (i : ℕ) → OnSome (IsBalanced size) (failure_cb Item i p)
    unfolding failure_cb
    failure_cb-IsBalanced i =
        on_option (λ r. total p.in_flight ≡ length r.0 + total r.1) (IsBalanced size)
          (pick i p.in_flight) _ (pick-total i p.in_flight)
          λ r h. record {
            slots = b.slots;
            announced = b.announced;
            unanswered = omega (arith, h, b.unanswered);
          }

    -- The queue is never popped while it is empty.
    pop_item-IsBalanced : Returns (OnSome (IsBalanced size)) (pop_item Item p)
    unfolding pop_item
    pop_item-IsBalanced = elim (Bool-cases (p.fetch == 0)) [
      | inl z ↦ rw z tt
      | inr z ↦ rw z (popped p.send_queue z (ground (arith, z, b.announced)) refl)
    ]
      where
        popped :
            (xs : List Item)
            → (p.fetch == 0) ≡ false
            → 0 < length xs
            → xs ≡ p.send_queue
            → Returns (OnSome (IsBalanced size)) (elim xs [
              | [] ↦ err bad_index
              | x ∷ rest ↦ ok (
                  some (record p {
                    send_queue = rest;
                    fetch = p.fetch - 1;
                    popped = p.popped + 1;
                    batch = p.batch ++ x ∷ [];
                  }))
            ])
        popped [] z l e = absurd (omega arith)
        popped (x ∷ rest) z l e =
            let size_of : suc (length rest) ≡ length p.send_queue = ap length e in
            record {
              slots = omega (arith, size_of, b.slots);
              announced = ground (arith, size_of, b.announced, z);
              unanswered = omega (arith, size_of, b.unanswered, length-append p.batch (x ∷ []));
            }

    act-IsBalanced :
        (batch_size : ℕ) (a : Action Item)
        → Returns (OnSome (IsBalanced size)) (act Item batch_size a p)
    unfolding act
    act-IsBalanced batch_size (eval_wait i) = reserve-IsBalanced i
    act-IsBalanced batch_size (eval_push i) = push_item-IsBalanced i
    act-IsBalanced batch_size eval_notify = announce-IsBalanced
    act-IsBalanced batch_size take_fetch = take-IsBalanced batch_size
    act-IsBalanced batch_size pop_front = pop_item-IsBalanced
    act-IsBalanced batch_size notify_full = release-IsBalanced
    act-IsBalanced batch_size send = request-IsBalanced false
    act-IsBalanced batch_size send_throws = request-IsBalanced true
    act-IsBalanced batch_size (answer i) = evaluate_cb-IsBalanced i
    act-IsBalanced batch_size (fail i) = failure_cb-IsBalanced i

  abbrev pub Runs : ℕ → Pipe Item → Type 0
  Runs size q = IsBalanced size q × (length q.reserved + length q.send_queue ≤ size)

  -- Every run from balanced semaphores returns, so that the queue is never popped while it is empty, and
  -- leaves them balanced with at most `size` requests in the queue and on their way into it.
  pub run_all-IsBalanced :
      (size batch_size : ℕ) (as' : List (Action Item)) (p : Pipe Item)
      → IsBalanced size p
      → Returns (Runs size) (run_all Item batch_size as' p)
  unfolding run_all
  run_all-IsBalanced size batch_size [] p b = (b, omega (arith, b.slots))
  run_all-IsBalanced size batch_size (a ∷ rest) p b =
      Returns-bind (OnSome (IsBalanced size)) (Runs size) (act Item batch_size a p) _
        (act-IsBalanced size p b batch_size a)
        λ o s. next o s (λ q c. run_all-IsBalanced size batch_size rest q c)
    where
      next :
          (o : Option (Pipe Item))
          → OnSome (IsBalanced size) o
          → ((q : Pipe Item)
              → IsBalanced size q
              → Returns (Runs size) (run_all Item batch_size rest q))
          → Returns (Runs size) (elim o [
            | none ↦ run_all Item batch_size rest p
            | some q ↦ run_all Item batch_size rest q
          ])
      next none s k = k p b
      next (some q) s k = k q s

  -- The pipe begins balanced.
  pub new_pipe-IsBalanced :
      (size : ℕ) (callers : List Item) → IsBalanced size (new_pipe Item size callers)
  unfolding new_pipe
  new_pipe-IsBalanced size callers = record {
    slots = omega arith;
    announced = refl;
    unanswered = refl;
  }
