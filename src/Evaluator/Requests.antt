-- ===== src/Evaluator/Requests.antt =====
-- What becomes of the requests in src/PolicyValueEvaluatorClient.cpp.
use estar_go.Base.{
  OnSome, OnSome-if, on_option, pick, ℕ, zero, suc, ◌+◌, ◌-◌, ◌≡◌, refl, ap, ◌∙◌, Bool, true, false,
  List, [], ◌∷◌, ◌++◌, Option, none, some, ok, err, bad_index, OnOk, OnOk-bind, OnOk-map, OnOk-if,
  ◌==◌, length, arith,
}
use estar_go.Evaluator.{
  Pipe, Action, wait, reserve, push_item, announce, take, pop_item, release, request, evaluate_cb,
  failure_cb, act, run_all, eval_wait, eval_push, eval_notify, take_fetch, pop_front, notify_full,
  send, send_throws, answer, fail,
}

module _ (Item : Type 0) (weigh : Item → ℕ) where
  -- The sum of the items' weights. A weight that is 1 for the items of one request counts its places.
  abbrev pub sum : List Item → ℕ
  sum [] = 0
  sum (x ∷ xs) = weigh x + sum xs

  abbrev pub sums : List (List Item) → ℕ
  sums [] = 0
  sums (b ∷ bs) = sum b + sums bs

  -- All the places that a request can be in.
  abbrev pub held : Pipe Item → ℕ
  held p =
      sum p.callers
      + sum p.reserved
      + sum p.send_queue
      + sum p.batch
      + sums p.in_flight
      + sum p.lost
      + sum p.answered

  sum-append : (xs ys : List Item) → sum (xs ++ ys) ≡ sum xs + sum ys
  sum-append [] ys = omega arith
  sum-append (x ∷ xs) ys = omega (arith, sum-append xs ys)

  sums-append : (bs : List (List Item)) (b : List Item) → sums (bs ++ b ∷ []) ≡ sums bs + sum b
  sums-append [] b = omega arith
  sums-append (c ∷ bs) b = omega (arith, sums-append bs b)

  pick-sum : (i : ℕ) (xs : List Item) → OnSome (λ r. sum xs ≡ weigh r.0 + sum r.1) (pick i xs)
  unfolding pick
  pick-sum i [] = tt
  pick-sum zero (x ∷ xs) = refl
  pick-sum (suc i) (x ∷ xs) =
      on_option (λ r. sum xs ≡ weigh r.0 + sum r.1) (λ r. sum (x ∷ xs) ≡ weigh r.0 + sum r.1)
        (pick i xs) _ (pick-sum i xs) λ r h. omega (arith, h)

  pick-sums :
      (i : ℕ) (bs : List (List Item)) → OnSome (λ r. sums bs ≡ sum r.0 + sums r.1) (pick i bs)
  unfolding pick
  pick-sums i [] = tt
  pick-sums zero (b ∷ bs) = refl
  pick-sums (suc i) (b ∷ bs) =
      on_option (λ r. sums bs ≡ sum r.0 + sums r.1) (λ r. sums (b ∷ bs) ≡ sum r.0 + sums r.1)
        (pick i bs) _ (pick-sums i bs) λ r h. omega (arith, h)

  any_some : {A : Type 0} (o : Option A) → OnSome (λ a. Unit {0}) o
  any_some none = tt
  any_some (some a) = tt

  module _ (p : Pipe Item) where
    abbrev Keeps : Pipe Item → Type 0
    Keeps q = held q ≡ held p

    reserve-Keeps : (i : ℕ) → OnSome Keeps (reserve Item i p)
    unfolding reserve
    reserve-Keeps i =
        on_option (λ c. sum p.callers ≡ weigh c.0 + sum c.1) Keeps (pick i p.callers) _
          (pick-sum i p.callers)
          λ c h.
            on_option (λ w. Unit {0}) Keeps (wait 1 p.full) _ (any_some (wait 1 p.full))
              λ w x. omega (arith, h, sum-append p.reserved (c.0 ∷ []))

    push_item-Keeps : (i : ℕ) → OnSome Keeps (push_item Item i p)
    unfolding push_item
    push_item-Keeps i =
        on_option (λ c. sum p.reserved ≡ weigh c.0 + sum c.1) Keeps (pick i p.reserved) _
          (pick-sum i p.reserved) λ c h. omega (arith, h, sum-append p.send_queue (c.0 ∷ []))

    announce-Keeps : OnSome Keeps (announce Item p)
    unfolding announce
    announce-Keeps = OnSome-if Keeps (p.pushed == 0) _ _ (λ z. tt) (λ z. refl)

    take-Keeps : (batch_size : ℕ) → OnSome Keeps (take Item batch_size p)
    unfolding take
    take-Keeps batch_size =
        on_option (λ w. Unit {0}) Keeps (wait batch_size p.empty) _
          (any_some (wait batch_size p.empty))
          λ w x.
            OnSome-if Keeps (p.fetch + p.popped + length p.batch == 0) _ _ (λ z. refl) (λ z. tt)

    release-Keeps : OnSome Keeps (release Item p)
    unfolding release
    release-Keeps = OnSome-if Keeps (p.fetch == 0) _ _ (λ z. refl) (λ z. tt)

    request-Keeps : (throws : Bool) → OnSome Keeps (request Item throws p)
    unfolding request
    request-Keeps true =
        OnSome-if Keeps (p.fetch + p.popped == 0) _ _
          (λ z. omega (arith, sum-append p.lost p.batch)) (λ z. tt)
    request-Keeps false =
        OnSome-if Keeps (p.fetch + p.popped == 0) _ _
          (λ z. omega (arith, sums-append p.in_flight p.batch)) (λ z. tt)

    evaluate_cb-Keeps : (i : ℕ) → OnSome Keeps (evaluate_cb Item i p)
    unfolding evaluate_cb
    evaluate_cb-Keeps i =
        on_option (λ r. sums p.in_flight ≡ sum r.0 + sums r.1) Keeps (pick i p.in_flight) _
          (pick-sums i p.in_flight) λ r h. omega (arith, h, sum-append p.answered r.0)

    failure_cb-Keeps : (i : ℕ) → OnSome Keeps (failure_cb Item i p)
    unfolding failure_cb
    failure_cb-Keeps i =
        on_option (λ r. sums p.in_flight ≡ sum r.0 + sums r.1) Keeps (pick i p.in_flight) _
          (pick-sums i p.in_flight) λ r h. omega (arith, h, sum-append p.callers r.0)

    pop_item-Keeps : OnOk (OnSome Keeps) (pop_item Item p)
    unfolding pop_item
    pop_item-Keeps =
        OnOk-if (OnSome Keeps) (p.fetch == 0) (ok none) _ (λ z. tt) (λ z. popped p.send_queue refl)
      where
        popped :
            (xs : List Item)
            → xs ≡ p.send_queue
            → OnOk (OnSome Keeps) (elim xs [
              | [] ↦ err bad_index
              | x ∷ rest ↦ ok (
                  some (record p {
                    send_queue = rest;
                    fetch = p.fetch - 1;
                    popped = p.popped + 1;
                    batch = p.batch ++ x ∷ [];
                  }))
            ])
        popped [] e = tt
        popped (x ∷ rest) e =
            let size_of : weigh x + sum rest ≡ sum p.send_queue = ap sum e in
            omega (arith, size_of, sum-append p.batch (x ∷ []))

    act-Keeps : (batch_size : ℕ) (a : Action Item) → OnOk (OnSome Keeps) (act Item batch_size a p)
    unfolding act
    act-Keeps batch_size (eval_wait i) = reserve-Keeps i
    act-Keeps batch_size (eval_push i) = push_item-Keeps i
    act-Keeps batch_size eval_notify = announce-Keeps
    act-Keeps batch_size take_fetch = take-Keeps batch_size
    act-Keeps batch_size pop_front = pop_item-Keeps
    act-Keeps batch_size notify_full = release-Keeps
    act-Keeps batch_size send = request-Keeps false
    act-Keeps batch_size send_throws = request-Keeps true
    act-Keeps batch_size (answer i) = evaluate_cb-Keeps i
    act-Keeps batch_size (fail i) = failure_cb-Keeps i

  -- Every run keeps the requests: for any weight of them, the sum over the callers, the queue, the batches
  -- on their way, those that an exception lost and those that were answered is what it was.
  pub run_all-held :
      (batch_size : ℕ) (as' : List (Action Item)) (p : Pipe Item)
      → OnOk (λ q. held q ≡ held p) (run_all Item batch_size as' p)
  unfolding run_all
  run_all-held batch_size [] p = refl
  run_all-held batch_size (a ∷ rest) p =
      OnOk-bind (OnSome (λ q. held q ≡ held p)) (λ q. held q ≡ held p) (act Item batch_size a p) _
        (act-Keeps p batch_size a) λ o s. next o s (λ q. run_all-held batch_size rest q)
    where
      next :
          (o : Option (Pipe Item))
          → OnSome (λ q. held q ≡ held p) o
          → ((q : Pipe Item) → OnOk (λ r. held r ≡ held q) (run_all Item batch_size rest q))
          → OnOk
              (λ r. held r ≡ held p)
              (elim o [
                | none ↦ run_all Item batch_size rest p
                | some q ↦ run_all Item batch_size rest q
              ])
      next none s k = k p
      next (some q) s k =
          OnOk-map (λ r. held r ≡ held q) (λ r. held r ≡ held p) (run_all Item batch_size rest q)
            (λ r h. h ∙ s) (k q)
