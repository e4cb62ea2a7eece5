-- ===== src/EvalQueue/Runs.antt =====
-- Whole histories of a ring. The mutex makes each call one step, so that what the threads do is some
-- sequence of calls.
use estar_go.Base.{
  ℕ, ◌-◌, ◌<◌, ◌≡◌, refl, List, [], ◌∷◌, Option, Bool, arith, length, length-append, length-take,
  length-replicate, replicate, take, Result, ok, Returns, Returns-bind, sym, ◌>>=◌,
}
use estar_go.EvalQueue.{CycleQueue, try_push, try_pop, pop, new_queue, resize}
use estar_go.EvalQueue.Contents.{IsValid, contents}
use estar_go.EvalQueue.Refine.{bounded_push, try_push-Pushed, try_pop-Popped}

pub data Call (A : Type 0) : Type 0 where
  pushes : A → Call A
  pops : Call A

-- What a call gives its caller.
pub data Reply (A : Type 0) : Type 0 where
  pushed : Bool → Reply A
  popped : Option A → Reply A

module _ {A : Type 0} where
  pub step : CycleQueue A → Call A → Result (Reply A × CycleQueue A)
  step q (pushes v) = try_push q v >>= λ r. ok (pushed r.0, r.1)
  step q pops = try_pop q >>= λ r. ok (popped r.0, r.1)

  pub run : CycleQueue A → List (Call A) → Result (List (Reply A) × CycleQueue A)
  unfolding step
  run q [] = ok ([], q)
  run q (c ∷ cs) = step q c >>= λ r. run r.1 cs >>= λ s. ok (r.0 ∷ s.0, s.1)

  -- The same calls on a queue of at most `cap` items.
  pub bounded_step : ℕ → List A → Call A → Reply A × List A
  unfolding pop
  bounded_step cap q (pushes v) = let (b, q') = bounded_push cap q v in (pushed b, q')
  bounded_step cap q pops = let (o, q') = pop q in (popped o, q')

  pub bounded_run : ℕ → List A → List (Call A) → List (Reply A) × List A
  unfolding bounded_step
  bounded_run cap q [] = ([], q)
  bounded_run cap q (c ∷ cs) =
      let (reply, q') = bounded_step cap q c in
      let (replies, q'') = bounded_run cap q' cs in (reply ∷ replies, q'')

length-resize {ℓ} : {A : Type ℓ} (d : A) (n : ℕ) (xs : List A) → length (resize d n xs) ≡ n
unfolding resize
length-resize d n xs = omega (
  arith,
  length-append (take n xs) (replicate (n - length xs) d),
  length-take n xs,
  length-replicate (n - length xs) d,
)

module _ {A : Type 0} (d : A) where
  abbrev Steps : ℕ → List A → Call A → Reply A × CycleQueue A → Type 0
  Steps size q c r =
      ((r.0, contents d r.1) ≡ bounded_step size q c) × IsValid r.1 × (r.1.queue_size ≡ size)

  step-Steps :
      (q : CycleQueue A) (c : Call A)
      → IsValid q
      → Returns (Steps q.queue_size (contents d q) c) (step q c)
  unfolding step bounded_step
  step-Steps q (pushes v) w = ground (arith, try_push-Pushed d q v w)
  step-Steps q pops w = ground (arith, try_pop-Popped d q w)

  abbrev Runs : ℕ → List A → List (Call A) → List (Reply A) × CycleQueue A → Type 0
  Runs size q cs r = ((r.0, contents d r.1) ≡ bounded_run size q cs) × IsValid r.1

  run_from :
      (size : ℕ) (q : CycleQueue A) (cs : List (Call A))
      → size ≡ q.queue_size
      → IsValid q
      → Returns (Runs size (contents d q) cs) (run q cs)
  unfolding run bounded_run
  run_from size q [] e w = (refl, w)
  run_from size q (c ∷ cs) e w =
      Returns-bind (Steps size (contents d q) c) _ (step q c) _ (rw e (step-Steps q c w)) λ r s.
        Returns-bind (Runs size (contents d r.1) cs) _ (run r.1 cs) _
          (run_from size r.1 cs (sym s.2) s.1) λ t u. ground (arith, s, u)

  -- No history of TryPush and TryPop tells a valid ring from the bounded queue of its items, and no
  -- call in it leaves the storage.
  pub run-Returns :
      (q : CycleQueue A) (cs : List (Call A))
      → IsValid q
      → Returns
          (λ r. ((r.0, contents d r.1) ≡ bounded_run q.queue_size (contents d q) cs) × IsValid r.1)
          (run q cs)
  run-Returns q cs w = run_from q.queue_size q cs refl w

  -- The constructor gives a valid, empty ring for every size from 1 on.
  pub new_queue-IsValid :
      (size : ℕ)
      → 0 < size
      → IsValid (new_queue d size)
        × (contents d (new_queue d size) ≡ [])
        × ((new_queue d size).queue_size ≡ size)
  unfolding new_queue
  new_queue-IsValid size h = ground (arith, length-resize d size [])
