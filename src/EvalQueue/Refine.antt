-- ===== src/EvalQueue/Refine.antt =====
-- TryPush and TryPop of include/EvalQueue.h against a bounded queue.
use estar_go.Base.{
  ℕ, ◌<◌, ◌≡◌, List, [], ◌∷◌, ◌++◌, Option, none, some, Bool, true, false, arith, if◌then◌else◌,
  ◌==◌, length, length-set, get_elem?-eq-get_or, Returns,
}
use estar_go.EvalQueue.{CycleQueue, next_index, try_push, try_pop, pop}
use estar_go.EvalQueue.Contents.{
  IsValid, InRange, contents, window-set, window_pos, length-window, span, items,
}

module _ {A : Type 0} where
  -- The queue of at most `cap` items.
  abbrev pub bounded_push : ℕ → List A → A → Bool × List A
  bounded_push cap q v = if length q == cap then (false, q) else (true, q ++ v ∷ [])

  abbrev ring : List A → ℕ → Option ℕ → Option ℕ → CycleQueue A
  ring xs size h t = record { data_list = xs; queue_size = size; head = h; tail = t }

module _ {A : Type 0} (d : A) where
  -- What a push has to return at a ring that holds `q` items.
  abbrev Pushed : ℕ → List A → A → Bool × CycleQueue A → Type 0
  Pushed size q v r =
      ((r.0, contents d r.1) ≡ bounded_push size q v) × IsValid r.1 × (r.1.queue_size ≡ size)

  abbrev Popped : ℕ → List A → Option A × CycleQueue A → Type 0
  Popped size q r = ((r.0, contents d r.1) ≡ pop q) × IsValid r.1 × (r.1.queue_size ≡ size)

  push-Pushed :
      (xs : List A) (size : ℕ) (h t : Option ℕ) (v : A)
      → 0 < size
      → length xs ≡ size
      → InRange size h t
      → Returns (Pushed size (items d xs size h t) v) (try_push (ring xs size h t) v)
  unfolding try_push
  push-Pushed xs size none none v p l r =
      ground (arith, length-set xs 0 v, window-set d xs size v 0 0 0 l p)
  push-Pushed xs size none (some t) v p l r = absurd r
  push-Pushed xs size (some h) none v p l r = absurd r
  push-Pushed xs size (some h) (some t) v p l (hh, ht) = ground (
    arith,
    length-window d xs size h (span size h t),
    length-set xs (next_index size t) v,
    window-set d xs size v (span size h t) h (next_index size t) l hh,
  )

  pop-Popped :
      (xs : List A) (size : ℕ) (h t : Option ℕ)
      → 0 < size
      → length xs ≡ size
      → InRange size h t
      → Returns (Popped size (items d xs size h t)) (try_pop (ring xs size h t))
  unfolding try_pop pop
  pop-Popped xs size none none p l r = ground arith
  pop-Popped xs size none (some t) p l r = absurd r
  pop-Popped xs size (some h) none p l r = absurd r
  pop-Popped xs size (some h) (some t) p l (hh, ht) =
      ground (arith, get_elem?-eq-get_or xs h d, window_pos d xs size h (span size h t))

  pub try_push-Pushed :
      (q : CycleQueue A) (v : A)
      → IsValid q
      → Returns
          (λ r.
            ((r.0, contents d r.1) ≡ bounded_push q.queue_size (contents d q) v)
            × IsValid r.1
            × (r.1.queue_size ≡ q.queue_size))
          (try_push q v)
  try_push-Pushed q v w =
      push-Pushed q.data_list q.queue_size q.head q.tail v w.positive w.storage w.in_range

  -- TryPop likewise: it gives the oldest item, if there is one, and leaves the others.
  pub try_pop-Popped :
      (q : CycleQueue A)
      → IsValid q
      → Returns
          (λ r.
            ((r.0, contents d r.1) ≡ pop (contents d q))
            × IsValid r.1
            × (r.1.queue_size ≡ q.queue_size))
          (try_pop q)
  try_pop-Popped q w =
      pop-Popped q.data_list q.queue_size q.head q.tail w.positive w.storage w.in_range
