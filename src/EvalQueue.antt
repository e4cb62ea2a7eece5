-- ===== src/EvalQueue.antt =====
-- include/EvalQueue.h: EvalCycleQueue, a ring of fixed size, and EvalQueue, a queue without bound.
-- Each method holds the queue's mutex from start to end, so it is one step. `head_` and `tail_` are
-- -1 or an index: `none` is -1. An index outside `data_list_` is `err bad_index`.
pub mod Contents
pub mod Refine
pub mod Runs
mod Tests
use estar_go.Base.{
  ℕ, zero, suc, ◌+◌, ◌-◌, ◌≤◌, ◌<◌, List, [], ◌∷◌, ◌++◌, Option, none, some, Bool, true, false,
  Result, ok, err, bad_index, leb, ltb, ◌==◌, if◌then◌else◌, get_elem?, set, take, replicate,
  length, ◌>>=◌,
}

pub record CycleQueue {ℓ} (A : Type ℓ) : Type ℓ where
  pub data_list : List A
  pub queue_size : ℕ
  pub head : Option ℕ
  pub tail : Option ℕ

-- next = i + 1; if (next >= queue_size_) next -= queue_size_;
abbrev pub next_index : ℕ → ℕ → ℕ
next_index size i = if leb size (i + 1) then i + 1 - size else i + 1

abbrev pub same_index : Option ℕ → Option ℕ → Bool
same_index none none = true
same_index (some i) (some j) = i == j
same_index _ _ = false

module _ {ℓ} {A : Type ℓ} where
  -- data_list_[i] = v
  pub write_at : List A → ℕ → A → Result (List A)
  write_at xs i v = if ltb i (length xs) then ok (set xs i v) else err bad_index

  pub read_at : List A → ℕ → Result A
  read_at xs i = elim (get_elem? xs i) [ none ↦ err bad_index | some v ↦ ok v ]

  -- vector::resize
  pub resize : A → ℕ → List A → List A
  resize d n xs = take n xs ++ replicate (n - length xs) d

  pub set_size : A → CycleQueue A → ℕ → CycleQueue A
  unfolding resize
  set_size d q size = elim q.head [
    | none ↦ record {
      data_list = resize d size q.data_list;
      queue_size = size;
      head = none;
      tail = none;
    }
    | some h ↦ q
  ]

  -- The constructor.
  pub new_queue : A → ℕ → CycleQueue A
  unfolding set_size
  new_queue d size =
      set_size d (record { data_list = []; queue_size = 0; head = none; tail = none }) size

  -- The copy constructor: the three fields are what the memory held.
  pub copy_cycle_queue : ℕ → Option ℕ → Option ℕ → CycleQueue A → CycleQueue A
  copy_cycle_queue size head tail other = record {
    data_list = other.data_list;
    queue_size = size;
    head = head;
    tail = tail;
  }

  pub try_push : CycleQueue A → A → Result (Bool × CycleQueue A)
  unfolding write_at
  try_push q v = elim q.head [
    | none ↦
        (write_at q.data_list 0 v >>= λ xs.
        ok (true, record q { data_list = xs; head = some 0; tail = some 0 }))
    | some h ↦
        let t : ℕ = elim q.tail [ none ↦ 0 | some i ↦ next_index q.queue_size i ] in
        if t == h
        then ok (false, q)
        else (write_at q.data_list t v >>= λ xs.
            ok (true, record q { data_list = xs; tail = some t }))
  ]

  -- The value is `none` where `value` is left as it was.
  pub try_pop : CycleQueue A → Result (Option A × CycleQueue A)
  unfolding read_at
  try_pop q = elim q.head [
    | none ↦ ok (none, q)
    | some h ↦
        if same_index (some h) q.tail
        then (read_at q.data_list h >>= λ v. ok (some v, record q { head = none; tail = none }))
        else (read_at q.data_list h >>= λ v.
            ok (some v, record q { head = some (next_index q.queue_size h) }))
  ]

  pub cycle_empty : CycleQueue A → Bool
  cycle_empty q = elim q.head [ none ↦ true | some h ↦ false ]

  -- EvalQueue's copy constructor.
  pub copy_queue : List A → List A
  copy_queue other = other

  -- EvalQueue over std::queue: Push, TryPop, Empty; WaitAndPop runs TryPop's body once the queue is
  -- not empty (`none` while it waits).
  pub push : List A → A → List A
  push q v = q ++ v ∷ []

  pub pop : List A → Option A × List A
  pop [] = (none, [])
  pop (v ∷ q) = (some v, q)

  pub queue_empty : List A → Bool
  queue_empty [] = true
  queue_empty (v ∷ q) = false

  pub wait_and_pop : List A → Option (A × List A)
  wait_and_pop [] = none
  wait_and_pop (v ∷ q) = some (v, q)
