-- ===== src/Executor/Order.antt =====
-- What include/utils/Executor.h promises of its tasks.
use estar_go.Base.{
  ℕ, zero, suc, ◌+◌, ◌≡◌, refl, sym, ap, ◌∙◌, Bool, true, false, List, [], ◌∷◌, ◌++◌, append_assoc,
  Option, none, some, if◌then◌else◌, length, ◌==◌, arith, sum_by, sum_by-append, IsSplit,
  IsSplit-length, on_pick-OnSome, OnSome, Bool-cases, inl, inr,
}
use estar_go.Executor.{
  Worker, Executor, Action, testing, waiting, ended, running, new_pool, new_executor, commit,
  shutdown, restart, set_exit, test_exit, get_task, end_task, commit_task, test, get, end_run, act,
  run_actions, or_idle, commits,
}

module _ (Task : Type 0) where
  abbrev run_weight : (Task → ℕ) → Worker Task → ℕ
  run_weight f (running t) = f t
  run_weight f _ = 0

  -- The queue is what was accepted and has not begun, in order; each task that has begun is with one thread of
  -- the pool or has finished; nothing asked for was lost.
  pub record IsOrdered (size : ℕ) (e : Executor Task) : Type 0 where
    pub order : e.begun ++ e.task_queue ≡ e.accepted
    pub once :
        (f : Task → ℕ) → sum_by f e.begun ≡ sum_by f e.finished + sum_by (run_weight f) e.pool
    pub threads : length e.pool ≡ size

  module _ (size : ℕ) (e : Executor Task) (o : IsOrdered size e) where
    commit_task-IsOrdered : (t : Task) → IsOrdered size (commit_task Task t e)
    unfolding commit_task
    commit_task-IsOrdered t = elim (Bool-cases e.stop) [
      | inl s ↦ rw s (record { order = o.order; once = o.once; threads = o.threads })
      | inr s ↦ rw s (record {
        order = sym (append_assoc e.begun e.task_queue (t ∷ [])) ∙ ap (λ q. q ++ t ∷ []) o.order;
        once = o.once;
        threads = o.threads;
      })
    ]

    test-IsOrdered :
        (w : Worker Task) (rest : List (Worker Task))
        → IsSplit e.pool w rest
        → OnSome (IsOrdered size) (test Task w rest e)
    unfolding test
    test-IsOrdered testing rest h = record {
      order = o.order;
      once = λ f. idle f e.exit;
      threads = omega (arith, o.threads, IsSplit-length e.pool testing rest h);
    }
      where
        idle :
            (f : Task → ℕ) (b : Bool)
            → sum_by f e.begun
              ≡ sum_by f e.finished + sum_by (run_weight f) ((if b then ended else waiting) ∷ rest)
        idle f true = omega (arith, o.once f, h (run_weight f))
        idle f false = omega (arith, o.once f, h (run_weight f))
    test-IsOrdered _ rest h = tt

    get-IsOrdered :
        (w : Worker Task) (rest : List (Worker Task))
        → IsSplit e.pool w rest
        → OnSome (IsOrdered size) (get Task w rest e)
    unfolding get
    get-IsOrdered waiting rest h = taken e.task_queue o.order
      where
        taken :
            (q : List Task)
            → e.begun ++ q ≡ e.accepted
            → OnSome (IsOrdered size) (elim q [
              | [] ↦ none
              | t ∷ q ↦
                  some (record e {
                    task_queue = q;
                    pool = running t ∷ rest;
                    begun = e.begun ++ t ∷ [];
                  })
            ])
        taken [] k = tt
        taken (t ∷ q) k = record {
          order = append_assoc e.begun (t ∷ []) q ∙ k;
          once = λ f. omega (arith, o.once f, h (run_weight f), sum_by-append f e.begun (t ∷ []));
          threads = omega (arith, o.threads, IsSplit-length e.pool waiting rest h);
        }
    get-IsOrdered _ rest h = tt

    end_run-IsOrdered :
        (w : Worker Task) (rest : List (Worker Task))
        → IsSplit e.pool w rest
        → OnSome (IsOrdered size) (end_run Task w rest e)
    unfolding end_run
    end_run-IsOrdered (running t) rest h = record {
      order = o.order;
      once = λ f. omega (arith, o.once f, h (run_weight f), sum_by-append f e.finished (t ∷ []));
      threads = omega (arith, o.threads, IsSplit-length e.pool (running t) rest h);
    }
    end_run-IsOrdered _ rest h = tt

    act-IsOrdered : (a : Action Task) → OnSome (IsOrdered size) (act Task a e)
    unfolding act
    act-IsOrdered (commit t) = commit_task-IsOrdered t
    act-IsOrdered shutdown = record { order = o.order; once = o.once; threads = o.threads }
    act-IsOrdered restart = record { order = o.order; once = o.once; threads = o.threads }
    act-IsOrdered (set_exit b) = record { order = o.order; once = o.once; threads = o.threads }
    act-IsOrdered (test_exit i) = on_pick-OnSome (IsOrdered size) i e.pool _ test-IsOrdered
    act-IsOrdered (get_task i) = on_pick-OnSome (IsOrdered size) i e.pool _ get-IsOrdered
    act-IsOrdered (end_task i) = on_pick-OnSome (IsOrdered size) i e.pool _ end_run-IsOrdered

  asked : (Task → ℕ) → Executor Task → ℕ
  asked f e = sum_by f e.accepted + sum_by f e.refused

  abbrev IsSame : Executor Task → Executor Task → Type 0
  IsSame e q = (q.accepted ≡ e.accepted) × (q.refused ≡ e.refused)

  -- The pool's actions leave what was accepted and refused.
  pooled :
      (e : Executor Task) (w : Worker Task) (rest : List (Worker Task))
      → OnSome (IsSame e) (test Task w rest e)
        × OnSome (IsSame e) (get Task w rest e)
        × OnSome (IsSame e) (end_run Task w rest e)
  unfolding test get end_run
  pooled e testing rest = ((refl, refl), tt, tt)
  pooled e waiting rest = (tt, taken e.task_queue, tt)
    where
      taken :
          (q : List Task)
          → OnSome (IsSame e) (elim q [
            | [] ↦ none
            | t ∷ q ↦
                some
                  (record e { task_queue = q; pool = running t ∷ rest; begun = e.begun ++ t ∷ [] })
          ])
      taken [] = tt
      taken (t ∷ q) = (refl, refl)
  pooled e ended rest = (tt, tt, tt)
  pooled e (running t) rest = (tt, tt, (refl, refl))

  asked_same :
      (f : Task → ℕ) (e : Executor Task) (o : Option (Executor Task))
      → OnSome (IsSame e) o
      → asked f (or_idle Task e o) ≡ asked f e + 0
  unfolding asked
  asked_same f e none k = omega arith
  asked_same f e (some q) k = omega (arith, ap (sum_by f) k.0, ap (sum_by f) k.1)

  -- A task that is asked for is accepted or refused, and no other is.
  act-Asked :
      (f : Task → ℕ) (e : Executor Task) (a : Action Task) (rest : List (Action Task))
      → asked f (or_idle Task e (act Task a e)) + sum_by f (commits Task rest)
        ≡ asked f e + sum_by f (commits Task (a ∷ rest))
  unfolding act asked commit_task
  act-Asked f e (commit t) rest = elim (Bool-cases e.stop) [
    | inl s ↦ rw s (omega (arith, sum_by-append f e.refused (t ∷ [])))
    | inr s ↦ rw s (omega (arith, sum_by-append f e.accepted (t ∷ [])))
  ]
  act-Asked f e shutdown rest = refl
  act-Asked f e restart rest = refl
  act-Asked f e (set_exit b) rest = refl
  act-Asked f e (test_exit i) rest = omega (
    arith,
    asked_same f e (act Task (test_exit i) e)
        (on_pick-OnSome (IsSame e) i e.pool _ λ w r h. (pooled e w r).0),
  )
  act-Asked f e (get_task i) rest = omega (
    arith,
    asked_same f e (act Task (get_task i) e)
        (on_pick-OnSome (IsSame e) i e.pool _ λ w r h. (pooled e w r).1),
  )
  act-Asked f e (end_task i) rest = omega (
    arith,
    asked_same f e (act Task (end_task i) e)
        (on_pick-OnSome (IsSame e) i e.pool _ λ w r h. (pooled e w r).2),
  )

  -- What a run of the actions leaves.
  pub record IsServing (size : ℕ) (as' : List (Action Task)) (e : Executor Task) : Type 0 where
    pub ordered : IsOrdered size e
    pub complete :
        (f : Task → ℕ) → sum_by f e.accepted + sum_by f e.refused ≡ sum_by f (commits Task as')

  run_actions-IsOrdered :
      (size : ℕ) (as' : List (Action Task)) (e : Executor Task)
      → IsOrdered size e
      → IsOrdered size (run_actions Task as' e)
  unfolding run_actions
  run_actions-IsOrdered size [] e o = o
  run_actions-IsOrdered size (a ∷ rest) e o =
      run_actions-IsOrdered size rest (or_idle Task e (act Task a e))
        (idle (act Task a e) (act-IsOrdered size e o a))
    where
      idle :
          (m : Option (Executor Task))
          → OnSome (IsOrdered size) m
          → IsOrdered size (or_idle Task e m)
      idle none k = o
      idle (some q) k = k

  run_actions-Asked :
      (f : Task → ℕ) (as' : List (Action Task)) (e : Executor Task)
      → asked f (run_actions Task as' e) ≡ asked f e + sum_by f (commits Task as')
  unfolding run_actions
  run_actions-Asked f [] e = omega arith
  run_actions-Asked f (a ∷ rest) e =
      omega (arith, run_actions-Asked f rest (or_idle Task e (act Task a e)), act-Asked f e a rest)

  new_pool-length : (size : ℕ) → length (new_pool Task size) ≡ size
  unfolding new_pool
  new_pool-length zero = refl
  new_pool-length (suc size) = omega (arith, new_pool-length size)

  new_pool-idle : (f : Task → ℕ) (size : ℕ) → sum_by (run_weight f) (new_pool Task size) ≡ 0
  unfolding new_pool
  new_pool-idle f zero = refl
  new_pool-idle f (suc size) = omega (arith, new_pool-idle f size)

  -- In every run of an executor of `size` threads, at least one, the tasks begin in the order in which they were
  -- accepted, each once, and each that has begun is with one thread or has finished; each that was to be
  -- committed was accepted or refused; the pool keeps its number of threads.
  pub run_actions-IsServing :
      (size : ℕ) (exit : Bool) (as' : List (Action Task))
      → IsServing
          (if size == 0 then 1 else size)
          as'
          (run_actions Task as' (new_executor Task size exit))
  unfolding new_executor asked
  run_actions-IsServing size exit as' =
      let n = if size == 0 then 1 else size in
      record {
        ordered = run_actions-IsOrdered n as' (new_executor Task size exit) (record {
          order = refl;
          once = λ f. omega (arith, new_pool-idle f n);
          threads = new_pool-length n;
        });
        complete = λ f. omega (arith, run_actions-Asked f as' (new_executor Task size exit));
      }
