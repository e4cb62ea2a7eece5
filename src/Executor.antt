-- ===== src/Executor.antt =====
-- include/utils/Executor.h: the task queue, and the threads of the pool that take from it.
mod Order
mod Tests
use estar_go.Base.{
  ℕ, zero, suc, ◌+◌, ◌≡◌, Bool, true, false, List, [], ◌∷◌, ◌++◌, Option, none, some, if◌then◌else◌,
  ◌==◌, pick, on_pick,
}

module _ (Task : Type 0) where
  -- A thread in schedule: before the test of exit; in get_task; in the task; returned.
  pub data Worker : Type 0 where
    testing waiting ended : Worker
    running : Task → Worker

  -- accepted, refused, begun and finished are the tasks in the order in which this befell them.
  pub record Executor : Type 0 where
    pub pool : List Worker
    pub task_queue : List Task
    pub stop : Bool
    pub exit : Bool
    pub accepted : List Task
    pub refused : List Task
    pub begun : List Task
    pub finished : List Task

  pub new_pool : ℕ → List Worker
  new_pool zero = []
  new_pool (suc size) = testing ∷ new_pool size

  -- The constructor up to the threads' start; nothing was written to exit.
  pub new_executor : ℕ → Bool → Executor
  unfolding new_pool
  new_executor size exit = record {
    pool = new_pool (if size == 0 then 1 else size);
    task_queue = [];
    stop = false;
    exit = exit;
    accepted = [];
    refused = [];
    begun = [];
    finished = [];
  }

  -- set_exit: the constructor's last line, with false, and the destructor's, with true.
  pub data Action : Type 0 where
    commit : Task → Action
    shutdown restart : Action
    set_exit : Bool → Action
    test_exit get_task end_task : ℕ → Action

  -- commit: a runtime_error if the executor is stopped, else the task goes to the queue's end.
  pub commit_task : Task → Executor → Executor
  commit_task t e =
      if e.stop
      then record e { refused = e.refused ++ t ∷ [] }
      else record e { task_queue = e.task_queue ++ t ∷ []; accepted = e.accepted ++ t ∷ [] }

  -- One part of schedule, by the chosen thread; the others are `rest`.
  pub test : Worker → List Worker → Executor → Option Executor
  test testing rest e = some (record e { pool = (if e.exit then ended else waiting) ∷ rest })
  test _ rest e = none

  -- get_task, which waits while the queue is empty.
  pub get : Worker → List Worker → Executor → Option Executor
  get waiting rest e = elim e.task_queue [
    | [] ↦ none
    | t ∷ q ↦ some (record e { task_queue = q; pool = running t ∷ rest; begun = e.begun ++ t ∷ [] })
  ]
  get _ rest e = none

  -- The task returns.
  pub end_run : Worker → List Worker → Executor → Option Executor
  end_run (running t) rest e =
      some (record e { pool = testing ∷ rest; finished = e.finished ++ t ∷ [] })
  end_run _ rest e = none

  pub act : Action → Executor → Option Executor
  unfolding commit_task test get end_run pick
  act (commit t) e = some (commit_task t e)
  act shutdown e = some (record e { stop = true })
  act restart e = some (record e { stop = false })
  act (set_exit b) e = some (record e { exit = b })
  act (test_exit i) e = on_pick (λ w rest. test w rest e) (pick i e.pool)
  act (get_task i) e = on_pick (λ w rest. get w rest e) (pick i e.pool)
  act (end_task i) e = on_pick (λ w rest. end_run w rest e) (pick i e.pool)

  abbrev pub or_idle : Executor → Option Executor → Executor
  or_idle e none = e
  or_idle e (some q) = q

  -- A run; an action that cannot happen is passed over.
  pub run_actions : List Action → Executor → Executor
  unfolding act
  run_actions [] e = e
  run_actions (a ∷ rest) e = run_actions rest (or_idle e (act a e))

  -- The tasks that a run is asked to commit, in order.
  abbrev pub commits : List Action → List Task
  commits [] = []
  commits (commit t ∷ rest) = t ∷ commits rest
  commits (_ ∷ rest) = commits rest
