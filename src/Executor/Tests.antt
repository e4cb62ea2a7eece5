-- ===== src/Executor/Tests.antt =====
-- A pool of two threads, three tasks, and a fourth behind shutdown. A task is a number.
use estar_go.Base.{ℕ, ◌≡◌, refl, true, false, List, [], ◌∷◌}
use estar_go.Executor.{
  Action, running, testing, new_executor, commit, shutdown, set_exit, test_exit, get_task, end_task,
  run_actions,
}
use estar_go.Executor.Order.{IsServing, run_actions-IsServing}

abbrev busy : List (Action ℕ)
busy =
    set_exit false
    ∷ commit 5
    ∷ commit 6
    ∷ test_exit 0
    ∷ get_task 0
    ∷ commit 7
    ∷ test_exit 1
    ∷ get_task 0
    ∷ shutdown
    ∷ commit 8
    ∷ end_task 0
    ∷ []

busy_runs : run_actions ℕ busy (new_executor ℕ 2 true) ≡ record {
  pool = testing ∷ running 5 ∷ [];
  task_queue = 7 ∷ [];
  stop = true;
  exit = false;
  accepted = 5 ∷ 6 ∷ 7 ∷ [];
  refused = 8 ∷ [];
  begun = 5 ∷ 6 ∷ [];
  finished = 6 ∷ [];
}
unfolding run_actions new_executor
busy_runs = refl

run_actions-IsServing_example : IsServing ℕ 2 busy (run_actions ℕ busy (new_executor ℕ 2 true))
run_actions-IsServing_example = run_actions-IsServing ℕ 2 true busy
