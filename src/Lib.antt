-- ===== src/Lib.antt =====
-- EstarGo: a Go program that searches with Monte Carlo tree search over a board kept by pachi, asks a
-- remote network for policies and values, and speaks GTP.
--
-- The parts. Gtp.cpp reads commands and calls MCTSPlayer.cpp, which holds the board (GoBoard.cpp)
-- and the tree (MCTSTree.cpp) and runs the rollouts. A rollout copies the board, goes down the tree,
-- asks the evaluator (PolicyValueEvaluatorClient.cpp) for the leaf and goes back up. The evaluator
-- collects requests in a queue behind two semaphores and sends them in batches. The settings
-- (Config.cpp) are read by the INI reader (INIReader.cpp). The queues of EvalQueue.h and the
-- symmetries of Symmetry.h are parts that the search includes and does not call.
--
-- The files:
--   * Base, with Base/Lists, Base/Picks, Base/Results, Base/Tests, Base/Texts, Base/Int and Base/Floats: shared
--     names, and what the models share. `Result` is a value or the way in which the code stops: an exception, a
--     null pointer dereferenced, an access behind an array, an unset buffer, a division by zero,
--     exit(), an assertion, or the end of the fuel (`hung`). `Returns P r` says that `r` is a value that has
--     P, `OnOk P r` that it has P if it is a value. `Floats` is the floating-point type, a parameter with
--     the operations of the code and no laws.
--   * Ini: src/utils/INIReader.cpp and include/utils/INIReader.h; the reader's state is its lines and
--     its index of headers. Open, Entries, Write and Values are about its operations; Save has the stream.
--   * Config: src/Config.cpp and include/utils/Config.h, Sinit.
--   * EvalQueue: include/EvalQueue.h, the cycle queue and the guarded queue. Contents gives the items of a
--     ring, Refine and Runs compare it with a bounded queue.
--   * GoBoard: src/GoBoard.cpp and include/GoBoard.h. pachi is the parameter record `Pachi`, with no laws.
--     Moves, Replay and Window are about moves, histories and the window of hashes.
--   * Symmetry: include/Symmetry.h; Inverse and History.
--   * MctsTree: src/MCTSTree.cpp and include/MCTSTree.h. The nodes live in a list and pointers are
--     indexes. Backup is about mcts_back_update; Descent models both descents, and its modules Choose, Marks
--     and Step are about the choice of a child, the marks and a step, Order and Ends about its end, and Loss
--     about the virtual loss that a descent lends and the backup gives back.
--   * MctsTree/Select: mcts_select_action; Rounds and Visits are about the child that it chooses.
--   * MctsTree/SelfPlay: selfplay_select_action; Labels is about the policy and its entropy,
--     Chosen and Answer about the move.
--   * MctsTree/Info: TreeInfo and collect_tree_info; Tally has the nodes that are counted, Sums their numbers,
--     Ends the end of the recursion. The fuel bounds the calls within each other.
--   * Evaluator: src/PolicyValueEvaluatorClient.cpp, its header, and the Semaphore of include/Utils.h, with
--     the queue, the semaphores and the requests as a state, and the parts of the threads' code between
--     two waits as actions in any order. Balance is about the semaphores, Requests about what becomes of
--     the requests.
--     Async has use_asyn_request: the open requests' limit, the dummy requests, failed batches and Stop.
--     Async/Steady is about what adds up in every run, Async/Progress about the way to the last answer,
--     Async/Faults about what stops the client. Sync is SyncRequest.
--   * Latency: include/Latency.h, Record by several threads; Totals.
--   * Executor: include/utils/Executor.h, the pool of threads; Order.
--   * Gtp: src/Gtp.cpp and include/Gtp.h, the commands, on a line of text and the player. Words is about
--     the buffers, Players about the player that is held.
--   * Player: include/MCTSPlayer.h and src/MCTSPlayer.cpp, the player's state. TimePolicy is
--     est_timeout_rollout and cal_rollout_speed, Moves is play and gen_apply_move, and Rollout is the search
--     of one thread as a sequence of turns and of the evaluator's answers. Replies is the end of rollout
--     with the server: the latencies of the proxies, counted and cleared. Sample is a player for the
--     examples.
--
-- The bounds. A char is its code from 0 to 255, taken as signed where the code computes with it; an
-- int is an integer without bound, since none of the counts modelled comes near to 2^31. The loops
-- that follow pointers run on fuel, and `hung` is the end of it: the backup is shown to end with
-- fuel of one more than the index of its node, as fathers stand before their children, and the
-- descent with as much fuel as there are nodes.
--
-- Not modelled: the interleavings of the search threads on the tree's atomics, the printing of a tree
-- (dump_best_move, dump_all_move), the random numbers of Utils.h, the log, the processes and the set-up of
-- the Ice connection, the generated code of Ice, and pachi, which is a copy of another project.
pub mod Base
pub mod Ini
pub mod Config
pub mod EvalQueue
pub mod GoBoard
pub mod Symmetry
pub mod MctsTree
pub mod Player
pub mod Gtp
pub mod Evaluator
pub mod Latency
pub mod Executor
