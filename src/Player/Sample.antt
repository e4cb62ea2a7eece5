-- ===== src/Player/Sample.antt =====
-- A player on a small stand-in for pachi, for the tests: its root is evaluated and has one child.
use estar_go.Base.{ℕ, ◌+◌, true, false, [], ◌∷◌, none, some, Text, codes, replicate}
use estar_go.Base.Int.{ℤ, pos}
use estar_go.Base.Floats.{int_floats}
use estar_go.Config.{Config}
use estar_go.GoBoard.{Pachi, GoBoard}
use estar_go.MctsTree.{Node, Edge, new_node}
use estar_go.Player.{Player}

abbrev pub toy : Pachi
toy = record {
  Board = ℕ;
  Score = ℕ;
  new_board = λ komi. 0;
  clear = λ b. 0;
  put_komi = λ komi b. b;
  is_valid_move = λ b s x y. true;
  play = λ b s x y. b + 1;
  hash = λ b. b + 7;
  official_score = λ b. b;
  negate = λ s. s;
  is_nonnegative = λ s. true;
}

abbrev pub sample_config : Config int_floats
sample_config = record {
  model_type = codes "territory";
  virtual_loss = pos 3;
  c_puct = pos 1;
  policy_prob_threshold = pos 2;
  search_threads = pos 1;
  resign_threshold = pos 0;
  pass_threshold = pos 1;
  pass_after_n_moves = pos 200;
  gtp_name = codes "eStarGo";
  gtp_version = codes "1.0.0";
  is_pondering = false;
  is_time_policy = true;
  time_out_ms = pos 5000;
  stage_0_safe_time_s = pos 30;
  stage_150_safe_time_s = pos 30;
  quick_play_move_num = pos 10;
  quick_play_move_time_out_ms = pos 1000;
  over_using_thr_time_out_ms = pos 20000;
  under_using_thr_time_out_ms = pos 3000;
  under_using_time_out_ms = pos 1000;
  batch_size = pos 1;
  sleep_threshold = pos 1;
  sleep_interval = pos 1;
  ice_conf = codes "ice.conf";
  queue_size = pos 4;
  server_send_thread = pos 1;
  use_asyn_request = true;
  asyn_once_send = pos 1;
  proxy_name = codes "proxy";
  proxy_number = pos 8;
}

abbrev pub sample_board : Text → GoBoard toy
sample_board history = record { b = 1; history = history; hash8 = []; board_repetition = false }

abbrev pub sample_root : Node int_floats
sample_root = record (new_node int_floats none none) {
  nexts = some (1 ∷ []);
  eval_ready = true;
  rq_sent = true;
}

abbrev pub sample_edge : Edge int_floats
sample_edge = record { action = pos 60; p = pos 5; old_p = pos 5; n = 2; w = pos 1; vl = pos 0 }

abbrev pub sample_child : Node int_floats
sample_child = record (new_node int_floats (some 0) (some sample_edge)) { depth = 1 }

-- A player with a history and a time left.
abbrev pub sample : Text → ℤ → Player int_floats toy
sample history time = record {
  config = sample_config;
  tree = sample_root ∷ sample_child ∷ [];
  root = some 0;
  root_board = sample_board history;
  dynamic_timeout = pos 1000;
  dynamic_rollout = pos 50;
  time_remain = time;
  rollout_speed = pos 850;
  f_early = pos 2;
  is_uec = false;
  total_rollout = pos 0;
  stop_rollout = false;
  n_speed = pos 850;
  op_action = pos 0;
  is_exit_rollout = false;
  is_rollout_finished = true;
  search_thread_vec = 0;
}

-- The codes of 300 moves.
abbrev pub long_history : Text
long_history = replicate 600 b'a'
