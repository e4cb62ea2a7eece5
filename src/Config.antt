-- ===== src/Config.antt =====
-- src/Config.cpp and include/utils/Config.h: the settings, read with their defaults.
-- `use_server_evaluator_` is not among them: Sinit never assigns it, and Config.cpp does not define it.
mod Tests
use estar_go.Base.{
  ℕ, suc, List, [], ◌≡◌, refl, Bool, true, false, Option, none, some, Result, ok, err, exited,
  ◌>>=◌, Text, codes, arith, if◌then◌else◌, out_of_range, drop,
}
use estar_go.Base.Int.{ℤ, pos}
use estar_go.Base.Floats.{Floats}
use estar_go.Ini.{IniReader, AppIndex, open_file, get_string, empty_reader, get_lines}
use estar_go.Ini.Values.{get_int, get_bool, get_float}
use estar_go.Ini.Open.{
  headers, open_file-headers, open_file-none, find_section, BlankFirst, get_string_blank,
}

module _ (fl : Floats) where
  open fl use {F, of_text}

  pub record Config : Type 0 where
    pub model_type : Text
    pub virtual_loss : ℤ
    pub c_puct : F
    pub policy_prob_threshold : F
    pub search_threads : ℤ
    pub resign_threshold : F
    pub pass_threshold : F
    pub pass_after_n_moves : ℤ
    pub gtp_name : Text
    pub gtp_version : Text
    pub is_pondering : Bool
    pub is_time_policy : Bool
    pub time_out_ms : ℤ
    pub stage_0_safe_time_s : ℤ
    pub stage_150_safe_time_s : ℤ
    pub quick_play_move_num : ℤ
    pub quick_play_move_time_out_ms : ℤ
    pub over_using_thr_time_out_ms : ℤ
    pub under_using_thr_time_out_ms : ℤ
    pub under_using_time_out_ms : ℤ
    pub batch_size : ℤ
    pub sleep_threshold : ℤ
    pub sleep_interval : ℤ
    pub ice_conf : Text
    pub queue_size : ℤ
    pub server_send_thread : ℤ
    pub use_asyn_request : Bool
    pub asyn_once_send : ℤ
    pub proxy_name : Text
    pub proxy_number : ℤ

  -- Sinit behind the opening of the file.
  pub read_settings : IniReader → Result Config
  read_settings reader = do
    model_type ← get_string reader (codes "Model") (codes "type") (codes "")
    virtual_loss ← get_int reader (codes "MCTS") (codes "virtual_loss") (pos 3)
    c_puct ← get_float of_text reader (codes "MCTS") (codes "c_puct") (of_text (codes "1"))
    policy_prob_threshold ←
        get_float of_text reader (codes "MCTS") (codes "policy_prob_threshold")
          (of_text (codes "0.001"))
    search_threads ← get_int reader (codes "MCTS") (codes "search_threads") (pos 1)
    resign_threshold ←
        get_float of_text reader (codes "MCTS") (codes "resign_threshold") (of_text (codes "0.1"))
    pass_threshold ←
        get_float of_text reader (codes "MCTS") (codes "pass_threshold") (of_text (codes "0.9"))
    pass_after_n_moves ← get_int reader (codes "MCTS") (codes "pass_after_n_moves") (pos 200)
    gtp_name ← get_string reader (codes "GTP") (codes "name") (codes "ybot")
    gtp_version ← get_string reader (codes "GTP") (codes "version") (codes "1.0")
    is_pondering ← get_bool reader (codes "TimePolicy") (codes "pondering") true
    is_time_policy ← get_bool reader (codes "TimePolicy") (codes "time_policy_enabled") true
    time_out_ms ← get_int reader (codes "TimePolicy") (codes "time_out_ms") (pos 15000)
    stage_0_safe_time_s ←
        get_int reader (codes "TimePolicy") (codes "stage_0_safe_time_s") (pos 100)
    stage_150_safe_time_s ←
        get_int reader (codes "TimePolicy") (codes "stage_150_safe_time_s") (pos 30)
    quick_play_move_num ← get_int reader (codes "TimePolicy") (codes "quick_play_move_num") (pos 3)
    quick_play_move_time_out_ms ←
        get_int reader (codes "TimePolicy") (codes "quick_play_move_time_out_ms") (pos 1000)
    over_using_thr_time_out_ms ←
        get_int reader (codes "TimePolicy") (codes "over_using_thr_time_out_ms") (pos 3000)
    under_using_thr_time_out_ms ←
        get_int reader (codes "TimePolicy") (codes "under_using_thr_time_out_ms") (pos 2000)
    under_using_time_out_ms ←
        get_int reader (codes "TimePolicy") (codes "under_using_time_out_ms") (pos 1000)
    batch_size ← get_int reader (codes "Remote") (codes "batch_size") (pos 4)
    sleep_threshold ← get_int reader (codes "Remote") (codes "sleep_threshold") (pos 10)
    sleep_interval ← get_int reader (codes "Remote") (codes "sleep_interval") (pos 1000)
    ice_conf ← get_string reader (codes "Remote") (codes "ice_conf") (codes "")
    queue_size ← get_int reader (codes "Remote") (codes "queue_size") (pos 1000)
    server_send_thread ← get_int reader (codes "Remote") (codes "server_send_thread") (pos 1)
    use_asyn_request ← get_bool reader (codes "Remote") (codes "use_asyn_request") true
    asyn_once_send ← get_int reader (codes "Remote") (codes "asyn_once_send") (pos 1)
    proxy_name ← get_string reader (codes "Remote") (codes "proxy_name") (codes "Test")
    proxy_number ← get_int reader (codes "Remote") (codes "proxy_number") (pos 1)
    ok (record {
      model_type = model_type;
      virtual_loss = virtual_loss;
      c_puct = c_puct;
      policy_prob_threshold = policy_prob_threshold;
      search_threads = search_threads;
      resign_threshold = resign_threshold;
      pass_threshold = pass_threshold;
      pass_after_n_moves = pass_after_n_moves;
      gtp_name = gtp_name;
      gtp_version = gtp_version;
      is_pondering = is_pondering;
      is_time_policy = is_time_policy;
      time_out_ms = time_out_ms;
      stage_0_safe_time_s = stage_0_safe_time_s;
      stage_150_safe_time_s = stage_150_safe_time_s;
      quick_play_move_num = quick_play_move_num;
      quick_play_move_time_out_ms = quick_play_move_time_out_ms;
      over_using_thr_time_out_ms = over_using_thr_time_out_ms;
      under_using_thr_time_out_ms = under_using_thr_time_out_ms;
      under_using_time_out_ms = under_using_time_out_ms;
      batch_size = batch_size;
      sleep_threshold = sleep_threshold;
      sleep_interval = sleep_interval;
      ice_conf = ice_conf;
      queue_size = queue_size;
      server_send_thread = server_send_thread;
      use_asyn_request = use_asyn_request;
      asyn_once_send = asyn_once_send;
      proxy_name = proxy_name;
      proxy_number = proxy_number;
    })

  -- Sinit: the file is `none` if it does not open.
  pub sinit : Option Text → Result Config
  unfolding read_settings
  sinit file = let r = open_file file empty_reader in if r.0 then read_settings r.1 else err exited

  -- Without a file, or with one that holds no header line, Sinit exits.
  pub sinit_no_header :
      (text : Text)
      → headers (get_lines [] text) ≡ 0
      → (sinit (some text) ≡ err exited) × (sinit none ≡ err exited)
  unfolding sinit
  sinit_no_header text h =
      (rw (open_file-headers text empty_reader h, sinit), rw (open_file-none empty_reader, sinit))

  -- A blank line in the model's section before its type stops Sinit with std::out_of_range.
  pub sinit_blank :
      (text : Text) (r : IniReader) (a : AppIndex)
      → open_file (some text) empty_reader ≡ (true, r)
      → find_section (codes "Model") r.applines ≡ some a
      → BlankFirst (codes "type") (drop (suc a.index) r.lines)
      → sinit (some text) ≡ err out_of_range
  unfolding sinit
  sinit_blank text r a o f b =
      rw (o, get_string_blank r (codes "Model") (codes "type") [] a f b, sinit)
