-- ===== src/Player.antt =====
-- include/MCTSPlayer.h: the player's state, its constructor and the switch of the pondering threads. The
-- tree is the store of MctsTree, and `root` the index of its root.
pub mod TimePolicy
pub mod Moves
pub mod Rollout
pub mod Replies
pub mod Sample
use estar_go.Base.{
  ℕ, zero, suc, ◌+◌, ◌≡◌, Bool, true, false, List, [], ◌∷◌, Option, none, some, Result, ok, err,
  bad_division, ◌>>=◌, if◌then◌else◌, Text, length, codes,
}
use estar_go.Base.Int.{ℤ, pos, negsuc, ◌-ℤ◌, ◌*ℤ◌, quot, pos_part}
use estar_go.Base.Floats.{Floats}
use estar_go.GoBoard.{Pachi, GoBoard, new_go_board, apply_history, get_total_moves}
use estar_go.MctsTree.{Tree, new_node}
use estar_go.Config.{Config}

-- Division of two `int`s.
unfoldable pub divide : ℤ → ℤ → Result ℤ
divide a (pos zero) = err bad_division
divide a (pos (suc n)) = ok (quot a (suc n))
divide a (negsuc n) = ok (pos 0 -ℤ quot a (suc n))

module _ (fl : Floats) (pachi : Pachi) where
  open fl use {F, of_int}

  -- The settings that the constructor copies are read from `config`. `is_uec` is one of the fields that
  -- no code sets. search_thread_vec is the number of threads to wait for.
  pub record Player : Type 0 where
    pub config : Config fl
    pub tree : Tree fl
    pub root : Option ℕ
    pub root_board : GoBoard pachi
    pub dynamic_timeout : ℤ
    pub dynamic_rollout : ℤ
    pub time_remain : ℤ
    pub rollout_speed : ℤ
    pub f_early : F
    pub is_uec : Bool
    pub total_rollout : ℤ
    pub stop_rollout : Bool
    pub n_speed : ℤ
    pub op_action : ℤ
    pub is_exit_rollout : Bool
    pub is_rollout_finished : Bool
    pub search_thread_vec : ℕ

  -- The fields that the constructor leaves as the memory has them.
  pub record Unset : Type 0 where
    pub dynamic_timeout : ℤ
    pub dynamic_rollout : ℤ
    pub is_uec : Bool

  abbrev pub init_rollout_speed : ℤ
  init_rollout_speed = pos 850

  -- The constructor, for the komi 7.5.
  pub new_player : Config fl → Unset → pachi.Score → Text → Result Player
  new_player config unset komi history =
      apply_history pachi (new_go_board pachi komi) history >>= λ board.
      divide (init_rollout_speed *ℤ config.asyn_once_send) config.search_threads >>= λ speed.
      ok (record {
        config = config;
        tree = record (new_node fl none none) { depth = get_total_moves pachi board } ∷ [];
        root = some 0;
        root_board = board;
        dynamic_timeout = unset.dynamic_timeout;
        dynamic_rollout = unset.dynamic_rollout;
        time_remain = pos 600;
        rollout_speed = speed;
        f_early = of_int (pos 2);
        is_uec = unset.is_uec;
        total_rollout = pos 0;
        stop_rollout = false;
        n_speed = speed;
        op_action = pos 0;
        is_exit_rollout = false;
        is_rollout_finished = true;
        search_thread_vec = 0;
      })

  -- Behind the wait every search thread has ended.
  pub stop_pondering : Player → Player
  stop_pondering p =
      if p.is_exit_rollout
      then record p { is_exit_rollout = false }
      else record p { is_exit_rollout = false; search_thread_vec = 0 }

  pub start_pondering : Player → Player
  start_pondering p =
      if p.stop_rollout
      then p
      else record p { search_thread_vec = p.search_thread_vec + pos_part p.config.search_threads }

  abbrev pub time_left : Player → ℤ → Player
  time_left p t = record p { time_remain = t }
