-- ===== src/Gtp.antt =====
-- src/Gtp.cpp and include/Gtp.h: the commands of the Go text protocol. A command is its line; the program's
-- output is a list of texts.
pub mod Words
pub mod Players
mod Tests
use Prim.Native.Nat.{bit_xor}
use estar_go.Base.{
  ℕ, zero, suc, ◌+◌, ◌-◌, ◌*◌, ◌%◌, ◌^◌, ◌≡◌, Bool, true, false, not, ◌&&◌, List, [], ◌∷◌, ◌++◌,
  Option, none, some, Result, ok, err, null_pointer, overrun, uninitialised, ◌>>=◌, if◌then◌else◌,
  ltb, ◌==◌, Text, text_eq, codes, length, map,
}
use estar_go.Base.Int.{ℤ}
use estar_go.Base.Floats.{Floats}
use estar_go.Ini.Values.{atoi, is_space}
use estar_go.Config.{Config}
use estar_go.GoBoard.{Pachi, GoBoard, get_color, get_score_black}
use estar_go.Player.{Player, Unset, new_player, stop_pondering, start_pondering, time_left}
use estar_go.Player.Moves.{same_letters, upper, play, gen_apply_move}
use estar_go.Player.Rollout.{is_positive}

-- The hash of the switch over command names: FNV-1a in 64 bits. A `char` is signed.
abbrev pub prime : ℕ
prime = 1099511628211

abbrev pub basis : ℕ
basis = 14695981039346656037

abbrev wide : ℕ → ℕ
wide c = if ltb c 128 then c else 2 ^ 64 - 256 + c

-- The loop of hash_, from the value so far.
pub hash_loop : ℕ → Text → ℕ
hash_loop ret [] = ret
hash_loop ret (c ∷ cs) = hash_loop (bit_xor ret (wide c) * prime % 2 ^ 64) cs

pub hash_ : Text → ℕ
unfolding hash_loop
hash_ str = hash_loop basis str

pub hash_compile_time : Text → ℕ → ℕ
hash_compile_time [] last_value = last_value
hash_compile_time (c ∷ cs) last_value =
    hash_compile_time cs (bit_xor (wide c) last_value * prime % 2 ^ 64)

-- The command names of Gtp.h, as the switch tells them apart.
pub data Command : Type 0 where
  cmd_play cmd_genmove cmd_time_left cmd_quit cmd_name cmd_protocol_version cmd_version : Command
  cmd_list_commands cmd_boardsize cmd_clear_board cmd_komi cmd_final_score : Command
  cmd_time_settings cmd_show_board : Command

-- In the order of the switch, which is also that of list_commands.
abbrev pub commands : List (Text × Command)
commands =
    (codes "play", cmd_play)
    ∷ (codes "genmove", cmd_genmove)
    ∷ (codes "time_left", cmd_time_left)
    ∷ (codes "quit", cmd_quit)
    ∷ (codes "name", cmd_name)
    ∷ (codes "protocol_version", cmd_protocol_version)
    ∷ (codes "version", cmd_version)
    ∷ (codes "list_commands", cmd_list_commands)
    ∷ (codes "boardsize", cmd_boardsize)
    ∷ (codes "clear_board", cmd_clear_board)
    ∷ (codes "komi", cmd_komi)
    ∷ (codes "final_score", cmd_final_score)
    ∷ (codes "time_settings", cmd_time_settings)
    ∷ (codes "showboard", cmd_show_board)
    ∷ []

-- The case of the switch with the hash.
pub case_of : ℕ → List (Text × Command) → Option Command
unfolding hash_compile_time
case_of h [] = none
case_of h ((name, cmd) ∷ rest) =
    let later = case_of h rest in if h == hash_compile_time name basis then some cmd else later

-- The words that sscanf reads from a line: `word` is the one that is being read.
pub words_from : Text → Text → List Text
words_from [] [] = []
words_from (w ∷ ws) [] = (w ∷ ws) ∷ []
words_from word (c ∷ cs) =
    let longer = words_from (word ++ c ∷ []) cs in
    let next = words_from [] cs in
    let fresh : List Text = elim word [ [] ↦ next | w ∷ ws ↦ (w ∷ ws) ∷ next ] in
    if is_space c then fresh else longer

pub words : Text → List Text
unfolding words_from
words line = words_from [] line

-- `%s` into a buffer of `size` bytes, one of them for the end of the text.
unfoldable pub scan : ℕ → List Text → Result (Option Text)
scan size [] = ok none
scan size (w ∷ ws) = if ltb (length w) size then ok (some w) else err overrun

-- The words behind the one that was read.
abbrev pub behind : List Text → List Text
behind [] = []
behind (w ∷ ws) = ws

-- A buffer is read.
unfoldable pub filled : Option Text → Result Text
filled none = err uninitialised
filled (some w) = ok w

-- list_commands
pub lines_of : List (Text × Command) → Text
lines_of [] = []
lines_of ((name, cmd) ∷ rest) = name ++ 10 ∷ lines_of rest

module _ (fl : Floats) (pachi : Pachi) where
  pub record Gtp : Type 0 where
    pub mcts_player : Option (Player fl pachi)
    pub my_name : Text
    pub my_version : Text
    pub is_pondering : Bool
    pub is_lcmd_genmove : Bool
    pub printed : List Text

  -- gtp_print and gtp_print_err
  abbrev pub gtp_print : Text → Gtp → Gtp
  gtp_print s g = record g { printed = g.printed ++ (codes "= " ++ s ++ 10 ∷ 10 ∷ []) ∷ [] }

  abbrev pub gtp_print_err : Text → Gtp → Gtp
  gtp_print_err s g = record g { printed = g.printed ++ (codes "? " ++ s ++ 10 ∷ 10 ∷ []) ∷ [] }

  unfoldable pub player_of : Gtp → Result (Player fl pachi)
  player_of g = elim g.mcts_player [ none ↦ err null_pointer | some p ↦ ok p ]

  -- The settings; what the memory holds where the constructor of a player writes nothing; the komi; the
  -- search of the threads; "%.1f"; and print_board_buffer, whose body is commented out.
  module _ (config : Config fl) (unset : Unset fl pachi) (komi : pachi.Score)
      (search : Player fl pachi → Result (Player fl pachi)) (show_score : pachi.Score → Text)
      (print_board_buffer : GoBoard pachi → Text) where
    pub initialize : Text → Gtp → Result Gtp
    initialize history g = new_player fl pachi config unset komi history >>= λ p. ok (record g {
      mcts_player = some p;
      my_name = config.gtp_name;
      my_version = config.gtp_version;
      is_pondering = config.is_pondering;
      is_lcmd_genmove = false;
    })

    -- char col[5], pos[5]
    pub process_cmd_play : List Text → Gtp → Result Gtp
    process_cmd_play args g = player_of g >>= λ p0.
        let p = stop_pondering fl pachi p0 in
        scan 5 args >>= λ col. scan 5 (behind args) >>= λ read. filled read >>= λ pos.
        play fl pachi p pos >>= λ q.
        let g' = record (gtp_print [] g) { mcts_player = some q; is_lcmd_genmove = false } in
        if same_letters pos (codes "RESIGN") then ok (record g' { mcts_player = none }) else ok g'

    -- char color[5]
    pub process_cmd_genmove : List Text → Gtp → Result Gtp
    process_cmd_genmove args g = player_of g >>= λ p0.
        let p = stop_pondering fl pachi p0 in
        (if g.is_lcmd_genmove then play fl pachi p (codes "PASS") else ok p) >>= λ q.
        scan 5 args >>= λ color. gen_apply_move fl pachi search q >>= λ r.
        let g' = gtp_print r.0 g in
        let next =
          if g.is_pondering && not (same_letters r.0 (codes "resign"))
          then start_pondering fl pachi r.1
          else r.1 in
        ok (record g' { mcts_player = some next; is_lcmd_genmove = true })

    pub process_cmd_showboard : Gtp → Result Gtp
    process_cmd_showboard g =
        player_of g >>= λ p. ok (gtp_print (print_board_buffer p.root_board) g)

    abbrev pub starts_with_w : Text → Bool
    starts_with_w [] = false
    starts_with_w (c ∷ cs) = upper c == b'W'

    -- char color[5], time[4], stone[4]
    pub process_cmd_timeleft : List Text → Gtp → Result Gtp
    process_cmd_timeleft args g = scan 5 args >>= λ read. scan 4 (behind args) >>= λ read_time.
        scan 4 (behind (behind args)) >>= λ stone. filled read >>= λ color. player_of g >>= λ p.
        (if (if starts_with_w color then 1 else 0) == get_color pachi p.root_board
          then (filled read_time >>= λ time.
              ok (record g { mcts_player = some (time_left fl pachi p (atoi time)) }))
          else ok g)
        >>= λ g'. ok (gtp_print [] g')

    pub process_cmd_quit : Gtp → Gtp
    process_cmd_quit g = gtp_print [] (record g { mcts_player = none })

    pub process_cmd_clearboard : Gtp → Result Gtp
    process_cmd_clearboard g =
        initialize [] g >>= λ g'. ok (record (gtp_print [] g') { is_lcmd_genmove = false })

    pub process_cmd_finalscore : Gtp → Result Gtp
    process_cmd_finalscore g = player_of g >>= λ p.
        let w = get_score_black pachi p.root_board in
        ok (
          gtp_print
            (if is_positive fl pachi w
              then codes "W+" ++ show_score w
              else codes "B+" ++ show_score (pachi.negate w))
            g)

    -- The body of a case, and whether it is that of quit.
    pub run_case : Command → List Text → Gtp → Result (Bool × Gtp)
    unfolding process_cmd_play process_cmd_genmove process_cmd_showboard process_cmd_timeleft
        process_cmd_quit process_cmd_clearboard process_cmd_finalscore lines_of
    run_case cmd_play args g = process_cmd_play args g >>= λ g'. ok (false, g')
    run_case cmd_genmove args g = process_cmd_genmove args g >>= λ g'. ok (false, g')
    run_case cmd_time_left args g = process_cmd_timeleft args g >>= λ g'. ok (false, g')
    run_case cmd_quit args g = ok (true, process_cmd_quit g)
    run_case cmd_name args g = ok (false, gtp_print g.my_name g)
    run_case cmd_protocol_version args g = ok (false, gtp_print (codes "2.0") g)
    run_case cmd_version args g = ok (false, gtp_print g.my_version g)
    run_case cmd_list_commands args g = ok (false, gtp_print (lines_of commands) g)
    run_case cmd_boardsize args g = ok (false, gtp_print [] g)
    run_case cmd_clear_board args g = process_cmd_clearboard g >>= λ g'. ok (false, g')
    run_case cmd_komi args g = ok (false, gtp_print [] g)
    run_case cmd_final_score args g = process_cmd_finalscore g >>= λ g'. ok (false, g')
    run_case cmd_time_settings args g = ok (false, gtp_print [] g)
    run_case cmd_show_board args g = process_cmd_showboard g >>= λ g'. ok (false, g')

    -- char cmd_name[100]
    pub process_cmd : Text → Gtp → Result (Bool × Gtp)
    unfolding words hash_ case_of run_case
    process_cmd command g =
        let ws = words command in
        scan 100 ws >>= λ read. filled read >>= λ cmd_name.
        elim (case_of (hash_ cmd_name) commands) [
          | none ↦ ok (false, gtp_print_err (codes "does not support this command.") g)
          | some cmd ↦ run_case cmd (behind ws) g
        ]

    -- run, over the lines that fgets gives; it ends with quit.
    pub run : List Text → Gtp → Result Gtp
    unfolding process_cmd
    run [] g = ok g
    run (line ∷ rest) g = process_cmd line g >>= λ r. if r.0 then ok r.1 else run rest r.1
