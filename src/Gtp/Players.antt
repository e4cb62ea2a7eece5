-- ===== src/Gtp/Players.antt =====
-- The player that src/Gtp.cpp holds.
use estar_go.Base.{
  ℕ, ◌≡◌, ◌<◌, refl, ◌⊎◌, inl, inr, Bool, true, false, List, [], ◌∷◌, Option, none, some, Result,
  ok, err, Text, length, arith, if◌then◌else◌, ◌>>=◌, OnOk, OnOk-bind, OnOk-if, OnOk-trivial, subst,
  ltb, ◌==◌, codes,
}
use estar_go.Base.Floats.{Floats}
use estar_go.Config.{Config}
use estar_go.GoBoard.{Pachi, GoBoard, get_color}
use estar_go.Player.{Player, Unset, stop_pondering, new_player}
use estar_go.Player.Moves.{same_letters, play, gen_apply_move}
use estar_go.Gtp.Words.{same_letters-length}
use estar_go.Gtp.{
  Gtp, starts_with_w, gtp_print, gtp_print_err, Command, cmd_play, cmd_genmove, cmd_time_left,
  cmd_quit, cmd_name, cmd_protocol_version, cmd_version, cmd_list_commands, cmd_boardsize,
  cmd_clear_board, cmd_komi, cmd_final_score, cmd_time_settings, cmd_show_board, scan, behind,
  filled, player_of, initialize, process_cmd_play, process_cmd_genmove, process_cmd_timeleft,
  process_cmd_clearboard, process_cmd_finalscore, process_cmd_showboard, run_case, process_cmd,
  case_of, words, hash_, commands,
}

module _ (fl : Floats) (pachi : Pachi) (config : Config fl) (unset : Unset fl pachi)
    (komi : pachi.Score) (search : Player fl pachi → Result (Player fl pachi))
    (show_score : pachi.Score → Text) (print_board_buffer : GoBoard pachi → Text) where
  abbrev pub HasPlayer : Gtp fl pachi → Type 0
  HasPlayer g = (p : Player fl pachi) × (g.mcts_player ≡ some p)

  -- The command goes on with a player, or it was quit.
  abbrev pub Goes : Bool × Gtp fl pachi → Type 0
  Goes r = (r.0 ≡ true) ⊎ HasPlayer r.1

  -- What a scan yields fits its buffer.
  abbrev Fits : ℕ → Option Text → Type 0
  Fits size o = (w : Text) → o ≡ some w → length w < size

  abbrev Short : ℕ → Option Text → Type 0
  Short size none = Unit {0}
  Short size (some w) = length w < size

  scan-Fits : (size : ℕ) (ws : List Text) → OnOk (Fits size) (scan size ws)
  unfolding scan
  scan-Fits size [] = λ w e. absurd (ground arith)
  scan-Fits size (v ∷ ws) =
      OnOk-if (Fits size) (ltb (length v) size) (ok (some v)) _
        (λ l w e. subst (λ (o : Option Text). Short size o) e (ground arith)) (λ l. tt)

  filled-Fits : (size : ℕ) (o : Option Text) → Fits size o → OnOk (λ w. length w < size) (filled o)
  unfolding filled
  filled-Fits size none f = tt
  filled-Fits size (some w) f = f w refl

  process_cmd_play-HasPlayer :
      (args : List Text) (g : Gtp fl pachi)
      → OnOk HasPlayer
          (process_cmd_play fl pachi config unset komi search show_score print_board_buffer args g)
  unfolding process_cmd_play
  process_cmd_play-HasPlayer args g =
      OnOk-bind (λ p. Unit {0}) HasPlayer (player_of fl pachi g) _
        (OnOk-trivial (player_of fl pachi g))
        λ p x.
          OnOk-bind (λ p. Unit {0}) HasPlayer (scan 5 args) _ (OnOk-trivial (scan 5 args))
            λ col y.
              OnOk-bind (Fits 5) HasPlayer (scan 5 (behind args)) _ (scan-Fits 5 (behind args))
                λ read f.
                  OnOk-bind (λ w. length w < 5) HasPlayer (filled read) _ (filled-Fits 5 read f)
                    λ pos l.
                      OnOk-bind (λ p. Unit {0}) HasPlayer
                        (play fl pachi (stop_pondering fl pachi p) pos) _
                        (OnOk-trivial (play fl pachi (stop_pondering fl pachi p) pos))
                        λ q z.
                          OnOk-if HasPlayer (same_letters pos (codes "RESIGN")) _ _
                            (λ e.
                              absurd (omega (arith, l, same_letters-length pos (codes "RESIGN") e)))
                            (λ e. (q, refl))

  process_cmd_genmove-HasPlayer :
      (args : List Text) (g : Gtp fl pachi)
      → OnOk HasPlayer (
          process_cmd_genmove fl pachi config unset komi search show_score print_board_buffer args
            g)
  unfolding process_cmd_genmove
  process_cmd_genmove-HasPlayer args g =
      let go_on : Player fl pachi → Result (Player fl pachi) = λ p.
        if g.is_lcmd_genmove
        then play fl pachi (stop_pondering fl pachi p) (codes "PASS")
        else ok (stop_pondering fl pachi p) in
      OnOk-bind (λ p. Unit {0}) HasPlayer (player_of fl pachi g) _
        (OnOk-trivial (player_of fl pachi g))
        λ p x.
          OnOk-bind (λ p. Unit {0}) HasPlayer (go_on p) _ (OnOk-trivial (go_on p))
            λ q y.
              OnOk-bind (λ p. Unit {0}) HasPlayer (scan 5 args) _ (OnOk-trivial (scan 5 args))
                λ c z.
                  OnOk-bind (λ p. Unit {0}) HasPlayer (gen_apply_move fl pachi search q) _
                    (OnOk-trivial (gen_apply_move fl pachi search q)) λ r v. (_, refl)

  kept :
      (g : Gtp fl pachi) (f : Player fl pachi → Result (Gtp fl pachi))
      → HasPlayer g
      → ((p : Player fl pachi) → OnOk HasPlayer (f p))
      → OnOk HasPlayer (player_of fl pachi g >>= f)
  kept g f h k =
      OnOk-bind (λ p. Unit {0}) HasPlayer (player_of fl pachi g) f
        (OnOk-trivial (player_of fl pachi g)) (λ p x. k p)

  initialize-HasPlayer :
      (h : Text) (g : Gtp fl pachi)
      → OnOk HasPlayer
          (initialize fl pachi config unset komi search show_score print_board_buffer h g)
  unfolding initialize
  initialize-HasPlayer h g =
      OnOk-bind (λ p. Unit {0}) HasPlayer (new_player fl pachi config unset komi h) _
        (OnOk-trivial (new_player fl pachi config unset komi h)) λ p x. (p, refl)

  process_cmd_clearboard-HasPlayer :
      (g : Gtp fl pachi)
      → OnOk HasPlayer
          (process_cmd_clearboard fl pachi config unset komi search show_score print_board_buffer g)
  unfolding process_cmd_clearboard
  process_cmd_clearboard-HasPlayer g =
      OnOk-bind HasPlayer HasPlayer
        (initialize fl pachi config unset komi search show_score print_board_buffer [] g) _
        (initialize-HasPlayer [] g) λ g' h. h

  process_cmd_timeleft-HasPlayer :
      (args : List Text) (g : Gtp fl pachi)
      → HasPlayer g
      → OnOk HasPlayer (
          process_cmd_timeleft fl pachi config unset komi search show_score print_board_buffer args
            g)
  unfolding process_cmd_timeleft
  process_cmd_timeleft-HasPlayer args g h =
      OnOk-bind (λ p. Unit {0}) HasPlayer (scan 5 args) _ (OnOk-trivial (scan 5 args))
        λ read x.
          OnOk-bind (λ p. Unit {0}) HasPlayer (scan 4 (behind args)) _
            (OnOk-trivial (scan 4 (behind args)))
            λ time y.
              OnOk-bind (λ p. Unit {0}) HasPlayer (scan 4 (behind (behind args))) _
                (OnOk-trivial (scan 4 (behind (behind args))))
                λ stone z.
                  OnOk-bind (λ p. Unit {0}) HasPlayer (filled read) _ (OnOk-trivial (filled read))
                    λ color v. kept g _ h λ p.
                      OnOk-bind HasPlayer HasPlayer _ _
                        (OnOk-if HasPlayer
                          ((if starts_with_w fl pachi config unset komi search show_score
                                print_board_buffer color
                              then 1
                              else 0)
                            == get_color pachi p.root_board)
                          _ (ok g)
                          (λ e.
                            OnOk-bind (λ w. Unit {0}) HasPlayer (filled time) _
                              (OnOk-trivial (filled time)) λ t u. (_, refl))
                          (λ e. h))
                        λ g' k. k

  -- A handler's outcome as that of its case.
  not_quit : (r : Result (Gtp fl pachi)) → OnOk HasPlayer r → OnOk Goes (r >>= λ g'. ok (false, g'))
  not_quit (ok g) h = inr h
  not_quit (err e) h = tt

  shown :
      (g : Gtp fl pachi) (f : Player fl pachi → Text)
      → HasPlayer g
      → OnOk HasPlayer (player_of fl pachi g >>= λ p. ok (gtp_print fl pachi (f p) g))
  shown g f h = kept g (λ p. ok (gtp_print fl pachi (f p) g)) h (λ p. h)

  run_case-Goes :
      (cmd : Command) (args : List Text) (g : Gtp fl pachi)
      → HasPlayer g
      → OnOk Goes
          (run_case fl pachi config unset komi search show_score print_board_buffer cmd args g)
  unfolding run_case process_cmd_showboard process_cmd_finalscore
  run_case-Goes cmd_play args g h = not_quit _ (process_cmd_play-HasPlayer args g)
  run_case-Goes cmd_genmove args g h = not_quit _ (process_cmd_genmove-HasPlayer args g)
  run_case-Goes cmd_time_left args g h = not_quit _ (process_cmd_timeleft-HasPlayer args g h)
  run_case-Goes cmd_quit args g h = inl refl
  run_case-Goes cmd_name args g h = inr h
  run_case-Goes cmd_protocol_version args g h = inr h
  run_case-Goes cmd_version args g h = inr h
  run_case-Goes cmd_list_commands args g h = inr h
  run_case-Goes cmd_boardsize args g h = inr h
  run_case-Goes cmd_clear_board args g h = not_quit _ (process_cmd_clearboard-HasPlayer g)
  run_case-Goes cmd_komi args g h = inr h
  run_case-Goes cmd_final_score args g h = not_quit _ (shown g _ h)
  run_case-Goes cmd_time_settings args g h = inr h
  run_case-Goes cmd_show_board args g h = not_quit _ (shown g _ h)

  -- Behind every command but one that quits, the program that had a player has one: the resignation that
  -- play would delete it for does not fit its buffer.
  pub process_cmd-Goes :
      (line : Text) (g : Gtp fl pachi)
      → HasPlayer g
      → OnOk Goes
          (process_cmd fl pachi config unset komi search show_score print_board_buffer line g)
  unfolding process_cmd
  process_cmd-Goes line g h =
      OnOk-bind (λ w. Unit {0}) Goes (scan 100 (words line)) _
        (OnOk-trivial (scan 100 (words line)))
        λ read x.
          OnOk-bind (λ w. Unit {0}) Goes (filled read) _ (OnOk-trivial (filled read))
            λ name y. on_case (case_of (hash_ name) commands)
    where
      on_case :
          (o : Option Command)
          → OnOk Goes (elim o [
            | none ↦ ok (false, gtp_print_err fl pachi (codes "does not support this command.") g)
            | some cmd ↦
                run_case fl pachi config unset komi search show_score print_board_buffer cmd
                  (behind (words line))
                  g
          ])
      on_case none = inr h
      on_case (some cmd) = run_case-Goes cmd (behind (words line)) g h
