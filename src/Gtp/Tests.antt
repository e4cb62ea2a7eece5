-- ===== src/Gtp/Tests.antt =====
-- Commands to a program that holds the sample player.
use estar_go.Base.{◌≡◌, refl, false, Option, some, List, [], ◌∷◌, Text, codes, OnOk, ok}
use estar_go.Base.Int.{pos}
use estar_go.Base.Floats.{int_floats}
use estar_go.Player.{Unset}
use estar_go.Player.Sample.{toy, sample, sample_config}
use estar_go.Gtp.{Gtp, Command, commands, case_of, hash_, words, words_from, process_cmd}
use estar_go.Gtp.Players.{Goes, process_cmd-Goes}

-- The case of every command name, and whether it is the n-th.
cases_of : List (Text × Command) → List (Option Command)
unfolding hash_
cases_of [] = []
cases_of ((name, cmd) ∷ rest) = case_of (hash_ name) commands ∷ cases_of rest

found : List (Text × Command) → List (Option Command)
found [] = []
found ((name, cmd) ∷ rest) = some cmd ∷ found rest

-- The switch finds the case of every command.
each_case_found : cases_of commands ≡ found commands
unfolding cases_of found case_of
each_case_found = refl

words_of_play : words (codes "play B D4") ≡ codes "play" ∷ codes "B" ∷ codes "D4" ∷ []
unfolding words words_from
words_of_play = refl

abbrev unset : Unset int_floats toy
unset = record { dynamic_timeout = pos 0; dynamic_rollout = pos 0; is_uec = false }

abbrev held : Gtp int_floats toy
held = record {
  mcts_player = some (sample [] (pos 600));
  my_name = codes "eStarGo";
  my_version = codes "1.0.0";
  is_pondering = false;
  is_lcmd_genmove = false;
  printed = [];
}

process_cmd-Goes_example :
    OnOk (Goes int_floats toy sample_config unset 7 (λ p. ok p) (λ s. []) (λ b. [])) (
      process_cmd int_floats toy sample_config unset 7
        (λ p. ok p)
        (λ s. [])
        (λ b. [])
        (codes "play B D4")
        held)
process_cmd-Goes_example =
    process_cmd-Goes int_floats toy sample_config unset 7 (λ p. ok p) (λ s. []) (λ b. [])
      (codes "play B D4") held (sample [] (pos 600), refl)
