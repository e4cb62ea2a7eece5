-- ===== src/Player/Rollout/Tests.antt =====
-- A search of a few turns, and the evaluation of a leaf.
use estar_go.Base.{refl, inl, false, OnOk, [], ◌∷◌, arith}
use estar_go.Base.Int.{pos}
use estar_go.Base.Floats.{int_floats}
use estar_go.Player.Sample.{toy, sample, sample_child}
use estar_go.Player.Rollout.{Search, Request, PolicyItem, all_happen, expand, at_time, reply}
use estar_go.Player.Rollout.Count.{Within, all_happen-Within}
use estar_go.Player.Rollout.Expand.{IsExpanded, expand-IsExpanded}

abbrev start : Search int_floats toy
start = record {
  player = sample [] (pos 600);
  rollout_in_turn = pos 0;
  exit_flag = false;
  waiting = false;
  requests = [];
}

abbrev item : PolicyItem int_floats toy
item = record { position = pos 72; prob = pos 4 }

all_happen-Within_example : OnOk (Within int_floats toy) (
    all_happen int_floats toy
      (pos 1)
      (at_time (pos 3) ∷ reply (pos 1) (item ∷ []) ∷ at_time (pos 9) ∷ [])
      start)
all_happen-Within_example =
    all_happen-Within int_floats toy (pos 1)
      (at_time (pos 3) ∷ reply (pos 1) (item ∷ []) ∷ at_time (pos 9) ∷ []) start
      (omega arith, inl refl)

abbrev request : Request int_floats toy
request = record { leaf = 1; min_max = pos 1; tromp_taylor = pos 0 }

expand-IsExpanded_example :
    IsExpanded int_floats toy (pos 2) request (pos 1) (sample [] (pos 600)).tree sample_child (
      expand int_floats toy
        (pos 2)
        request
        (pos 1)
        (item ∷ [])
        (sample [] (pos 600)).tree
        sample_child)
expand-IsExpanded_example =
    expand-IsExpanded int_floats toy (pos 2) request (pos 1) (item ∷ []) (sample [] (pos 600)).tree
      sample_child refl
