-- ===== src/Latency/Tests.antt =====
-- Two calls of Record at once.
use estar_go.Base.{ℕ, ◌≡◌, refl, List, [], ◌∷◌}
use estar_go.Base.Int.{ℤ, pos}
use estar_go.Base.Floats.{int_floats}
use estar_go.Latency.{Latency, run_steps, new_recorder}

abbrev two : List ℤ
two = pos 7 ∷ pos 3 ∷ []

-- A step takes its call to the front. Both calls test the maximum before either stores it, and the smaller
-- latency is stored last.
abbrev crossing : List ℕ
crossing = 0 ∷ 0 ∷ 0 ∷ 1 ∷ 0 ∷ 0 ∷ 1 ∷ 0 ∷ 1 ∷ 0 ∷ []

crossing_max :
    (run_steps int_floats crossing (new_recorder int_floats two)).counts.latency_max ≡ pos 3
unfolding run_steps estar_go.Base.pick estar_go.Latency.clear
crossing_max = refl
