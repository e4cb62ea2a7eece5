-- ===== src/Evaluator/Sync/Tests.antt =====
-- A batch of two requests, answered.
use estar_go.Base.{ℕ, ◌≡◌, refl, [], ◌∷◌, some, err, bad_index}
use estar_go.Evaluator.{Pipe, new_pipe}
use estar_go.Evaluator.Sync.{sync_request}

abbrev loaded : Pipe ℕ
loaded = record (new_pipe ℕ 4 []) { batch = 7 ∷ 8 ∷ []; pending = 2 }

too_many : sync_request ℕ 1 (some 3) loaded ≡ err bad_index
unfolding sync_request new_pipe
too_many = refl
