-- ===== src/EvalQueue/Tests.antt =====
-- A ring of size 2, and the theorems on it.
use estar_go.Base.{ℕ, ◌≡◌, refl, List, [], ◌∷◌, some, arith, ok, err, Returns, bad_index}
use estar_go.EvalQueue.{CycleQueue, try_push, try_pop, new_queue}
use estar_go.EvalQueue.Contents.{IsValid, contents}
use estar_go.EvalQueue.Refine.{try_pop-Popped}
use estar_go.EvalQueue.Runs.{Call, pushes, pops, run, bounded_run, run-Returns, new_queue-IsValid}
use estar_go.EvalQueue.{pop}

-- 8, then 9, round the end of the storage.
abbrev wrapped : CycleQueue ℕ
wrapped = record { data_list = 9 ∷ 8 ∷ []; queue_size = 2; head = some 1; tail = some 0 }

wrapped-IsValid : IsValid wrapped
wrapped-IsValid = omega arith

pop_wrapped :
    try_pop wrapped
    ≡ ok (some 8, record { data_list = 9 ∷ 8 ∷ []; queue_size = 2; head = some 0; tail = some 0 })
unfolding try_pop
pop_wrapped = refl

-- With no storage the first push writes behind it.
push_no_storage : try_push {A = ℕ} (new_queue 0 0) 5 ≡ err bad_index
unfolding try_push new_queue
push_no_storage = refl

try_pop-Popped_test :
    Returns
      (λ r. ((r.0, contents 0 r.1) ≡ pop (8 ∷ 9 ∷ [])) × IsValid r.1 × (r.1.queue_size ≡ 2))
      (try_pop wrapped)
try_pop-Popped_test = try_pop-Popped 0 wrapped wrapped-IsValid

abbrev history : List (Call ℕ)
history = pops ∷ pushes 5 ∷ pushes 6 ∷ pops ∷ []

run-Returns_example :
    Returns
      (λ r. ((r.0, contents 0 r.1) ≡ bounded_run 2 (8 ∷ 9 ∷ []) history) × IsValid r.1)
      (run wrapped history)
run-Returns_example = run-Returns 0 wrapped history wrapped-IsValid

new_queue-IsValid_test :
    IsValid {A = ℕ} (new_queue 0 3)
    × (contents {A = ℕ} 0 (new_queue 0 3) ≡ [])
    × ((new_queue {A = ℕ} 0 3).queue_size ≡ 3)
new_queue-IsValid_test = new_queue-IsValid 0 3 (omega arith)
