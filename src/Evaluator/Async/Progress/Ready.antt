-- ===== src/Evaluator/Async/Progress/Ready.antt =====
-- The callers that can go on of the asynchronous client of src/PolicyValueEvaluatorClient.cpp.
use estar_go.Base.{
  pick, sum_by, ℕ, suc, ◌-◌, ◌≡◌, ◌<◌, refl, ◌⊎◌, inl, inr, Bool, true, false, List, [], ◌∷◌,
  Option, none, some, Bool-cases, if◌then◌else◌, ◌==◌, ltb, length, arith,
}
use estar_go.Evaluator.{wait}
use estar_go.Evaluator.Async.{Phase, Caller, waiting, reserved, pushed}
use estar_go.Evaluator.Async.Steady.{slot_of, item_of, stray, stray_in}

pub wait-is_some : (max count : ℕ) → 0 < max → 0 < count → (w : ℕ × ℕ) × (wait max count ≡ some w)
unfolding wait
wait-is_some max count h k = elim (Bool-cases (count == 0)) [
  | inl z ↦ absurd (ground (arith, z))
  | inr z ↦ rw z (elim (Bool-cases (ltb count max)) [
    | inl l ↦ rw l ((count, 0), refl)
    | inr l ↦ rw l ((max, count - max), refl)
  ])
]

pub if_false :
    {A : Type 0} (b : Bool) (o r : Option A) → b ≡ false → o ≡ r → (if b then none else o) ≡ r
if_false true o r h e = absurd (grind (arith, h))
if_false false o r h e = e

pub queue_cases : {A : Type 0} (xs : List A) → (xs ≡ []) ⊎ (0 < length xs)
queue_cases [] = inl refl
queue_cases (x ∷ xs) = inr (omega arith)

module _ (Item : Type 0) (weigh : Item → ℕ) where
  -- The thread can go on whatever full_ is.
  abbrev pub IsReady : Phase → List Item → Type 0
  IsReady waiting [] = Unit
  IsReady waiting (x ∷ xs) = ⊥
  IsReady reserved [] = ⊥
  IsReady reserved (x ∷ xs) = Unit
  IsReady pushed xs = Unit

  pub record ReadyCall (ts : List (Caller Item)) : Type 0 where
    pub at : ℕ
    pub caller : Caller Item
    pub others : List (Caller Item)
    pub picked : pick at ts ≡ some (caller, others)
    pub ready : IsReady caller.phase caller.items

  -- No thread is ready: each waits for full_, unless there is none.
  pub record IsBlocked (ts : List (Caller Item)) : Type 0 where
    pub no_slot : sum_by (slot_of Item weigh) ts ≡ 0
    pub no_item : sum_by (item_of Item weigh) ts ≡ 0
    pub front :
        (ts ≡ [])
        ⊎ ((x : Item) × (xs : List Item) × (f : Bool) × (rest : List (Caller Item)) × (ts
              ≡ record { phase = waiting; items = x ∷ xs; is_failure = f } ∷ rest))

  pub caller_cases :
      (ts : List (Caller Item)) → sum_by (stray Item weigh) ts ≡ 0 → ReadyCall ts ⊎ IsBlocked ts
  unfolding pick
  caller_cases [] h = inr (record { no_slot = refl; no_item = refl; front = inl refl })
  caller_cases (t ∷ ts) h =
      here t.phase t.items t.is_failure (omega (arith, h)) (caller_cases ts (omega (arith, h)))
    where
      here :
          (ph : Phase) (xs : List Item) (f : Bool)
          → stray_in Item weigh ph xs ≡ 0
          → ReadyCall ts ⊎ IsBlocked ts
          → ReadyCall (record { phase = ph; items = xs; is_failure = f } ∷ ts)
            ⊎ IsBlocked (record { phase = ph; items = xs; is_failure = f } ∷ ts)
      here waiting [] f k o = inl (record {
        at = 0;
        caller = record { phase = waiting; items = []; is_failure = f };
        others = ts;
        picked = refl;
        ready = tt;
      })
      here reserved (x ∷ xs) f k o = inl (record {
        at = 0;
        caller = record { phase = reserved; items = x ∷ xs; is_failure = f };
        others = ts;
        picked = refl;
        ready = tt;
      })
      here pushed xs f k o = inl (record {
        at = 0;
        caller = record { phase = pushed; items = xs; is_failure = f };
        others = ts;
        picked = refl;
        ready = tt;
      })
      here reserved [] f k o = absurd (omega (arith, k))
      here waiting (x ∷ xs) f k (inl r) = inl (record {
        at = suc r.at;
        caller = r.caller;
        others = record { phase = waiting; items = x ∷ xs; is_failure = f } ∷ r.others;
        picked = rw r.picked refl;
        ready = r.ready;
      })
      here waiting (x ∷ xs) f k (inr b) = inr (record {
        no_slot = omega (arith, b.no_slot);
        no_item = omega (arith, b.no_item);
        front = inr (x, xs, f, ts, refl);
      })
