-- ===== src/Latency.antt =====
-- include/Latency.h: the counts of a Latency, and Record by several threads at once. Its accesses to the
-- atomics are the steps; the average is set under the lock. The counts are taken not to reach 2^63.
mod Totals
mod Tests
use estar_go.Base.{
  ℕ, ◌+◌, ◌≡◌, Bool, true, false, List, [], ◌∷◌, Option, none, some, if◌then◌else◌, codes, pick,
  on_pick,
}
use estar_go.Base.Int.{ℤ, pos, ◌+ℤ◌, ltb_ℤ, quot}
use estar_go.Base.Floats.{Floats}

-- Where a thread is in Record: before each of the accesses, and behind them.
pub data Stage : Type 0 where
  counting summing testing storing averaging done : Stage

pub record Recording : Type 0 where
  pub stage : Stage
  pub latency : ℤ

module _ (fl : Floats) where
  open fl use {F, of_int, of_text, add, mul}

  pub record Latency : Type 0 where
    pub ema_latency : F
    pub latency_count : ℕ
    pub latency_sum : ℤ
    pub latency_max : ℤ

  -- Clear, and the constructor.
  pub clear : Latency
  clear = record {
    ema_latency = of_int (pos 0);
    latency_count = 0;
    latency_sum = pos 0;
    latency_max = pos 0;
  }

  pub get_average : Latency → ℤ
  get_average l = quot l.latency_sum (l.latency_count + 1)

  -- The next access of a thread that records the latency: the stage behind it, and the counts.
  pub access : Stage → ℤ → Latency → Stage × Latency
  access counting x l = (summing, record l { latency_count = l.latency_count + 1 })
  access summing x l = (testing, record l { latency_sum = l.latency_sum +ℤ x })
  access testing x l = (if ltb_ℤ l.latency_max x then storing else averaging, l)
  access storing x l = (averaging, record l { latency_max = x })
  access averaging x l = (
    done,
    record l {
      ema_latency =
          add (mul (of_text (codes "0.9")) l.ema_latency) (mul (of_text (codes "0.1")) (of_int x));
    },
  )
  access done x l = (done, l)

  pub record Recorder : Type 0 where
    pub counts : Latency
    pub recordings : List Recording

  abbrev pub begin_all : List ℤ → List Recording
  begin_all [] = []
  begin_all (x ∷ xs) = record { stage = counting; latency = x } ∷ begin_all xs

  -- Calls of Record, of one latency each, of which none has begun.
  abbrev pub new_recorder : List ℤ → Recorder
  new_recorder xs = record { counts = clear; recordings = begin_all xs }

  -- The next access of the chosen call; the list's order says nothing.
  pub step : ℕ → Recorder → Option Recorder
  unfolding access
  step i s =
      on_pick
        (λ r rest.
          let a = access r.stage r.latency s.counts in
          some (record {
            counts = a.1;
            recordings = record { stage = a.0; latency = r.latency } ∷ rest;
          }))
        (pick i s.recordings)

  abbrev pub or_kept : Recorder → Option Recorder → Recorder
  or_kept s none = s
  or_kept s (some q) = q

  pub run_steps : List ℕ → Recorder → Recorder
  unfolding step
  run_steps [] s = s
  run_steps (i ∷ rest) s = run_steps rest (or_kept s (step i s))
