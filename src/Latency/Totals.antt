-- ===== src/Latency/Totals.antt =====
-- What the counts of include/Latency.h come to.
use estar_go.Base.{ℕ, ◌+◌, ◌≡◌, List, [], ◌∷◌, if◌then◌else◌, length, sum_by}
use estar_go.Base.Int.{ℤ, pos, ◌+ℤ◌, ◌≤ℤ◌, ltb_ℤ, quot, pos_part, neg_part}
use estar_go.Base.Floats.{Floats}
use estar_go.Latency.{Stage, Recording, Latency, Recorder, counting, summing, done, get_average}

abbrev total : List ℤ → ℤ
total [] = pos 0
total (x ∷ xs) = x +ℤ total xs

abbrev is_counted : Stage → ℕ
is_counted counting = 0
is_counted _ = 1

-- The latency's share of the sum, once it is added; `part` is one of its two parts.
abbrev added : (ℤ → ℕ) → Stage → ℤ → ℕ
added part counting x = 0
added part summing x = 0
added part _ x = part x

abbrev counted_of : Recording → ℕ
counted_of r = is_counted r.stage

abbrev added_of : (ℤ → ℕ) → Recording → ℕ
added_of part r = added part r.stage r.latency

abbrev above : ℤ → ℤ → ℕ
above b x = if ltb_ℤ b x then 1 else 0

abbrev latency_of : (ℤ → ℕ) → Recording → ℕ
latency_of f r = f r.latency

abbrev left : Stage → ℕ
left done = 0
left _ = 1

-- How many calls have not returned.
abbrev pub calls_left : List Recording → ℕ
calls_left rs = sum_by (λ r. left r.stage) rs

module _ (fl : Floats) (xs : List ℤ) where
  record IsCounted (s : Recorder fl) : Type 0 where
    count : s.counts.latency_count ≡ sum_by counted_of s.recordings
    sum :
        pos_part s.counts.latency_sum + sum_by (added_of neg_part) s.recordings
        ≡ neg_part s.counts.latency_sum + sum_by (added_of pos_part) s.recordings
    kept : (f : ℤ → ℕ) → sum_by (latency_of f) s.recordings ≡ sum_by f xs
    max : (b : ℤ) → pos 0 ≤ℤ b → sum_by (above b) xs ≡ 0 → s.counts.latency_max ≤ℤ b

  -- The counts are those of the latencies, and latency_max is above none of their bounds.
  pub record IsTotal (l : Latency fl) : Type 0 where
    pub records : l.latency_count ≡ length xs
    pub sums : l.latency_sum ≡ total xs
    pub average : get_average fl l ≡ quot (total xs) (length xs + 1)
    pub bound : (b : ℤ) → pos 0 ≤ℤ b → sum_by (above b) xs ≡ 0 → l.latency_max ≤ℤ b
