-- ===== src/Loadgen/Totals.antt =====
-- What backend/examples/loadgen.rs counts.
use denis.Base.{
  ℕ, suc, ◌+◌, Bool, Option, none, some, List, [], ◌∷◌, ◌++◌, length, if◌then◌else◌, ◌≡◌, arith,
}

-- `Stats`: a histogram is the latencies that it has taken, in microseconds.
pub record LoadStats : Type 0 where
  pub completed : ℕ
  pub errors : ℕ
  pub hist : List ℕ

abbrev pub new_stats : LoadStats
new_stats = record { completed = 0; errors = 0; hist = [] }

-- How a round of a worker ends: the query cannot be sent, an answer arrives, or none does in time.
pub data Try : Type 0 where
  unsent : Try
  answered : ℕ → Try
  unanswered : Try

-- `takes` tells which latencies the histogram takes: the error for others is dropped.
module _ (takes : ℕ → Bool) where
  unfoldable pub count : Try → LoadStats → LoadStats
  count unsent s = record s { errors = s.errors + 1 }
  count (answered latency) s = record s {
    completed = s.completed + 1;
    hist = if takes latency then s.hist ++ latency ∷ [] else s.hist;
  }
  count unanswered s = record s { errors = s.errors + 1 }

  -- The rounds that begin before the deadline.
  unfoldable pub worker_loop : List Try → LoadStats → LoadStats
  worker_loop [] s = s
  worker_loop (t ∷ tries) s = worker_loop tries (count t s)

  -- A worker whose socket can be neither bound nor connected counts nothing.
  unfoldable pub worker : Bool → List Try → LoadStats
  worker connected tries = if connected then worker_loop tries new_stats else new_stats

  count-one :
      (t : Try) (s : LoadStats)
      → (count t s).completed + (count t s).errors ≡ suc (s.completed + s.errors)
  unfolding count
  count-one unsent s = omega arith
  count-one (answered latency) s = omega arith
  count-one unanswered s = omega arith

  -- Every round is counted once, as completed or as an error.
  pub worker_loop-counts :
      (tries : List Try) (s : LoadStats)
      → (worker_loop tries s).completed + (worker_loop tries s).errors
        ≡ s.completed + s.errors + length tries
  unfolding worker_loop
  worker_loop-counts [] s = omega arith
  worker_loop-counts (t ∷ tries) s =
      omega (arith, worker_loop-counts tries (count t s), count-one t s)

-- The sum of two results; the histograms of all workers have the same bounds.
unfoldable pub add_stats : LoadStats → LoadStats → LoadStats
add_stats total s = record {
  completed = total.completed + s.completed;
  errors = total.errors + s.errors;
  hist = total.hist ++ s.hist;
}

-- The loop over the workers as they end; `none` is one that has panicked.
unfoldable pub totals : List (Option LoadStats) → LoadStats → LoadStats
totals [] total = total
totals (none ∷ joined) total = totals joined total
totals (some s ∷ joined) total = totals joined (add_stats total s)

-- The rounds that the workers that ended have counted.
unfoldable pub rounds_of : List (Option LoadStats) → ℕ
rounds_of [] = 0
rounds_of (none ∷ joined) = rounds_of joined
rounds_of (some s ∷ joined) = s.completed + s.errors + rounds_of joined

-- The totals count every round of the workers that ended, in whatever order they did.
pub totals-rounds :
    (joined : List (Option LoadStats)) (total : LoadStats)
    → (totals joined total).completed + (totals joined total).errors
      ≡ total.completed + total.errors + rounds_of joined
unfolding totals rounds_of add_stats
totals-rounds [] total = omega arith
totals-rounds (none ∷ joined) total = totals-rounds joined total
totals-rounds (some s ∷ joined) total = omega (arith, totals-rounds joined (add_stats total s))
