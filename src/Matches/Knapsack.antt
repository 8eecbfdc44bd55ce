-- ===== src/Matches/Knapsack.antt =====
-- `MatchService._dp_select` of src/matches/service.py: the table, its loops and the way back.
-- `none` stands for an IndexError; the theorems in the modules below show that there is none.
-- The negative durations are floats, and are compared and subtracted as floats are.
pub mod Rounds
pub mod Table
pub mod WayBack
pub mod Subsets
pub mod Greatest
pub mod Optimal
pub mod Goal
use vici.Base.{
  ℕ, zero, suc, ◌+◌, ◌-◌, Bool, true, false, Option, none, some, List, [], ◌∷◌, ◌++◌, map, min, ltb,
  ◌==◌, if◌then◌else◌, ◌>>=◌, get_elem?, store, replicate, maximum,
}
use vici.Base.Floats.{Floats, below}
use vici.Matches.Models.{JobCandidate, total_of}

-- The first component of a cell: `NEG_INF` or an amount of cents.
pub data Earned : Type 0 where
  neg_inf : Earned
  cents : ℕ → Earned

-- `dp[w]`, a pair of what is earned and the negated duration.
pub record Cell (fl : Floats) : Type 0 where
  pub earned : Earned
  pub neg_duration : fl.Float

-- The table and the row of `keep` that one round fills.
pub record Round (fl : Floats) : Type 0 where
  pub dp : List (Cell fl)
  pub row : List ℕ

-- The way back: what is selected, the rest of `w`, and whether the loop has been left by `break`.
pub record Trace (fl : Floats) : Type 0 where
  pub selected : List (JobCandidate fl)
  pub rest : ℕ
  pub broken : Bool

-- `a > b` on pairs: the second components count where the first are equal.
abbrev gt_by : Earned → Earned → Bool → Bool
gt_by neg_inf neg_inf later = later
gt_by neg_inf (cents b) later = false
gt_by (cents a) neg_inf later = true
gt_by (cents a) (cents b) later = if a == b then later else ltb b a

module _ {fl : Floats} where
  open fl use {nought, minus}

  abbrev pub unreachable : Cell fl
  unreachable = record { earned = neg_inf; neg_duration = nought }

  abbrev pub origin : Cell fl
  origin = record { earned = cents 0; neg_duration = nought }

  abbrev pub gt : Cell fl → Cell fl → Bool
  gt a b = gt_by a.earned b.earned (below fl b.neg_duration a.neg_duration)

  -- `candidate_val`
  abbrev pub extend : JobCandidate fl → ℕ → Cell fl → Cell fl
  extend cand prev_e prev = record {
    earned = cents (prev_e + cand.earnings);
    neg_duration = minus prev.neg_duration cand.duration;
  }

  -- The assignments under `if candidate_val > dp[w]`.
  pub write : ℕ → Cell fl → Round fl → Option (Round fl)
  write w candidate_val r = do
    dp ← store r.dp w candidate_val
    row ← store r.row w 1
    some (record { dp = dp; row = row })

  pub offer : ℕ → Cell fl → Cell fl → Round fl → Option (Round fl)
  unfolding write
  offer w candidate_val current r =
      if gt candidate_val current then write w candidate_val r else some r

  -- The rest of the loop body, by what `prev_e` is: `continue` at `NEG_INF`.
  pub relax_from : JobCandidate fl → ℕ → Earned → Cell fl → Round fl → Option (Round fl)
  unfolding offer
  relax_from cand w neg_inf prev r = some r
  relax_from cand w (cents prev_e) prev r =
      get_elem? r.dp w >>= λ current. offer w (extend cand prev_e prev) current r

  -- The body of the loop over `w`.
  pub relax_at : JobCandidate fl → ℕ → Round fl → Option (Round fl)
  unfolding relax_from
  relax_at cand w r = do
    prev ← get_elem? r.dp (w - cand.earnings)
    relax_from cand w prev.earned prev r

  -- `for w in range(capacity, e - 1, -1)`, with `rounds` values of `w` left, of which `e` is the last.
  pub relax_down : JobCandidate fl → ℕ → Round fl → Option (Round fl)
  relax_down cand zero r = some r
  relax_down cand (suc rounds) r =
      relax_at cand (cand.earnings + rounds) r >>= relax_down cand rounds

  -- One round of the loop over the candidates, on a new row of `keep`.
  pub relax : ℕ → JobCandidate fl → List (Cell fl) → Option (Round fl)
  relax capacity cand dp =
      relax_down cand (suc capacity - cand.earnings)
        (record { dp = dp; row = replicate (suc capacity) 0 })

  -- The loop over the candidates: the last table, and the rows of `keep`.
  pub fill : ℕ → List (JobCandidate fl) → List (Cell fl) → Option (List (Cell fl) × List (List ℕ))
  fill capacity [] dp = some (dp, [])
  fill capacity (cand ∷ cands) dp = do
    r ← relax capacity cand dp
    (last, keep) ← fill capacity cands r.dp
    some (last, r.row ∷ keep)

  -- `max` over the reachable indices by the key `dp[w]`: the first of the greatest wins.
  pub better : ℕ → Cell fl → Option (ℕ × Cell fl) → Option (ℕ × Cell fl)
  better w cell none = some (w, cell)
  better w cell (some (v, best)) = if gt cell best then some (w, cell) else some (v, best)

  pub consider : ℕ → Cell fl → Option (ℕ × Cell fl) → Option (ℕ × Cell fl)
  unfolding better
  consider w cell best = elim cell.earned [ neg_inf ↦ best | cents _ ↦ better w cell best ]

  pub best_from : ℕ → List (Cell fl) → Option (ℕ × Cell fl) → Option (ℕ × Cell fl)
  best_from w [] best = best
  best_from w (cell ∷ dp) best = best_from (suc w) dp (consider w cell best)

  -- `best_w`, with the default of `max`.
  pub best_w : List (Cell fl) → ℕ
  best_w dp = elim (best_from 0 dp none) [ none ↦ 0 | some (w, _) ↦ w ]

  -- The body of the loop back over the candidates, which comes to the last one first.
  pub keep_cand : JobCandidate fl → Trace fl → ℕ → Trace fl
  keep_cand cand t kept = if kept == 0 then t else record {
    selected = t.selected ++ cand ∷ [];
    rest = t.rest - cand.earnings;
    broken = ltb t.rest cand.earnings;
  }

  pub pick : JobCandidate fl → List ℕ → Trace fl → Option (Trace fl)
  unfolding keep_cand
  pick cand row t =
      if t.broken then some t else (get_elem? row t.rest >>= λ kept. some (keep_cand cand t kept))

  pub trace_back : List (JobCandidate fl) → List (List ℕ) → ℕ → Option (Trace fl)
  trace_back [] keep w = some (record { selected = []; rest = w; broken = false })
  trace_back (cand ∷ cands) [] w = none
  trace_back (cand ∷ cands) (row ∷ keep) w = trace_back cands keep w >>= pick cand row

  abbrev pub capacity_of : List (JobCandidate fl) → ℕ → ℕ
  capacity_of candidates target =
      min (total_of candidates) (target + maximum (map (λ c. c.earnings) candidates))

  -- `dp = [(NEG_INF, 0.0)] * (capacity + 1)` with `dp[0] = (0, 0.0)`
  abbrev pub first_table : ℕ → List (Cell fl)
  first_table capacity = origin ∷ replicate capacity unreachable

  -- From the table on.
  pub run_table : ℕ → List (JobCandidate fl) → Option (List (JobCandidate fl))
  run_table capacity candidates = do
    dp ← store (replicate (suc capacity) unreachable) 0 origin
    (last, keep) ← fill capacity candidates dp
    t ← trace_back candidates keep (best_w last)
    some t.selected

  pub dp_select : List (JobCandidate fl) → ℕ → Option (List (JobCandidate fl))
  dp_select [] target = some []
  dp_select (c ∷ cs) target =
      let capacity = capacity_of (c ∷ cs) target in
      if capacity == 0 then some [] else run_table capacity (c ∷ cs)
