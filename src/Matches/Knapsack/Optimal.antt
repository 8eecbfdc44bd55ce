-- ===== src/Matches/Knapsack/Optimal.antt =====
-- What `_dp_select` selects.
use mathlib.Core.List.{reverse_aux, append-nil}
use vici.Base.{
  ℕ, suc, ◌+◌, ◌≤◌, ◌≡◌, refl, ◌∙◌, sym, subst, inl, inr, true, some, List, [], ◌∷◌, map, reverse,
  arith, ◌==◌, All, maximum, replicate, store_of_lt, length-replicate, Bool-cases, ==_iff,
}
use vici.Base.Floats.{Floats, IsOrdered}
use native.Mathlib.Decide.{dec_le}
use vici.Matches.Models.{JobCandidate, total_of}
use vici.Matches.Knapsack.{unreachable, origin, capacity_of, run_table, best_w, dp_select}
use vici.Matches.Knapsack.Table.{first_table-IsTable, fill-IsTable}
use vici.Matches.Knapsack.WayBack.{chosen, trace_back-IsOnTrack}
use vici.Matches.Knapsack.Subsets.{
  Picks, done, leave, pick_one, neg_duration_of, chosen-IsOf, Picks-IsBeaten,
}
use vici.Matches.Knapsack.Greatest.{IsGreatest, best_w-IsGreatest}

-- The two lemmas on `reverse` that the statements need.
pub All-reverse_aux :
    {A : Type 0} (P : A → Type 0) (xs ys : List A) → All P xs → All P ys → All P (reverse_aux xs ys)
All-reverse_aux P [] ys hx hy = hy
All-reverse_aux P (x ∷ xs) ys hx hy = All-reverse_aux P xs (x ∷ ys) hx.1 (hx.0, hy)

pub All-Picks : {A : Type 0} (P : A → Type 0) {xs ys : List A} → Picks xs ys → All P xs → All P ys
All-Picks P done h = tt
All-Picks P (leave x p) h = All-Picks P p h.1
All-Picks P (pick_one x p) h = (h.0, All-Picks P p h.1)

pub leave_all : {A : Type 0} (xs : List A) → Picks xs []
leave_all [] = done
leave_all (x ∷ xs) = leave x (leave_all xs)

pub take_all : {A : Type 0} (xs : List A) → Picks xs xs
take_all [] = done
take_all (x ∷ xs) = pick_one x (take_all xs)

module _ {fl : Floats} where
  open fl use {nought, le?}

  pub total-reverse_aux :
      (xs ys : List (JobCandidate fl)) → total_of (reverse_aux xs ys) ≡ total_of xs + total_of ys
  total-reverse_aux [] ys = omega arith
  total-reverse_aux (x ∷ xs) ys = omega (arith, total-reverse_aux xs (x ∷ ys))

  pub total-Picks-le : {xs ys : List (JobCandidate fl)} → Picks xs ys → total_of ys ≤ total_of xs
  total-Picks-le done = omega arith
  total-Picks-le (leave x p) = omega (arith, total-Picks-le p)
  total-Picks-le (pick_one x p) = omega (arith, total-Picks-le p)

  abbrev pub max_earning : List (JobCandidate fl) → ℕ
  max_earning cs = maximum (map (λ c. c.earnings) cs)

  -- Every candidate's earnings fit the table.
  pub fits_maximum :
      (bound : ℕ) (cs : List (JobCandidate fl))
      → max_earning cs ≤ bound
      → All (λ c. c.earnings ≤ bound) cs
  fits_maximum bound [] h = tt
  fits_maximum bound (c ∷ cs) h = (omega arith, fits_maximum bound cs (omega arith))

  maximum-le-total : (cs : List (JobCandidate fl)) → max_earning cs ≤ total_of cs
  maximum-le-total [] = omega arith
  maximum-le-total (c ∷ cs) = omega (arith, maximum-le-total cs)

  -- The selection is a subset of the candidates (the last first), stays within the capacity, and
  -- is the best within it: none earns more, and none that earns as much takes less time.
  pub record IsBest (cs : List (JobCandidate fl)) (capacity : ℕ) (sel : List (JobCandidate fl))
      : Type 0 where
    pub picked : Picks (reverse cs) sel
    pub within : total_of sel ≤ capacity
    pub most :
        (other : List (JobCandidate fl))
        → Picks (reverse cs) other
        → total_of other ≤ capacity
        → total_of other ≤ total_of sel
    pub quickest :
        (other : List (JobCandidate fl))
        → Picks (reverse cs) other
        → total_of other ≡ total_of sel
        → le? (neg_duration_of other) (neg_duration_of sel) ≡ true

  chosen-IsBest :
      IsOrdered fl
      → (cs : List (JobCandidate fl)) (capacity w : ℕ) → IsGreatest (reverse cs) capacity w
      → IsBest cs capacity (chosen (reverse cs) w)
  chosen-IsBest o cs capacity w g =
      let q = chosen-IsOf (reverse cs) w g.reachable in
      record {
        picked = q.picked;
        within = omega (arith, q.total, g.in_range);
        most = λ other p le.
            omega (arith, q.total, g.greatest (total_of other) le (Picks-IsBeaten o p).reached);
        quickest = λ other p same. rw (q.duration, ← same ∙ q.total) (Picks-IsBeaten o p).quicker;
      }

  run_table-IsBest :
      IsOrdered fl
      → (capacity : ℕ) (cs : List (JobCandidate fl)) → max_earning cs ≤ capacity
      → (sel : List (JobCandidate fl)) × (run_table capacity cs ≡ some sel) × IsBest cs capacity sel
  unfolding run_table
  run_table-IsBest o capacity cs h =
      let start =
        store_of_lt (replicate (suc capacity) (unreachable {fl = fl})) 0 origin
          (rw (length-replicate (suc capacity) (unreachable {fl = fl})) (omega arith)) in
      let (last, keep, filled, table, rows) =
        fill-IsTable capacity cs [] _ (fits_maximum capacity cs h) (first_table-IsTable capacity) in
      let g = best_w-IsGreatest (reverse cs) capacity last table in
      let (t, traced, p) = trace_back-IsOnTrack capacity (best_w last) cs [] keep g.in_range rows in
      (
        t.selected,
        rw start (rw filled (rw traced refl)),
        subst (IsBest cs capacity) (sym p.completes ∙ append-nil t.selected)
            (chosen-IsBest o cs capacity (best_w last) g),
      )

  total-of_maximum : (cs : List (JobCandidate fl)) → max_earning cs ≡ 0 → total_of cs ≡ 0
  total-of_maximum [] h = refl
  total-of_maximum (c ∷ cs) h = omega (arith, total-of_maximum cs (omega arith))

  zero_capacity :
      (cs : List (JobCandidate fl)) (target : ℕ) → capacity_of cs target ≡ 0 → total_of cs ≡ 0
  zero_capacity cs target h = elim (dec_le 1 (max_earning cs)) [
    | yes some_pay ↦ absurd (omega (arith, maximum-le-total cs))
    | no no_pay ↦ total-of_maximum cs (omega arith)
  ]

  maximum-le-capacity :
      (cs : List (JobCandidate fl)) (target : ℕ) → max_earning cs ≤ capacity_of cs target
  maximum-le-capacity cs target = omega (arith, maximum-le-total cs)

  -- Taking jobs never adds to the negated duration.
  neg_duration-le :
      IsOrdered fl
      → (cs : List (JobCandidate fl)) → All (λ c. le? nought c.duration ≡ true) cs
      → le? (neg_duration_of cs) nought ≡ true
  neg_duration-le o [] h = ground (arith, o.le_total nought nought)
  neg_duration-le o (c ∷ cs) h =
      o.le_trans _ _ _ (o.minus_le (neg_duration_of cs) c.duration h.0) (neg_duration-le o cs h.1)

  -- Where nothing can be earned, nothing is the best selection.
  nothing-IsBest :
      IsOrdered fl
      → (cs : List (JobCandidate fl)) (capacity : ℕ) → All (λ c. le? nought c.duration ≡ true) cs
      → total_of cs ≡ 0
      → IsBest cs capacity []
  nothing-IsBest o cs capacity d z = record {
    picked = leave_all (reverse cs);
    within = omega arith;
    most = λ other p le. omega (arith, total-Picks-le p, total-reverse_aux cs []);
    quickest =
        λ other p same. neg_duration-le o other (All-Picks _ p (All-reverse_aux _ cs [] d tt));
  }

  -- `_dp_select` raises no error, and its selection is the best within the capacity of its table:
  -- none of the selections that fit earns more, and none that earns the same takes less time.
  -- The durations are compared as the code adds them up, in floats.
  pub dp_select-IsBest :
      IsOrdered fl
      → (cs : List (JobCandidate fl)) (target : ℕ) → All (λ c. le? nought c.duration ≡ true) cs
      → (sel : List (JobCandidate fl)) × (dp_select cs target ≡ some sel)
        × IsBest cs (capacity_of cs target) sel
  unfolding dp_select
  dp_select-IsBest o [] target d = ([], refl, nothing-IsBest o [] _ tt refl)
  dp_select-IsBest o (c ∷ cs) target d =
      let capacity = capacity_of (c ∷ cs) target in
      elim (Bool-cases (capacity == 0)) [
        | inl none_fits ↦ (
          [],
          rw none_fits refl,
          nothing-IsBest o (c ∷ cs) capacity d
              (zero_capacity (c ∷ cs) target ((==_iff _ _).0 none_fits)),
        )
        | inr some_fit ↦
            rw some_fit (run_table-IsBest o capacity (c ∷ cs) (maximum-le-capacity (c ∷ cs) target))
      ]
