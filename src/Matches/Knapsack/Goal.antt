-- ===== src/Matches/Knapsack/Goal.antt =====
-- What the selection means for the worker's goal.
use vici.Base.{ℕ, ◌+◌, ◌-◌, ◌≤◌, ◌≡◌, ◌↔◌, true, some, List, [], ◌∷◌, reverse, arith, All}
use vici.Base.Floats.{Floats, IsOrdered}
use native.Mathlib.Decide.{dec_le}
use vici.Matches.Models.{JobCandidate, total_of}
use vici.Matches.Knapsack.{capacity_of, dp_select}
use vici.Matches.Knapsack.Subsets.{Picks, done, pick_one}
use vici.Matches.Knapsack.Optimal.{
  All-reverse_aux, leave_all, take_all, total-reverse_aux, total-Picks-le, max_earning,
  fits_maximum, IsBest, dp_select-IsBest,
}

module _ {fl : Floats} where
  open fl use {nought, le?}

  -- A selection that reaches `target`, and overshoots it by at most `bound`.
  record Reaches (cs : List (JobCandidate fl)) (target bound : ℕ) : Type 0 where
    sel : List (JobCandidate fl)
    picked : Picks cs sel
    enough : target ≤ total_of sel
    close : total_of sel ≤ target + bound

  -- Taking jobs until the target is reached overshoots it by less than the last job.
  greedy :
      (cs : List (JobCandidate fl)) (target bound : ℕ)
      → All (λ c. c.earnings ≤ bound) cs
      → target ≤ total_of cs
      → Reaches cs target bound
  greedy [] target bound fits h = record {
    sel = [];
    picked = done;
    enough = h;
    close = omega arith;
  }
  greedy (c ∷ cs) target bound fits h = elim (dec_le target c.earnings) [
    | yes one_does ↦ record {
      sel = c ∷ [];
      picked = pick_one c (leave_all cs);
      enough = omega arith;
      close = omega (arith, fits.0);
    }
    | no short ↦
        let r = greedy cs (target - c.earnings) bound fits.1 (omega arith) in
        record {
          sel = c ∷ r.sel;
          picked = pick_one c r.picked;
          enough = omega (arith, r.enough);
          close = omega (arith, r.close);
        }
  ]

  pub IsBest-reaches :
      (cs sel : List (JobCandidate fl)) (target : ℕ)
      → IsBest cs (capacity_of cs target) sel
      → target ≤ total_of cs
      → target ≤ total_of sel
  IsBest-reaches cs sel target b h =
      let same = total-reverse_aux cs [] in
      let r =
        greedy (reverse cs) target (max_earning cs)
          (All-reverse_aux _ cs [] (fits_maximum (max_earning cs) cs (omega arith)) tt)
          (omega (arith, same)) in
      omega (
        arith,
        r.enough,
        r.close,
        same,
        total-Picks-le r.picked,
        b.most r.sel r.picked (omega (arith, r.close, same, total-Picks-le r.picked)),
      )

  pub IsBest-le-all :
      (cs sel : List (JobCandidate fl)) (target : ℕ)
      → IsBest cs (capacity_of cs target) sel
      → total_of sel ≤ total_of cs
  IsBest-le-all cs sel target b = omega (arith, total-Picks-le b.picked, total-reverse_aux cs [])

  -- The selected jobs reach the goal exactly if all the candidates together do, and overshoot it by
  -- no more than the best paid candidate earns.
  pub dp_select_reaches_goal :
      IsOrdered fl
      → (cs : List (JobCandidate fl)) (target : ℕ) → All (λ c. le? nought c.duration ≡ true) cs
      → (sel : List (JobCandidate fl)) × (dp_select cs target ≡ some sel)
        × ((target ≤ total_of sel) ↔ (target ≤ total_of cs))
        × (total_of sel ≤ target + max_earning cs)
  dp_select_reaches_goal o cs target d =
      let (sel, e, b) = dp_select-IsBest o cs target d in
      (
        sel,
        e,
        (λ h. omega (arith, IsBest-le-all cs sel target b), IsBest-reaches cs sel target b),
        omega (arith, b.within),
      )

  -- Where all the candidates together earn no more than the goal and the best paid of them, the
  -- selection earns all that there is to earn: jobs are added past the goal, whatever time they take.
  pub dp_select_earns_everything :
      IsOrdered fl
      → (cs : List (JobCandidate fl)) (target : ℕ) → All (λ c. le? nought c.duration ≡ true) cs
      → total_of cs ≤ target + max_earning cs
      → (sel : List (JobCandidate fl)) × (dp_select cs target ≡ some sel)
        × (total_of sel ≡ total_of cs)
  dp_select_earns_everything o cs target d h =
      let (sel, e, b) = dp_select-IsBest o cs target d in
      let same = total-reverse_aux cs [] in
      let all = b.most (reverse cs) (take_all (reverse cs)) (omega (arith, same)) in
      (sel, e, omega (arith, same, all, IsBest-le-all cs sel target b))
