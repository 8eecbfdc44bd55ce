-- ===== src/Matches/Knapsack/Greatest.antt =====
-- `best_w`: the greatest sum that the table reaches.
use vici.Base.{
  ℕ, suc, ◌+◌, ◌-◌, ◌≤◌, ◌<◌, ◌≡◌, refl, ◌∙◌, ap, subst, ◌⊎◌, inl, inr, true, Option, none, some,
  List, [], ◌∷◌, arith, length,
}
use vici.Base.Floats.{Floats}
use vici.Matches.Models.{JobCandidate}
use vici.Matches.Knapsack.{neg_inf, cents, Cell, gt, better, consider, best_from, best_w}
use vici.Matches.Knapsack.Rounds.{entry}
use vici.Matches.Knapsack.Table.{best, IsTable}
use vici.Matches.Knapsack.Subsets.{best-earned}

best-zero : {fl : Floats} (cs : List (JobCandidate fl)) → (best cs 0).earned ≡ cents 0
best-zero [] = refl
best-zero (c ∷ cs) = ground (arith, best-zero cs, ap (best cs) (0-sub c.earnings))
  where
    0-sub : (n : ℕ) → 0 - n ≡ 0
    0-sub n = omega arith

module _ {fl : Floats} (cs : List (JobCandidate fl)) where
  -- The sum `w` can be made.
  abbrev IsReachable : ℕ → Type 0
  IsReachable w = (best cs w).earned ≡ cents w

  -- The best of the indices below `w`, as `max` holds it.
  abbrev IsBestBelow : ℕ → Option (ℕ × Cell fl) → Type 0
  IsBestBelow w none = (j : ℕ) → j < w → ¬ (IsReachable j)
  IsBestBelow w (some (v, cell)) =
      (v < w) × (cell.earned ≡ cents v) × IsReachable v × ((j : ℕ) → j < w → IsReachable j → j ≤ v)

  consider-IsBestBelow :
      (w : ℕ) (cell : Cell fl) (b : Option (ℕ × Cell fl))
      → cell ≡ best cs w
      → IsBestBelow w b
      → IsBestBelow (suc w) (consider w cell b)
  unfolding consider better
  consider-IsBestBelow w cell b e h = elim (best-earned cs w) [
    | inl bad ↦ rw (ap (λ c. c.earned) e ∙ bad, consider) (skip b h bad)
    | inr good ↦ rw (ap (λ c. c.earned) e ∙ good, consider) (improve b h good)
  ]
    where
      at_or_below : (j : ℕ) → j < suc w → (j < w) ⊎ (j ≡ w)
      at_or_below j lt = omega arith

      unreached : (best cs w).earned ≡ neg_inf → (j : ℕ) → j ≡ w → ¬ (IsReachable j)
      unreached bad j same r = cc (ap (λ (k : ℕ). (best cs k).earned) same)

      skip :
          (b : Option (ℕ × Cell fl))
          → IsBestBelow w b
          → (best cs w).earned ≡ neg_inf
          → IsBestBelow (suc w) b
      skip none h bad = λ j lt r. elim (at_or_below j lt) [
        | inl less ↦ h j less r
        | inr same ↦ unreached bad j same r
      ]
      skip (some (v, c)) h bad = (
        omega (arith, h.0),
        h.1,
        h.2,
        λ j lt r. elim (at_or_below j lt) [
          | inl less ↦ h.3 j less r
          | inr same ↦ absurd (unreached bad j same r)
        ],
      )

      improve :
          (b : Option (ℕ × Cell fl))
          → IsBestBelow w b
          → IsReachable w
          → IsBestBelow (suc w) (better w cell b)
      improve none h good = (omega arith, ap (λ c. c.earned) e ∙ good, good, λ j lt r. omega arith)
      improve (some (v, c)) h good =
          let earned : cell.earned ≡ cents w = ap (λ c. c.earned) e ∙ good in
          let beats : gt cell c ≡ true = ground (arith, earned, h.0, h.1) in
          rw beats (omega arith, earned, good, λ j lt r. omega arith)

  best_from-IsBestBelow :
      (w : ℕ) (dp : List (Cell fl)) (b : Option (ℕ × Cell fl))
      → ((j : ℕ) → j < length dp → entry dp j ≡ best cs (w + j))
      → IsBestBelow w b
      → IsBestBelow (w + length dp) (best_from w dp b)
  unfolding best_from
  best_from-IsBestBelow w [] b cells h = subst (λ k. IsBestBelow k b) (omega arith) h
  best_from-IsBestBelow w (cell ∷ dp) b cells h =
      subst (λ k. IsBestBelow k (best_from (suc w) dp (consider w cell b))) (omega arith)
        (best_from-IsBestBelow (suc w) dp (consider w cell b)
          (λ j lt. cells (suc j) (omega arith) ∙ ap (best cs) (omega arith))
          (consider-IsBestBelow w cell b (cells 0 (omega arith) ∙ ap (best cs) (omega arith)) h))

  -- `best_w` is an index of the table, is reachable, and no greater one is.
  pub record IsGreatest (capacity w : ℕ) : Type 0 where
    pub in_range : w ≤ capacity
    pub reachable : IsReachable w
    pub greatest : (j : ℕ) → j ≤ capacity → IsReachable j → j ≤ w

  IsBestBelow-IsGreatest :
      (capacity : ℕ) (b : Option (ℕ × Cell fl))
      → IsBestBelow (suc capacity) b
      → IsGreatest capacity (elim b [ none ↦ 0 | some (w, _) ↦ w ])
  IsBestBelow-IsGreatest capacity none h = absurd (h 0 (omega arith) (best-zero cs))
  IsBestBelow-IsGreatest capacity (some (v, c)) h = record {
    in_range = omega (arith, h.0);
    reachable = h.2;
    greatest = λ j le. h.3 j (omega arith);
  }

  pub best_w-IsGreatest :
      (capacity : ℕ) (dp : List (Cell fl))
      → IsTable capacity cs dp
      → IsGreatest capacity (best_w dp)
  unfolding best_w
  best_w-IsGreatest capacity dp t = IsBestBelow-IsGreatest capacity (best_from 0 dp none) (
      subst (λ k. IsBestBelow k (best_from 0 dp none)) (omega (arith, t.size))
        (best_from-IsBestBelow 0 dp none
          (λ j lt. t.cells j (omega (arith, t.size)) ∙ ap (best cs) (omega arith))
          (λ j lt. absurd (omega arith))))
