-- ===== src/Matches/Knapsack/Subsets.antt =====
-- The table against all the subsets of the candidates.
use vici.Base.{
  ℕ, zero, suc, ◌+◌, ◌-◌, ◌≤◌, ◌≡◌, refl, ◌∙◌, ap, ◌⊎◌, inl, inr, true, false, List, [], ◌∷◌, arith,
  Bool-cases,
}
use vici.Base.Floats.{Floats, IsOrdered}
use vici.Matches.Models.{JobCandidate, total_of}
use vici.Matches.Knapsack.{neg_inf, cents}
use vici.Matches.Knapsack.Rounds.{taken}
use vici.Matches.Knapsack.Table.{best, marked}
use vici.Matches.Knapsack.WayBack.{chosen}

-- A selection from a list, in the order of the list.
pub data Picks {A : Type 0} : List A → List A → Type 0 where
  done : Picks [] []
  leave : {xs ys : List A} (x : A) → Picks xs ys → Picks (x ∷ xs) ys
  pick_one : {xs ys : List A} (x : A) → Picks xs ys → Picks (x ∷ xs) (x ∷ ys)

module _ {fl : Floats} where
  open fl use {Float, nought, minus, le?}

  -- The negated duration of a selection, subtracted in the order in which the code does it: the
  -- last of the list first.
  abbrev pub neg_duration_of : List (JobCandidate fl) → Float
  neg_duration_of [] = nought
  neg_duration_of (c ∷ cs) = minus (neg_duration_of cs) c.duration

  -- The cell of a sum holds that sum, or `NEG_INF`.
  pub best-earned :
      (cs : List (JobCandidate fl)) (w : ℕ)
      → ((best cs w).earned ≡ neg_inf) ⊎ ((best cs w).earned ≡ cents w)
  best-earned [] zero = inr refl
  best-earned [] (suc w) = inl refl
  best-earned (c ∷ cs) w = ground (arith, best-earned cs w, best-earned cs (w - c.earnings))

  best-marked :
      (c : JobCandidate fl) (cs : List (JobCandidate fl)) (w : ℕ)
      → marked c cs w ≡ true
      → (c.earnings ≤ w)
        × ((best cs (w - c.earnings)).earned ≡ cents (w - c.earnings))
        × (best (c ∷ cs) w ≡ taken c (best cs (w - c.earnings)))
  best-marked c cs w h = ground (arith, best-earned cs (w - c.earnings))

  best-unmarked :
      (c : JobCandidate fl) (cs : List (JobCandidate fl)) (w : ℕ)
      → marked c cs w ≡ false
      → best (c ∷ cs) w ≡ best cs w
  best-unmarked c cs w h = ground arith

  -- A reachable cell is that of the selection that the marks spell out.
  pub record IsOf (cs : List (JobCandidate fl)) (w : ℕ) (sel : List (JobCandidate fl))
      : Type 0 where
    pub picked : Picks cs sel
    pub total : total_of sel ≡ w
    pub duration : neg_duration_of sel ≡ (best cs w).neg_duration

  pub chosen-IsOf :
      (cs : List (JobCandidate fl)) (w : ℕ) → (best cs w).earned ≡ cents w → IsOf cs w (chosen cs w)
  chosen-IsOf [] zero h = record { picked = done; total = refl; duration = refl }
  chosen-IsOf [] (suc w) h = absurd (cc)
  chosen-IsOf (c ∷ cs) w h = elim (Bool-cases (marked c cs w)) [
    | inl kept ↦
        let (le, reached, same) = best-marked c cs w kept in
        let p = chosen-IsOf cs (w - c.earnings) reached in
        rw kept (record {
          picked = pick_one c p.picked;
          total = omega (arith, p.total);
          duration = ap (λ d. minus d c.duration) p.duration ∙ rw same refl;
        })
    | inr left ↦
        let same = best-unmarked c cs w left in
        let p = chosen-IsOf cs w (rw same at h) in
        rw left (record {
          picked = leave c p.picked;
          total = p.total;
          duration = p.duration ∙ rw same refl;
        })
  ]

  le?-refl : IsOrdered fl → (a : Float) → le? a a ≡ true
  le?-refl o a = ground (arith, o.le_total a a)

  -- A round makes no cell worse.
  best-keeps :
      (c : JobCandidate fl) (cs : List (JobCandidate fl)) (w : ℕ)
      → IsOrdered fl
      → (best cs w).earned ≡ cents w
      → ((best (c ∷ cs) w).earned ≡ cents w)
        × (le? (best cs w).neg_duration (best (c ∷ cs) w).neg_duration ≡ true)
  best-keeps c cs w o h = elim (Bool-cases (marked c cs w)) [
    | inl kept ↦
        let (le, reached, same) = best-marked c cs w kept in
        let cur = (best cs w).neg_duration in
        let new = minus (best cs (w - c.earnings)).neg_duration c.duration in
        rw same (ground (arith, reached, h, o.le_total cur new))
    | inr left ↦ rw (best-unmarked c cs w left) (h, le?-refl o (best cs w).neg_duration)
  ]

  -- A round offers its candidate to every reachable cell.
  best-takes :
      (c : JobCandidate fl) (cs : List (JobCandidate fl)) (v : ℕ)
      → IsOrdered fl
      → (best cs v).earned ≡ cents v
      → ((best (c ∷ cs) (c.earnings + v)).earned ≡ cents (c.earnings + v))
        × (le?
              (minus (best cs v).neg_duration c.duration)
              (best (c ∷ cs) (c.earnings + v)).neg_duration
            ≡ true)
  best-takes c cs v o h =
      let back : c.earnings + v - c.earnings ≡ v = omega arith in
      let new = minus (best cs v).neg_duration c.duration in
      let cur = (best cs (c.earnings + v)).neg_duration in
      ground (
        arith,
        back,
        ap (best cs) back,
        best-earned cs (c.earnings + v),
        o.le_total new cur,
        le?-refl o new,
      )

  -- No selection beats the cell of its sum.
  pub record IsBeaten (cs : List (JobCandidate fl)) (sel : List (JobCandidate fl)) : Type 0 where
    pub reached : (best cs (total_of sel)).earned ≡ cents (total_of sel)
    pub quicker : le? (neg_duration_of sel) (best cs (total_of sel)).neg_duration ≡ true

  pub Picks-IsBeaten :
      IsOrdered fl → {cs sel : List (JobCandidate fl)} → Picks cs sel → IsBeaten cs sel
  Picks-IsBeaten o done = record { reached = refl; quicker = le?-refl o nought }
  Picks-IsBeaten o (leave {xs} {ys} c p) =
      let q = Picks-IsBeaten o p in
      let (r, le) = best-keeps c xs (total_of ys) o q.reached in
      record { reached = r; quicker = o.le_trans _ _ _ q.quicker le }
  Picks-IsBeaten o (pick_one {xs} {ys} c p) =
      let q = Picks-IsBeaten o p in
      let (r, le) = best-takes c xs (total_of ys) o q.reached in
      record { reached = r; quicker = o.le_trans _ _ _ (o.minus_mono _ _ c.duration q.quicker) le }
