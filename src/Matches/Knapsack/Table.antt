-- ===== src/Matches/Knapsack/Table.antt =====
-- The table as a function: what each round computes, without arrays.
use mathlib.Core.List.{reverse_aux}
use vici.Base.{
  ℕ, zero, suc, ◌-◌, ◌≤◌, ◌≡◌, refl, ◌∙◌, ap, Bool, some, List, [], ◌∷◌, ◌&&◌, arith, leb,
  if◌then◌else◌, length, get_or, All, replicate, length-replicate, get_or-replicate,
}
use vici.Base.Floats.{Floats}
use native.Mathlib.Decide.{dec_le}
use vici.Matches.Models.{JobCandidate}
use vici.Matches.Knapsack.{Cell, Round, unreachable, origin, relax, fill, first_table}
use vici.Matches.Knapsack.Rounds.{entry, takes, better_of, IsRelaxed, relax_down-IsRelaxed}

module _ {fl : Floats} where
  -- The best cell for the sum `w` over the candidates `cs`, the latest first.
  abbrev pub best : List (JobCandidate fl) → ℕ → Cell fl
  best [] zero = origin
  best [] (suc w) = unreachable
  best (c ∷ cs) w =
      if leb c.earnings w then better_of c (best cs (w - c.earnings)) (best cs w) else best cs w

  -- Whether `keep` marks the sum `w` in the round of `c`.
  abbrev pub marked : JobCandidate fl → List (JobCandidate fl) → ℕ → Bool
  marked c cs w = leb c.earnings w && takes c (best cs (w - c.earnings)) (best cs w)

  pub record IsTable (capacity : ℕ) (seen : List (JobCandidate fl)) (dp : List (Cell fl))
      : Type 0 where
    pub size : length dp ≡ suc capacity
    pub cells : (j : ℕ) → j ≤ capacity → entry dp j ≡ best seen j

  pub record IsRow (capacity : ℕ) (c : JobCandidate fl) (seen : List (JobCandidate fl))
      (row : List ℕ) : Type 0 where
    pub size : length row ≡ suc capacity
    pub marks : (j : ℕ) → j ≤ capacity → get_or row j 0 ≡ (if marked c seen j then 1 else 0)

  pub first_table-IsTable : (capacity : ℕ) → IsTable capacity [] (first_table capacity)
  first_table-IsTable capacity = record {
    size = omega (arith, length-replicate capacity (unreachable {fl = fl}));
    cells = elim [ zero ↦ λ h. refl | suc j ↦ λ h. get_or-replicate capacity j unreachable ];
  }

  relaxed-IsTable :
      (capacity : ℕ) (c : JobCandidate fl) (seen : List (JobCandidate fl)) (r r' : Round fl)
      → c.earnings ≤ capacity
      → IsTable capacity seen r.dp
      → r.row ≡ replicate (suc capacity) 0
      → IsRelaxed c (suc capacity - c.earnings) r r'
      → IsTable capacity (c ∷ seen) r'.dp × IsRow capacity c seen r'.row
  relaxed-IsTable capacity c seen r r' fits t fresh q = (
    record {
      size = q.size_dp ∙ t.size;
      cells = λ j h. elim (dec_le c.earnings j) [
        | yes le ↦ ground (
          arith,
          q.inside j le (omega arith),
          t.cells j h,
          t.cells (j - c.earnings) (omega arith),
        )
        | no gt ↦ ground (arith, q.below_dp j (omega arith), t.cells j h)
      ];
    },
    record {
      size = q.size_row ∙ ap length fresh ∙ length-replicate (suc capacity) 0;
      marks = λ j h.
          let blank : get_or r.row j 0 ≡ 0 = rw fresh (get_or-replicate (suc capacity) j 0) in
          elim (dec_le c.earnings j) [
            | yes le ↦ ground (
              arith,
              blank,
              q.inside j le (omega arith),
              t.cells j h,
              t.cells (j - c.earnings) (omega arith),
            )
            | no gt ↦ ground (arith, blank, q.below_row j (omega arith))
          ];
    },
  )

  relax-IsTable :
      (capacity : ℕ) (c : JobCandidate fl) (seen : List (JobCandidate fl)) (dp : List (Cell fl))
      → c.earnings ≤ capacity
      → IsTable capacity seen dp
      → (r : Round fl) × (relax capacity c dp ≡ some r)
        × IsTable capacity (c ∷ seen) r.dp
        × IsRow capacity c seen r.row
  unfolding relax
  relax-IsTable capacity c seen dp fits t =
      let blank = length-replicate {A = ℕ} (suc capacity) 0 in
      let start : Round fl = record { dp = dp; row = replicate (suc capacity) 0 } in
      let (r, e, q) =
        relax_down-IsRelaxed c (suc capacity - c.earnings) start (rw t.size (omega arith))
          (rw blank (omega arith)) in
      let (table, row) = relaxed-IsTable capacity c seen start r fits t refl q in (r, e, table, row)

  abbrev pub AreRows : ℕ → List (JobCandidate fl) → List (JobCandidate fl) → List (List ℕ) → Type 0
  AreRows capacity [] seen keep = keep ≡ []
  AreRows capacity (c ∷ cs) seen [] = ⊥
  AreRows capacity (c ∷ cs) seen (row ∷ keep) =
      IsRow capacity c seen row × AreRows capacity cs (c ∷ seen) keep

  -- The loop over the candidates raises no IndexError, and leaves the table of them all, which
  -- has seen the latest first.
  pub fill-IsTable :
      (capacity : ℕ) (cs seen : List (JobCandidate fl)) (dp : List (Cell fl))
      → All (λ c. c.earnings ≤ capacity) cs
      → IsTable capacity seen dp
      → (last : List (Cell fl)) × (keep : List (List ℕ)) × (fill capacity cs dp ≡ some (last, keep))
        × IsTable capacity (reverse_aux cs seen) last
        × AreRows capacity cs seen keep
  unfolding fill
  fill-IsTable capacity [] seen dp fits t = (dp, [], refl, t, refl)
  fill-IsTable capacity (c ∷ cs) seen dp fits t =
      let (r, e, table, row) = relax-IsTable capacity c seen dp fits.0 t in
      let (last, keep, e', done, rows) = fill-IsTable capacity cs (c ∷ seen) r.dp fits.1 table in
      (last, r.row ∷ keep, rw e (rw e' refl), done, (row, rows))
