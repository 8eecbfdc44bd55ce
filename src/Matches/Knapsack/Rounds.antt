-- ===== src/Matches/Knapsack/Rounds.antt =====
-- One round of the table: what the loop over `w`, which overwrites the table that it reads, leaves
-- behind.
use vici.Base.{
  ℕ, zero, suc, ◌+◌, ◌-◌, ◌≤◌, ◌<◌, ◌≡◌, refl, ◌∙◌, ◌≢◌, inl, inr, Bool, false, some, List, arith,
  if◌then◌else◌, length, get_or, set, length-set, get_elem?-eq-get_or, store_of_lt, get_or-set_self,
  get_or-set_ne, Bool-cases,
}
use vici.Base.Floats.{Floats}
use native.Mathlib.Decide.{dec_lt}
use vici.Matches.Models.{JobCandidate}
use vici.Matches.Knapsack.{
  Earned, neg_inf, cents, Cell, Round, unreachable, gt, extend, write, offer, relax_from, relax_at,
  relax_down,
}

abbrev amount : Earned → ℕ
amount neg_inf = 0
amount (cents n) = n

module _ {fl : Floats} where
  abbrev pub entry : List (Cell fl) → ℕ → Cell fl
  entry dp j = get_or dp j unreachable

  abbrev takes_from : JobCandidate fl → Earned → Cell fl → Cell fl → Bool
  takes_from cand neg_inf prev current = false
  takes_from cand (cents prev_e) prev current = gt (extend cand prev_e prev) current

  -- Whether taking the candidate on top of `prev` beats `current`, and the better of the two.
  abbrev pub takes : JobCandidate fl → Cell fl → Cell fl → Bool
  takes cand prev current = takes_from cand prev.earned prev current

  abbrev pub taken : JobCandidate fl → Cell fl → Cell fl
  taken cand prev = extend cand (amount prev.earned) prev

  abbrev pub better_of : JobCandidate fl → Cell fl → Cell fl → Cell fl
  better_of cand prev current = if takes cand prev current then taken cand prev else current

  -- The round that the loop body leaves at `w`, from the cells that it reads.
  abbrev written : JobCandidate fl → ℕ → Cell fl → Cell fl → Round fl → Round fl
  written cand w prev current r =
      if takes cand prev current
      then record { dp = set r.dp w (taken cand prev); row = set r.row w 1 }
      else r

  abbrev relaxed_at : JobCandidate fl → ℕ → Round fl → Round fl
  relaxed_at cand w r = written cand w (entry r.dp (w - cand.earnings)) (entry r.dp w) r

  offer-eq :
      (w : ℕ) (v current : Cell fl) (r : Round fl)
      → w < length r.dp
      → w < length r.row
      → offer w v current r
        ≡ some (if gt v current then record { dp = set r.dp w v; row = set r.row w 1 } else r)
  unfolding offer write
  offer-eq w v current r hd hr =
      rw (store_of_lt r.dp w v hd, store_of_lt r.row w 1 hr) (ground arith)

  relax_from-eq :
      (cand : JobCandidate fl) (w : ℕ) (prev : Cell fl) (e : Earned) (r : Round fl)
      → w < length r.dp
      → w < length r.row
      → prev.earned ≡ e
      → relax_from cand w e prev r ≡ some (written cand w prev (entry r.dp w) r)
  unfolding relax_from
  relax_from-eq cand w prev neg_inf r hd hr same = rw same
  relax_from-eq cand w prev (cents n) r hd hr same =
      rw (get_elem?-eq-get_or r.dp w unreachable hd, same)
        (offer-eq w (extend cand n prev) (entry r.dp w) r hd hr)

  relax_at-eq :
      (cand : JobCandidate fl) (w : ℕ) (r : Round fl)
      → w < length r.dp
      → w < length r.row
      → relax_at cand w r ≡ some (relaxed_at cand w r)
  unfolding relax_at
  relax_at-eq cand w r hd hr =
      rw (get_elem?-eq-get_or r.dp (w - cand.earnings) unreachable (omega arith))
        (relax_from-eq cand w _ _ r hd hr refl)

  -- What `rounds` rounds of the loop do: the cells from `e` to below `e + rounds` become the better
  -- of what the table held before the loop, whatever the order of the writes, and no other changes.
  pub record IsRelaxed (cand : JobCandidate fl) (rounds : ℕ) (r r' : Round fl) : Type 0 where
    pub size_dp : length r'.dp ≡ length r.dp
    pub size_row : length r'.row ≡ length r.row
    pub inside :
        (j : ℕ)
        → cand.earnings ≤ j
        → j < cand.earnings + rounds
        → (entry r'.dp j ≡ better_of cand (entry r.dp (j - cand.earnings)) (entry r.dp j))
          × (get_or r'.row j 0 ≡ (
              if takes cand (entry r.dp (j - cand.earnings)) (entry r.dp j)
              then 1
              else get_or r.row j 0))
    pub below_dp : (j : ℕ) → j < cand.earnings → entry r'.dp j ≡ entry r.dp j
    pub below_row : (j : ℕ) → j < cand.earnings → get_or r'.row j 0 ≡ get_or r.row j 0
    pub above_dp : (j : ℕ) → cand.earnings + rounds ≤ j → entry r'.dp j ≡ entry r.dp j
    pub above_row : (j : ℕ) → cand.earnings + rounds ≤ j → get_or r'.row j 0 ≡ get_or r.row j 0

  -- One write, at `w`.
  record IsWritten (cand : JobCandidate fl) (w : ℕ) (r r' : Round fl) : Type 0 where
    size_dp : length r'.dp ≡ length r.dp
    size_row : length r'.row ≡ length r.row
    here :
        (entry r'.dp w ≡ better_of cand (entry r.dp (w - cand.earnings)) (entry r.dp w))
        × (get_or r'.row w 0 ≡ (
            if takes cand (entry r.dp (w - cand.earnings)) (entry r.dp w)
            then 1
            else get_or r.row w 0))
    other_dp : (j : ℕ) → j ≢ w → entry r'.dp j ≡ entry r.dp j
    other_row : (j : ℕ) → j ≢ w → get_or r'.row j 0 ≡ get_or r.row j 0

  relaxed_at-IsWritten :
      (cand : JobCandidate fl) (w : ℕ) (r : Round fl)
      → w < length r.dp
      → w < length r.row
      → IsWritten cand w r (relaxed_at cand w r)
  relaxed_at-IsWritten cand w r hd hr =
      elim (Bool-cases (takes cand (entry r.dp (w - cand.earnings)) (entry r.dp w))) [
        | inl e ↦ rw e (record {
          size_dp = length-set r.dp w _;
          size_row = length-set r.row w 1;
          here = rw e (get_or-set_self r.dp w _ _ hd, get_or-set_self r.row w 1 0 hr);
          other_dp = λ j n. get_or-set_ne r.dp w j _ _ n;
          other_row = λ j n. get_or-set_ne r.row w j 1 0 n;
        })
        | inr e ↦ rw e (record {
          size_dp = refl;
          size_row = refl;
          here = rw e (refl, refl);
          other_dp = λ j n. refl;
          other_row = λ j n. refl;
        })
      ]

  -- A write at `e + k`, and then `k` rounds.
  IsRelaxed-after :
      (cand : JobCandidate fl) (k : ℕ) (r r1 r' : Round fl)
      → IsWritten cand (cand.earnings + k) r r1
      → IsRelaxed cand k r1 r'
      → IsRelaxed cand (suc k) r r'
  IsRelaxed-after cand k r r1 r' p q = record {
    size_dp = q.size_dp ∙ p.size_dp;
    size_row = q.size_row ∙ p.size_row;
    inside = λ j lo hi. elim (dec_lt j (cand.earnings + k)) [
      | yes lt ↦
          rw
            (
              ← p.other_dp (j - cand.earnings) (omega arith),
              ← p.other_dp j (omega arith),
              ← p.other_row j (omega arith),
            )
            (q.inside j lo lt)
      | no ge ↦ at_top j (omega arith)
    ];
    below_dp = λ j h. q.below_dp j h ∙ p.other_dp j (omega arith);
    below_row = λ j h. q.below_row j h ∙ p.other_row j (omega arith);
    above_dp = λ j h. q.above_dp j (omega arith) ∙ p.other_dp j (omega arith);
    above_row = λ j h. q.above_row j (omega arith) ∙ p.other_row j (omega arith);
  }
    where
      at_top :
          (j : ℕ)
          → j ≡ cand.earnings + k
          → (entry r'.dp j ≡ better_of cand (entry r.dp (j - cand.earnings)) (entry r.dp j))
            × (get_or r'.row j 0 ≡ (
                if takes cand (entry r.dp (j - cand.earnings)) (entry r.dp j)
                then 1
                else get_or r.row j 0))
      at_top j same =
          rw same (q.above_dp _ (omega arith) ∙ p.here.0, q.above_row _ (omega arith) ∙ p.here.1)

  pub relax_down-IsRelaxed :
      (cand : JobCandidate fl) (rounds : ℕ) (r : Round fl)
      → cand.earnings + rounds ≤ length r.dp
      → cand.earnings + rounds ≤ length r.row
      → (r' : Round fl) × (relax_down cand rounds r ≡ some r') × IsRelaxed cand rounds r r'
  unfolding relax_down
  relax_down-IsRelaxed cand zero r hd hr = (
    r,
    refl,
    record {
      size_dp = refl;
      size_row = refl;
      inside = λ j lo hi. absurd (omega arith);
      below_dp = λ j h. refl;
      below_row = λ j h. refl;
      above_dp = λ j h. refl;
      above_row = λ j h. refl;
    },
  )
  relax_down-IsRelaxed cand (suc k) r hd hr =
      let w = cand.earnings + k in
      let r1 = relaxed_at cand w r in
      let p : IsWritten cand w r r1 = relaxed_at-IsWritten cand w r (omega arith) (omega arith) in
      let (r', e, q) =
        relax_down-IsRelaxed cand k r1 (rw p.size_dp (omega arith)) (rw p.size_row (omega arith)) in
      (
        r',
        rw (relax_at-eq cand w r (omega arith) (omega arith)) e,
        IsRelaxed-after cand k r r1 r' p q,
      )
