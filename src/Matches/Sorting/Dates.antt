-- ===== src/Matches/Sorting/Dates.antt =====
-- What the order of `_sort_results` means in dates: soonest first, then shortest, undated last.
use mathlib.Core.List.{Perm}
use vici.Base.{
  ◌≡◌, refl, sym, ◌∙◌, Bool, true, false, not, ◌&&◌, Option, none, some, List, [], ◌∷◌,
  if◌then◌else◌, arith, All, keep_if, Option-cases, inl, inr,
}
use vici.Base.Int.{pos, leb_ℤ}
use vici.Base.Floats.{Floats, IsOrdered}
use vici.Datetimes.{Datetime, instant}
use vici.Matches.Models.{JobCandidate}
use vici.Matches.Sorting.{before, sort_results}
use vici.Matches.Sorting.Kept.{All-sort_results}
use vici.Matches.Sorting.Order.{IsSorted, ties, sort_results-IsSorted}

-- Whether a job of the one date may stand ahead of a job of the other, where `no_longer` tells that
-- the first takes no more time: the sooner one, a dated one ahead of an undated one, and otherwise
-- the one that takes no more time.
abbrev may_precede : Option Datetime → Option Datetime → Bool → Bool
may_precede (some s) (some t) no_longer =
    leb_ℤ (instant s) (instant t) && (if leb_ℤ (instant t) (instant s) then no_longer else true)
may_precede (some s) none no_longer = true
may_precede none (some t) no_longer = false
may_precede none none no_longer = no_longer

-- The date, if there is one, comes before 9999-12-31T23:59:59.999999 in UTC.
abbrev is_in_time : Option Datetime → Bool
is_in_time none = true
is_in_time (some dt) = not (leb_ℤ (pos 315_537_897_599_999_999) (instant dt))

module _ {fl : Floats} where
  abbrev pub is_ahead : JobCandidate fl → JobCandidate fl → Bool
  is_ahead a b =
      may_precede a.job.ideal_datetime b.job.ideal_datetime (fl.le? a.duration b.duration)

  -- Every candidate may stand ahead of all that follow it.
  abbrev pub IsChronological : List (JobCandidate fl) → Type 0
  IsChronological [] = Unit
  IsChronological (c ∷ cs) = All (λ d. is_ahead c d ≡ true) cs × IsChronological cs

  -- Two candidates of which either may stand ahead.
  abbrev pub is_alike : JobCandidate fl → JobCandidate fl → Bool
  is_alike a b = is_ahead a b && is_ahead b a

  abbrev pub IsInTime : JobCandidate fl → Type 0
  IsInTime c = is_in_time c.job.ideal_datetime ≡ true

  before-is_ahead :
      (a b : JobCandidate fl) → IsInTime a → IsInTime b → before b a ≡ not (is_ahead a b)
  before-is_ahead a b h k = elim (Option-cases a.job.ideal_datetime) [
    | inl e ↦ elim (Option-cases b.job.ideal_datetime) [
      | inl f ↦ ground (arith, h, k, e, f)
      | inr (t, f) ↦ ground (arith, h, k, e, f)
    ]
    | inr (s, e) ↦ elim (Option-cases b.job.ideal_datetime) [
      | inl f ↦ ground (arith, h, k, e, f)
      | inr (t, f) ↦ ground (arith, h, k, e, f)
    ]
  ]

  All-is_ahead :
      (c : JobCandidate fl) (ds : List (JobCandidate fl))
      → IsInTime c
      → All IsInTime ds
      → All (λ d. before d c ≡ false) ds
      → All (λ d. is_ahead c d ≡ true) ds
  All-is_ahead c [] h k s = tt
  All-is_ahead c (d ∷ ds) h k s =
      let same = before-is_ahead c d h k.0 in
      (ground (arith, same, s.0), All-is_ahead c ds h k.1 s.1)

  IsSorted-IsChronological :
      (cs : List (JobCandidate fl)) → All IsInTime cs → IsSorted cs → IsChronological cs
  IsSorted-IsChronological [] h s = tt
  IsSorted-IsChronological (c ∷ cs) h s =
      (All-is_ahead c cs h.0 h.1 s.0, IsSorted-IsChronological cs h.1 s.1)

  keep_if-is_alike :
      (a : JobCandidate fl) (cs : List (JobCandidate fl))
      → IsInTime a
      → All IsInTime cs
      → keep_if (is_alike a) cs ≡ keep_if (ties a) cs
  keep_if-is_alike a [] h k = refl
  keep_if-is_alike a (c ∷ cs) h k =
      let rest = keep_if-is_alike a cs h k.1 in
      let one = before-is_ahead a c h k.0 in
      let other = before-is_ahead c a k.0 h in
      let same : is_alike a c ≡ ties a c = ground (arith, one, other) in rw (same, rest) refl

  -- Where every date comes before the end of the year 9999 in UTC: `_sort_results` puts sooner jobs
  -- first and undated ones last, of equal dates the shorter first; it keeps every candidate; and
  -- candidates of the same date and duration keep their order.
  pub sort_results-IsChronological :
      IsOrdered fl
      → (cs : List (JobCandidate fl)) (a : JobCandidate fl) → All IsInTime cs
      → IsInTime a
      → IsChronological (sort_results cs)
        × Perm (sort_results cs) cs
        × (keep_if (is_alike a) (sort_results cs) ≡ keep_if (is_alike a) cs)
  sort_results-IsChronological o cs a h k =
      let (sorted, same, stable) = sort_results-IsSorted o cs in
      let kept = All-sort_results IsInTime cs h in
      (
        IsSorted-IsChronological (sort_results cs) kept sorted,
        same,
        keep_if-is_alike a (sort_results cs) k kept ∙ (stable a ∙ sym (keep_if-is_alike a cs k h)),
      )
