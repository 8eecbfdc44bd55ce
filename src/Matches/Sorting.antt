-- ===== src/Matches/Sorting.antt =====
-- `MatchService._sort_results` of src/matches/service.py. Python's `sorted` is stable and compares
-- with `<` only: it is the insertion sort below.
pub mod Order
pub mod Kept
pub mod Dates
use vici.Base.{
  ℕ, Bool, true, false, not, ◌&&◌, ◌||◌, Option, none, some, List, [], ◌∷◌, if◌then◌else◌,
}
use vici.Base.Int.{ℤ, pos, leb_ℤ}
use vici.Base.Floats.{Floats, below}
use vici.Datetimes.{Datetime, instant, label_utc}
use vici.Matches.Models.{JobCandidate}

-- `datetime.max.replace(tzinfo=UTC)`, in microseconds.
abbrev sentinel_instant : ℤ
sentinel_instant = pos 315_537_897_599_999_999

-- The first component of the key.
abbrev when : Option Datetime → ℤ
when none = sentinel_instant
when (some dt) = instant (label_utc dt)

module _ {fl : Floats} where
  -- `key(a) < key(b)` on pairs.
  abbrev pub before : JobCandidate fl → JobCandidate fl → Bool
  before a b =
      let s = when a.job.ideal_datetime in
      let t = when b.job.ideal_datetime in
      if leb_ℤ s t && leb_ℤ t s then below fl a.duration b.duration else leb_ℤ s t

  -- Behind all that it is not before.
  unfoldable pub insert : JobCandidate fl → List (JobCandidate fl) → List (JobCandidate fl)
  insert c [] = c ∷ []
  insert c (d ∷ ds) = if before c d then c ∷ d ∷ ds else d ∷ insert c ds

  unfoldable pub insert_all :
      List (JobCandidate fl) → List (JobCandidate fl) → List (JobCandidate fl)
  insert_all [] sorted = sorted
  insert_all (c ∷ cs) sorted = insert_all cs (insert c sorted)

  unfoldable pub sort_results : List (JobCandidate fl) → List (JobCandidate fl)
  unfolding insert_all insert
  sort_results candidates = insert_all candidates []
