-- ===== src/Matches/Models.antt =====
-- src/matches/schemas.py: a candidate for selection, and the outcome of a match.
use vici.Base.{ℕ, Bool, true, false, Option, List, [], map, sum}
use vici.Base.Floats.{Floats}
use vici.Base.Texts.{Text}
use vici.Jobs.{Job}
use vici.WorkGoals.{WorkGoal}

pub record JobCandidate (fl : Floats) : Type 0 where
  pub job : Job fl
  pub earnings : ℕ
  pub duration : fl.Float
  pub poster_phone : Option Text

pub record MatchResult (fl : Floats) : Type 0 where
  pub jobs : List (JobCandidate fl)
  pub work_goal : WorkGoal
  pub total_earnings : ℕ
  pub is_partial : Bool

module _ {fl : Floats} where
  -- `len(self.jobs) == 0`
  unfoldable pub is_empty : MatchResult fl → Bool
  is_empty r = elim r.jobs [ [] ↦ true | _ ↦ false ]

  -- `sum(c.earnings for c in candidates)`
  abbrev pub total_of : List (JobCandidate fl) → ℕ
  total_of cs = sum (map (λ c. c.earnings) cs)
