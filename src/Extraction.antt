-- ===== src/Extraction.antt =====
-- src/extraction/schemas.py: what the language model makes of a message.
-- `Field` bounds are checked where the reply is parsed, which the client of OpenAI does.
pub mod Service
pub mod Retries
pub mod SyncQueue
pub mod Claims
pub mod Unclaimed
pub mod Search
mod Tests
use vici.Base.{ℕ, Bool, Option, true, ◌&&◌, leb, length, elim_or}
use vici.Base.Floats.{Floats, below}
use vici.Base.Texts.{Text}
use vici.Jobs.{PayType}
use vici.Store.{MessageType}

pub record JobExtraction (fl : Floats) : Type 0 where
  pub description : Text
  pub ideal_datetime : Option Text
  pub raw_datetime_text : Option Text
  pub inferred_timezone : Option Text
  pub datetime_flexible : Bool
  pub estimated_duration_hours : Option fl.Float
  pub raw_duration_text : Option Text
  pub location : Text
  pub pay_rate : Option fl.Float
  pub pay_type : PayType

pub record WorkGoalExtraction (fl : Floats) : Type 0 where
  pub target_earnings : fl.Float
  pub target_timeframe : Text
  pub target_deadline : Option Text

pub record UnknownMessage : Type 0 where
  pub reason : Text

pub record ExtractionResult (fl : Floats) : Type 0 where
  pub message_type : MessageType
  pub job : Option (JobExtraction fl)
  pub work_goal : Option (WorkGoalExtraction fl)
  pub unknown : Option UnknownMessage

-- `Field(min_length=lo, max_length=hi)`
abbrev pub fits : ℕ → ℕ → Text → Bool
fits lo hi t = leb lo (length t) && leb (length t) hi

module _ (fl : Floats) where
  -- `Field(gt=0)` of a float
  abbrev pub is_positive : fl.Float → Bool
  is_positive x = below fl fl.nought x

  -- The bounds that `JobExtraction` declares.
  is_job_extraction : JobExtraction fl → Bool
  is_job_extraction j =
      fits 1 1000 j.description
      && (elim_or true (fits 0 100) j.ideal_datetime
          && (elim_or true (fits 0 255) j.raw_datetime_text
              && (elim_or true (fits 0 100) j.inferred_timezone
                  && (elim_or true is_positive j.estimated_duration_hours
                      && (elim_or true (fits 0 255) j.raw_duration_text
                          && (fits 1 255 j.location && elim_or true is_positive j.pay_rate))))))

  -- The bounds that `WorkGoalExtraction` declares.
  is_work_goal_extraction : WorkGoalExtraction fl → Bool
  is_work_goal_extraction g =
      is_positive g.target_earnings
      && (fits 1 255 g.target_timeframe && elim_or true (fits 0 100) g.target_deadline)

  -- The bounds of the reply's parts.
  unfoldable is_extraction_result : ExtractionResult fl → Bool
  unfolding is_job_extraction is_work_goal_extraction
  is_extraction_result r =
      elim_or true is_job_extraction r.job
      && (elim_or true is_work_goal_extraction r.work_goal
          && elim_or true (λ u. fits 1 1000 u.reason) r.unknown)
