-- ===== src/WorkGoals.antt =====
-- src/work_goals/models.py: a worker's earnings goal.
pub mod Create
use vici.Base.{ℕ, Option}
use vici.Base.Texts.{Text}
use vici.Datetimes.{Datetime}

-- A row of the table `work_goal`, with the id that the database gave it.
pub record WorkGoal : Type 0 where
  pub id : ℕ
  pub message_id : ℕ
  pub target_earnings : ℕ
  pub target_timeframe : Option Text
  pub target_deadline : Option Datetime
  pub created_at : ℕ
