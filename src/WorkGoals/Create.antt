-- ===== src/WorkGoals/Create.antt =====
-- src/work_goals/schemas.py and src/work_goals/repository.py.
use vici.Base.{ℕ, Bool, Option, some, ◌&&◌, ltb, if◌then◌else◌}
use vici.Base.Floats.{Floats}
use vici.Base.Texts.{Text}
use vici.Datetimes.{Datetime, LlmValue, coerce_llm_datetime}
use vici.WorkGoals.{WorkGoal}
use vici.Store.{Result, ok, err, validation_error, Action, persist_work_goal}
use vici.Extraction.{fits}

pub record WorkGoalCreate : Type 0 where
  pub message_id : ℕ
  pub target_earnings : ℕ
  pub target_timeframe : Text
  pub target_deadline : Option Datetime

-- The bounds of the fields.
unfoldable pub is_work_goal_create : WorkGoalCreate → Bool
is_work_goal_create g =
    ltb 0 g.message_id && (ltb 0 g.target_earnings && fits 1 255 g.target_timeframe)

-- `WorkGoalCreate(…)`, whose `target_deadline` is coerced before it is checked.
unfoldable pub work_goal_create :
    (Text → Option Datetime) → LlmValue → WorkGoalCreate → Result WorkGoalCreate
work_goal_create fromisoformat target_deadline fields =
    let g : WorkGoalCreate = record fields {
      target_deadline = coerce_llm_datetime fromisoformat target_deadline;
    } in
    if is_work_goal_create g then ok g else err validation_error

-- The row that `create` adds, before it has its id.
abbrev pub work_goal_row : ℕ → WorkGoalCreate → WorkGoal
work_goal_row now g = record {
  id = 0;
  message_id = g.message_id;
  target_earnings = g.target_earnings;
  target_timeframe = some g.target_timeframe;
  target_deadline = g.target_deadline;
  created_at = now;
}

module _ {fl : Floats} where
  -- `WorkGoalRepository.create`
  unfoldable pub create_work_goal : ℕ → WorkGoalCreate → Action fl WorkGoal
  create_work_goal now g = persist_work_goal (work_goal_row now g)
