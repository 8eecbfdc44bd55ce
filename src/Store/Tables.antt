-- ===== src/Store/Tables.antt =====
-- The rows of src/users/models.py, src/sms/models.py, src/matches/models.py and
-- src/extraction/models.py, and the tables together. The other rows stand in `Jobs` and
-- `WorkGoals`. A time is the instant that `datetime.now(UTC)` gave, in microseconds. One sequence
-- gives the ids of all the tables.
use vici.Base.{ℕ, Option, List}
use vici.Base.Floats.{Floats}
use vici.Base.Texts.{Text}
use vici.Jobs.{Job}
use vici.WorkGoals.{WorkGoal}

pub record User : Type 0 where
  pub id : ℕ
  pub phone_hash : Text
  pub phone_e164 : Option Text
  pub created_at : ℕ

-- src/extraction/constants.py
pub data MessageType : Type 0 where
  job_posting work_goal unknown : MessageType

pub record Message : Type 0 where
  pub id : ℕ
  pub message_sid : Text
  pub user_id : ℕ
  pub body : Text
  pub message_type : Option MessageType
  pub raw_gpt_response : Option Text
  pub created_at : ℕ

pub record RateLimit : Type 0 where
  pub id : ℕ
  pub user_id : ℕ
  pub created_at : ℕ

-- src/sms/constants.py
pub data AuditEvent : Type 0 where
  received duplicate rate_limited gpt_classified job_created work_goal_created : AuditEvent

pub record AuditLog : Type 0 where
  pub id : ℕ
  pub message_sid : Text
  pub message_id : Option ℕ
  pub event : AuditEvent
  pub detail : Option Text
  pub created_at : ℕ

pub record Match : Type 0 where
  pub id : ℕ
  pub job_id : ℕ
  pub work_goal_id : ℕ
  pub created_at : ℕ

-- src/extraction/constants.py
pub data SyncStatus : Type 0 where
  pending synced failed : SyncStatus

pub record PineconeSyncQueue : Type 0 where
  pub id : ℕ
  pub job_id : ℕ
  pub status : SyncStatus
  pub attempts : ℕ
  pub last_error : Option Text
  pub created_at : ℕ

pub record Db (fl : Floats) : Type 0 where
  pub users : List User
  pub messages : List Message
  pub rate_limits : List RateLimit
  pub audit_log : List AuditLog
  pub jobs : List (Job fl)
  pub work_goals : List WorkGoal
  pub matches : List Match
  pub sync_queue : List PineconeSyncQueue
  pub next_id : ℕ
