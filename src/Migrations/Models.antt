-- ===== src/Migrations/Models.antt =====
-- src/*/models.py: the tables that the classes declare, as far as they differ from what SQLModel and
-- SQLAlchemy fill in on their own: a `str` is a `String`, and a field with `index=True` has an index
-- named after its table and column.
use vici.Base.{Bool, true, false, List, [], ◌∷◌}
use vici.Base.Texts.{Text, lit}
use vici.Migrations.{
  integer_type, string_type, float_type, boolean_type, timestamp_type, Column, OnDelete, restrict,
  set_null, cascade, Condition, primary_key, foreign_key, unique, check, Index,
}
use vici.Migrations.Rows.{
  required, optional, with_default, id, user_id, message_id, id_column, created_at,
}

pub record Model : Type 0 where
  pub tablename : Text
  pub columns : List Column
  pub conditions : List Condition
  pub indexes : List Index

-- A column with `ForeignKey("n.id", ondelete=d)`
abbrev refers_to : Text → Text → OnDelete → Condition
refers_to c n d = foreign_key (c ∷ []) n (id ∷ []) d

abbrev index_of : Text → Text → Bool → Index
index_of n c u = record { name = n; columns = c ∷ []; is_unique = u }

abbrev pub user_model : Model
user_model = record {
  tablename = lit "user";
  columns =
      id_column
      ∷ required (lit "phone_hash") string_type
      ∷ optional (lit "phone_e164") string_type
      ∷ created_at
      ∷ [];
  conditions = primary_key (id ∷ []) ∷ [];
  indexes = index_of (lit "ix_user_phone_hash") (lit "phone_hash") true ∷ [];
}

abbrev pub message_model : Model
message_model = record {
  tablename = lit "message";
  columns =
      id_column
      ∷ required (lit "message_sid") string_type
      ∷ required user_id integer_type
      ∷ required (lit "body") string_type
      ∷ optional (lit "message_type") string_type
      ∷ optional (lit "raw_gpt_response") string_type
      ∷ created_at
      ∷ [];
  conditions = primary_key (id ∷ []) ∷ refers_to user_id (lit "user") restrict ∷ [];
  indexes = index_of (lit "ix_message_message_sid") (lit "message_sid") true ∷ [];
}

abbrev pub rate_limit_model : Model
rate_limit_model = record {
  tablename = lit "rate_limit";
  columns = id_column ∷ required user_id integer_type ∷ created_at ∷ [];
  conditions = primary_key (id ∷ []) ∷ refers_to user_id (lit "user") restrict ∷ [];
  indexes = [];
}

abbrev pub audit_log_model : Model
audit_log_model = record {
  tablename = lit "audit_log";
  columns =
      id_column
      ∷ required (lit "message_sid") string_type
      ∷ optional message_id integer_type
      ∷ required (lit "event") string_type
      ∷ optional (lit "detail") string_type
      ∷ created_at
      ∷ [];
  conditions = primary_key (id ∷ []) ∷ refers_to message_id (lit "message") set_null ∷ [];
  indexes = index_of (lit "ix_audit_log_message_sid") (lit "message_sid") false ∷ [];
}

abbrev pub queue_model : Model
queue_model = record {
  tablename = lit "pinecone_sync_queue";
  columns =
      id_column
      ∷ required (lit "job_id") integer_type
      ∷ required (lit "status") string_type
      ∷ required (lit "attempts") integer_type
      ∷ optional (lit "last_error") string_type
      ∷ created_at
      ∷ [];
  conditions = primary_key (id ∷ []) ∷ refers_to (lit "job_id") (lit "job") cascade ∷ [];
  indexes = [];
}

abbrev pub match_model : Model
match_model = record {
  tablename = lit "match";
  columns =
      id_column
      ∷ required (lit "job_id") integer_type
      ∷ required (lit "work_goal_id") integer_type
      ∷ created_at
      ∷ [];
  conditions =
      primary_key (id ∷ [])
      ∷ refers_to (lit "job_id") (lit "job") restrict
      ∷ refers_to (lit "work_goal_id") (lit "work_goal") restrict
      ∷ unique (lit "job_id" ∷ lit "work_goal_id" ∷ [])
      ∷ [];
  indexes = [];
}

abbrev pub work_goal_model : Model
work_goal_model = record {
  tablename = lit "work_goal";
  columns =
      id_column
      ∷ required message_id integer_type
      ∷ required (lit "target_earnings") integer_type
      ∷ optional (lit "target_timeframe") string_type
      ∷ optional (lit "target_deadline") timestamp_type
      ∷ created_at
      ∷ [];
  conditions =
      check (lit "target_earnings" ∷ []) (lit "target_earnings > 0")
      ∷ primary_key (id ∷ [])
      ∷ refers_to message_id (lit "message") restrict
      ∷ unique (message_id ∷ [])
      ∷ [];
  indexes = [];
}

abbrev pub job_model : Model
job_model = record {
  tablename = lit "job";
  columns =
      id_column
      ∷ required message_id integer_type
      ∷ optional (lit "description") string_type
      ∷ optional (lit "location") string_type
      ∷ optional (lit "pay_rate") integer_type
      ∷ required (lit "pay_type") string_type
      ∷ optional (lit "estimated_duration_hours") float_type
      ∷ optional (lit "raw_duration_text") string_type
      ∷ optional (lit "ideal_datetime") timestamp_type
      ∷ optional (lit "raw_datetime_text") string_type
      ∷ optional (lit "inferred_timezone") string_type
      ∷ optional (lit "datetime_flexible") boolean_type
      ∷ with_default (lit "status") string_type (lit "available")
      ∷ created_at
      ∷ [];
  conditions =
      check (lit "pay_rate" ∷ []) (lit "pay_rate > 0")
      ∷ check (lit "estimated_duration_hours" ∷ [])
          (lit "estimated_duration_hours IS NULL OR estimated_duration_hours > 0")
      ∷ check (lit "status" ∷ [])
          (lit "status IN ('available', 'accepted', 'in_progress', 'completed')")
      ∷ primary_key (id ∷ [])
      ∷ refers_to message_id (lit "message") restrict
      ∷ unique (message_id ∷ [])
      ∷ [];
  indexes = [];
}

abbrev pub models : List Model
models =
    user_model ∷ message_model ∷ rate_limit_model ∷ audit_log_model ∷ queue_model ∷ match_model
    ∷ work_goal_model ∷ job_model ∷ []
