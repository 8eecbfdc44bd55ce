-- ===== src/Migrations/Changes.antt =====
-- migrations/versions: the revisions 002 to 008.
use vici.Base.{true, false, List, [], ◌∷◌, none, some}
use vici.Base.Texts.{Text, lit}
use vici.Migrations.{
  integer_type, string_type, text_type, float_type, timestamp_type, restrict, cascade, foreign_key,
  Constraint, Operation, create_table, drop_table, add_column, drop_column, alter_nullable,
  alter_type, create_constraint, drop_constraint, create_index, drop_index,
}
use vici.Migrations.Rows.{
  required, optional, with_default, id, user_id, message_id, id_column, created_at, id_key, refers,
  is_unique, holds,
}

abbrev job : Text
job = lit "job"

abbrev work_goal : Text
work_goal = lit "work_goal"

abbrev create_queue_table : Operation
create_queue_table =
    create_table (lit "pinecone_sync_queue")
      (id_column
        ∷ required (lit "job_id") integer_type
        ∷ with_default (lit "status") string_type (lit "pending")
        ∷ with_default (lit "attempts") integer_type (lit "0")
        ∷ optional (lit "last_error") text_type
        ∷ created_at
        ∷ [])
      (refers (lit "job_id") job cascade ∷ id_key ∷ [])

abbrev pub upgrade_002 : List Operation
upgrade_002 =
    add_column job (with_default (lit "pay_type") string_type (lit "unknown"))
    ∷ create_constraint job (
        holds (lit "ck_job_pay_type") (lit "pay_type" ∷ [])
          (lit "pay_type IN ('hourly', 'flat', 'unknown')"))
    ∷ add_column job (optional (lit "raw_datetime_text") text_type)
    ∷ add_column job (optional (lit "inferred_timezone") text_type)
    ∷ add_column job (optional (lit "raw_duration_text") text_type)
    ∷ alter_nullable job (lit "pay_rate") true
    ∷ create_queue_table
    ∷ create_constraint (lit "pinecone_sync_queue") (
        holds (lit "ck_psq_status") (lit "status" ∷ [])
          (lit "status IN ('pending', 'synced', 'failed')"))
    ∷ create_index (lit "pinecone_sync_queue")
        record { name = lit "ix_psq_status"; columns = lit "status" ∷ []; is_unique = false }
    ∷ []

abbrev pub downgrade_002 : List Operation
downgrade_002 =
    drop_index (lit "ix_psq_status")
    ∷ drop_table (lit "pinecone_sync_queue")
    ∷ drop_column job (lit "raw_duration_text")
    ∷ drop_column job (lit "inferred_timezone")
    ∷ drop_column job (lit "raw_datetime_text")
    ∷ drop_column job (lit "pay_type")
    ∷ alter_nullable job (lit "pay_rate") false
    ∷ []

abbrev pub upgrade_003 : List Operation
upgrade_003 =
    drop_constraint job (lit "job_user_id_fkey")
    ∷ drop_column job user_id
    ∷ drop_constraint work_goal (lit "work_goal_user_id_fkey")
    ∷ drop_column work_goal user_id
    ∷ drop_constraint (lit "rate_limit") (lit "uq_rate_limit_user_window")
    ∷ create_index (lit "rate_limit") record {
      name = lit "ix_rate_limit_user_created_at";
      columns = user_id ∷ lit "created_at" ∷ [];
      is_unique = false;
    }
    ∷ create_constraint (lit "audit_log") (
        holds (lit "ck_audit_log_message_sid_consistent") (message_id ∷ lit "message_sid" ∷ [])
          (lit "message_id IS NULL OR message_sid IS NOT NULL"))
    ∷ []

-- `create_foreign_key(name, n, "user", ["user_id"], ["id"], ondelete="RESTRICT")`
abbrev user_key : Text → Constraint
user_key name = record {
  name = some name;
  condition = foreign_key (user_id ∷ []) (lit "user") (id ∷ []) restrict;
}

abbrev pub downgrade_003 : List Operation
downgrade_003 =
    drop_constraint (lit "audit_log") (lit "ck_audit_log_message_sid_consistent")
    ∷ drop_index (lit "ix_rate_limit_user_created_at")
    ∷ create_constraint (lit "rate_limit")
        (is_unique (lit "uq_rate_limit_user_window") (user_id ∷ lit "created_at" ∷ []))
    ∷ add_column work_goal (optional user_id integer_type)
    ∷ create_constraint work_goal (user_key (lit "work_goal_user_id_fkey"))
    ∷ add_column job (optional user_id integer_type)
    ∷ create_constraint job (user_key (lit "job_user_id_fkey"))
    ∷ []

abbrev pub upgrade_004 : List Operation
upgrade_004 = add_column (lit "user") (optional (lit "phone_e164") string_type) ∷ []

abbrev pub downgrade_004 : List Operation
downgrade_004 = drop_column (lit "user") (lit "phone_e164") ∷ []

abbrev pub upgrade_005 : List Operation
upgrade_005 =
    add_column job (with_default (lit "status") string_type (lit "available"))
    ∷ create_constraint job (
        holds (lit "ck_job_status_valid") (lit "status" ∷ [])
          (lit "status IN ('available', 'accepted', 'in_progress', 'completed')"))
    ∷ []

abbrev pub downgrade_005 : List Operation
downgrade_005 =
    drop_constraint job (lit "ck_job_status_valid") ∷ drop_column job (lit "status") ∷ []

abbrev pub upgrade_006 : List Operation
upgrade_006 =
    alter_type job (lit "pay_rate") integer_type (some (lit "ROUND(pay_rate * 100)::INTEGER"))
    ∷ alter_type work_goal (lit "target_earnings") integer_type
        (some (lit "ROUND(target_earnings * 100)::INTEGER"))
    ∷ []

abbrev pub downgrade_006 : List Operation
downgrade_006 =
    alter_type work_goal (lit "target_earnings") float_type none
    ∷ alter_type job (lit "pay_rate") float_type none
    ∷ []

abbrev pub upgrade_007 : List Operation
upgrade_007 = drop_column (lit "rate_limit") (lit "count") ∷ []

abbrev pub downgrade_007 : List Operation
downgrade_007 =
    add_column (lit "rate_limit") (with_default (lit "count") integer_type (lit "1")) ∷ []

abbrev pub upgrade_008 : List Operation
upgrade_008 = add_column work_goal (optional (lit "target_deadline") timestamp_type) ∷ []

abbrev pub downgrade_008 : List Operation
downgrade_008 = drop_column work_goal (lit "target_deadline") ∷ []
