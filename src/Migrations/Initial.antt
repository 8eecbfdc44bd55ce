-- ===== src/Migrations/Initial.antt =====
-- migrations/versions/2026-03-05_initial_schema.py: revision 001.
use vici.Base.{true, false, List, [], ◌∷◌, ◌++◌}
use vici.Base.Texts.{lit}
use vici.Migrations.{
  integer_type, string_type, text_type, float_type, boolean_type, timestamp_type, restrict,
  set_null, Operation, create_table, drop_table, create_index,
}
use vici.Migrations.Rows.{
  required, optional, with_default, user_id, message_id, id_column, created_at, id_key, refers,
  is_unique, holds,
}

abbrev create_user_table : List Operation
create_user_table =
    create_table (lit "user")
      (id_column ∷ required (lit "phone_hash") string_type ∷ created_at ∷ []) (id_key ∷ [])
    ∷ create_index (lit "user") record {
      name = lit "ix_user_phone_hash";
      columns = lit "phone_hash" ∷ [];
      is_unique = true;
    }
    ∷ []

abbrev create_message_table : List Operation
create_message_table =
    create_table (lit "message")
      (id_column
        ∷ required (lit "message_sid") string_type
        ∷ required user_id integer_type
        ∷ required (lit "body") text_type
        ∷ optional (lit "message_type") string_type
        ∷ optional (lit "raw_gpt_response") text_type
        ∷ created_at
        ∷ [])
      (refers user_id (lit "user") restrict ∷ id_key ∷ [])
    ∷ create_index (lit "message") record {
      name = lit "ix_message_message_sid";
      columns = lit "message_sid" ∷ [];
      is_unique = true;
    }
    ∷ create_index (lit "message")
        record { name = lit "ix_message_user_id"; columns = user_id ∷ []; is_unique = false }
    ∷ []

abbrev create_job_table : Operation
create_job_table =
    create_table (lit "job")
      (id_column
        ∷ required user_id integer_type
        ∷ required message_id integer_type
        ∷ optional (lit "description") text_type
        ∷ optional (lit "location") text_type
        ∷ required (lit "pay_rate") float_type
        ∷ optional (lit "estimated_duration_hours") float_type
        ∷ optional (lit "ideal_datetime") timestamp_type
        ∷ optional (lit "datetime_flexible") boolean_type
        ∷ created_at
        ∷ [])
      (holds (lit "ck_job_pay_rate_positive") (lit "pay_rate" ∷ []) (lit "pay_rate > 0")
        ∷ holds (lit "ck_job_estimated_duration_positive") (lit "estimated_duration_hours" ∷ [])
            (lit "estimated_duration_hours IS NULL OR estimated_duration_hours > 0")
        ∷ refers user_id (lit "user") restrict
        ∷ refers message_id (lit "message") restrict
        ∷ id_key
        ∷ is_unique (lit "uq_job_message_id") (message_id ∷ [])
        ∷ [])

abbrev create_work_goal_table : Operation
create_work_goal_table =
    create_table (lit "work_goal")
      (id_column
        ∷ required user_id integer_type
        ∷ required message_id integer_type
        ∷ required (lit "target_earnings") float_type
        ∷ optional (lit "target_timeframe") text_type
        ∷ created_at
        ∷ [])
      (holds (lit "ck_work_goal_target_earnings_positive") (lit "target_earnings" ∷ [])
          (lit "target_earnings > 0")
        ∷ refers user_id (lit "user") restrict
        ∷ refers message_id (lit "message") restrict
        ∷ id_key
        ∷ is_unique (lit "uq_work_goal_message_id") (message_id ∷ [])
        ∷ [])

abbrev create_match_table : Operation
create_match_table =
    create_table (lit "match")
      (id_column
        ∷ required (lit "job_id") integer_type
        ∷ required (lit "work_goal_id") integer_type
        ∷ created_at
        ∷ [])
      (refers (lit "job_id") (lit "job") restrict
        ∷ refers (lit "work_goal_id") (lit "work_goal") restrict
        ∷ id_key
        ∷ is_unique (lit "uq_match_job_work_goal") (lit "job_id" ∷ lit "work_goal_id" ∷ [])
        ∷ [])

abbrev create_rate_limit_table : Operation
create_rate_limit_table =
    create_table (lit "rate_limit")
      (id_column
        ∷ required user_id integer_type
        ∷ created_at
        ∷ with_default (lit "count") integer_type (lit "1")
        ∷ [])
      (refers user_id (lit "user") restrict
        ∷ id_key
        ∷ is_unique (lit "uq_rate_limit_user_window") (user_id ∷ lit "created_at" ∷ [])
        ∷ [])

abbrev create_audit_log_table : List Operation
create_audit_log_table =
    create_table (lit "audit_log")
      (id_column
        ∷ required (lit "message_sid") string_type
        ∷ optional message_id integer_type
        ∷ required (lit "event") string_type
        ∷ optional (lit "detail") text_type
        ∷ created_at
        ∷ [])
      (refers message_id (lit "message") set_null ∷ id_key ∷ [])
    ∷ create_index (lit "audit_log") record {
      name = lit "ix_audit_log_message_sid";
      columns = lit "message_sid" ∷ [];
      is_unique = false;
    }
    ∷ []

abbrev pub upgrade_001 : List Operation
upgrade_001 =
    create_user_table
    ++ (create_message_table
        ++ (create_job_table ∷ create_work_goal_table ∷ create_match_table ∷ create_rate_limit_table
            ∷ create_audit_log_table))

abbrev pub downgrade_001 : List Operation
downgrade_001 =
    drop_table (lit "audit_log")
    ∷ drop_table (lit "rate_limit")
    ∷ drop_table (lit "match")
    ∷ drop_table (lit "work_goal")
    ∷ drop_table (lit "job")
    ∷ drop_table (lit "message")
    ∷ drop_table (lit "user")
    ∷ []
