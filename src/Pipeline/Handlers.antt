-- ===== src/Pipeline/Handlers.antt =====
-- src/pipeline/handlers: the handlers of the three kinds of message.
pub mod Posted
pub mod Pursued
use vici.Base.{
  ℕ, Bool, true, false, Option, none, some, ◌&&◌, List, [], ◌∷◌, ◌++◌, if◌then◌else◌, elim_or,
}
use vici.Base.Floats.{Floats}
use vici.Base.Texts.{Text, lit}
use vici.Money.{dollars_to_cents}
use vici.Datetimes.{LlmValue, null, text}
use vici.Jobs.Create.{JobCreate, job_create, create_job}
use vici.WorkGoals.Create.{WorkGoalCreate, work_goal_create, create_work_goal}
use vici.Store.{
  MessageType, AuditEvent, Action, assertion_error, overflow_error, pure, lift, or_raise, ◌>>=◌,
  ◌>>◌,
}
use vici.Sms.Repository.{audit}
use vici.Extraction.{JobExtraction, WorkGoalExtraction, ExtractionResult}
use vici.Matches.Models.{MatchResult}
use vici.Matches.Service.{match_goal}
use vici.Matches.Formatter.{format_match_sms}
use vici.Pipeline.Context.{
  Json, with_id, Services, PostCommitAction, upsert_embedding, send_match_reply, send_unknown_reply,
  PipelineContext, Handler, run_after_commit,
}

-- What the extraction hands to a datetime field.
abbrev pub llm_value : Option Text → LlmValue
llm_value none = null
llm_value (some t) = text t

abbrev pub same_type : MessageType → MessageType → Bool
same_type MessageType.job_posting MessageType.job_posting = true
same_type MessageType.work_goal MessageType.work_goal = true
same_type MessageType.unknown MessageType.unknown = true
same_type _ _ = false

abbrev pub is_present : {A : Type 0} → Option A → Bool
is_present none = false
is_present (some a) = true

-- `dollars_to_cents(pay_rate) if pay_rate is not None else None`; `none` is an OverflowError.
abbrev pub cents_of : (fl : Floats) → Option fl.Float → Option (Option ℕ)
cents_of fl none = some none
cents_of fl (some dollars) = elim (dollars_to_cents fl dollars) [
  | none ↦ none
  | some cents ↦ some (some cents)
]

module _ {fl : Floats} where
  -- The arguments of `JobCreate(…)`, but for the datetime.
  abbrev pub job_fields : ℕ → JobExtraction fl → Option ℕ → JobCreate fl
  job_fields message_id extracted pay_rate = record {
    message_id = message_id;
    description = extracted.description;
    location = extracted.location;
    pay_rate = pay_rate;
    pay_type = extracted.pay_type;
    estimated_duration_hours = extracted.estimated_duration_hours;
    raw_duration_text = extracted.raw_duration_text;
    ideal_datetime = none;
    raw_datetime_text = extracted.raw_datetime_text;
    inferred_timezone = extracted.inferred_timezone;
    datetime_flexible = extracted.datetime_flexible;
  }

  -- The arguments of `WorkGoalCreate(…)`, but for the deadline.
  abbrev pub work_goal_fields : ℕ → WorkGoalExtraction fl → ℕ → WorkGoalCreate
  work_goal_fields message_id extracted target_earnings = record {
    message_id = message_id;
    target_earnings = target_earnings;
    target_timeframe = extracted.target_timeframe;
    target_deadline = none;
  }

  module _ (env : Services fl) where
    unfoldable pub handle_job_posting : PipelineContext fl → Action fl (PipelineContext fl)
    handle_job_posting ctx = do
      extracted ← or_raise ctx.result.job assertion_error
      pay_rate ← or_raise (cents_of fl extracted.pay_rate) overflow_error
      fields ← lift (
          job_create fl env.fromisoformat (llm_value extracted.ideal_datetime)
            (job_fields ctx.message_id extracted pay_rate))
      job ← create_job env.now fields
      audit ctx.message_sid AuditEvent.job_created
          (some (env.dumps (with_id (lit "job_id") job.id))) (some ctx.message_id) env.now
      pure (
          run_after_commit ctx (
            upsert_embedding (record {
              job_id = job.id;
              description = extracted.description;
              phone_hash = ctx.phone_hash;
            })))

    unfoldable pub handle_work_goal : PipelineContext fl → Action fl (PipelineContext fl)
    handle_work_goal ctx = do
      extracted ← or_raise ctx.result.work_goal assertion_error
      target_earnings ← or_raise (dollars_to_cents fl extracted.target_earnings) overflow_error
      fields ← lift (
          work_goal_create env.fromisoformat (llm_value extracted.target_deadline)
            (work_goal_fields ctx.message_id extracted target_earnings))
      wg ← create_work_goal env.now fields
      audit ctx.message_sid AuditEvent.work_goal_created
          (some (env.dumps (with_id (lit "work_goal_id") wg.id))) (some ctx.message_id) env.now
      match_result ← match_goal env.now env.searcher wg (some ctx.sms_text)
      pure (
          run_after_commit ctx
            (send_match_reply ctx.from_number (format_match_sms fl match_result)))

    unfoldable pub handle_unknown : PipelineContext fl → Action fl (PipelineContext fl)
    handle_unknown ctx = pure (run_after_commit ctx (send_unknown_reply ctx.from_number))

    abbrev pub job_posting_handler : Handler fl
    job_posting_handler = record {
      message_type = MessageType.job_posting;
      is_terminal = false;
      can_handle = λ r. same_type r.message_type MessageType.job_posting && is_present r.job;
      handle = handle_job_posting;
    }

    abbrev pub work_goal_handler : Handler fl
    work_goal_handler = record {
      message_type = MessageType.work_goal;
      is_terminal = false;
      can_handle = λ r. same_type r.message_type MessageType.work_goal && is_present r.work_goal;
      handle = handle_work_goal;
    }

    abbrev pub unknown_handler : Handler fl
    unknown_handler = record {
      message_type = MessageType.unknown;
      is_terminal = true;
      can_handle = λ r. true;
      handle = handle_unknown;
    }
