-- ===== src/Pipeline/Tests.antt =====
-- The theorems of the pipeline at small inputs.
use vici.Base.{◌≡◌, ◌≢◌, refl, true, false, none, some, [], ◌∷◌, ◌++◌, find_by}
use vici.Base.Int.{pos}
use vici.Base.Floats.{quarters, quarters-IsOrdered}
use vici.Base.Texts.{lit}
use vici.Jobs.{PayType}
use vici.Store.{Error, Db, Message, MessageType, Result, ok, err, extraction_parse_error}
use vici.Samples.{board, posting}
use vici.Extraction.{ExtractionResult, JobExtraction, WorkGoalExtraction}
use vici.Extraction.Service.{Reply, Counters}
use vici.Pipeline.Context.{Services, World}
use vici.Pipeline.Handlers.{
  job_posting_handler, work_goal_handler, unknown_handler, handle_job_posting,
}
use vici.Pipeline.Handlers.Posted.{Posts, handle_job_posting-Posts}
use vici.Pipeline.Orchestrator.{RunArgs, chain, context_of, make_orchestrator, run}
use vici.Pipeline.Orchestrator.Atomic.{run_err}
use vici.Pipeline.Orchestrator.Chain.{make_orchestrator_dispatches}
use vici.Pipeline.Orchestrator.Done.{IsDone, run-IsDone}
use vici.Pipeline.Orchestrator.Outbox.{IsIndexed, run-IsIndexed}
use vici.Pipeline.Orchestrator.Repeats.{run_again}
use vici.Pipeline.Orchestrator.Replies.{SendsAs, run-SendsAs}

-- Paint a fence for 50 dollars.
abbrev fence : JobExtraction quarters
fence = record {
  description = lit "paint a fence";
  ideal_datetime = none;
  raw_datetime_text = none;
  inferred_timezone = none;
  datetime_flexible = true;
  estimated_duration_hours = none;
  raw_duration_text = none;
  location = lit "Oakland";
  pay_rate = some (pos 200);
  pay_type = PayType.flat;
}

abbrev a_job : ExtractionResult quarters
a_job = record {
  message_type = MessageType.job_posting;
  job = some fence;
  work_goal = none;
  unknown = none;
}

-- 60 dollars by today.
abbrev a_goal : ExtractionResult quarters
a_goal = record {
  message_type = MessageType.work_goal;
  job = none;
  work_goal = some (record {
    target_earnings = pos 240;
    target_timeframe = lit "today";
    target_deadline = none;
  });
  unknown = none;
}

abbrev unclear : ExtractionResult quarters
unclear = record {
  message_type = MessageType.unknown;
  job = none;
  work_goal = none;
  unknown = some (record { reason = lit "greeting" });
}

-- An index that refuses every vector, and a reply of the model.
abbrev replying : Reply quarters → Services quarters
replying reply = record {
  from_number = lit "+15550100";
  now = 99;
  today = lit "2026-04-01";
  hmac = λ number. lit "hash of " ++ number;
  fromisoformat = λ text. none;
  dumps = λ fields. [];
  model_dump_json = λ result. [];
  client = λ text n. reply;
  searcher = none;
  index = record { accepts = λ v. false; error = λ v. lit "down" };
  takes_entry = λ job_id. true;
  twilio_accepts = λ sms. true;
}

abbrev job_env : Services quarters
job_env = replying (Reply.completion (some a_job) none)

abbrev goal_env : Services quarters
goal_env = replying (Reply.completion (some a_goal) none)

abbrev unclear_env : Services quarters
unclear_env = replying (Reply.completion (some unclear) none)

-- A message of which nothing has been made.
abbrev fresh : Message
fresh = record posting { id = 14; message_sid = lit "SM14" }

abbrev start : World quarters
start = record {
  db = record board { messages = posting ∷ fresh ∷ [] };
  sent = [];
  vectors = [];
  counters = record {
    job_posting_calls = 0;
    work_goal_calls = 0;
    unknown_calls = 0;
    input_tokens = 0;
    output_tokens = 0;
    pipeline_failures = 0;
  };
}

abbrev args : RunArgs
args = record {
  sms_text = lit "text";
  phone_hash = lit "hash-alice";
  message_id = 14;
  user_id = 21;
  message_sid = lit "SM14";
  from_number = lit "+15550101";
}

handle_job_posting-Posts_example :
    Posts job_env
      (context_of args a_job)
      start.db
      (handle_job_posting job_env (context_of args a_job) start.db)
handle_job_posting-Posts_example = handle_job_posting-Posts job_env (context_of args a_job) start.db

make_orchestrator_dispatches_example : find_by (λ h. h.can_handle a_goal) (chain goal_env) ≢ none
unfolding make_orchestrator
make_orchestrator_dispatches_example =
    make_orchestrator_dispatches (chain goal_env) (chain goal_env) a_goal
      ((λ r e. cc), ((λ r e. cc), ((λ r e. refl), tt))) refl

run_err_example :
    let w' = (run (replying Reply.other) (chain job_env) args start).1 in
    (w'.db ≡ start.db) × (w'.sent ≡ start.sent) × (w'.vectors ≡ start.vectors)
unfolding run vici.Extraction.Service.process vici.Extraction.Service.call_with_retry
run_err_example =
    run_err (replying Reply.other) (chain job_env) args start vici.Store.external_error refl

posted : (run job_env (chain job_env) args start).0 ≡ ok a_job
unfolding run vici.Extraction.Service.process vici.Extraction.Service.call_with_retry
    vici.Store.transaction vici.Sms.Repository.audit vici.Store.persist_audit_log handle_job_posting
    vici.Jobs.Create.job_create vici.Jobs.Create.is_job_create vici.Money.dollars_to_cents
    vici.Jobs.Create.create_job vici.Store.persist_job vici.Sms.Repository.record_classification
posted = refl

run-IsDone_example : IsDone job_env args a_job start (run job_env (chain job_env) args start).1
run-IsDone_example =
    run-IsDone quarters-IsOrdered job_env args start a_job (refl, (refl, (refl, tt))) posted

run-IsIndexed_example : IsIndexed job_env args start (run job_env (chain job_env) args start).1
run-IsIndexed_example =
    run-IsIndexed quarters-IsOrdered job_env args start a_job (refl, (refl, (refl, tt))) posted refl

explained : (run unclear_env (chain unclear_env) args start).0 ≡ ok unclear
unfolding run vici.Extraction.Service.process vici.Extraction.Service.call_with_retry
    vici.Store.transaction vici.Sms.Repository.audit vici.Store.persist_audit_log
    vici.Pipeline.Handlers.handle_unknown vici.Sms.Repository.record_classification
explained = refl

run-SendsAs_example :
    SendsAs MessageType.unknown unclear_env args unclear start
      (run unclear_env (chain unclear_env) args start).1
run-SendsAs_example =
    run-SendsAs quarters-IsOrdered unclear_env args start unclear (refl, (refl, (refl, tt)))
      explained

-- The painter's posting is attempted again.
abbrev again : RunArgs
again = record args { message_id = 11; message_sid = lit "SM11" }

run_again_example :
    let w' = (run job_env (chain job_env) again start).1 in
    (e : Error) × ((run job_env (chain job_env) again start).0 ≡ err e)
    × (w'.db ≡ start.db)
    × (w'.sent ≡ start.sent)
    × (w'.vectors ≡ start.vectors)
unfolding vici.Extraction.Service.process vici.Extraction.Service.call_with_retry
run_again_example =
    run_again quarters-IsOrdered job_env again start a_job (refl, (refl, (refl, tt))) refl refl
