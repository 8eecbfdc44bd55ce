-- ===== src/Temporal/Activities.antt =====
-- `process_message_activity` and `handle_process_message_failure_activity` of
-- src/temporal/activities.py. The session that the activity opens is closed at its end, and what a
-- run that raised had written is rolled back then.
use vici.Base.{◌+◌, Bool, true, false, Option, none, some, List, find_by}
use vici.Base.Floats.{Floats}
use vici.Base.Texts.{Text, lit, same}
use vici.Store.{Message, Error, Result, ok, err, application_error}
use vici.Sms.Phones.{hash_phone}
use vici.Sms.Webhook.{ProcessMessageInput}
use vici.Extraction.{ExtractionResult}
use vici.Pipeline.Context.{Services, World, Handler}
use vici.Pipeline.Orchestrator.{RunArgs, run}

-- `non_retryable=True`
abbrev is_non_retryable : Error → Bool
is_non_retryable application_error = true
is_non_retryable _ = false

abbrev pub args_of : ProcessMessageInput → Text → Message → RunArgs
args_of input phone_hash message = record {
  sms_text = input.body;
  phone_hash = phone_hash;
  message_id = message.id;
  user_id = message.user_id;
  message_sid = input.message_sid;
  from_number = input.from_number;
}

module _ {fl : Floats} where
  abbrev pub returned_ok : Result (ExtractionResult fl) × World fl → Result Text × World fl
  returned_ok (ok result, w) = (ok (lit "ok"), w)
  returned_ok (err e, w) = (err e, w)

  module _ (env : Services fl) where
    -- The orchestrator is unset until `run_worker` has set it.
    abbrev orchestrated : Option (List (Handler fl)) → RunArgs → World fl → Result Text × World fl
    orchestrated none args w = (err application_error, w)
    orchestrated (some handlers) args w = returned_ok (run env handlers args w)

    abbrev pub with_message :
        Option (List (Handler fl))
        → ProcessMessageInput
        → Text
        → Option Message
        → World fl
        → Result Text × World fl
    with_message handlers input phone_hash none w = (err application_error, w)
    with_message handlers input phone_hash (some message) w =
        orchestrated handlers (args_of input phone_hash message) w

    abbrev pub with_hash_of :
        Option (List (Handler fl))
        → ProcessMessageInput
        → Result Text
        → World fl
        → Result Text × World fl
    with_hash_of handlers input (err e) w = (err e, w)
    with_hash_of handlers input (ok phone_hash) w =
        with_message handlers input phone_hash
          (find_by (λ m. same m.message_sid input.message_sid) w.db.messages) w

    unfoldable pub process_message_activity :
        Option (List (Handler fl)) → ProcessMessageInput → World fl → Result Text × World fl
    process_message_activity handlers input w =
        with_hash_of handlers input (hash_phone env.hmac input.from_number) w

  -- `pipeline_failures_total.labels(function="process-message").inc()`
  unfoldable pub handle_process_message_failure_activity : World fl → World fl
  handle_process_message_failure_activity w = record w {
    counters = record (w.counters) { pipeline_failures = w.counters.pipeline_failures + 1 };
  }
