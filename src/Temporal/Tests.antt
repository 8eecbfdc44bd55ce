-- ===== src/Temporal/Tests.antt =====
-- The theorems of the activities at small inputs.
use vici.Base.{inl, refl, true, none, some, [], ◌∷◌, ◌++◌, ◌==◌, arith}
use vici.Base.Int.{pos}
use vici.Base.Floats.{quarters, quarters-IsOrdered}
use vici.Base.Texts.{lit}
use vici.Samples.{board, posting}
use vici.Jobs.{PayType}
use vici.Store.{MessageType, Db, SyncStatus, PineconeSyncQueue}
use vici.Extraction.{ExtractionResult}
use vici.Extraction.Service.{Reply, Counters}
use vici.Sms.Webhook.{ProcessMessageInput}
use vici.Pipeline.Context.{Services, World}
use vici.Pipeline.Orchestrator.{chain}
use vici.Temporal.Activities.{process_message_activity}
use vici.Temporal.Attempts.{whole}
use vici.Extraction.Search.{Index}
use vici.Sms.Webhook.Samples.{up, text_of}
use vici.Temporal.Systems.{System, Steps, requested, request, attempt, purge, done, further}
use vici.Temporal.Reached.{IsGood, Steps-IsGood}
use vici.Temporal.Sweep.{purge_rate_limit_activity}
use vici.Temporal.Ledgers.{Entries, ledger}
use vici.Temporal.Refined.{Steps-Entries}

abbrev waiting : PineconeSyncQueue
waiting = record {
  id = 51;
  job_id = 1;
  status = SyncStatus.pending;
  attempts = 0;
  last_error = none;
  created_at = 7;
}

-- Two entries wait, and one is done.
abbrev waiting_board : Db quarters
waiting_board = record board {
  messages = posting ∷ record posting { id = 12 } ∷ [];
  sync_queue =
      record waiting { id = 53; job_id = 2 }
      ∷ record waiting { id = 52; status = SyncStatus.synced }
      ∷ waiting
      ∷ [];
}

-- It takes the first job only.
abbrev half_index : Index
half_index = record { accepts = λ v. v.job_id == 1; error = λ v. lit "down" }

-- A reply that is a job.
abbrev a_job : ExtractionResult quarters
a_job = record {
  message_type = MessageType.job_posting;
  job = some (record {
    description = lit "paint a fence";
    ideal_datetime = none;
    raw_datetime_text = none;
    inferred_timezone = none;
    datetime_flexible = true;
    estimated_duration_hours = some (pos 8);
    raw_duration_text = none;
    location = lit "Oakland";
    pay_rate = some (pos 200);
    pay_type = PayType.flat;
  });
  work_goal = none;
  unknown = none;
}

abbrev env : Services quarters
env = record {
  from_number = lit "+15550100";
  now = 99;
  today = lit "2026-04-01";
  hmac = λ number. lit "hash of " ++ number;
  fromisoformat = λ text. none;
  dumps = λ fields. [];
  model_dump_json = λ result. [];
  client = λ text n. Reply.completion (some a_job) none;
  searcher = none;
  index = half_index;
  takes_entry = λ job_id. true;
  twilio_accepts = λ sms. true;
}

abbrev counters : Counters
counters = record {
  job_posting_calls = 0;
  work_goal_calls = 0;
  unknown_calls = 0;
  input_tokens = 0;
  output_tokens = 0;
  pipeline_failures = 0;
}

-- Of the stored message nothing has been made.
abbrev start : World quarters
start = record {
  db = record board { jobs = []; work_goals = [] };
  sent = [];
  vectors = [];
  counters = counters;
}

abbrev input : ProcessMessageInput
input = record {
  message_sid = lit "SM11";
  from_number = lit "+15550101";
  body = lit "Need a painter";
}

-- An attempt that goes through.
abbrev once : World quarters
once = (process_message_activity env (some (chain env)) input start).1

-- The same message as a workflow that is started.
abbrev launched : System quarters
launched = record { world = start; started = input ∷ [] }

abbrev attempted : System quarters
attempted = record launched { world = once }

abbrev cleaned : System quarters
cleaned = record attempted { world = record once { db = (purge_rate_limit_activity 9 once.db).1 } }

abbrev asked : System quarters
asked = requested up (text_of (lit "SM1")) cleaned

launched-IsGood : IsGood launched
launched-IsGood = (((tt, λ m. (omega arith, refl, omega arith, refl)), (refl, tt)), (refl, tt))

-- An attempt, a purge and a request.
asked-Steps : Steps launched asked
asked-Steps =
    (further
      (further (further done (attempt input once (inl refl) (whole env refl) refl)) (purge 9 refl))
      (request up (text_of (lit "SM1")) refl))

Steps-IsGood_example : IsGood asked
Steps-IsGood_example = Steps-IsGood quarters-IsOrdered launched asked asked-Steps launched-IsGood

Steps-Entries_example : Entries (ledger launched.world.db) (ledger asked.world.db)
Steps-Entries_example = Steps-Entries quarters-IsOrdered launched asked asked-Steps launched-IsGood
