-- ===== src/Temporal/Workflows.antt =====
-- src/temporal/workflows.py and the cron registration of src/temporal/worker.py.
-- `execute` stands for Temporal's `execute_activity`: what the activity ended with, its retries
-- included, and the world then.
use vici.Base.{ℕ}
use vici.Base.Floats.{Floats}
use vici.Base.Texts.{Text}
use vici.Store.{Result, ok, err, external_error}
use vici.Pipeline.Context.{World}

-- `PROCESS_MESSAGE_RETRY`, in milliseconds. The coefficient is a whole number.
record RetryPolicy : Type 0 where
  pub maximum_attempts : ℕ
  pub initial_interval : ℕ
  pub backoff_coefficient : ℕ
  pub maximum_interval : ℕ

abbrev process_message_retry : RetryPolicy
process_message_retry = record {
  maximum_attempts = 4;
  initial_interval = 1000;
  backoff_coefficient = 2;
  maximum_interval = 300_000;
}

module _ {fl : Floats} where
  -- `except ActivityError: …; raise`. An exception of the second activity takes the first one's place.
  abbrev on_activity_error :
      (World fl → Result (Unit {0}) × World fl) → Result Text × World fl → Result Text × World fl
  on_activity_error execute_failure (ok r, w) = (ok r, w)
  on_activity_error execute_failure (err e, w) =
      let (r, w') = execute_failure w in (elim r [ ok _ ↦ err e | err x ↦ err x ], w')

  -- `ProcessMessageWorkflow.run`
  unfoldable process_message_workflow :
      (World fl → Result Text × World fl)
      → (World fl → Result (Unit {0}) × World fl)
      → World fl
      → Result Text × World fl
  process_message_workflow execute execute_failure w = on_activity_error execute_failure (execute w)

-- How `start_workflow` can end.
data Started : Type 0 where
  started workflow_already_started already_exists : Started
  rpc_error : Started

-- `_start_cron`: the two ways of Temporal to say that the workflow is there already pass.
unfoldable start_cron : Started → Result (Unit {0})
start_cron started = ok tt
start_cron workflow_already_started = ok tt
start_cron already_exists = ok tt
start_cron rpc_error = err external_error

abbrev start_second : Result (Unit {0}) → Started → Result (Unit {0})
start_second (ok _) second = start_cron second
start_second (err e) second = err e

-- `start_cron_if_needed`: the sync first, then the purge.
unfoldable start_cron_if_needed : Started → Started → Result (Unit {0})
unfolding start_cron
start_cron_if_needed sync purge = start_second (start_cron sync) purge
