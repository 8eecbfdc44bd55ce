-- ===== src/Temporal/Attempts.antt =====
-- What Temporal may make of the activity of a message. An attempt is run to its end, or is cut: the
-- worker dies or the time is up before the commit, when nothing but counters has changed, or after
-- it, with some of the registered actions run. Another attempt may follow any of these, even one
-- that was successful and whose end the server did not hear of.
use vici.Base.{ℕ, ◌≡◌, some, take, find_by}
use vici.Base.Floats.{Floats}
use vici.Base.Texts.{Text, same}
use vici.Extraction.{ExtractionResult}
use vici.Extraction.Service.{Counters}
use vici.Store.{Message, Db, ok, transaction}
use vici.Sms.Webhook.{ProcessMessageInput}
use vici.Pipeline.Context.{Services, World, PipelineContext, run_actions}
use vici.Pipeline.Orchestrator.{chain, context_of, unit_of_work}
use vici.Temporal.Activities.{args_of, process_message_activity}

module _ {fl : Floats} where
  -- One attempt, each with its own replies of the outside and its own reading of the clock.
  pub data Attempt (input : ProcessMessageInput) (w : World fl) : World fl → Type 0 where
    whole :
        {w' : World fl} (env : Services fl)
        → w' ≡ (process_message_activity env (some (chain env)) input w).1
        → Attempt input w w'
    cut_before_commit :
        {w' : World fl} (counters : Counters)
        → w' ≡ record w { counters = counters }
        → Attempt input w w'
    cut_after_commit :
        {w' : World fl} (env : Services fl) (phone_hash : Text) (message : Message)
        (result : ExtractionResult fl) (counters : Counters) (ctx' : PipelineContext fl)
        (db' : Db fl) (actions : ℕ)
        → find_by (λ m. same m.message_sid input.message_sid) w.db.messages ≡ some message
        → transaction
            (unit_of_work env (chain env) (context_of (args_of input phone_hash message) result))
            w.db
          ≡ (ok ctx', db')
        → w'
          ≡ run_actions env
              (take actions ctx'.post_commit_actions)
              (record w { counters = counters; db = db' })
        → Attempt input w w'

  -- Any number of attempts, for any messages in any order.
  pub data Attempts (w : World fl) : World fl → Type 0 where
    here : Attempts w w
    next :
        {w1 w2 : World fl} (input : ProcessMessageInput)
        → Attempts w w1
        → Attempt input w1 w2
        → Attempts w w2
