-- ===== src/Pipeline/Context.antt =====
-- src/pipeline/context.py, src/pipeline/handlers/base.py and src/sms/outbound.py: what a handler is
-- given, what it may put off until after the commit, and the world that a run changes.
use vici.Base.{ℕ, Bool, Option, List, [], ◌∷◌, ◌++◌, if◌then◌else◌}
use vici.Base.Floats.{Floats}
use vici.Base.Texts.{Text, lit}
use vici.Datetimes.{Datetime}
use vici.Store.{MessageType, Db, Result, ok, err, external_error, Action, transaction}
use vici.Sms.Phones.{hash_phone}
use vici.Extraction.{ExtractionResult}
use vici.Extraction.Search.{Vector, Index}
use vici.Extraction.Service.{Client, Counters}
use vici.Extraction.SyncQueue.{enqueue}
use vici.Matches.Service.{Searcher}

pub record Sms : Type 0 where
  pub to : Text
  pub from_number : Text
  pub body : Text

-- The objects that the code hands to `json.dumps`.
pub data Json : Type 0 where
  with_text : Text → Text → Json
  with_id : Text → ℕ → Json

-- What a run meets: the settings, the clock, and the code outside src.
pub record Services (fl : Floats) : Type 0 where
  -- `settings.sms.from_number`
  pub from_number : Text
  pub now : ℕ
  -- `date.today().isoformat()`
  pub today : Text
  pub hmac : Text → Text
  pub fromisoformat : Text → Option Datetime
  pub dumps : Json → Text
  pub model_dump_json : ExtractionResult fl → Text
  pub client : Client fl
  pub searcher : Option (Searcher fl)
  pub index : Index
  -- whether the database takes the entry of a job for the queue, and commits it
  pub takes_entry : ℕ → Bool
  -- whether `messages.create` of Twilio's client goes through
  pub twilio_accepts : Sms → Bool

-- What a run changes: the database, the texts that Twilio took, the vectors that the index took,
-- and the counters.
pub record World (fl : Floats) : Type 0 where
  pub db : Db fl
  pub sent : List Sms
  pub vectors : List Vector
  pub counters : Counters

-- The closures that handlers register, by the values that they capture.
pub data PostCommitAction : Type 0 where
  upsert_embedding : Vector → PostCommitAction
  send_match_reply : Text → Text → PostCommitAction
  send_unknown_reply : Text → PostCommitAction

pub record PipelineContext (fl : Floats) : Type 0 where
  pub result : ExtractionResult fl
  pub sms_text : Text
  pub phone_hash : Text
  pub message_id : ℕ
  pub user_id : ℕ
  pub message_sid : Text
  pub from_number : Text
  pub post_commit_actions : List PostCommitAction

-- `MessageHandler`: a class as the record of its attributes and methods.
pub record Handler (fl : Floats) : Type 0 where
  pub message_type : MessageType
  pub is_terminal : Bool
  pub can_handle : ExtractionResult fl → Bool
  pub handle : PipelineContext fl → Action fl (PipelineContext fl)

-- src/extraction/constants.py
abbrev pub unknown_reply_text : Text
unknown_reply_text =
    lit
      "Hi from Vici! We didn't understand your message. Text us a job (include pay, location, time) or your earnings goal (e.g., 'I need $200 today')."

module _ {fl : Floats} where
  abbrev pub run_after_commit : PipelineContext fl → PostCommitAction → PipelineContext fl
  run_after_commit ctx action = record ctx {
    post_commit_actions = ctx.post_commit_actions ++ action ∷ [];
  }

  module _ (env : Services fl) where
    abbrev deliver : Sms → World fl → Result (Unit {0}) × World fl
    deliver sms w =
        if env.twilio_accepts sms
        then (ok tt, record w { sent = w.sent ++ sms ∷ [] })
        else (err external_error, w)

    abbrev after_hash : Result Text → Sms → World fl → Result (Unit {0}) × World fl
    after_hash (err e) sms w = (err e, w)
    after_hash (ok to_hash) sms w = deliver sms w

    -- `send_sms`: the span's attribute needs the hash of the number, so that an empty number raises.
    unfoldable pub send_sms : Text → Text → World fl → Result (Unit {0}) × World fl
    send_sms to body w =
        after_hash (hash_phone env.hmac to)
          (record { to = to; from_number = env.from_number; body = body }) w

    -- `enqueue` and `commit` in the `try`, with the rollback in the `except`.
    unfoldable pub queue_embedding : Vector → World fl → World fl
    queue_embedding v w =
        if env.takes_entry v.job_id
        then record w { db = (transaction (enqueue v.job_id env.now) w.db).1 }
        else w

    -- A closure run to its end: every exception is caught in it.
    unfoldable pub run_action : PostCommitAction → World fl → World fl
    unfolding send_sms queue_embedding
    run_action (upsert_embedding v) w =
        if env.index.accepts v
        then record w { vectors = w.vectors ++ v ∷ [] }
        else queue_embedding v w
    run_action (send_match_reply to body) w = (send_sms to body w).1
    run_action (send_unknown_reply to) w = (send_sms to unknown_reply_text w).1

    -- `for action in ctx.post_commit_actions`
    unfoldable pub run_actions : List PostCommitAction → World fl → World fl
    unfolding run_action
    run_actions [] w = w
    run_actions (action ∷ actions) w = run_actions actions (run_action action w)
