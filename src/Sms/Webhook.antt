-- ===== src/Sms/Webhook.antt =====
-- The gates after the first, of src/sms/dependencies.py, the route of src/sms/router.py, and the
-- responses of src/sms/error_handlers.py.
pub mod Effects
pub mod Leaves
pub mod Delivery
pub mod Runs
pub mod Limits
pub mod Samples
mod Tests
use vici.Base.{ℕ, Bool, true, false, Option, none, some, List, if◌then◌else◌}
use vici.Base.Floats.{Floats}
use vici.Base.Texts.{Text}
use vici.Config.{Settings}
use vici.Store.{
  User, AuditEvent, Db, Error, Result, ok, err, Action, pure, raise, ◌>>=◌, ◌>>◌, transaction,
  duplicate_message_sid, rate_limit_exceeded, twilio_signature_invalid, bad_request,
}
use vici.Sms.Repository.{check_idempotency, enforce_rate_limit, create, audit, get_or_create}
use vici.Sms.Phones.{hash_phone, scrub_phone_fields}
use vici.Sms.Payload.{TwilioWebhookPayload, Request, Twilio, model_dump, validate_twilio_request}

pub record InboundSms : Type 0 where
  pub payload : TwilioWebhookPayload
  pub sender : User

-- What a request meets: the settings, the code outside src, the two readings of the clock by the
-- rate limit, and whether Temporal takes the workflow.
pub record Env : Type 0 where
  pub settings : Settings
  pub twilio : Twilio
  pub hmac : Text → Text
  pub dumps : List (Text × Text) → Text
  pub before : ℕ
  pub now : ℕ
  pub temporal_accepts : Bool

-- The arguments of `start_process_message_workflow`.
pub record ProcessMessageInput : Type 0 where
  pub message_sid : Text
  pub from_number : Text
  pub body : Text

-- 200 with empty TwiML, or the error's status.
pub data Response : Type 0 where
  twiml status_400 status_403 status_500 : Response

-- The answer, the database afterwards and the workflow that was started.
pub record Outcome (fl : Floats) : Type 0 where
  pub response : Response
  pub db : Db fl
  pub started : Option ProcessMessageInput

-- The exception handlers, and the framework's answer to any other exception.
abbrev pub respond : Error → Response
respond duplicate_message_sid = Response.twiml
respond rate_limit_exceeded = Response.twiml
respond twilio_signature_invalid = Response.status_403
respond bad_request = Response.status_400
respond _ = Response.status_500

abbrev pub is_duplicate : Error → Bool
is_duplicate duplicate_message_sid = true
is_duplicate _ = false

abbrev pub is_over_limit : Error → Bool
is_over_limit rate_limit_exceeded = true
is_over_limit _ = false

abbrev pub input_of : TwilioWebhookPayload → ProcessMessageInput
input_of p = record { message_sid = p.message_sid; from_number = p.from; body = p.body }

module _ {fl : Floats} where
  -- `try: m except E: cleanup; raise`
  abbrev pub handle :
      {A : Type 0} → (Error → Bool) → Action fl (Unit {0}) → Result A × Db fl → Result A × Db fl
  handle catches cleanup (ok a, db) = (ok a, db)
  handle catches cleanup (err e, db) = if catches e then (cleanup >> raise e) db else (err e, db)

  pub try_except : {A : Type 0} → (Error → Bool) → Action fl A → Action fl (Unit {0}) → Action fl A
  try_except catches m cleanup db = handle catches cleanup (m db)

  module _ (env : Env) where
    -- Gate 2.
    pub check_idempotency_gate : TwilioWebhookPayload → Action fl TwilioWebhookPayload
    unfolding try_except
    check_idempotency_gate payload = do
      try_except is_duplicate (transaction (check_idempotency payload.message_sid))
          (transaction (audit payload.message_sid AuditEvent.duplicate none none env.now))
      pure payload

    abbrev pub returned : {A : Type 0} → Result A → Action fl A
    returned r db = (r, db)

    -- Gate 3.
    pub get_or_create_user : TwilioWebhookPayload → Action fl InboundSms
    get_or_create_user payload = do
      phone_hash ← returned (hash_phone env.hmac payload.from)
      user ← transaction (get_or_create phone_hash (some payload.from) env.now)
      pure (record { payload = payload; sender = user })

    -- Gate 4.
    pub enforce_rate_limit_gate : InboundSms → Action fl InboundSms
    unfolding try_except
    enforce_rate_limit_gate inbound = do
      try_except is_over_limit
          (transaction (
            enforce_rate_limit inbound.sender.id env.settings.sms.rate_limit_max
              env.settings.sms.rate_limit_window_seconds env.before env.now))
          (transaction
            (audit inbound.payload.message_sid AuditEvent.rate_limited none none env.now))
      pure inbound

    -- The chain of dependencies.
    pub gates_after : TwilioWebhookPayload → Action fl InboundSms
    gates_after payload = do
      fresh ← check_idempotency_gate payload
      inbound ← get_or_create_user fresh
      enforce_rate_limit_gate inbound

    pub gates : Request → Action fl InboundSms
    unfolding gates_after
    gates request = do
      payload ← returned (validate_twilio_request env.twilio env.settings request)
      gates_after payload

    -- The transaction of the route.
    pub store_message : InboundSms → Action fl (Unit {0})
    store_message inbound = transaction (do
      let payload = inbound.payload
      message ← create payload.message_sid inbound.sender.id payload.body env.now
      audit payload.message_sid AuditEvent.received
          (some (env.dumps (scrub_phone_fields env.hmac (model_dump payload)))) (some message.id)
          env.now)

    -- `await start_process_message_workflow(…)`, after the commit.
    abbrev pub start_workflow : InboundSms → Result (Unit {0}) × Db fl → Outcome fl
    start_workflow inbound (err e, db) = record { response = respond e; db = db; started = none }
    start_workflow inbound (ok _, db) =
        if env.temporal_accepts
        then record {
          response = Response.twiml;
          db = db;
          started = some (input_of inbound.payload);
        }
        else record { response = Response.status_500; db = db; started = none }

    abbrev pub route : Result InboundSms × Db fl → Outcome fl
    route (err e, db) = record { response = respond e; db = db; started = none }
    route (ok inbound, db) = start_workflow inbound (store_message inbound db)

    -- `POST /webhook/sms`
    pub receive_sms : Request → Db fl → Outcome fl
    receive_sms request db = route (gates request db)
