-- ===== src/Sms/Webhook/Delivery.antt =====
-- What one request does to the messages and to Temporal, whatever the request.
use vici.Base.{
  ◌+◌, ◌≡◌, refl, sym, ◌∙◌, ap, ◌⊎◌, inl, inr, true, false, none, some, [], ◌∷◌, ◌++◌, arith,
  any_of, Bool-cases,
}
use vici.Base.Floats.{Floats}
use vici.Base.Texts.{same}
use vici.Store.{
  Message, AuditEvent, AuditLog, Db, Error, Result, ok, err, transaction, has_sid,
  persist_audit_log, duplicate_message_sid,
}
use vici.Sms.Repository.{check_idempotency, audit}
use vici.Sms.Payload.{TwilioWebhookPayload, Request, validate_twilio_request}
use vici.Sms.Webhook.{
  InboundSms, Env, ProcessMessageInput, Response, Outcome, respond, input_of,
  check_idempotency_gate, gates_after, gates, store_message, start_workflow, route, receive_sms,
}
use vici.Sms.Webhook.Effects.{Stores, stored, store_message-Stores, gates-messages}

module _ {fl : Floats} where
  -- The request is turned away and stores nothing, or it stores a message whose sid is new and
  -- starts at most the workflow of that message.
  pub record IsDelivered (db : Db fl) (o : Outcome fl) : Type 0 where
    pub row : Message
    pub input : ProcessMessageInput
    pub same_sid : input.message_sid ≡ row.message_sid
    pub fresh : has_sid row.message_sid db ≡ false
    pub messages : o.db.messages ≡ db.messages ++ row ∷ []
    pub started : (o.started ≡ none) ⊎ (o.started ≡ some input)

  abbrev IsTurnedAway : Db fl → Outcome fl → Type 0
  IsTurnedAway db o = (o.started ≡ none) × (o.db.messages ≡ db.messages)

  -- Past the gates, the transaction of the route decides.
  start_workflow-lem :
      (env : Env) (db db1 : Db fl) (m : InboundSms) (s : Result (Unit {0}) × Db fl)
      → db1.messages ≡ db.messages
      → Stores env m db1 s
      → IsTurnedAway db (start_workflow env m s) ⊎ IsDelivered db (start_workflow env m s)
  start_workflow-lem env db db1 m (err e, db2) h p = inl (refl, ap (λ d. d.messages) p ∙ h)
  start_workflow-lem env db db1 m (ok u, db2) h p = inr (elim (Bool-cases env.temporal_accepts) [
    | inl up ↦ rw up (delivered _ refl (inr refl))
    | inr down ↦ rw down (delivered _ refl (inl refl))
  ])
    where
      delivered :
          (o : Outcome fl)
          → o.db ≡ db2
          → (o.started ≡ none) ⊎ (o.started ≡ some (input_of m.payload))
          → IsDelivered db o
      delivered o e started = record {
        row = stored env m db1;
        input = input_of m.payload;
        same_sid = refl;
        fresh = ap (any_of (λ x. same x.message_sid m.payload.message_sid)) (sym h) ∙ p.fresh;
        messages = ap (λ d. d.messages) e ∙ p.messages ∙ ap (λ ms. ms ++ stored env m db1 ∷ []) h;
        started = started;
      }

  route-lem :
      (env : Env) (db : Db fl) (r : Result InboundSms × Db fl)
      → r.1.messages ≡ db.messages
      → IsTurnedAway db (route env r) ⊎ IsDelivered db (route env r)
  route-lem env db (err e, db1) h = inl (refl, h)
  route-lem env db (ok m, db1) h =
      start_workflow-lem env db db1 m (store_message env m db1) h (store_message-Stores env m db1)

  pub receive_sms-cases :
      (env : Env) (request : Request) (db : Db fl)
      → IsTurnedAway db (receive_sms env request db) ⊎ IsDelivered db (receive_sms env request db)
  unfolding receive_sms
  receive_sms-cases env request db =
      route-lem env db (gates env request db) (gates-messages env request db)

  -- The database with one audit row `duplicate` more.
  abbrev pub audited_duplicate : Env → TwilioWebhookPayload → Db fl → Db fl
  audited_duplicate env p db =
      let row : AuditLog = record {
        id = db.next_id;
        message_sid = p.message_sid;
        message_id = none;
        event = AuditEvent.duplicate;
        detail = none;
        created_at = env.now;
      } in
      record db { audit_log = db.audit_log ++ row ∷ []; next_id = db.next_id + 1 }

  check_idempotency_gate_seen :
      (env : Env) (p : TwilioWebhookPayload) (db : Db fl)
      → has_sid p.message_sid db ≡ true
      → check_idempotency_gate env p db ≡ (err duplicate_message_sid, audited_duplicate env p db)
  unfolding check_idempotency_gate check_idempotency transaction audit persist_audit_log
  check_idempotency_gate_seen env p db h = ground arith

  -- A request that the first gate refuses, a bad form or a bad signature, gets that error's answer,
  -- touches nothing and starts nothing.
  pub receive_sms_refused :
      (env : Env) (request : Request) (db : Db fl) (e : Error)
      → validate_twilio_request env.twilio env.settings request ≡ err e
      → receive_sms env request db ≡ record { response = respond e; db = db; started = none }
  unfolding receive_sms gates
  receive_sms_refused env request db e refused = rw refused refl

  -- A request that the first gate lets pass, with a sid that is stored, is answered 200 with empty
  -- TwiML and adds one audit row `duplicate`: no user, no rate-limit row, no message, no workflow.
  pub receive_sms_seen :
      (env : Env) (request : Request) (db : Db fl) (p : TwilioWebhookPayload)
      → validate_twilio_request env.twilio env.settings request ≡ ok p
      → has_sid p.message_sid db ≡ true
      → receive_sms env request db
        ≡ record { response = Response.twiml; db = audited_duplicate env p db; started = none }
  unfolding receive_sms gates gates_after
  receive_sms_seen env request db p passed seen =
      rw passed (rw (check_idempotency_gate_seen env p db seen) refl)
