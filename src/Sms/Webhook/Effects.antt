-- ===== src/Sms/Webhook/Effects.antt =====
-- What each part of the webhook does to the messages and to the rate limit's rows.
use vici.Base.{ℕ, ◌-◌, ◌*◌, ◌≤◌, ◌≡◌, refl, ◌∙◌, ◌⊎◌, false, none, [], ◌∷◌, ◌++◌, arith, count_if}
use vici.Base.Floats.{Floats}
use vici.Store.{
  Message, RateLimit, Db, Result, ok, err, transaction, persist_message, persist_audit_log,
  insert_rate_limit, has_sid,
}
use vici.Sms.Repository.{
  second, in_window, check_idempotency, enforce_rate_limit, create, audit, get_or_create,
}
use vici.Sms.Payload.{TwilioWebhookPayload, Request}
use vici.Sms.Webhook.{
  InboundSms, Env, check_idempotency_gate, get_or_create_user, enforce_rate_limit_gate, gates,
  store_message,
}

module _ {fl : Floats} where
  -- The two tables that the statements below leave alone.
  pub record Same (db db' : Db fl) : Type 0 where
    pub messages : db'.messages ≡ db.messages
    pub rate_limits : db'.rate_limits ≡ db.rate_limits

  Same-refl : (db : Db fl) → Same db db
  Same-refl db = record { messages = refl; rate_limits = refl }

  Same-trans : (a b c : Db fl) → Same a b → Same b c → Same a c
  Same-trans a b c p q = record {
    messages = q.messages ∙ p.messages;
    rate_limits = q.rate_limits ∙ p.rate_limits;
  }

  pub check_idempotency_gate-Same :
      (env : Env) (p : TwilioWebhookPayload) (db : Db fl)
      → Same db (check_idempotency_gate env p db).1
  unfolding check_idempotency_gate check_idempotency transaction audit persist_audit_log
  check_idempotency_gate-Same env p db = ground arith

  pub get_or_create_user-Same :
      (env : Env) (p : TwilioWebhookPayload) (db : Db fl) → Same db (get_or_create_user env p db).1
  unfolding get_or_create_user transaction get_or_create
  get_or_create_user-Same env p db = ground arith

  -- Gate 4 lets a message pass with one more row, if the rows in the window are not too many then;
  -- otherwise it leaves the rows as they were.
  enforce_rate_limit_gate-messages :
      (env : Env) (m : InboundSms) (db : Db fl)
      → (enforce_rate_limit_gate env m db).1.messages ≡ db.messages
  unfolding enforce_rate_limit_gate transaction enforce_rate_limit insert_rate_limit audit
      persist_audit_log
  enforce_rate_limit_gate-messages env m db = ground arith

  abbrev pub new_row : Env → ℕ → Db fl → RateLimit
  new_row env user_id db = record { id = db.next_id; user_id = user_id; created_at = env.now }

  abbrev pub Admits : Env → ℕ → Db fl → Db fl → Type 0
  Admits env user_id db db' =
      (db'.rate_limits ≡ db.rate_limits ++ new_row env user_id db ∷ [])
      × (count_if
            (in_window user_id (env.before - env.settings.sms.rate_limit_window_seconds * second))
            db'.rate_limits
          ≤ env.settings.sms.rate_limit_max)

  pub enforce_rate_limit_gate-rate_limits :
      (env : Env) (m : InboundSms) (db : Db fl)
      → let (r, db') = enforce_rate_limit_gate env m db in
        (db'.rate_limits ≡ db.rate_limits) ⊎ Admits env m.sender.id db db'
  unfolding enforce_rate_limit_gate transaction enforce_rate_limit insert_rate_limit audit
      persist_audit_log
  enforce_rate_limit_gate-rate_limits env m db = ground arith

  -- The route's transaction writes the message under a new id, or nothing.
  abbrev pub stored : Env → InboundSms → Db fl → Message
  stored env m db = record {
    id = db.next_id;
    message_sid = m.payload.message_sid;
    user_id = m.sender.id;
    body = m.payload.body;
    message_type = none;
    raw_gpt_response = none;
    created_at = env.now;
  }

  -- A stored message is new, is the last one, and the transaction writes no rate-limit row.
  pub record IsStored (env : Env) (m : InboundSms) (db db' : Db fl) : Type 0 where
    pub fresh : has_sid m.payload.message_sid db ≡ false
    pub messages : db'.messages ≡ db.messages ++ stored env m db ∷ []
    pub rate_limits : db'.rate_limits ≡ db.rate_limits

  abbrev pub Stores : Env → InboundSms → Db fl → Result (Unit {0}) × Db fl → Type 0
  Stores env m db (ok u, db') = IsStored env m db db'
  Stores env m db (err e, db') = db' ≡ db

  pub store_message-Stores :
      (env : Env) (m : InboundSms) (db : Db fl) → Stores env m db (store_message env m db)
  unfolding store_message transaction create persist_message audit persist_audit_log
  store_message-Stores env m db = ground arith

  -- The gates write no message, and at most one rate-limit row, which the limit admits.
  pub gates-messages :
      (env : Env) (request : Request) (db : Db fl) → (gates env request db).1.messages ≡ db.messages
  unfolding gates
  gates-messages env request db = grind (
    arith, check_idempotency_gate-Same, get_or_create_user-Same, enforce_rate_limit_gate-messages,
  )
