-- ===== src/Sms/Webhook/Leaves/Gates.antt =====
-- The gates and the route of a request leave what its statements leave.
use vici.Base.{refl, inl, inr, Bool, none, some, Bool-cases}
use vici.Base.Floats.{Floats}
use vici.Base.Texts.{Text}
use vici.Store.{
  AuditEvent, Db, Error, Result, ok, err, Action, User, Message, and_then, pure, ◌>>=◌, transaction,
}
use vici.Sms.Repository.{check_idempotency, enforce_rate_limit, create, audit, get_or_create}
use vici.Sms.Phones.{hash_phone, scrub_phone_fields}
use vici.Sms.Payload.{model_dump, TwilioWebhookPayload, Request, validate_twilio_request}
use vici.Sms.Webhook.{
  InboundSms, Env, try_except, is_duplicate, is_over_limit, returned, check_idempotency_gate,
  get_or_create_user, enforce_rate_limit_gate, gates_after, gates, store_message, start_workflow,
  route, receive_sms,
}
use vici.Sms.Webhook.Leaves.{
  Leaves, IsLeft, IsLeft-refl, IsLeft-trans, >>=-Leaves, transaction-Leaves, try_except-Leaves,
  audit-Leaves, check_idempotency-Leaves, get_or_create-Leaves, enforce_rate_limit-Leaves,
  create-Leaves,
}

abbrev inbound : TwilioWebhookPayload → User → InboundSms
inbound p user = record { payload = p; sender = user }

module _ {fl : Floats} where
  -- A statement in a transaction, and the note of its refusal in another one.
  abbrev and_then_note :
      {A B : Type 0} → (Error → Bool) → Action fl A → Action fl (Unit {0}) → B → Action fl B
  and_then_note catches m note b =
      try_except catches (transaction m) (transaction note) >>= λ _. pure b

  noting-Leaves :
      {A B : Type 0} (catches : Error → Bool) (m : Action fl A) (note : Action fl (Unit {0}))
      (b : B)
      → Leaves m
      → Leaves note
      → Leaves (and_then_note catches m note b)
  noting-Leaves catches m note b hm hn =
      >>=-Leaves (try_except catches (transaction m) (transaction note)) (λ _. pure b)
        (try_except-Leaves catches (transaction m) (transaction note) (transaction-Leaves m hm)
          (transaction-Leaves note hn))
        (λ _. IsLeft-refl)

  module _ (env : Env) where
    check_idempotency_gate-Leaves :
        (p : TwilioWebhookPayload) → Leaves (check_idempotency_gate {fl = fl} env p)
    unfolding check_idempotency_gate
    check_idempotency_gate-Leaves p =
        noting-Leaves is_duplicate (check_idempotency p.message_sid)
          (audit p.message_sid AuditEvent.duplicate none none env.now) p
          (check_idempotency-Leaves p.message_sid)
          (audit-Leaves p.message_sid AuditEvent.duplicate none none env.now refl)

    enforce_rate_limit_gate-Leaves :
        (m : InboundSms) → Leaves (enforce_rate_limit_gate {fl = fl} env m)
    unfolding enforce_rate_limit_gate
    enforce_rate_limit_gate-Leaves m =
        let limits = env.settings.sms in
        noting-Leaves is_over_limit
          (enforce_rate_limit m.sender.id limits.rate_limit_max limits.rate_limit_window_seconds
            env.before env.now)
          (audit m.payload.message_sid AuditEvent.rate_limited none none env.now) m
          (enforce_rate_limit-Leaves m.sender.id limits.rate_limit_max
            limits.rate_limit_window_seconds env.before env.now)
          (audit-Leaves m.payload.message_sid AuditEvent.rate_limited none none env.now refl)

    abbrev found_user : TwilioWebhookPayload → Text → Action fl User
    found_user p phone_hash = transaction (get_or_create phone_hash (some p.from) env.now)

    get_or_create_user-Leaves :
        (p : TwilioWebhookPayload) → Leaves (get_or_create_user {fl = fl} env p)
    unfolding get_or_create_user
    get_or_create_user-Leaves p db = go (hash_phone env.hmac p.from)
      where
        go :
            (r : Result Text)
            → IsLeft db
                (and_then
                  (r, db)
                  (λ phone_hash. found_user p phone_hash >>= λ user. pure (inbound p user))).1
        go (err e) = IsLeft-refl db
        go (ok phone_hash) =
            >>=-Leaves (found_user p phone_hash) (λ user. pure (inbound p user))
              (transaction-Leaves (get_or_create phone_hash (some p.from) env.now)
                (get_or_create-Leaves phone_hash (some p.from) env.now))
              (λ _. IsLeft-refl) db

    gates_after-Leaves : (p : TwilioWebhookPayload) → Leaves (gates_after {fl = fl} env p)
    unfolding gates_after
    gates_after-Leaves p =
        >>=-Leaves (check_idempotency_gate env p)
          (λ fresh. get_or_create_user env fresh >>= enforce_rate_limit_gate env)
          (check_idempotency_gate-Leaves p)
          (λ fresh.
            >>=-Leaves (get_or_create_user env fresh) (enforce_rate_limit_gate env)
              (get_or_create_user-Leaves fresh) enforce_rate_limit_gate-Leaves)

    gates-Leaves : (request : Request) → Leaves (gates {fl = fl} env request)
    unfolding gates
    gates-Leaves request db =
        >>=-Leaves (returned env (validate_twilio_request env.twilio env.settings request))
          (gates_after env) IsLeft-refl gates_after-Leaves db

    store_message-Leaves : (m : InboundSms) → Leaves (store_message {fl = fl} env m)
    unfolding store_message
    store_message-Leaves m =
        let note = some (env.dumps (scrub_phone_fields env.hmac (model_dump m.payload))) in
        let created = create m.payload.message_sid m.sender.id m.payload.body env.now in
        let noted : Message → Action fl (Unit {0}) = λ message.
          audit m.payload.message_sid AuditEvent.received note (some message.id) env.now in
        transaction-Leaves (created >>= noted) (
          >>=-Leaves created noted
            (create-Leaves m.payload.message_sid m.sender.id m.payload.body env.now)
            (λ message.
              audit-Leaves m.payload.message_sid AuditEvent.received note (some message.id) env.now
                refl))

    pub receive_sms-IsLeft :
        (request : Request) (db : Db fl) → IsLeft db (receive_sms env request db).db
    unfolding receive_sms
    receive_sms-IsLeft request db = routed (gates env request db) (gates-Leaves request db)
      where
        started :
            (m : InboundSms) (s : Result (Unit {0}) × Db fl)
            → IsLeft db s.1
            → IsLeft db (start_workflow env m s).db
        started m (err e, db2) h = h
        started m (ok u, db2) h = elim (Bool-cases env.temporal_accepts) [
          | inl up ↦ rw up h
          | inr down ↦ rw down h
        ]

        routed : (r : Result InboundSms × Db fl) → IsLeft db r.1 → IsLeft db (route env r).db
        routed (err e, db1) h = h
        routed (ok m, db1) h =
            started m (store_message env m db1)
              (IsLeft-trans db db1 _ h (store_message-Leaves m db1))
