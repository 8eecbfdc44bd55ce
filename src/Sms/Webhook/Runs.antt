-- ===== src/Sms/Webhook/Runs.antt =====
-- Any sequence of requests: each message is started at most once.
use vici.Base.{
  ◌≡◌, refl, sym, ◌∙◌, ap, inl, inr, Bool, true, false, Option, none, some, List, [], ◌∷◌, arith,
  All, any_of, any_of-append, Bool-cases, Option-cases,
}
use mathlib.Core.Option.{some-injective}
use vici.Base.Floats.{Floats}
use vici.Base.Texts.{Text, same, same_iff, same_refl}
use vici.Store.{Db, ok, has_sid}
use vici.Sms.Payload.{Request}
use vici.Sms.Webhook.{
  InboundSms, Env, ProcessMessageInput, Response, gates, store_message, receive_sms,
}
use vici.Sms.Webhook.Effects.{IsStored, stored, store_message-Stores}
use vici.Sms.Webhook.Delivery.{receive_sms-cases}

-- A request, and what it meets.
abbrev pub Event : Type 0
Event = Env × Request

abbrev pub add_start :
    Option ProcessMessageInput → List ProcessMessageInput → List ProcessMessageInput
add_start none inputs = inputs
add_start (some i) inputs = i ∷ inputs

-- Whether the workflow of a message is among those started.
abbrev pub is_started : Text → List ProcessMessageInput → Bool
is_started sid = any_of (λ i. same i.message_sid sid)

-- No message is started twice.
abbrev pub AreDistinct : List ProcessMessageInput → Type 0
AreDistinct [] = Unit
AreDistinct (i ∷ inputs) = (is_started i.message_sid inputs ≡ false) × AreDistinct inputs

pub same-false : (a b : Text) → same a b ≡ false → same b a ≡ false
same-false a b h = ground (arith, same_iff a b, same_iff b a)

module _ {fl : Floats} where
  -- The requests one after the other: the workflows started, and the database at the end.
  pub run : List Event → Db fl → List ProcessMessageInput × Db fl
  run [] db = ([], db)
  run ((env, request) ∷ events) db =
      let o = receive_sms env request db in
      let (inputs, last) = run events o.db in (add_start o.started inputs, last)

  -- What a stored message makes of one request.
  pub receive_sms_keeps :
      (env : Env) (request : Request) (db : Db fl) (sid : Text)
      → has_sid sid db ≡ true
      → has_sid sid (receive_sms env request db).db ≡ true
  receive_sms_keeps env request db sid h = elim (receive_sms-cases env request db) [
    | inl away ↦ rw away.1 h
    | inr d ↦ rw d.messages (any_of-append _ db.messages (d.row ∷ []) ∙ ground (arith, h))
  ]

  -- The message of a workflow that a request starts is new, and is stored.
  pub receive_sms-started :
      (env : Env) (request : Request) (db : Db fl) (i : ProcessMessageInput)
      → (receive_sms env request db).started ≡ some i
      → (has_sid i.message_sid db ≡ false)
        × (has_sid i.message_sid (receive_sms env request db).db ≡ true)
  receive_sms-started env request db i h = elim (receive_sms-cases env request db) [
    | inl away ↦ cc (away.0)
    | inr d ↦ elim d.started [
      | inl none_started ↦ cc none_started
      | inr e ↦
          let same_input : i ≡ d.input = some-injective _ _ (sym h ∙ e) in
          rw (same_input, d.same_sid, d.messages)
            (
              d.fresh,
              any_of-append _ db.messages (d.row ∷ [])
                  ∙ ground (arith, d.fresh, same_refl d.row.message_sid),
            )
    ]
  ]

  pub sids_differ :
      (db : Db fl) (a b : Text) → has_sid a db ≡ false → has_sid b db ≡ true → same a b ≡ false
  sids_differ db a b ha hb = elim (Bool-cases (same a b)) [
    | inl e ↦ absurd (cc (ap (λ s. has_sid s db) ((same_iff a b).0 e)))
    | inr e ↦ e
  ]

  -- A stored message is never started again, whatever is delivered later.
  pub run-stored-is_started :
      (events : List Event) (db : Db fl) (sid : Text)
      → has_sid sid db ≡ true
      → is_started sid (run events db).0 ≡ false
  unfolding run
  run-stored-is_started [] db sid h = refl
  run-stored-is_started ((env, request) ∷ events) db sid h =
      elim (Option-cases (receive_sms env request db).started) [
        | inl e ↦ rw e (run-stored-is_started events _ sid (receive_sms_keeps env request db sid h))
        | inr (i, e) ↦
            let (fresh, kept) = receive_sms-started env request db i e in
            let rest =
              run-stored-is_started events (receive_sms env request db).db sid
                (receive_sms_keeps env request db sid h) in
            let other = sids_differ db i.message_sid sid fresh h in rw e (rw other rest)
      ]

  -- Over any sequence of requests no workflow is started twice for one sid, whatever Twilio
  -- delivers again and whether Temporal takes the workflows or not.
  pub run-AreDistinct : (events : List Event) (db : Db fl) → AreDistinct (run events db).0
  unfolding run
  run-AreDistinct [] db = tt
  run-AreDistinct ((env, request) ∷ events) db =
      let o = receive_sms env request db in
      let rest = run-AreDistinct events o.db in
      elim (Option-cases o.started) [
        | inl e ↦ rw e rest
        | inr (i, e) ↦
            let kept = (receive_sms-started env request db i e).1 in
            rw e (run-stored-is_started events o.db i.message_sid kept, rest)
      ]

  run_keeps :
      (events : List Event) (db : Db fl) (sid : Text)
      → has_sid sid db ≡ true
      → has_sid sid (run events db).1 ≡ true
  unfolding run
  run_keeps [] db sid h = h
  run_keeps ((env, request) ∷ events) db sid h =
      run_keeps events (receive_sms env request db).db sid (receive_sms_keeps env request db sid h)

  -- Every workflow that is started finds its message in the table, then and later.
  pub run_stores_started :
      (events : List Event) (db : Db fl)
      → All (λ i. has_sid i.message_sid (run events db).1 ≡ true) (run events db).0
  unfolding run
  run_stores_started [] db = tt
  run_stores_started ((env, request) ∷ events) db =
      let o = receive_sms env request db in
      let rest = run_stores_started events o.db in
      elim (Option-cases o.started) [
        | inl e ↦ rw e rest
        | inr (i, e) ↦
            rw e
              (run_keeps events o.db i.message_sid (receive_sms-started env request db i e).1, rest)
      ]

  store_message-has_sid :
      (env : Env) (m : InboundSms) (db db' : Db fl)
      → store_message env m db ≡ (ok tt, db')
      → has_sid m.payload.message_sid db' ≡ true
  store_message-has_sid env m db db' e =
      let p : IsStored env m db db' = rw e at (store_message-Stores env m db) in
      rw p.messages (
        any_of-append _ db.messages (stored env m db ∷ [])
        ∙ ground (arith, p.fresh, same_refl m.payload.message_sid))

  -- A message that passes the gates and is stored while Temporal refuses the workflow is answered
  -- 500, and no later request, a redelivery of the message included, starts its workflow.
  pub refused_start_is_lost :
      (env : Env) (request : Request) (db : Db fl) (m : InboundSms) (db1 db2 : Db fl)
      (events : List Event)
      → gates env request db ≡ (ok m, db1)
      → store_message env m db1 ≡ (ok tt, db2)
      → env.temporal_accepts ≡ false
      → let o = receive_sms env request db in
        (o.response ≡ Response.status_500)
        × (o.started ≡ none)
        × (is_started m.payload.message_sid (run events o.db).0 ≡ false)
  unfolding receive_sms
  refused_start_is_lost env request db m db1 db2 events passed written refused =
      rw (passed, written, refused)
        (
          refl,
          refl,
          run-stored-is_started events db2 m.payload.message_sid
              (store_message-has_sid env m db1 db2 written),
        )
