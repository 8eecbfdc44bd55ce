-- ===== src/Sms/Webhook/Leaves.antt =====
-- What a request leaves as it was: the jobs, the goals, the queue, and the audit rows of the
-- pipeline.
pub mod Gates
use vici.Base.{
  ℕ, ◌+◌, ◌≡◌, refl, ◌∙◌, ap, inl, inr, Bool, true, false, Option, none, some, [], ◌∷◌, ◌++◌, arith,
  count_if, count_if-append, Bool-cases,
}
use vici.Base.Floats.{Floats}
use vici.Base.Texts.{Text}
use vici.Store.{
  AuditEvent, AuditLog, Db, Error, Result, ok, err, Action, User, Message, and_then, pure, ◌>>=◌,
  raise, settle, transaction, insert_rate_limit, persist_message, persist_audit_log, has_message,
}
use vici.Sms.Repository.{check_idempotency, enforce_rate_limit, create, audit, get_or_create}
use vici.Sms.Phones.{hash_phone, scrub_phone_fields}
use vici.Sms.Payload.{model_dump, TwilioWebhookPayload, Request, validate_twilio_request}
use vici.Sms.Webhook.{
  InboundSms, Env, handle, try_except, is_duplicate, is_over_limit, returned,
  check_idempotency_gate, get_or_create_user, enforce_rate_limit_gate, gates_after, gates,
  store_message, start_workflow, route, receive_sms,
}

-- The events that a request notes.
abbrev pub is_request_event : AuditEvent → Bool
is_request_event AuditEvent.received = true
is_request_event AuditEvent.duplicate = true
is_request_event AuditEvent.rate_limited = true
is_request_event _ = false

-- A test that passes over the rows of requests.
abbrev PassesOver : (AuditLog → Bool) → Type 0
PassesOver p = (a : AuditLog) → is_request_event a.event ≡ true → p a ≡ false

module _ {fl : Floats} where
  pub record IsLeft (db db' : Db fl) : Type 0 where
    pub jobs : db'.jobs ≡ db.jobs
    pub work_goals : db'.work_goals ≡ db.work_goals
    pub sync_queue : db'.sync_queue ≡ db.sync_queue
    pub noted :
        (p : AuditLog → Bool) → PassesOver p → count_if p db'.audit_log ≡ count_if p db.audit_log

  pub IsLeft-refl : (db : Db fl) → IsLeft db db
  IsLeft-refl db = record { jobs = refl; work_goals = refl; sync_queue = refl; noted = λ p h. refl }

  pub IsLeft-trans : (a b c : Db fl) → IsLeft a b → IsLeft b c → IsLeft a c
  IsLeft-trans a b c p q = record {
    jobs = q.jobs ∙ p.jobs;
    work_goals = q.work_goals ∙ p.work_goals;
    sync_queue = q.sync_queue ∙ p.sync_queue;
    noted = λ t h. q.noted t h ∙ p.noted t h;
  }

  -- Statements that leave so much.
  abbrev pub Leaves : {A : Type 0} → Action fl A → Type 0
  Leaves m = (db : Db fl) → IsLeft db (m db).1

  pub >>=-Leaves :
      {A B : Type 0} (m : Action fl A) (f : A → Action fl B)
      → Leaves m
      → ((a : A) → Leaves (f a))
      → Leaves (m >>= f)
  >>=-Leaves {A} {B} m f hm hf db = go (m db) (hm db)
    where
      go : (s : Result A × Db fl) → IsLeft db s.1 → IsLeft db (and_then s f).1
      go (ok a, db1) h = IsLeft-trans db db1 (f a db1).1 h (hf a db1)
      go (err e, db1) h = h

  pub transaction-Leaves : {A : Type 0} (m : Action fl A) → Leaves m → Leaves (transaction m)
  unfolding transaction
  transaction-Leaves {A} m h db = go (m db) (h db)
    where
      go : (s : Result A × Db fl) → IsLeft db s.1 → IsLeft db (settle db s).1
      go (ok a, db1) k = k
      go (err e, db1) k = IsLeft-refl db

  pub try_except-Leaves :
      {A : Type 0} (catches : Error → Bool) (m : Action fl A) (cleanup : Action fl (Unit {0}))
      → Leaves m
      → Leaves cleanup
      → Leaves (try_except catches m cleanup)
  unfolding try_except
  try_except-Leaves {A} catches m cleanup hm hc db = go (m db) (hm db)
    where
      go : (s : Result A × Db fl) → IsLeft db s.1 → IsLeft db (handle catches cleanup s).1
      go (ok a, db1) k = k
      go (err e, db1) k = elim (Bool-cases (catches e)) [
        | inl caught ↦
            rw caught (
              IsLeft-trans db db1 _ k (>>=-Leaves cleanup (λ _. raise e) hc (λ _. IsLeft-refl) db1))
        | inr passed ↦ rw passed k
      ]

  same_log-IsLeft :
      (db db' : Db fl)
      → (db'.jobs ≡ db.jobs)
        × (db'.work_goals ≡ db.work_goals)
        × (db'.sync_queue ≡ db.sync_queue)
        × (db'.audit_log ≡ db.audit_log)
      → IsLeft db db'
  same_log-IsLeft db db' (jobs, goals, queue, log) = record {
    jobs = jobs;
    work_goals = goals;
    sync_queue = queue;
    noted = λ p h. ap (count_if p) log;
  }

  -- One row of a request more.
  one_row-IsLeft :
      (db : Db fl) (row : AuditLog) (k : ℕ)
      → is_request_event row.event ≡ true
      → IsLeft db (record db { audit_log = db.audit_log ++ row ∷ []; next_id = k })
  one_row-IsLeft db row k h = record {
    jobs = refl;
    work_goals = refl;
    sync_queue = refl;
    noted = λ p passes. count_if-append p db.audit_log (row ∷ []) ∙ ground (arith, passes row h);
  }

  pub audit-Leaves :
      (sid : Text) (event : AuditEvent) (detail : Option Text) (id : Option ℕ) (now : ℕ)
      → is_request_event event ≡ true
      → Leaves (audit {fl = fl} sid event detail id now)
  unfolding audit persist_audit_log
  audit-Leaves sid event detail none now h db = one_row-IsLeft db _ (db.next_id + 1) h
  audit-Leaves sid event detail (some k) now h db = elim (Bool-cases (has_message k db)) [
    | inl there ↦ rw there (one_row-IsLeft db _ (db.next_id + 1) h)
    | inr missing ↦ rw missing (IsLeft-refl db)
  ]

  pub check_idempotency-Leaves : (sid : Text) → Leaves (check_idempotency {fl = fl} sid)
  unfolding check_idempotency
  check_idempotency-Leaves sid db = IsLeft-refl db

  pub get_or_create-Leaves :
      (phone_hash : Text) (phone : Option Text) (now : ℕ)
      → Leaves (get_or_create {fl = fl} phone_hash phone now)
  unfolding get_or_create
  get_or_create-Leaves phone_hash phone now db = same_log-IsLeft db _ (ground arith)

  pub enforce_rate_limit-Leaves :
      (user_id most seconds before now : ℕ)
      → Leaves (enforce_rate_limit {fl = fl} user_id most seconds before now)
  unfolding enforce_rate_limit insert_rate_limit
  enforce_rate_limit-Leaves user_id most seconds before now db = same_log-IsLeft db _ (ground arith)

  pub create-Leaves :
      (sid : Text) (user_id : ℕ) (body : Text) (now : ℕ)
      → Leaves (create {fl = fl} sid user_id body now)
  unfolding create persist_message
  create-Leaves sid user_id body now db = same_log-IsLeft db _ (ground arith)
