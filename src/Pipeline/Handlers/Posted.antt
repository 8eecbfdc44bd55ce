-- ===== src/Pipeline/Handlers/Posted.antt =====
-- What the handler of job postings leaves in the database.
use vici.Base.{
  ℕ, ◌+◌, ◌≡◌, inl, inr, Bool, true, false, not, Option, some, [], ◌∷◌, ◌++◌, arith, ◌==◌, any_of,
  elim_or, ◌&&◌, ltb, Option-cases,
}
use vici.Base.Floats.{Floats}
use vici.Base.Texts.{lit}
use vici.Datetimes.{coerce_llm_datetime}
use vici.Jobs.{Job}
use vici.Jobs.Create.{JobCreate, is_job_create, job_create, job_row, create_job}
use vici.Extraction.{JobExtraction}
use vici.Extraction.Search.{Vector}
use vici.Store.{
  AuditEvent, AuditLog, Db, Result, ok, err, persist_job, persist_audit_log, has_message,
  is_job_refused, int_max,
}
use vici.Sms.Repository.{audit}
use vici.Pipeline.Context.{Services, with_id, upsert_embedding, PipelineContext, run_after_commit}
use vici.Pipeline.Handlers.{llm_value, cents_of, job_fields, handle_job_posting}

module _ {fl : Floats} where
  -- The row of a posting that goes through.
  abbrev pub posted_job :
      Services fl → PipelineContext fl → JobExtraction fl → Option ℕ → Db fl → Job fl
  posted_job env ctx extracted pay_rate db =
      record (job_row env.now (record (job_fields ctx.message_id extracted pay_rate) {
        ideal_datetime = coerce_llm_datetime env.fromisoformat (llm_value extracted.ideal_datetime);
      })) { id = db.next_id }

  abbrev pub posted_vector : PipelineContext fl → JobExtraction fl → Db fl → Vector
  posted_vector ctx extracted db = record {
    job_id = db.next_id;
    description = extracted.description;
    phone_hash = ctx.phone_hash;
  }

  abbrev posted_audit : Services fl → PipelineContext fl → Db fl → AuditLog
  posted_audit env ctx db = record {
    id = db.next_id + 1;
    message_sid = ctx.message_sid;
    message_id = some ctx.message_id;
    event = AuditEvent.job_created;
    detail = some (env.dumps (with_id (lit "job_id") db.next_id));
    created_at = env.now;
  }

  -- What pydantic checks.
  abbrev pub posted_fields :
      Services fl → PipelineContext fl → JobExtraction fl → Option ℕ → JobCreate fl
  posted_fields env ctx extracted pay_rate = record (job_fields ctx.message_id extracted pay_rate) {
    ideal_datetime = coerce_llm_datetime env.fromisoformat (llm_value extracted.ideal_datetime);
  }

  -- Whether the fields are within their bounds, and the pay in cents within its column.
  abbrev pub is_storable : Services fl → PipelineContext fl → JobExtraction fl → Option ℕ → Bool
  is_storable env ctx extracted pay_rate =
      is_job_create fl (posted_fields env ctx extracted pay_rate)
      && not (elim_or false (ltb int_max) pay_rate)

  -- Whether a posting goes through: its pay is finite in cents, its fields are storable, the message
  -- is stored, and no job has been made of it.
  abbrev pub is_postable : Services fl → PipelineContext fl → Db fl → Bool
  is_postable env ctx db =
      elim_or false
        (λ extracted.
          elim_or false (is_storable env ctx extracted) (cents_of fl extracted.pay_rate))
        ctx.result.job
      && (not (any_of (λ other. other.message_id == ctx.message_id) db.jobs)
          && has_message ctx.message_id db)

  -- One job of the message more, one audit row more, and the vector to be written.
  pub record IsPosted (env : Services fl) (ctx ctx' : PipelineContext fl) (db db' : Db fl)
      : Type 0 where
    pub extracted : JobExtraction fl
    pub present : ctx.result.job ≡ some extracted
    pub pay_rate : Option ℕ
    pub in_cents : cents_of fl extracted.pay_rate ≡ some pay_rate
    pub postable : is_postable env ctx db ≡ true
    pub after : db' ≡ record db {
      jobs = db.jobs ++ posted_job env ctx extracted pay_rate db ∷ [];
      audit_log = db.audit_log ++ posted_audit env ctx db ∷ [];
      next_id = db.next_id + 1 + 1;
    }
    pub registered : ctx' ≡ run_after_commit ctx (upsert_embedding (posted_vector ctx extracted db))

  abbrev pub Posts :
      Services fl → PipelineContext fl → Db fl → Result (PipelineContext fl) × Db fl → Type 0
  Posts env ctx db (ok ctx', db') = IsPosted env ctx ctx' db db'
  Posts env ctx db (err e, db') = is_postable env ctx db ≡ false

  -- Fields within their bounds pass the CHECK constraints of the table.
  is_job_create-refused :
      (now : ℕ) (j : JobCreate fl)
      → is_job_create fl j ≡ true
      → is_job_refused (job_row now j) ≡ false
  unfolding is_job_create
  is_job_create-refused now j h = ground arith

  -- The handler of postings goes through exactly if the pay is finite in cents and fits its column,
  -- the fields are within their bounds, the message is stored and no job has been made of it; then
  -- one job and one audit row are stored, and the vector is registered.
  pub handle_job_posting-Posts :
      (env : Services fl) (ctx : PipelineContext fl) (db : Db fl)
      → Posts env ctx db (handle_job_posting env ctx db)
  unfolding handle_job_posting job_create create_job persist_job audit persist_audit_log
  handle_job_posting-Posts env ctx db = elim (Option-cases ctx.result.job) [
    | inl missing ↦ rw missing (ground arith)
    | inr (extracted, e) ↦ elim (Option-cases (cents_of fl extracted.pay_rate)) [
      | inl infinite ↦ rw (e, infinite) (ground arith)
      | inr (pay_rate, finite) ↦
          let sound = is_job_create-refused env.now (posted_fields env ctx extracted pay_rate) in
          ground (arith, sound)
    ]
  ]
