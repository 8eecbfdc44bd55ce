-- ===== src/Pipeline/Orchestrator/Units.antt =====
-- What the unit of work of the application's chain has done before the commit.
use vici.Base.{
  ◌+◌, ◌≡◌, refl, sym, ap, subst, ◌∙◌, inl, inr, true, false, some, List, [], ◌∷◌, ◌++◌, arith,
  ◌==◌, update_where, ◌&&◌, if◌then◌else◌, Bool-cases,
}
use vici.Base.Floats.{Floats, IsOrdered}
use vici.Base.Texts.{lit}
use vici.Extraction.{ExtractionResult}
use vici.Store.{
  MessageType, Message, AuditEvent, AuditLog, Db, Error, Result, ok, err, Action, and_then,
  transaction, persist_audit_log, has_message, or_raise, ◌>>=◌, ◌>>◌, integrity_error, settle,
}
use vici.Sms.Repository.{audit, record_classification}
use vici.Matches.Service.Outcome.{HaveDurations}
use vici.Pipeline.Context.{
  Services, with_text, send_unknown_reply, PipelineContext, Handler, run_after_commit,
}
use vici.Pipeline.Handlers.{
  same_type, is_present, handle_job_posting, handle_work_goal, handle_unknown, job_posting_handler,
  work_goal_handler, unknown_handler,
}
use vici.Pipeline.Handlers.Posted.{IsPosted, Posts, handle_job_posting-Posts}
use vici.Pipeline.Handlers.Pursued.{IsPursued, Pursues, handle_work_goal-Pursues}
use vici.Pipeline.Orchestrator.{type_text, chain, dispatch, unit_of_work}
use vici.Pipeline.Orchestrator.Chain.{handler_of, find_by-chain}

module _ {fl : Floats} where
  -- The kind as which a result is handled: a type without its part counts as unknown.
  abbrev pub kind_of : ExtractionResult fl → MessageType
  kind_of r =
      if same_type r.message_type MessageType.job_posting && is_present r.job
      then MessageType.job_posting
      else if same_type r.message_type MessageType.work_goal && is_present r.work_goal
      then MessageType.work_goal
      else MessageType.unknown

  -- The database with the audit row of the classification.
  abbrev pub audited : Services fl → PipelineContext fl → Db fl → Db fl
  audited env ctx db =
      let row : AuditLog = record {
        id = db.next_id;
        message_sid = ctx.message_sid;
        message_id = some ctx.message_id;
        event = AuditEvent.gpt_classified;
        detail =
            some (env.dumps (with_text (lit "message_type") (type_text ctx.result.message_type)));
        created_at = env.now;
      } in
      record db { audit_log = db.audit_log ++ row ∷ []; next_id = db.next_id + 1 }

  -- The message with its classification.
  abbrev pub classified : Services fl → PipelineContext fl → MessageType → Message → Message
  classified env ctx t m = record m {
    message_type = some t;
    raw_gpt_response = some (env.model_dump_json ctx.result);
  }

  abbrev with_classification : Services fl → PipelineContext fl → MessageType → Db fl → Db fl
  with_classification env ctx t db = record db {
    messages = update_where (λ m. m.id == ctx.message_id) (classified env ctx t) db.messages;
  }

  -- What the handler of each kind has done.
  abbrev pub IsHandledAs :
      MessageType → Services fl → PipelineContext fl → PipelineContext fl → Db fl → Db fl → Type 0
  IsHandledAs MessageType.job_posting env ctx ctx' db db' = IsPosted env ctx ctx' db db'
  IsHandledAs MessageType.work_goal env ctx ctx' db db' = IsPursued env ctx ctx' db db'
  IsHandledAs MessageType.unknown env ctx ctx' db db' =
      (ctx' ≡ run_after_commit ctx (send_unknown_reply ctx.from_number)) × (db' ≡ db)

  -- The unit of work, before the commit.
  pub record IsUnit (env : Services fl) (ctx ctx' : PipelineContext fl) (db db' : Db fl)
      : Type 0 where
    pub stored : has_message ctx.message_id db ≡ true
    pub handled_db : Db fl
    pub handled : IsHandledAs (kind_of ctx.result) env ctx ctx' (audited env ctx db) handled_db
    pub after : db' ≡ with_classification env ctx (kind_of ctx.result) handled_db

  abbrev pub Units :
      Services fl → PipelineContext fl → Db fl → Result (PipelineContext fl) × Db fl → Type 0
  Units env ctx db (ok ctx', db') = IsUnit env ctx ctx' db db'
  Units env ctx db (err e, db') = Unit {0}

  abbrev Handles :
      Services fl → PipelineContext fl → Db fl → Result (PipelineContext fl) × Db fl → Type 0
  Handles env ctx db (ok ctx', db') = IsHandledAs (kind_of ctx.result) env ctx ctx' db db'
  Handles env ctx db (err e, db') = Unit {0}

  Handles-posted :
      (env : Services fl) (ctx : PipelineContext fl) (db : Db fl)
      (s : Result (PipelineContext fl) × Db fl)
      → kind_of ctx.result ≡ MessageType.job_posting
      → Posts env ctx db s
      → Handles env ctx db s
  Handles-posted env ctx db (ok ctx', db') k p =
      subst (λ t. IsHandledAs t env ctx ctx' db db') (sym k) p
  Handles-posted env ctx db (err e, db') k p = tt

  Handles-pursued :
      (env : Services fl) (ctx : PipelineContext fl) (db : Db fl)
      (s : Result (PipelineContext fl) × Db fl)
      → kind_of ctx.result ≡ MessageType.work_goal
      → Pursues env ctx db s
      → Handles env ctx db s
  Handles-pursued env ctx db (ok ctx', db') k p =
      subst (λ t. IsHandledAs t env ctx ctx' db db') (sym k) p
  Handles-pursued env ctx db (err e, db') k p = tt

  handler_of-Handles :
      IsOrdered fl
      → (env : Services fl) (ctx : PipelineContext fl) (db : Db fl) → HaveDurations db
      → Handles env ctx db ((handler_of env ctx.result).handle ctx db)
  unfolding handle_unknown
  handler_of-Handles o env ctx db hours =
      let r = ctx.result in
      elim (Bool-cases (same_type r.message_type MessageType.job_posting && is_present r.job)) [
        | inl job ↦
            let k : kind_of r ≡ MessageType.job_posting = rw job refl in
            let p =
              Handles-posted env ctx db (handle_job_posting env ctx db) k
                (handle_job_posting-Posts env ctx db) in
            let same : handler_of env r ≡ job_posting_handler env = rw job refl in
            subst (λ h. Handles env ctx db (h.handle ctx db)) (sym same) p
        | inr no_job ↦
            elim (Bool-cases
              (same_type r.message_type MessageType.work_goal && is_present r.work_goal)) [
                | inl goal ↦
                    let k : kind_of r ≡ MessageType.work_goal = rw no_job (rw goal refl) in
                    let p =
                      Handles-pursued env ctx db (handle_work_goal env ctx db) k
                        (handle_work_goal-Pursues o env ctx db hours) in
                    let same : handler_of env r ≡ work_goal_handler env =
                      rw no_job (rw goal refl) in
                    subst (λ h. Handles env ctx db (h.handle ctx db)) (sym same) p
                | inr no_goal ↦
                    let k : kind_of r ≡ MessageType.unknown = rw no_job (rw no_goal refl) in
                    let same : handler_of env r ≡ unknown_handler env =
                      rw no_job (rw no_goal refl) in
                    subst (λ h. Handles env ctx db (h.handle ctx db)) (sym same)
                      (subst
                        (λ t.
                          IsHandledAs t env ctx
                            (run_after_commit ctx (send_unknown_reply ctx.from_number)) db db)
                        (sym k) (refl, refl))
              ]
      ]

  dispatch-Units :
      (env : Services fl) (ctx : PipelineContext fl) (db : Db fl)
      → has_message ctx.message_id db ≡ true
      → (h : Handler fl) → h ≡ handler_of env ctx.result
      → Handles env ctx (audited env ctx db) (h.handle ctx (audited env ctx db))
      → Units env ctx db (dispatch env h ctx (audited env ctx db))
  unfolding dispatch record_classification
  dispatch-Units env ctx db stored h same p =
      go (h.handle ctx (audited env ctx db)) p (ap (λ x. x.message_type) same ∙ type_of_handler)
    where
      type_of_handler : (handler_of env ctx.result).message_type ≡ kind_of ctx.result
      type_of_handler = ground arith

      go :
          (s : Result (PipelineContext fl) × Db fl)
          → Handles env ctx (audited env ctx db) s
          → h.message_type ≡ kind_of ctx.result
          → Units env ctx db (
              and_then s (λ handled.
                record_classification ctx.message_id h.message_type
                  (some (env.model_dump_json ctx.result))
                >> vici.Store.pure handled))
      go (ok ctx', db2) p t = record {
        stored = stored;
        handled_db = db2;
        handled = p;
        after = rw t refl;
      }
      go (err e, db2) p t = tt

  unit_of_work-eq :
      (env : Services fl) (ctx : PipelineContext fl) (db : Db fl)
      → has_message ctx.message_id db ≡ true
      → unit_of_work env (chain env) ctx db
        ≡ dispatch env (handler_of env ctx.result) ctx (audited env ctx db)
  unfolding unit_of_work audit persist_audit_log
  unit_of_work-eq env ctx db h = rw h (rw (find_by-chain env ctx.result) refl)

  unit_of_work_refused :
      (env : Services fl) (hs : List (Handler fl)) (ctx : PipelineContext fl) (db : Db fl)
      → has_message ctx.message_id db ≡ false
      → unit_of_work env hs ctx db ≡ (err integrity_error, db)
  unfolding unit_of_work audit persist_audit_log
  unit_of_work_refused env hs ctx db h = rw h refl

  pub unit_of_work-Units :
      IsOrdered fl
      → (env : Services fl) (ctx : PipelineContext fl) (db : Db fl) → HaveDurations db
      → Units env ctx db (unit_of_work env (chain env) ctx db)
  unit_of_work-Units o env ctx db hours = elim (Bool-cases (has_message ctx.message_id db)) [
    | inl stored ↦ subst (Units env ctx db) (sym (unit_of_work-eq env ctx db stored)) (
        dispatch-Units env ctx db stored (handler_of env ctx.result) refl
          (handler_of-Handles o env ctx (audited env ctx db) hours))
    | inr missing ↦
        subst (Units env ctx db) (sym (unit_of_work_refused env (chain env) ctx db missing)) tt
  ]
