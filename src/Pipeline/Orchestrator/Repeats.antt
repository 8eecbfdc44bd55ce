-- ===== src/Pipeline/Orchestrator/Repeats.antt =====
-- A message of which a row of the same kind is stored already.
use vici.Base.{ℕ, ◌≡◌, refl, sym, subst, ◌∙◌, Bool, true, false, List, arith, ◌==◌, any_of}
use vici.Base.Floats.{Floats, IsOrdered}
use vici.Extraction.{ExtractionResult}
use vici.Extraction.Service.{Counters, process}
use vici.Store.{MessageType, Db, Error, Result, ok, err, transaction}
use vici.Matches.Service.Outcome.{HaveDurations}
use vici.Pipeline.Context.{Services, World, PipelineContext, Handler}
use vici.Pipeline.Orchestrator.{
  RunArgs, chain, context_of, unit_of_work, after_commit, after_process, run,
}
use vici.Pipeline.Orchestrator.Atomic.{run_err}
use vici.Pipeline.Orchestrator.Units.{kind_of, audited, IsHandledAs}
use vici.Pipeline.Orchestrator.Done.{run-IsDone}

module _ {fl : Floats} where
  -- Whether the row that a message of the kind makes is stored.
  abbrev is_made : MessageType → ℕ → Db fl → Bool
  is_made MessageType.job_posting m db = any_of (λ other. other.message_id == m) db.jobs
  is_made MessageType.work_goal m db = any_of (λ other. other.message_id == m) db.work_goals
  is_made MessageType.unknown m db = false

  run_classifies :
      (env : Services fl) (handlers : List (Handler fl)) (args : RunArgs) (w : World fl)
      (result : ExtractionResult fl)
      → (run env handlers args w).0 ≡ ok result
      → (process env.client env.today args.sms_text w.counters).0 ≡ ok result
  unfolding run
  run_classifies env handlers args w result h =
      go (process env.client env.today args.sms_text w.counters) h
    where
      committed :
          (r : ExtractionResult fl) (w1 : World fl) (s : Result (PipelineContext fl) × Db fl)
          → (after_commit env r w1 s).0 ≡ ok result
          → ok r ≡ ok result
      committed r w1 (err e, db) k = absurd (cc k)
      committed r w1 (ok ctx, db) k = k

      go :
          (p : Result (ExtractionResult fl) × Counters)
          → (after_process env handlers args w p).0 ≡ ok result
          → p.0 ≡ ok result
      go (err e, counters) k = k
      go (ok r, counters) k =
          committed r (record w { counters = counters })
            (transaction (unit_of_work env handlers (context_of args r)) w.db) k

  handled_first :
      (t : MessageType) (env : Services fl) (ctx ctx' : PipelineContext fl) (db db' : Db fl)
      → IsHandledAs t env ctx ctx' (audited env ctx db) db'
      → is_made t ctx.message_id db ≡ false
  handled_first MessageType.job_posting env ctx ctx' db db' p = ground (arith, p.postable)
  handled_first MessageType.work_goal env ctx ctx' db db' p = ground (arith, p.pursuable)
  handled_first MessageType.unknown env ctx ctx' db db' p = refl

  -- An attempt at a message that is classified as a job raises if a job of the message is stored
  -- already, and one that is classified as a goal raises if a goal of the message is stored already;
  -- such an attempt leaves the database as it was, sends no text and writes no vector. (The durations
  -- of the jobs are not negative.)
  pub run_again :
      IsOrdered fl
      → (env : Services fl) (args : RunArgs) (w : World fl) (result : ExtractionResult fl)
      → HaveDurations w.db
      → (process env.client env.today args.sms_text w.counters).0 ≡ ok result
      → is_made (kind_of result) args.message_id w.db ≡ true
      → let w' = (run env (chain env) args w).1 in
        (e : Error) × ((run env (chain env) args w).0 ≡ err e)
        × (w'.db ≡ w.db)
        × (w'.sent ≡ w.sent)
        × (w'.vectors ≡ w.vectors)
  run_again o env args w result hours classified made = go (run env (chain env) args w).0 refl
    where
      go :
          (r : Result (ExtractionResult fl))
          → (run env (chain env) args w).0 ≡ r
          → let w' = (run env (chain env) args w).1 in
            (e : Error) × ((run env (chain env) args w).0 ≡ err e)
            × (w'.db ≡ w.db)
            × (w'.sent ≡ w.sent)
            × (w'.vectors ≡ w.vectors)
      go (err e) h =
          let (db, sent, vectors) = run_err env (chain env) args w e h in (e, h, db, sent, vectors)
      go (ok r) h =
          let same : ok r ≡ ok result =
            sym (run_classifies env (chain env) args w r h) ∙ classified in
          let d = run-IsDone o env args w r hours h in
          let first =
            handled_first (kind_of r) env (context_of args r) d.ctx' w.db d.work.handled_db
              d.work.handled in
          let again =
            subst (λ x. is_made (kind_of x) args.message_id w.db ≡ false) (ok-injective r same)
              first in
          absurd (cc (sym again ∙ made))
        where
          ok-injective : (r : ExtractionResult fl) → ok r ≡ ok result → r ≡ result
          ok-injective r p = cc
