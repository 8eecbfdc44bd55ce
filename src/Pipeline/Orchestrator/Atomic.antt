-- ===== src/Pipeline/Orchestrator/Atomic.antt =====
-- A run that raises leaves nothing behind but its counters.
use vici.Base.{◌≡◌, refl, List, arith}
use vici.Base.Floats.{Floats}
use vici.Extraction.{ExtractionResult}
use vici.Extraction.Service.{Counters, process}
use vici.Store.{Db, Error, Result, ok, err, Action, transaction}
use vici.Pipeline.Context.{Services, World, PipelineContext, Handler}
use vici.Pipeline.Orchestrator.{RunArgs, context_of, unit_of_work, after_commit, after_process, run}

module _ {fl : Floats} where
  transaction_err :
      {A : Type 0} (m : Action fl A) (db : Db fl) (e : Error)
      → (transaction m db).0 ≡ err e
      → (transaction m db).1 ≡ db
  unfolding transaction
  transaction_err m db e h = ground arith

  -- Whatever the chain of handlers, a run that raises, in the classification or in a handler, leaves
  -- the database as it was, sends no text and writes no vector: nothing of a failed unit of work
  -- gets out.
  pub run_err :
      (env : Services fl) (handlers : List (Handler fl)) (args : RunArgs) (w : World fl) (e : Error)
      → (run env handlers args w).0 ≡ err e
      → let w' = (run env handlers args w).1 in
        (w'.db ≡ w.db) × (w'.sent ≡ w.sent) × (w'.vectors ≡ w.vectors)
  unfolding run
  run_err env handlers args w e h = go (process env.client env.today args.sms_text w.counters) h
    where
      committed :
          (result : ExtractionResult fl) (w1 : World fl) (s : Result (PipelineContext fl) × Db fl)
          → ((x : Error) → s.0 ≡ err x → s.1 ≡ w1.db)
          → (after_commit env result w1 s).0 ≡ err e
          → let w' = (after_commit env result w1 s).1 in
            (w'.db ≡ w1.db) × (w'.sent ≡ w1.sent) × (w'.vectors ≡ w1.vectors)
      committed result w1 (err x, db) back k = (back x refl, refl, refl)
      committed result w1 (ok ctx, db) back k = cc

      go :
          (p : Result (ExtractionResult fl) × Counters)
          → (after_process env handlers args w p).0 ≡ err e
          → let w' = (after_process env handlers args w p).1 in
            (w'.db ≡ w.db) × (w'.sent ≡ w.sent) × (w'.vectors ≡ w.vectors)
      go (err x, counters) k = (refl, refl, refl)
      go (ok result, counters) k =
          committed result (record w { counters = counters })
            (transaction (unit_of_work env handlers (context_of args result)) w.db)
            (transaction_err (unit_of_work env handlers (context_of args result)) w.db) k
