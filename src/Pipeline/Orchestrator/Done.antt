-- ===== src/Pipeline/Orchestrator/Done.antt =====
-- What a run of the application's chain has done when it returns.
use vici.Base.{◌≡◌, refl, subst}
use vici.Base.Floats.{Floats, IsOrdered}
use vici.Extraction.{ExtractionResult}
use vici.Extraction.Service.{Counters, process}
use vici.Store.{Db, Result, ok, err, transaction, settle}
use vici.Matches.Service.Outcome.{HaveDurations}
use vici.Pipeline.Context.{Services, World, PipelineContext, run_actions}
use vici.Pipeline.Orchestrator.{
  RunArgs, chain, context_of, unit_of_work, after_commit, after_process, run,
}
use vici.Pipeline.Orchestrator.Units.{IsUnit, Units, unit_of_work-Units}

module _ {fl : Floats} where
  -- What a run that returns `result` has done: its unit of work is committed, and then the actions
  -- that its handler registered have been run.
  pub record IsDone (env : Services fl) (args : RunArgs) (result : ExtractionResult fl)
      (w w' : World fl) : Type 0 where
    pub ctx' : PipelineContext fl
    pub committed : World fl
    pub work : IsUnit env (context_of args result) ctx' w.db committed.db
    pub sent : committed.sent ≡ w.sent
    pub vectors : committed.vectors ≡ w.vectors
    pub after : w' ≡ run_actions env ctx'.post_commit_actions committed

  -- A run that returns has classified the stored message as the kind of its result, with an audit
  -- row, has done all that the handler of that kind does, in one transaction, and has then run the
  -- actions that the handler registered. (The durations of the jobs are not negative.)
  pub run-IsDone :
      IsOrdered fl
      → (env : Services fl) (args : RunArgs) (w : World fl) (result : ExtractionResult fl)
      → HaveDurations w.db
      → (run env (chain env) args w).0 ≡ ok result
      → IsDone env args result w (run env (chain env) args w).1
  unfolding run transaction
  run-IsDone o env args w result hours h =
      go (process env.client env.today args.sms_text w.counters) h
    where
      committed :
          (r : ExtractionResult fl) (counters : Counters) (s : Result (PipelineContext fl) × Db fl)
          → Units env (context_of args r) w.db s
          → (after_commit env r (record w { counters = counters }) (settle w.db s)).0 ≡ ok result
          → IsDone env args result w
              (after_commit env r (record w { counters = counters }) (settle w.db s)).1
      committed r counters (err e, db2) u k = cc
      committed r counters (ok ctx', db2) u k = record {
        ctx' = ctx';
        committed = record w { counters = counters; db = db2 };
        work = subst (λ x. IsUnit env (context_of args x) ctx' w.db db2) (ok-injective r k) u;
        sent = refl;
        vectors = refl;
        after = refl;
      }
        where
          ok-injective : (r : ExtractionResult fl) → ok r ≡ ok result → r ≡ result
          ok-injective r p = cc

      go :
          (p : Result (ExtractionResult fl) × Counters)
          → (after_process env (chain env) args w p).0 ≡ ok result
          → IsDone env args result w (after_process env (chain env) args w p).1
      go (err x, counters) k = cc
      go (ok r, counters) k =
          committed r counters (unit_of_work env (chain env) (context_of args r) w.db)
            (unit_of_work-Units o env (context_of args r) w.db hours) k
