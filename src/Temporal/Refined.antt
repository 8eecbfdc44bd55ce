-- ===== src/Temporal/Refined.antt =====
-- The whole program as a refinement of the ledger.
use vici.Base.{ℕ, ◌≡◌, refl, sym, ap, subst, ◌∙◌, true, Option, none, some, List, take, find_by}
use vici.Base.Floats.{Floats, IsOrdered}
use vici.Base.Texts.{Text, same}
use vici.Extraction.{ExtractionResult}
use vici.Extraction.Search.{Vector, Index}
use vici.Extraction.SyncQueue.{claim_pending}
use vici.Store.{Message, Db, Result, ok, err, settle, transaction}
use vici.Sms.Repository.{purge_rate_limit_entries}
use vici.Sms.Phones.{hash_phone}
use vici.Sms.Webhook.{ProcessMessageInput}
use vici.Sms.Webhook.Leaves.Gates.{receive_sms-IsLeft}
use vici.Matches.Service.Outcome.{HaveDurations}
use vici.Pipeline.Context.{Services, World, PipelineContext}
use vici.Pipeline.Orchestrator.{RunArgs, chain, context_of, unit_of_work, run}
use vici.Pipeline.Orchestrator.Atomic.{run_err}
use vici.Pipeline.Orchestrator.Units.{Units, unit_of_work-Units}
use vici.Pipeline.Orchestrator.Done.{run-IsDone}
use vici.Temporal.Activities.{
  args_of, returned_ok, with_message, with_hash_of, process_message_activity,
  handle_process_message_failure_activity,
}
use vici.Temporal.Attempts.{Attempt, whole, cut_before_commit, cut_after_commit}
use vici.Temporal.Sweep.{sweep_rows, sync_pinecone_queue_activity, purge_rate_limit_activity}
use vici.Temporal.Systems.{
  System, swept, Step, request, attempt, give_up, sweep, purge, Steps, done, further,
}
use vici.Temporal.Reached.{IsGood, Steps-IsGood, Keeps, sweep_rows-Keeps}
use vici.Temporal.Ledgers.{
  Entry, stay, Entries, started, then_entry, ledger, unit-Entry, ledger-actions,
}

module _ {fl : Floats} where
  run-Entry :
      IsOrdered fl
      → (env : Services fl) (args : RunArgs) (w : World fl) → HaveDurations w.db
      → Entry (ledger w.db) (ledger (run env (chain env) args w).1.db)
  run-Entry o env args w hours = go (run env (chain env) args w).0 refl
    where
      go :
          (r : Result (ExtractionResult fl))
          → (run env (chain env) args w).0 ≡ r
          → Entry (ledger w.db) (ledger (run env (chain env) args w).1.db)
      go (err e) h = stay (ap ledger (run_err env (chain env) args w e h).0)
      go (ok result) h =
          let d = run-IsDone o env args w result hours h in
          subst (λ v. Entry (ledger w.db) (ledger v.db)) (sym d.after)
            (subst (Entry (ledger w.db))
              (sym (ledger-actions env d.ctx'.post_commit_actions d.committed))
              (unit-Entry env (context_of args result) d.ctx' w.db d.committed.db d.work))

  activity-Entry :
      IsOrdered fl
      → (env : Services fl) (input : ProcessMessageInput) (w : World fl) → HaveDurations w.db
      → Entry (ledger w.db) (ledger (process_message_activity env (some (chain env)) input w).1.db)
  unfolding process_message_activity
  activity-Entry o env input w hours = hashed (hash_phone env.hmac input.from_number)
    where
      returned :
          (x : Result (ExtractionResult fl) × World fl)
          → Entry (ledger w.db) (ledger x.1.db)
          → Entry (ledger w.db) (ledger (returned_ok x).1.db)
      returned (ok result, w') t = t
      returned (err e, w') t = t

      found :
          (phone_hash : Text) (m : Option Message)
          → Entry
              (ledger w.db)
              (ledger (with_message env (some (chain env)) input phone_hash m w).1.db)
      found phone_hash none = stay refl
      found phone_hash (some message) =
          returned (run env (chain env) (args_of input phone_hash message) w)
            (run-Entry o env (args_of input phone_hash message) w hours)

      hashed :
          (r : Result Text)
          → Entry (ledger w.db) (ledger (with_hash_of env (some (chain env)) input r w).1.db)
      hashed (err e) = stay refl
      hashed (ok phone_hash) =
          found phone_hash (find_by (λ m. same m.message_sid input.message_sid) w.db.messages)

  committed-Entry :
      IsOrdered fl
      → (env : Services fl) (ctx ctx' : PipelineContext fl) (db db' : Db fl)
      → transaction (unit_of_work env (chain env) ctx) db ≡ (ok ctx', db')
      → HaveDurations db
      → Entry (ledger db) (ledger db')
  unfolding transaction
  committed-Entry o env ctx ctx' db db' h hours =
      go (unit_of_work env (chain env) ctx db) (unit_of_work-Units o env ctx db hours) h
    where
      go :
          (x : Result (PipelineContext fl) × Db fl)
          → Units env ctx db x
          → settle db x ≡ (ok ctx', db')
          → Entry (ledger db) (ledger db')
      go (ok ctx2, db2) u k =
          subst (λ d. Entry (ledger db) (ledger d)) (ap (λ y. y.1) k)
            (unit-Entry env ctx ctx2 db db2 u)
      go (err e, db2) u k = absurd (cc (ap (λ y. y.0) k))

  Attempt-Entry :
      IsOrdered fl
      → (input : ProcessMessageInput) (w w' : World fl) → Attempt input w w'
      → HaveDurations w.db
      → Entry (ledger w.db) (ledger w'.db)
  Attempt-Entry o input w w' (whole env e) hours =
      subst (λ v. Entry (ledger w.db) (ledger v.db)) (sym e) (activity-Entry o env input w hours)
  Attempt-Entry o input w w' (cut_before_commit counters e) hours = stay (ap (λ v. ledger v.db) e)
  Attempt-Entry o input w w'
        (cut_after_commit env phone_hash message result counters ctx' db' actions found h e) hours =
      subst (λ v. Entry (ledger w.db) (ledger v.db)) (sym e)
        (subst (Entry (ledger w.db))
          (sym (
            ledger-actions env (take actions ctx'.post_commit_actions)
              (record w { counters = counters; db = db' })))
          (committed-Entry o env (context_of (args_of input phone_hash message) result) ctx' w.db
            db' h hours))

  ledger-swept :
      (index : Index) (locked : List ℕ) (w : World fl)
      → ledger (swept w (sync_pinecone_queue_activity true index locked w.db)).db ≡ ledger w.db
  unfolding sync_pinecone_queue_activity transaction
  ledger-swept index locked w =
      let rows = claim_pending locked vici.Temporal.Sweep.pinecone_sync_batch_size w.db in
      go (sweep_rows index rows w.db) (sweep_rows-Keeps index rows w.db)
    where
      go :
          (x : Result (List Vector) × Db fl)
          → Keeps w.db x.1
          → ledger (swept w (settle w.db x)).db ≡ ledger w.db
      go (ok vectors, db1) (jobs, goals, log, messages) = rw (jobs, goals) refl
      go (err e, db1) k = refl

  -- A step of the program is an entry of the ledger, or none.
  Step-Entry :
      IsOrdered fl
      → (s t : System fl) → Step s t
      → IsGood s
      → Entry (ledger s.world.db) (ledger t.world.db)
  unfolding handle_process_message_failure_activity purge_rate_limit_activity transaction
      purge_rate_limit_entries
  Step-Entry o s t (request env r e) g =
      let l = receive_sms-IsLeft env r s.world.db in
      stay (ap (λ v. ledger v.world.db) e ∙ rw (l.jobs, l.work_goals) refl)
  Step-Entry o s t (attempt input w is_started a e) g =
      subst (λ v. Entry (ledger s.world.db) (ledger v.world.db)) (sym e)
        (Attempt-Entry o input s.world w a g.0.0.0)
  Step-Entry o s t (give_up e) g = stay (ap (λ v. ledger v.world.db) e)
  Step-Entry o s t (sweep index locked e) g =
      stay (ap (λ v. ledger v.world.db) e ∙ ledger-swept index locked s.world)
  Step-Entry o s t (purge now e) g = stay (ap (λ v. ledger v.world.db) e)

  -- From a good state the whole program refines the ledger: however requests, attempts at the
  -- workflows started, sweeps and purges follow each other, the messages that have a job and those
  -- that have a goal grow one at a time, each by a message that had none, and none is ever taken
  -- back, moved or given a second one.
  pub Steps-Entries :
      IsOrdered fl
      → (s t : System fl) → Steps s t
      → IsGood s
      → Entries (ledger s.world.db) (ledger t.world.db)
  Steps-Entries o s _ done g = started
  Steps-Entries o s u (further {t} before last) g =
      then_entry (Steps-Entries o s t before g)
        (Step-Entry o t u last (Steps-IsGood o s t before g))
