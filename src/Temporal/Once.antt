-- ===== src/Temporal/Once.antt =====
-- Jobs and goals are made once, however often Temporal attempts a message.
use vici.Base.{◌≡◌, refl, sym, ap, subst, Option, none, some, List, [], ◌∷◌, take, find_by, arith}
use vici.Base.Floats.{Floats, IsOrdered}
use vici.Base.Texts.{Text, same}
use vici.Extraction.{ExtractionResult}
use vici.Store.{Message, Db, Result, ok, err, transaction, persist_sync_entry, settle}
use vici.Sms.Phones.{hash_phone}
use vici.Sms.Webhook.{ProcessMessageInput}
use vici.Extraction.SyncQueue.{enqueue}
use vici.Pipeline.Context.{
  Services, World, PipelineContext, PostCommitAction, send_sms, queue_embedding, run_action,
  run_actions,
}
use vici.Pipeline.Orchestrator.{RunArgs, chain, context_of, unit_of_work, run}
use vici.Pipeline.Orchestrator.Atomic.{run_err}
use vici.Pipeline.Orchestrator.Units.{Units, unit_of_work-Units}
use vici.Pipeline.Orchestrator.Done.{run-IsDone}
use vici.Temporal.Activities.{
  args_of, returned_ok, with_message, with_hash_of, process_message_activity,
}
use vici.Temporal.Attempts.{
  Attempt, whole, cut_before_commit, cut_after_commit, Attempts, here, next,
}
use vici.Temporal.Audited.{IsSound}
use vici.Temporal.Safe.{IsSafe, unit-IsSafe}

module _ {fl : Floats} where
  -- The actions write no table but the queue.
  pub action_keeps :
      (env : Services fl) (action : PostCommitAction) (w : World fl)
      → let db = (run_action env action w).db in
        (db.jobs ≡ w.db.jobs)
        × (db.work_goals ≡ w.db.work_goals)
        × (db.audit_log ≡ w.db.audit_log)
        × (db.messages ≡ w.db.messages)
  unfolding run_action send_sms queue_embedding enqueue transaction persist_sync_entry hash_phone
  action_keeps env (PostCommitAction.upsert_embedding v) w = ground arith
  action_keeps env (PostCommitAction.send_match_reply to body) w = ground arith
  action_keeps env (PostCommitAction.send_unknown_reply to) w = ground arith

  module _ (sids : List Text) where
    action-IsSafe :
        (env : Services fl) (action : PostCommitAction) (w : World fl)
        → IsSafe sids w.db
        → IsSafe sids (run_action env action w).db
    action-IsSafe env action w s =
        let (jobs, goals, log, messages) = action_keeps env action w in
        rw (jobs, goals, log, messages) s

    actions-IsSafe :
        (env : Services fl) (actions : List PostCommitAction) (w : World fl)
        → IsSafe sids w.db
        → IsSafe sids (run_actions env actions w).db
    unfolding run_actions
    actions-IsSafe env [] w s = s
    actions-IsSafe env (action ∷ actions) w s =
        actions-IsSafe env actions (run_action env action w) (action-IsSafe env action w s)

    run-IsSafe :
        IsOrdered fl
        → (env : Services fl) (args : RunArgs) (w : World fl) → IsSafe sids w.db
        → IsSafe sids (run env (chain env) args w).1.db
    run-IsSafe o env args w s = go (run env (chain env) args w).0 refl
      where
        go :
            (r : Result (ExtractionResult fl))
            → (run env (chain env) args w).0 ≡ r
            → IsSafe sids (run env (chain env) args w).1.db
        go (err e) h = subst (IsSafe sids) (sym (run_err env (chain env) args w e h).0) s
        go (ok result) h =
            let d = run-IsDone o env args w result s.0.0 h in
            subst (λ v. IsSafe sids v.db) (sym d.after)
              (actions-IsSafe env d.ctx'.post_commit_actions d.committed (
                unit-IsSafe sids o env (context_of args result) d.ctx' w.db d.committed.db d.work
                  s))

    activity-IsSafe :
        IsOrdered fl
        → (env : Services fl) (input : ProcessMessageInput) (w : World fl) → IsSafe sids w.db
        → IsSafe sids (process_message_activity env (some (chain env)) input w).1.db
    unfolding process_message_activity
    activity-IsSafe o env input w s = hashed (hash_phone env.hmac input.from_number)
      where
        returned :
            (x : Result (ExtractionResult fl) × World fl)
            → IsSafe sids x.1.db
            → IsSafe sids (returned_ok x).1.db
        returned (ok result, w') t = t
        returned (err e, w') t = t

        found :
            (phone_hash : Text) (m : Option Message)
            → IsSafe sids (with_message env (some (chain env)) input phone_hash m w).1.db
        found phone_hash none = s
        found phone_hash (some message) =
            returned (run env (chain env) (args_of input phone_hash message) w)
              (run-IsSafe o env (args_of input phone_hash message) w s)

        hashed :
            (r : Result Text) → IsSafe sids (with_hash_of env (some (chain env)) input r w).1.db
        hashed (err e) = s
        hashed (ok phone_hash) =
            found phone_hash (find_by (λ m. same m.message_sid input.message_sid) w.db.messages)

    committed-IsSafe :
        IsOrdered fl
        → (env : Services fl) (ctx ctx' : PipelineContext fl) (db db' : Db fl)
        → transaction (unit_of_work env (chain env) ctx) db ≡ (ok ctx', db')
        → IsSafe sids db
        → IsSafe sids db'
    unfolding transaction
    committed-IsSafe o env ctx ctx' db db' h s =
        go (unit_of_work env (chain env) ctx db) (unit_of_work-Units o env ctx db s.0.0) h
      where
        go :
            (x : Result (PipelineContext fl) × Db fl)
            → Units env ctx db x
            → settle db x ≡ (ok ctx', db')
            → IsSafe sids db'
        go (ok ctx2, db2) u k =
            subst (IsSafe sids) (ap (λ y. y.1) k) (unit-IsSafe sids o env ctx ctx2 db db2 u s)
        go (err e, db2) u k = absurd (cc (ap (λ y. y.0) k))

    pub Attempt-IsSafe :
        IsOrdered fl
        → (input : ProcessMessageInput) (w w' : World fl) → Attempt input w w'
        → IsSafe sids w.db
        → IsSafe sids w'.db
    Attempt-IsSafe o input w w' (whole env e) s =
        subst (λ v. IsSafe sids v.db) (sym e) (activity-IsSafe o env input w s)
    Attempt-IsSafe o input w w' (cut_before_commit counters e) s =
        subst (λ v. IsSafe sids v.db) (sym e) s
    Attempt-IsSafe o input w w'
          (cut_after_commit env phone_hash message result counters ctx' db' actions found h e) s =
        subst (λ v. IsSafe sids v.db) (sym e)
          (actions-IsSafe env (take actions ctx'.post_commit_actions)
            (record w { counters = counters; db = db' })
            (committed-IsSafe o env (context_of (args_of input phone_hash message) result) ctx' w.db
              db' h s))

  -- However Temporal attempts the messages, with attempts repeated after successes, cut before the
  -- commit or after it and interleaved, of each message there is at most one job and at most one
  -- goal, and exactly as many audit rows that note them, and no job has a negative duration, if that
  -- was so before.
  pub Attempts-IsSound :
      IsOrdered fl → (w w' : World fl) → Attempts w w' → IsSound w.db → IsSound w'.db
  Attempts-IsSound o w _ here s = s
  Attempts-IsSound o w w' (next {w1} input before a) s =
      (Attempt-IsSafe [] o input w1 w' a (Attempts-IsSound o w w1 before s, tt)).0
