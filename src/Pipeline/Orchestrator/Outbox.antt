-- ===== src/Pipeline/Orchestrator/Outbox.antt =====
-- The vector of a posted job, or its entry in the queue.
use vici.Base.{
  ℕ, ◌≡◌, refl, sym, ap, subst, ◌∙◌, ◌⊎◌, inl, inr, true, false, none, List, [], ◌∷◌, ◌++◌, arith,
  ◌==◌, ==_iff, any_of, any_of-append,
}
use vici.Base.Floats.{Floats, IsOrdered}
use vici.Jobs.{Job}
use vici.Extraction.{ExtractionResult}
use vici.Extraction.Search.{Vector}
use vici.Extraction.SyncQueue.{enqueue}
use vici.Store.{
  MessageType, SyncStatus, PineconeSyncQueue, Db, ok, transaction, persist_sync_entry, has_job,
}
use vici.Matches.Service.Outcome.{HaveDurations}
use vici.Pipeline.Context.{
  Services, World, PipelineContext, upsert_embedding, queue_embedding, run_action, run_actions,
}
use vici.Pipeline.Handlers.Posted.{IsPosted, posted_job, posted_vector}
use vici.Pipeline.Orchestrator.{RunArgs, chain, context_of, run}
use vici.Pipeline.Orchestrator.Units.{kind_of, IsHandledAs, audited}
use vici.Pipeline.Orchestrator.Done.{run-IsDone}

module _ {fl : Floats} where
  -- The entry of the queue for a vector that was refused.
  abbrev queued : Services fl → Vector → Db fl → PineconeSyncQueue
  queued env v db = record {
    id = db.next_id;
    job_id = v.job_id;
    status = SyncStatus.pending;
    attempts = 0;
    last_error = none;
    created_at = env.now;
  }

  -- The job of the message is stored. Its vector is in the index if the index accepts it; if not, a
  -- pending entry for it is in the queue if the database takes the entry.
  pub record IsIndexed (env : Services fl) (args : RunArgs) (w w' : World fl) : Type 0 where
    pub job : Job fl
    pub of_message : job.message_id ≡ args.message_id
    pub jobs : w'.db.jobs ≡ w.db.jobs ++ job ∷ []
    pub vector : Vector
    pub of_job : vector.job_id ≡ job.id
    pub indexed :
        (env.index.accepts vector ≡ true)
          × (w'.vectors ≡ w.vectors ++ vector ∷ [])
          × (w'.db.sync_queue ≡ w.db.sync_queue)
        ⊎ (env.index.accepts vector ≡ false)
          × (env.takes_entry job.id ≡ true)
          × (w'.vectors ≡ w.vectors)
          × ((e : PineconeSyncQueue) × (e.job_id ≡ job.id)
              × (e.status ≡ SyncStatus.pending)
              × (w'.db.sync_queue ≡ w.db.sync_queue ++ e ∷ []))
        ⊎ (env.index.accepts vector ≡ false)
          × (env.takes_entry job.id ≡ false)
          × (w'.vectors ≡ w.vectors)
          × (w'.db.sync_queue ≡ w.db.sync_queue)

  -- What the action does, where the job is stored.
  abbrev Upserts : Services fl → Vector → World fl → World fl → Type 0
  Upserts env v w w' =
      (w'.db.jobs ≡ w.db.jobs)
      × ((env.index.accepts v ≡ true)
            × (w'.vectors ≡ w.vectors ++ v ∷ [])
            × (w'.db.sync_queue ≡ w.db.sync_queue)
          ⊎ (env.index.accepts v ≡ false)
            × (env.takes_entry v.job_id ≡ true)
            × (w'.vectors ≡ w.vectors)
            × (w'.db.sync_queue ≡ w.db.sync_queue ++ queued env v w.db ∷ [])
          ⊎ (env.index.accepts v ≡ false)
            × (env.takes_entry v.job_id ≡ false)
            × (w'.vectors ≡ w.vectors)
            × (w'.db.sync_queue ≡ w.db.sync_queue))

  upsert-Upserts :
      (env : Services fl) (v : Vector) (w : World fl)
      → has_job v.job_id w.db ≡ true
      → Upserts env v w (run_action env (upsert_embedding v) w)
  unfolding run_action queue_embedding enqueue transaction persist_sync_entry
  upsert-Upserts env v w h = ground arith

  has_posted_job :
      (k : ℕ) (jobs : List (Job fl)) (job : Job fl)
      → job.id ≡ k
      → any_of (λ j. j.id == k) (jobs ++ job ∷ []) ≡ true
  has_posted_job k jobs job e =
      any_of-append (λ j. j.id == k) jobs (job ∷ []) ∙ ground (arith, (==_iff job.id k).1 e)

  actions-IsIndexed :
      (env : Services fl) (args : RunArgs) (result : ExtractionResult fl) (w c : World fl)
      (ctx' : PipelineContext fl) (db2 : Db fl)
      → c.vectors ≡ w.vectors
      → (c.db.jobs ≡ db2.jobs) × (c.db.sync_queue ≡ db2.sync_queue)
      → IsPosted env (context_of args result) ctx' (audited env (context_of args result) w.db) db2
      → IsIndexed env args w (run_actions env ctx'.post_commit_actions c)
  unfolding run_actions
  actions-IsIndexed env args result w c ctx' db2 vs same p =
      let ctx = context_of args result in
      let d1 = audited env ctx w.db in
      let job = posted_job env ctx p.extracted p.pay_rate d1 in
      let v = posted_vector ctx p.extracted d1 in
      let jobs : c.db.jobs ≡ w.db.jobs ++ job ∷ [] = same.0 ∙ ap (λ d. d.jobs) p.after in
      let queue : c.db.sync_queue ≡ w.db.sync_queue = same.1 ∙ ap (λ d. d.sync_queue) p.after in
      let there : has_job v.job_id c.db ≡ true =
        rw jobs (has_posted_job v.job_id w.db.jobs job refl) in
      let u = upsert-Upserts env v c there in
      rw p.registered (record {
        job = job;
        of_message = refl;
        jobs = u.0 ∙ jobs;
        vector = v;
        of_job = refl;
        indexed = elim u.1 [
          | inl (takes, taken, same_queue) ↦
              inl (takes, taken ∙ ap (λ l. l ++ v ∷ []) vs, same_queue ∙ queue)
          | inr (inl (refuses, takes, refused, queued_after)) ↦ inr (
              inl (
                refuses,
                takes,
                refused ∙ vs,
                (
                  queued env v c.db,
                  refl,
                  refl,
                  queued_after ∙ ap (λ l. l ++ queued env v c.db ∷ []) queue,
                ),
              ))
          | inr (inr (refuses, fails, refused, same_queue)) ↦
              inr (inr (refuses, fails, refused ∙ vs, same_queue ∙ queue))
        ];
      })

  -- When a run of a job posting returns, the job is stored. If the index accepts its vector, the
  -- vector is written and the queue is as before; if the index refuses it, a pending entry of the job
  -- is put into the queue, unless the database fails to take that entry too: then neither is there,
  -- and only then. (The durations of the jobs are not negative.)
  pub run-IsIndexed :
      IsOrdered fl
      → (env : Services fl) (args : RunArgs) (w : World fl) (result : ExtractionResult fl)
      → HaveDurations w.db
      → (run env (chain env) args w).0 ≡ ok result
      → kind_of result ≡ MessageType.job_posting
      → IsIndexed env args w (run env (chain env) args w).1
  run-IsIndexed o env args w result hours h kind =
      let d = run-IsDone o env args w result hours h in
      let ctx = context_of args result in
      let posted =
        subst (λ t. IsHandledAs t env ctx d.ctx' (audited env ctx w.db) d.work.handled_db) kind
          d.work.handled in
      subst (IsIndexed env args w) (sym d.after) (
        actions-IsIndexed env args result w d.committed d.ctx' d.work.handled_db d.vectors
          (ap (λ x. x.jobs) d.work.after, ap (λ x. x.sync_queue) d.work.after) posted)
