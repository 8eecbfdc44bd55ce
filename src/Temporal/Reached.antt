-- ===== src/Temporal/Reached.antt =====
-- What holds of the program however requests, attempts, sweeps and purges follow each other.
use vici.Base.{
  ℕ, ◌≡◌, refl, sym, ap, subst, ◌∙◌, inl, inr, true, false, ◌&&◌, List, [], ◌∷◌, arith, All, ◌==◌,
  ◌≤◌, count_if, Option-cases,
}
use vici.Base.Floats.{Floats, IsOrdered}
use vici.Base.Texts.{Text}
use vici.Extraction.Search.{Vector, Index}
use vici.Extraction.SyncQueue.{PendingJobEmbedding, claim_pending}
use vici.Store.{AuditLog, Db, Result, ok, err, and_then, pure, settle, transaction, has_sid}
use vici.Sms.Repository.{purge_rate_limit_entries}
use vici.Sms.Payload.{Request}
use vici.Sms.Webhook.{Env, ProcessMessageInput, receive_sms}
use vici.Sms.Webhook.Leaves.{is_request_event, IsLeft}
use vici.Sms.Webhook.Leaves.Gates.{receive_sms-IsLeft}
use vici.Sms.Webhook.Runs.{
  is_started, AreDistinct, same-false, receive_sms_keeps, receive_sms-started, sids_differ,
}
use vici.Matches.Service.{hours_of}
use vici.Pipeline.Context.{World}
use vici.Temporal.Activities.{handle_process_message_failure_activity}
use vici.Temporal.Audited.{is_job_created, is_work_goal_created, is_about, IsSound}
use vici.Temporal.Safe.{IsSafe, All-has_sid}
use vici.Temporal.Once.{Attempt-IsSafe}
use vici.Temporal.Sweep.{
  write_row, add_vector, mark, sweep_rows, sync_pinecone_queue_activity, purge_rate_limit_activity,
}
use vici.Temporal.Swept.{after_row, mark_lem}
use vici.Temporal.Systems.{
  System, swept, requested, Step, request, attempt, give_up, sweep, purge, Steps, done, further,
}

abbrev sids_of : List ProcessMessageInput → List Text
sids_of [] = []
sids_of (i ∷ inputs) = i.message_sid ∷ sids_of inputs

jobs_pass_over :
    (m : ℕ) (a : AuditLog)
    → is_request_event a.event ≡ true
    → (is_job_created a.event && is_about m a) ≡ false
jobs_pass_over m a h = ground arith

goals_pass_over :
    (m : ℕ) (a : AuditLog)
    → is_request_event a.event ≡ true
    → (is_work_goal_created a.event && is_about m a) ≡ false
goals_pass_over m a h = ground arith

module _ {fl : Floats} where
  -- The database is sound, the message of every workflow started is stored, and none is started
  -- twice.
  abbrev pub IsGood : System fl → Type 0
  IsGood s = IsSafe (sids_of s.started) s.world.db × AreDistinct s.started

  IsLeft-IsSound : (db db' : Db fl) → IsLeft db db' → IsSound db → IsSound db'
  IsLeft-IsSound db db' l s = (
    subst (All (λ job. fl.le? fl.nought (hours_of fl job.estimated_duration_hours) ≡ true))
        (sym l.jobs) s.0,
    λ m.
        let (few, noted, few_goals, noted_goals) = s.1 m in
        let jobs = ap (count_if (λ j. j.message_id == m)) l.jobs in
        let goals = ap (count_if (λ g. g.message_id == m)) l.work_goals in
        (
          subst (λ n. n ≤ 1) (sym jobs) few,
          l.noted _ (jobs_pass_over m) ∙ noted ∙ sym jobs,
          subst (λ n. n ≤ 1) (sym goals) few_goals,
          l.noted _ (goals_pass_over m) ∙ noted_goals ∙ sym goals,
        ),
  )

  new-is_started :
      (db : Db fl) (sid : Text) (inputs : List ProcessMessageInput)
      → has_sid sid db ≡ false
      → All (λ x. has_sid x db ≡ true) (sids_of inputs)
      → is_started sid inputs ≡ false
  new-is_started db sid [] h a = refl
  new-is_started db sid (i ∷ inputs) h a =
      let other = same-false sid i.message_sid (sids_differ db sid i.message_sid h a.0) in
      rw other (new-is_started db sid inputs h a.1)

  requested-IsGood :
      (env : Env) (r : Request) (s : System fl) → IsGood s → IsGood (requested env r s)
  requested-IsGood env r s g =
      let db = s.world.db in
      let db' = (receive_sms env r db).db in
      let sound = IsLeft-IsSound db db' (receive_sms-IsLeft env r db) g.0.0 in
      let kept =
        All-has_sid db db' (sids_of s.started) (λ sid. receive_sms_keeps env r db sid) g.0.1 in
      elim (Option-cases (receive_sms env r db).started) [
        | inl e ↦ rw e ((sound, kept), g.1)
        | inr (i, e) ↦
            let (fresh, stored) = receive_sms-started env r db i e in
            rw e (
              (sound, (stored, kept)),
              (new-is_started db i.message_sid s.started fresh g.0.1, g.1),
            )
      ]

  -- A sweep writes no table but the queue.
  abbrev pub Keeps : Db fl → Db fl → Type 0
  Keeps db db' =
      (db'.jobs ≡ db.jobs)
      × (db'.work_goals ≡ db.work_goals)
      × (db'.audit_log ≡ db.audit_log)
      × (db'.messages ≡ db.messages)

  Keeps-IsSafe :
      (sids : List Text) (db db' : Db fl) → Keeps db db' → IsSafe sids db → IsSafe sids db'
  Keeps-IsSafe sids db db' (jobs, goals, log, messages) s = rw (jobs, goals, log, messages) s

  pub sweep_rows-Keeps :
      (index : Index) (rows : List PendingJobEmbedding) (db : Db fl)
      → Keeps db (sweep_rows index rows db).1
  unfolding sweep_rows
  sweep_rows-Keeps index [] db = (refl, refl, refl, refl)
  sweep_rows-Keeps index (row ∷ rows) db = rw (mark_lem index row db) (
      go (sweep_rows index rows (after_row index row db))
        (sweep_rows-Keeps index rows (after_row index row db)))
    where
      go :
          (x : Result (List Vector) × Db fl)
          → Keeps db x.1
          → Keeps db (and_then x (λ vectors. pure (add_vector (write_row index row) vectors))).1
      go (ok vectors, db1) k = k
      go (err e, db1) k = k

  swept-IsSafe :
      (sids : List Text) (index : Index) (locked : List ℕ) (w : World fl)
      → IsSafe sids w.db
      → IsSafe sids (swept w (sync_pinecone_queue_activity true index locked w.db)).db
  unfolding sync_pinecone_queue_activity transaction
  swept-IsSafe sids index locked w s =
      let rows = claim_pending locked vici.Temporal.Sweep.pinecone_sync_batch_size w.db in
      go (sweep_rows index rows w.db) (sweep_rows-Keeps index rows w.db)
    where
      go :
          (x : Result (List Vector) × Db fl)
          → Keeps w.db x.1
          → IsSafe sids (swept w (settle w.db x)).db
      go (ok vectors, db1) k = Keeps-IsSafe sids w.db db1 k s
      go (err e, db1) k = s

  Step-IsGood : IsOrdered fl → (s t : System fl) → Step s t → IsGood s → IsGood t
  unfolding handle_process_message_failure_activity purge_rate_limit_activity transaction
      purge_rate_limit_entries
  Step-IsGood o s t (request env r e) g = subst IsGood (sym e) (requested-IsGood env r s g)
  Step-IsGood o s t (attempt input w started a e) g =
      subst IsGood (sym e) (Attempt-IsSafe (sids_of s.started) o input s.world w a g.0, g.1)
  Step-IsGood o s t (give_up e) g = subst IsGood (sym e) g
  Step-IsGood o s t (sweep index locked e) g =
      subst IsGood (sym e) (swept-IsSafe (sids_of s.started) index locked s.world g.0, g.1)
  Step-IsGood o s t (purge now e) g = subst IsGood (sym e) g

  -- However requests, attempts at the workflows started, sweeps and purges follow each other: the
  -- message of every workflow started is stored, no workflow is started twice, and of each message
  -- there is at most one job and at most one goal, with exactly as many audit rows, and no job has
  -- a negative duration, if that was so before.
  pub Steps-IsGood : IsOrdered fl → (s t : System fl) → Steps s t → IsGood s → IsGood t
  Steps-IsGood o s _ done g = g
  Steps-IsGood o s u (further {t} before last) g =
      Step-IsGood o t u last (Steps-IsGood o s t before g)
