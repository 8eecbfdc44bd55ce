-- ===== src/Temporal/Audited.antt =====
-- What every unit of work keeps: each job and each goal is made once and noted once.
use vici.Base.{
  ℕ, ◌+◌, ◌≤◌, ◌≡◌, refl, sym, ap, subst, ◌∙◌, inl, inr, Bool, true, false, ◌&&◌, Option, some,
  List, [], ◌∷◌, ◌++◌, arith, ◌==◌, ==_iff, any_of, count_if, count_if-append, elim_or,
  if◌then◌else◌, Bool-cases, Option-cases,
}
use vici.Base.Floats.{Floats, IsOrdered}
use vici.Base.Members.{All-append}
use vici.Extraction.{JobExtraction, WorkGoalExtraction}
use vici.Jobs.{Job}
use vici.Jobs.Create.{is_job_create}
use vici.Store.{MessageType, AuditEvent, AuditLog, Db}
use vici.Matches.Service.{hours_of}
use vici.Matches.Service.Outcome.{HaveDurations}
use vici.Pipeline.Context.{Services, PipelineContext}
use vici.Pipeline.Handlers.{cents_of}
use vici.Pipeline.Handlers.Posted.{IsPosted, posted_fields, posted_job, is_postable}
use vici.Pipeline.Handlers.Pursued.{IsPursued, is_pursuable, pursued_goal, with_goal}
use vici.Pipeline.Orchestrator.Units.{kind_of, audited, IsHandledAs, IsUnit}

abbrev pub is_job_created : AuditEvent → Bool
is_job_created AuditEvent.job_created = true
is_job_created _ = false

abbrev pub is_work_goal_created : AuditEvent → Bool
is_work_goal_created AuditEvent.work_goal_created = true
is_work_goal_created _ = false

-- Whether an audit row is of the message `m`.
abbrev pub is_about : ℕ → AuditLog → Bool
is_about m a = elim_or false (λ i. i == m) a.message_id

count_if_absent :
    {A : Type 0} (p : A → Bool) (xs : List A) → any_of p xs ≡ false → count_if p xs ≡ 0
count_if_absent p [] h = refl
count_if_absent p (x ∷ xs) h = ground (arith, count_if_absent p xs)

abbrev one : Bool → ℕ
one b = if b then 1 else 0

count_if-last :
    {A : Type 0} (p : A → Bool) (xs : List A) (x : A)
    → count_if p (xs ++ x ∷ []) ≡ count_if p xs + one (p x)
count_if-last p xs x = ground (arith, count_if-append p xs (x ∷ []))

-- One row more of the message `k`, of which there was none.
first_of :
    {A : Type 0} (id_of : A → ℕ) (xs : List A) (k m : ℕ)
    → any_of (λ x. id_of x == k) xs ≡ false
    → count_if (λ x. id_of x == m) xs ≤ 1
    → count_if (λ x. id_of x == m) xs + one (k == m) ≤ 1
first_of id_of xs k m h le = elim (Bool-cases (k == m)) [
  | inl own ↦
      let same : k ≡ m = (==_iff k m).0 own in
      let absent =
        count_if_absent (λ x. id_of x == m) xs
          (subst (λ i. any_of (λ x. id_of x == i) xs ≡ false) same h) in
      rw own (omega (arith, absent))
  | inr other ↦ rw other (omega (arith, le))
]

module _ {fl : Floats} where
  abbrev jobs_of : ℕ → Db fl → ℕ
  jobs_of m db = count_if (λ j. j.message_id == m) db.jobs

  abbrev jobs_noted : ℕ → Db fl → ℕ
  jobs_noted m db = count_if (λ a. is_job_created a.event && is_about m a) db.audit_log

  abbrev goals_of : ℕ → Db fl → ℕ
  goals_of m db = count_if (λ g. g.message_id == m) db.work_goals

  abbrev goals_noted : ℕ → Db fl → ℕ
  goals_noted m db = count_if (λ a. is_work_goal_created a.event && is_about m a) db.audit_log

  -- Of the message `m` there is at most one job and at most one goal, each with its audit row.
  abbrev IsOnce : ℕ → Db fl → Type 0
  IsOnce m db =
      (jobs_of m db ≤ 1)
      × (jobs_noted m db ≡ jobs_of m db)
      × (goals_of m db ≤ 1)
      × (goals_noted m db ≡ goals_of m db)

  -- So it is of every message, and no job has a negative duration.
  abbrev pub IsSound : Db fl → Type 0
  IsSound db = HaveDurations db × ((m : ℕ) → IsOnce m db)

  posted_duration :
      IsOrdered fl
      → (env : Services fl) (ctx : PipelineContext fl) (extracted : JobExtraction fl)
        (pay_rate : Option ℕ) (db : Db fl)
      → is_job_create fl (posted_fields env ctx extracted pay_rate) ≡ true
      → fl.le? fl.nought
          (hours_of fl (posted_job env ctx extracted pay_rate db).estimated_duration_hours)
        ≡ true
  unfolding is_job_create
  posted_duration o env ctx extracted pay_rate db h =
      elim (Option-cases extracted.estimated_duration_hours) [
        | inl missing ↦ rw missing (ground (arith, o.le_total fl.nought fl.nought))
        | inr (hours, e) ↦
            rw e (ground (arith, o.le_total fl.nought hours, o.le_total fl.nought fl.nought, h, e))
      ]

  pub postable-parts :
      (env : Services fl) (ctx : PipelineContext fl) (db : Db fl) (extracted : JobExtraction fl)
      (pay_rate : Option ℕ)
      → ctx.result.job ≡ some extracted
      → cents_of fl extracted.pay_rate ≡ some pay_rate
      → is_postable env ctx db ≡ true
      → (is_job_create fl (posted_fields env ctx extracted pay_rate) ≡ true)
        × (any_of (λ other. other.message_id == ctx.message_id) db.jobs ≡ false)
  postable-parts env ctx db extracted pay_rate e finite h = ground arith

  pub pursuable-fresh :
      (env : Services fl) (ctx : PipelineContext fl) (db : Db fl)
      → is_pursuable env ctx db ≡ true
      → any_of (λ other. other.message_id == ctx.message_id) db.work_goals ≡ false
  pursuable-fresh env ctx db h = ground arith

  -- An audit row that notes neither.
  audited-IsSound :
      (env : Services fl) (ctx : PipelineContext fl) (db : Db fl)
      → IsSound db
      → IsSound (audited env ctx db)
  audited-IsSound env ctx db s = (
    s.0,
    λ m.
        let (few, noted, few_goals, noted_goals) = s.1 m in
        (
          few,
          count_if-last _ db.audit_log _ ∙ omega (arith, noted),
          few_goals,
          count_if-last _ db.audit_log _ ∙ omega (arith, noted_goals),
        ),
  )

  posted-IsSound :
      IsOrdered fl
      → (env : Services fl) (ctx ctx' : PipelineContext fl) (db db2 : Db fl)
      → IsPosted env ctx ctx' db db2
      → IsSound db
      → IsSound db2
  posted-IsSound o env ctx ctx' db db2 p s =
      let job = posted_job env ctx p.extracted p.pay_rate db in
      let (fits, fresh) =
        postable-parts env ctx db p.extracted p.pay_rate p.present p.in_cents p.postable in
      subst IsSound (sym p.after) (
        All-append _ db.jobs (job ∷ []) s.0
            (posted_duration o env ctx p.extracted p.pay_rate db fits, tt),
        λ m.
            let (few, noted, few_goals, noted_goals) = s.1 m in
            let jobs = count_if-last (λ (j : Job fl). j.message_id == m) db.jobs job in
            (
              subst (λ n. n ≤ 1) (sym jobs)
                  (first_of (λ (j : Job fl). j.message_id) db.jobs ctx.message_id m fresh few),
              count_if-last _ db.audit_log _
                  ∙ (ap (λ n. n + one (ctx.message_id == m)) noted ∙ sym jobs),
              few_goals,
              count_if-last _ db.audit_log _ ∙ omega (arith, noted_goals),
            ),
      )

  with_goal-IsSound :
      (env : Services fl) (ctx : PipelineContext fl) (extracted : WorkGoalExtraction fl) (cents : ℕ)
      (db : Db fl)
      → any_of (λ other. other.message_id == ctx.message_id) db.work_goals ≡ false
      → IsSound db
      → IsSound (with_goal env ctx extracted cents db)
  with_goal-IsSound env ctx extracted cents db fresh s = (
    s.0,
    λ m.
        let (few, noted, few_goals, noted_goals) = s.1 m in
        let goals =
          count_if-last (λ g. g.message_id == m) db.work_goals
            (pursued_goal env ctx extracted cents db) in
        (
          few,
          count_if-last _ db.audit_log _ ∙ omega (arith, noted),
          subst (λ n. n ≤ 1) (sym goals)
              (first_of (λ g. g.message_id) db.work_goals ctx.message_id m fresh few_goals),
          count_if-last _ db.audit_log _
              ∙ (ap (λ n. n + one (ctx.message_id == m)) noted_goals ∙ sym goals),
        ),
  )

  pursued-IsSound :
      (env : Services fl) (ctx ctx' : PipelineContext fl) (db db2 : Db fl)
      → IsPursued env ctx ctx' db db2
      → IsSound db
      → IsSound db2
  pursued-IsSound env ctx ctx' db db2 p s =
      subst IsSound (sym p.matched.persisted.others) (
        with_goal-IsSound env ctx p.extracted p.cents db (pursuable-fresh env ctx db p.pursuable) s)

  -- A unit of work keeps it so.
  pub unit-IsSound :
      IsOrdered fl
      → (env : Services fl) (ctx ctx' : PipelineContext fl) (db db' : Db fl)
      → IsUnit env ctx ctx' db db'
      → IsSound db
      → IsSound db'
  unit-IsSound o env ctx ctx' db db' u s =
      subst IsSound (sym u.after) (go (kind_of ctx.result) u.handled_db u.handled)
    where
      noted : IsSound (audited env ctx db)
      noted = audited-IsSound env ctx db s

      go :
          (t : MessageType) (db2 : Db fl)
          → IsHandledAs t env ctx ctx' (audited env ctx db) db2
          → IsSound db2
      go MessageType.job_posting db2 p =
          posted-IsSound o env ctx ctx' (audited env ctx db) db2 p noted
      go MessageType.work_goal db2 p = pursued-IsSound env ctx ctx' (audited env ctx db) db2 p noted
      go MessageType.unknown db2 p = subst IsSound (sym p.1) noted
