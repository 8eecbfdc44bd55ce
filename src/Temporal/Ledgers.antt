-- ===== src/Temporal/Ledgers.antt =====
-- What the program promises of jobs and goals, as a machine of its own: a ledger of the messages that
-- have a job and of those that have a goal, to which one is added at a time.
use vici.Base.{
  ℕ, ◌≡◌, refl, sym, ap, subst, ◌∙◌, Bool, false, List, [], ◌∷◌, ◌++◌, map, ◌==◌, any_of,
}
use vici.Base.Floats.{Floats}
use vici.Store.{MessageType, Db}
use vici.Pipeline.Context.{
  Services, World, PipelineContext, PostCommitAction, run_action, run_actions,
}
use vici.Pipeline.Orchestrator.Units.{kind_of, audited, IsHandledAs, IsUnit}
use vici.Temporal.Audited.{postable-parts, pursuable-fresh}
use vici.Temporal.Once.{action_keeps}

-- The messages with a job and those with a goal, in the order of the rows.
pub record Ledger : Type 0 where
  pub jobs : List ℕ
  pub goals : List ℕ

abbrev pub contains : ℕ → List ℕ → Bool
contains m ms = any_of (λ k. k == m) ms

-- A step of the ledger: nothing, or the first job or the first goal of a message.
pub data Entry (l : Ledger) : Ledger → Type 0 where
  stay : {l' : Ledger} → l' ≡ l → Entry l l'
  add_job :
      {l' : Ledger} (m : ℕ)
      → contains m l.jobs ≡ false
      → l' ≡ record l { jobs = l.jobs ++ m ∷ [] }
      → Entry l l'
  add_goal :
      {l' : Ledger} (m : ℕ)
      → contains m l.goals ≡ false
      → l' ≡ record l { goals = l.goals ++ m ∷ [] }
      → Entry l l'

pub data Entries (l : Ledger) : Ledger → Type 0 where
  started : Entries l l
  then_entry : {l1 l2 : Ledger} → Entries l l1 → Entry l1 l2 → Entries l l2

map-snoc :
    {A : Type 0} (f : A → ℕ) (xs : List A) (x : A) → map f (xs ++ x ∷ []) ≡ map f xs ++ f x ∷ []
map-snoc f [] x = refl
map-snoc f (y ∷ ys) x = ap (λ l. f y ∷ l) (map-snoc f ys x)

contains-map :
    {A : Type 0} (f : A → ℕ) (m : ℕ) (xs : List A)
    → contains m (map f xs) ≡ any_of (λ x. f x == m) xs
contains-map f m [] = refl
contains-map f m (x ∷ xs) = rw (contains-map f m xs) refl

module _ {fl : Floats} where
  abbrev pub ledger : Db fl → Ledger
  ledger db = record {
    jobs = map (λ j. j.message_id) db.jobs;
    goals = map (λ g. g.message_id) db.work_goals;
  }

  -- A unit of work is one entry.
  handled-Entry :
      (t : MessageType) (env : Services fl) (ctx ctx' : PipelineContext fl) (db db2 : Db fl)
      → IsHandledAs t env ctx ctx' (audited env ctx db) db2
      → Entry (ledger db) (ledger db2)
  handled-Entry MessageType.job_posting env ctx ctx' db db2 p =
      let (fits, fresh) =
        postable-parts env ctx (audited env ctx db) p.extracted p.pay_rate p.present p.in_cents
          p.postable in
      add_job ctx.message_id (contains-map (λ j. j.message_id) ctx.message_id db.jobs ∙ fresh) (
        ap ledger p.after
        ∙ ap (λ l. record { jobs = l; goals = map (λ g. g.message_id) db.work_goals })
            (map-snoc (λ j. j.message_id) db.jobs _))
  handled-Entry MessageType.work_goal env ctx ctx' db db2 p =
      add_goal ctx.message_id
        (contains-map (λ g. g.message_id) ctx.message_id db.work_goals
          ∙ pursuable-fresh env ctx (audited env ctx db) p.pursuable)
        (ap ledger p.matched.persisted.others
          ∙ ap (λ l. record { jobs = map (λ j. j.message_id) db.jobs; goals = l })
              (map-snoc (λ g. g.message_id) db.work_goals _))
  handled-Entry MessageType.unknown env ctx ctx' db db2 p = stay (ap ledger p.1)

  pub unit-Entry :
      (env : Services fl) (ctx ctx' : PipelineContext fl) (db db' : Db fl)
      → IsUnit env ctx ctx' db db'
      → Entry (ledger db) (ledger db')
  unit-Entry env ctx ctx' db db' u =
      subst (λ d. Entry (ledger db) (ledger d)) (sym u.after)
        (handled-Entry (kind_of ctx.result) env ctx ctx' db u.handled_db u.handled)

  pub ledger-actions :
      (env : Services fl) (actions : List PostCommitAction) (w : World fl)
      → ledger (run_actions env actions w).db ≡ ledger w.db
  unfolding run_actions
  ledger-actions env [] w = refl
  ledger-actions env (action ∷ actions) w =
      let (jobs, goals, log, messages) = action_keeps env action w in
      ledger-actions env actions (run_action env action w) ∙ rw (jobs, goals) refl
