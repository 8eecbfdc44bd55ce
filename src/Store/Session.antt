-- ===== src/Store/Session.antt =====
-- A session of SQLAlchemy: statements that may raise, and the transactions that hold them.
-- src/repository.py's `_persist` adds a row and flushes: the row gets its id, or the constraints of
-- its table refuse it.
use vici.Base.{
  ℕ, ◌+◌, Bool, false, not, ◌&&◌, ◌||◌, Option, none, some, [], ◌∷◌, ◌++◌, ◌==◌, if◌then◌else◌,
  any_of, elim_or, ltb,
}
use vici.Base.Floats.{Floats}
use vici.Base.Texts.{Text, same}
use vici.Jobs.{Job}
use vici.WorkGoals.{WorkGoal}
use vici.Store.Tables.{Message, RateLimit, AuditLog, Match, PineconeSyncQueue, Db}

-- What the code raises, and what the code that it calls raises.
pub data Error : Type 0 where
  duplicate_message_sid rate_limit_exceeded : Error
  twilio_signature_invalid bad_request : Error
  integrity_error validation_error value_error assertion_error : Error
  extraction_parse_error retry_error application_error external_error index_error : Error
  stop_iteration overflow_error data_error : Error

pub data Result {ℓ} (A : Type ℓ) : Type ℓ where
  ok : A → Result A
  err : Error → Result A

-- A statement gives the database back after a raise too: what was flushed stays flushed until the
-- transaction is rolled back.
abbrev pub Action : Floats → Type 0 → Type 0
Action fl A = Db fl → Result A × Db fl

module _ {fl : Floats} {A : Type 0} where
  abbrev pub pure : A → Action fl A
  pure a db = (ok a, db)

  abbrev pub raise : Error → Action fl A
  raise e db = (err e, db)

  abbrev pub gets : (Db fl → A) → Action fl A
  gets f db = (ok (f db), db)

  abbrev pub lift : Result A → Action fl A
  lift r db = (r, db)

  abbrev pub or_raise : Option A → Error → Action fl A
  or_raise none e = raise e
  or_raise (some a) e = pure a

-- What follows a statement, by how it ended.
abbrev pub and_then :
    {fl : Floats} {A B : Type 0} → Result A × Db fl → (A → Action fl B) → Result B × Db fl
and_then (ok a, db) f = f a db
and_then (err e, db) f = (err e, db)

infixl 5 ◌>>=◌ ◌>>◌
abbrev pub ◌>>=◌ : {fl : Floats} {A B : Type 0} → Action fl A → (A → Action fl B) → Action fl B
◌>>=◌ m f db = and_then (m db) f

abbrev pub ◌>>◌ : {fl : Floats} {A B : Type 0} → Action fl A → Action fl B → Action fl B
m >> k = m >>= λ _. k

-- The greatest value of a column of type INTEGER: the driver refuses a greater one.
abbrev pub int_max : ℕ
int_max = 2_147_483_647

module _ {fl : Floats} where
  abbrev pub raise_if : Bool → Error → Action fl (Unit {0})
  raise_if c e db = (if c then err e else ok tt, db)

  abbrev pub modify : (Db fl → Db fl) → Action fl (Unit {0})
  modify f db = (ok tt, f db)

  -- `async with session.begin()`, and likewise `begin_nested`: a raise takes the writes back.
  abbrev pub settle : {A : Type 0} → Db fl → Result A × Db fl → Result A × Db fl
  settle db (ok a, db') = (ok a, db')
  settle db (err e, db') = (err e, db)

  unfoldable pub transaction : {A : Type 0} → Action fl A → Action fl A
  transaction m db = settle db (m db)

  -- The rows that a foreign key may name.
  abbrev has_user : ℕ → Db fl → Bool
  has_user k db = any_of (λ u. u.id == k) db.users

  abbrev pub has_message : ℕ → Db fl → Bool
  has_message k db = any_of (λ m. m.id == k) db.messages

  abbrev pub has_job : ℕ → Db fl → Bool
  has_job k db = any_of (λ j. j.id == k) db.jobs

  abbrev pub has_work_goal : ℕ → Db fl → Bool
  has_work_goal k db = any_of (λ g. g.id == k) db.work_goals

  abbrev pub has_sid : Text → Db fl → Bool
  has_sid sid db = any_of (λ m. same m.message_sid sid) db.messages

  abbrev pub has_match : ℕ → ℕ → Db fl → Bool
  has_match job goal db = any_of (λ m. m.job_id == job && m.work_goal_id == goal) db.matches

  -- `message.message_sid` is unique, and `user_id` names a user.
  unfoldable pub persist_message : Message → Action fl Message
  persist_message m = do
    raise_if (← gets (λ db. has_sid m.message_sid db || not (has_user m.user_id db)))
        integrity_error
    k ← gets (λ db. db.next_id)
    let row : Message = record m { id = k }
    modify (λ db. record db { messages = db.messages ++ row ∷ []; next_id = k + 1 })
    pure row

  -- `user_id` names a user.
  unfoldable pub insert_rate_limit : ℕ → ℕ → Action fl (Unit {0})
  insert_rate_limit user_id now = do
    raise_if (← gets (λ db. not (has_user user_id db))) integrity_error
    modify λ db.
        let row : RateLimit = record { id = db.next_id; user_id = user_id; created_at = now } in
        record db { rate_limits = db.rate_limits ++ row ∷ []; next_id = db.next_id + 1 }

  abbrev names_no_message : Option ℕ → Db fl → Bool
  names_no_message none db = false
  names_no_message (some k) db = not (has_message k db)

  -- `message_id` is null or names a message.
  unfoldable pub persist_audit_log : AuditLog → Action fl (Unit {0})
  persist_audit_log a = do
    raise_if (← gets (names_no_message a.message_id)) integrity_error
    modify λ db.
        let row : AuditLog = record a { id = db.next_id } in
        record db { audit_log = db.audit_log ++ row ∷ []; next_id = db.next_id + 1 }

  -- The CHECK constraints on the pay and on the duration, as what they refuse.
  abbrev pub is_job_refused : Job fl → Bool
  is_job_refused j =
      elim_or false (λ rate. rate == 0) j.pay_rate
      || elim_or false (λ hours. fl.le? hours fl.nought) j.estimated_duration_hours

  -- `pay_rate` fits its column, and `job.message_id` is unique and names a message.
  unfoldable pub persist_job : Job fl → Action fl (Job fl)
  persist_job j = do
    raise_if (elim_or false (ltb int_max) j.pay_rate) data_error
    raise_if
        (← gets (λ db.
          is_job_refused j
          || (any_of (λ other. other.message_id == j.message_id) db.jobs
              || not (has_message j.message_id db))))
        integrity_error
    k ← gets (λ db. db.next_id)
    let row : Job fl = record j { id = k }
    modify (λ db. record db { jobs = db.jobs ++ row ∷ []; next_id = k + 1 })
    pure row

  -- `target_earnings` fits its column and is positive, and `work_goal.message_id` is unique and names a message.
  unfoldable pub persist_work_goal : WorkGoal → Action fl WorkGoal
  persist_work_goal g = do
    raise_if (ltb int_max g.target_earnings) data_error
    raise_if
        (← gets (λ db.
          g.target_earnings == 0
          || (any_of (λ other. other.message_id == g.message_id) db.work_goals
              || not (has_message g.message_id db))))
        integrity_error
    k ← gets (λ db. db.next_id)
    let row : WorkGoal = record g { id = k }
    modify (λ db. record db { work_goals = db.work_goals ++ row ∷ []; next_id = k + 1 })
    pure row

  -- `(job_id, work_goal_id)` is unique, and both name rows.
  unfoldable pub persist_match : ℕ → ℕ → ℕ → Action fl (Unit {0})
  persist_match job_id work_goal_id now = do
    raise_if
        (← gets (λ db.
          has_match job_id work_goal_id db
          || not (has_job job_id db)
          || not (has_work_goal work_goal_id db)))
        integrity_error
    modify λ db.
        let row : Match = record {
          id = db.next_id;
          job_id = job_id;
          work_goal_id = work_goal_id;
          created_at = now;
        } in
        record db { matches = db.matches ++ row ∷ []; next_id = db.next_id + 1 }

  -- `job_id` names a job.
  unfoldable pub persist_sync_entry : PineconeSyncQueue → Action fl PineconeSyncQueue
  persist_sync_entry e = do
    raise_if (← gets (λ db. not (has_job e.job_id db))) integrity_error
    k ← gets (λ db. db.next_id)
    let row : PineconeSyncQueue = record e { id = k }
    modify (λ db. record db { sync_queue = db.sync_queue ++ row ∷ []; next_id = k + 1 })
    pure row
