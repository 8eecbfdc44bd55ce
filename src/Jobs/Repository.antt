-- ===== src/Jobs/Repository.antt =====
-- src/jobs/repository.py: which jobs a goal may be matched with, and who posted them.
-- A query's rows come in the order of the table's list. Without an ORDER BY the database is free
-- to choose, so the theorems hold for every order of that list.
use mathlib.Core.Option
use vici.Base.{
  ℕ, Bool, true, false, not, ◌&&◌, ◌||◌, Option, none, some, List, [], ◌∷◌, ◌++◌, map, reverse,
  ◌==◌, if◌then◌else◌, take, keep_if, any_of, find_by,
}
use vici.Base.Int.{leb_ℤ}
use vici.Base.Floats.{Floats}
use vici.Datetimes.{Datetime, instant}
use vici.Jobs.{Job, JobStatus, PayType, incomputable_reason, pay_terms}
use vici.Store.{User, Message, Db}

abbrev pub max_candidates : ℕ
max_candidates = 500

abbrev is_available : JobStatus → Bool
is_available JobStatus.available = true
is_available _ = false

abbrev is_unknown : PayType → Bool
is_unknown PayType.unknown = true
is_unknown _ = false

-- `datetime_flexible.is_(True)`
abbrev is_true : Option Bool → Bool
is_true none = false
is_true (some b) = b

abbrev is_none : {A : Type 0} → Option A → Bool
is_none none = true
is_none (some a) = false

-- `ideal_datetime IS NULL OR ideal_datetime <= deadline`, without the flexible jobs between.
abbrev no_later : Option Datetime → Datetime → Bool
no_later none deadline = true
no_later (some d) deadline = leb_ℤ (instant d) (instant deadline)

abbrev in_time : Option Datetime → Option Bool → Option Datetime → Bool
in_time ideal flexible none = true
in_time ideal flexible (some deadline) = no_later ideal deadline || is_true flexible

-- `i in job_ids`
abbrev pub contains : ℕ → List ℕ → Bool
contains i ids = any_of (λ k. k == i) ids

-- The rows `(message.id, user)` of the join.
unfoldable pub users_of : ℕ → ℕ → List User → List (ℕ × User)
users_of message_id user_id [] = []
users_of message_id user_id (u ∷ users) =
    if u.id == user_id
    then (message_id, u) ∷ users_of message_id user_id users
    else users_of message_id user_id users

unfoldable pub poster_rows : List ℕ → List User → List Message → List (ℕ × User)
poster_rows message_ids users [] = []
poster_rows message_ids users (m ∷ messages) =
    (if contains m.id message_ids then users_of m.id m.user_id users else [])
    ++ poster_rows message_ids users messages

-- `dict(rows).get(k)`
unfoldable pub dict_get : {A : Type 0} → ℕ → List (ℕ × A) → Option A
dict_get k rows = Option.map (λ kv. kv.1) (find_by (λ kv. kv.0 == k) (reverse rows))

module _ {fl : Floats} where
  -- The WHERE clauses of `_eligibility_stmt`.
  unfoldable pub is_eligible : Option Datetime → Job fl → Bool
  is_eligible deadline job =
      is_available job.status
      && (not (is_unknown job.pay_type)
          && in_time job.ideal_datetime job.datetime_flexible deadline)

  unfoldable pub is_computable : Job fl → Bool
  is_computable job = is_none (incomputable_reason fl (pay_terms fl job))

  unfoldable pub computable_only : List (Job fl) → List (Job fl)
  computable_only raw_jobs = keep_if is_computable raw_jobs

  unfoldable pub find_candidates_for_goal : Option Datetime → Db fl → List (Job fl)
  find_candidates_for_goal deadline db =
      computable_only (take max_candidates (keep_if (is_eligible deadline) db.jobs))

  -- `[by_id[i] for i in job_ids if i in by_id]`; the last row of an id is the one in the dict.
  unfoldable pub in_order : List (Job fl) → List ℕ → List (Job fl)
  in_order jobs [] = []
  in_order jobs (i ∷ ids) = elim (find_by (λ j. j.id == i) (reverse jobs)) [
    | none ↦ in_order jobs ids
    | some job ↦ job ∷ in_order jobs ids
  ]

  unfoldable pub find_candidates_by_ids : List ℕ → Option Datetime → Db fl → List (Job fl)
  find_candidates_by_ids [] deadline db = []
  find_candidates_by_ids (i ∷ ids) deadline db =
      in_order
        (computable_only (keep_if (λ j. is_eligible deadline j && contains j.id (i ∷ ids)) db.jobs))
        (i ∷ ids)

  -- The pairs of a job's id and its poster, as they are put into the dict.
  unfoldable pub find_posters : List (Job fl) → Db fl → List (ℕ × Option User)
  find_posters jobs db =
      let poster_by_message = poster_rows (map (λ j. j.message_id) jobs) db.users db.messages in
      map (λ j. (j.id, dict_get j.message_id poster_by_message)) jobs
