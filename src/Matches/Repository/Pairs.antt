-- ===== src/Matches/Repository/Pairs.antt =====
-- The table `match` under `persist_matches`.
use vici.Base.{
  ℕ, ◌+◌, ◌≡◌, refl, sym, ◌∙◌, ap, inl, inr, Bool, true, false, not, ◌&&◌, ◌||◌, List, [], ◌∷◌,
  ◌++◌, arith, ◌==◌, ==_iff, if◌then◌else◌, any_of, any_of-append, Bool-cases,
}
use vici.Base.Floats.{Floats}
use vici.Store.{Match, Db, ok, has_match, has_job, has_work_goal, transaction, persist_match}
use vici.Matches.Repository.{try_match, persist_matches}

-- No pair of a job and a goal stands twice in the table.
abbrev pub HasUniquePairs : List Match → Type 0
HasUniquePairs [] = Unit
HasUniquePairs (m ∷ ms) =
    (any_of (λ x. (x.job_id == m.job_id) && (x.work_goal_id == m.work_goal_id)) ms ≡ false)
    × HasUniquePairs ms

HasUniquePairs-append :
    (ms : List Match) (row : Match)
    → HasUniquePairs ms
    → any_of (λ x. (x.job_id == row.job_id) && (x.work_goal_id == row.work_goal_id)) ms ≡ false
    → HasUniquePairs (ms ++ row ∷ [])
HasUniquePairs-append [] row u h = (refl, tt)
HasUniquePairs-append (m ∷ ms) row u h = (
  any_of-append _ ms (row ∷ []) ∙ ground (arith, u.0),
  HasUniquePairs-append ms row u.1 (ground arith),
)

module _ {fl : Floats} where
  abbrev new_match : ℕ → ℕ → ℕ → Db fl → Match
  new_match now goal job db = record {
    id = db.next_id;
    job_id = job;
    work_goal_id = goal;
    created_at = now;
  }

  abbrev with_match : ℕ → ℕ → ℕ → Db fl → Db fl
  with_match now goal job db = record db {
    matches = db.matches ++ new_match now goal job db ∷ [];
    next_id = db.next_id + 1;
  }

  -- Whether the insert goes through.
  abbrev inserts : ℕ → ℕ → Db fl → Bool
  inserts goal job db = not (has_match job goal db) && (has_job job db && has_work_goal goal db)

  try_match-eq :
      (now goal job : ℕ) (db : Db fl)
      → try_match now goal job db
        ≡ (ok tt, if inserts goal job db then with_match now goal job db else db)
  unfolding try_match transaction persist_match
  try_match-eq now goal job db = ground arith

  -- Whether `persist_matches` adds the pair of `job` and `goal`, or finds it there.
  abbrev asked_for : List ℕ → ℕ → ℕ → ℕ → Db fl → Bool
  asked_for job_ids work_goal_id job goal db =
      any_of (λ i. i == job) job_ids
      && ((work_goal_id == goal) && (has_job job db && has_work_goal work_goal_id db))

  -- What a run of `persist_matches` leaves: it raises nothing, writes no other table, and holds a
  -- pair exactly if it was there or is asked for.
  pub record IsPersisted (job_ids : List ℕ) (work_goal_id : ℕ) (db db' : Db fl) : Type 0 where
    pub others : db' ≡ record db { matches = db'.matches; next_id = db'.next_id }
    pub pairs :
        (job goal : ℕ)
        → has_match job goal db'
          ≡ (has_match job goal db || asked_for job_ids work_goal_id job goal db)

  -- The database after one id.
  abbrev after_one : ℕ → ℕ → ℕ → Db fl → Db fl
  after_one now goal job db = if inserts goal job db then with_match now goal job db else db

  -- Asking for the pair itself: what a failed and a successful insert say of it.
  asked_new :
      (goal i job g : ℕ) (db : Db fl)
      → inserts goal i db ≡ true
      → (i == job) && (goal == g) ≡ asked_for (i ∷ []) goal job g db
  asked_new goal i job g db new = elim (Bool-cases (i == job)) [
    | inl e ↦ rw (sym ((==_iff i job).0 e)) (ground arith)
    | inr e ↦ rw e refl
  ]

  asked_old :
      (goal i job g : ℕ) (db : Db fl)
      → inserts goal i db ≡ false
      → has_match job g db ≡ (has_match job g db || asked_for (i ∷ []) goal job g db)
  asked_old goal i job g db old = elim (Bool-cases (i == job)) [
    | inl e ↦ elim (Bool-cases (goal == g)) [
      | inl e' ↦ rw (sym ((==_iff i job).0 e), sym ((==_iff goal g).0 e')) (ground arith)
      | inr e' ↦ rw e' (ground arith)
    ]
    | inr e ↦ rw e (ground arith)
  ]

  after_one-IsPersisted :
      (now goal i : ℕ) (db : Db fl) → IsPersisted (i ∷ []) goal db (after_one now goal i db)
  after_one-IsPersisted now goal i db = elim (Bool-cases (inserts goal i db)) [
    | inl new ↦ rw new (record {
      others = refl;
      pairs = λ job g.
          any_of-append _ db.matches _
          ∙ ap (λ b. has_match job g db || b) (ground arith ∙ asked_new goal i job g db new);
    })
    | inr old ↦ rw old (record { others = refl; pairs = λ job g. asked_old goal i job g db old })
  ]

  -- One id, then the rest.
  IsPersisted-cons :
      {goal i : ℕ} {job_ids : List ℕ} (db : Db fl) {db₁ db₂ : Db fl}
      → IsPersisted (i ∷ []) goal db db₁
      → IsPersisted job_ids goal db₁ db₂
      → IsPersisted (i ∷ job_ids) goal db db₂
  IsPersisted-cons {goal} {i} {job_ids} db {db₁} {db₂} p q =
      let jobs : db₁.jobs ≡ db.jobs = ap (λ d. d.jobs) p.others in
      let goals : db₁.work_goals ≡ db.work_goals = ap (λ d. d.work_goals) p.others in
      record {
        others =
            q.others
            ∙ ap {A = Db fl} {B = Db fl}
                (λ d. record d { matches = db₂.matches; next_id = db₂.next_id }) p.others;
        pairs = λ job g. q.pairs job g ∙ rw (p.pairs job g, jobs, goals) (ground arith);
      }

  -- `persist_matches` raises nothing, whatever ids it is given, and writes no table but `match`. A
  -- pair stands in that table afterwards exactly if it stood there before, or it is the goal with
  -- one of the ids and both name rows.
  pub persist_matches-IsPersisted :
      (now goal : ℕ) (job_ids : List ℕ) (db : Db fl)
      → ((persist_matches now job_ids goal db).0 ≡ ok tt)
        × IsPersisted job_ids goal db (persist_matches now job_ids goal db).1
  unfolding persist_matches
  persist_matches-IsPersisted now goal [] db =
      (refl, record { others = refl; pairs = λ job g. ground arith })
  persist_matches-IsPersisted now goal (i ∷ job_ids) db =
      let rest = persist_matches-IsPersisted now goal job_ids (after_one now goal i db) in
      rw (try_match-eq now goal i db)
        (rest.0, IsPersisted-cons db (after_one-IsPersisted now goal i db) rest.1)

  after_one-HasUniquePairs :
      (now goal i : ℕ) (db : Db fl)
      → HasUniquePairs db.matches
      → HasUniquePairs (after_one now goal i db).matches
  after_one-HasUniquePairs now goal i db u = elim (Bool-cases (inserts goal i db)) [
    | inl new ↦ rw new (HasUniquePairs-append db.matches (new_match now goal i db) u (ground arith))
    | inr old ↦ rw old u
  ]

  -- Whatever ids are asked for, repeated ones included, no pair stands twice in the table afterwards
  -- if none does before.
  pub persist_matches-HasUniquePairs :
      (now goal : ℕ) (job_ids : List ℕ) (db : Db fl)
      → HasUniquePairs db.matches
      → HasUniquePairs (persist_matches now job_ids goal db).1.matches
  unfolding persist_matches
  persist_matches-HasUniquePairs now goal [] db u = u
  persist_matches-HasUniquePairs now goal (i ∷ job_ids) db u = rw (try_match-eq now goal i db) (
      persist_matches-HasUniquePairs now goal job_ids (after_one now goal i db)
        (after_one-HasUniquePairs now goal i db u))
