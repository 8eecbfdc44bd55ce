-- ===== src/Matches/Repository.antt =====
-- `MatchRepository.persist_matches` of src/matches/repository.py.
pub mod Pairs
use vici.Base.{ℕ, List, [], ◌∷◌}
use vici.Base.Floats.{Floats}
use vici.Store.{
  Db, Error, Result, ok, err, integrity_error, Action, transaction, persist_match, ◌>>◌, pure,
}

module _ {fl : Floats} where
  -- `except IntegrityError: pass`
  abbrev skip_conflict : Result (Unit {0}) × Db fl → Result (Unit {0}) × Db fl
  skip_conflict (ok u, db) = (ok u, db)
  skip_conflict (err integrity_error, db) = (ok tt, db)
  skip_conflict (err e, db) = (err e, db)

  -- The body of the loop: a savepoint around the insert.
  pub try_match : ℕ → ℕ → ℕ → Action fl (Unit {0})
  try_match now work_goal_id job_id db =
      skip_conflict (transaction (persist_match job_id work_goal_id now) db)

  unfoldable pub persist_matches : ℕ → List ℕ → ℕ → Action fl (Unit {0})
  unfolding try_match
  persist_matches now [] work_goal_id = pure tt
  persist_matches now (i ∷ job_ids) work_goal_id =
      try_match now work_goal_id i >> persist_matches now job_ids work_goal_id
