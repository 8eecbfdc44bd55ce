-- ===== src/Extraction/SyncQueue.antt =====
-- src/extraction/repository.py: the queue of jobs whose embedding is not in the vector index yet.
-- `locked` holds the ids of the entries that other sweeps have locked: SKIP LOCKED passes them over.
use vici.Base.{
  ℕ, ◌+◌, Bool, true, false, not, ◌&&◌, Option, none, some, List, [], ◌∷◌, ◌==◌, ltb, if◌then◌else◌,
  any_of, count_if, find_by, keep_if, take, update_where,
}
use vici.Base.Floats.{Floats}
use vici.Base.Texts.{Text}
use vici.Store.{SyncStatus, PineconeSyncQueue, Db, Action, modify, gets, persist_sync_entry}

-- A claimed entry, with what the embedding needs.
pub record PendingJobEmbedding : Type 0 where
  pub entry : PineconeSyncQueue
  pub description : Option Text
  pub phone_hash : Text

abbrev pub is_pending : PineconeSyncQueue → Bool
is_pending e = elim e.status [ SyncStatus.pending ↦ true | _ ↦ false ]

abbrev pub has_id : ℕ → PineconeSyncQueue → Bool
has_id i e = e.id == i

-- `ORDER BY id`
unfoldable pub insert_by_id : PineconeSyncQueue → List PineconeSyncQueue → List PineconeSyncQueue
insert_by_id e [] = e ∷ []
insert_by_id e (d ∷ ds) = if ltb e.id d.id then e ∷ d ∷ ds else d ∷ insert_by_id e ds

unfoldable pub order_by_id : List PineconeSyncQueue → List PineconeSyncQueue
unfolding insert_by_id
order_by_id [] = []
order_by_id (e ∷ es) = insert_by_id e (order_by_id es)

-- `entry.status = SYNCED`
abbrev pub synced_entry : PineconeSyncQueue → PineconeSyncQueue
synced_entry e = record e { status = SyncStatus.synced }

-- `entry.status = FAILED; entry.attempts += 1; entry.last_error = error`
abbrev pub failed_entry : Text → PineconeSyncQueue → PineconeSyncQueue
failed_entry error e = record e {
  status = SyncStatus.failed;
  attempts = e.attempts + 1;
  last_error = some error;
}

abbrev add_row : Option PendingJobEmbedding → List PendingJobEmbedding → List PendingJobEmbedding
add_row none rows = rows
add_row (some row) rows = row ∷ rows

module _ {fl : Floats} where
  unfoldable pub enqueue : ℕ → ℕ → Action fl PineconeSyncQueue
  enqueue job_id now = persist_sync_entry (record {
    id = 0;
    job_id = job_id;
    status = SyncStatus.pending;
    attempts = 0;
    last_error = none;
    created_at = now;
  })

  unfoldable pub count_pending : Action fl ℕ
  count_pending = gets (λ db. count_if is_pending db.sync_queue)

  -- The joins with job, message and user, each on the primary key.
  unfoldable pub join_user :
      PineconeSyncQueue → Option Text → ℕ → Db fl → Option PendingJobEmbedding
  join_user e description user_id db = elim (find_by (λ u. u.id == user_id) db.users) [
    | none ↦ none
    | some u ↦ some (record { entry = e; description = description; phone_hash = u.phone_hash })
  ]

  unfoldable pub join_message :
      PineconeSyncQueue → Option Text → ℕ → Db fl → Option PendingJobEmbedding
  unfolding join_user
  join_message e description message_id db = elim (find_by (λ m. m.id == message_id) db.messages) [
    | none ↦ none
    | some m ↦ join_user e description m.user_id db
  ]

  unfoldable pub join_job : PineconeSyncQueue → Db fl → Option PendingJobEmbedding
  unfolding join_message
  join_job e db = elim (find_by (λ j. j.id == e.job_id) db.jobs) [
    | none ↦ none
    | some j ↦ join_message e j.description j.message_id db
  ]

  unfoldable pub joined : List PineconeSyncQueue → Db fl → List PendingJobEmbedding
  unfolding join_job
  joined [] db = []
  joined (e ∷ es) db = add_row (join_job e db) (joined es db)

  unfoldable pub claim_pending : List ℕ → ℕ → Db fl → List PendingJobEmbedding
  unfolding joined order_by_id
  claim_pending locked limit db = take limit (
      joined
        (order_by_id
          (keep_if (λ e. is_pending e && not (any_of (λ i. i == e.id) locked)) db.sync_queue))
        db)

  unfoldable pub mark_synced : PineconeSyncQueue → Action fl (Unit {0})
  mark_synced entry =
      modify
        λ db. record db { sync_queue = update_where (has_id entry.id) synced_entry db.sync_queue }

  unfoldable pub mark_failed : PineconeSyncQueue → Text → Action fl (Unit {0})
  mark_failed entry error = modify λ db. record db {
    sync_queue = update_where (has_id entry.id) (failed_entry error) db.sync_queue;
  }
