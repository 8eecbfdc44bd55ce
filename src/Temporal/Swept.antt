-- ===== src/Temporal/Swept.antt =====
-- What a sweep of the queue leaves behind.
use vici.Base.{◌≡◌, refl, Option, none, some, List, [], ◌∷◌, find_by, update_where}
use vici.Base.Floats.{Floats}
use vici.Store.{PineconeSyncQueue, Db, ok}
use vici.Extraction.SyncQueue.{
  PendingJobEmbedding, has_id, synced_entry, failed_entry, mark_synced, mark_failed,
}
use vici.Extraction.Claims.{is_row_of}
use vici.Extraction.Search.{Vector, Index}
use vici.Temporal.Sweep.{Written, written, refused, write_row, add_vector, mark}

-- An entry after its row has been worked on.
abbrev pub settled : Written → PineconeSyncQueue → PineconeSyncQueue
settled (written v) e = synced_entry e
settled (refused error) e = failed_entry error e

abbrev by_row : Index → PineconeSyncQueue → Option PendingJobEmbedding → PineconeSyncQueue
by_row index e none = e
by_row index e (some row) = settled (write_row index row) e

-- What becomes of an entry: synced or failed if it is claimed, and nothing if it is not.
abbrev pub verdict : Index → List PendingJobEmbedding → PineconeSyncQueue → PineconeSyncQueue
verdict index rows e = by_row index e (find_by (is_row_of e.id) rows)

-- The vectors of the rows that are written, in the order of the rows.
abbrev pub vectors_of : Index → List PendingJobEmbedding → List Vector
vectors_of index [] = []
vectors_of index (row ∷ rows) = add_vector (write_row index row) (vectors_of index rows)

pub settled-id : (w : Written) (e : PineconeSyncQueue) → (settled w e).id ≡ e.id
settled-id (written v) e = refl
settled-id (refused error) e = refl

module _ {fl : Floats} where
  -- The queue after one row.
  abbrev pub after_row : Index → PendingJobEmbedding → Db fl → Db fl
  after_row index row db = record db {
    sync_queue = update_where (has_id row.entry.id) (settled (write_row index row)) db.sync_queue;
  }

  pub mark_lem :
      (index : Index) (row : PendingJobEmbedding) (db : Db fl)
      → mark row (write_row index row) db ≡ (ok tt, after_row index row db)
  unfolding mark_synced mark_failed
  mark_lem index row db = go (write_row index row)
    where
      go :
          (w : Written)
          → mark row w db ≡ (
            ok tt,
            record db { sync_queue = update_where (has_id row.entry.id) (settled w) db.sync_queue },
          )
      go (written v) = refl
      go (refused error) = refl
