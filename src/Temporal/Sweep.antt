-- ===== src/Temporal/Sweep.antt =====
-- `sync_pinecone_queue_activity` and `purge_rate_limit_activity` of src/temporal/activities.py.
use vici.Base.{ℕ, ◌-◌, Bool, none, some, List, [], ◌∷◌, if◌then◌else◌}
use vici.Base.Floats.{Floats}
use vici.Base.Texts.{Text, lit}
use vici.Store.{Action, application_error, pure, gets, raise, transaction, ◌>>=◌, ◌>>◌}
use vici.Sms.Repository.{purge_rate_limit_entries}
use vici.Sms.Webhook.Limits.{rate_limit_purge_retention}
use vici.Extraction.Search.{Vector, Index}
use vici.Extraction.SyncQueue.{PendingJobEmbedding, claim_pending, mark_synced, mark_failed}

-- src/extraction/constants.py
abbrev pub pinecone_sync_batch_size : ℕ
pinecone_sync_batch_size = 50

abbrev vector_of : PendingJobEmbedding → Text → Vector
vector_of row description = record {
  job_id = row.entry.job_id;
  description = description;
  phone_hash = row.phone_hash;
}

-- The body of the `try`: the vector that is written, or the text of the exception.
pub data Written : Type 0 where
  written : Vector → Written
  refused : Text → Written

unfoldable pub write_row : Index → PendingJobEmbedding → Written
write_row index row = elim row.description [
  | none ↦ refused (lit "job has no description to embed")
  | some description ↦
      if index.accepts (vector_of row description)
      then written (vector_of row description)
      else refused (index.error (vector_of row description))
]

abbrev pub add_vector : Written → List Vector → List Vector
add_vector (written v) vs = v ∷ vs
add_vector (refused e) vs = vs

module _ {fl : Floats} where
  -- What a row's outcome does to the queue.
  abbrev pub mark : PendingJobEmbedding → Written → Action fl (Unit {0})
  mark row (written v) = mark_synced row.entry
  mark row (refused e) = mark_failed row.entry e

  -- The loop over the rows: the vectors written, in order.
  unfoldable pub sweep_rows : Index → List PendingJobEmbedding → Action fl (List Vector)
  sweep_rows index [] = pure []
  sweep_rows index (row ∷ rows) = do
    mark row (write_row index row)
    vectors ← sweep_rows index rows
    pure (add_vector (write_row index row) vectors)

  -- `initialized` says whether `run_worker` has set the client of OpenAI. The locks are those that
  -- other sweeps hold.
  unfoldable pub sync_pinecone_queue_activity : Bool → Index → List ℕ → Action fl (List Vector)
  unfolding sweep_rows
  sync_pinecone_queue_activity initialized index locked =
      if initialized
      then transaction (gets (claim_pending locked pinecone_sync_batch_size) >>= sweep_rows index)
      else raise application_error

  unfoldable pub purge_rate_limit_activity : ℕ → Action fl ℕ
  purge_rate_limit_activity now =
      transaction (purge_rate_limit_entries (now - rate_limit_purge_retention))
