-- ===== src/Temporal/Drained.antt =====
-- The sweeps that the cron schedule starts one after another, and what they leave waiting.
use vici.Base.{ℕ, true, ◌&&◌, List, [], ◌∷◌, count_if}
use vici.Base.Floats.{Floats}
use vici.Store.{Db, Action, pure, ◌>>◌}
use vici.Extraction.Search.{Index}
use vici.Extraction.SyncQueue.{is_pending}
use vici.Extraction.Unclaimed.{is_joined}
use vici.Temporal.Sweep.{sync_pinecone_queue_activity}

module _ {fl : Floats} where
  -- The pending entries whose job, message and poster are stored.
  abbrev pub count_waiting : Db fl → ℕ
  count_waiting db = count_if (λ e. is_pending e && is_joined db e) db.sync_queue

  -- Sweeps one after another, while no other sweep holds locks, each with what the index does then.
  unfoldable pub sweeps : List Index → Action fl (Unit {0})
  sweeps [] = pure tt
  sweeps (index ∷ indexes) = sync_pinecone_queue_activity true index [] >> sweeps indexes
