-- ===== src/Gauges/Tests.antt =====
-- The theorem of the gauges at small inputs.
use vici.Base.{refl, none, some, [], ◌∷◌, ◌++◌}
use vici.Base.Int.{pos}
use vici.Base.Floats.{quarters}
use vici.Samples.{board}
use vici.Gauges.{Gauges, Poll, update_gauges}
use vici.Gauges.Readings.{Shows, depth, update_gauges-Shows}

abbrev up : Poll quarters
up = record { db = some board; versions_info = some ((2 ∷ 1 ∷ []) ∷ (4 ∷ []) ∷ []) }

abbrev db_down : Poll quarters
db_down = record up { db = none }

abbrev start : Gauges
start = record {
  health = record { db_failures = 0; temporal_failures = 0 };
  pinecone_sync_queue_depth = pos 0;
  temporal_queue_depth = pos 0;
}

update_gauges-Shows_example :
    Shows depth 2 (pos 0) (update_gauges ((db_down ∷ []) ++ up ∷ db_down ∷ db_down ∷ []) start)
unfolding vici.Extraction.SyncQueue.count_pending
update_gauges-Shows_example =
    update_gauges-Shows depth (db_down ∷ []) up (db_down ∷ db_down ∷ []) 0 start refl
      (refl, (refl, tt))
