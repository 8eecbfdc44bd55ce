-- ===== src/Gauges.antt =====
-- The gauges of src/main.py, with `get_task_queue_backlog` of src/temporal/stats.py.
pub mod Readings
mod Tests
use vici.Base.{ℕ, suc, ◌+◌, Option, none, some, List, [], ◌∷◌, ltb, if◌then◌else◌}
use vici.Base.Int.{ℤ, pos, negsuc}
use vici.Base.Floats.{Floats}
use vici.Store.{Db, Result, ok, err}
use vici.Extraction.SyncQueue.{count_pending}

-- `_GAUGE_MAX_CONSECUTIVE_FAILURES`
abbrev pub gauge_max_consecutive_failures : ℕ
gauge_max_consecutive_failures = 5

-- `_GaugeHealth`
pub record GaugeHealth : Type 0 where
  pub db_failures : ℕ
  pub temporal_failures : ℕ

-- The health, and the values that are shown.
pub record Gauges : Type 0 where
  pub health : GaugeHealth
  pub pinecone_sync_queue_depth : ℤ
  pub temporal_queue_depth : ℤ

-- What one poll meets: the database, and the answer of Temporal, the counts of the types of each
-- version. `none` stands for an exception.
pub record Poll (fl : Floats) : Type 0 where
  pub db : Option (Db fl)
  pub versions_info : Option (List (List ℕ))

-- `_record_gauge_failure`: the value that the gauge shows then.
unfoldable pub record_gauge_failure : ℕ → ℤ → ℤ
record_gauge_failure consecutive_failures gauge =
    if ltb gauge_max_consecutive_failures consecutive_failures then negsuc 0 else gauge

abbrev sum : List ℕ → ℕ
sum [] = 0
sum (n ∷ ns) = n + sum ns

-- `get_task_queue_backlog`, where the call goes through.
unfoldable pub get_task_queue_backlog : List (List ℕ) → ℕ
get_task_queue_backlog [] = 0
get_task_queue_backlog (types_info ∷ versions) = sum types_info + get_task_queue_backlog versions

-- The first `try`, by what `count_pending` ends with.
abbrev after_count : Option ℕ → Gauges → Gauges
after_count (some depth) g = record g {
  pinecone_sync_queue_depth = pos depth;
  health = record (g.health) { db_failures = 0 };
}
after_count none g =
    let failures = suc g.health.db_failures in
    record g {
      pinecone_sync_queue_depth = record_gauge_failure failures g.pinecone_sync_queue_depth;
      health = record (g.health) { db_failures = failures };
    }

-- The second `try`.
abbrev after_backlog : Option ℕ → Gauges → Gauges
after_backlog (some backlog) g = record g {
  temporal_queue_depth = pos backlog;
  health = record (g.health) { temporal_failures = 0 };
}
after_backlog none g =
    let failures = suc g.health.temporal_failures in
    record g {
      temporal_queue_depth = record_gauge_failure failures g.temporal_queue_depth;
      health = record (g.health) { temporal_failures = failures };
    }

abbrev pub backlog_of : Option (List (List ℕ)) → Option ℕ
backlog_of none = none
backlog_of (some versions) = some (get_task_queue_backlog versions)

abbrev to_option : Result ℕ → Option ℕ
to_option (ok n) = some n
to_option (err e) = none

module _ {fl : Floats} where
  abbrev pub depth_of : Option (Db fl) → Option ℕ
  depth_of none = none
  depth_of (some db) = to_option (count_pending db).0

  unfoldable pub poll_gauges_once : Poll fl → Gauges → Gauges
  poll_gauges_once poll g =
      after_backlog (backlog_of poll.versions_info) (after_count (depth_of poll.db) g)

  -- `_update_gauges`, as many rounds of its loop as there are polls.
  unfoldable pub update_gauges : List (Poll fl) → Gauges → Gauges
  unfolding poll_gauges_once
  update_gauges [] g = g
  update_gauges (poll ∷ polls) g = update_gauges polls (poll_gauges_once poll g)
