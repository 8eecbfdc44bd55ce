-- ===== src/Temporal/Systems.antt =====
-- The whole program as steps on one state: requests to the webhook, attempts at the messages whose
-- workflows it has started, the sweeps and the purges of the crons, in any order. Each
-- step is taken as a whole.
use vici.Base.{ℕ, ◌≡◌, true, List, ◌++◌, ◌∈◌}
use vici.Base.Floats.{Floats}
use vici.Extraction.Search.{Vector, Index}
use vici.Store.{Db, Result, ok, err}
use vici.Sms.Payload.{Request}
use vici.Sms.Webhook.{Env, ProcessMessageInput, receive_sms}
use vici.Sms.Webhook.Runs.{add_start}
use vici.Pipeline.Context.{World}
use vici.Temporal.Activities.{handle_process_message_failure_activity}
use vici.Temporal.Attempts.{Attempt}
use vici.Temporal.Sweep.{sync_pinecone_queue_activity, purge_rate_limit_activity}

-- The world, and the workflows started, the last one first.
pub record System (fl : Floats) : Type 0 where
  pub world : World fl
  pub started : List ProcessMessageInput

module _ {fl : Floats} where
  abbrev pub swept : World fl → Result (List Vector) × Db fl → World fl
  swept w (ok vectors, db) = record w { db = db; vectors = w.vectors ++ vectors }
  swept w (err e, db) = record w { db = db }

  abbrev pub requested : Env → Request → System fl → System fl
  requested env r s =
      let o = receive_sms env r s.world.db in
      record { world = record (s.world) { db = o.db }; started = add_start o.started s.started }

  pub data Step (s : System fl) : System fl → Type 0 where
    request : {t : System fl} (env : Env) (r : Request) → t ≡ requested env r s → Step s t
    attempt :
        {t : System fl} (input : ProcessMessageInput) (w : World fl)
        → input ∈ s.started
        → Attempt input s.world w
        → t ≡ record s { world = w }
        → Step s t
    give_up :
        {t : System fl}
        → t ≡ record s { world = handle_process_message_failure_activity s.world }
        → Step s t
    sweep :
        {t : System fl} (index : Index) (locked : List ℕ)
        → t ≡ record s {
          world = swept s.world (sync_pinecone_queue_activity true index locked s.world.db);
        }
        → Step s t
    purge :
        {t : System fl} (now : ℕ)
        → t ≡ record s {
          world = record (s.world) { db = (purge_rate_limit_activity now s.world.db).1 };
        }
        → Step s t

  pub data Steps (s : System fl) : System fl → Type 0 where
    done : Steps s s
    further : {t u : System fl} → Steps s t → Step t u → Steps s u
