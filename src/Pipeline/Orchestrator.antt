-- ===== src/Pipeline/Orchestrator.antt =====
-- src/pipeline/orchestrator.py, and the chain that `_build_orchestrator` of src/main.py assembles.
-- The session that a run is given is closed by its caller without a commit if the run raises, which
-- takes its writes back: the writes up to the commit are one `transaction`.
pub mod Chain
pub mod Atomic
pub mod Units
pub mod Done
pub mod Replies
pub mod Outbox
pub mod Repeats
use vici.Base.{
  ℕ, Bool, true, false, not, ◌||◌, Option, none, some, List, [], ◌∷◌, if◌then◌else◌, any_of,
  find_by,
}
use vici.Base.Floats.{Floats}
use vici.Base.Texts.{Text, lit}
use vici.Store.{
  MessageType, AuditEvent, Db, Error, Result, ok, err, value_error, stop_iteration, Action, pure,
  or_raise, transaction, ◌>>=◌, ◌>>◌,
}
use vici.Sms.Repository.{audit, record_classification}
use vici.Extraction.{ExtractionResult}
use vici.Extraction.Service.{Counters, process}
use vici.Pipeline.Context.{Json, with_text, Services, World, PipelineContext, Handler, run_actions}
use vici.Pipeline.Handlers.{job_posting_handler, work_goal_handler, unknown_handler}

-- The value of a `MessageType`.
abbrev pub type_text : MessageType → Text
type_text MessageType.job_posting = lit "job_posting"
type_text MessageType.work_goal = lit "work_goal"
type_text MessageType.unknown = lit "unknown"

-- The arguments of `run`.
pub record RunArgs : Type 0 where
  pub sms_text : Text
  pub phone_hash : Text
  pub message_id : ℕ
  pub user_id : ℕ
  pub message_sid : Text
  pub from_number : Text

module _ {fl : Floats} where
  -- `handlers[-1].is_terminal`, and no other handler is terminal.
  abbrev pub ends_well : List (Handler fl) → Bool
  ends_well [] = false
  ends_well (h ∷ []) = h.is_terminal
  ends_well (h ∷ g ∷ hs) = ends_well (g ∷ hs)

  abbrev pub is_early_terminal : List (Handler fl) → Bool
  is_early_terminal [] = false
  is_early_terminal (h ∷ []) = false
  is_early_terminal (h ∷ g ∷ hs) = h.is_terminal || is_early_terminal (g ∷ hs)

  -- The constructor: the chain it keeps.
  unfoldable pub make_orchestrator : List (Handler fl) → Result (List (Handler fl))
  make_orchestrator handlers =
      if not (ends_well handlers)
      then err value_error
      else if is_early_terminal handlers
      then err value_error
      else ok handlers

  -- The chain of `_build_orchestrator`.
  abbrev pub chain : Services fl → List (Handler fl)
  chain env = job_posting_handler env ∷ work_goal_handler env ∷ unknown_handler env ∷ []

  abbrev pub context_of : RunArgs → ExtractionResult fl → PipelineContext fl
  context_of args result = record {
    result = result;
    sms_text = args.sms_text;
    phone_hash = args.phone_hash;
    message_id = args.message_id;
    user_id = args.user_id;
    message_sid = args.message_sid;
    from_number = args.from_number;
    post_commit_actions = [];
  }

  module _ (env : Services fl) where
    -- From the dispatch to the record of the classification.
    unfoldable pub dispatch : Handler fl → PipelineContext fl → Action fl (PipelineContext fl)
    dispatch dispatched ctx = do
      handled ← dispatched.handle ctx
      record_classification ctx.message_id dispatched.message_type
          (some (env.model_dump_json ctx.result))
      pure handled

    -- Steps 2 and 3 of `run`.
    unfoldable pub unit_of_work :
        List (Handler fl) → PipelineContext fl → Action fl (PipelineContext fl)
    unfolding dispatch
    unit_of_work handlers ctx = do
      audit ctx.message_sid AuditEvent.gpt_classified
          (some (env.dumps (with_text (lit "message_type") (type_text ctx.result.message_type))))
          (some ctx.message_id) env.now
      dispatched ← or_raise (find_by (λ h. h.can_handle ctx.result) handlers) stop_iteration
      dispatch dispatched ctx

    -- Step 4, after the commit.
    abbrev pub after_commit :
        ExtractionResult fl
        → World fl
        → Result (PipelineContext fl) × Db fl
        → Result (ExtractionResult fl) × World fl
    after_commit result w (err e, db) = (err e, record w { db = db })
    after_commit result w (ok ctx, db) =
        (ok result, run_actions env ctx.post_commit_actions (record w { db = db }))

    abbrev pub after_process :
        List (Handler fl)
        → RunArgs
        → World fl
        → Result (ExtractionResult fl) × Counters
        → Result (ExtractionResult fl) × World fl
    after_process handlers args w (err e, counters) = (err e, record w { counters = counters })
    after_process handlers args w (ok result, counters) =
        after_commit result (record w { counters = counters })
          (transaction (unit_of_work handlers (context_of args result)) w.db)

    unfoldable pub run :
        List (Handler fl) → RunArgs → World fl → Result (ExtractionResult fl) × World fl
    unfolding unit_of_work
    run handlers args w =
        after_process handlers args w (process env.client env.today args.sms_text w.counters)
