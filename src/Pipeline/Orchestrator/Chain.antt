-- ===== src/Pipeline/Orchestrator/Chain.antt =====
-- The chain of handlers always dispatches.
use vici.Base.{
  ◌≡◌, ◌≢◌, inl, inr, true, false, ◌&&◌, none, some, List, [], ◌∷◌, arith, if◌then◌else◌, find_by,
  All, Bool-cases,
}
use vici.Base.Floats.{Floats}
use vici.Extraction.{ExtractionResult}
use vici.Store.{MessageType, ok}
use vici.Pipeline.Context.{Services, Handler}
use vici.Pipeline.Handlers.{
  same_type, is_present, job_posting_handler, work_goal_handler, unknown_handler,
}
use vici.Pipeline.Orchestrator.{ends_well, is_early_terminal, make_orchestrator, chain}

module _ {fl : Floats} where
  -- What `MessageHandler` asks of a subclass: a terminal handler accepts every result.
  abbrev IsHandler : Handler fl → Type 0
  IsHandler h = (r : ExtractionResult fl) → h.is_terminal ≡ true → h.can_handle r ≡ true

  find_by-ends_well :
      (hs : List (Handler fl)) (r : ExtractionResult fl)
      → All IsHandler hs
      → ends_well hs ≡ true
      → find_by (λ h. h.can_handle r) hs ≢ none
  find_by-ends_well [] r a e = λ n. cc
  find_by-ends_well (h ∷ []) r a e = let accepts = a.0 r e in rw accepts (λ n. cc)
  find_by-ends_well (h ∷ g ∷ hs) r a e = elim (Bool-cases (h.can_handle r)) [
    | inl here ↦ rw here (λ n. cc)
    | inr later ↦ rw later (find_by-ends_well (g ∷ hs) r a.1 e)
  ]

  make_orchestrator-parts :
      (hs kept : List (Handler fl))
      → make_orchestrator hs ≡ ok kept
      → (kept ≡ hs) × (ends_well hs ≡ true) × (is_early_terminal hs ≡ false)
  unfolding make_orchestrator
  make_orchestrator-parts hs kept h = ground arith

  -- Behind a constructor that succeeds, whatever the chain, some handler takes every result, so that
  -- `next` does not run out, if the terminal handlers accept everything as they should.
  pub make_orchestrator_dispatches :
      (hs kept : List (Handler fl)) (r : ExtractionResult fl)
      → All IsHandler hs
      → make_orchestrator hs ≡ ok kept
      → find_by (λ h. h.can_handle r) kept ≢ none
  make_orchestrator_dispatches hs kept r a h =
      let (same, last, early) = make_orchestrator-parts hs kept h in
      rw same (find_by-ends_well hs r a last)

  -- The handler that the application's chain takes for a result.
  abbrev pub handler_of : Services fl → ExtractionResult fl → Handler fl
  handler_of env r =
      if same_type r.message_type MessageType.job_posting && is_present r.job
      then job_posting_handler env
      else if same_type r.message_type MessageType.work_goal && is_present r.work_goal
      then work_goal_handler env
      else unknown_handler env

  pub find_by-chain :
      (env : Services fl) (r : ExtractionResult fl)
      → find_by (λ h. h.can_handle r) (chain env) ≡ some (handler_of env r)
  find_by-chain env r = ground arith
