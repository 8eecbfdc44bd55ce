-- ===== src/Pipeline/Orchestrator/Replies.antt =====
-- The texts that a run sends.
use vici.Base.{◌≡◌, refl, sym, ap, subst, ◌∙◌, Bool, not, [], ◌∷◌, ◌++◌, arith, ◌&&◌, if◌then◌else◌}
use vici.Base.Floats.{Floats, IsOrdered}
use vici.Base.Texts.{Text, is_blank}
use vici.Extraction.{ExtractionResult}
use vici.Store.{MessageType, Db, ok}
use vici.Sms.Phones.{hash_phone}
use vici.Matches.Formatter.{format_match_sms}
use vici.Matches.Service.Outcome.{HaveDurations}
use vici.Pipeline.Context.{
  Sms, Services, World, PipelineContext, unknown_reply_text, send_sms, queue_embedding, run_action,
  run_actions,
}
use vici.Pipeline.Handlers.Pursued.{IsPursued}
use vici.Pipeline.Orchestrator.{RunArgs, chain, context_of, run}
use vici.Pipeline.Orchestrator.Units.{kind_of, IsHandledAs, audited}
use vici.Pipeline.Orchestrator.Done.{run-IsDone}

module _ {fl : Floats} where
  -- The text to the sender, and whether it goes out.
  abbrev reply : Services fl → RunArgs → Text → Sms
  reply env args body = record { to = args.from_number; from_number = env.from_number; body = body }

  abbrev is_delivered : Services fl → Sms → Bool
  is_delivered env sms = not (is_blank sms.to) && env.twilio_accepts sms

  -- One text to the sender if it can be delivered, and none otherwise.
  abbrev Sends : Services fl → RunArgs → Text → World fl → World fl → Type 0
  Sends env args body w w' = w'.sent ≡ (
      if is_delivered env (reply env args body) then w.sent ++ reply env args body ∷ [] else w.sent)

  -- The goal of the run is stored and matched with the candidates built for it, and the text is made
  -- of the result of that match.
  pub record IsReplied (env : Services fl) (args : RunArgs) (result : ExtractionResult fl)
      (w w' : World fl) : Type 0 where
    pub ctx' : PipelineContext fl
    pub db' : Db fl
    pub pursued :
        IsPursued env (context_of args result) ctx' (audited env (context_of args result) w.db) db'
    pub stored : w'.db.work_goals ≡ db'.work_goals
    pub matches : w'.db.matches ≡ db'.matches
    pub sends : Sends env args (format_match_sms fl pursued.result) w w'

  -- What is sent, by the kind of the message.
  abbrev pub SendsAs :
      MessageType → Services fl → RunArgs → ExtractionResult fl → World fl → World fl → Type 0
  SendsAs MessageType.job_posting env args result w w' = w'.sent ≡ w.sent
  SendsAs MessageType.work_goal env args result w w' = IsReplied env args result w w'
  SendsAs MessageType.unknown env args result w w' = Sends env args unknown_reply_text w w'

  send_sms-Sends :
      (env : Services fl) (args : RunArgs) (body : Text) (w : World fl)
      → Sends env args body w (send_sms env args.from_number body w).1
  unfolding send_sms hash_phone
  send_sms-Sends env args body w = ground arith

  send_sms-db :
      (env : Services fl) (to body : Text) (w : World fl) → (send_sms env to body w).1.db ≡ w.db
  unfolding send_sms hash_phone
  send_sms-db env to body w = ground arith

  Sends-from :
      (env : Services fl) (args : RunArgs) (body : Text) (w w1 w2 : World fl)
      → w1.sent ≡ w.sent
      → Sends env args body w1 w2
      → Sends env args body w w2
  Sends-from env args body w w1 w2 same s = rw (← same) s

  upsert_sent :
      (env : Services fl) (v : vici.Extraction.Search.Vector) (w : World fl)
      → (run_action env (vici.Pipeline.Context.PostCommitAction.upsert_embedding v) w).sent ≡ w.sent
  unfolding run_action queue_embedding
  upsert_sent env v w = ground arith

  sent-SendsAs :
      (env : Services fl) (args : RunArgs) (result : ExtractionResult fl) (w c : World fl)
      (ctx' : PipelineContext fl) (db2 : Db fl)
      → c.sent ≡ w.sent
      → (c.db.work_goals ≡ db2.work_goals) × (c.db.matches ≡ db2.matches)
      → (t : MessageType)
      → IsHandledAs t env
          (context_of args result)
          ctx'
          (audited env (context_of args result) w.db)
          db2
      → SendsAs t env args result w (run_actions env ctx'.post_commit_actions c)
  unfolding run_actions run_action send_sms hash_phone
  sent-SendsAs env args result w c ctx' db2 same rows MessageType.job_posting p =
      rw p.registered (upsert_sent env _ c ∙ same)
  sent-SendsAs env args result w c ctx' db2 same rows MessageType.work_goal p =
      let body = format_match_sms fl p.result in
      let w' = (send_sms env args.from_number body c).1 in
      let kept = send_sms-db env args.from_number body c in
      let ran : run_actions env ctx'.post_commit_actions c ≡ w' = rw p.registered refl in
      subst (IsReplied env args result w) (sym ran) (record {
        ctx' = ctx';
        db' = db2;
        pursued = p;
        stored = ap (λ d. d.work_goals) kept ∙ rows.0;
        matches = ap (λ d. d.matches) kept ∙ rows.1;
        sends = Sends-from env args body w c w' same (send_sms-Sends env args body c);
      })
  sent-SendsAs env args result w c ctx' db2 same rows MessageType.unknown p = rw p.0 (
      Sends-from env args unknown_reply_text w c
        (send_sms env args.from_number unknown_reply_text c).1 same
        (send_sms-Sends env args unknown_reply_text c))

  -- A run that returns sends at most one text, and only to the number that the message came from: for
  -- a job posting none; for a goal the formatted result of the match of the goal that this run
  -- stored, with the candidates retrieved for it, whose pairs it wrote; and for any other message the
  -- fixed explanation. It sends it unless the number is empty or Twilio refuses.
  -- (The durations of the jobs are not negative.)
  pub run-SendsAs :
      IsOrdered fl
      → (env : Services fl) (args : RunArgs) (w : World fl) (result : ExtractionResult fl)
      → HaveDurations w.db
      → (run env (chain env) args w).0 ≡ ok result
      → SendsAs (kind_of result) env args result w (run env (chain env) args w).1
  run-SendsAs o env args w result hours h =
      let d = run-IsDone o env args w result hours h in
      subst (SendsAs (kind_of result) env args result w) (sym d.after) (
        sent-SendsAs env args result w d.committed d.ctx' d.work.handled_db d.sent
          (ap (λ x. x.work_goals) d.work.after, ap (λ x. x.matches) d.work.after) (kind_of result)
          d.work.handled)
