-- ===== src/Temporal/Safe.antt =====
-- What every unit of work keeps of the messages: none is lost.
use vici.Base.{◌≡◌, refl, ap, ◌∙◌, Bool, true, List, [], ◌∷◌, arith, All, any_of, update_where}
use vici.Base.Floats.{Floats, IsOrdered}
use vici.Base.Texts.{Text, same}
use vici.Store.{MessageType, Message, Db, has_sid}
use vici.Pipeline.Context.{Services, PipelineContext}
use vici.Pipeline.Orchestrator.Units.{kind_of, audited, classified, IsHandledAs, IsUnit}
use vici.Temporal.Audited.{IsSound, unit-IsSound}

module _ {fl : Floats} where
  -- A sound database that holds messages of the given sids.
  abbrev pub IsSafe : List Text → Db fl → Type 0
  IsSafe sids db = IsSound db × All (λ sid. has_sid sid db ≡ true) sids

  has_sid-classified :
      (env : Services fl) (ctx : PipelineContext fl) (t : MessageType) (p : Message → Bool)
      (sid : Text) (ms : List Message)
      → any_of (λ m. same m.message_sid sid) (update_where p (classified env ctx t) ms)
        ≡ any_of (λ m. same m.message_sid sid) ms
  has_sid-classified env ctx t p sid [] = refl
  has_sid-classified env ctx t p sid (m ∷ ms) =
      ground (arith, has_sid-classified env ctx t p sid ms)

  handled_messages :
      (t : MessageType) (env : Services fl) (ctx ctx' : PipelineContext fl) (db db2 : Db fl)
      → IsHandledAs t env ctx ctx' (audited env ctx db) db2
      → db2.messages ≡ db.messages
  handled_messages MessageType.job_posting env ctx ctx' db db2 p = ap (λ d. d.messages) p.after
  handled_messages MessageType.work_goal env ctx ctx' db db2 p =
      ap (λ d. d.messages) p.matched.persisted.others
  handled_messages MessageType.unknown env ctx ctx' db db2 p = ap (λ d. d.messages) p.1

  has_sid-unit :
      (env : Services fl) (ctx ctx' : PipelineContext fl) (db db' : Db fl)
      → IsUnit env ctx ctx' db db'
      → (sid : Text) → has_sid sid db' ≡ has_sid sid db
  has_sid-unit env ctx ctx' db db' u sid =
      ap (has_sid sid) u.after
      ∙ has_sid-classified env ctx (kind_of ctx.result) _ sid u.handled_db.messages
      ∙ ap (any_of (λ m. same m.message_sid sid))
          (handled_messages (kind_of ctx.result) env ctx ctx' db u.handled_db u.handled)

  pub All-has_sid :
      (db db' : Db fl) (sids : List Text)
      → ((sid : Text) → has_sid sid db ≡ true → has_sid sid db' ≡ true)
      → All (λ sid. has_sid sid db ≡ true) sids
      → All (λ sid. has_sid sid db' ≡ true) sids
  All-has_sid db db' [] f h = tt
  All-has_sid db db' (sid ∷ sids) f h = (f sid h.0, All-has_sid db db' sids f h.1)

  pub unit-IsSafe :
      (sids : List Text)
      → IsOrdered fl
      → (env : Services fl) (ctx ctx' : PipelineContext fl) (db db' : Db fl)
      → IsUnit env ctx ctx' db db'
      → IsSafe sids db
      → IsSafe sids db'
  unit-IsSafe sids o env ctx ctx' db db' u s = (
    unit-IsSound o env ctx ctx' db db' u s.0,
    All-has_sid db db' sids (λ sid h. has_sid-unit env ctx ctx' db db' u sid ∙ h) s.1,
  )
