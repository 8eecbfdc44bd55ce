-- ===== src/Pipeline/Handlers/Pursued.antt =====
-- What the handler of earnings goals leaves in the database.
use vici.Base.{
  ℕ, ◌+◌, ◌<◌, ◌≡◌, ◌⊎◌, refl, sym, subst, inl, inr, Bool, true, false, not, Option, none, some,
  List, [], ◌∷◌, ◌++◌, arith, ◌==◌, any_of, elim_or, ltb, ◌&&◌, Option-cases, Bool-cases,
}
use vici.Base.Floats.{Floats, IsOrdered}
use vici.Base.Texts.{lit}
use vici.Money.{dollars_to_cents}
use vici.Datetimes.{coerce_llm_datetime}
use vici.WorkGoals.{WorkGoal}
use vici.WorkGoals.Create.{
  WorkGoalCreate, is_work_goal_create, work_goal_create, work_goal_row, create_work_goal,
}
use vici.Extraction.{WorkGoalExtraction}
use vici.Store.{
  AuditEvent, AuditLog, Db, Result, ok, err, Action, and_then, pure, persist_work_goal,
  persist_audit_log, has_message, int_max,
}
use vici.Sms.Repository.{audit}
use vici.Matches.Models.{JobCandidate, MatchResult}
use vici.Matches.Formatter.{format_match_sms}
use vici.Matches.Service.{match_goal, build_candidates, retrieve_candidates}
use vici.Matches.Service.Outcome.{IsMatched, HaveDurations, Matches, match_goal-Matches}
use vici.Pipeline.Context.{Services, with_id, send_match_reply, PipelineContext, run_after_commit}
use vici.Pipeline.Handlers.{llm_value, work_goal_fields, handle_work_goal}

abbrev is_err : {A : Type 0} → Result A → Bool
is_err (ok a) = false
is_err (err e) = true

positive : (g : WorkGoalCreate) → is_work_goal_create g ≡ true → (g.target_earnings == 0) ≡ false
unfolding is_work_goal_create
positive g h = ground arith

is_pursuable_goal : (g : WorkGoalCreate) → is_work_goal_create g ≡ true → 0 < g.target_earnings
unfolding is_work_goal_create
is_pursuable_goal g h = ground arith

module _ {fl : Floats} where
  -- What pydantic checks.
  abbrev pub pursued_fields :
      Services fl → PipelineContext fl → WorkGoalExtraction fl → ℕ → WorkGoalCreate
  pursued_fields env ctx extracted cents =
      record (work_goal_fields ctx.message_id extracted cents) {
        target_deadline =
            coerce_llm_datetime env.fromisoformat (llm_value extracted.target_deadline);
      }

  -- The row of a goal that goes through.
  abbrev pub pursued_goal :
      Services fl → PipelineContext fl → WorkGoalExtraction fl → ℕ → Db fl → WorkGoal
  pursued_goal env ctx extracted cents db =
      record (work_goal_row env.now (pursued_fields env ctx extracted cents)) { id = db.next_id }

  -- Whether the fields are within their bounds, and the goal in cents within its column.
  abbrev pub is_goal_storable : Services fl → PipelineContext fl → WorkGoalExtraction fl → ℕ → Bool
  is_goal_storable env ctx extracted cents =
      is_work_goal_create (pursued_fields env ctx extracted cents) && not (ltb int_max cents)

  -- Whether a goal is stored: it is finite in cents, its fields are storable, the message is stored,
  -- and no goal has been made of it.
  abbrev pub is_pursuable : Services fl → PipelineContext fl → Db fl → Bool
  is_pursuable env ctx db =
      elim_or false
        (λ extracted.
          elim_or false (is_goal_storable env ctx extracted)
            (dollars_to_cents fl extracted.target_earnings))
        ctx.result.work_goal
      && (not (any_of (λ other. other.message_id == ctx.message_id) db.work_goals)
          && has_message ctx.message_id db)

  -- The database that is matched: one goal and one audit row more.
  abbrev pub with_goal :
      Services fl → PipelineContext fl → WorkGoalExtraction fl → ℕ → Db fl → Db fl
  with_goal env ctx extracted cents db =
      let row : AuditLog = record {
        id = db.next_id + 1;
        message_sid = ctx.message_sid;
        message_id = some ctx.message_id;
        event = AuditEvent.work_goal_created;
        detail = some (env.dumps (with_id (lit "work_goal_id") db.next_id));
        created_at = env.now;
      } in
      record db {
        work_goals = db.work_goals ++ pursued_goal env ctx extracted cents db ∷ [];
        audit_log = db.audit_log ++ row ∷ [];
        next_id = db.next_id + 1 + 1;
      }

  -- The candidates that are built for the stored goal; `none` where the pay of one is infinite.
  abbrev pub built_for :
      Services fl
      → PipelineContext fl
      → WorkGoalExtraction fl
      → ℕ
      → Db fl
      → Option (List (JobCandidate fl))
  built_for env ctx extracted cents db =
      let stored = with_goal env ctx extracted cents db in
      build_candidates
        (retrieve_candidates env.searcher (pursued_goal env ctx extracted cents db)
          (some ctx.sms_text) stored)
        stored

  -- The goal is stored and matched, and its reply goes to the sender.
  pub record IsPursued (env : Services fl) (ctx ctx' : PipelineContext fl) (db db' : Db fl)
      : Type 0 where
    pub extracted : WorkGoalExtraction fl
    pub present : ctx.result.work_goal ≡ some extracted
    pub cents : ℕ
    pub in_cents : dollars_to_cents fl extracted.target_earnings ≡ some cents
    pub pursuable : is_pursuable env ctx db ≡ true
    pub candidates : List (JobCandidate fl)
    pub built : built_for env ctx extracted cents db ≡ some candidates
    pub result : MatchResult fl
    pub matched :
        IsMatched
          (pursued_goal env ctx extracted cents db)
          candidates
          (with_goal env ctx extracted cents db)
          result
          db'
    pub registered :
        ctx' ≡ run_after_commit ctx (send_match_reply ctx.from_number (format_match_sms fl result))

  -- The goal could be stored, but the pay of a job that is retrieved for it is infinite.
  pub record IsInfinite (env : Services fl) (ctx : PipelineContext fl) (db : Db fl) : Type 0 where
    pub extracted : WorkGoalExtraction fl
    pub present : ctx.result.work_goal ≡ some extracted
    pub cents : ℕ
    pub in_cents : dollars_to_cents fl extracted.target_earnings ≡ some cents
    pub pursuable : is_pursuable env ctx db ≡ true
    pub infinite : built_for env ctx extracted cents db ≡ none

  abbrev pub Pursues :
      Services fl → PipelineContext fl → Db fl → Result (PipelineContext fl) × Db fl → Type 0
  Pursues env ctx db (ok ctx', db') = IsPursued env ctx ctx' db db'
  Pursues env ctx db (err e, db') = (is_pursuable env ctx db ≡ false) ⊎ IsInfinite env ctx db

  -- The end of the handler.
  abbrev replied : PipelineContext fl → MatchResult fl → Action fl (PipelineContext fl)
  replied ctx r =
      pure (run_after_commit ctx (send_match_reply ctx.from_number (format_match_sms fl r)))

  refused-Pursues :
      (env : Services fl) (ctx : PipelineContext fl) (db : Db fl)
      → is_pursuable env ctx db ≡ false
      → is_err (handle_work_goal env ctx db).0 ≡ true
  unfolding handle_work_goal work_goal_create create_work_goal persist_work_goal audit
      persist_audit_log
  refused-Pursues env ctx db h = elim (Option-cases ctx.result.work_goal) [
    | inl missing ↦ rw missing refl
    | inr (extracted, e) ↦ elim (Option-cases (dollars_to_cents fl extracted.target_earnings)) [
      | inl infinite ↦ rw (e, infinite) refl
      | inr (cents, finite) ↦ ground arith
    ]
  ]

  handle_work_goal-eq :
      (env : Services fl) (ctx : PipelineContext fl) (db : Db fl)
      (extracted : WorkGoalExtraction fl) (cents : ℕ)
      → ctx.result.work_goal ≡ some extracted
      → dollars_to_cents fl extracted.target_earnings ≡ some cents
      → is_pursuable env ctx db ≡ true
      → handle_work_goal env ctx db
        ≡ and_then
            (match_goal env.now env.searcher
              (pursued_goal env ctx extracted cents db)
              (some ctx.sms_text)
              (with_goal env ctx extracted cents db))
            (replied ctx)
  unfolding handle_work_goal work_goal_create create_work_goal persist_work_goal audit
      persist_audit_log
  handle_work_goal-eq env ctx db extracted cents e finite h =
      let p = positive (pursued_fields env ctx extracted cents) in ground (arith, p)

  from_err :
      (env : Services fl) (ctx : PipelineContext fl) (db : Db fl)
      (s : Result (PipelineContext fl) × Db fl)
      → is_err s.0 ≡ true
      → is_pursuable env ctx db ≡ false
      → Pursues env ctx db s
  from_err env ctx db (ok ctx', db') e h = cc
  from_err env ctx db (err x, db') e h = inl h

  created :
      (env : Services fl) (ctx : PipelineContext fl) (db : Db fl)
      (extracted : WorkGoalExtraction fl) (cents : ℕ)
      → ctx.result.work_goal ≡ some extracted
      → dollars_to_cents fl extracted.target_earnings ≡ some cents
      → is_pursuable env ctx db ≡ true
      → is_work_goal_create (pursued_fields env ctx extracted cents) ≡ true
  created env ctx db extracted cents e finite h = ground arith

  storable :
      (env : Services fl) (ctx : PipelineContext fl) (db : Db fl)
      → is_pursuable env ctx db ≡ true
      → (extracted : WorkGoalExtraction fl) × (cents : ℕ) × (ctx.result.work_goal ≡ some extracted)
        × (dollars_to_cents fl extracted.target_earnings ≡ some cents)
  storable env ctx db h = elim (Option-cases ctx.result.work_goal) [
    | inl missing ↦ absurd (ground arith)
    | inr (extracted, e) ↦ elim (Option-cases (dollars_to_cents fl extracted.target_earnings)) [
      | inl infinite ↦ absurd (ground arith)
      | inr (cents, finite) ↦ (extracted, cents, e, finite)
    ]
  ]

  replied-Pursues :
      (env : Services fl) (ctx : PipelineContext fl) (db : Db fl)
      (extracted : WorkGoalExtraction fl) (cents : ℕ)
      → ctx.result.work_goal ≡ some extracted
      → dollars_to_cents fl extracted.target_earnings ≡ some cents
      → is_pursuable env ctx db ≡ true
      → (s : Result (MatchResult fl) × Db fl)
      → Matches
          (pursued_goal env ctx extracted cents db)
          (built_for env ctx extracted cents db)
          (with_goal env ctx extracted cents db)
          s
      → Pursues env ctx db (and_then s (replied ctx))
  replied-Pursues env ctx db extracted cents e finite h s m =
      elim (Option-cases (built_for env ctx extracted cents db)) [
        | inl none_built ↦
            let (_, raised) = subst (matches s) none_built m in
            rw raised (
              inr (record {
                extracted = extracted;
                present = e;
                cents = cents;
                in_cents = finite;
                pursuable = h;
                infinite = none_built;
              }))
        | inr (cs, built) ↦
            let (r, same, matched) = subst (matches s) built m in
            subst (λ x. Pursues env ctx db (and_then (x, s.1) (replied ctx))) (sym same)
              (record {
                extracted = extracted;
                present = e;
                cents = cents;
                in_cents = finite;
                pursuable = h;
                candidates = cs;
                built = built;
                result = r;
                matched = matched;
                registered = refl;
              })
      ]
    where
      matches : Result (MatchResult fl) × Db fl → Option (List (JobCandidate fl)) → Type 0
      matches s built =
          Matches (pursued_goal env ctx extracted cents db) built
            (with_goal env ctx extracted cents db) s

  pub handle_work_goal-Pursues :
      IsOrdered fl
      → (env : Services fl) (ctx : PipelineContext fl) (db : Db fl) → HaveDurations db
      → Pursues env ctx db (handle_work_goal env ctx db)
  handle_work_goal-Pursues o env ctx db hours = elim (Bool-cases (is_pursuable env ctx db)) [
    | inr out ↦
        from_err env ctx db (handle_work_goal env ctx db) (refused-Pursues env ctx db out) out
    | inl through ↦
        let (extracted, cents, e, finite) = storable env ctx db through in
        let goal = pursued_goal env ctx extracted cents db in
        let start = with_goal env ctx extracted cents db in
        subst (Pursues env ctx db)
          (sym (handle_work_goal-eq env ctx db extracted cents e finite through))
          (replied-Pursues env ctx db extracted cents e finite through
            (match_goal env.now env.searcher goal (some ctx.sms_text) start)
            (match_goal-Matches o env.now env.searcher goal (some ctx.sms_text) start
              (is_pursuable_goal (pursued_fields env ctx extracted cents)
                (created env ctx db extracted cents e finite through))
              hours))
  ]
