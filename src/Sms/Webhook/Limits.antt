-- ===== src/Sms/Webhook/Limits.antt =====
-- The rolling window of the rate limit.
use vici.Base.{
  ℕ, ◌-◌, ◌*◌, ◌≤◌, ◌≡◌, refl, sym, subst, inl, inr, Bool, true, not, ◌&&◌, List, [], ◌∷◌, ltb, leb,
  ◌==◌, arith, count_if, count_if-append, keep_if, Bool-cases,
}
use native.Mathlib.Nat.{le_trans}
use vici.Base.Floats.{Floats}
use vici.Config.{SmsSettings}
use vici.Store.{RateLimit, Db, Result, ok, err, Action, and_then, ◌>>=◌}
use vici.Sms.Repository.{second, in_window, purge_rate_limit_entries}
use vici.Sms.Payload.{TwilioWebhookPayload, Request, validate_twilio_request}
use vici.Sms.Webhook.{
  InboundSms, Env, returned, check_idempotency_gate, get_or_create_user, enforce_rate_limit_gate,
  gates_after, gates, store_message, start_workflow, route, receive_sms,
}
use vici.Sms.Webhook.Effects.{
  Stores, Admits, new_row, check_idempotency_gate-Same, get_or_create_user-Same,
  enforce_rate_limit_gate-rate_limits, store_message-Stores,
}

-- The rows of a user that were created from `start` to `stop`.
abbrev in_span : ℕ → ℕ → ℕ → RateLimit → Bool
in_span user_id start stop r =
    r.user_id == user_id && (leb start r.created_at && leb r.created_at stop)

-- In every window of the given length, whenever it ends, every user has at most `most` rows.
abbrev IsLimited : ℕ → ℕ → List RateLimit → Type 0
IsLimited most seconds rows =
    (user_id stop : ℕ) → count_if (in_span user_id (stop - seconds * second) stop) rows ≤ most

-- A span is part of any window that starts no later.
count-in_span-le :
    (user_id start stop window : ℕ) (rows : List RateLimit)
    → window ≤ start
    → count_if (in_span user_id start stop) rows ≤ count_if (in_window user_id window) rows
count-in_span-le user_id start stop window [] h = omega arith
count-in_span-le user_id start stop window (r ∷ rows) h =
    ground (arith, count-in_span-le user_id start stop window rows h)

in_span-parts :
    (user_id start stop : ℕ) (r : RateLimit)
    → in_span user_id start stop r ≡ true
    → (r.user_id ≡ user_id) × (r.created_at ≤ stop)
in_span-parts user_id start stop r h = ground arith

-- Deleting rows keeps every window within the limit.
count-keep_if-le :
    (p q : RateLimit → Bool) (rows : List RateLimit) → count_if p (keep_if q rows) ≤ count_if p rows
count-keep_if-le p q [] = omega arith
count-keep_if-le p q (r ∷ rows) = ground (arith, count-keep_if-le p q rows)

-- The limit of the settings holds.
abbrev pub IsWithin : SmsSettings → List RateLimit → Type 0
IsWithin sms = IsLimited sms.rate_limit_max sms.rate_limit_window_seconds

module _ {fl : Floats} where
  Admits-IsLimited :
      (env : Env) (user_id : ℕ) (db db' : Db fl)
      → env.before ≤ env.now
      → Admits env user_id db db'
      → IsWithin env.settings.sms db.rate_limits
      → IsWithin env.settings.sms db'.rate_limits
  Admits-IsLimited env user_id db db' clock a h user stop =
      let seconds = env.settings.sms.rate_limit_window_seconds in
      let row = new_row env user_id db in
      let within = in_span user (stop - seconds * second) stop in
      elim (Bool-cases (within row)) [
        | inl counted ↦
            let (own, late) = in_span-parts user (stop - seconds * second) stop row counted in
            rw (← own) (
              le_trans
                (count-in_span-le user_id (stop - seconds * second) stop
                  (env.before - seconds * second) db'.rate_limits (omega arith))
                a.1)
        | inr out ↦
            rw (a.0, count_if-append within db.rate_limits (row ∷ []), out)
              (omega (arith, h user stop))
      ]

  and_then-IsLimited :
      {A B : Type 0} (most seconds : ℕ) (r : Result A × Db fl) (f : A → Action fl B)
      → IsLimited most seconds r.1.rate_limits
      → ((a : A) (db : Db fl)
          → IsLimited most seconds db.rate_limits
          → IsLimited most seconds (f a db).1.rate_limits)
      → IsLimited most seconds (and_then r f).1.rate_limits
  and_then-IsLimited most seconds (ok a, db) f h k = k a db h
  and_then-IsLimited most seconds (err e, db) f h k = h

  module _ (env : Env) (clock : env.before ≤ env.now) where
    enforce_rate_limit_gate-IsWithin :
        (m : InboundSms) (db : Db fl)
        → IsWithin env.settings.sms db.rate_limits
        → IsWithin env.settings.sms (enforce_rate_limit_gate env m db).1.rate_limits
    enforce_rate_limit_gate-IsWithin m db h = elim (enforce_rate_limit_gate-rate_limits env m db) [
      | inl same ↦ rw same h
      | inr a ↦ Admits-IsLimited env m.sender.id db (enforce_rate_limit_gate env m db).1 clock a h
    ]

    gates_after-IsWithin :
        (p : TwilioWebhookPayload) (db : Db fl)
        → IsWithin env.settings.sms db.rate_limits
        → IsWithin env.settings.sms (gates_after env p db).1.rate_limits
    unfolding gates_after
    gates_after-IsWithin p db h =
        and_then-IsLimited env.settings.sms.rate_limit_max
          env.settings.sms.rate_limit_window_seconds (check_idempotency_gate env p db)
          (λ fresh. get_or_create_user env fresh >>= enforce_rate_limit_gate env)
          (rw (check_idempotency_gate-Same env p db).rate_limits h)
          (λ fresh db1 h1.
            and_then-IsLimited env.settings.sms.rate_limit_max
              env.settings.sms.rate_limit_window_seconds (get_or_create_user env fresh db1)
              (enforce_rate_limit_gate env)
              (rw (get_or_create_user-Same env fresh db1).rate_limits h1)
              enforce_rate_limit_gate-IsWithin)

    route-IsWithin :
        (r : Result InboundSms × Db fl)
        → IsWithin env.settings.sms r.1.rate_limits
        → IsWithin env.settings.sms (route env r).db.rate_limits
    route-IsWithin (err e, db) h = h
    route-IsWithin (ok m, db) h = go (store_message env m db) (store_message-Stores env m db)
      where
        go :
            (s : Result (Unit {0}) × Db fl)
            → Stores env m db s
            → IsWithin env.settings.sms (start_workflow env m s).db.rate_limits
        go (err e, db2) p = rw p h
        go (ok u, db2) p = elim (Bool-cases env.temporal_accepts) [
          | inl up ↦ simp (up, p.rate_limits) h
          | inr down ↦ simp (down, p.rate_limits) h
        ]

    receive_sms-IsWithin :
        (request : Request) (db : Db fl)
        → IsWithin env.settings.sms db.rate_limits
        → IsWithin env.settings.sms (receive_sms env request db).db.rate_limits
    unfolding receive_sms gates
    receive_sms-IsWithin request db h = route-IsWithin (gates env request db) (
        and_then-IsLimited env.settings.sms.rate_limit_max
          env.settings.sms.rate_limit_window_seconds
          (returned env (validate_twilio_request env.twilio env.settings request) db)
          (gates_after env) h gates_after-IsWithin)

  purge-IsLimited :
      (most seconds older_than : ℕ) (db : Db fl)
      → IsLimited most seconds db.rate_limits
      → IsLimited most seconds (purge_rate_limit_entries older_than db).1.rate_limits
  unfolding purge_rate_limit_entries
  purge-IsLimited most seconds older_than db h user stop =
      le_trans (count-keep_if-le _ (λ r. not (ltb r.created_at older_than)) db.rate_limits)
        (h user stop)

  -- What happens to the rate limit's rows: whole requests; the gate of the limit by itself, as of
  -- requests whose transactions alternate; purges; and whatever leaves these rows as they are. The
  -- settings are fixed, and the clock of a request does not run backwards between its two readings.
  -- Two transactions of the gate do not overlap.
  pub data Step (sms : SmsSettings) (db : Db fl) : Db fl → Type 0 where
    request :
        {db' : Db fl} (env : Env) (r : Request)
        → env.before ≤ env.now
        → env.settings.sms ≡ sms
        → db' ≡ (receive_sms env r db).db
        → Step sms db db'
    gate :
        {db' : Db fl} (env : Env) (m : InboundSms)
        → env.before ≤ env.now
        → env.settings.sms ≡ sms
        → db' ≡ (enforce_rate_limit_gate env m db).1
        → Step sms db db'
    purge :
        {db' : Db fl} (older_than : ℕ)
        → db' ≡ (purge_rate_limit_entries older_than db).1
        → Step sms db db'
    elsewhere : {db' : Db fl} → db'.rate_limits ≡ db.rate_limits → Step sms db db'

  pub data Reach (sms : SmsSettings) (db : Db fl) : Db fl → Type 0 where
    here : Reach sms db db
    next : {db' db'' : Db fl} → Reach sms db db' → Step sms db' db'' → Reach sms db db''

  Step-IsWithin :
      (sms : SmsSettings) (db : Db fl) {db' : Db fl}
      → Step sms db db'
      → IsWithin sms db.rate_limits
      → IsWithin sms db'.rate_limits
  Step-IsWithin sms db (request env r clock e out) h = rw out (
      subst (λ s. IsWithin s (receive_sms env r db).db.rate_limits) e
        (receive_sms-IsWithin env clock r db (subst (λ s. IsWithin s db.rate_limits) (sym e) h)))
  Step-IsWithin sms db (gate env m clock e out) h = rw out (
      subst (λ s. IsWithin s (enforce_rate_limit_gate env m db).1.rate_limits) e
        (enforce_rate_limit_gate-IsWithin env clock m db
          (subst (λ s. IsWithin s db.rate_limits) (sym e) h)))
  Step-IsWithin sms db (elsewhere same) h = rw same h
  Step-IsWithin sms db (purge older_than out) h =
      rw out (purge-IsLimited sms.rate_limit_max sms.rate_limit_window_seconds older_than db h)

  -- However requests and purges alternate, transaction by transaction, where no two transactions of
  -- the gate that records a message and counts overlap, the settings are fixed, and the clock of a
  -- request does not run backwards between its two readings: in every window of the configured
  -- length, whenever it ends, the table holds at most the configured number of rows of any one user,
  -- if that was so before.
  pub Reach-IsWithin :
      (sms : SmsSettings) (db : Db fl) {db' : Db fl}
      → IsWithin sms db.rate_limits
      → Reach sms db db'
      → IsWithin sms db'.rate_limits
  Reach-IsWithin sms db h here = h
  Reach-IsWithin sms db h (next r st) = Step-IsWithin sms _ st (Reach-IsWithin sms db h r)

-- The rows that a purge deletes are outside every window that is no longer than the retention.
count-purged :
    (user_id window older_than : ℕ) (rows : List RateLimit)
    → older_than ≤ window
    → count_if (in_window user_id window) (keep_if (λ r. not (ltb r.created_at older_than)) rows)
      ≡ count_if (in_window user_id window) rows
count-purged user_id window older_than [] h = refl
count-purged user_id window older_than (r ∷ rows) h =
    ground (arith, count-purged user_id window older_than rows h)

-- src/sms/constants.py
abbrev pub rate_limit_purge_retention : ℕ
rate_limit_purge_retention = 3600 * second

-- A purge at `now`, which deletes what is older than an hour, changes no count of a later request
-- whose window is at most an hour long.
pub purge_keeps_counts :
    {fl : Floats} (user_id window_seconds now before : ℕ) (db : Db fl)
    → window_seconds ≤ 3600
    → now ≤ before
    → count_if
        (in_window user_id (before - window_seconds * second))
        (purge_rate_limit_entries (now - rate_limit_purge_retention) db).1.rate_limits
      ≡ count_if (in_window user_id (before - window_seconds * second)) db.rate_limits
unfolding purge_rate_limit_entries
purge_keeps_counts user_id window_seconds now before db short later =
    count-purged user_id _ _ db.rate_limits (omega arith)
