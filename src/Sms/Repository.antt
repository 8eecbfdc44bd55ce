-- ===== src/Sms/Repository.antt =====
-- src/sms/repository.py, src/sms/audit_repository.py and src/users/repository.py.
use vici.Base.{
  ℕ, ◌+◌, ◌-◌, ◌*◌, Bool, ◌&&◌, Option, none, some, [], ◌∷◌, ◌++◌, ltb, leb, ◌==◌, if◌then◌else◌,
  any_of, count_if, find_by, update_where, keep_if, not,
}
use vici.Base.Floats.{Floats}
use vici.Base.Texts.{Text, same}
use vici.Store.{
  User, Message, MessageType, RateLimit, AuditEvent, Db, Action, duplicate_message_sid,
  rate_limit_exceeded, assertion_error, pure, raise_if, gets, modify, or_raise, ◌>>=◌, ◌>>◌,
  has_sid, persist_message, insert_rate_limit, persist_audit_log,
}

-- Microseconds.
abbrev pub second : ℕ
second = 1_000_000

-- `SELECT COUNT(*) … WHERE user_id = :user_id AND created_at >= :window`
abbrev pub in_window : ℕ → ℕ → RateLimit → Bool
in_window user_id window r = r.user_id == user_id && leb window r.created_at

abbrev with_hash : Text → User → Bool
with_hash phone_hash u = same u.phone_hash phone_hash

-- `COALESCE(a, b)`
abbrev coalesce : Option Text → Option Text → Option Text
coalesce none b = b
coalesce (some a) b = some a

module _ {fl : Floats} where
  -- `MessageRepository.check_idempotency`
  unfoldable pub check_idempotency : Text → Action fl (Unit {0})
  check_idempotency message_sid = do raise_if (← gets (has_sid message_sid)) duplicate_message_sid

  -- `MessageRepository.enforce_rate_limit`, with the two readings of the clock: the first for the
  -- window, the second for the row.
  unfoldable pub enforce_rate_limit :
      (user_id max_messages window_seconds before now : ℕ) → Action fl ℕ
  enforce_rate_limit user_id max_messages window_seconds before now = do
    let window = before - window_seconds * second
    insert_rate_limit user_id now
    count ← gets (λ db. count_if (in_window user_id window) db.rate_limits)
    raise_if (ltb max_messages count) rate_limit_exceeded
    pure count

  -- `MessageRepository.purge_rate_limit_entries`, and the number of rows deleted.
  unfoldable pub purge_rate_limit_entries : ℕ → Action fl ℕ
  purge_rate_limit_entries older_than = do
    deleted ← gets (λ db. count_if (λ r. ltb r.created_at older_than) db.rate_limits)
    modify λ db. record db {
      rate_limits = keep_if (λ r. not (ltb r.created_at older_than)) db.rate_limits;
    }
    pure deleted

  -- `MessageRepository.create`
  unfoldable pub create : Text → ℕ → Text → ℕ → Action fl Message
  create message_sid user_id body now = persist_message (record {
    id = 0;
    message_sid = message_sid;
    user_id = user_id;
    body = body;
    message_type = none;
    raw_gpt_response = none;
    created_at = now;
  })

  -- `MessageRepository.record_classification`
  unfoldable pub record_classification : ℕ → MessageType → Option Text → Action fl (Unit {0})
  record_classification message_id message_type raw_gpt_response = modify λ db. record db {
    messages =
        update_where (λ m. m.id == message_id)
          (λ m. record m { message_type = some message_type; raw_gpt_response = raw_gpt_response })
          db.messages;
  }

  -- `AuditLogRepository.write`
  unfoldable pub audit : Text → AuditEvent → Option Text → Option ℕ → ℕ → Action fl (Unit {0})
  audit message_sid event detail message_id now = persist_audit_log (record {
    id = 0;
    message_sid = message_sid;
    message_id = message_id;
    event = event;
    detail = detail;
    created_at = now;
  })

  insert_user : Text → Option Text → ℕ → Db fl → Db fl
  insert_user phone_hash phone_e164 now db =
      let row : User = record {
        id = db.next_id;
        phone_hash = phone_hash;
        phone_e164 = phone_e164;
        created_at = now;
      } in
      record db { users = db.users ++ row ∷ []; next_id = db.next_id + 1 }

  backfill_user : Text → Option Text → Db fl → Db fl
  backfill_user phone_hash phone_e164 db = record db {
    users =
        update_where (with_hash phone_hash)
          (λ u. record u { phone_e164 = coalesce u.phone_e164 phone_e164 }) db.users;
  }

  -- `UserRepository.get_or_create`: the INSERT with its ON CONFLICT clause, and the row returned.
  unfoldable pub get_or_create : Text → Option Text → ℕ → Action fl User
  unfolding insert_user backfill_user
  get_or_create phone_hash phone_e164 now = do
    known ← gets (λ db. any_of (with_hash phone_hash) db.users)
    modify (
        if known
        then backfill_user phone_hash phone_e164
        else insert_user phone_hash phone_e164 now)
    row ← gets (λ db. find_by (with_hash phone_hash) db.users)
    or_raise row assertion_error
