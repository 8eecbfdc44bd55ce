-- ===== src/Sms/Webhook/Tests.antt =====
-- The theorems of the webhook at small inputs.
use vici.Base.{◌-◌, ◌*◌, ◌≡◌, refl, false, none, some, List, [], ◌∷◌, arith, count_if}
use vici.Base.Floats.{quarters}
use vici.Base.Texts.{lit}
use vici.Samples.{board}
use vici.Store.{Db, has_sid, bad_request}
use vici.Sms.Repository.{second, in_window, purge_rate_limit_entries}
use vici.Sms.Payload.{Request, upload, validate_twilio_request}
use vici.Sms.Webhook.{
  InboundSms, Response, receive_sms, gates, gates_after, check_idempotency_gate, get_or_create_user,
  enforce_rate_limit_gate, store_message,
}
use vici.Sms.Webhook.Samples.{limits, up, down, text_of, payload_of}
use vici.Sms.Webhook.Delivery.{audited_duplicate, receive_sms_seen}
use vici.Sms.Webhook.Runs.{
  Event, run, is_started, AreDistinct, run-AreDistinct, run-stored-is_started,
  refused_start_is_lost,
}
use vici.Sms.Webhook.Limits.{
  IsWithin, here, next, request, purge, Reach-IsWithin, rate_limit_purge_retention,
  purge_keeps_counts,
}

-- A form whose text is a file.
abbrev bad : Request
bad = record (text_of (lit "SM1")) { form = (lit "MessageSid", upload) ∷ [] }

-- A message, its redelivery, and another one.
abbrev deliveries : List Event
deliveries =
    (down, text_of (lit "SM1")) ∷ (up, text_of (lit "SM1")) ∷ (up, text_of (lit "SM2")) ∷ []

run-AreDistinct_example : AreDistinct (run deliveries board).0
run-AreDistinct_example = run-AreDistinct deliveries board

run-stored-is_started_example : is_started (lit "SM11") (run deliveries board).0 ≡ false
run-stored-is_started_example = run-stored-is_started deliveries board (lit "SM11") refl

receive_sms_seen_example : receive_sms up (text_of (lit "SM11")) board ≡ record {
  response = Response.twiml;
  db = audited_duplicate up (payload_of (lit "SM11")) board;
  started = none;
}
unfolding validate_twilio_request
receive_sms_seen_example =
    receive_sms_seen up (text_of (lit "SM11")) board (payload_of (lit "SM11")) refl refl

Reach-IsWithin_example :
    IsWithin limits
      (purge_rate_limit_entries 7 (receive_sms up (text_of (lit "SM1")) board).db).1.rate_limits
Reach-IsWithin_example =
    Reach-IsWithin limits board (λ user stop. omega arith)
      (next (next here (request up (text_of (lit "SM1")) (omega arith) refl refl)) (purge 7 refl))

abbrev two_rows : Db quarters
two_rows = record board {
  rate_limits =
      record { id = 1; user_id = 21; created_at = 5 }
      ∷ record { id = 2; user_id = 21; created_at = 5000 * second }
      ∷ [];
}

purge_keeps_counts_example :
    count_if
      (in_window 21 (5001 * second - 60 * second))
      (purge_rate_limit_entries (5000 * second - rate_limit_purge_retention) two_rows).1.rate_limits
    ≡ count_if (in_window 21 (5001 * second - 60 * second)) two_rows.rate_limits
purge_keeps_counts_example =
    purge_keeps_counts 21 60 (5000 * second) (5001 * second) two_rows (omega arith) (omega arith)

abbrev sender : InboundSms
sender = record {
  payload = payload_of (lit "SM1");
  sender = record {
    id = 40;
    phone_hash = lit "hash of +15550102";
    phone_e164 = some (lit "+15550102");
    created_at = 101 * second;
  };
}

refused_start_is_lost_example :
    ((receive_sms down (text_of (lit "SM1")) board).response ≡ Response.status_500)
    × ((receive_sms down (text_of (lit "SM1")) board).started ≡ none)
    × (is_started (lit "SM1") (run deliveries (receive_sms down (text_of (lit "SM1")) board).db).0
        ≡ false)
unfolding validate_twilio_request gates gates_after check_idempotency_gate get_or_create_user
    enforce_rate_limit_gate store_message vici.Store.transaction
    vici.Sms.Repository.check_idempotency vici.Sms.Phones.hash_phone
    vici.Sms.Repository.get_or_create vici.Sms.Repository.enforce_rate_limit
    vici.Store.insert_rate_limit vici.Sms.Repository.create vici.Store.persist_message
    vici.Sms.Repository.audit vici.Store.persist_audit_log
refused_start_is_lost_example =
    refused_start_is_lost down (text_of (lit "SM1")) board sender
      (gates down (text_of (lit "SM1")) board).1
      (store_message down sender (gates down (text_of (lit "SM1")) board).1).1 deliveries refl refl
      refl
