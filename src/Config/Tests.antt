-- ===== src/Config/Tests.antt =====
-- The start-up check of settings without a webhook address.
use vici.Base.{◌≡◌, ◌↔◌, true, false, ◌∈◌}
use vici.Base.Texts.{lit}
use vici.Config.{Settings, Credential, validate_required_credentials}
use vici.Config.Required.{is_missing, mem-validate_required_credentials}

abbrev without_base_url : Settings
without_base_url = record {
  database_url = lit "postgresql://db/vici";
  webhook_base_url = lit "";
  env = lit "production";
  sms = record {
    auth_token = lit "token";
    account_sid = lit "AC1";
    from_number = lit "+15550100";
    rate_limit_max = 5;
    rate_limit_window_seconds = 60;
    phone_hash_pepper = lit "";
    disable_twilio_signature_validation = false;
  };
  extraction = record { openai_api_key = lit "key"; gpt_model = lit "model" };
  pinecone = record { api_key = lit "key"; index_host = lit "host" };
  observability = record {
    braintrust_api_key = lit "";
    otel_endpoint = lit "";
    otel_service_name = lit "vici";
    service_version = lit "1";
  };
  temporal = record {
    address = lit "temporal:7233";
    task_queue = lit "vici";
    cron_schedule_pinecone_sync = lit "*/5 * * * *";
  };
}

mem-validate_required_credentials_example :
    (Credential.phone_hash_pepper ∈ validate_required_credentials without_base_url)
    ↔ (is_missing without_base_url Credential.phone_hash_pepper ≡ true)
mem-validate_required_credentials_example =
    mem-validate_required_credentials without_base_url Credential.phone_hash_pepper
