-- ===== src/Sms/Webhook/Samples.antt =====
-- Small requests, and what they meet.
use vici.Base.{◌*◌, true, false, some, [], ◌∷◌, ◌++◌}
use vici.Base.Texts.{Text, lit, same}
use vici.Config.{Settings, SmsSettings}
use vici.Sms.Repository.{second}
use vici.Sms.Payload.{TwilioWebhookPayload, Request, Twilio, str}
use vici.Sms.Webhook.{Env}

abbrev pub limits : SmsSettings
limits = record {
  auth_token = lit "token";
  account_sid = lit "AC1";
  from_number = lit "+15550100";
  rate_limit_max = 2;
  rate_limit_window_seconds = 60;
  phone_hash_pepper = lit "pepper";
  disable_twilio_signature_validation = false;
}

abbrev settings : Settings
settings = record {
  database_url = lit "postgresql://db/vici";
  webhook_base_url = lit "https://vici.example/";
  env = lit "production";
  sms = limits;
  extraction = record { openai_api_key = lit "key"; gpt_model = lit "model" };
  pinecone = record { api_key = lit "key"; index_host = lit "host" };
  observability = record {
    braintrust_api_key = lit "";
    otel_endpoint = lit "";
    otel_service_name = lit "vici";
    service_version = lit "1";
  };
  temporal = record {
    address = lit "temporal:7233";
    task_queue = lit "vici";
    cron_schedule_pinecone_sync = lit "*/5 * * * *";
  };
}

-- A validator that knows one signature, of one address.
abbrev twilio : Twilio
twilio = record {
  validate =
      λ url form signature. same (url ++ signature) (lit "https://vici.example/webhook/smssigned");
  urlsplit = λ url. (lit "https", lit "vici.example");
}

abbrev pub up : Env
up = record {
  settings = settings;
  twilio = twilio;
  hmac = λ number. lit "hash of " ++ number;
  dumps = λ fields. [];
  before = 100 * second;
  now = 101 * second;
  temporal_accepts = true;
}

abbrev pub down : Env
down = record up { temporal_accepts = false }

abbrev pub text_of : Text → Request
text_of sid = record {
  form =
      (lit "MessageSid", str sid)
      ∷ (lit "From", str (lit "+15550102"))
      ∷ (lit "Body", str (lit "Earn 60 dollars"))
      ∷ (lit "AccountSid", str (lit "AC1"))
      ∷ [];
  path = lit "/webhook/sms";
  query = lit "";
  signature = some (lit "signed");
}

abbrev pub payload_of : Text → TwilioWebhookPayload
payload_of sid = record {
  message_sid = sid;
  from = lit "+15550102";
  body = lit "Earn 60 dollars";
  account_sid = lit "AC1";
  extra = [];
}
