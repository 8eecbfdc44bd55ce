-- ===== src/Config/Load.antt =====
-- src/config.py: the settings read from the environment, and `get_settings`.
use vici.Base.{
  ℕ, ◌≡◌, ◌&&◌, arith, Bool, true, false, not, ◌||◌, List, [], ◌∷◌, Option, none, some, elim_or,
  ◌>>=◌, if◌then◌else◌,
}
use vici.Base.Texts.{Text, lit, same, is_blank}
use vici.Config.{
  SmsSettings, ExtractionSettings, PineconeSettings, ObservabilitySettings, TemporalSettings,
  Settings, Credential, note_if, validate_required_credentials,
}

-- The variables that the process is given, and how pydantic reads numbers and flags in them.
abbrev pub Variables : Type 0
Variables = Text → Option Text

pub record Parsers : Type 0 where
  pub int_of : Text → Option ℕ
  pub bool_of : Text → Option Bool

-- `Field(default=d, validation_alias=name)` of a text, and of a type that is parsed.
abbrev pub read : Variables → Text → Text → Text
read vars name d = elim_or d (λ t. t) (vars name)

abbrev read_as {ℓ} : {A : Type ℓ} → (Text → Option A) → Variables → Text → A → Option A
read_as parse vars name d = elim_or (some d) parse (vars name)

abbrev is_empty : List Credential → Bool
is_empty [] = true
is_empty (c ∷ cs) = false

-- `if missing: raise`
abbrev pub checked : Settings → Option Settings
checked s = if is_empty (validate_required_credentials s) then some s else none

-- Whether a credential is missing.
abbrev pub lacks_credential : Settings → Bool
lacks_credential s =
    is_blank s.database_url
    || is_blank s.sms.auth_token
    || is_blank s.extraction.openai_api_key
    || is_blank s.pinecone.api_key
    || is_blank s.temporal.address
    || is_blank s.webhook_base_url
    || is_blank s.env
    || same s.env (lit "production") && is_blank s.sms.phone_hash_pepper

is_empty-note_if :
    (c : Bool) (name : Credential) (missing : List Credential)
    → is_empty (note_if c name missing) ≡ (is_empty missing && not c)
is_empty-note_if c name [] = ground arith
is_empty-note_if c name (m ∷ ms) = ground arith

pub checked-eq : (s : Settings) → checked s ≡ (if lacks_credential s then none else some s)
unfolding validate_required_credentials
checked-eq s = simp is_empty-note_if (ground arith)

module _ (ps : Parsers) (vars : Variables) where
  unfoldable pub sms_settings : Option SmsSettings
  sms_settings = read_as ps.int_of vars (lit "SMS_RATE_LIMIT_MAX") 5 >>= λ most.
      read_as ps.int_of vars (lit "SMS_RATE_LIMIT_WINDOW_SECONDS") 60 >>= λ window.
      read_as ps.bool_of vars (lit "DISABLE_TWILIO_SIGNATURE_VALIDATION") false >>= λ disabled.
      some record {
        auth_token = read vars (lit "TWILIO_AUTH_TOKEN") [];
        account_sid = read vars (lit "TWILIO_ACCOUNT_SID") [];
        from_number = read vars (lit "TWILIO_FROM_NUMBER") [];
        rate_limit_max = most;
        rate_limit_window_seconds = window;
        phone_hash_pepper = read vars (lit "PHONE_HASH_PEPPER") [];
        disable_twilio_signature_validation = disabled;
      }

  unfoldable pub extraction_settings : ExtractionSettings
  extraction_settings = record {
    openai_api_key = read vars (lit "OPENAI_API_KEY") [];
    gpt_model = read vars (lit "GPT_MODEL") (lit "gpt-5.3-chat-latest");
  }

  unfoldable pub pinecone_settings : PineconeSettings
  pinecone_settings = record {
    api_key = read vars (lit "PINECONE_API_KEY") [];
    index_host = read vars (lit "PINECONE_INDEX_HOST") [];
  }

  unfoldable pub observability_settings : ObservabilitySettings
  observability_settings = record {
    braintrust_api_key = read vars (lit "BRAINTRUST_API_KEY") [];
    otel_endpoint = read vars (lit "OTEL_EXPORTER_OTLP_ENDPOINT") [];
    otel_service_name = read vars (lit "OTEL_SERVICE_NAME") (lit "vici");
    service_version = read vars (lit "GIT_SHA") (lit "dev");
  }

  unfoldable pub temporal_settings : TemporalSettings
  temporal_settings = record {
    address = read vars (lit "TEMPORAL_ADDRESS") [];
    task_queue = read vars (lit "TEMPORAL_TASK_QUEUE") (lit "vici-queue");
    cron_schedule_pinecone_sync = read vars (lit "CRON_SCHEDULE_PINECONE_SYNC") (lit "*/5 * * * *");
  }

  -- The fields of `Settings()`, before the check.
  unfoldable pub read_settings : Option Settings
  unfolding sms_settings extraction_settings pinecone_settings observability_settings
      temporal_settings
  read_settings = sms_settings >>= λ sms. some record {
    database_url = read vars (lit "DATABASE_URL") [];
    webhook_base_url = read vars (lit "WEBHOOK_BASE_URL") [];
    env = read vars (lit "ENV") [];
    sms = sms;
    extraction = extraction_settings;
    pinecone = pinecone_settings;
    observability = observability_settings;
    temporal = temporal_settings;
  }

  -- `none` is the ValidationError of a field or of the check.
  unfoldable pub get_settings : Option Settings
  unfolding read_settings
  get_settings = read_settings >>= checked
