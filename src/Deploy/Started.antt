-- ===== src/Deploy/Started.antt =====
-- infra and src/config.py: the settings that a deployed application reads.
use mathlib.Core.Path.{fun_ext}
use vici.Base.{
  ◌≡◌, refl, ap, ◌∙◌, Bool, false, List, [], ◌∷◌, ◌∈◌, none, some, All, any_of, arith,
  if◌then◌else◌, ◌>>=◌,
}
use vici.Base.Members.{mem_of_All}
use vici.Base.Texts.{Text, lit, same, is_blank}
use vici.Config.{Settings}
use vici.Config.Load.{
  Parsers, read_settings, get_settings, checked, checked-eq, sms_settings, extraction_settings,
  pinecone_settings, observability_settings, temporal_settings,
}
use vici.Deploy.Secrets.{secret_id, external_secrets}
use vici.Deploy.Pods.{app_pod}
use vici.Deploy.Platform.{Platform, given}

-- `ENV` in Pulumi.dev.yaml, Pulumi.staging.yaml and Pulumi.prod.yaml.
abbrev pub stacks : List Text
stacks = lit "dev" ∷ lit "staging" ∷ lit "prod" ∷ []

-- The secrets that an application cannot start without.
abbrev needed_slugs : List Text
needed_slugs =
    lit "database-url"
    ∷ lit "twilio-auth-token"
    ∷ lit "openai-api-key"
    ∷ lit "pinecone-api-key"
    ∷ lit "temporal-address"
    ∷ lit "webhook-base-url"
    ∷ []

-- Not the pepper: `ENV` is no stack's "production".
not_production : All (λ env. (is_blank env ≡ false) × (same env (lit "production") ≡ false)) stacks
not_production = ground arith

module _ (p : Platform) (env : Text) where
  abbrev value_of : Text → Text
  value_of slug = p.value (secret_id env slug)

  abbrev pub lacks_secret : Bool
  lacks_secret = any_of (λ slug. is_blank (value_of slug)) needed_slugs

  -- Each setting with its own secret, and the rest as the defaults say.
  abbrev pub deployed_settings : Settings
  deployed_settings = record {
    database_url = value_of (lit "database-url");
    webhook_base_url = value_of (lit "webhook-base-url");
    env = env;
    sms = record {
      auth_token = value_of (lit "twilio-auth-token");
      account_sid = value_of (lit "twilio-account-sid");
      from_number = value_of (lit "twilio-from-number");
      rate_limit_max = 5;
      rate_limit_window_seconds = 60;
      phone_hash_pepper = value_of (lit "phone-hash-pepper");
      disable_twilio_signature_validation = false;
    };
    extraction = record {
      openai_api_key = value_of (lit "openai-api-key");
      gpt_model = lit "gpt-5.3-chat-latest";
    };
    pinecone = record {
      api_key = value_of (lit "pinecone-api-key");
      index_host = value_of (lit "pinecone-index-host");
    };
    observability = record {
      braintrust_api_key = value_of (lit "braintrust-api-key");
      otel_endpoint = value_of (lit "otel-exporter-otlp-endpoint");
      otel_service_name = lit "vici";
      service_version = lit "dev";
    };
    temporal = record {
      address = value_of (lit "temporal-address");
      task_queue = lit "vici-queue";
      cron_schedule_pinecone_sync = lit "*/5 * * * *";
    };
  }

  read_settings-deployed :
      (ps : Parsers) (tag : Text)
      → read_settings ps (given p.value (external_secrets env) (app_pod env tag))
        ≡ some deployed_settings
  unfolding read_settings sms_settings extraction_settings pinecone_settings observability_settings
      temporal_settings given external_secrets app_pod
  read_settings-deployed ps tag = refl

  -- In each of the three stacks an application pod that has come up reads each of its settings from
  -- the secret of its own, and the rest from the defaults; it fails to start exactly if one of six
  -- secrets is empty: the database's URL, Twilio's token, the keys of OpenAI and Pinecone, the address
  -- of Temporal or the webhook's base URL. The pepper of the phone hashes is not among them.
  pub get_settings-deployed :
      (ps : Parsers) (tag : Text)
      → env ∈ stacks
      → get_settings ps (p.variables_of (external_secrets env) (app_pod env tag))
        ≡ (if lacks_secret then none else some deployed_settings)
  unfolding get_settings
  get_settings-deployed ps tag m =
      let (given_env, other) =
        mem_of_All (λ e. (is_blank e ≡ false) × (same e (lit "production") ≡ false)) stacks
          not_production env m in
      ap (λ vars. get_settings ps vars)
        (fun_ext λ key. p.variables_of_lem (external_secrets env) (app_pod env tag) key)
      ∙ (ap (λ o. o >>= checked) (read_settings-deployed ps tag)
          ∙ (checked-eq deployed_settings ∙ ground (arith, given_env, other)))
