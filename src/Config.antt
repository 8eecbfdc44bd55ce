-- ===== src/Config.antt =====
-- src/config.py: the settings, and the check that the required ones are there.
pub mod Required
pub mod Load
mod Tests
use vici.Base.{ℕ, Bool, true, false, not, ◌&&◌, List, [], ◌∷◌, ◌++◌, if◌then◌else◌}
use vici.Base.Texts.{Text, lit, same, is_blank}

pub record SmsSettings : Type 0 where
  pub auth_token : Text
  pub account_sid : Text
  pub from_number : Text
  pub rate_limit_max : ℕ
  pub rate_limit_window_seconds : ℕ
  pub phone_hash_pepper : Text
  pub disable_twilio_signature_validation : Bool

pub record ExtractionSettings : Type 0 where
  pub openai_api_key : Text
  pub gpt_model : Text

pub record PineconeSettings : Type 0 where
  pub api_key : Text
  pub index_host : Text

pub record ObservabilitySettings : Type 0 where
  pub braintrust_api_key : Text
  pub otel_endpoint : Text
  pub otel_service_name : Text
  pub service_version : Text

pub record TemporalSettings : Type 0 where
  pub address : Text
  pub task_queue : Text
  pub cron_schedule_pinecone_sync : Text

pub record Settings : Type 0 where
  pub database_url : Text
  pub webhook_base_url : Text
  pub env : Text
  pub sms : SmsSettings
  pub extraction : ExtractionSettings
  pub pinecone : PineconeSettings
  pub observability : ObservabilitySettings
  pub temporal : TemporalSettings

-- The names that the error message lists.
pub data Credential : Type 0 where
  database_url twilio_auth_token openai_api_key pinecone_api_key temporal_address : Credential
  webhook_base_url env phone_hash_pepper : Credential

-- `if c: missing.append(name)`
abbrev note_if : Bool → Credential → List Credential → List Credential
note_if c name missing = if c then missing ++ name ∷ [] else missing

-- `missing` at the end of `_validate_required_credentials`, which raises if there is any.
pub validate_required_credentials : Settings → List Credential
validate_required_credentials s =
    let m1 = note_if (is_blank s.database_url) database_url [] in
    let m2 = note_if (is_blank s.sms.auth_token) twilio_auth_token m1 in
    let m3 = note_if (is_blank s.extraction.openai_api_key) openai_api_key m2 in
    let m4 = note_if (is_blank s.pinecone.api_key) pinecone_api_key m3 in
    let m5 = note_if (is_blank s.temporal.address) temporal_address m4 in
    let m6 = note_if (is_blank s.webhook_base_url) webhook_base_url m5 in
    let m7 = note_if (is_blank s.env) env m6 in
    note_if (same s.env (lit "production") && is_blank s.sms.phone_hash_pepper) phone_hash_pepper m7
