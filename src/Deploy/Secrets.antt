-- ===== src/Deploy/Secrets.antt =====
-- infra/components/secrets.py: the secrets and where their values come from.
use vici.Base.{ℕ, ◌-◌, ◌&&◌, ◌==◌, leb, List, [], ◌∷◌, ◌++◌, map, any_of, if◌then◌else◌}
use vici.Base.Texts.{Text, lit, same}
use vici.Deploy.{SecretDefinition, ExternalSecret}

abbrev of_vici : Text → SecretDefinition
of_vici slug = record { slug = slug; namespace = lit "vici"; k8s_name = slug }

abbrev pub secret_definitions : List SecretDefinition
secret_definitions =
    of_vici (lit "twilio-auth-token")
    ∷ of_vici (lit "twilio-account-sid")
    ∷ of_vici (lit "twilio-from-number")
    ∷ of_vici (lit "openai-api-key")
    ∷ of_vici (lit "pinecone-api-key")
    ∷ of_vici (lit "pinecone-index-host")
    ∷ of_vici (lit "braintrust-api-key")
    ∷ of_vici (lit "database-url")
    ∷ of_vici (lit "temporal-address")
    ∷ of_vici (lit "otel-exporter-otlp-endpoint")
    ∷ of_vici (lit "webhook-base-url")
    ∷ of_vici (lit "phone-hash-pepper")
    ∷ record {
      slug = lit "temporal-db-password";
      namespace = lit "temporal";
      k8s_name = lit "temporal-db-credentials";
    }
    ∷ []

-- `f"{ENV}-{slug}"`
abbrev pub secret_id : Text → Text → Text
secret_id env slug = env ++ (lit "-" ++ slug)

-- `slug.upper().replace("-", "_")`, for slugs in ASCII.
abbrev upper : ℕ → ℕ
upper c = if leb 97 c && leb c 122 then c - 32 else c

abbrev pub secret_key_of : Text → Text
secret_key_of slug = map (λ c. if c == 45 then 95 else upper c) slug

abbrev pub custom_external_secrets : List Text
custom_external_secrets = lit "temporal-db-password" ∷ []

abbrev pub external_secret : Text → SecretDefinition → ExternalSecret
external_secret env d = record {
  name = d.k8s_name;
  namespace = d.namespace;
  secret_key = secret_key_of d.slug;
  remote_key = secret_id env d.slug;
}

-- The loop over the definitions, which passes over the custom ones.
abbrev pub generic_secrets : Text → List SecretDefinition → List ExternalSecret
generic_secrets env [] = []
generic_secrets env (d ∷ ds) =
    if any_of (same d.slug) custom_external_secrets
    then generic_secrets env ds
    else external_secret env d ∷ generic_secrets env ds

abbrev pub temporal_db_credentials : Text → ExternalSecret
temporal_db_credentials env = record {
  name = lit "temporal-db-credentials";
  namespace = lit "temporal";
  secret_key = lit "password";
  remote_key = secret_id env (lit "temporal-db-password");
}

-- The values of `external_secrets`.
unfoldable pub external_secrets : Text → List ExternalSecret
external_secrets env = generic_secrets env secret_definitions ++ temporal_db_credentials env ∷ []
