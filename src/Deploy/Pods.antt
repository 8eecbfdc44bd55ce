-- ===== src/Deploy/Pods.antt =====
-- infra/config.py, infra/components/app.py and infra/components/migration.py: the pods that run the
-- program's image.
use vici.Base.{Bool, List, [], ◌∷◌, ◌++◌, Option, none, some, if◌then◌else◌}
use vici.Base.Texts.{Text, lit, or_else}
use vici.Deploy.{Pod}

-- `IMAGE_TAG`: `none` is the RunError in CI.
unfoldable pub image_tag_of : Bool → Option Text → Text → Option Text
image_tag_of in_ci none env = if in_ci then none else some env
image_tag_of in_ci (some tag) env = some (or_else (some tag) env)

abbrev pub env_from_sources : List Text
env_from_sources =
    lit "twilio-auth-token"
    ∷ lit "twilio-account-sid"
    ∷ lit "twilio-from-number"
    ∷ lit "openai-api-key"
    ∷ lit "pinecone-api-key"
    ∷ lit "pinecone-index-host"
    ∷ lit "braintrust-api-key"
    ∷ lit "database-url"
    ∷ lit "temporal-address"
    ∷ lit "otel-exporter-otlp-endpoint"
    ∷ lit "webhook-base-url"
    ∷ lit "phone-hash-pepper"
    ∷ []

-- The pods of the Deployment.
unfoldable pub app_pod : Text → Text → Pod
app_pod env tag = record {
  namespace = lit "vici";
  labels = (lit "app", lit "vici") ∷ [];
  image_tag = tag;
  variables = (lit "ENV", env) ∷ [];
  env_from = env_from_sources;
}

-- The pod of the migration job; Kubernetes labels it with the job's name.
unfoldable pub migration_pod : Text → Pod
migration_pod env = record {
  namespace = lit "vici";
  labels = (lit "job-name", lit "alembic-migration-" ++ env) ∷ [];
  image_tag = env;
  variables = [];
  env_from = lit "database-url" ∷ [];
}
