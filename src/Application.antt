-- ===== src/Application.antt =====
-- src/main.py: the documentation that the application shows, and its probes.
pub mod Docs
use vici.Base.{ℕ, Bool, List, [], ◌∷◌, Option, none, any_of, if◌then◌else◌}
use vici.Base.Texts.{Text, lit, same}

abbrev show_docs_environment : List Text
show_docs_environment = lit "local" ∷ lit "development" ∷ lit "staging" ∷ []

-- The keyword arguments of `FastAPI`; `none` is `None`, which leaves a page out.
unfoldable pub docs_app_configs : Text → List (Text × Option Text)
docs_app_configs env =
    if any_of (same env) show_docs_environment
    then []
    else (lit "openapi_url", none) ∷ (lit "docs_url", none) ∷ (lit "redoc_url", none) ∷ []

pub record Probe : Type 0 where
  pub status_code : ℕ
  pub content : List (Text × Text)

pub health : Probe
health = record { status_code = 200; content = (lit "status", lit "ok") ∷ [] }

-- `connected` says whether the query has ended in time and without an exception.
pub readyz : Bool → Probe
readyz connected =
    if connected
    then record {
      status_code = 200;
      content = (lit "status", lit "ok") ∷ (lit "db", lit "connected") ∷ [];
    }
    else record {
      status_code = 503;
      content = (lit "status", lit "degraded") ∷ (lit "db", lit "error") ∷ [];
    }
