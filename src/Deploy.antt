-- ===== src/Deploy.antt =====
-- infra: how the application is deployed, as far as its settings and its image depend on it.
pub mod Secrets
pub mod Pods
pub mod Platform
pub mod Started
mod Tests
use vici.Base.{List}
use vici.Base.Texts.{Text}
use vici.Network.{Labels}

-- A row of `_SECRET_DEFINITIONS`.
pub record SecretDefinition : Type 0 where
  pub slug : Text
  pub namespace : Text
  pub k8s_name : Text

-- What an ExternalSecret says: the Kubernetes secret to be made, its one key, and the id of the secret
-- in Secret Manager that has the value.
pub record ExternalSecret : Type 0 where
  pub name : Text
  pub namespace : Text
  pub secret_key : Text
  pub remote_key : Text

-- A pod that runs the program's image.
pub record Pod : Type 0 where
  pub namespace : Text
  pub labels : Labels
  pub image_tag : Text
  pub variables : Labels
  pub env_from : List Text
