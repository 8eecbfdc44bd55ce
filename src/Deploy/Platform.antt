-- ===== src/Deploy/Platform.antt =====
-- What the cluster makes of secrets and pods: the interface to Secret Manager, the External Secrets
-- Operator and Kubernetes, with the behaviour that their documentation promises.
use vici.Base.{◌≡◌, ◌&&◌, List, [], ◌∷◌, Option, none, some, find_by, if◌then◌else◌}
use vici.Base.Texts.{Text, same}
use vici.Network.Cluster.{lookup}
use vici.Deploy.{ExternalSecret, Pod}

-- The value of a key of a Kubernetes secret that an ExternalSecret makes.
abbrev key_of : (Text → Text) → List ExternalSecret → Text → Text → Text → Option Text
key_of value secrets ns name key =
    elim (find_by (λ e. same e.namespace ns && same e.name name) secrets) [
      | none ↦ none
      | some e ↦ if same e.secret_key key then some (value e.remote_key) else none
    ]

-- `env_from`, where the last secret that has the key wins.
abbrev from_secrets : (Text → Text) → List ExternalSecret → Text → List Text → Text → Option Text
from_secrets value secrets ns [] key = none
from_secrets value secrets ns (name ∷ names) key = elim (from_secrets value secrets ns names key) [
  | some v ↦ some v
  | none ↦ key_of value secrets ns name key
]

-- A variable of a pod: `env` wins over `env_from`.
unfoldable pub given : (Text → Text) → List ExternalSecret → Pod → Text → Option Text
given value secrets pod key = elim (lookup key pod.variables) [
  | some v ↦ some v
  | none ↦ from_secrets value secrets pod.namespace pod.env_from key
]

-- `value` is what Secret Manager has under an id.
pub record Platform : Type 0 where
  pub value : Text → Text
  pub variables_of : List ExternalSecret → Pod → Text → Option Text
  pub variables_of_lem :
      (secrets : List ExternalSecret) (pod : Pod) (key : Text)
      → variables_of secrets pod key ≡ given value secrets pod key
