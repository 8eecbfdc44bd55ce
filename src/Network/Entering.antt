-- ===== src/Network/Entering.antt =====
-- infra/components/network_policy.py: what the rules of each namespace let into its pods.
use vici.Base.{ℕ, ◌≡◌, Bool, ◌&&◌, ◌||◌, ◌==◌, [], ◌∷◌, arith}
use vici.Base.Texts.{Text, lit}
use vici.Network.{Protocol, tcp, Labels}
use vici.Network.Ports.{metadata_name}
use vici.Network.Policies.{policies}
use vici.Network.Cluster.{Endpoint, pod, Cluster, is_in, enters, is_protocol, has_label}

module _ (env : Text) (c : Cluster) (ls : Labels) (e : Endpoint) (p : ℕ) (q : Protocol) where
  abbrev is_from : Text → Bool
  is_from n = is_in c.namespace_labels ((metadata_name, n) ∷ []) e

  abbrev enters_to : Text → Bool
  enters_to n =
      enters c.namespace_labels c.in_block (policies env)
        record { source = e; target = pod n ls; port = p; protocol = q }

  pub enters-vici : enters_to (lit "vici") ≡ (
      is_protocol tcp q
      && has_label ls (lit "app", lit "vici")
      && (p == 8000 && (is_from (lit "kube-system") || is_from (lit "observability"))))
  unfolding enters
  enters-vici = ground arith

  pub enters-temporal :
      enters_to (lit "temporal") ≡ (is_protocol tcp q && (p == 7233 && is_from (lit "vici")))
  unfolding enters
  enters-temporal = ground arith

  pub enters-observability : enters_to (lit "observability") ≡ (
      is_protocol tcp q
      && (p == 4317 && is_from (lit "vici") || p == 16686 || p == 9200 && is_from (lit "temporal")))
  unfolding enters
  enters-observability = ground arith

  pub enters-cert_manager :
      enters_to (lit "cert-manager")
      ≡ (is_protocol tcp q && (p == 10250 || p == 6080 || p == 9402 || p == 9403))
  unfolding enters
  enters-cert_manager = ground arith

  pub enters-external_secrets :
      enters_to (lit "external-secrets")
      ≡ (is_protocol tcp q && (p == 10250 || p == 8080 || p == 8081))
  unfolding enters
  enters-external_secrets = ground arith
