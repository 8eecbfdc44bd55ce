-- ===== src/Network/Leaving.antt =====
-- infra/components/network_policy.py: what the rules of each namespace let out of its pods.
use vici.Base.{ℕ, ◌≡◌, Bool, ◌&&◌, ◌||◌, ◌==◌, [], ◌∷◌, ◌++◌, arith}
use vici.Base.Texts.{Text, lit}
use vici.Network.{Protocol, tcp, Labels}
use vici.Network.Ports.{anywhere, metadata_name}
use vici.Network.Baseline.{gke_metadata_cidr}
use vici.Network.Policies.{policies}
use vici.Network.Cluster.{Endpoint, pod, Cluster, is_in, leaves, is_protocol, has_label}

module _ (env : Text) (c : Cluster) (ls : Labels) (e : Endpoint) (p : ℕ) (q : Protocol) where
  abbrev pub is_tcp : ℕ → Bool
  is_tcp n = (p == n) && is_protocol tcp q

  -- What every pod may reach: name servers, and the metadata server.
  abbrev pub is_basic : Bool
  is_basic = p == 53 || is_tcp 80 && c.in_block gke_metadata_cidr e

  abbrev pub is_web : Bool
  is_web = is_tcp 443 && c.in_block anywhere e

  abbrev pub is_cloud : Bool
  is_cloud = (is_tcp 443 || is_tcp 3307) && c.in_block anywhere e

  abbrev pub is_to : Text → Bool
  is_to n = is_in c.namespace_labels ((metadata_name, n) ∷ []) e

  abbrev leaves_from : Text → Bool
  leaves_from n =
      leaves c.namespace_labels c.in_block (policies env)
        record { source = pod n ls; target = e; port = p; protocol = q }

  pub leaves-vici : leaves_from (lit "vici") ≡ (
      is_basic
      || has_label ls (lit "app", lit "vici")
        && (is_tcp 7233 && is_to (lit "temporal")
            || is_tcp 4317 && is_to (lit "observability")
            || is_cloud)
      || has_label ls (lit "job-name", lit "alembic-migration-" ++ env) && is_cloud)
  unfolding leaves
  leaves-vici = ground arith

  pub leaves-temporal :
      leaves_from (lit "temporal")
      ≡ (is_basic || is_tcp 9200 && is_to (lit "observability") || is_cloud)
  unfolding leaves
  leaves-temporal = ground arith

  pub leaves-observability : leaves_from (lit "observability") ≡ (
      is_basic
      || is_tcp 9200 && is_to (lit "observability")
      || is_tcp 7233 && is_to (lit "temporal")
      || is_tcp 8000 && is_to (lit "vici"))
  unfolding leaves
  leaves-observability = ground arith

  pub leaves-cert_manager : leaves_from (lit "cert-manager") ≡ (is_basic || is_web)
  unfolding leaves
  leaves-cert_manager = ground arith

  pub leaves-external_secrets : leaves_from (lit "external-secrets") ≡ (is_basic || is_web)
  unfolding leaves
  leaves-external_secrets = ground arith
