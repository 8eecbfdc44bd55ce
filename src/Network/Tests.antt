-- ===== src/Network/Tests.antt =====
-- infra/components/network_policy.py: its connections in a concrete cluster.
use vici.Base.{◌≡◌, refl, Bool, true, false, ◌&&◌, if◌then◌else◌, [], ◌∷◌, inl, inr}
use vici.Base.Texts.{Text, lit, same}
use vici.Network.{tcp, Labels}
use vici.Network.Ports.{anywhere, metadata_name}
use vici.Network.Baseline.{gke_metadata_cidr}
use vici.Network.Policies.{policies}
use vici.Network.Cluster.{Endpoint, pod, host, Cluster, has_label, leaves, enters}
use vici.Network.Traffic.{between, outwards, passes-between, passes-outwards}

abbrev named : Text → Labels
named ns = (metadata_name, ns) ∷ []

abbrev in_range : Text → Endpoint → Bool
in_range cidr (host a) =
    if same cidr gke_metadata_cidr then same a (lit "169.254.169.254") else same cidr anywhere
in_range cidr (pod ns ls) = false

abbrev plain_cluster : Cluster
plain_cluster = record {
  namespace_labels = named;
  in_block = in_range;
  passes = λ ps f. leaves named in_range ps f && enters named in_range ps f;
  lookup-name = λ ns. refl;
  passes_lem = λ ps f. refl;
}

-- Jaeger's collector does not reach OpenSearch, which is in its own namespace.
passes-between_example :
    plain_cluster.passes (policies (lit "prod")) (
      between
        (lit "observability")
        ((lit "app", lit "jaeger-collector") ∷ [])
        (lit "observability")
        ((lit "app", lit "opensearch") ∷ [])
        9200
        tcp)
    ≡ false
passes-between_example =
    passes-between (lit "prod") plain_cluster ((lit "app", lit "jaeger-collector") ∷ [])
      ((lit "app", lit "opensearch") ∷ []) 9200 tcp (lit "observability") (lit "observability")
      (inr (inr (inl refl))) (inr (inr (inl refl)))

-- The migration job reaches the database.
passes-outwards_example :
    plain_cluster.passes (policies (lit "prod")) (
      outwards
        (lit "vici")
        ((lit "job-name", lit "alembic-migration-prod") ∷ [])
        (lit "10.0.0.3")
        3307
        tcp)
    ≡ true
unfolding has_label
passes-outwards_example =
    passes-outwards (lit "prod") plain_cluster ((lit "job-name", lit "alembic-migration-prod") ∷ [])
      (lit "10.0.0.3") 3307 tcp (lit "vici") (inl refl)
