-- ===== src/Network/Vici.antt =====
-- infra/components/network_policy.py: the rules of the namespace of the application.
use vici.Base.{[], ◌∷◌, ◌++◌}
use vici.Base.Texts.{Text, lit}
use vici.Network.{Labels, ingress_type, egress_type, ip_block, NetworkPolicy}
use vici.Network.Ports.{tcp_port, in_namespace, anywhere}

abbrev app_labels : Labels
app_labels = (lit "app", lit "vici") ∷ []

abbrev pub vici_ingress : NetworkPolicy
vici_ingress = record {
  name = lit "allow-ingress-lb-prometheus";
  namespace = lit "vici";
  pod_selector = app_labels;
  policy_types = ingress_type ∷ [];
  ingress =
      record {
        ports = tcp_port 8000 ∷ [];
        peers = in_namespace (lit "kube-system") ∷ in_namespace (lit "observability") ∷ [];
      }
      ∷ [];
  egress = [];
}

abbrev pub vici_egress : NetworkPolicy
vici_egress = record {
  name = lit "allow-egress-app";
  namespace = lit "vici";
  pod_selector = app_labels;
  policy_types = egress_type ∷ [];
  ingress = [];
  egress =
      record { ports = tcp_port 7233 ∷ []; peers = in_namespace (lit "temporal") ∷ [] }
      ∷ record { ports = tcp_port 4317 ∷ []; peers = in_namespace (lit "observability") ∷ [] }
      ∷ record { ports = tcp_port 443 ∷ tcp_port 3307 ∷ []; peers = ip_block anywhere ∷ [] }
      ∷ [];
}

-- `env` is `ENV`, the name of the stack.
abbrev pub vici_migration_egress : Text → NetworkPolicy
vici_migration_egress env = record {
  name = lit "allow-egress-migration";
  namespace = lit "vici";
  pod_selector = (lit "job-name", lit "alembic-migration-" ++ env) ∷ [];
  policy_types = egress_type ∷ [];
  ingress = [];
  egress =
      record { ports = tcp_port 443 ∷ tcp_port 3307 ∷ []; peers = ip_block anywhere ∷ [] } ∷ [];
}
