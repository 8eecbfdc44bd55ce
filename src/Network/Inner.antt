-- ===== src/Network/Inner.antt =====
-- infra/components/network_policy.py: the rules of the namespaces temporal and observability.
use vici.Base.{[], ◌∷◌}
use vici.Base.Texts.{lit}
use vici.Network.{ingress_type, egress_type, ip_block, NetworkPolicy}
use vici.Network.Ports.{tcp_port, in_namespace, anywhere}

abbrev pub temporal_ingress : NetworkPolicy
temporal_ingress = record {
  name = lit "allow-ingress-frontend";
  namespace = lit "temporal";
  pod_selector = [];
  policy_types = ingress_type ∷ [];
  ingress = record { ports = tcp_port 7233 ∷ []; peers = in_namespace (lit "vici") ∷ [] } ∷ [];
  egress = [];
}

abbrev pub temporal_egress : NetworkPolicy
temporal_egress = record {
  name = lit "allow-egress-temporal";
  namespace = lit "temporal";
  pod_selector = [];
  policy_types = egress_type ∷ [];
  ingress = [];
  egress =
      record { ports = tcp_port 9200 ∷ []; peers = in_namespace (lit "observability") ∷ [] }
      ∷ record { ports = tcp_port 443 ∷ tcp_port 3307 ∷ []; peers = ip_block anywhere ∷ [] }
      ∷ [];
}

abbrev pub obs_ingress : NetworkPolicy
obs_ingress = record {
  name = lit "allow-ingress-obs";
  namespace = lit "observability";
  pod_selector = [];
  policy_types = ingress_type ∷ [];
  ingress =
      record { ports = tcp_port 4317 ∷ []; peers = in_namespace (lit "vici") ∷ [] }
      ∷ record { ports = tcp_port 16686 ∷ []; peers = [] }
      ∷ record { ports = tcp_port 9200 ∷ []; peers = in_namespace (lit "temporal") ∷ [] }
      ∷ [];
  egress = [];
}

abbrev pub obs_egress : NetworkPolicy
obs_egress = record {
  name = lit "allow-egress-obs";
  namespace = lit "observability";
  pod_selector = [];
  policy_types = egress_type ∷ [];
  ingress = [];
  egress =
      record { ports = tcp_port 9200 ∷ []; peers = in_namespace (lit "observability") ∷ [] }
      ∷ record { ports = tcp_port 7233 ∷ []; peers = in_namespace (lit "temporal") ∷ [] }
      ∷ record { ports = tcp_port 8000 ∷ []; peers = in_namespace (lit "vici") ∷ [] }
      ∷ [];
}
