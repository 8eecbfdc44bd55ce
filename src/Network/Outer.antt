-- ===== src/Network/Outer.antt =====
-- infra/components/network_policy.py: the rules of the namespaces cert-manager and
-- external-secrets.
use vici.Base.{[], ◌∷◌}
use vici.Base.Texts.{lit}
use vici.Network.{ingress_type, egress_type, ip_block, NetworkPolicy}
use vici.Network.Ports.{tcp_port, anywhere}

abbrev pub certmgr_webhook_ingress : NetworkPolicy
certmgr_webhook_ingress = record {
  name = lit "allow-ingress-webhook";
  namespace = lit "cert-manager";
  pod_selector = [];
  policy_types = ingress_type ∷ [];
  ingress =
      record {
        ports = tcp_port 10250 ∷ tcp_port 6080 ∷ tcp_port 9402 ∷ tcp_port 9403 ∷ [];
        peers = [];
      }
      ∷ [];
  egress = [];
}

abbrev pub certmgr_egress : NetworkPolicy
certmgr_egress = record {
  name = lit "allow-egress-certmgr";
  namespace = lit "cert-manager";
  pod_selector = [];
  policy_types = egress_type ∷ [];
  ingress = [];
  egress = record { ports = tcp_port 443 ∷ []; peers = ip_block anywhere ∷ [] } ∷ [];
}

abbrev pub eso_webhook_ingress : NetworkPolicy
eso_webhook_ingress = record {
  name = lit "allow-ingress-webhook";
  namespace = lit "external-secrets";
  pod_selector = [];
  policy_types = ingress_type ∷ [];
  ingress = record { ports = tcp_port 10250 ∷ tcp_port 8080 ∷ tcp_port 8081 ∷ []; peers = [] } ∷ [];
  egress = [];
}

abbrev pub eso_egress : NetworkPolicy
eso_egress = record {
  name = lit "allow-egress-eso";
  namespace = lit "external-secrets";
  pod_selector = [];
  policy_types = egress_type ∷ [];
  ingress = [];
  egress = record { ports = tcp_port 443 ∷ []; peers = ip_block anywhere ∷ [] } ∷ [];
}
