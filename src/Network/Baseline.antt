-- ===== src/Network/Baseline.antt =====
-- infra/components/network_policy.py: the policies that every namespace has.
use vici.Base.{ℕ, List, [], ◌∷◌, map}
use vici.Base.Texts.{Text, lit}
use vici.Network.{tcp, udp, ingress_type, egress_type, ip_block, NetworkPolicyPort, NetworkPolicy}
use vici.Network.Ports.{tcp_port}

abbrev pub managed_namespaces : List Text
managed_namespaces =
    lit "vici"
    ∷ lit "temporal"
    ∷ lit "observability"
    ∷ lit "cert-manager"
    ∷ lit "external-secrets"
    ∷ []

abbrev pub gke_metadata_cidr : Text
gke_metadata_cidr = lit "169.254.169.254/32"

abbrev pub gke_metadata_port : ℕ
gke_metadata_port = 80

abbrev pub default_deny : Text → NetworkPolicy
default_deny ns = record {
  name = lit "default-deny-all";
  namespace = ns;
  pod_selector = [];
  policy_types = ingress_type ∷ egress_type ∷ [];
  ingress = [];
  egress = [];
}

abbrev dns_ports : List NetworkPolicyPort
dns_ports = record { port = 53; protocol = udp } ∷ record { port = 53; protocol = tcp } ∷ []

abbrev pub dns_allow : Text → NetworkPolicy
dns_allow ns = record {
  name = lit "allow-dns-egress";
  namespace = ns;
  pod_selector = [];
  policy_types = egress_type ∷ [];
  ingress = [];
  egress = record { ports = dns_ports; peers = [] } ∷ [];
}

abbrev pub metadata_allow : Text → NetworkPolicy
metadata_allow ns = record {
  name = lit "allow-metadata-egress";
  namespace = ns;
  pod_selector = [];
  policy_types = egress_type ∷ [];
  ingress = [];
  egress =
      record { ports = tcp_port gke_metadata_port ∷ []; peers = ip_block gke_metadata_cidr ∷ [] }
      ∷ [];
}

-- The dicts, as the policies that they hold: the first two are filled name by name, the third by
-- the loop over `_NAMESPACES`.
abbrev pub default_deny_policies : List NetworkPolicy
default_deny_policies =
    default_deny (lit "vici")
    ∷ default_deny (lit "temporal")
    ∷ default_deny (lit "observability")
    ∷ default_deny (lit "cert-manager")
    ∷ default_deny (lit "external-secrets")
    ∷ []

abbrev pub dns_allow_policies : List NetworkPolicy
dns_allow_policies =
    dns_allow (lit "vici")
    ∷ dns_allow (lit "temporal")
    ∷ dns_allow (lit "observability")
    ∷ dns_allow (lit "cert-manager")
    ∷ dns_allow (lit "external-secrets")
    ∷ []

abbrev pub metadata_allow_policies : List NetworkPolicy
metadata_allow_policies = map metadata_allow managed_namespaces
