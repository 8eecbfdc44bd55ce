-- ===== src/Network/Ports.antt =====
-- infra/components/network_policy.py: the forms that its policies repeat.
use vici.Base.{ℕ, [], ◌∷◌}
use vici.Base.Texts.{Text, lit}
use vici.Network.{tcp, NetworkPolicyPort, NetworkPolicyPeer, namespace_selector}

abbrev pub tcp_port : ℕ → NetworkPolicyPort
tcp_port n = record { port = n; protocol = tcp }

-- The label that Kubernetes gives a namespace, its name.
abbrev pub metadata_name : Text
metadata_name = lit "kubernetes.io/metadata.name"

abbrev pub in_namespace : Text → NetworkPolicyPeer
in_namespace ns = namespace_selector ((metadata_name, ns) ∷ [])

abbrev pub anywhere : Text
anywhere = lit "0.0.0.0/0"
