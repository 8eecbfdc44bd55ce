-- ===== src/Network/Cluster.antt =====
-- What the cluster makes of network policies: the interface to Kubernetes, with the behaviour that
-- its documentation promises.
use vici.Base.{
  ℕ, ◌≡◌, Bool, true, false, ◌&&◌, ◌==◌, List, [], ◌∷◌, Option, none, some, any_of, elim_or,
  keep_if, if◌then◌else◌,
}
use vici.Base.Texts.{Text, same}
use vici.Network.{
  Protocol, tcp, udp, Labels, PolicyType, ingress_type, egress_type, NetworkPolicyPeer,
  namespace_selector, ip_block, NetworkPolicyRule, NetworkPolicy,
}
use vici.Network.Ports.{metadata_name}

-- A pod with its namespace and its labels, or an address outside the cluster.
pub data Endpoint : Type 0 where
  pod : Text → Labels → Endpoint
  host : Text → Endpoint

-- A connection that `source` opens to a port of `target`.
pub record Flow : Type 0 where
  pub source : Endpoint
  pub target : Endpoint
  pub port : ℕ
  pub protocol : Protocol

abbrev pub is_protocol : Protocol → Protocol → Bool
is_protocol tcp tcp = true
is_protocol udp udp = true
is_protocol _ _ = false

abbrev is_type : PolicyType → PolicyType → Bool
is_type ingress_type ingress_type = true
is_type egress_type egress_type = true
is_type _ _ = false

abbrev pub lookup : Text → Labels → Option Text
lookup k [] = none
lookup k (l ∷ ls) = if same l.0 k then some l.1 else lookup k ls

unfoldable pub has_label : Labels → Text × Text → Bool
has_label ls l = elim_or false (same l.1) (lookup l.0 ls)

-- Whether the labels are those that a selector asks for.
abbrev pub selects : Labels → Labels → Bool
selects [] ls = true
selects (l ∷ sel) ls = has_label ls l && selects sel ls

abbrev or_empty {ℓ} : {A : Type ℓ} → List A → Bool → Bool
or_empty [] b = true
or_empty (x ∷ xs) b = b

-- The policies that select an endpoint and are of a type.
abbrev governs : PolicyType → Endpoint → NetworkPolicy → Bool
governs t (pod ns ls) p =
    same p.namespace ns && (selects p.pod_selector ls && any_of (is_type t) p.policy_types)
governs t (host a) p = false

-- Whether an endpoint is a pod of a namespace that a selector selects.
unfoldable pub is_in : (Text → Labels) → Labels → Endpoint → Bool
is_in namespace_labels sel (pod ns ls) = selects sel (namespace_labels ns)
is_in namespace_labels sel (host a) = false

module _ (namespace_labels : Text → Labels) (in_block : Text → Endpoint → Bool) where
  abbrev is_peer : Endpoint → NetworkPolicyPeer → Bool
  is_peer e (namespace_selector sel) = is_in namespace_labels sel e
  is_peer e (ip_block cidr) = in_block cidr e

  abbrev permits : Flow → Endpoint → NetworkPolicyRule → Bool
  permits f e r =
      or_empty r.ports
        (any_of (λ q. (q.port == f.port) && is_protocol q.protocol f.protocol) r.ports)
      && or_empty r.peers (any_of (is_peer e) r.peers)

  -- A pod that no policy of the direction selects is open, any other lets pass what a rule of one of
  -- them permits.
  unfoldable pub leaves : List NetworkPolicy → Flow → Bool
  leaves ps f =
      let mine = keep_if (governs egress_type f.source) ps in
      or_empty mine (any_of (λ p. any_of (permits f f.target) p.egress) mine)

  unfoldable pub enters : List NetworkPolicy → Flow → Bool
  enters ps f =
      let mine = keep_if (governs ingress_type f.target) ps in
      or_empty mine (any_of (λ p. any_of (permits f f.source) p.ingress) mine)

-- The labels that namespaces have, what a range of addresses holds, which connections are made, and
-- what is documented of them.
pub record Cluster : Type 0 where
  pub namespace_labels : Text → Labels
  pub in_block : Text → Endpoint → Bool
  pub passes : List NetworkPolicy → Flow → Bool
  pub lookup-name : (ns : Text) → lookup metadata_name (namespace_labels ns) ≡ some ns
  pub passes_lem :
      (ps : List NetworkPolicy) (f : Flow)
      → passes ps f
        ≡ (leaves namespace_labels in_block ps f && enters namespace_labels in_block ps f)
