-- ===== src/Network.antt =====
-- infra/components/network_policy.py: the network policies of the cluster. Here is their form, the
-- arguments of `NetworkPolicy` that the file gives; its children hold the policies.
pub mod Baseline
mod Ports
mod Vici
mod Inner
mod Outer
pub mod Policies
pub mod Cluster
mod Leaving
mod Entering
pub mod Traffic
mod Tests
use vici.Base.{ℕ, List}
use vici.Base.Texts.{Text}

pub data Protocol : Type 0 where
  tcp udp : Protocol

pub record NetworkPolicyPort : Type 0 where
  pub port : ℕ
  pub protocol : Protocol

-- The labels of a pod or of a namespace, and those that a selector asks for: none select everything.
abbrev pub Labels : Type 0
Labels = List (Text × Text)

pub data NetworkPolicyPeer : Type 0 where
  namespace_selector : Labels → NetworkPolicyPeer
  ip_block : Text → NetworkPolicyPeer

-- A rule of a direction: `peers` is `from_` or `to`, and an empty list, which is one not given,
-- restricts nothing.
pub record NetworkPolicyRule : Type 0 where
  pub ports : List NetworkPolicyPort
  pub peers : List NetworkPolicyPeer

pub data PolicyType : Type 0 where
  ingress_type egress_type : PolicyType

pub record NetworkPolicy : Type 0 where
  pub name : Text
  pub namespace : Text
  pub pod_selector : Labels
  pub policy_types : List PolicyType
  pub ingress : List NetworkPolicyRule
  pub egress : List NetworkPolicyRule
