-- ===== src/Network/Policies.antt =====
-- infra/components/network_policy.py: all its policies.
use vici.Base.{List, [], ◌∷◌, ◌++◌}
use vici.Base.Texts.{Text}
use vici.Network.{NetworkPolicy}
use vici.Network.Baseline.{default_deny_policies, dns_allow_policies, metadata_allow_policies}
use vici.Network.Vici.{vici_ingress, vici_egress, vici_migration_egress}
use vici.Network.Inner.{temporal_ingress, temporal_egress, obs_ingress, obs_egress}
use vici.Network.Outer.{certmgr_webhook_ingress, certmgr_egress, eso_webhook_ingress, eso_egress}

-- The values of `allow_policies`.
abbrev pub allow_policies : Text → List NetworkPolicy
allow_policies env =
    vici_ingress
    ∷ vici_egress
    ∷ vici_migration_egress env
    ∷ temporal_ingress
    ∷ temporal_egress
    ∷ obs_ingress
    ∷ obs_egress
    ∷ certmgr_webhook_ingress
    ∷ certmgr_egress
    ∷ eso_webhook_ingress
    ∷ eso_egress
    ∷ []

-- What the file makes in the cluster.
abbrev pub policies : Text → List NetworkPolicy
policies env =
    default_deny_policies ++ (dns_allow_policies ++ (metadata_allow_policies ++ allow_policies env))
