-- ===== src/Network/Traffic.antt =====
-- infra/components/network_policy.py: which connections its policies let pass.
use vici.Base.{ℕ, ◌≡◌, refl, Bool, true, false, ◌&&◌, ◌||◌, ◌==◌, [], ◌∷◌, ◌++◌, ◌∈◌, arith, All}
use vici.Base.Texts.{Text, lit, same}
use vici.Base.Members.{mem_of_All}
use vici.Network.{Protocol, tcp, Labels}
use vici.Network.Ports.{anywhere, metadata_name}
use vici.Network.Baseline.{managed_namespaces, gke_metadata_cidr}
use vici.Network.Policies.{policies}
use vici.Network.Cluster.{pod, host, is_in, Flow, Cluster, enters, is_protocol, has_label}
use vici.Network.Leaving.{
  leaves-vici, leaves-temporal, leaves-observability, leaves-cert_manager, leaves-external_secrets,
}
use vici.Network.Entering.{
  enters-vici, enters-temporal, enters-observability, enters-cert_manager, enters-external_secrets,
}

abbrev pub between : Text → Labels → Text → Labels → ℕ → Protocol → Flow
between s sl d dl p q = record { source = pod s sl; target = pod d dl; port = p; protocol = q }

abbrev pub outwards : Text → Labels → Text → ℕ → Protocol → Flow
outwards s sl a p q = record { source = pod s sl; target = host a; port = p; protocol = q }

is_in-named :
    (c : Cluster) (n d : Text) (ls : Labels)
    → is_in c.namespace_labels ((metadata_name, n) ∷ []) (pod d ls) ≡ same n d
unfolding is_in has_label
is_in-named c n d ls = rw (c.lookup-name d) (ground arith)

is_in-host : (l : Text → Labels) (sel : Labels) (a : Text) → is_in l sel (host a) ≡ false
unfolding is_in
is_in-host l sel a = refl

ruleset leaving = (
  leaves-vici, leaves-temporal, leaves-observability, leaves-cert_manager, leaves-external_secrets,
  is_in-named, is_in-host,
)

ruleset entering = (
  enters-vici, enters-temporal, enters-observability, enters-cert_manager, enters-external_secrets,
)

-- The pods of the application, and the connections that the parts of the system make with each
-- other.
abbrev is_app : Text → Labels → Bool
is_app ns ls = same ns (lit "vici") && has_label ls (lit "app", lit "vici")

abbrev is_wanted : Text → Labels → Text → Labels → ℕ → Bool
is_wanted s sl d dl p =
    is_app s sl && same d (lit "temporal") && p == 7233
    || is_app s sl && same d (lit "observability") && p == 4317
    || same s (lit "temporal") && same d (lit "observability") && p == 9200
    || same s (lit "observability") && is_app d dl && p == 8000

module _ (env : Text) (c : Cluster) (sl dl : Labels) (p : ℕ) (q : Protocol) where
  abbrev IsWanted : Text → Text → Type 0
  IsWanted s d =
      c.passes (policies env) (between s sl d dl p q) ≡ (is_protocol tcp q && is_wanted s sl d dl p)

  passes-pairs : All (λ s. All (IsWanted s) managed_namespaces) managed_namespaces
  passes-pairs = simp (c.passes_lem, leaving, entering) (ground arith)

  -- Between pods of the five namespaces exactly these connections pass, all TCP: from the
  -- application's pods to port 7233 in temporal and to port 4317 in observability, from temporal to
  -- port 9200 in observability, and from observability to port 8000 of the application's pods.
  pub passes-between :
      (s d : Text)
      → s ∈ managed_namespaces
      → d ∈ managed_namespaces
      → c.passes (policies env) (between s sl d dl p q)
        ≡ (is_protocol tcp q && is_wanted s sl d dl p)
  passes-between s d ms md =
      let rows =
        mem_of_All (λ n. All (IsWanted n) managed_namespaces) managed_namespaces passes-pairs s
          ms in
      mem_of_All (IsWanted s) managed_namespaces rows d md

enters_host :
    (env : Text) (c : Cluster) (s : Text) (sl : Labels) (a : Text) (p : ℕ) (q : Protocol)
    → enters c.namespace_labels c.in_block (policies env) (outwards s sl a p q) ≡ true
unfolding enters
enters_host env c s sl a p q = refl

-- The pods that may call services outside, and those of them that may reach a database.
abbrev may_call : Text → Text → Labels → Bool
may_call env s sl =
    (is_app s sl
      || same s (lit "vici") && has_label sl (lit "job-name", lit "alembic-migration-" ++ env))
    || same s (lit "temporal")
    || same s (lit "cert-manager")
    || same s (lit "external-secrets")

abbrev may_reach : Text → Cluster → Text → Labels → Text → ℕ → Bool
may_reach env c s sl a p =
    p == 80 && c.in_block gke_metadata_cidr (host a)
    || (p == 443 || p == 3307 && (same s (lit "vici") || same s (lit "temporal")))
      && may_call env s sl
      && c.in_block anywhere (host a)

module _ (env : Text) (c : Cluster) (sl : Labels) (a : Text) (p : ℕ) (q : Protocol) where
  abbrev IsReached : Text → Type 0
  IsReached s =
      c.passes (policies env) (outwards s sl a p q)
      ≡ (p == 53 || is_protocol tcp q && may_reach env c s sl a p)

  passes-each : All IsReached managed_namespaces
  passes-each = simp (c.passes_lem, leaving, enters_host) (ground arith)

  -- Out of the cluster a pod of the five namespaces reaches port 53 anywhere; by TCP, port 80 of the
  -- metadata server; port 443 anywhere, if it is the application, the migration job of this stack or
  -- a pod of temporal, cert-manager or external-secrets; and port 3307 anywhere, if it is the
  -- application, that job or a pod of temporal. Nothing else.
  pub passes-outwards :
      (s : Text)
      → s ∈ managed_namespaces
      → c.passes (policies env) (outwards s sl a p q)
        ≡ (p == 53 || is_protocol tcp q && may_reach env c s sl a p)
  passes-outwards s m = mem_of_All IsReached managed_namespaces passes-each s m
