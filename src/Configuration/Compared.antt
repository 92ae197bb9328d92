-- ===== src/Configuration/Compared.antt =====
-- internal/configuration/model.go: no managed difference means that all managed settings agree.
use atlas_dns.Base.{
  String, ◌≡◌, refl, subst, inl, inr, true, List, [], ◌∷◌, arith, str_eq, eq_iff, leb, Bool-cases,
  All,
}
use atlas_dns.Configuration.Rows.{rows}
use atlas_dns.Controlplane.Model.{managed_differences, Configuration, is_managed, select}
use atlas_dns.Configuration.Model.{Document, DesiredDocument}
use atlas_dns.Configuration.Clean.{Texts}
use atlas_dns.Configuration.Canonical.{
  canonical_node, canonical_shared, canonicalise, effective, project_document, is_legacy_converted,
  converted_version, current_schema_version,
}
use atlas_dns.Configuration.Rows.{Kind, Value, Row}
use atlas_dns.Configuration.Diff.{differing, diff}

-- The documents as the interface that the control plane uses.
abbrev pub documents : ((k : Kind) → Value k → String) → Texts → Configuration
documents marshal t = record {
  Document = Document;
  Desired = DesiredDocument;
  effective = effective t;
  diff = diff marshal t;
  project = project_document t;
  is_legacy_converted = λ d. is_legacy_converted d.unsupported;
}

module _ (marshal : (k : Kind) → Value k → String) where
  abbrev pub Agrees : Row → Type 0
  Agrees r = is_managed r.scope ≡ true → marshal r.kind r.left ≡ marshal r.kind r.right

  differing-Agrees :
      (rs : List Row) → select (λ d. is_managed d.scope) (differing marshal rs) ≡ [] → All Agrees rs
  unfolding differing select
  differing-Agrees [] none_left = tt
  differing-Agrees (r ∷ rs) none_left =
      elim (Bool-cases (str_eq (marshal r.kind r.left) (marshal r.kind r.right))) [
        | inl same ↦
            let here = (eq_iff (marshal r.kind r.left) (marshal r.kind r.right)).0 same in
            (λ managed. here, differing-Agrees rs (ground arith))
        | inr other ↦ elim (Bool-cases (is_managed r.scope)) [
          | inl managed ↦ absurd (ground arith)
          | inr free ↦ (λ managed. absurd (ground arith), differing-Agrees rs (ground arith))
        ]
      ]

  module _ (t : Texts) where
    is_fresh : (d : Document) → leb current_schema_version (canonicalise t d).schema_version ≡ true
    unfolding canonicalise converted_version
    is_fresh d = ground arith

    diff_rows :
        (a b : Document)
        → diff marshal t a b ≡ differing marshal (rows true (canonicalise t a) (canonicalise t b))
    unfolding diff
    diff_rows a b = rw (is_fresh a) refl

    module _ (injective : (k : Kind) (a b : Value k) → marshal k a ≡ marshal k b → a ≡ b) where
      same : (k : Kind) {a b : Value k} → (true ≡ true → marshal k a ≡ marshal k b) → a ≡ b
      same k {a} {b} h = injective k a b (h refl)

      same_dns : (a b : Document) → All Agrees (rows true a b) → a.shared.dns ≡ b.shared.dns
      unfolding rows
      same_dns a b h =
          let dns = h.1.1.1.1 in
          let more = dns.1.1.1.1.1.1.1.1 in
          λ i. record {
            upstream_dns = same Kind.texts (h.0) i;
            bootstrap_dns = same Kind.texts (h.1.0) i;
            fallback_dns = same Kind.texts (h.1.1.0) i;
            private_reverse_dns = same Kind.texts (h.1.1.1.0) i;
            protection_enabled = same Kind.flag (dns.0) i;
            rate_limit = same Kind.integer (dns.1.0) i;
            rate_limit_ipv4 = same Kind.integer (dns.1.1.0) i;
            rate_limit_ipv6 = same Kind.integer (dns.1.1.1.0) i;
            rate_limit_allowlist = same Kind.texts (dns.1.1.1.1.0) i;
            blocking_mode = same Kind.word (dns.1.1.1.1.1.0) i;
            blocking_ipv4 = same Kind.word (dns.1.1.1.1.1.1.0) i;
            blocking_ipv6 = same Kind.word (dns.1.1.1.1.1.1.1.0) i;
            blocked_response_ttl = same Kind.integer (more.0) i;
            edns_client_subnet = same Kind.flag (more.1.0) i;
            edns_use_custom = (same Kind.custom (more.1.1.0) i).0;
            edns_custom_ip = (same Kind.custom (more.1.1.0) i).1;
            disable_ipv6 = same Kind.flag (more.1.1.1.0) i;
            dnssec_enabled = same Kind.flag (more.1.1.1.1.0) i;
            cache_enabled = (same Kind.cache (more.1.1.1.1.1.0) i).0;
            cache_size = (same Kind.cache (more.1.1.1.1.1.0) i).1;
            cache_ttl_min = (same Kind.cache (more.1.1.1.1.1.0) i).2;
            cache_ttl_max = (same Kind.cache (more.1.1.1.1.1.0) i).3;
            cache_optimistic = (same Kind.cache (more.1.1.1.1.1.0) i).4;
            upstream_mode = same Kind.word (more.1.1.1.1.1.1.0) i;
            upstream_timeout = same Kind.integer (more.1.1.1.1.1.1.1.0) i;
            use_private_reverse = (same Kind.both (more.1.1.1.1.1.1.1.1.0) i).0;
            resolve_clients = (same Kind.both (more.1.1.1.1.1.1.1.1.0) i).1;
          }

      -- The settings of two documents agree if all managed rows do.
      same_settings :
          (a b : Document)
          → All Agrees (rows true a b)
          → (a.shared ≡ b.shared) × (a.node_specific ≡ b.node_specific)
      unfolding rows
      same_settings a b h =
          let more = h.1.1.1.1.1.1.1.1.1.1.1.1 in
          let filtering = more.1.1.1.1.1.1.1.1.1 in
          let shared = filtering.1.1.1 in
          let last = shared.1.1.1.1.1.1.1.1.1 in
          (
            λ i. record {
              dns = same_dns a b h i;
              filtering = record {
                enabled = same Kind.flag (filtering.0) i;
                update_interval = same Kind.integer (filtering.1.0) i;
                filter_urls = same Kind.texts (filtering.1.1.0) i;
                whitelist_urls = same Kind.texts (shared.0) i;
                user_rules = same Kind.texts (last.0) i;
              };
              clients = same Kind.clients (shared.1.0) i;
              rewrites_enabled = (same Kind.rewrites (shared.1.1.0) i).0;
              rewrites = (same Kind.rewrites (shared.1.1.0) i).1;
              services = record {
                blocked_service_ids = (same Kind.blocked (shared.1.1.1.0) i).0;
                blocked_schedule = (same Kind.blocked (shared.1.1.1.0) i).1;
                safe_browsing = same Kind.flag (shared.1.1.1.1.0) i;
                parental_control = same Kind.flag (shared.1.1.1.1.1.0) i;
                safe_search = same Kind.search (shared.1.1.1.1.1.1.0) i;
              };
              query_log = same Kind.query_log (shared.1.1.1.1.1.1.1.0) i;
              statistics = same Kind.statistics (shared.1.1.1.1.1.1.1.1.0) i;
            },
            λ i. record {
              bind_hosts = same Kind.texts (last.1.0) i;
              dns_port = same Kind.integer (last.1.1.0) i;
              dhcp = same Kind.dhcp (last.1.1.1.0) i;
            },
          )

      -- Two documents without a managed difference have the same shared settings and the same
      -- settings of the node, in canonical form, where JSON tells different values apart.
      pub managed_differences-documents :
          (a b : Document)
          → managed_differences (documents marshal t) a b ≡ []
          → (canonical_shared t a.shared ≡ canonical_shared t b.shared)
            × (canonical_node t a.node_specific ≡ canonical_node t b.node_specific)
      unfolding managed_differences canonicalise
      managed_differences-documents a b none_left =
          same_settings (canonicalise t a) (canonicalise t b) (
            differing-Agrees (rows true (canonicalise t a) (canonicalise t b))
              (subst (λ x. select (λ d. is_managed d.scope) x ≡ []) (diff_rows a b) none_left))
