-- ===== src/Configuration/Settled.antt =====
-- internal/configuration/model.go: the canonical form of a document is its own canonical form.
use atlas_dns.Base.{
  ℕ, ◌≡◌, refl, ap, ◌∙◌, inl, inr, true, false, Option, none, some, List, arith, str_eq, eq_iff,
  ◌==◌, Bool-cases, str_eq_self,
}
use mathlib.Core.Option
use atlas_dns.Base.Order.{less_asym}
use atlas_dns.Base.Sort.{sort_by, sort_by-sort_by}
use atlas_dns.Configuration.Model.{
  Document, Shared, DnsConfig, PersistentClient, Rewrite, NodeSpecific, Unsupported, DhcpConfig,
}
use atlas_dns.Configuration.Clean.{Texts, TextLaws, canonicalise_dhcp}
use atlas_dns.Configuration.Cleaned.{
  clean_set-clean_set, clean_ordered-clean_ordered, canonical_schedule_fixed, sort_by-map_fixed,
  canonicalise_dhcp_fixed,
}
use atlas_dns.Configuration.Canonical.{
  converted_version, converted_areas, area_less, legacy_schema_version, canonical_client,
  client_less, canonical_rewrite, rewrite_less, canonical_dns, canonical_shared, canonical_node,
  canonicalise,
}

pub area_less_asym : (a b : Unsupported) → area_less a b ≡ true → area_less b a ≡ false
area_less_asym a b h = elim (Bool-cases (str_eq a.section b.section)) [
  | inl same ↦ ground (
    arith,
    eq_iff a.section b.section,
    eq_iff b.section a.section,
    str_eq_self b.section,
    less_asym a.reason b.reason,
  )
  | inr other ↦
      ground (
        arith,
        eq_iff a.section b.section,
        eq_iff b.section a.section,
        less_asym a.section b.section,
      )
]

converted_version_fixed :
    (v : ℕ)
    → (converted_version (converted_version v) ≡ converted_version v)
      × ((converted_version v == legacy_schema_version) ≡ false)
unfolding converted_version
converted_version_fixed v = ground arith

kept :
    (v : ℕ) (areas : List Unsupported)
    → (v == legacy_schema_version) ≡ false
    → converted_areas v areas ≡ areas
unfolding converted_areas
kept v areas h = rw h

module _ (t : Texts) (laws : TextLaws t) where
  pub rewrite_less_asym : (a b : Rewrite) → rewrite_less t a b ≡ true → rewrite_less t b a ≡ false
  rewrite_less_asym a b h =
      let flip = laws.equal_fold_sym a.domain b.domain in
      ground (
        arith,
        less_asym (t.lower a.answer) (t.lower b.answer),
        less_asym (t.lower a.domain) (t.lower b.domain),
      )

  canonical_client_fixed :
      (c : PersistentClient) → canonical_client t (canonical_client t c) ≡ canonical_client t c
  unfolding canonical_client
  canonical_client_fixed c = λ i. record c {
    name = laws.trim-trim c.name i;
    ids = clean_set-clean_set t laws c.ids i;
    blocked_services = clean_set-clean_set t laws c.blocked_services i;
    blocked_services_schedule = canonical_schedule_fixed t laws c.blocked_services_schedule i;
    upstreams = clean_ordered-clean_ordered t laws c.upstreams i;
    tags = clean_set-clean_set t laws c.tags i;
  }

  canonical_rewrite_fixed :
      (r : Rewrite) → canonical_rewrite t (canonical_rewrite t r) ≡ canonical_rewrite t r
  unfolding canonical_rewrite
  canonical_rewrite_fixed r =
      λ i. record r { domain = laws.trim-trim r.domain i; answer = laws.trim-trim r.answer i }

  canonical_dns_fixed : (d : DnsConfig) → canonical_dns t (canonical_dns t d) ≡ canonical_dns t d
  unfolding canonical_dns
  canonical_dns_fixed d = λ i. record d {
    upstream_dns = clean_ordered-clean_ordered t laws d.upstream_dns i;
    bootstrap_dns = clean_set-clean_set t laws d.bootstrap_dns i;
    fallback_dns = clean_ordered-clean_ordered t laws d.fallback_dns i;
    private_reverse_dns = clean_set-clean_set t laws d.private_reverse_dns i;
    rate_limit_allowlist = clean_set-clean_set t laws d.rate_limit_allowlist i;
    blocking_mode = laws.trim-trim d.blocking_mode i;
    edns_custom_ip = laws.trim-trim d.edns_custom_ip i;
    upstream_mode = laws.trim-trim d.upstream_mode i;
  }

  pub canonical_shared_fixed :
      (s : Shared) → canonical_shared t (canonical_shared t s) ≡ canonical_shared t s
  unfolding canonical_shared
  canonical_shared_fixed s =
      let clients =
        sort_by-map_fixed t laws (client_less t) (canonical_client t) s.clients
          (λ a b. less_asym (t.lower a.name) (t.lower b.name)) canonical_client_fixed in
      let rewrites =
        sort_by-map_fixed t laws (rewrite_less t) (canonical_rewrite t) s.rewrites rewrite_less_asym
          canonical_rewrite_fixed in
      λ i. record s {
        dns = canonical_dns_fixed s.dns i;
        filtering = record (s.filtering) {
          filter_urls = clean_set-clean_set t laws s.filtering.filter_urls i;
          whitelist_urls = clean_set-clean_set t laws s.filtering.whitelist_urls i;
          user_rules = clean_ordered-clean_ordered t laws s.filtering.user_rules i;
        };
        clients = clients i;
        rewrites = rewrites i;
        services = record (s.services) {
          blocked_service_ids = clean_set-clean_set t laws s.services.blocked_service_ids i;
          blocked_schedule = canonical_schedule_fixed t laws s.services.blocked_schedule i;
        };
        query_log = record (s.query_log) {
          ignored = clean_set-clean_set t laws s.query_log.ignored i;
        };
        statistics = record (s.statistics) {
          ignored = clean_set-clean_set t laws s.statistics.ignored i;
        };
      }

  dhcp_fixed :
      (d : Option DhcpConfig)
      → Option.map (canonicalise_dhcp t) (Option.map (canonicalise_dhcp t) d)
        ≡ Option.map (canonicalise_dhcp t) d
  dhcp_fixed none = refl
  dhcp_fixed (some c) = ap some (canonicalise_dhcp_fixed t laws c)

  pub canonical_node_fixed :
      (n : NodeSpecific) → canonical_node t (canonical_node t n) ≡ canonical_node t n
  unfolding canonical_node
  canonical_node_fixed n = λ i. record n {
    bind_hosts = clean_set-clean_set t laws n.bind_hosts i;
    dhcp = dhcp_fixed n.dhcp i;
  }

  -- The canonical form of the areas, after the version is converted.
  pub converted_areas_fixed :
      (v : ℕ) (areas : List Unsupported)
      → let once = sort_by area_less (converted_areas v areas) in
        sort_by area_less (converted_areas (converted_version v) once) ≡ once
  converted_areas_fixed v areas =
      let once = sort_by area_less (converted_areas v areas) in
      let same = kept (converted_version v) once (converted_version_fixed v).1 in
      ap (sort_by area_less) same
      ∙ sort_by-sort_by area_less area_less_asym (converted_areas v areas)

  -- A document in canonical form is left as it is by `Canonicalise`, whatever its schema version
  -- was.
  pub canonicalise-canonicalise :
      (d : Document) → canonicalise t (canonicalise t d) ≡ canonicalise t d
  unfolding canonicalise
  canonicalise-canonicalise d = λ i. record {
    schema_version = (converted_version_fixed d.schema_version).0 i;
    shared = canonical_shared_fixed d.shared i;
    node_specific = canonical_node_fixed d.node_specific i;
    observed_only = record (d.observed_only) {
      tls = record (d.observed_only.tls) {
        dns_names = clean_set-clean_set t laws d.observed_only.tls.dns_names i;
      };
    };
    unsupported = converted_areas_fixed d.schema_version d.unsupported i;
  }
