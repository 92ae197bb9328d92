-- ===== src/Configuration/Canonical.antt =====
-- internal/configuration/model.go: the canonical form of documents, and what is read from them.
use atlas_dns.Base.{
  ℕ, String, Bool, false, not, ◌&&◌, ◌||◌, none, some, List, [], ◌∷◌, ◌++◌, map, str_eq, ◌==◌,
  if◌then◌else◌, any,
}
use atlas_dns.Base.Order.{less}
use atlas_dns.Base.Int.{pos}
use mathlib.Core.Option
use atlas_dns.Base.Sort.{sort_by}
use atlas_dns.Base.Map.{lookup}
use atlas_dns.Base.Act.{Result, ok, err}
use atlas_dns.Domain.{Failure, other_error}
use atlas_dns.Configuration.Model.{
  Document, DesiredDocument, Shared, DnsConfig, PersistentClient, Rewrite, NodeSpecific,
  ObservedOnly, Unsupported,
}
use atlas_dns.Configuration.Clean.{
  Texts, clean_ordered, clean_set, canonical_schedule, canonicalise_dhcp,
}

abbrev pub legacy_schema_version : ℕ
legacy_schema_version = 1

abbrev pub current_schema_version : ℕ
current_schema_version = 2

abbrev pub legacy_migration_section : String
legacy_migration_section = "legacy_schema1"

unfoldable pub is_legacy_converted : List Unsupported → Bool
is_legacy_converted values =
    any (λ (v : Unsupported). str_eq v.section legacy_migration_section) values

abbrev pub legacy_note : Unsupported
legacy_note = record {
  section = legacy_migration_section;
  reason =
      "Imported from a v1.0.x schema-1 record; import and publish a fresh schema-2 revision before deployment";
}

-- The schema version and the unsupported areas, by the version that was given.
unfoldable pub converted_version : ℕ → ℕ
converted_version version =
    if version == 0 || version == legacy_schema_version then current_schema_version else version

unfoldable pub converted_areas : ℕ → List Unsupported → List Unsupported
converted_areas version areas =
    if version == legacy_schema_version && not (is_legacy_converted areas)
    then areas ++ legacy_note ∷ []
    else areas

abbrev pub area_less : Unsupported → Unsupported → Bool
area_less a b =
    if str_eq a.section b.section then less a.reason b.reason else less a.section b.section

module _ (t : Texts) where
  unfoldable pub canonical_client : PersistentClient → PersistentClient
  canonical_client client = record client {
    name = t.trim client.name;
    ids = clean_set t client.ids;
    blocked_services = clean_set t client.blocked_services;
    blocked_services_schedule = canonical_schedule t client.blocked_services_schedule;
    upstreams = clean_ordered t client.upstreams;
    tags = clean_set t client.tags;
  }

  abbrev pub client_less : PersistentClient → PersistentClient → Bool
  client_less a b = less (t.lower a.name) (t.lower b.name)

  unfoldable pub canonical_rewrite : Rewrite → Rewrite
  canonical_rewrite rewrite = record rewrite {
    domain = t.trim rewrite.domain;
    answer = t.trim rewrite.answer;
  }

  abbrev pub rewrite_less : Rewrite → Rewrite → Bool
  rewrite_less a b =
      if t.equal_fold a.domain b.domain
      then less (t.lower a.answer) (t.lower b.answer)
      else less (t.lower a.domain) (t.lower b.domain)

  unfoldable pub canonical_dns : DnsConfig → DnsConfig
  canonical_dns dns = record dns {
    upstream_dns = clean_ordered t dns.upstream_dns;
    bootstrap_dns = clean_set t dns.bootstrap_dns;
    fallback_dns = clean_ordered t dns.fallback_dns;
    private_reverse_dns = clean_set t dns.private_reverse_dns;
    rate_limit_allowlist = clean_set t dns.rate_limit_allowlist;
    blocking_mode = t.trim dns.blocking_mode;
    edns_custom_ip = t.trim dns.edns_custom_ip;
    upstream_mode = t.trim dns.upstream_mode;
  }

  -- The shared part of `Canonicalise`.
  unfoldable pub canonical_shared : Shared → Shared
  unfolding canonical_dns canonical_client canonical_rewrite
  canonical_shared s = record s {
    dns = canonical_dns s.dns;
    filtering = record s.filtering {
      filter_urls = clean_set t s.filtering.filter_urls;
      whitelist_urls = clean_set t s.filtering.whitelist_urls;
      user_rules = clean_ordered t s.filtering.user_rules;
    };
    clients = sort_by client_less (map canonical_client s.clients);
    rewrites = sort_by rewrite_less (map canonical_rewrite s.rewrites);
    services = record s.services {
      blocked_service_ids = clean_set t s.services.blocked_service_ids;
      blocked_schedule = canonical_schedule t s.services.blocked_schedule;
    };
    query_log = record s.query_log { ignored = clean_set t s.query_log.ignored };
    statistics = record s.statistics { ignored = clean_set t s.statistics.ignored };
  }

  unfoldable pub canonical_node : NodeSpecific → NodeSpecific
  canonical_node n = record n {
    bind_hosts = clean_set t n.bind_hosts;
    dhcp = Option.map (canonicalise_dhcp t) n.dhcp;
  }

  unfoldable pub canonicalise : Document → Document
  unfolding canonical_shared canonical_node converted_version converted_areas
  canonicalise d = record {
    schema_version = converted_version d.schema_version;
    shared = canonical_shared d.shared;
    node_specific = canonical_node d.node_specific;
    observed_only = record d.observed_only {
      tls = record d.observed_only.tls { dns_names = clean_set t d.observed_only.tls.dns_names };
    };
    unsupported = sort_by area_less (converted_areas d.schema_version d.unsupported);
  }

  -- `Document{…}` with the fields left out at their zero values.
  abbrev pub no_node : NodeSpecific
  no_node = record { bind_hosts = []; dns_port = pos 0; dhcp = none }

  abbrev pub nothing_observed : ObservedOnly
  nothing_observed = record {
    product_version = "";
    protection_disabled_until = "";
    tls = record {
      enabled = false;
      server_name = "";
      force_https = false;
      https_port = pos 0;
      dns_over_tls_port = pos 0;
      dns_over_quic_port = pos 0;
      serve_plain_dns = false;
      valid_certificate = false;
      valid_chain = false;
      valid_key = false;
      valid_pair = false;
      subject = "";
      issuer = "";
      not_before = "";
      not_after = "";
      dns_names = [];
      warning = "";
    };
    dhcp_leases = [];
  }

  abbrev pub canonical_override : String × NodeSpecific → String × NodeSpecific
  canonical_override entry = (entry.0, canonical_node entry.1)

  unfoldable pub canonicalise_desired : DesiredDocument → DesiredDocument
  unfolding canonicalise
  canonicalise_desired d =
      let observed = canonicalise (record {
        schema_version = if d.schema_version == 0 then current_schema_version else d.schema_version;
        shared = d.shared;
        node_specific = no_node;
        observed_only = nothing_observed;
        unsupported = d.unsupported;
      }) in
      record {
        schema_version = observed.schema_version;
        shared = observed.shared;
        node_overrides = map canonical_override d.node_overrides;
        unsupported = observed.unsupported;
      }

  unfoldable pub desired_from_observation : String → Document → DesiredDocument
  unfolding canonicalise_desired
  desired_from_observation node d = canonicalise_desired (record {
    schema_version = current_schema_version;
    shared = d.shared;
    node_overrides = (node, d.node_specific) ∷ [];
    unsupported = d.unsupported;
  })

  unfoldable pub project_document : Document → ℕ → Document
  unfolding canonicalise
  project_document d version = record (canonicalise d) { schema_version = current_schema_version }

  unfoldable pub convert_legacy_document : Document → Document
  unfolding canonicalise
  convert_legacy_document d = canonicalise (record d { schema_version = legacy_schema_version })

  unfoldable pub convert_legacy_desired : DesiredDocument → DesiredDocument
  unfolding canonicalise_desired
  convert_legacy_desired d =
      canonicalise_desired (record d { schema_version = legacy_schema_version })

  unfoldable pub effective : DesiredDocument → String → Result Failure Document
  effective d node =
      let c = canonicalise_desired d in
      elim (lookup node c.node_overrides) [
        | none ↦ err (other_error "the node has no desired override")
        | some override ↦ ok (
            canonicalise (record {
              schema_version = c.schema_version;
              shared = c.shared;
              node_specific = override;
              observed_only = nothing_observed;
              unsupported = c.unsupported;
            }))
      ]
