-- ===== src/Configuration/Rows.antt =====
-- internal/configuration/model.go: the fields that `Diff` compares.
use atlas_dns.Base.{String, Bool, Option, List, [], ◌∷◌, ◌++◌, if◌then◌else◌}
use atlas_dns.Base.Int.{ℤ}
use atlas_dns.Controlplane.Model.{Ownership}
use atlas_dns.Configuration.Model.{
  Document, PersistentClient, Rewrite, Schedule, SafeSearch, QueryLogPolicy, StatisticsPolicy,
  DhcpConfig, Unsupported,
}

-- The Go types of the values that `add` is called with; a `[]any` is the product of its entries.
pub data Kind : Type 0 where
  texts flag integer word clients rewrites blocked search query_log statistics custom cache both
        dhcp areas :
      Kind

abbrev pub Value : Kind → Type 0
Value texts = List String
Value flag = Bool
Value integer = ℤ
Value word = String
Value clients = List PersistentClient
Value rewrites = Bool × List Rewrite
Value blocked = List String × Schedule
Value search = SafeSearch
Value query_log = QueryLogPolicy
Value statistics = StatisticsPolicy
Value custom = Bool × String
Value cache = Bool × ℤ × ℤ × ℤ × Bool
Value both = Bool × Bool
Value dhcp = Option DhcpConfig
Value areas = List Unsupported

-- The arguments of a call of `add`.
pub record Row : Type 0 where
  pub section : String
  pub field : String
  pub scope : Ownership
  pub kind : Kind
  pub left : Value kind
  pub right : Value kind

abbrev pub row : String → String → Ownership → (k : Kind) → Value k → Value k → Row
row section field scope k a b = record {
  section = section;
  field = field;
  scope = scope;
  kind = k;
  left = a;
  right = b;
}

abbrev pub shared_row : String → String → (k : Kind) → Value k → Value k → Row
shared_row section field k a b = row section field Ownership.shared_managed k a b

abbrev pub dns_rows : Document → Document → List Row
dns_rows left right =
    let a = left.shared.dns in
    let b = right.shared.dns in
    shared_row "DNS" "Protection enabled" flag a.protection_enabled b.protection_enabled
    ∷ shared_row "DNS" "Rate limit" integer a.rate_limit b.rate_limit
    ∷ shared_row "DNS" "Rate-limit IPv4 subnet" integer a.rate_limit_ipv4 b.rate_limit_ipv4
    ∷ shared_row "DNS" "Rate-limit IPv6 subnet" integer a.rate_limit_ipv6 b.rate_limit_ipv6
    ∷ shared_row "DNS" "Rate-limit allowlist" texts a.rate_limit_allowlist b.rate_limit_allowlist
    ∷ shared_row "DNS" "Blocking mode" word a.blocking_mode b.blocking_mode
    ∷ shared_row "DNS" "Blocking IPv4" word a.blocking_ipv4 b.blocking_ipv4
    ∷ shared_row "DNS" "Blocking IPv6" word a.blocking_ipv6 b.blocking_ipv6
    ∷ shared_row "DNS" "Blocked response TTL" integer a.blocked_response_ttl b.blocked_response_ttl
    ∷ shared_row "DNS" "EDNS client subnet" flag a.edns_client_subnet b.edns_client_subnet
    ∷ shared_row "DNS" "EDNS custom address" custom (a.edns_use_custom, a.edns_custom_ip)
        (b.edns_use_custom, b.edns_custom_ip)
    ∷ shared_row "DNS" "Disable IPv6" flag a.disable_ipv6 b.disable_ipv6
    ∷ shared_row "DNS" "DNSSEC" flag a.dnssec_enabled b.dnssec_enabled
    ∷ shared_row "DNS" "Cache" cache
        (a.cache_enabled, a.cache_size, a.cache_ttl_min, a.cache_ttl_max, a.cache_optimistic)
        (b.cache_enabled, b.cache_size, b.cache_ttl_min, b.cache_ttl_max, b.cache_optimistic)
    ∷ shared_row "DNS" "Upstream mode" word a.upstream_mode b.upstream_mode
    ∷ shared_row "DNS" "Upstream timeout" integer a.upstream_timeout b.upstream_timeout
    ∷ shared_row "DNS" "Private reverse and client resolution" both
        (a.use_private_reverse, a.resolve_clients) (b.use_private_reverse, b.resolve_clients)
    ∷ []

abbrev pub service_rows : Document → Document → List Row
service_rows left right =
    let a = left.shared in
    let b = right.shared in
    shared_row "Filtering" "Allowlist subscriptions" texts a.filtering.whitelist_urls
      b.filtering.whitelist_urls
    ∷ shared_row "Clients" "Persistent clients" clients a.clients b.clients
    ∷ shared_row "Rewrites" "DNS rewrites" rewrites (a.rewrites_enabled, a.rewrites)
        (b.rewrites_enabled, b.rewrites)
    ∷ shared_row "Services" "Blocked services" blocked
        (a.services.blocked_service_ids, a.services.blocked_schedule)
        (b.services.blocked_service_ids, b.services.blocked_schedule)
    ∷ shared_row "Services" "Safe browsing" flag a.services.safe_browsing b.services.safe_browsing
    ∷ shared_row "Services" "Parental control" flag a.services.parental_control
        b.services.parental_control
    ∷ shared_row "Services" "Safe search" search a.services.safe_search b.services.safe_search
    ∷ shared_row "Query log" "Policy" query_log a.query_log b.query_log
    ∷ shared_row "Statistics" "Policy" statistics a.statistics b.statistics
    ∷ []

-- The calls of `add`; `fresh` tells whether either document is of the current schema.
unfoldable pub rows : Bool → Document → Document → List Row
rows fresh left right =
    let a = left.shared in
    let b = right.shared in
    let m = left.node_specific in
    let n = right.node_specific in
    (shared_row "DNS" "Upstream DNS" texts a.dns.upstream_dns b.dns.upstream_dns
      ∷ shared_row "DNS" "Bootstrap DNS" texts a.dns.bootstrap_dns b.dns.bootstrap_dns
      ∷ shared_row "DNS" "Fallback DNS" texts a.dns.fallback_dns b.dns.fallback_dns
      ∷ shared_row "DNS" "Private reverse DNS" texts a.dns.private_reverse_dns
          b.dns.private_reverse_dns
      ∷ [])
    ++ (if fresh then dns_rows left right else [])
    ++ (shared_row "Filtering" "Enabled" flag a.filtering.enabled b.filtering.enabled
        ∷ shared_row "Filtering" "Update interval" integer a.filtering.update_interval
            b.filtering.update_interval
        ∷ shared_row "Filtering" "Filter subscriptions" texts a.filtering.filter_urls
            b.filtering.filter_urls
        ∷ [])
    ++ (if fresh then service_rows left right else [])
    ++ (shared_row "Filtering" "Custom rules" texts a.filtering.user_rules b.filtering.user_rules
        ∷ row "DNS" "Bind hosts" Ownership.node_managed texts m.bind_hosts n.bind_hosts
        ∷ row "DNS" "DNS port" Ownership.node_managed integer m.dns_port n.dns_port
        ∷ [])
    ++ (if fresh
        then row "DHCP" "Configuration and static leases" Ownership.node_managed dhcp m.dhcp n.dhcp
          ∷ []
        else [])
    ++ row "Compatibility" "Unsupported areas" Ownership.unsupported_field areas left.unsupported
        right.unsupported
      ∷ []
