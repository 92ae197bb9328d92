-- ===== src/Configuration/Model.antt =====
-- internal/configuration/model.go: the documents.
--
-- A Go map is an association list in the order of its keys, as JSON writes it, and a nil slice is
-- an empty list. A schema version is not negative.
use atlas_dns.Base.{ℕ, String, Bool, Option, List}
use atlas_dns.Base.Int.{ℤ}

pub record DnsConfig : Type 0 where
  pub upstream_dns : List String
  pub bootstrap_dns : List String
  pub fallback_dns : List String
  pub private_reverse_dns : List String
  pub protection_enabled : Bool
  pub rate_limit : ℤ
  pub rate_limit_ipv4 : ℤ
  pub rate_limit_ipv6 : ℤ
  pub rate_limit_allowlist : List String
  pub blocking_mode : String
  pub blocking_ipv4 : String
  pub blocking_ipv6 : String
  pub blocked_response_ttl : ℤ
  pub edns_client_subnet : Bool
  pub edns_use_custom : Bool
  pub edns_custom_ip : String
  pub disable_ipv6 : Bool
  pub dnssec_enabled : Bool
  pub cache_size : ℤ
  pub cache_enabled : Bool
  pub cache_ttl_min : ℤ
  pub cache_ttl_max : ℤ
  pub cache_optimistic : Bool
  pub upstream_mode : String
  pub use_private_reverse : Bool
  pub resolve_clients : Bool
  pub upstream_timeout : ℤ

pub record Filtering : Type 0 where
  pub enabled : Bool
  pub update_interval : ℤ
  pub filter_urls : List String
  pub whitelist_urls : List String
  pub user_rules : List String

pub record SafeSearch : Type 0 where
  pub enabled : Bool
  pub bing : Bool
  pub duckduckgo : Bool
  pub ecosia : Bool
  pub google : Bool
  pub pixabay : Bool
  pub yandex : Bool
  pub youtube : Bool

pub record DayRange : Type 0 where
  pub start : ℤ
  pub end : ℤ

pub record Schedule : Type 0 where
  pub time_zone : String
  pub days : List (String × DayRange)

pub record PersistentClient : Type 0 where
  pub name : String
  pub ids : List String
  pub use_global_settings : Bool
  pub filtering_enabled : Bool
  pub parental_enabled : Bool
  pub safe_browsing_enabled : Bool
  pub safe_search : SafeSearch
  pub use_global_blocked_services : Bool
  pub blocked_services : List String
  pub blocked_services_schedule : Schedule
  pub upstreams : List String
  pub upstreams_cache_enabled : Bool
  pub upstreams_cache_size : ℤ
  pub tags : List String
  pub ignore_query_log : Bool
  pub ignore_statistics : Bool

pub record Rewrite : Type 0 where
  pub domain : String
  pub answer : String
  pub enabled : Bool

pub record Services : Type 0 where
  pub blocked_service_ids : List String
  pub blocked_schedule : Schedule
  pub safe_browsing : Bool
  pub parental_control : Bool
  pub safe_search : SafeSearch

pub record QueryLogPolicy : Type 0 where
  pub enabled : Bool
  pub interval_millis : ℤ
  pub anonymize_client_ip : Bool
  pub ignored : List String
  pub ignored_enabled : Bool

pub record StatisticsPolicy : Type 0 where
  pub enabled : Bool
  pub interval_millis : ℤ
  pub ignored : List String
  pub ignored_enabled : Bool

pub record Shared : Type 0 where
  pub dns : DnsConfig
  pub filtering : Filtering
  pub clients : List PersistentClient
  pub rewrites_enabled : Bool
  pub rewrites : List Rewrite
  pub services : Services
  pub query_log : QueryLogPolicy
  pub statistics : StatisticsPolicy

pub record DhcpIpv4 : Type 0 where
  pub gateway : String
  pub subnet_mask : String
  pub range_start : String
  pub range_end : String
  pub lease_duration : ℤ

pub record DhcpIpv6 : Type 0 where
  pub range_start : String
  pub lease_duration : ℤ

pub record DhcpStaticLease : Type 0 where
  pub mac : String
  pub ip : String
  pub hostname : String

pub record DhcpConfig : Type 0 where
  pub enabled : Bool
  pub interface_name : String
  pub ipv4 : DhcpIpv4
  pub ipv6 : DhcpIpv6
  pub static_leases : List DhcpStaticLease

pub record NodeSpecific : Type 0 where
  pub bind_hosts : List String
  pub dns_port : ℤ
  pub dhcp : Option DhcpConfig

pub record DhcpLease : Type 0 where
  pub mac : String
  pub ip : String
  pub hostname : String
  pub expires_at : String

pub record TlsStatus : Type 0 where
  pub enabled : Bool
  pub server_name : String
  pub force_https : Bool
  pub https_port : ℤ
  pub dns_over_tls_port : ℤ
  pub dns_over_quic_port : ℤ
  pub serve_plain_dns : Bool
  pub valid_certificate : Bool
  pub valid_chain : Bool
  pub valid_key : Bool
  pub valid_pair : Bool
  pub subject : String
  pub issuer : String
  pub not_before : String
  pub not_after : String
  pub dns_names : List String
  pub warning : String

pub record ObservedOnly : Type 0 where
  pub product_version : String
  pub protection_disabled_until : String
  pub tls : TlsStatus
  pub dhcp_leases : List DhcpLease

pub record Unsupported : Type 0 where
  pub section : String
  pub reason : String

pub record Document : Type 0 where
  pub schema_version : ℕ
  pub shared : Shared
  pub node_specific : NodeSpecific
  pub observed_only : ObservedOnly
  pub unsupported : List Unsupported

pub record DesiredDocument : Type 0 where
  pub schema_version : ℕ
  pub shared : Shared
  pub node_overrides : List (String × NodeSpecific)
  pub unsupported : List Unsupported
