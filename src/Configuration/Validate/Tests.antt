-- ===== src/Configuration/Validate/Tests.antt =====
-- A small network in which documents are validated.
use atlas_dns.Base.{
  ℕ, String, ◌≡◌, refl, true, false, Option, none, some, [], ◌∷◌, map, str_eq, ltb, ◌==◌,
  if◌then◌else◌, length,
}
use atlas_dns.Base.Int.{pos, is_above}
use atlas_dns.Base.Map.{lookup}
use atlas_dns.Base.Sort.{sort_by}
use atlas_dns.Base.Order.{less}
use atlas_dns.Base.Unique.{IsUnique}
use atlas_dns.Configuration.Model.{
  DesiredDocument, Shared, NodeSpecific, DhcpConfig, PersistentClient,
}
use atlas_dns.Configuration.Clean.{clean_ordered, clean_set, canonical_schedule, canonicalise_dhcp}
use atlas_dns.Configuration.Canonical.{canonicalise_desired, canonicalise, is_legacy_converted}
use atlas_dns.Configuration.Canonical.{convert_legacy_desired}
use atlas_dns.Configuration.Validate.Legacy.{convert_legacy_desired_refused}
use atlas_dns.Configuration.Diff.{no_shared, no_search}
use atlas_dns.Configuration.Encoding.{write}
use atlas_dns.Configuration.Tests.{letters}
use atlas_dns.Configuration.Validate.Checks.{
  Network, when, each_index, validate_schedule, valid_dhcp_hostname, valid_http_url,
  validate_node_specific,
}
use atlas_dns.Configuration.Validate.Leases.{
  validate_dhcp, validate_ipv4, validate_ipv6, validate_range, validate_leases,
}
use atlas_dns.Configuration.Validate.Settings.{
  validate_v2_shared, validate_dns, validate_clients, check_ids, validate_rewrites, rewrite_key,
}
use atlas_dns.Configuration.Validate.Required.{
  validate_desired, validate_overrides, validate_override, enabled_dhcp,
}
use atlas_dns.Configuration.Validate.Deployable.{IsDeployable, validate_desired-IsDeployable}
use atlas_dns.Configuration.Validate.Ranges.{IsRange, AreKeys, validate_dhcp-IsRange}
use atlas_dns.Configuration.Validate.Shared.{
  lower_names, lower_ids, IsInterval, validate_v2_shared-IsUnique,
}

abbrev pub address_of : String → Option ℕ
address_of text = lookup text (("10.0.0.1", 1) ∷ ("10.0.0.10", 10) ∷ ("10.0.0.20", 20) ∷ [])

abbrev pub small : Network
small = record {
  Address = ℕ;
  parse_address = address_of;
  is4 = λ a. true;
  is6 = λ a. false;
  precedes = ltb;
  address_text = λ a. if a == 10 then "10.0.0.10" else "10.0.0.20";
  is_prefix = λ s. false;
  mask_size = λ s. if str_eq s "255.255.255.0" then (24, 32) else (0, 0);
  contains = λ g ones a. ltb a 256;
  parse_mac = λ s. if str_eq s "" then none else some s;
  parse_url = λ s. some (record { host = s; has_user = false; scheme = "https" });
  is_location = λ s. true;
  digits = λ n. "0";
}

abbrev pub dhcp : DhcpConfig
dhcp = record {
  enabled = true;
  interface_name = "eth0";
  ipv4 = record {
    gateway = "10.0.0.1";
    subnet_mask = "255.255.255.0";
    range_start = "10.0.0.10";
    range_end = "10.0.0.20";
    lease_duration = pos 60;
  };
  ipv6 = record { range_start = ""; lease_duration = pos 0 };
  static_leases =
      record { mac = "a"; ip = "10.0.0.10"; hostname = "nas-1.lan" }
      ∷ record { mac = "b"; ip = "10.0.0.20"; hostname = "tv" }
      ∷ [];
}

abbrev pub client : String → PersistentClient
client name = record {
  name = name;
  ids = name ∷ [];
  use_global_settings = true;
  filtering_enabled = true;
  parental_enabled = false;
  safe_browsing_enabled = false;
  safe_search = no_search write letters;
  use_global_blocked_services = true;
  blocked_services = [];
  blocked_services_schedule = record {
    time_zone = "Local";
    days = ("mon", record { start = pos 0; end = pos 86400000 }) ∷ [];
  };
  upstreams = [];
  upstreams_cache_enabled = false;
  upstreams_cache_size = pos 0;
  tags = [];
  ignore_query_log = false;
  ignore_statistics = false;
}

abbrev pub settings : Shared
settings = record (no_shared write letters) {
  clients = client "a" ∷ client "b" ∷ [];
  rewrites =
      record { domain = "x"; answer = "1"; enabled = true }
      ∷ record { domain = "x"; answer = "2"; enabled = true }
      ∷ [];
  query_log = record (no_shared write letters).query_log {
    enabled = true;
    interval_millis = pos 3600000;
  };
}

abbrev pub node : Option DhcpConfig → NodeSpecific
node d = record { bind_hosts = "10.0.0.1" ∷ []; dns_port = pos 53; dhcp = d }

abbrev pub two_nodes : DesiredDocument
two_nodes = record {
  schema_version = 2;
  shared = settings;
  node_overrides = ("n1", node (some dhcp)) ∷ ("n2", node none) ∷ [];
  unsupported = [];
}

unfoldable pub opened : Unit {0}
unfolding lookup sort_by less clean_ordered clean_set canonical_schedule canonicalise_dhcp
    canonicalise_desired canonicalise is_legacy_converted when each_index validate_schedule
    valid_dhcp_hostname valid_http_url validate_node_specific validate_dhcp validate_ipv4
    validate_ipv6 validate_range validate_leases validate_v2_shared validate_dns validate_clients
    check_ids validate_rewrites validate_desired validate_overrides validate_override enabled_dhcp
opened = tt

validate_desired-IsDeployable_example : IsDeployable small letters two_nodes ("n1" ∷ "n2" ∷ [])
unfolding opened
validate_desired-IsDeployable_example =
    validate_desired-IsDeployable small letters two_nodes ("n1" ∷ "n2" ∷ []) refl

-- A second node with DHCP is refused.
both_run_dhcp :
    length (
      validate_desired small letters
        (record two_nodes {
          node_overrides = ("n1", node (some dhcp)) ∷ ("n2", node (some dhcp)) ∷ [];
        })
        ("n1" ∷ "n2" ∷ []))
    ≡ 1
unfolding opened
both_run_dhcp = refl

validate_dhcp-IsRange_example :
    (dhcp.enabled ≡ true
      → (str_eq (letters.trim dhcp.interface_name) "" ≡ false)
        × (is_above 0 dhcp.ipv4.lease_duration ≡ true)
        × IsRange small dhcp.ipv4)
    × (keys : AreKeys small letters [] [] dhcp.static_leases) × IsUnique keys.mac_keys
    × IsUnique keys.ip_keys
unfolding opened
validate_dhcp-IsRange_example = validate_dhcp-IsRange small letters "dhcp" dhcp refl

validate_v2_shared-IsUnique_example :
    IsUnique (lower_names small letters settings.clients)
    × IsUnique (lower_ids small letters settings.clients)
    × IsUnique (map (rewrite_key small letters) settings.rewrites)
    × IsInterval settings.query_log.interval_millis
    × IsInterval settings.statistics.interval_millis
unfolding opened
validate_v2_shared-IsUnique_example = validate_v2_shared-IsUnique small letters settings refl

host_names :
    (valid_dhcp_hostname "nas-1.lan" ≡ true)
    × (valid_dhcp_hostname "-nas" ≡ false)
    × (valid_dhcp_hostname "nas..lan" ≡ false)
    × (valid_dhcp_hostname "" ≡ false)
unfolding opened
host_names = (refl, refl, refl, refl)

convert_legacy_desired_refused_example : ¬ (
    validate_desired small letters (convert_legacy_desired letters two_nodes) ("n1" ∷ "n2" ∷ [])
    ≡ [])
convert_legacy_desired_refused_example =
    convert_legacy_desired_refused letters small two_nodes ("n1" ∷ "n2" ∷ [])
