-- ===== src/Configuration/Validate/Settings.antt =====
-- internal/configuration/model.go: the validation of the shared settings.
use atlas_dns.Base.{ℕ, ◌+◌, String, Bool, not, ◌&&◌, ◌||◌, List, [], ◌∷◌, ◌++◌, str_eq, is_empty}
use Prim.Native.Char.{nul}
use Prim.Native.String.{◌++◌ as append, ◌∷◌ as cons}
use atlas_dns.Base.Int.{ℤ, is_negative, is_above, ltb_ℤ, is_zero}
use atlas_dns.Configuration.Clean.{Texts, member}
use atlas_dns.Configuration.Model.{Shared, DnsConfig, PersistentClient, Rewrite}
use atlas_dns.Configuration.Validate.Checks.{
  ValidationIssue, Network, issue, when, fails, indexed, valid_address, validate_schedule,
  each_index,
}

abbrev pub is_blocking_mode : String → Bool
is_blocking_mode mode =
    str_eq mode ""
    || str_eq mode "default"
    || str_eq mode "refused"
    || str_eq mode "nxdomain"
    || str_eq mode "null_ip"
    || str_eq mode "custom_ip"

abbrev pub is_upstream_mode : String → Bool
is_upstream_mode mode =
    str_eq mode ""
    || str_eq mode "load_balance"
    || str_eq mode "fastest_addr"
    || str_eq mode "parallel"

abbrev pub is_out_of : ℕ → ℤ → Bool
is_out_of most value = is_negative value || is_above most value

-- One hour and one year, in milliseconds; 0 stands for no interval.
abbrev pub is_bad_interval : ℤ → Bool
is_bad_interval value =
    not (is_zero value) && (not (is_above 3599999 value) || is_above 31536000000 value)

module _ (net : Network) where
  unfoldable pub validate_dns : DnsConfig → List ValidationIssue
  validate_dns dns =
      when (is_negative dns.rate_limit) (issue "shared.dns.rateLimit" "must not be negative")
      ++ when (is_negative dns.blocked_response_ttl)
          (issue "shared.dns.blockedResponseTtl" "must not be negative")
      ++ when (is_out_of 32 dns.rate_limit_ipv4)
          (issue "shared.dns.rateLimitSubnetLengthIpv4" "must be between 0 and 32")
      ++ when (is_out_of 128 dns.rate_limit_ipv6)
          (issue "shared.dns.rateLimitSubnetLengthIpv6" "must be between 0 and 128")
      ++ when (not (is_blocking_mode dns.blocking_mode))
          (issue "shared.dns.blockingMode" "is not supported")
      ++ when
          (not (str_eq dns.blocking_ipv4 "") && fails net.is4 (net.parse_address dns.blocking_ipv4))
          (issue "shared.dns.blockingIpv4" "must be an IPv4 address")
      ++ when
          (not (str_eq dns.blocking_ipv6 "") && fails net.is6 (net.parse_address dns.blocking_ipv6))
          (issue "shared.dns.blockingIpv6" "must be an IPv6 address")
      ++ when (not (is_upstream_mode dns.upstream_mode))
          (issue "shared.dns.upstreamMode" "is not supported")
      ++ each_index net (λ a. net.is_prefix a || valid_address net a)
          "shared.dns.rateLimitAllowlist" "must be an IP address or prefix" 0
          dns.rate_limit_allowlist
      ++ when (dns.edns_use_custom && not (valid_address net dns.edns_custom_ip))
          (issue "shared.dns.ednsCustomIp" "must be an IP address when custom EDNS is enabled")
      ++ when
          (is_negative dns.cache_size
            || is_negative dns.cache_ttl_min
            || is_negative dns.cache_ttl_max
            || (is_above 0 dns.cache_ttl_max && ltb_ℤ dns.cache_ttl_max dns.cache_ttl_min))
          (issue "shared.dns.cache"
            "cache size and TTL values must be non-negative and the minimum must not exceed the maximum")
      ++ when (dns.cache_enabled && not (is_above 0 dns.cache_size))
          (issue "shared.dns.cacheSize" "must be positive when the cache is enabled")
      ++ when (is_negative dns.upstream_timeout)
          (issue "shared.dns.upstreamTimeoutSeconds" "must not be negative")

  module _ (t : Texts) where
    -- The identifiers of one client, with those seen; what it has seen in the end is the second.
    unfoldable pub check_ids : ValidationIssue → List String → List String → List ValidationIssue
    check_ids repeated seen [] = []
    check_ids repeated seen (id ∷ ids) =
        when (member (t.lower id) seen) repeated ++ check_ids repeated (t.lower id ∷ seen) ids

    abbrev pub seen_ids : List String → List String → List String
    seen_ids seen [] = seen
    seen_ids seen (id ∷ ids) = seen_ids (t.lower id ∷ seen) ids

    unfoldable pub validate_clients :
        ℕ → List String → List String → List PersistentClient → List ValidationIssue
    validate_clients index names ids [] = []
    validate_clients index names ids (client ∷ clients) =
        let at = indexed net "shared.clients" index in
        when (str_eq client.name "" || member (t.lower client.name) names)
          (issue (append at ".name") "must be non-empty and unique")
        ++ when (is_empty client.ids)
            (issue (append at ".ids") "must contain at least one identifier")
        ++ check_ids (issue (append at ".ids") "identifiers must be unique across clients") ids
            client.ids
        ++ when (is_negative client.upstreams_cache_size)
            (issue (append at ".upstreamsCacheSize") "must not be negative")
        ++ validate_schedule net (append at ".blockedServicesSchedule")
            client.blocked_services_schedule
        ++ validate_clients (index + 1) (t.lower client.name ∷ names) (seen_ids ids client.ids)
            clients

    abbrev pub rewrite_key : Rewrite → String
    rewrite_key rewrite = append (t.lower rewrite.domain) (cons nul (t.lower rewrite.answer))

    unfoldable pub validate_rewrites : ℕ → List String → List Rewrite → List ValidationIssue
    validate_rewrites index seen [] = []
    validate_rewrites index seen (rewrite ∷ rewrites) =
        when
          (str_eq rewrite.domain ""
            || str_eq rewrite.answer ""
            || member (rewrite_key rewrite) seen)
          (issue (indexed net "shared.rewrites" index)
            "domain and answer must be non-empty and the pair must be unique")
        ++ validate_rewrites (index + 1) (rewrite_key rewrite ∷ seen) rewrites

    -- The two intervals are checked in this order here, in any order in Go.
    unfoldable pub validate_v2_shared : Shared → List ValidationIssue
    validate_v2_shared shared =
        validate_dns shared.dns
        ++ validate_clients 0 [] [] shared.clients
        ++ validate_rewrites 0 [] shared.rewrites
        ++ validate_schedule net "shared.services.blockedSchedule" shared.services.blocked_schedule
        ++ when (is_bad_interval shared.query_log.interval_millis) (
            issue "shared.queryLog.intervalMillis"
              "must be between one hour and one year in milliseconds")
        ++ when (is_bad_interval shared.statistics.interval_millis) (
            issue "shared.statistics.intervalMillis"
              "must be between one hour and one year in milliseconds")
        ++ when (shared.query_log.enabled && is_zero shared.query_log.interval_millis)
            (issue "shared.queryLog.intervalMillis" "must be set when query logging is enabled")
        ++ when (shared.statistics.enabled && is_zero shared.statistics.interval_millis)
            (issue "shared.statistics.intervalMillis" "must be set when statistics are enabled")
