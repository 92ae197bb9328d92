-- ===== src/Configuration/Validate/Leases.antt =====
-- internal/configuration/model.go: the validation of the DHCP settings of a node.
use atlas_dns.Base.{
  ℕ, ◌+◌, String, Bool, not, ◌&&◌, ◌||◌, Option, none, some, List, [], ◌∷◌, ◌++◌, str_eq, ◌==◌,
  if◌then◌else◌,
}
use Prim.Native.String.{◌++◌ as append}
use atlas_dns.Base.Int.{is_above}
use atlas_dns.Configuration.Clean.{Texts, member}
use atlas_dns.Configuration.Model.{DhcpConfig, DhcpIpv4, DhcpIpv6, DhcpStaticLease}
use atlas_dns.Configuration.Validate.Checks.{
  ValidationIssue, Network, issue, when, is_none, fails, indexed, valid_dhcp_hostname,
}

module _ (net : Network) where
  open net use {Address}

  -- The range of addresses, once the gateway, its mask and both ends are known.
  unfoldable pub validate_range : String → Address → ℕ → Address → Address → List ValidationIssue
  validate_range prefix gateway ones start end =
      when (not (net.contains gateway ones start) || not (net.contains gateway ones end))
        (issue (append prefix ".ipv4") "range start and end must be within the gateway subnet")
      ++ when (net.precedes end start)
          (issue (append prefix ".ipv4.rangeEnd") "must not be before range start")

  abbrev pub bad_ipv4 : String → List ValidationIssue
  bad_ipv4 prefix =
      issue (append prefix ".ipv4")
        "gateway, contiguous subnet mask, range start, and range end must be valid IPv4 values"
      ∷ []

  abbrev pub ipv4_of : String → Option Address
  ipv4_of text = elim (net.parse_address text) [
    | none ↦ none
    | some a ↦ if net.is4 a then some a else none
  ]

  -- The values of the settings that are addresses of the right kind, with the mask's ones and bits.
  abbrev pub check_ipv4 :
      String → ℕ → ℕ → Option Address → Option Address → Option Address → List ValidationIssue
  check_ipv4 prefix ones bits (some gateway) (some start) (some end) =
      if bits == 32 then validate_range prefix gateway ones start end else bad_ipv4 prefix
  check_ipv4 prefix ones bits _ _ _ = bad_ipv4 prefix

  unfoldable pub validate_ipv4 : String → DhcpIpv4 → List ValidationIssue
  unfolding validate_range
  validate_ipv4 prefix config =
      let size = net.mask_size config.subnet_mask in
      check_ipv4 prefix size.0 size.1 (ipv4_of config.gateway) (ipv4_of config.range_start)
        (ipv4_of config.range_end)

  abbrev pub sets_ipv4 : DhcpConfig → Bool
  sets_ipv4 config =
      config.enabled
      || not (str_eq config.ipv4.gateway "")
      || not (str_eq config.ipv4.subnet_mask "")
      || not (str_eq config.ipv4.range_start "")
      || not (str_eq config.ipv4.range_end "")

  unfoldable pub validate_ipv6 : String → DhcpIpv6 → List ValidationIssue
  validate_ipv6 prefix config =
      if str_eq config.range_start ""
      then []
      else when (fails net.is6 (net.parse_address config.range_start))
          (issue (append prefix ".ipv6.rangeStart") "must be an IPv6 address")
        ++ when (not (is_above 0 config.lease_duration)) (
            issue (append prefix ".ipv6.leaseDurationSeconds")
              "must be positive when an IPv6 range is configured")

  module _ (t : Texts) where
    -- The loop over the leases, with the MAC addresses and the addresses seen.
    unfoldable pub validate_leases :
        String → ℕ → List String → List String → List DhcpStaticLease → List ValidationIssue
    unfolding valid_dhcp_hostname
    validate_leases prefix index macs ips [] = []
    validate_leases prefix index macs ips (lease ∷ leases) =
        let field = indexed net (append prefix ".staticLeases") index in
        let mac = net.parse_mac (t.trim lease.mac) in
        let ip = net.parse_address (t.trim lease.ip) in
        let named = valid_dhcp_hostname (t.trim lease.hostname) in
        let same = validate_leases prefix (index + 1) macs ips leases in
        when (is_none mac) (issue (append field ".mac") "must be a valid six-byte MAC address")
        ++ when (is_none ip) (issue (append field ".ip") "must be a valid IP address")
        ++ when (not named) (issue (append field ".hostname") "must contain valid hostname labels")
        ++ elim mac [
          | none ↦ same
          | some m ↦ elim ip [
            | none ↦ same
            | some a ↦
                let later =
                  validate_leases prefix (index + 1) (m ∷ macs) (net.address_text a ∷ ips) leases in
                if named
                then when (member m macs || member (net.address_text a) ips)
                    (issue field "MAC and IP must be unique within the node")
                  ++ later
                else same
          ]
        ]

    unfoldable pub validate_dhcp : String → DhcpConfig → List ValidationIssue
    validate_dhcp prefix config =
        when (config.enabled && str_eq (t.trim config.interface_name) "")
          (issue (append prefix ".interfaceName") "is required when DHCP is enabled")
        ++ when (config.enabled && not (is_above 0 config.ipv4.lease_duration)) (
            issue (append prefix ".ipv4.leaseDurationSeconds")
              "must be positive when DHCP is enabled")
        ++ (if sets_ipv4 config then validate_ipv4 prefix config.ipv4 else [])
        ++ validate_ipv6 prefix config.ipv6
        ++ validate_leases prefix 0 [] [] config.static_leases
