-- ===== src/Configuration/Validate/Ranges.antt =====
-- internal/configuration/model.go: what holds of DHCP settings without issues.
use atlas_dns.Base.{
  ℕ, ◌+◌, String, ◌≡◌, refl, inl, inr, true, false, not, ◌&&◌, ◌||◌, some, List, [], ◌∷◌, map,
  arith, str_eq, if◌then◌else◌, Option-cases,
}
use atlas_dns.Base.Int.{is_above}
use atlas_dns.Configuration.Model.{DhcpConfig}
use atlas_dns.Base.Unique.{IsUnique, AreNew-IsUnique}
use atlas_dns.Configuration.Validate.Leases.{sets_ipv4, validate_ipv6, validate_dhcp}
use atlas_dns.Configuration.Validate.Bounds.{append-empty, when-empty}
use mathlib.Core.Option
use atlas_dns.Base.Unique.{AreNew}
use atlas_dns.Configuration.Model.{DhcpIpv4, DhcpStaticLease}
use atlas_dns.Configuration.Clean.{Texts, member}
use atlas_dns.Configuration.Validate.Checks.{Network, when, valid_dhcp_hostname}
use atlas_dns.Configuration.Validate.Leases.{
  validate_range, ipv4_of, validate_ipv4, validate_leases,
}

module _ (net : Network) where
  open net use {Address}

  -- A range of addresses in the subnet of its gateway.
  pub record IsRange (c : DhcpIpv4) : Type 0 where
    pub gateway : Address
    pub start : Address
    pub end : Address
    pub is_gateway : ipv4_of net c.gateway ≡ some gateway
    pub is_start : ipv4_of net c.range_start ≡ some start
    pub is_end : ipv4_of net c.range_end ≡ some end
    pub has_mask : (net.mask_size c.subnet_mask).1 ≡ 32
    pub starts_inside : net.contains gateway (net.mask_size c.subnet_mask).0 start ≡ true
    pub ends_inside : net.contains gateway (net.mask_size c.subnet_mask).0 end ≡ true
    pub in_order : net.precedes end start ≡ false

  validate_ipv4-IsRange :
      (prefix : String) (c : DhcpIpv4) → validate_ipv4 net prefix c ≡ [] → IsRange c
  unfolding validate_ipv4 validate_range when
  validate_ipv4-IsRange prefix c e = elim (Option-cases (ipv4_of net c.gateway)) [
    | inl missing ↦ absurd (ground arith)
    | inr (g, is_gateway) ↦ elim (Option-cases (ipv4_of net c.range_start)) [
      | inl missing ↦ absurd (ground arith)
      | inr (s, is_start) ↦ elim (Option-cases (ipv4_of net c.range_end)) [
        | inl missing ↦ absurd (ground arith)
        | inr (f, is_end) ↦ record {
          gateway = g;
          start = s;
          end = f;
          is_gateway = is_gateway;
          is_start = is_start;
          is_end = is_end;
          has_mask = ground arith;
          starts_inside = ground arith;
          ends_inside = ground arith;
          in_order = ground arith;
        }
      ]
    ]
  ]

  module _ (t : Texts) where
    -- The keys of leases, none of which is among those seen, and no two of which are the same.
    pub record AreKeys (macs ips : List String) (leases : List DhcpStaticLease) : Type 0 where
      pub mac_keys : List String
      pub ip_keys : List String
      pub are_macs :
          map (λ (l : DhcpStaticLease). net.parse_mac (t.trim l.mac)) leases ≡ map some mac_keys
      pub are_ips :
          map
            (λ (l : DhcpStaticLease). Option.map net.address_text (net.parse_address (t.trim l.ip)))
            leases
          ≡ map some ip_keys
      pub new_macs : AreNew macs mac_keys
      pub new_ips : AreNew ips ip_keys

    validate_leases-AreKeys :
        (prefix : String) (index : ℕ) (macs ips : List String) (leases : List DhcpStaticLease)
        → validate_leases net t prefix index macs ips leases ≡ []
        → AreKeys macs ips leases
    unfolding validate_leases when
    validate_leases-AreKeys prefix index macs ips [] e = record {
      mac_keys = [];
      ip_keys = [];
      are_macs = refl;
      are_ips = refl;
      new_macs = tt;
      new_ips = tt;
    }
    validate_leases-AreKeys prefix index macs ips (l ∷ leases) e =
        elim (Option-cases (net.parse_mac (t.trim l.mac))) [
          | inl missing ↦ absurd (ground arith)
          | inr (m, is_mac) ↦ elim (Option-cases (net.parse_address (t.trim l.ip))) [
            | inl missing ↦ absurd (ground arith)
            | inr (a, is_ip) ↦
                let key = net.address_text a in
                let named : valid_dhcp_hostname (t.trim l.hostname) ≡ true = ground arith in
                let new : (member m macs || member key ips) ≡ false = ground arith in
                let later =
                  validate_leases-AreKeys prefix (index + 1) (m ∷ macs) (key ∷ ips) leases
                    (ground arith) in
                record {
                  mac_keys = m ∷ later.mac_keys;
                  ip_keys = key ∷ later.ip_keys;
                  are_macs = λ i. is_mac i ∷ later.are_macs i;
                  are_ips = λ i. Option.map net.address_text (is_ip i) ∷ later.are_ips i;
                  new_macs = (ground arith, later.new_macs);
                  new_ips = (ground arith, later.new_ips);
                }
          ]
        ]

    -- DHCP settings of a node in which the validation finds no issue: if DHCP is enabled, there is
    -- an interface, the leases last, and the range lies in the gateway's subnet, in order; and no
    -- two static leases have the same MAC address or the same address.
    pub validate_dhcp-IsRange :
        (prefix : String) (c : DhcpConfig)
        → validate_dhcp net t prefix c ≡ []
        → (c.enabled ≡ true
            → (str_eq (t.trim c.interface_name) "" ≡ false)
              × (is_above 0 c.ipv4.lease_duration ≡ true)
              × IsRange c.ipv4)
          × (keys : AreKeys [] [] c.static_leases) × IsUnique keys.mac_keys
          × IsUnique keys.ip_keys
    unfolding validate_dhcp
    validate_dhcp-IsRange prefix c e =
        let leases = validate_leases net t prefix 0 [] [] c.static_leases in
        let v6 = validate_ipv6 net prefix c.ipv6 in
        let v4 = if sets_ipv4 net c then validate_ipv4 net prefix c.ipv4 else [] in
        let (to_v6, leases_ok) = append-empty _ leases e in
        let (to_v4, v6_ok) = append-empty _ v6 to_v6 in
        let (to_durations, v4_ok) = append-empty _ v4 to_v4 in
        let (interface_ok, duration_ok) = append-empty _ _ to_durations in
        let keys = validate_leases-AreKeys prefix 0 [] [] c.static_leases leases_ok in
        let named : (c.enabled && str_eq (t.trim c.interface_name) "") ≡ false =
          when-empty _ _ interface_ok in
        let lasting : (c.enabled && not (is_above 0 c.ipv4.lease_duration)) ≡ false =
          when-empty _ _ duration_ok in
        (
          λ enabled.
              (ground arith, ground arith, validate_ipv4-IsRange prefix c.ipv4 (ground arith)),
          keys,
          AreNew-IsUnique [] keys.mac_keys keys.new_macs,
          AreNew-IsUnique [] keys.ip_keys keys.new_ips,
        )
