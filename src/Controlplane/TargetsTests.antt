-- ===== src/Controlplane/TargetsTests.antt =====
-- A fleet in which the first node is to run DHCP.
use atlas_dns.Base.{◌≡◌, refl, true, not, Option, none, some, List, [], ◌∷◌, ◌++◌, map}
use atlas_dns.Base.Map.{lookup}
use atlas_dns.Base.Sort.{sort_by}
use atlas_dns.Base.Int.{pos}
use atlas_dns.Domain.{Node}
use atlas_dns.Configuration.Model.{DesiredDocument, DhcpConfig, NodeSpecific}
use atlas_dns.Configuration.Tests.{imported}
use atlas_dns.Controlplane.Tests.{node_of}
use atlas_dns.Controlplane.Targets.{
  pick, is_target, dhcp_enabled, ordered_targets, ordered_targets-pick,
}

abbrev serving : DhcpConfig
serving = record {
  enabled = true;
  interface_name = "eth0";
  ipv4 = record {
    gateway = "";
    subnet_mask = "";
    range_start = "";
    range_end = "";
    lease_duration = pos 0;
  };
  ipv6 = record { range_start = ""; lease_duration = pos 0 };
  static_leases = [];
}

abbrev override : Option DhcpConfig → NodeSpecific
override d = record { bind_hosts = "a" ∷ []; dns_port = pos 53; dhcp = d }

abbrev document : DesiredDocument
document = record imported {
  schema_version = 2;
  node_overrides = ("n1", override (some serving)) ∷ ("n2", override none) ∷ [];
}

abbrev fleet : List Node
fleet =
    (node_of "n1").node
    ∷ (node_of "n2").node
    ∷ record (node_of "n3").node { maintenance_mode = true }
    ∷ []

handoff : map (λ (n : Node). n.id) (ordered_targets document fleet []) ≡ "n2" ∷ "n1" ∷ []
unfolding ordered_targets lookup sort_by
handoff = refl

ordered_targets-pick_example :
    let targets = pick (is_target []) fleet in
    ordered_targets document fleet []
    ≡ pick (λ n. not (dhcp_enabled document n)) targets ++ pick (dhcp_enabled document) targets
ordered_targets-pick_example = ordered_targets-pick document fleet [] refl
