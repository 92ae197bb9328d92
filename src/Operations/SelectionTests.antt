-- ===== src/Operations/SelectionTests.antt =====
-- A fleet of three nodes of which one is selected.
use atlas_dns.Base.{◌<◌, String, ◌≡◌, refl, true, List, [], ◌∷◌, length, All}
use atlas_dns.Base.Act.{ok}
use atlas_dns.Base.Map.{lookup}
use atlas_dns.Domain
use atlas_dns.Domain.{Node, kind_text, capability}
use atlas_dns.Operations.Model.{Target}
use atlas_dns.Operations.Selection.{
  CapabilityProfile, Selection, selection, select_nodes, select_node, exclusion_code, supports,
  profile_of, IsEligible,
}
use atlas_dns.Operations.Eligible.{selection-IsEligible}
use atlas_dns.Controlplane.Tests.{node_of}

abbrev profile : String → CapabilityProfile
profile id = record {
  node_id = id;
  product_version = "";
  compatibility = Domain.Compatibility.supported;
  features = ("cache_clear", true) ∷ [];
}

abbrev resting : Node
resting = record (node_of "n2").node { maintenance_mode = true }

abbrev chosen : Selection
chosen = record {
  selected = (node_of "n1").node ∷ [];
  excluded =
      record { node_id = "n2"; node_name = "n2"; error_code = "NODE_IN_MAINTENANCE" }
      ∷ record { node_id = "n3"; node_name = "n3"; error_code = kind_text capability }
      ∷ [];
  found = true;
}

abbrev fleet : Target
fleet = record { scope = "all_compatible_enabled_nodes"; node_id = "" }

abbrev three : List Node
three = (node_of "n1").node ∷ resting ∷ (node_of "n3").node ∷ []

chooses : selection fleet "cache_clear" (profile "n1" ∷ profile "n2" ∷ []) three ≡ ok chosen
unfolding selection select_nodes select_node exclusion_code supports profile_of lookup
chooses = refl

selection-IsEligible_example :
    All (IsEligible fleet "cache_clear" (profile "n1" ∷ profile "n2" ∷ [])) chosen.selected
    × (0 < length chosen.selected)
selection-IsEligible_example =
    selection-IsEligible fleet "cache_clear" (profile "n1" ∷ profile "n2" ∷ []) three chosen chooses
