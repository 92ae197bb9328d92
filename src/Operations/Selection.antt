-- ===== src/Operations/Selection.antt =====
-- internal/operations/service.go: the nodes that an operational command is for.
use atlas_dns.Base.{
  String, ◌≡◌, Bool, true, false, not, ◌&&◌, ◌||◌, Option, none, some, List, [], ◌∷◌, ◌++◌, str_eq,
  if◌then◌else◌, is_empty,
}
use atlas_dns.Domain.{
  Failure, Node, Compatibility, is_supported, new_error, validation_error, kind_text, conflict,
  capability, not_found,
}
use atlas_dns.Base.Act.{Result, ok, err}
use atlas_dns.Base.Map.{lookup}
use atlas_dns.Operations.Model.{Command, other_command, Target, ExcludedNode, HostFilterInput}

-- `inventory.CapabilityProfile`, as far as it is read here.
pub record CapabilityProfile : Type 0 where
  pub node_id : String
  pub product_version : String
  pub compatibility : Compatibility
  pub features : List (String × Bool)

unfoldable pub supported_command : Command → Bool
supported_command (other_command name) = false
supported_command _ = true

-- The feature that a command needs; `host` is the input of a host test.
unfoldable pub feature_of : Command → Option HostFilterInput → String
feature_of Command.clear_dns_cache host = "cache_clear"
feature_of Command.test_host_filtering none = "test_host_filtering"
feature_of Command.test_host_filtering (some host) =
    if not (str_eq host.client "") || not (str_eq host.query_type "")
    then "test_host_filtering_context"
    else "test_host_filtering"
feature_of Command.clear_query_log host = "querylog_clear"
feature_of Command.reset_statistics host = "stats_reset"
feature_of _ host = "test_upstream_dns"

-- `profileByNode[id]`: the last profile of the node.
unfoldable pub profile_of : String → List CapabilityProfile → Option CapabilityProfile
profile_of id [] = none
profile_of id (p ∷ ps) = elim (profile_of id ps) [
  | some q ↦ some q
  | none ↦ if str_eq p.node_id id then some p else none
]

abbrev pub has_feature : String → CapabilityProfile → Bool
has_feature feature p = elim (lookup feature p.features) [ none ↦ false | some on ↦ on ]

-- The profile shows that this version of the node supports the feature.
unfoldable pub supports : String → Node → Option CapabilityProfile → Bool
supports feature node none = false
supports feature node (some p) =
    is_supported p.compatibility && str_eq p.product_version node.version && has_feature feature p

unfoldable pub exclusion_code : String → List CapabilityProfile → Node → String
exclusion_code feature profiles node =
    if node.maintenance_mode
    then "NODE_IN_MAINTENANCE"
    else if not (supports feature node (profile_of node.id profiles))
    then kind_text capability
    else ""

-- The nodes selected and excluded, and whether any was looked at.
pub record Selection : Type 0 where
  pub selected : List Node
  pub excluded : List ExcludedNode
  pub found : Bool

abbrev pub on_node : Target → Bool
on_node target = str_eq target.scope "node"

-- The body of the loop over the nodes.
unfoldable pub select_node :
    Target → String → List CapabilityProfile → Node → Selection → Result Failure Selection
select_node target feature profiles node s =
    let seen = record s { found = true } in
    let code = exclusion_code feature profiles node in
    if on_node target && not (str_eq node.id target.node_id)
    then ok s
    else if not node.enabled
    then (if on_node target
        then err (new_error conflict "operational commands require an enabled node")
        else ok seen)
    else if not (str_eq code "")
    then (if on_node target
        then (if str_eq code "NODE_IN_MAINTENANCE"
            then err (
                new_error conflict
                  "operational commands are unavailable while the node is in maintenance")
            else err (
                new_error capability "the selected node does not support this operational command"))
        else ok (record seen {
          excluded =
              s.excluded
              ++ record { node_id = node.id; node_name = node.name; error_code = code } ∷ [];
        }))
    else ok (record seen { selected = s.selected ++ node ∷ [] })

unfoldable pub select_nodes :
    Target → String → List CapabilityProfile → List Node → Selection → Result Failure Selection
unfolding select_node
select_nodes target feature profiles [] s = ok s
select_nodes target feature profiles (node ∷ nodes) s =
    elim (select_node target feature profiles node s) [
      | err e ↦ err e
      | ok next ↦ select_nodes target feature profiles nodes next
    ]

-- The selection for a target, or why there is none.
unfoldable pub selection :
    Target → String → List CapabilityProfile → List Node → Result Failure Selection
unfolding select_nodes
selection target feature profiles nodes =
    elim (select_nodes target feature profiles nodes
      (record { selected = []; excluded = []; found = not (on_node target) })) [
        | err e ↦ err e
        | ok s ↦
            if not s.found
            then err (new_error not_found "node was not found in the cluster")
            else if is_empty s.selected
            then err
                (new_error capability "no compatible enabled nodes are available for this command")
            else ok s
      ]

-- The checks of the target.
unfoldable pub validate_target : (String → Bool) → Target → Option Failure
validate_target valid_id target =
    if not (on_node target) && not (str_eq target.scope "all_compatible_enabled_nodes")
    then some (validation_error "target.scope" "must be node or all_compatible_enabled_nodes")
    else if on_node target && not (valid_id target.node_id)
    then some (validation_error "target.nodeId" "must be a valid UUID for node scope")
    else if not (on_node target) && not (str_eq target.node_id "")
    then some (validation_error "target.nodeId" "must be omitted for fleet scope")
    else none

-- A node that a command may be sent to.
abbrev pub IsEligible : Target → String → List CapabilityProfile → Node → Type 0
IsEligible target feature profiles node =
    (node.enabled ≡ true)
    × (node.maintenance_mode ≡ false)
    × (supports feature node (profile_of node.id profiles) ≡ true)
    × ((on_node target ≡ true) → (str_eq node.id target.node_id ≡ true))
