-- ===== src/Controlplane/Preview.antt =====
-- internal/controlplane/service.go: what a deployment of a document would do, as `previewDocument`
-- finds it from the nodes, their snapshots and their capability profiles.
--
-- The identifier of the revision, the strategy and the differences, which it only passes on, are
-- left out.
use atlas_dns.Base.{
  ℕ, String, Bool, true, false, not, ◌&&◌, ◌||◌, Option, none, some, List, [], ◌∷◌, ◌++◌, map,
  str_eq, leb, ◌==◌, if◌then◌else◌, is_empty, any,
}
use Prim.Native.Char.{code}
use Prim.Native.String.{◌++◌ as append}
use atlas_dns.Base.Map.{lookup}
use atlas_dns.Base.Int.{ℤ, pos, negsuc, is_above}
use atlas_dns.Base.Sort.{sort_by}
use atlas_dns.Base.Order.{less}
use atlas_dns.Domain.{Node, is_supported}
use atlas_dns.Configuration.Model.{Document, DesiredDocument, DhcpConfig, Rewrite}
use atlas_dns.Configuration.Rows.{Kind, Value}
use atlas_dns.Configuration.Clean.{Texts}
use atlas_dns.Configuration.Canonical.{project_document, current_schema_version}
use atlas_dns.Configuration.Validate.Checks.{ValidationIssue, issue}
use atlas_dns.Configuration.Compared.{documents}
use atlas_dns.Controlplane.Model.{Snapshot, immutable_node_differences}
use atlas_dns.Operations.Selection.{CapabilityProfile}
use atlas_dns.Controlplane.Targets.{pick}

pub record PreviewNode : Type 0 where
  pub node_id : String
  pub position : ℕ
  pub effective_hash : String
  pub valid : Bool
  pub warning : String

pub record Preview : Type 0 where
  pub valid : Bool
  pub issues : List ValidationIssue
  pub nodes : List PreviewNode

-- `enabledNodeIDs`
unfoldable pub enabled_node_ids : List Node → List String
enabled_node_ids nodes =
    sort_by less (map (λ (n : Node). n.id) (pick (λ (n : Node). n.enabled) nodes))

-- The last entry of a node, as a map by node holds it.
abbrev pub last_of : {A : Type 0} → (A → Bool) → List A → Option A
last_of p [] = none
last_of p (x ∷ xs) = elim (last_of p xs) [ some y ↦ some y | none ↦ if p x then some x else none ]

abbrev pub if_set : Option Bool → Bool
if_set none = false
if_set (some b) = b

abbrev pub offers : List (String × Bool) → String → Bool
offers features name = if_set (lookup name features)

abbrev pub features_of : Option CapabilityProfile → List (String × Bool)
features_of none = []
features_of (some p) = p.features

-- The names that are needed, and the ones of them that are missing.
abbrev pub needs : Bool → String → List String
needs b name = if b then name ∷ [] else []

abbrev pub missing : List (String × Bool) → List String → List String
missing features names = pick (λ name. not (offers features name)) names

abbrev pub is_some : Option DhcpConfig → Bool
is_some none = false
is_some (some _) = true

abbrev pub is_legacy_interval : ℤ → Bool
is_legacy_interval (pos n) = n == 0 || n == 1 || n == 12 || n == 24 || n == 72 || n == 168
is_legacy_interval (negsuc n) = false

abbrev pub xor : Bool → Bool → Bool
xor a b = if a then not b else b

abbrev pub is_v2 : DesiredDocument → Bool
is_v2 d = leb current_schema_version d.schema_version

-- `requiredFeatures`, and the features that a setting needs.
unfoldable pub required_features : DesiredDocument → Document → List String
required_features d e =
    "dns"
    ∷ "filtering"
    ∷ (if is_v2 d
        then "clients"
          ∷ "rewrites"
          ∷ "blocked_services"
          ∷ "safety"
          ∷ "query_log"
          ∷ "statistics"
          ∷ "tls"
          ∷ needs (is_some e.node_specific.dhcp) "dhcp"
        else [])

unfoldable pub setting_features : DesiredDocument → List String
setting_features d =
    let s = d.shared in
    needs s.services.safe_search.ecosia "safe_search_ecosia"
    ++ (if is_v2 d
        then needs (not (is_legacy_interval s.filtering.update_interval))
            "filter_interval_arbitrary"
          ++ needs (xor s.dns.cache_enabled (is_above 0 s.dns.cache_size)) "cache_toggle"
          ++ needs (is_above 0 s.dns.upstream_timeout) "upstream_timeout"
          ++ needs (not s.rewrites_enabled || any (λ (r : Rewrite). not r.enabled) s.rewrites)
              "rewrite_toggle"
          ++ needs
              ((not s.query_log.ignored_enabled && not (is_empty s.query_log.ignored))
                || (not s.statistics.ignored_enabled && not (is_empty s.statistics.ignored)))
              "ignored_lists_toggle"
        else [])

unfoldable pub missing_features :
    Option CapabilityProfile → DesiredDocument → Document → List String
missing_features profile d e =
    missing (features_of profile) (required_features d e ++ setting_features d)

abbrev pub is_compatible : Option CapabilityProfile → Bool
is_compatible none = false
is_compatible (some p) = is_supported p.compatibility

-- `strings.Join(…, ", ")`
abbrev pub join : List String → String
join [] = ""
join (x ∷ xs) = if is_empty xs then x else append x (append ", " (join xs))

unfoldable pub capability_warning : Option CapabilityProfile → List String → String
capability_warning none names =
    "Node capabilities have not been refreshed; refresh its configuration observation before deployment."
capability_warning (some p) names =
    if not (is_supported p.compatibility)
    then "The node's AdGuard Home API version is outside the tested managed-write range."
    else append "Required managed capabilities are unavailable: " (append (join names) ".")

abbrev pub observed_document : Option (Snapshot Document) → Option Document
observed_document none = none
observed_document (some s) = if str_eq s.collection_status "succeeded" then s.document else none

-- `strings.TrimPrefix` of a prefix that the text has.
abbrev pub strip_prefix : String → String → Option String
strip_prefix String.[] s = some s
strip_prefix (String.◌∷◌ c p) String.[] = none
strip_prefix (String.◌∷◌ c p) (String.◌∷◌ d s) =
    let rest = strip_prefix p s in if code c == code d then rest else none

abbrev pub name_of : Option Node → String → String
name_of none id = id
name_of (some node) id = if str_eq node.name "" then id else node.name

-- The issue of a node that a revision does not have, in terms of the revision.
unfoldable pub relabel : String → List Node → ValidationIssue → ValidationIssue
relabel revision nodes i =
    if str_eq revision "" || not (str_eq i.message "is required for every enabled node")
    then i
    else elim (strip_prefix "nodeOverrides." i.field) [
      | none ↦ i
      | some id ↦
          let node = last_of (λ (n : Node). str_eq n.id id) nodes in
          record i {
            message =
                append (name_of node id)
                  " is not present in this immutable revision; refresh and import its latest observation into the draft, then validate and publish a new revision";
          }
    ]

abbrev pub no_target_message : List Node → String
no_target_message nodes =
    if any (λ (n : Node). n.enabled && n.maintenance_mode) nodes
    then "No deployment targets are eligible while every enabled node is in Maintenance Mode."
    else "No enabled deployment targets are available."

-- A node of the preview, with the issues that it adds.
abbrev pub Item : Type 0
Item = PreviewNode × List ValidationIssue

abbrev pub observation_warning : String
observation_warning = "A successful current configuration observation is required."

abbrev pub listener_warning : String
listener_warning =
    "DNS bind hosts or port differ; AdGuard Home has no supported API writer for these values."

module _ (marshal : (k : Kind) → Value k → String) (t : Texts) where
  -- What is wrong with the observation of a target, as the field of the issue and the warning.
  unfoldable pub observation_fault :
      DesiredDocument → Document → String → Option Document → Option (String × String)
  observation_fault d e id none = some (append "nodes." id, observation_warning)
  observation_fault d e id (some observed) =
      if is_empty (
        immutable_node_differences (documents marshal t) e
          (project_document t observed d.schema_version))
      then none
      else some (append "nodeOverrides." id, listener_warning)

  abbrev pub with_fault : Item → Option (String × String) → Item
  with_fault item none = item
  with_fault item (some (field, warning)) =
      (record item.0 { valid = false; warning = warning }, item.1 ++ (issue field warning ∷ []))

  unfoldable pub with_capabilities : Item → Option CapabilityProfile → List String → Item
  with_capabilities item profile names =
      if is_compatible profile && is_empty names
      then item
      else (let warning = capability_warning profile names in
          (
            record item.0 { valid = false; warning = warning },
            item.1 ++ (issue (append "nodes." item.0.node_id) warning ∷ []),
          ))
