-- ===== src/Controlplane/PreviewDocument.antt =====
-- internal/controlplane/service.go: the preview of a document, node by node.
use atlas_dns.Base.{
  ℕ, ◌+◌, String, true, false, not, ◌&&◌, List, [], ◌∷◌, ◌++◌, map, str_eq, if◌then◌else◌, is_empty,
}
use atlas_dns.Base.Act.{Result, ok, err}
use atlas_dns.Domain.{Failure, Node}
use atlas_dns.Configuration.Model.{Document, DesiredDocument}
use atlas_dns.Configuration.Rows.{Kind, Value}
use atlas_dns.Configuration.Clean.{Texts}
use atlas_dns.Configuration.Canonical.{effective}
use atlas_dns.Configuration.Validate.Checks.{ValidationIssue, Network, issue}
use atlas_dns.Configuration.Validate.Required.{validate_desired}
use atlas_dns.Controlplane.Model.{Snapshot}
use atlas_dns.Operations.Selection.{CapabilityProfile}
use atlas_dns.Controlplane.Preview.{
  Preview, Item, enabled_node_ids, last_of, missing_features, observed_document, observation_fault,
  with_fault, with_capabilities, relabel, no_target_message,
}

-- What the preview reads: the snapshots and the profiles of the cluster.
pub record Seen : Type 0 where
  pub snapshots : List (Snapshot Document)
  pub profiles : List CapabilityProfile

abbrev pub new_item : String → ℕ → String → Item
new_item id position hash = (
  record { node_id = id; position = position; effective_hash = hash; valid = true; warning = "" },
  [],
)

-- A target that the document has no override for: it adds no issue of its own.
abbrev pub without_override : String → ℕ → Item
without_override id position = (
  record {
    node_id = id;
    position = position;
    effective_hash = "";
    valid = false;
    warning = "This revision has no listener override for the current node identity.";
  },
  [],
)

abbrev pub concat_issues : List Item → List ValidationIssue
concat_issues [] = []
concat_issues (item ∷ items) = item.1 ++ concat_issues items

module _ (marshal : (k : Kind) → Value k → String) (t : Texts)
    (hash : Document → Result Failure String) where
  -- The body of the loop, from the effective document of the target.
  unfoldable pub effective_item : DesiredDocument → Seen → Node → ℕ → Document → String → Item
  effective_item d seen node position e hashed =
      let profile = last_of (λ (p : CapabilityProfile). str_eq p.node_id node.id) seen.profiles in
      let snapshot = last_of (λ (s : Snapshot Document). str_eq s.node_id node.id) seen.snapshots in
      let able =
        with_capabilities marshal t (new_item node.id position hashed) profile
          (missing_features profile d e) in
      with_fault marshal t able
        (observation_fault marshal t d e node.id (observed_document snapshot))

  unfoldable pub preview_item : DesiredDocument → Seen → Node → ℕ → Result Failure Item
  preview_item d seen node position = elim (effective t d node.id) [
    | err e ↦ ok (without_override node.id position)
    | ok e ↦ elim (hash e) [
      | err f ↦ err f
      | ok hashed ↦ ok (effective_item d seen node position e hashed)
    ]
  ]

  abbrev pub onto : Result Failure Item → Result Failure (List Item) → Result Failure (List Item)
  onto (err e) rest = err e
  onto (ok item) (err e) = err e
  onto (ok item) (ok items) = ok (item ∷ items)

  -- The loop over the targets; positions count from 1.
  unfoldable pub preview_items : DesiredDocument → Seen → ℕ → List Node → Result Failure (List Item)
  preview_items d seen position [] = ok []
  preview_items d seen position (node ∷ nodes) =
      onto (preview_item d seen node position) (preview_items d seen (position + 1) nodes)

  abbrev pub no_target_issues : List Node → List Node → List ValidationIssue
  no_target_issues nodes targets =
      if is_empty targets then issue "nodes" (no_target_message nodes) ∷ [] else []

  module _ (net : Network) where
    -- `previewDocument` after its reads, of the targets in their order.
    unfoldable pub preview_of :
        String
        → DesiredDocument
        → List Node
        → List Node
        → List ValidationIssue
        → Seen
        → Result Failure Preview
    preview_of revision d nodes targets catalogue seen = elim (preview_items d seen 1 targets) [
      | err e ↦ err e
      | ok items ↦
          let issues =
            map (relabel revision nodes) (validate_desired net t d (enabled_node_ids nodes))
            ++ catalogue
            ++ concat_issues items
            ++ no_target_issues nodes targets in
          ok (record {
            valid = is_empty issues && not (is_empty items);
            issues = issues;
            nodes = map (λ (item : Item). item.0) items;
          })
    ]
