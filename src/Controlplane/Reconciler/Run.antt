-- ===== src/Controlplane/Reconciler/Run.antt =====
-- internal/controlplane/reconciler.go: a run over all clusters.
use atlas_dns.Base.{String, not, ◌||◌, none, some, List, [], ◌∷◌, if◌then◌else◌}
use atlas_dns.Base.Act.{ok, err, ◌>>=◌, ◌>>◌, pure, call, attempt}
use atlas_dns.Domain
use atlas_dns.Domain.{Cluster, Node, is_supported}
use atlas_dns.Controlplane.Model.{Configuration, Revision}
use atlas_dns.Controlplane.Reconciler.Calls.{
  list_clusters, cluster_has_active_deployment, revision_by_id, list_nodes, Answers, Run,
}
use atlas_dns.Controlplane.Reconciler.Node.{show_status, evaluate_node}

module _ (c : Configuration) (answers : Answers c) where
  open c use {Desired, is_legacy_converted}

  -- The body of the loop over the nodes; an error of the evaluation is only logged.
  unfoldable pub visit_node : Cluster → Revision Desired → Node → Run (Unit {0})
  visit_node cluster revision node =
      if not node.enabled
      then pure tt
      else if node.maintenance_mode
      then show_status c answers node.id Domain.maintenance
      else if not (is_supported node.compatibility_status) || is_legacy_converted revision.document
      then show_status c answers node.id Domain.unsupported
      else (do evaluated ← attempt (evaluate_node c answers cluster revision node); pure tt)

  unfoldable pub visit_nodes : Cluster → Revision Desired → List Node → Run (Unit {0})
  visit_nodes cluster revision [] = pure tt
  visit_nodes cluster revision (node ∷ nodes) = do
    visit_node cluster revision node
    visit_nodes cluster revision nodes

  -- A cluster with an active revision.
  unfoldable pub visit_active : Cluster → String → Run (Unit {0})
  visit_active cluster revision_id = do
    deploying ←
        call (cluster_has_active_deployment cluster.id) (λ h. answers.is_deploying h cluster.id)
    if deploying then pure tt else (do
      loaded ← attempt (call (revision_by_id revision_id) (λ h. answers.revision h revision_id))
      elim loaded [
        | err cause ↦ pure tt
        | ok revision ↦ do
          nodes ← call (list_nodes cluster.id) (λ h. answers.nodes h cluster.id)
          visit_nodes cluster revision nodes
      ])

  -- The body of the loop over the clusters.
  unfoldable pub visit_cluster : Cluster → Run (Unit {0})
  visit_cluster cluster = elim cluster.active_revision_id [
    | none ↦ pure tt
    | some revision_id ↦ visit_active cluster revision_id
  ]

  unfoldable pub visit_clusters : List Cluster → Run (Unit {0})
  visit_clusters [] = pure tt
  visit_clusters (cluster ∷ clusters) = do visit_cluster cluster; visit_clusters clusters

  unfoldable pub run_once : Run (Unit {0})
  run_once = do clusters ← call list_clusters answers.clusters; visit_clusters clusters
