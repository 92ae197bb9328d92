-- ===== src/Controlplane/Reconciler/Tests.antt =====
-- A cluster of three nodes: one has drifted, one is away, one is as it should be.
use atlas_dns.Base.{
  ◌≡◌, refl, ◌⊎◌, true, false, some, List, [], ◌∷◌, str_eq, if◌then◌else◌, length, All,
}
use atlas_dns.Base.Map.{lookup}
use atlas_dns.Base.Act.{ok}
use atlas_dns.Domain.{Cluster, Node, ReconciliationPolicy, enforce, alert}
use atlas_dns.Controlplane.Model.{managed_differences, select}
use atlas_dns.Controlplane.Tests.{toy, first_revision, node_of, two_nodes}
use atlas_dns.Controlplane.Reconciler.Calls.{Answers}
use atlas_dns.Controlplane.Reconciler.Node.{
  show_status, drift_audit, resolve_drift, enforce_policy, record_drift, compare_node,
  evaluate_node,
}
use atlas_dns.Controlplane.Reconciler.Run.{
  visit_node, visit_nodes, visit_active, visit_cluster, visit_clusters, run_once,
}
use atlas_dns.Controlplane.Reconciler.Drift.{started}
use atlas_dns.Controlplane.Reconciler.Starts.{IsAllowed, run_once-IsAllowed}

abbrev cluster : ReconciliationPolicy → Cluster
cluster policy = record {
  id = "c";
  name = "home";
  description = "";
  reconciliation_policy = policy;
  active_revision_id = some "r";
  version = 1;
  created_at = 0;
  updated_at = 0;
}

abbrev away : Node
away = record (node_of "n2").node { maintenance_mode = true }

abbrev world : ReconciliationPolicy → Answers toy
world policy = record {
  now = λ h. length h;
  id = λ h. ok "id";
  clusters = λ h. ok (cluster policy ∷ []);
  is_deploying = λ h id. ok false;
  revision = λ h id. ok first_revision;
  nodes = λ h id. ok ((node_of "n1").node ∷ away ∷ (node_of "n2").node ∷ []);
  snapshot = λ h id. ok (record {
    id = "s";
    node_id = id;
    observed_at = 0;
    schema_version = 2;
    document = some (if str_eq id "n1" then "old" else "two");
    canonical_hash = "";
    node_version = "";
    collection_status = "succeeded";
    error_code = "";
  });
  stored = λ h item. ok item;
  deployment = λ h c r n. ok two_nodes;
  done = λ h. ok tt;
  hash = λ d. ok d;
  fingerprint = λ r d o. d;
}

opened : Unit {0}
unfolding lookup managed_differences select show_status drift_audit resolve_drift enforce_policy
    record_drift compare_node evaluate_node visit_node visit_nodes visit_active visit_cluster
    visit_clusters run_once started
opened = tt

enforced_once : started (run_once toy (world enforce) []).1 ≡ ("c", "r", "n1") ∷ []
unfolding opened
enforced_once = refl

only_alerted : started (run_once toy (world alert) []).1 ≡ []
unfolding opened
only_alerted = refl

run_once-IsAllowed_example :
    ((clusters : List Cluster) × ((world enforce).clusters [] ≡ ok clusters)
      × All (IsAllowed toy (world enforce) clusters) (started (run_once toy (world enforce) []).1))
    ⊎ (started (run_once toy (world enforce) []).1 ≡ [])
unfolding started
run_once-IsAllowed_example = run_once-IsAllowed toy (world enforce) [] refl
