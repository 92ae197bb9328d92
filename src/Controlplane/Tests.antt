-- ===== src/Controlplane/Tests.antt =====
-- A small fleet on which a deployment runs.
use atlas_dns.Base.{
  ◌+◌, String, ◌≡◌, refl, ◌⊎◌, true, false, not, ◌&&◌, Option, none, some, List, [], ◌∷◌, str_eq,
  if◌then◌else◌, length,
}
use atlas_dns.Base.Map.{lookup}
use atlas_dns.Base.Act.{Result, ok, err}
use atlas_dns.Domain
use atlas_dns.Domain.{
  Node, NodeRecord, NodeProbeRequest, NodeCredentials, EncryptedPayload, Failure, other_error,
}
use atlas_dns.Controlplane.Model.{
  Configuration, Difference, Ownership, Revision, DeploymentNode, Deployment, DeploymentStatus,
  TaskStatus, managed_differences, immutable_node_differences, node_specific_differences, select,
}
use atlas_dns.Controlplane.Executor.Calls.{deployment_by_id, revision_by_id, Answers}
use atlas_dns.Controlplane.Executor.Tasks.{PreparedNode}
use atlas_dns.Controlplane.Executor.Endings.{
  cancel, cancel_tasks, finish_succeeded, fail_node, fail_before_mutation, update_tasks,
}
use atlas_dns.Controlplane.Executor.Nodes.{prepare, prepare_node, apply_node, verify_node}
use atlas_dns.Controlplane.Executor.Writes.{written}
use atlas_dns.Controlplane.Executor.Reports.{finished, Reports}
use atlas_dns.Controlplane.Executor.Plan.{IsPlan}
use atlas_dns.Controlplane.Executor.{execute, deploy, apply_nodes}
use atlas_dns.Controlplane.Executor.Readback.{IsVerified, apply_node-IsVerified}
use atlas_dns.Controlplane.Outcome.{Outcome, execute-Outcome}

-- Documents are texts; a desired document has one for each node.
abbrev pub from_entry : Option String → Result Failure String
from_entry none = err (other_error "no override")
from_entry (some d) = ok d

abbrev pub toy_diff : String → String → List Difference
toy_diff a b =
    if str_eq a b
    then []
    else record {
      section = "Filtering";
      field = "rules";
      scope = Ownership.shared_managed;
      summary = "";
    }
      ∷ []

abbrev pub toy : Configuration
toy = record {
  Document = String;
  Desired = List (String × String);
  effective = λ d node. from_entry (lookup node d);
  diff = toy_diff;
  project = λ d v. d;
  is_legacy_converted = λ d. false;
}

abbrev pub task_of : String → DeploymentNode
task_of node = record {
  id = node;
  deployment_id = "d";
  node_id = node;
  position = 1;
  effective_hash = "";
  status = TaskStatus.pending;
  attempt_count = 0;
  started_at = none;
  completed_at = none;
  error_code = "";
  error_message = "";
  verification_snapshot_id = none;
}

abbrev pub two_nodes : Deployment
two_nodes = record {
  id = "d";
  cluster_id = "c";
  revision_id = "r";
  status = DeploymentStatus.validating;
  strategy = "sequential";
  failure_policy = "stop";
  origin = "manual";
  rollback_of_revision_id = none;
  requested_by = none;
  request_id = "q";
  cancel_requested = false;
  error_code = "";
  requested_at = 1;
  started_at = none;
  completed_at = none;
  archived_at = none;
  archived_by = none;
  nodes = task_of "n1" ∷ task_of "n2" ∷ [];
}

abbrev pub first_revision : Revision (List (String × String))
first_revision = record {
  id = "r";
  cluster_id = "c";
  revision_number = 1;
  schema_version = 2;
  document = ("n1", "one") ∷ ("n2", "two") ∷ [];
  canonical_hash = "";
  summary = "";
  created_by = "";
  created_at = 0;
  active = false;
  archived_at = none;
  archived_by = none;
}

abbrev pub node_of : String → NodeRecord
node_of id = record {
  node = record {
    id = id;
    cluster_id = "c";
    name = id;
    base_url = id;
    certificate_policy = Domain.system;
    enabled = true;
    maintenance_mode = false;
    health_status = Domain.NodeHealth.healthy;
    compatibility_status = Domain.Compatibility.supported;
    version = "";
    last_seen_at = none;
    last_polled_at = none;
    latency_ms = none;
    last_error_code = "";
    applied_revision_id = none;
    applied_hash = "";
    convergence_status = Domain.ConvergenceStatus.pending;
    last_reconciled_at = none;
    record_version = 1;
    created_at = 0;
    updated_at = 0;
  };
  secrets = record {
    credentials = record { ciphertext = []; nonce = []; key_version = 1; algorithm = "" };
    custom_ca_pem = "";
  };
}

-- A node shows the document that was written to it last; `faulty` never changes.
abbrev shown : String → String → List (String × String) → String
shown faulty node [] = "old"
shown faulty node ((url, d) ∷ ws) =
    let rest = shown faulty node ws in
    if str_eq url node && not (str_eq node faulty)
    then (if str_eq rest "old" then d else rest)
    else rest

abbrev fleet : String → Answers toy
fleet faulty = record {
  now = λ h. length h + 1;
  id = λ h. ok "id";
  claimed = λ h. ok "d";
  interrupted = λ h. ok tt;
  deployment = λ h id. ok two_nodes;
  revision = λ h id. ok first_revision;
  node_record = λ h id. ok (node_of id);
  snapshot = λ h id. ok (record {
    id = "s";
    node_id = id;
    observed_at = 0;
    schema_version = 2;
    document = some (shown faulty id (written h));
    canonical_hash = "";
    node_version = "";
    collection_status = "succeeded";
    error_code = "";
  });
  credentials = λ h p. ok (record { username = ""; password = "" });
  done = λ h. ok tt;
}

opened : Unit {0}
unfolding execute deploy apply_nodes prepare prepare_node apply_node verify_node cancel cancel_tasks
    finish_succeeded fail_node fail_before_mutation update_tasks managed_differences
    immutable_node_differences node_specific_differences select lookup
opened = tt

all_succeed :
    let after = (execute toy (fleet "none") "d" []).1 in
    (written after ≡ ("n1", "one") ∷ ("n2", "two") ∷ [])
    × (finished after ≡ (DeploymentStatus.succeeded, true) ∷ [])
unfolding opened
all_succeed = (refl, refl)

second_fails :
    let after = (execute toy (fleet "n2") "d" []).1 in
    finished after ≡ (DeploymentStatus.partially_succeeded, false) ∷ []
unfolding opened
second_fails = refl

execute-Outcome_example :
    let after = (execute toy (fleet "n2") "d" []).1 in
    ((written after ≡ [])
      × (Reports (DeploymentStatus.cancelled, false) [] after
          ⊎ Reports (DeploymentStatus.failed, false) [] after))
    ⊎ ((d : Deployment) × (r : Revision (List (String × String))) × (items : List
          (PreparedNode String))
        × ((fleet "n2").deployment [] "d" ≡ ok d)
        × (d.cancel_requested ≡ false)
        × ((fleet "n2").revision (deployment_by_id "d" ∷ []) d.revision_id ≡ ok r)
        × IsPlan toy
            (fleet "n2")
            r
            d.nodes
            (revision_by_id d.revision_id ∷ deployment_by_id "d" ∷ [])
            items
        × Outcome toy (fleet "n2") d r items 0 [] after)
execute-Outcome_example = execute-Outcome toy (fleet "n2") "d" []

abbrev first_item : PreparedNode String
first_item = record { task = task_of "n1"; record_of_node = node_of "n1"; effective = "one" }

apply_node-IsVerified_example : IsVerified toy (fleet "none") first_revision first_item
unfolding opened
apply_node-IsVerified_example =
    apply_node-IsVerified toy (fleet "none") first_revision first_item [] refl
