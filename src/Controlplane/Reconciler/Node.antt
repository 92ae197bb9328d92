-- ===== src/Controlplane/Reconciler/Node.antt =====
-- internal/controlplane/reconciler.go: the evaluation of one node.
use atlas_dns.Base.{
  ℕ, String, Bool, true, false, not, ◌||◌, none, some, List, [], ◌∷◌, str_eq, if◌then◌else◌, length,
  is_empty,
}
use atlas_dns.Base.Act.{ok, err, ◌>>=◌, ◌>>◌, pure, fail, call, attempt}
use atlas_dns.Domain
use atlas_dns.Domain.{
  Failure, Cluster, Node, AuditEvent, ConvergenceStatus, ReconciliationPolicy, enforce, alert,
  manual, MetaValue, text, number,
}
use atlas_dns.Controlplane.Model.{
  Configuration, Difference, Revision, Snapshot, managed_differences,
}
use atlas_dns.Controlplane.Reconciler.Calls.{
  Call, clock, new_id, observe, update_node_convergence, resolve_node_drift, upsert_drift_event,
  start_reconciliation, update_drift_reconciliation, DriftEvent, Answers, Run,
}

abbrev pub policy_text : ReconciliationPolicy → String
policy_text enforce = "enforce"
policy_text alert = "alert"
policy_text manual = "manual"

abbrev pub first_status : ReconciliationPolicy → String
first_status alert = "alerted"
first_status _ = "pending"

abbrev pub is_enforced : ReconciliationPolicy → Bool
is_enforced enforce = true
is_enforced _ = false

module _ (c : Configuration) (answers : Answers c) where
  open c use {Document, Desired}

  abbrev pub perform : Call → Run (Unit {0})
  perform k = call k answers.done

  abbrev pub read_clock : Run ℕ
  read_clock = call clock (λ h. ok (answers.now h))

  -- `UpdateNodeConvergence(…, r.now().UTC())`, whose error is dropped.
  unfoldable pub show_status : String → ConvergenceStatus → Run (Unit {0})
  show_status node status = do
    now ← read_clock
    told ← attempt (perform (update_node_convergence node status now))
    pure tt

  abbrev pub audit_event :
      String → String → String → String → List (String × MetaValue) → ℕ → String → AuditEvent
  audit_event action resource_type resource_id request_id metadata at id = record {
    id = id;
    actor_type = "system";
    actor_user_id = none;
    action = action;
    resource_type = resource_type;
    resource_id = some resource_id;
    request_id = request_id;
    metadata = metadata;
    created_at = at;
  }

  unfoldable pub drift_audit :
      String → String → String → String → List (String × MetaValue) → ℕ → Run AuditEvent
  drift_audit action resource_type resource_id request_id metadata at = do
    id ← call new_id answers.id
    pure (audit_event action resource_type resource_id request_id metadata at id)

  unfoldable pub resolve_drift : Cluster → Revision Desired → Node → String → ℕ → Run (Unit {0})
  unfolding drift_audit
  resolve_drift cluster revision node request_id now = do
    event ←
        drift_audit "drift.resolved" "node" node.id request_id
          (("clusterId", text cluster.id)
            ∷ ("revisionId", text revision.id)
            ∷ ("resolution", text "observed_converged")
            ∷ [])
          now
    perform (resolve_node_drift node.id "observed_converged" now event)
    perform (update_node_convergence node.id Domain.converged now)

  -- What follows the record of a drift: a reconciliation, where the policy enforces one.
  unfoldable pub enforce_policy : Cluster → Revision Desired → Node → DriftEvent → Run (Unit {0})
  enforce_policy cluster revision node stored =
      if not (is_enforced cluster.reconciliation_policy)
        || not (str_eq stored.reconciliation_status "pending")
      then pure tt
      else (do
        started ← attempt (
            call (start_reconciliation cluster.id revision.id node.id)
              (λ h. answers.deployment h cluster.id revision.id node.id))
        elim started [
          | err cause ↦ do
            told ← attempt (perform (update_drift_reconciliation stored.id "failed" none))
            fail cause
          | ok deployment ↦
              perform (update_drift_reconciliation stored.id "enforcing" (some deployment.id))
        ])

  abbrev pub drift_item :
      Cluster
      → Revision Desired
      → Node
      → String
      → Snapshot Document
      → List Difference
      → ℕ
      → String
      → DriftEvent
  drift_item cluster revision node desired_hash snapshot differences now id = record {
    id = id;
    cluster_id = cluster.id;
    node_id = node.id;
    desired_revision_id = revision.id;
    desired_hash = desired_hash;
    observed_snapshot_id = snapshot.id;
    observed_hash = snapshot.canonical_hash;
    fingerprint = answers.fingerprint revision.id desired_hash snapshot.canonical_hash;
    status = "open";
    policy = policy_text cluster.reconciliation_policy;
    reconciliation_status = first_status cluster.reconciliation_policy;
    differences = differences;
    detected_at = now;
    last_seen_at = now;
    resolved_at = none;
    resolution = "";
    related_deployment_id = none;
  }

  abbrev pub drift_metadata :
      Cluster → Revision Desired → Node → List Difference → List (String × MetaValue)
  drift_metadata cluster revision node differences =
      ("clusterId", text cluster.id)
      ∷ ("nodeId", text node.id)
      ∷ ("revisionId", text revision.id)
      ∷ ("policy", text (policy_text cluster.reconciliation_policy))
      ∷ ("differenceCount", number (length differences))
      ∷ []

  unfoldable pub record_drift :
      Cluster
      → Revision Desired
      → Node
      → String
      → Snapshot Document
      → List Difference
      → String
      → ℕ
      → Run (Unit {0})
  unfolding drift_audit enforce_policy
  record_drift cluster revision node desired_hash snapshot differences request_id now = do
    perform (update_node_convergence node.id Domain.drifted now)
    id ← call new_id answers.id
    let item = drift_item cluster revision node desired_hash snapshot differences now id
    event ←
        drift_audit "drift.detected" "drift_event" id request_id
          (drift_metadata cluster revision node differences) now
    stored ← call (upsert_drift_event item event) (λ h. answers.stored h item)
    enforce_policy cluster revision node stored

  -- The comparison of the node's document, and what follows from it.
  unfoldable pub compare_node :
      Cluster
      → Revision Desired
      → Node
      → Document
      → String
      → Snapshot Document
      → Document
      → Run (Unit {0})
  unfolding resolve_drift record_drift
  compare_node cluster revision node effective desired_hash snapshot document = do
    let differences = managed_differences c effective (c.project document revision.schema_version)
    request_id ← call new_id answers.id
    now ← read_clock
    if is_empty differences
        then resolve_drift cluster revision node request_id now
        else record_drift cluster revision node desired_hash snapshot differences request_id now

  unfoldable pub evaluate_node : Cluster → Revision Desired → Node → Run (Unit {0})
  unfolding show_status compare_node
  evaluate_node cluster revision node = elim (c.effective revision.document node.id) [
    | err cause ↦ fail cause
    | ok effective ↦ elim (answers.hash effective) [
      | err cause ↦ fail cause
      | ok desired_hash ↦ do
        seen ← attempt (call (observe node.id) (λ h. answers.snapshot h node.id))
        elim seen [
          | err cause ↦ do show_status node.id Domain.observation_failed; fail cause
          | ok snapshot ↦ elim snapshot.document [
            | none ↦ show_status node.id Domain.observation_failed
            | some document ↦
                compare_node cluster revision node effective desired_hash snapshot document
          ]
        ]
    ]
  ]
