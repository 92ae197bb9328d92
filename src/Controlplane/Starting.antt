-- ===== src/Controlplane/Starting.antt =====
-- internal/controlplane/service.go: `StartDeployment`, `StartReconciliation`, `Rollback`,
-- `RestoreDrift` and `CancelDeployment`.
use atlas_dns.Base.{
  ℕ, String, Bool, false, not, ◌&&◌, ◌||◌, Option, none, some, List, [], ◌∷◌, str_eq, if◌then◌else◌,
  length, is_empty,
}
use atlas_dns.Base.Act.{Result, ok, Act, ◌>>=◌, ◌>>◌, pure, fail, call}
use atlas_dns.Domain.{
  Failure, Actor, AuditEvent, MetaValue, Cluster, Node, text, number, new_error, other_error,
  validation_error, conflict, capability,
}
use atlas_dns.Configuration.Model.{Document, DesiredDocument}
use atlas_dns.Configuration.Rows.{Kind, Value}
use atlas_dns.Configuration.Clean.{Texts}
use atlas_dns.Configuration.Validate.Checks.{ValidationIssue, Network}
use atlas_dns.Controlplane.Model.{
  Snapshot, Revision, Deployment, DeploymentNode, DeploymentStatus, TaskStatus,
}
use atlas_dns.Controlplane.Reconciler.Calls.{DriftEvent}
use atlas_dns.Controlplane.Targets.{ordered_targets}
use atlas_dns.Operations.Selection.{CapabilityProfile}
use atlas_dns.Controlplane.Preview.{Preview, PreviewNode, is_v2}
use atlas_dns.Controlplane.PreviewDocument.{preview_of}

pub data Call : Type 0 where
  clock new_id : Call
  revision_by_id cluster_by_id list_nodes latest_snapshots capability_profiles deployment_by_id
        drift_event_by_id :
      String → Call
  validate_blocked : String → List String → Call
  create_deployment : Deployment → AuditEvent → Call
  request_deployment_cancel : String → AuditEvent → Call
  update_drift_reconciliation : String → String → String → Call

-- The answers, from what they are about and from the calls made before; whether there is a
-- validator of the catalogue of services, and whether a text is an identifier.
pub record Answers : Type 0 where
  pub now : List Call → ℕ
  pub id : List Call → Result Failure String
  pub revision : String → List Call → Result Failure (Revision DesiredDocument)
  pub cluster : String → List Call → Result Failure Cluster
  pub nodes : String → List Call → Result Failure (List Node)
  pub snapshots : String → List Call → Result Failure (List (Snapshot Document))
  pub profiles : String → List Call → Result Failure (List CapabilityProfile)
  pub catalogue : List String → List Call → Result Failure (List ValidationIssue)
  pub deployment : String → List Call → Result Failure Deployment
  pub drift : String → List Call → Result Failure DriftEvent
  pub done : List Call → Result Failure (Unit {0})
  pub has_validator : Bool
  pub valid_id : String → Bool

abbrev pub Run : Type 0 → Type 0
Run A = Act Call Failure A

-- internal/configuration as the service uses it: what is written of values, what texts are cleaned
-- by, the hash of `Marshal`, and the functions of the validation.
pub record Documents : Type 1 where
  pub marshal : (k : Kind) → Value k → String
  pub texts : Texts
  pub hash : Document → Result Failure String
  pub net : Network

abbrev pub lift : {A : Type 0} → Result Failure A → Run A
lift r h = (r, h)

abbrev pub user_of : Option Actor → Option String
user_of none = none
user_of (some actor) = some actor.user_id

abbrev pub request_for : Option Actor → String → String
request_for none fresh = fresh
request_for (some actor) fresh = actor.request_id

abbrev pub deployment_action : String → String
deployment_action origin =
    if str_eq origin "rollback"
    then "deployment.rollback_created"
    else if str_eq origin "reconciliation"
    then "deployment.reconciliation_created"
    else "deployment.created"

-- The task of a node of the preview.
abbrev pub task_of : String → PreviewNode → String → DeploymentNode
task_of deployment target id = record {
  id = id;
  deployment_id = deployment;
  node_id = target.node_id;
  position = target.position;
  effective_hash = target.effective_hash;
  status = TaskStatus.pending;
  attempt_count = 0;
  started_at = none;
  completed_at = none;
  error_code = "";
  error_message = "";
  verification_snapshot_id = none;
}

module _ (c : Documents) (answers : Answers) where
  -- `userAudit`, and `systemAudit` where nobody acts.
  unfoldable pub audit :
      Option Actor
      → String
      → String
      → String
      → String
      → List (String × MetaValue)
      → ℕ
      → Run AuditEvent
  audit actor action resource_type resource request metadata at =
      let refused : Bool = elim actor [
        | none ↦ false
        | some a ↦ not (answers.valid_id a.user_id) || not (answers.valid_id a.request_id)
      ] in
      if refused then fail (other_error "audit actor is invalid") else (do
        id ← call Call.new_id answers.id
        pure (record {
          id = id;
          actor_type = elim actor [ none ↦ "system" | some a ↦ "user" ];
          actor_user_id = user_of actor;
          action = action;
          resource_type = resource_type;
          resource_id = some resource;
          request_id = request;
          metadata = metadata;
          created_at = at;
        }))

  -- The issues of the catalogue of services.
  unfoldable pub catalogue_issues : String → DesiredDocument → Run (List ValidationIssue)
  catalogue_issues cluster d =
      let ids = d.shared.services.blocked_service_ids in
      if is_v2 d && answers.has_validator
      then call (Call.validate_blocked cluster ids) (answers.catalogue ids)
      else pure []

  -- `previewDocument`
  unfoldable pub preview_document : String → String → DesiredDocument → List String → Run Preview
  preview_document cluster revision d selected = do
    nodes ← call (Call.list_nodes cluster) (answers.nodes cluster)
    catalogue ← catalogue_issues cluster d
    snapshots ← call (Call.latest_snapshots cluster) (answers.snapshots cluster)
    profiles ← call (Call.capability_profiles cluster) (answers.profiles cluster)
    lift (
        preview_of c.marshal c.texts c.hash c.net revision d nodes
          (ordered_targets d nodes selected) catalogue
          (record { snapshots = snapshots; profiles = profiles }))

  -- The tasks of a deployment, one for each node of the preview.
  unfoldable pub make_tasks : String → List PreviewNode → Run (List DeploymentNode)
  make_tasks deployment [] = pure []
  make_tasks deployment (target ∷ targets) = do
    id ← call Call.new_id answers.id
    rest ← make_tasks deployment targets
    pure (task_of deployment target id ∷ rest)

  -- What is asked for: by whom, where it comes from, and what it rolls back.
  unfoldable pub build_deployment :
      Option Actor → String → String → String → Option String → Preview → Run Deployment
  build_deployment actor cluster revision origin rollback_of preview = do
    id ← call Call.new_id answers.id
    now ← call Call.clock (λ h. ok (answers.now h))
    fresh ← call Call.new_id answers.id
    tasks ← make_tasks id preview.nodes
    let request : String = request_for actor fresh
    let deployment : Deployment = record {
      id = id;
      cluster_id = cluster;
      revision_id = revision;
      status = DeploymentStatus.queued;
      strategy = "sequential";
      failure_policy = "stop";
      origin = origin;
      rollback_of_revision_id = rollback_of;
      requested_by = user_of actor;
      request_id = request;
      cancel_requested = false;
      error_code = "";
      requested_at = now;
      started_at = none;
      completed_at = none;
      archived_at = none;
      archived_by = none;
      nodes = tasks;
    }
    event ←
        audit actor (deployment_action origin) "deployment" id request
          (("clusterId", text cluster)
            ∷ ("revisionId", text revision)
            ∷ ("targetCount", number (length tasks))
            ∷ [])
          now
    call (Call.create_deployment deployment event) answers.done
    pure deployment

  -- `Revision`
  unfoldable pub find_revision : String → Run (Revision DesiredDocument)
  find_revision id =
      if not (answers.valid_id id)
      then fail (validation_error "revisionId" "must be a valid UUID")
      else call (Call.revision_by_id id) (answers.revision id)

  unfoldable pub start_valid :
      Option Actor → String → String → String → Option String → Preview → Run Deployment
  start_valid actor cluster revision origin rollback_of preview =
      if not preview.valid || is_empty preview.nodes
      then fail (new_error capability "all deployment targets must pass validation before mutation")
      else build_deployment actor cluster revision origin rollback_of preview

  -- `startDeployment` of a known origin.
  unfoldable pub start_known :
      Option Actor → String → String → String → Option String → List String → Run Deployment
  start_known actor cluster revision origin rollback_of targets = do
    found ← find_revision revision
    if not (str_eq found.cluster_id cluster)
        then fail (validation_error "revisionId" "revision does not belong to the cluster")
        else (do
          preview ← preview_document cluster revision found.document targets
          start_valid actor cluster revision origin rollback_of preview)

  -- `startDeployment`: `StartDeployment` with an actor, `StartReconciliation` without one.
  unfoldable pub start_deployment :
      Option Actor → String → String → String → Option String → List String → Run Deployment
  start_deployment actor cluster revision origin rollback_of targets =
      if not (str_eq origin "manual" || str_eq origin "rollback" || str_eq origin "reconciliation")
      then fail (validation_error "origin" "is invalid")
      else if not (str_eq origin "reconciliation") && not (is_empty targets)
      then fail (
          validation_error "targetNodeIds"
            "targeted deployments are reserved for drift reconciliation")
      else start_known actor cluster revision origin rollback_of targets

  unfoldable pub roll_back_to : Actor → String → String → Option String → Run Deployment
  roll_back_to actor cluster revision none =
      fail (new_error conflict "rollback requires an active revision")
  roll_back_to actor cluster revision (some active) =
      if str_eq active revision
      then fail
          (validation_error "revisionId" "the active revision cannot be its own rollback target")
      else start_deployment (some actor) cluster revision "rollback" (some active) []

  -- `Rollback`
  unfoldable pub rollback : Actor → String → String → Run Deployment
  rollback actor cluster revision =
      if not (answers.valid_id cluster)
      then fail (validation_error "clusterId" "must be a valid UUID")
      else (do
        found ← call (Call.cluster_by_id cluster) (answers.cluster cluster)
        roll_back_to actor cluster revision found.active_revision_id)

  -- `CancelDeployment`
  unfoldable pub cancel_deployment : Actor → String → Run (Unit {0})
  cancel_deployment actor id =
      if not (answers.valid_id id)
      then fail (validation_error "deploymentId" "must be a valid UUID")
      else (do
        found ← call (Call.deployment_by_id id) (answers.deployment id)
        now ← call Call.clock (λ h. ok (answers.now h))
        event ←
            audit (some actor) "deployment.cancellation_requested" "deployment" id actor.request_id
              (("clusterId", text found.cluster_id) ∷ []) now
        call (Call.request_deployment_cancel id event) answers.done)

  -- `RestoreDrift`
  unfoldable pub restore_drift : Actor → String → Run Deployment
  restore_drift actor id =
      if not (answers.valid_id id)
      then fail (validation_error "driftId" "must be a valid UUID")
      else (do
        drift ← call (Call.drift_event_by_id id) (answers.drift id)
        if not (str_eq drift.status "open")
            then fail (new_error conflict "drift event is already resolved")
            else (do
              deployment ←
                  start_deployment (some actor) drift.cluster_id drift.desired_revision_id
                    "reconciliation" none (drift.node_id ∷ [])
              call (Call.update_drift_reconciliation drift.id "enforcing" deployment.id)
                  answers.done
              pure deployment))
