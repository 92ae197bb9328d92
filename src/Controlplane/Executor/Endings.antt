-- ===== src/Controlplane/Executor/Endings.antt =====
-- internal/controlplane/executor.go: how a deployment ends, and the calls that all steps share.
--
-- The `metadata` map of an audit event keeps its keys in the order of the literal.
use atlas_dns.Controlplane.Executor.Calls.{
  Call, clock, new_id, update_deployment_node, update_node_convergence, finish_deployment, Answers,
  Run,
}
use atlas_dns.Controlplane.Executor.Tasks.{
  safe_failure, is_pending, not_started, stopped, cancelled_task,
}
use atlas_dns.Base.{
  ℕ, String, true, false, not, Option, none, some, List, [], ◌∷◌, map, str_eq, ltb, if◌then◌else◌,
}
use atlas_dns.Base.Act.{ok, ◌>>=◌, ◌>>◌, pure, call}
use atlas_dns.Domain.{
  Failure, domain_error, other_error, NodeCredentials, EncryptedPayload, NodeRecord,
  NodeProbeRequest, AuditEvent, ConvergenceStatus, MetaValue, text, number, flag, is_supported,
  kind_text, internal, verification,
}
use atlas_dns.Domain
use atlas_dns.Controlplane.Model.{
  Configuration, DeploymentNode, Deployment, DeploymentStatus, TaskStatus,
}

module _ (c : Configuration) (answers : Answers c) where
  open c use {Document}

  abbrev pub read_clock : Run c ℕ
  read_clock = call clock (λ h. ok (answers.now h))

  abbrev pub perform : Call Document → Run c (Unit {0})
  perform x = call x answers.done

  -- `systemAudit`
  unfoldable pub system_audit :
      String → String → String → String → List (String × MetaValue) → ℕ → Run c AuditEvent
  system_audit action resource_type resource_id request_id metadata at = do
    id ← call new_id answers.id
    pure (record {
      id = id;
      actor_type = "system";
      actor_user_id = none;
      action = action;
      resource_type = resource_type;
      resource_id = some resource_id;
      request_id = request_id;
      metadata = metadata;
      created_at = at;
    })

  -- The loops that write the remaining tasks.
  unfoldable pub update_tasks : List DeploymentNode → Run c (Unit {0})
  update_tasks [] = pure tt
  update_tasks (task ∷ tasks) = do perform (update_deployment_node task); update_tasks tasks

  unfoldable pub fail_before_mutation : Deployment → String → Option Failure → Run c (Unit {0})
  unfolding system_audit
  fail_before_mutation deployment code cause = do
    now ← read_clock
    update_tasks (map (not_started now code cause) deployment.nodes)
    event ←
        system_audit "deployment.failed" "deployment" deployment.id deployment.request_id
          (("errorCode", text code) ∷ ("mutatedNodes", number 0) ∷ []) now
    perform (
        finish_deployment
          (record deployment {
            status = DeploymentStatus.failed;
            error_code = code;
            completed_at = some now;
          })
          false event)

  unfoldable pub fail_node :
      Deployment
      → DeploymentNode
      → List DeploymentNode
      → ℕ
      → String
      → Option Failure
      → Run c (Unit {0})
  unfolding system_audit
  fail_node deployment task later succeeded code cause = do
    now ← read_clock
    perform (
        update_deployment_node (record task {
          status = TaskStatus.failed;
          completed_at = some now;
          error_code = code;
          error_message = safe_failure cause;
        }))
    perform (update_node_convergence task.node_id Domain.apply_failed now)
    update_tasks (map (stopped now) later)
    let status : DeploymentStatus =
        if ltb 0 succeeded then DeploymentStatus.partially_succeeded else DeploymentStatus.failed
    let action : String =
        if ltb 0 succeeded then "deployment.partially_succeeded" else "deployment.failed"
    event ←
        system_audit action "deployment" deployment.id deployment.request_id
          (("errorCode", text code) ∷ ("mutatedNodes", number succeeded) ∷ []) now
    perform (
        finish_deployment
          (record deployment { status = status; error_code = code; completed_at = some now }) false
          event)

  -- The loop of `cancel`, which leaves out the tasks that are not pending.
  unfoldable pub cancel_tasks : ℕ → List DeploymentNode → Run c (Unit {0})
  cancel_tasks now [] = pure tt
  cancel_tasks now (task ∷ tasks) = do
    (if is_pending task.status
        then perform (update_deployment_node (cancelled_task now task))
        else pure tt)
    cancel_tasks now tasks

  -- `cancel`: `tasks` are the deployment's nodes from the index `start` on.
  unfoldable pub cancel : Deployment → List DeploymentNode → Run c (Unit {0})
  unfolding system_audit
  cancel deployment tasks = do
    now ← read_clock
    cancel_tasks now tasks
    event ←
        system_audit "deployment.cancelled" "deployment" deployment.id deployment.request_id
          (("safeBoundary", flag true) ∷ []) now
    perform (
        finish_deployment
          (record deployment { status = DeploymentStatus.cancelled; completed_at = some now }) false
          event)

  -- After the last node.
  unfoldable pub finish_succeeded : Deployment → Run c (Unit {0})
  unfolding system_audit
  finish_succeeded deployment = do
    completed ← read_clock
    event ←
        system_audit "deployment.succeeded" "deployment" deployment.id deployment.request_id
          (("clusterId", text deployment.cluster_id)
            ∷ ("revisionId", text deployment.revision_id)
            ∷ [])
          completed
    perform (
        finish_deployment
          (record deployment { status = DeploymentStatus.succeeded; completed_at = some completed })
          (not (str_eq deployment.origin "reconciliation")) event)
