-- ===== src/Controlplane/Executor/Nodes.antt =====
-- internal/controlplane/executor.go: the checks of a target, and the work on one node.
use atlas_dns.Controlplane.Executor.Calls.{
  node_record_by_id, observe, update_deployment_node, mark_node_applied, update_node_convergence,
  decrypt, apply_configuration, Answers, Run,
}
use atlas_dns.Controlplane.Executor.Tasks.{
  error_code, target_not_mutable, is_mutable, PreparedNode, Checked, refused, passed, NodeOutcome,
  broke, applied, missing, seen, observation, cons_checked, request_for,
}
use atlas_dns.Controlplane.Executor.Endings.{read_clock, perform}
use atlas_dns.Base.{◌+◌, some, List, [], ◌∷◌, if◌then◌else◌, is_empty}
use atlas_dns.Base.Act.{ok, err, ◌>>=◌, ◌>>◌, pure, call, attempt}
use atlas_dns.Domain.{
  Failure, domain_error, other_error, NodeCredentials, EncryptedPayload, NodeRecord,
  NodeProbeRequest, AuditEvent, ConvergenceStatus, MetaValue, text, number, flag, is_supported,
  kind_text, internal, verification,
}
use atlas_dns.Domain
use atlas_dns.Controlplane.Model.{
  Configuration, Revision, DeploymentNode, TaskStatus, managed_differences,
  immutable_node_differences,
}

module _ (c : Configuration) (answers : Answers c) where
  open c use {Document, Desired, effective, project, is_legacy_converted}

  -- The checks of one target before the first change.
  unfoldable pub prepare_node :
      Revision Desired → DeploymentNode → Run c (Checked (PreparedNode Document))
  prepare_node revision task = do
    found ←
        attempt (call (node_record_by_id task.node_id) (λ h. answers.node_record h task.node_id))
    elim found [
      | err e ↦ pure (refused "TARGET_NOT_MUTABLE" target_not_mutable)
      | ok node_record ↦
          if is_mutable node_record
          then (if is_legacy_converted revision.document
              then pure
                  (refused "LEGACY_SCHEMA_NOT_DEPLOYABLE" (some (other_error "legacy schema")))
              else elim (effective revision.document task.node_id) [
                | err e ↦ pure (refused "EFFECTIVE_CONFIGURATION_INVALID" (some e))
                | ok document ↦ do
                  shot ←
                      attempt (call (observe task.node_id) (λ h. answers.snapshot h task.node_id))
                  elim (observation shot) [
                    | missing cause ↦ pure (refused "TARGET_OBSERVATION_FAILED" cause)
                    | seen snapshot observed ↦
                        if is_empty (
                          immutable_node_differences c document
                            (project observed revision.schema_version))
                        then pure (
                            passed (record {
                              task = task;
                              record_of_node = node_record;
                              effective = document;
                            }))
                        else pure (
                            refused "LISTENER_MUTATION_UNSUPPORTED" (some (other_error "listener")))
                  ]
              ])
          else pure (refused "TARGET_NOT_MUTABLE" target_not_mutable)
    ]

  unfoldable pub prepare :
      Revision Desired → List DeploymentNode → Run c (Checked (List (PreparedNode Document)))
  prepare revision [] = pure (passed [])
  prepare revision (task ∷ tasks) = do
    checked ← prepare_node revision task
    elim checked [
      | refused code cause ↦ pure (refused code cause)
      | passed item ↦ do rest ← prepare revision tasks; pure (cons_checked item rest)
    ]

  -- The read-back of one node after its configuration was written.
  unfoldable pub verify_node :
      Revision Desired → PreparedNode Document → DeploymentNode → Run c NodeOutcome
  verify_node revision item task = do
    let verifying : DeploymentNode = record task { status = TaskStatus.verifying }
    perform c answers (update_deployment_node verifying)
    at ← read_clock c answers
    perform c answers (update_node_convergence task.node_id Domain.verifying at)
    shot ← attempt (call (observe task.node_id) (λ h. answers.snapshot h task.node_id))
    elim (observation shot) [
      | missing cause ↦ pure (broke verifying "VERIFICATION_OBSERVATION_FAILED" cause)
      | seen snapshot observed ↦
          if is_empty
            (managed_differences c item.effective (project observed revision.schema_version))
          then (do
            completed ← read_clock c answers
            perform c answers (
                update_deployment_node (record verifying {
                  status = TaskStatus.succeeded;
                  completed_at = some completed;
                  verification_snapshot_id = some snapshot.id;
                }))
            perform c answers (
                mark_node_applied task.node_id revision.id task.effective_hash snapshot.id
                  completed)
            pure applied)
          else pure (
              broke verifying (kind_text verification)
                (some (other_error "read-back produced semantic differences")))
    ]

  -- The body of the loop over the prepared nodes, after the test for a cancellation.
  unfoldable pub apply_node : Revision Desired → PreparedNode Document → Run c NodeOutcome
  apply_node revision item = do
    now ← read_clock c answers
    let task : DeploymentNode = record (item.task) {
      status = TaskStatus.applying;
      attempt_count = item.task.attempt_count + 1;
      started_at = some now;
    }
    perform c answers (update_deployment_node task)
    perform c answers (update_node_convergence task.node_id Domain.applying now)
    opened ← attempt (
        call (decrypt task.node_id item.record_of_node.secrets.credentials)
          (λ h. answers.credentials h item.record_of_node.secrets.credentials))
    elim opened [
      | err e ↦ pure (
          broke task "CREDENTIAL_DECRYPTION_FAILED"
            (some (other_error "stored node credentials could not be decrypted")))
      | ok credentials ↦ do
        written ← attempt (
            perform c answers
              (apply_configuration (request_for item.record_of_node credentials) item.effective))
        elim written [
          | err e ↦ pure (broke task (error_code e) (some e))
          | ok _ ↦ verify_node revision item task
        ]
    ]
