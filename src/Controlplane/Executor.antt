-- ===== src/Controlplane/Executor.antt =====
-- internal/controlplane/executor.go: the executor of a configuration deployment.
pub mod Calls
pub mod Tasks
pub mod Endings
pub mod Nodes
pub mod Writes
pub mod Reports
pub mod Readback
pub mod Plan
use Calls.{
  Call, clock, new_id, claim_deployment, interrupt_deployments, deployment_by_id, revision_by_id,
  node_record_by_id, set_deployment_running, observe, update_deployment_node, mark_node_applied,
  update_node_convergence, finish_deployment, decrypt, apply_configuration, Answers, Run,
}
use Tasks.{
  error_code, safe_failure, is_cancelling, is_pending, target_not_mutable, is_mutable, PreparedNode,
  Checked, refused, passed, NodeOutcome, broke, applied, Observation, missing, seen, seen_of,
  observation, cons_checked, not_started, stopped, cancelled_task, request_for,
}
use Endings.{read_clock, perform, cancel, fail_node, fail_before_mutation, finish_succeeded}
use Nodes.{prepare, apply_node}
use atlas_dns.Base.{
  ℕ, zero, suc, ◌+◌, ◌-◌, ◌*◌, ◌/◌, ◌%◌, ◌^◌, ◌≤◌, ◌<◌, String, ◌≡◌, refl, sym, ap, ◌∙◌, subst, ◌≢◌,
  ◌↔◌, ◌⊎◌, inl, inr, Bool, true, false, not, ◌&&◌, ◌||◌, Option, none, some, List, [], ◌∷◌, ◌++◌,
  map, append-nil, append_assoc, arith, str_eq, eq_iff, ltb, leb, ◌==◌, if◌then◌else◌, ltb→lt,
  lt→ltb, leb→le, le→leb, ==_iff, Bool-cases, Option-cases, str_eq_self, length, take, drop,
  is_empty, all, any, length-append, take-length, length-map, All,
}
use atlas_dns.Base.Act.{Result, ok, err, Act, ◌>>=◌, ◌>>◌, pure, fail, call, attempt}
use atlas_dns.Domain.{
  Failure, domain_error, other_error, NodeCredentials, EncryptedPayload, NodeRecord,
  NodeProbeRequest, AuditEvent, ConvergenceStatus, MetaValue, text, number, flag, is_supported,
  kind_text, internal, verification,
}
use atlas_dns.Domain
use atlas_dns.Controlplane.Model.{
  Configuration, Revision, DeploymentNode, Deployment, DeploymentStatus, TaskStatus, Snapshot,
  managed_differences, immutable_node_differences,
}

module _ (c : Configuration) (answers : Answers c) where
  open c use {Document, Desired}

  -- The loop over the prepared nodes: `index` nodes are done, and so many have succeeded.
  unfoldable pub apply_nodes :
      Deployment → Revision Desired → List (PreparedNode Document) → ℕ → ℕ → Run c (Unit {0})
  apply_nodes deployment revision [] index succeeded = finish_succeeded c answers deployment
  apply_nodes deployment revision (item ∷ items) index succeeded = do
    fresh ← call (deployment_by_id deployment.id) (λ h. answers.deployment h deployment.id)
    if fresh.cancel_requested then cancel c answers fresh (drop index fresh.nodes) else (do
      outcome ← apply_node c answers revision item
      elim outcome [
        | broke task code cause ↦
            fail_node c answers deployment task (map (λ i. i.task) items) succeeded code cause
        | applied ↦ apply_nodes deployment revision items (index + 1) (succeeded + 1)
      ])

  unfoldable pub deploy : Deployment → Revision Desired → Run c (Unit {0})
  deploy deployment revision = do
    checked ← prepare c answers revision deployment.nodes
    elim checked [
      | refused code cause ↦ fail_before_mutation c answers deployment code cause
      | passed prepared ↦ do
        perform c answers (set_deployment_running deployment.id)
        apply_nodes deployment revision prepared 0 0
    ]

  -- `execute`
  unfoldable pub execute : String → Run c (Unit {0})
  execute id = do
    deployment ← call (deployment_by_id id) (λ h. answers.deployment h id)
    if deployment.cancel_requested || is_cancelling deployment.status
        then cancel c answers deployment deployment.nodes
        else (do
          found ← attempt (
              call (revision_by_id deployment.revision_id)
                (λ h. answers.revision h deployment.revision_id))
          elim found [
            | err e ↦ fail_before_mutation c answers deployment "REVISION_UNAVAILABLE" (some e)
            | ok revision ↦ deploy deployment revision
          ])

  -- `RecoverInterrupted` and `RunOnce`, which answers whether there was a deployment.
  unfoldable pub recover_interrupted : Run c (Unit {0})
  recover_interrupted = do
    now ← read_clock c answers
    call (interrupt_deployments now) answers.interrupted

  unfoldable pub run_once : Run c Bool
  run_once = do
    now ← read_clock c answers
    id ← call (claim_deployment now) answers.claimed
    if str_eq id "" then pure false else (do execute id; pure true)
