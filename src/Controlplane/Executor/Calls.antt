-- ===== src/Controlplane/Executor/Calls.antt =====
-- The collaborators of internal/controlplane/executor.go: every call that the executor makes, and
-- what it is answered.
--
-- An answer depends on all calls made before, so another process may change anything in between.
use atlas_dns.Base.{ℕ, String, Bool, List}
use atlas_dns.Base.Act.{Result, Act}
use atlas_dns.Domain.{
  Failure, NodeCredentials, EncryptedPayload, NodeRecord, NodeProbeRequest, AuditEvent,
  ConvergenceStatus,
}
use atlas_dns.Controlplane.Model.{Configuration, Revision, DeploymentNode, Deployment, Snapshot}

-- The methods of `ExecutionRepository`, `NodeCredentialProtector`, `ConfigurationWriter` and
-- `Observer`, the clock and `domain.NewID`.
pub data Call (Document : Type 0) : Type 0 where
  clock new_id : Call Document
  claim_deployment interrupt_deployments : ℕ → Call Document
  deployment_by_id revision_by_id node_record_by_id set_deployment_running observe :
      String → Call Document
  update_deployment_node : DeploymentNode → Call Document
  mark_node_applied : String → String → String → String → ℕ → Call Document
  update_node_convergence : String → ConvergenceStatus → ℕ → Call Document
  finish_deployment : Deployment → Bool → AuditEvent → Call Document
  decrypt : String → EncryptedPayload → Call Document
  apply_configuration : NodeProbeRequest → Document → Call Document

-- The answers, from the calls made before, the latest at the head.
pub record Answers (c : Configuration) : Type 0 where
  pub now : List (Call c.Document) → ℕ
  pub id : List (Call c.Document) → Result Failure String
  pub claimed : List (Call c.Document) → Result Failure String
  pub interrupted : List (Call c.Document) → Result Failure (Unit {0})
  pub deployment : List (Call c.Document) → String → Result Failure Deployment
  pub revision : List (Call c.Document) → String → Result Failure (Revision c.Desired)
  pub node_record : List (Call c.Document) → String → Result Failure NodeRecord
  pub snapshot : List (Call c.Document) → String → Result Failure (Snapshot c.Document)
  pub credentials : List (Call c.Document) → EncryptedPayload → Result Failure NodeCredentials
  -- Of a call that returns only an error.
  pub done : List (Call c.Document) → Result Failure (Unit {0})

-- A step of the executor.
abbrev pub Run : Configuration → Type 0 → Type 0
Run c A = Act (Call c.Document) Failure A
