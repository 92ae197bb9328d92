-- ===== src/Controlplane/Reconciler/Calls.antt =====
-- The collaborators of internal/controlplane/reconciler.go: the calls it makes, and their answers.
use atlas_dns.Base.{ℕ, String, Bool, Option, List}
use atlas_dns.Base.Act.{Result, Act}
use atlas_dns.Domain.{Failure, Cluster, Node, AuditEvent, ConvergenceStatus}
use atlas_dns.Controlplane.Model.{Configuration, Difference, Revision, Deployment, Snapshot}

pub record DriftEvent : Type 0 where
  pub id : String
  pub cluster_id : String
  pub node_id : String
  pub desired_revision_id : String
  pub desired_hash : String
  pub observed_snapshot_id : String
  pub observed_hash : String
  pub fingerprint : String
  pub status : String
  pub policy : String
  pub reconciliation_status : String
  pub differences : List Difference
  pub detected_at : ℕ
  pub last_seen_at : ℕ
  pub resolved_at : Option ℕ
  pub resolution : String
  pub related_deployment_id : Option String

-- The methods of `Repository` that the reconciler uses, `StartReconciliation` of the service, the
-- observer, the clock and `domain.NewID`.
pub data Call : Type 0 where
  clock new_id list_clusters : Call
  cluster_has_active_deployment revision_by_id list_nodes observe : String → Call
  update_node_convergence : String → ConvergenceStatus → ℕ → Call
  resolve_node_drift : String → String → ℕ → AuditEvent → Call
  upsert_drift_event : DriftEvent → AuditEvent → Call
  start_reconciliation : String → String → String → Call
  update_drift_reconciliation : String → String → Option String → Call

-- The answers, from the calls made before, the latest at the head.
pub record Answers (c : Configuration) : Type 0 where
  pub now : List Call → ℕ
  pub id : List Call → Result Failure String
  pub clusters : List Call → Result Failure (List Cluster)
  pub is_deploying : List Call → String → Result Failure Bool
  pub revision : List Call → String → Result Failure (Revision c.Desired)
  pub nodes : List Call → String → Result Failure (List Node)
  pub snapshot : List Call → String → Result Failure (Snapshot c.Document)
  pub stored : List Call → DriftEvent → Result Failure DriftEvent
  pub deployment : List Call → String → String → String → Result Failure Deployment
  -- Of a call that returns only an error.
  pub done : List Call → Result Failure (Unit {0})
  -- The hash of `configuration.Marshal`, and the one of `DriftFingerprint`.
  pub hash : c.Document → Result Failure String
  pub fingerprint : String → String → String → String

abbrev pub Run : Type 0 → Type 0
Run A = Act Call Failure A
