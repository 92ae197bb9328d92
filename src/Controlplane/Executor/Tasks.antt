-- ===== src/Controlplane/Executor/Tasks.antt =====
-- internal/controlplane/executor.go: the records and the pure functions of the executor.
--
-- The texts of errors that only reach `safeFailure` as "some other error" are kept short.
use atlas_dns.Base.{ℕ, String, Bool, true, false, not, ◌&&◌, Option, none, some, List, ◌∷◌}
use atlas_dns.Base.Act.{Result, ok, err}
use atlas_dns.Domain.{
  Failure, domain_error, other_error, NodeCredentials, NodeRecord, NodeProbeRequest, is_supported,
  kind_text, internal,
}
use atlas_dns.Controlplane.Model.{DeploymentNode, DeploymentStatus, TaskStatus, Snapshot}

-- `errorCode` and `safeFailure`.
unfoldable pub error_code : Failure → String
error_code (domain_error e) = kind_text e.kind
error_code (other_error message) = kind_text internal

unfoldable pub safe_failure : Option Failure → String
safe_failure none = "Operation failed without a safe diagnostic."
safe_failure (some (domain_error e)) = e.message
safe_failure (some (other_error message)) =
    "The operation failed; inspect controller logs using the deployment request ID."

abbrev pub is_cancelling : DeploymentStatus → Bool
is_cancelling DeploymentStatus.cancelling = true
is_cancelling _ = false

abbrev pub is_pending : TaskStatus → Bool
is_pending TaskStatus.pending = true
is_pending _ = false

abbrev pub target_not_mutable : Option Failure
target_not_mutable = some (other_error "a target is disabled, unavailable, or in maintenance")

abbrev pub is_mutable : NodeRecord → Bool
is_mutable r =
    r.node.enabled && not r.node.maintenance_mode && is_supported r.node.compatibility_status

-- `preparedNode`
pub record PreparedNode (Document : Type 0) : Type 0 where
  pub task : DeploymentNode
  pub record_of_node : NodeRecord
  pub effective : Document

-- How the checks of one target, or of all, end: with the code and the cause of
-- `failBeforeMutation`, or with what is prepared.
pub data Checked (A : Type 0) : Type 0 where
  refused : String → Option Failure → Checked A
  passed : A → Checked A

-- How the work on one node ends: `failNode` with the task as it stands, or the next node.
pub data NodeOutcome : Type 0 where
  broke : DeploymentNode → String → Option Failure → NodeOutcome
  applied : NodeOutcome

-- `err != nil || snapshot.Document == nil`, with the error, which may be nil.
pub data Observation (Document : Type 0) : Type 0 where
  missing : Option Failure → Observation Document
  seen : Snapshot Document → Document → Observation Document

abbrev pub seen_of :
    {Document : Type 0} → Snapshot Document → Option Document → Observation Document
seen_of s none = missing none
seen_of s (some d) = seen s d

abbrev pub observation :
    {Document : Type 0} → Result Failure (Snapshot Document) → Observation Document
observation (err e) = missing (some e)
observation (ok s) = seen_of s s.document

abbrev pub cons_checked : {A : Type 0} → A → Checked (List A) → Checked (List A)
cons_checked a (refused code cause) = refused code cause
cons_checked a (passed as') = passed (a ∷ as')

-- The task of a node that is left out, before the first change and after a failure.
abbrev pub not_started : ℕ → String → Option Failure → DeploymentNode → DeploymentNode
not_started now code cause task = record task {
  status = TaskStatus.skipped;
  completed_at = some now;
  error_code = code;
  error_message = safe_failure cause;
}

abbrev pub stopped : ℕ → DeploymentNode → DeploymentNode
stopped now task = record task {
  status = TaskStatus.skipped;
  completed_at = some now;
  error_code = "STOPPED_AFTER_FAILURE";
}

abbrev pub cancelled_task : ℕ → DeploymentNode → DeploymentNode
cancelled_task now task = record task {
  status = TaskStatus.skipped;
  completed_at = some now;
  error_code = "CANCELLED_AT_SAFE_BOUNDARY";
}

-- The request for a prepared node.
abbrev pub request_for : NodeRecord → NodeCredentials → NodeProbeRequest
request_for r credentials = record {
  base_url = r.node.base_url;
  certificate_policy = r.node.certificate_policy;
  custom_ca_pem = r.secrets.custom_ca_pem;
  credentials = credentials;
}
