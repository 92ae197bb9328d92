-- ===== src/Controlplane/Model.antt =====
-- internal/controlplane/model.go, and the interface of internal/configuration that it uses.
use atlas_dns.Base.{ℕ, String, Bool, true, false, Option, List, [], ◌∷◌, str_eq, if◌then◌else◌}
use atlas_dns.Base.Act.{Result}
use atlas_dns.Domain.{Failure}

-- `configuration.Ownership`: who owns a field that differs.
pub data Ownership : Type 0 where
  shared_managed node_managed observed_only unsupported_field : Ownership

-- `configuration.Difference`; its values are shown to operators and never tested.
pub record Difference : Type 0 where
  pub section : String
  pub field : String
  pub scope : Ownership
  pub summary : String

-- internal/configuration as its clients see it: the two documents and the functions on them.
pub record Configuration : Type 1 where
  -- `configuration.Document` and `configuration.DesiredDocument`.
  pub Document : Type 0
  pub Desired : Type 0
  -- `Effective`, `Diff`, `ProjectDocument` and `IsLegacyConverted` of the unsupported entries.
  pub effective : Desired → String → Result Failure Document
  pub diff : Document → Document → List Difference
  pub project : Document → ℕ → Document
  pub is_legacy_converted : Desired → Bool

abbrev pub is_managed : Ownership → Bool
is_managed shared_managed = true
is_managed node_managed = true
is_managed _ = false

abbrev pub is_node_managed : Ownership → Bool
is_node_managed node_managed = true
is_node_managed _ = false

-- The `for … if … append` loop of the difference functions.
unfoldable pub select : (Difference → Bool) → List Difference → List Difference
select keep [] = []
select keep (d ∷ ds) = let rest = select keep ds in if keep d then d ∷ rest else rest

module _ (c : Configuration) where
  open c use {Document, diff}

  unfoldable pub managed_differences : Document → Document → List Difference
  managed_differences desired observed = select (λ d. is_managed d.scope) (diff desired observed)

  unfoldable pub node_specific_differences : Document → Document → List Difference
  node_specific_differences desired observed =
      select (λ d. is_node_managed d.scope) (diff desired observed)

  unfoldable pub immutable_node_differences : Document → Document → List Difference
  immutable_node_differences desired observed =
      select (λ d. str_eq d.section "DNS") (node_specific_differences desired observed)

pub record Revision (Desired : Type 0) : Type 0 where
  pub id : String
  pub cluster_id : String
  pub revision_number : ℕ
  pub schema_version : ℕ
  pub document : Desired
  pub canonical_hash : String
  pub summary : String
  pub created_by : String
  pub created_at : ℕ
  pub active : Bool
  pub archived_at : Option ℕ
  pub archived_by : Option String

pub data DeploymentStatus : Type 0 where
  queued validating running partially_succeeded succeeded failed cancelling cancelled interrupted :
      DeploymentStatus

pub data TaskStatus : Type 0 where
  pending validating applying verifying succeeded failed skipped interrupted : TaskStatus

pub record DeploymentNode : Type 0 where
  pub id : String
  pub deployment_id : String
  pub node_id : String
  pub position : ℕ
  pub effective_hash : String
  pub status : TaskStatus
  pub attempt_count : ℕ
  pub started_at : Option ℕ
  pub completed_at : Option ℕ
  pub error_code : String
  pub error_message : String
  pub verification_snapshot_id : Option String

pub record Deployment : Type 0 where
  pub id : String
  pub cluster_id : String
  pub revision_id : String
  pub status : DeploymentStatus
  pub strategy : String
  pub failure_policy : String
  pub origin : String
  pub rollback_of_revision_id : Option String
  pub requested_by : Option String
  pub request_id : String
  pub cancel_requested : Bool
  pub error_code : String
  pub requested_at : ℕ
  pub started_at : Option ℕ
  pub completed_at : Option ℕ
  pub archived_at : Option ℕ
  pub archived_by : Option String
  pub nodes : List DeploymentNode

-- The fields of `inventory.Snapshot` that the control plane reads.
pub record Snapshot (Document : Type 0) : Type 0 where
  pub id : String
  pub node_id : String
  pub observed_at : ℕ
  pub schema_version : ℕ
  pub document : Option Document
  pub canonical_hash : String
  pub node_version : String
  pub collection_status : String
  pub error_code : String
