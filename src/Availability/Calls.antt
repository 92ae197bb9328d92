-- ===== src/Availability/Calls.antt =====
-- The collaborators of the maintenance operations of internal/haoperations/service.go.
use atlas_dns.Base.{ℕ, String, Bool, Option, List}
use atlas_dns.Base.Act.{Result, Act}
use atlas_dns.Domain.{
  Failure, Node, NodeRecord, NodeCredentials, NodeProbeRequest, EncryptedPayload, AuditEvent,
  Cluster,
}
use atlas_dns.Controlplane.Model.{Snapshot}
use atlas_dns.Availability.Model.{DnsProbeResult, Event, VersionState, Check, Observed}
use atlas_dns.Availability.Certificates.{Clocks}

-- The calls of `Repository`, `MaintenanceManager`, `Observer`, the API probe and the credentials
-- that the maintenance operations make, `Versions` and `ProbeNode` of the service itself, the
-- clock and `domain.NewID`.
pub data Call : Type 0 where
  clock new_id : Call
  node_by_id node_record_by_id cluster_by_id list_nodes latest_probes latest_snapshots
        latest_successful_snapshots versions active_deployment_exists open_drift_exists latest_probe
        collector_checks observe probe_node :
      String → Call
  decrypt : String → EncryptedPayload → Call
  status : NodeProbeRequest → Call
  set_node_maintenance : String → Bool → ℕ → Call
  record_ha_event : Event → Call
  record_ha_event_and_audit : Event → AuditEvent → Call

-- The answers, from the calls made before; of the API's status only the error is
-- read, and `ProbeNode` returns a result beside its error.
-- `probe_interval` is the setting, `failure_message` is `returnValidationFailureMessage`, and
-- `sort` is `sort.Strings`.
pub record Answers : Type 0 where
  pub now : List Call → ℕ
  pub id : List Call → Result Failure String
  pub node : List Call → Result Failure Node
  pub node_record : List Call → Result Failure NodeRecord
  pub cluster : List Call → Result Failure Cluster
  pub nodes : String → List Call → Result Failure (List Node)
  pub probes : String → List Call → Result Failure (List DnsProbeResult)
  pub snapshots : String → List Call → Result Failure (List (Snapshot Observed))
  pub successful_snapshots : String → List Call → Result Failure (List (Snapshot Observed))
  pub versions : List Call → Result Failure (List VersionState)
  pub active_deployment : String → List Call → Result Failure Bool
  pub open_drift : String → List Call → Result Failure Bool
  pub last_probe : String → List Call → Result Failure DnsProbeResult
  pub probe : List Call → DnsProbeResult × Option Failure
  pub collector_checks : List Call → Result Failure (List Check)
  pub snapshot : List Call → Result Failure (Snapshot Observed)
  pub credentials : List Call → Result Failure NodeCredentials
  pub done : List Call → Result Failure (Unit {0})
  pub probe_interval : ℕ
  pub critical_days : ℕ
  pub warning_days : ℕ
  pub clocks : Clocks
  pub failure_message : List Check → String
  pub sort : List String → List String

abbrev pub Run : Type 0 → Type 0
Run A = Act Call Failure A
