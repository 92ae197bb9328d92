-- ===== src/Operations/Executor/Calls.antt =====
-- The collaborators of internal/operations/executor.go: its calls, and what they are answered.
use atlas_dns.Base.{ℕ, String, Option, List}
use atlas_dns.Base.Act.{Result, Act}
use atlas_dns.Domain.{
  Failure, NodeCredentials, EncryptedPayload, NodeRecord, NodeProbeRequest, AuditEvent,
}
use atlas_dns.Operations.Model.{
  Operation, NodeResult, UpstreamInput, HostFilterInput, HostFilterResult, ResolverResult,
}

-- The methods of `ExecutionRepository`, `CredentialProtector`, `PayloadProtector`, `Executor` and
-- `Observer`, the clock, `domain.NewID` and the test of the context.
pub data Call : Type 0 where
  clock new_id context_error running_operational_commands : Call
  claim_operational_command : ℕ → Call
  node_record_by_id observe : String → Call
  update_operational_command_node : String → NodeResult → Call
  finish_operational_command : Operation → AuditEvent → Call
  decrypt decrypt_payload : String → EncryptedPayload → Call
  test_upstream_dns : NodeProbeRequest → UpstreamInput → Call
  test_host_filtering : NodeProbeRequest → HostFilterInput → Call
  clear_dns_cache clear_query_log reset_statistics : NodeProbeRequest → Call

-- The answers, from the calls made before, the latest at the head. `claimed` is `none` for
-- `ErrNoWork`; of a snapshot only its id is read; the decoders are `json.Unmarshal`.
pub record Answers : Type 0 where
  pub now : List Call → ℕ
  pub id : List Call → Result Failure String
  pub context : List Call → Result Failure (Unit {0})
  pub claimed : List Call → Result Failure (Option Operation)
  pub running : List Call → Result Failure (List Operation)
  pub node_record : List Call → Result Failure NodeRecord
  pub credentials : List Call → Result Failure NodeCredentials
  pub payload : List Call → Result Failure (List ℕ)
  pub snapshot_id : List Call → Result Failure String
  pub resolvers : List Call → Result Failure (List ResolverResult)
  pub host_result : List Call → Result Failure HostFilterResult
  pub done : List Call → Result Failure (Unit {0})
  pub decode_upstream : List ℕ → Result Failure UpstreamInput
  pub decode_host : List ℕ → Result Failure HostFilterInput

abbrev pub Run : Type 0 → Type 0
Run A = Act Call Failure A
