-- ===== src/Operations/Model.antt =====
-- internal/operations/model.go: an operational command and its results on the nodes.
use atlas_dns.Base.{ℕ, String, Bool, Option, List}
use atlas_dns.Domain.{EncryptedPayload}

-- A `Command` is a string; the executor and the service know five.
pub data Command : Type 0 where
  test_upstream_dns test_host_filtering clear_dns_cache clear_query_log reset_statistics : Command
  other_command : String → Command

pub record Target : Type 0 where
  pub scope : String
  pub node_id : String

pub record UpstreamInput : Type 0 where
  pub draft_version : ℕ
  pub upstream_dns : List String
  pub bootstrap_dns : List String
  pub fallback_dns : List String
  pub private_reverse_dns : List String
  pub upstream_mode : String
  pub use_private_reverse_resolvers : Bool

pub record ResolverResult : Type 0 where
  pub resolver_id : String
  pub status : String
  pub error_code : String

pub record HostFilterInput : Type 0 where
  pub hostname : String
  pub client : String
  pub query_type : String

pub record MatchedRule : Type 0 where
  pub text : String
  pub filter_list_id : ℕ

pub record HostFilterResult : Type 0 where
  pub matched : Bool
  pub reason : String
  pub rules : List MatchedRule
  pub service_name : String
  pub canonical_name : String
  pub ip_addresses : List String

pub record ExcludedNode : Type 0 where
  pub node_id : String
  pub node_name : String
  pub error_code : String

pub data ResultStatus : Type 0 where
  pending running succeeded failed skipped : ResultStatus

pub record NodeResult : Type 0 where
  pub id : String
  pub node_id : String
  pub node_name : String
  pub position : ℕ
  pub status : ResultStatus
  pub error_code : String
  pub resolver_results : List ResolverResult
  pub host_filter_result : Option HostFilterResult
  pub observation_status : String
  pub observation_snapshot_id : String
  pub observation_error_code : String
  pub started_at : Option ℕ
  pub completed_at : Option ℕ

pub data OperationStatus : Type 0 where
  queued running succeeded partial_success failed interrupted : OperationStatus

pub record Operation : Type 0 where
  pub id : String
  pub cluster_id : String
  pub cluster_name : String
  pub command : Command
  pub target : Target
  pub status : OperationStatus
  pub request_id : String
  pub idempotency_key : String
  pub requested_by : String
  pub input_fingerprint : String
  pub payload : EncryptedPayload
  pub audit_reference : String
  pub requested_at : ℕ
  pub started_at : Option ℕ
  pub completed_at : Option ℕ
  pub node_results : List NodeResult
  pub excluded_nodes : List ExcludedNode
  pub duplicate : Bool

-- `commandAuditPrefix`, and the text of a command.
unfoldable pub command_audit_prefix : Command → String
command_audit_prefix test_upstream_dns = "dns.test_upstream"
command_audit_prefix test_host_filtering = "filtering.test_host"
command_audit_prefix clear_query_log = "querylog.clear"
command_audit_prefix reset_statistics = "statistics.reset"
command_audit_prefix _ = "dns.cache_clear"

abbrev pub command_text : Command → String
command_text test_upstream_dns = "test_upstream_dns"
command_text test_host_filtering = "test_host_filtering"
command_text clear_dns_cache = "clear_dns_cache"
command_text clear_query_log = "clear_query_log"
command_text reset_statistics = "reset_statistics"
command_text (other_command text) = text
