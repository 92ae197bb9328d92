-- ===== src/Operations/Executor/Node.antt =====
-- internal/operations/executor.go: one command on one node.
--
-- Where a test of the upstream servers fails, its results are taken to be empty.
use atlas_dns.Base.{ℕ, ◌+◌, String, Bool, true, false, some, List, [], ◌∷◌, str_eq, if◌then◌else◌}
use atlas_dns.Base.Act.{ok, err, ◌>>=◌, ◌>>◌, pure, fail, call, attempt}
use atlas_dns.Domain.{
  Failure, domain_error, other_error, new_error, kind_text, internal, capability, NodeRecord,
  NodeCredentials, NodeProbeRequest, AuditEvent, MetaValue, text,
}
use atlas_dns.Operations.Model.{
  Command, other_command, Operation, NodeResult, ResultStatus, UpstreamInput, HostFilterInput,
  ResolverResult, command_text,
}
use atlas_dns.Operations.Executor.Calls.{Call, Answers, Run}
use atlas_dns.Operations.Executor.Calls

-- `operationErrorCode`
unfoldable pub operation_error_code : Failure → String
operation_error_code (domain_error e) = kind_text e.kind
operation_error_code (other_error message) = kind_text internal

abbrev pub is_pending : ResultStatus → Bool
is_pending ResultStatus.pending = true
is_pending _ = false

-- The commands that change a node, after which it is observed.
abbrev pub is_destructive : Command → Bool
is_destructive Command.clear_dns_cache = true
is_destructive Command.clear_query_log = true
is_destructive Command.reset_statistics = true
is_destructive _ = false

-- `upstream` and `hostFilter`: the decoded input of a command, or the zero value.
pub record Inputs : Type 0 where
  pub upstream : UpstreamInput
  pub host_filter : HostFilterInput

abbrev pub no_inputs : Inputs
no_inputs = record {
  upstream = record {
    draft_version = 0;
    upstream_dns = [];
    bootstrap_dns = [];
    fallback_dns = [];
    private_reverse_dns = [];
    upstream_mode = "";
    use_private_reverse_resolvers = false;
  };
  host_filter = record { hostname = ""; client = ""; query_type = "" };
}

abbrev pub request_of : NodeRecord → NodeCredentials → NodeProbeRequest
request_of r credentials = record {
  base_url = r.node.base_url;
  certificate_policy = r.node.certificate_policy;
  custom_ca_pem = r.secrets.custom_ca_pem;
  credentials = credentials;
}

-- The counters of `RunOnce`.
pub record Counters : Type 0 where
  pub succeeded : ℕ
  pub failed : ℕ
  pub resolver_succeeded : ℕ
  pub resolver_failed : ℕ

abbrev pub no_counts : Counters
no_counts = record { succeeded = 0; failed = 0; resolver_succeeded = 0; resolver_failed = 0 }

unfoldable pub count_resolvers : List ResolverResult → Counters → Counters
count_resolvers [] k = k
count_resolvers (r ∷ rs) k = count_resolvers rs (
    if str_eq r.status "succeeded"
    then record k { resolver_succeeded = k.resolver_succeeded + 1 }
    else record k { resolver_failed = k.resolver_failed + 1 })

-- What is counted of a finished node: `failed++`, or `succeeded++` and its resolvers.
unfoldable pub count_result : NodeResult → Counters → Counters
unfolding count_resolvers
count_result result k = elim result.status [
  | ResultStatus.succeeded ↦
      count_resolvers result.resolver_results (record k { succeeded = k.succeeded + 1 })
  | _ ↦ record k { failed = k.failed + 1 }
]

module _ (answers : Answers) where
  abbrev pub read_clock : Run ℕ
  read_clock = call Calls.clock (λ h. ok (answers.now h))

  abbrev pub perform : Call → Run (Unit {0})
  perform x = call x answers.done

  -- `operationAudit`: a key of the base map that the extra one has too would be replaced.
  unfoldable pub operation_audit :
      String → Operation → List (String × MetaValue) → ℕ → Run AuditEvent
  operation_audit action operation extra at = do
    id ← call Calls.new_id answers.id
    pure (record {
      id = id;
      actor_type = "user";
      actor_user_id = some operation.requested_by;
      action = action;
      resource_type = "operational_command";
      resource_id = some operation.id;
      request_id = operation.request_id;
      metadata =
          ("clusterId", text operation.cluster_id)
          ∷ ("command", text (command_text operation.command))
          ∷ ("operationId", text operation.id)
          ∷ extra;
      created_at = at;
    })

  -- The credentials of the node, in a request.
  unfoldable pub find_request : NodeResult → Run NodeProbeRequest
  find_request result = do
    found ← call (Calls.node_record_by_id result.node_id) answers.node_record
    credentials ← call (Calls.decrypt result.node_id found.secrets.credentials) answers.credentials
    pure (request_of found credentials)

  -- The `switch` over the commands; the result holds what the command answered.
  unfoldable pub send_command : Command → Inputs → NodeProbeRequest → NodeResult → Run NodeResult
  send_command Command.test_upstream_dns inputs request result = do
    resolvers ← call (Calls.test_upstream_dns request inputs.upstream) answers.resolvers
    pure (record result { resolver_results = resolvers })
  send_command Command.test_host_filtering inputs request result = do
    found ← call (Calls.test_host_filtering request inputs.host_filter) answers.host_result
    pure (record result { host_filter_result = some found })
  send_command Command.clear_dns_cache inputs request result = do
    perform (Calls.clear_dns_cache request)
    pure result
  send_command Command.clear_query_log inputs request result = do
    perform (Calls.clear_query_log request)
    pure result
  send_command Command.reset_statistics inputs request result = do
    perform (Calls.reset_statistics request)
    pure result
  send_command (other_command name) inputs request result =
      fail (new_error capability "the operational command is not supported")

  unfoldable pub ask_node : Command → Inputs → NodeResult → Run NodeResult
  ask_node command inputs result = do
    request ← find_request result
    send_command command inputs request result

  -- The observation of the node after a destructive command.
  unfoldable pub observe_after : Command → NodeResult → Run NodeResult
  observe_after command result =
      if is_destructive command
      then (do
        shot ← attempt (call (Calls.observe result.node_id) answers.snapshot_id)
        elim shot [
          | err e ↦ pure (record result {
            observation_status = "failed";
            observation_error_code = operation_error_code e;
          })
          | ok id ↦
              pure
                (record result { observation_status = "succeeded"; observation_snapshot_id = id })
        ])
      else pure result

  -- The body of the loop for a pending node.
  unfoldable pub run_node : Operation → Inputs → NodeResult → Run NodeResult
  run_node operation inputs result = do
    started ← read_clock
    let running : NodeResult = record result {
      status = ResultStatus.running;
      started_at = some started;
    }
    perform (Calls.update_operational_command_node operation.id running)
    sent ← attempt (ask_node operation.command inputs running)
    completed ← read_clock
    finished ← elim sent [
      | err e ↦ pure (record running {
        completed_at = some completed;
        status = ResultStatus.failed;
        error_code = operation_error_code e;
      })
      | ok answered ↦
          observe_after operation.command
            (record answered { completed_at = some completed; status = ResultStatus.succeeded })
    ]
    perform (Calls.update_operational_command_node operation.id finished)
    pure finished
