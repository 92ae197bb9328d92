-- ===== src/Operations/Tests.antt =====
-- A command on three nodes, one of which has already been skipped and one of which fails.
use atlas_dns.Base.{
  ℕ, String, ◌≡◌, refl, ◌⊎◌, false, none, some, List, [], ◌∷◌, map, ltb, if◌then◌else◌, length,
}
use atlas_dns.Base.Act.{ok, err}
use atlas_dns.Domain.{Failure, other_error}
use atlas_dns.Operations.Model.{Command, Operation, OperationStatus, NodeResult, ResultStatus}
use atlas_dns.Operations.Executor.Calls.{Call, Answers}
use atlas_dns.Operations.Executor.Calls
use atlas_dns.Operations.Executor.Node.{
  run_node, ask_node, find_request, send_command, observe_after, operation_audit, count_result,
  count_resolvers, no_inputs, operation_error_code,
}
use atlas_dns.Operations.Executor.Sends.{commands, is_command}
use atlas_dns.Operations.Executor.Runs.{pending_count}
use atlas_dns.Operations.Executor.Reports.{reported}
use atlas_dns.Operations.Executor.{
  insert_by_position, sort_by_position, final_status, finish_run, run_nodes, fail_results, finish,
  finish_failed, fail_all, decode, run_decoded, run_claimed, run_once, interrupt, interrupt_all,
  recover_interrupted,
}
use atlas_dns.Operations.Outcome.{Comes, run_once-Comes}
use atlas_dns.Operations.Recovery.{Interrupted, recover_interrupted-Interrupted}
use atlas_dns.Controlplane.Tests.{node_of}

abbrev result_of : String → ℕ → ResultStatus → NodeResult
result_of node position status = record {
  id = node;
  node_id = node;
  node_name = node;
  position = position;
  status = status;
  error_code = "";
  resolver_results = [];
  host_filter_result = none;
  observation_status = "";
  observation_snapshot_id = "";
  observation_error_code = "";
  started_at = none;
  completed_at = none;
}

abbrev flush : Operation
flush = record {
  id = "o";
  cluster_id = "c";
  cluster_name = "";
  command = Command.clear_dns_cache;
  target = record { scope = "cluster"; node_id = "" };
  status = OperationStatus.running;
  request_id = "";
  idempotency_key = "";
  requested_by = "u";
  input_fingerprint = "";
  payload = record { ciphertext = []; nonce = []; key_version = 1; algorithm = "" };
  audit_reference = "";
  requested_at = 0;
  started_at = none;
  completed_at = none;
  node_results =
      result_of "n3" 3 ResultStatus.pending
      ∷ result_of "n1" 1 ResultStatus.pending
      ∷ result_of "n2" 2 ResultStatus.skipped
      ∷ [];
  excluded_nodes = [];
  duplicate = false;
}

-- No node is found any more once a command was sent.
abbrev site : Answers
site = record {
  now = λ h. length h;
  id = λ h. ok "e";
  context = λ h. ok tt;
  claimed = λ h. ok (some flush);
  running = λ h. ok (flush ∷ []);
  node_record = λ h. if ltb 0 (commands h) then err (other_error "gone") else ok (node_of "n");
  credentials = λ h. ok (record { username = ""; password = "" });
  payload = λ h. ok [];
  snapshot_id = λ h. ok "s";
  resolvers = λ h. ok [];
  host_result = λ h. err (other_error "unused");
  done = λ h. ok tt;
  decode_upstream = λ p. ok no_inputs.upstream;
  decode_host = λ p. ok no_inputs.host_filter;
}

opened : Unit {0}
unfolding insert_by_position sort_by_position final_status finish_run run_nodes fail_results finish
    finish_failed fail_all decode run_decoded run_claimed run_once interrupt interrupt_all
    recover_interrupted run_node ask_node find_request send_command observe_after operation_audit
    count_result count_resolvers commands is_command reported pending_count operation_error_code
opened = tt

one_command : commands (run_once site []).1 ≡ 1
unfolding opened
one_command = refl

half_done :
    map (λ (o : Operation). o.status) (reported (run_once site []).1)
    ≡ OperationStatus.partial_success ∷ []
unfolding opened
half_done = refl

run_once-Comes_example :
    let ran = run_once site [] in
    ((reported ran.1 ≡ reported []) × (commands ran.1 ≡ commands []))
    ⊎ ((operation : Operation) × (site.claimed (Calls.clock ∷ []) ≡ ok (some operation))
        × Comes site operation
            (Calls.claim_operational_command (site.now []) ∷ Calls.clock ∷ [])
            []
            ran)
run_once-Comes_example = run_once-Comes site []

recover_interrupted-Interrupted_example :
    let ran = recover_interrupted site [] in
    ((commands ran.1 ≡ commands [])
      × (reported ran.1 ≡ reported [])
      × ((e : Failure) × (site.running [] ≡ err e) × (ran.0 ≡ err e)))
    ⊎ ((operations : List Operation) × (site.running [] ≡ ok operations)
        × Interrupted site operations [] ran)
recover_interrupted-Interrupted_example = recover_interrupted-Interrupted site []
