-- ===== src/Availability/Return.antt =====
-- internal/haoperations/service.go: `ReturnToService`.
--
-- Where it returns a validation beside an error, the error is the whole answer here.
use atlas_dns.Base.{ℕ, String, true, false, not, some, List, [], ◌∷◌, if◌then◌else◌, any}
use atlas_dns.Base.Act.{ok, ◌>>=◌, ◌>>◌, pure, fail, call, attempt}
use atlas_dns.Domain.{new_error, verification, NodeRecord, Actor, text, texts}
use atlas_dns.Availability.Model.{Check, CheckStatus, ReturnValidation}
use atlas_dns.Availability.Certificates.{return_tls_check}
use atlas_dns.Availability.Calls.{Call, Answers, Run}
use atlas_dns.Availability.Calls
use atlas_dns.Availability.Maintenance.{
  node_active_dhcp, active_dhcp_nodes, new_event, set_maintenance, read_clock,
}
use atlas_dns.Availability.Checks.{
  blocks, failed_names, api_check, observation_check, dns_check, drift_check, dhcp_check,
  or_unverified, to_option, or_zero,
}

module _ (answers : Answers) where
  -- The status of the node's API, with its credentials.
  unfoldable pub probe_api : String → NodeRecord → Run (Unit {0})
  probe_api id found = do
    credentials ← call (Calls.decrypt id found.secrets.credentials) answers.credentials
    call
        (Calls.status (record {
          base_url = found.node.base_url;
          certificate_policy = found.node.certificate_policy;
          custom_ca_pem = found.secrets.custom_ca_pem;
          credentials = credentials;
        }))
        answers.done

  unfoldable pub run_checks : String → NodeRecord → Run (List Check)
  run_checks id found = do
    api ← attempt (probe_api id found)
    shot ← attempt (call (Calls.observe id) answers.snapshot)
    probed ← call (Calls.probe_node id) (λ h. ok (answers.probe h))
    drift ← attempt (call (Calls.open_drift_exists id) (answers.open_drift id))
    cluster ← attempt (call (Calls.cluster_by_id found.node.cluster_id) answers.cluster)
    active ← node_active_dhcp answers found.node.cluster_id id
    count ← attempt (active_dhcp_nodes answers found.node.cluster_id)
    now ← read_clock answers
    collectors ← attempt (call (Calls.collector_checks id) answers.collector_checks)
    pure (
        api_check api
        ∷ observation_check shot
        ∷ dns_check probed
        ∷ drift_check found.node drift cluster
        ∷ dhcp_check active count
        ∷ return_tls_check answers.clocks now (to_option shot)
        ∷ or_unverified collectors)

  -- The report of a validation that failed.
  unfoldable pub refuse_return : Actor → String → NodeRecord → List Check → Run ReturnValidation
  unfolding new_event
  refuse_return actor id found checks = do
    now ← read_clock answers
    let names : List String = answers.sort (failed_names checks)
    event ←
        new_event answers found.node.cluster_id (some id) "maintenance.return_validation_failed"
          "critical" "Return-to-service validation failed" (("checks", texts names) ∷ []) now
    audit_id ← call Calls.new_id answers.id
    call
        (Calls.record_ha_event_and_audit event (record {
          id = audit_id;
          actor_type = "user";
          actor_user_id = some actor.user_id;
          action = "node.maintenance_return_failed";
          resource_type = "node";
          resource_id = some id;
          request_id = actor.request_id;
          metadata = ("clusterId", text found.node.cluster_id) ∷ ("failedChecks", texts names) ∷ [];
          created_at = now;
        }))
        answers.done
    fail (new_error verification (answers.failure_message checks))

  unfoldable pub end_maintenance : String → ℕ → List Check → Run ReturnValidation
  unfolding new_event
  end_maintenance id version checks = do
    node ← set_maintenance answers id false version
    now ← read_clock answers
    event ← attempt (
        new_event answers node.cluster_id (some id) "maintenance.ended" "info"
          "Node returned to service" (("validation", text "passed") ∷ []) now)
    call (Calls.record_ha_event (or_zero event)) answers.done
    pure (record { node_id = id; succeeded = true; checks = checks })

  unfoldable pub return_to_service : Actor → String → ℕ → Run ReturnValidation
  return_to_service actor id version = do
    found ← call (Calls.node_record_by_id id) answers.node_record
    if not found.node.maintenance_mode
        then pure (record {
          node_id = id;
          succeeded = true;
          checks =
              record {
                name = "maintenance_state";
                status = CheckStatus.pass;
                required = true;
                error_code = "";
                message = "Node is already outside maintenance";
              }
              ∷ [];
        })
        else (do
          checks ← run_checks id found
          if any blocks checks
              then refuse_return actor id found checks
              else end_maintenance id version checks)
