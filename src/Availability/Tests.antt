-- ===== src/Availability/Tests.antt =====
-- Two nodes that serve DNS, one of which goes into maintenance and comes back.
use atlas_dns.Base.{
  ◌≤◌, String, ◌≡◌, refl, ◌↔◌, ◌⊎◌, inr, true, false, none, some, List, [], ◌∷◌, ◌++◌, str_eq,
  if◌then◌else◌, length, All,
}
use atlas_dns.Base.Act.{ok, err}
use atlas_dns.Domain
use atlas_dns.Domain.{Failure, other_error, Node, NodeRecord, Actor}
use atlas_dns.Controlplane.Model.{Snapshot}
use atlas_dns.Controlplane.Tests.{node_of}
use atlas_dns.Availability.Model.{DnsProbeResult, HaState, HaSummary, Check, TlsStatus, Observed}
use atlas_dns.Availability.Summary.{
  summarize, count_nodes, summary_state, dns_state, is_fresh, has_fresh, probe_of, count_warnings,
  count_updates, dns_freshness_window,
}
use atlas_dns.Availability.Certificates.{
  Clocks, return_tls_check, check_tls, check_times, check_not_after, parse_certificate_time,
  certificates_of, node_certificate, snapshot_of, tls_certificate, certificate_state, days_between,
}
use atlas_dns.Availability.Healthy.{serving, IsSettled, summarize_healthy}
use atlas_dns.Availability.Validity.{IsValidAt, return_tls_check_passes}
use atlas_dns.Availability.Calls.{Call, Answers}
use atlas_dns.Availability.Calls
use atlas_dns.Availability.Maintenance.{
  break_glass_confirmation, maintenance_preflight, enter_maintenance, start_maintenance, summary,
  certificates, node_active_dhcp, active_dhcp_nodes, runs_dhcp, count_dhcp, preflight_tls,
  preflight_of, new_event,
}
use atlas_dns.Availability.Return.{
  return_to_service, run_checks, probe_api, end_maintenance, refuse_return,
}
use atlas_dns.Availability.Checks.{drift_check, dhcp_check, failed_names, safe_error_code}
use atlas_dns.Availability.Changes.{changed, CanLeave, Remains, enter_maintenance-changed}
use atlas_dns.Availability.Returning.{Passes, Proved, return_to_service-changed}

abbrev ready : String → Node
ready id = record (node_of id).node { convergence_status = Domain.ConvergenceStatus.converged }

abbrev probe : String → DnsProbeResult
probe id = record {
  id = id;
  cluster_id = "c";
  node_id = id;
  status = "healthy";
  udp_status = "";
  tcp_status = "";
  response_code = none;
  latency_ms = none;
  address_family = "";
  error_code = "";
  probed_at = 0;
}

abbrev two_nodes : List Node
two_nodes = ready "n1" ∷ ready "n2" ∷ []

abbrev two_probes : List DnsProbeResult
two_probes = probe "n1" ∷ probe "n2" ∷ []

summarize_healthy_example :
    ((summarize 5 10 two_probes two_nodes [] []).state ≡ HaState.healthy)
    ↔ ((2 ≤ length (serving 5 10 two_probes two_nodes)) × All IsSettled two_nodes)
summarize_healthy_example = summarize_healthy 5 10 two_probes two_nodes [] []

-- The one time that can be read is `late`.
abbrev toy_clocks : Clocks
toy_clocks = record {
  trim = λ s. s;
  parse = λ layout s. if str_eq s "late" then some 100 else none;
  format_date = λ at. "";
}

abbrev tls : TlsStatus
tls = record {
  enabled = true;
  valid_certificate = true;
  valid_chain = true;
  valid_key = true;
  valid_pair = true;
  subject = "";
  issuer = "";
  not_before = "";
  not_after = "late";
}

abbrev shot : Snapshot Observed
shot = record {
  id = "s";
  node_id = "n1";
  observed_at = 0;
  schema_version = 2;
  document = some (record { tls = tls; dhcp_enabled = none });
  canonical_hash = "";
  node_version = "";
  collection_status = "succeeded";
  error_code = "";
}

opened : Unit {0}
unfolding summarize count_nodes summary_state dns_state is_fresh has_fresh probe_of count_warnings
    count_updates dns_freshness_window return_tls_check check_tls check_times check_not_after
    parse_certificate_time certificates_of node_certificate snapshot_of tls_certificate
    certificate_state days_between maintenance_preflight enter_maintenance start_maintenance summary
    certificates node_active_dhcp active_dhcp_nodes runs_dhcp count_dhcp preflight_tls preflight_of
    new_event return_to_service run_checks probe_api end_maintenance refuse_return drift_check
    dhcp_check failed_names safe_error_code changed
opened = tt

return_tls_check_passes_example :
    (s : Snapshot Observed) × (document : Observed) × (some shot ≡ some s)
    × (s.document ≡ some document)
    × ((document.tls.enabled ≡ false) ⊎ IsValidAt toy_clocks 7 document.tls)
unfolding opened
return_tls_check_passes_example = return_tls_check_passes toy_clocks 7 (some shot) (inr refl)

abbrev resting : NodeRecord
resting = record (node_of "n1") { node = record (ready "n1") { maintenance_mode = true } }

abbrev site : Answers
site = record {
  now = λ h. 5;
  id = λ h. ok "e";
  node = λ h. ok (ready "n1");
  node_record = λ h. ok resting;
  cluster = λ h. ok (record {
    id = "c";
    name = "";
    description = "";
    reconciliation_policy = Domain.enforce;
    active_revision_id = none;
    version = 1;
    created_at = 0;
    updated_at = 0;
  });
  nodes = λ id h. ok two_nodes;
  probes = λ id h. ok two_probes;
  snapshots = λ id h. ok (shot ∷ []);
  successful_snapshots = λ id h. ok (shot ∷ []);
  versions = λ h. ok [];
  active_deployment = λ id h. ok false;
  open_drift = λ id h. ok false;
  last_probe = λ id h. ok (probe "n1");
  probe = λ h. (probe "n1", none);
  collector_checks = λ h. ok [];
  snapshot = λ h. ok shot;
  credentials = λ h. ok (record { username = ""; password = "" });
  done = λ h. ok tt;
  probe_interval = 30;
  critical_days = 7;
  warning_days = 30;
  clocks = toy_clocks;
  failure_message = λ checks. "";
  sort = λ names. names;
}

abbrev somebody : Actor
somebody = record { user_id = "u"; request_id = "q" }

enters : changed (enter_maintenance site "n1" 1 false "" []).1 ≡ ("n1", true, 1) ∷ []
unfolding opened
enters = refl

returns : changed (return_to_service site somebody "n1" 2 []).1 ≡ ("n1", false, 2) ∷ []
unfolding opened
returns = refl

-- Without the state of the cluster the node stays in maintenance.
abbrev blind : Answers
blind = record site { cluster = λ h. err (other_error "unknown") }

stays : changed (return_to_service blind somebody "n1" 2 []).1 ≡ []
unfolding opened
stays = refl

enter_maintenance-changed_example :
    let after = (enter_maintenance site "n1" 1 false "" []).1 in
    (changed after ≡ changed [])
    ⊎ ((node : Node) × (target : Node) × (s : HaSummary) × (site.node [] ≡ ok node)
        × (node.maintenance_mode ≡ false)
        × (site.node (Calls.node_by_id "n1" ∷ []) ≡ ok target)
        × CanLeave site "n1" target s (Calls.node_by_id "n1" ∷ Calls.node_by_id "n1" ∷ [])
        × (Remains site "n1" target s (Calls.node_by_id "n1" ∷ Calls.node_by_id "n1" ∷ [])
            ⊎ ((false ≡ true) × ("" ≡ break_glass_confirmation)))
        × (changed after ≡ changed [] ++ ("n1", true, 1) ∷ []))
enter_maintenance-changed_example = enter_maintenance-changed site "n1" 1 false "" []

return_to_service-changed_example :
    let after = (return_to_service site somebody "n1" 2 []).1 in
    (changed after ≡ changed [])
    ⊎ ((found : NodeRecord) × (checks : List Check) × (site.node_record [] ≡ ok found)
        × (found.node.maintenance_mode ≡ true)
        × ((run_checks site "n1" found (Calls.node_record_by_id "n1" ∷ [])).0 ≡ ok checks)
        × All Passes checks
        × Proved site "n1" found (Calls.node_record_by_id "n1" ∷ [])
        × (changed after ≡ changed [] ++ ("n1", false, 2) ∷ []))
return_to_service-changed_example = return_to_service-changed site somebody "n1" 2 []
