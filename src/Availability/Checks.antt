-- ===== src/Availability/Checks.antt =====
-- internal/haoperations/service.go: the checks of `ReturnToService`.
use atlas_dns.Base.{
  ℕ, String, Bool, true, false, not, ◌&&◌, Option, none, some, List, [], ◌∷◌, str_eq, leb,
  if◌then◌else◌,
}
use atlas_dns.Base.Act.{Result, ok, err}
use atlas_dns.Domain.{
  Failure, domain_error, other_error, kind_text, Node, Cluster, ConvergenceStatus,
}
use atlas_dns.Controlplane.Model.{Snapshot}
use atlas_dns.Availability.Model.{DnsProbeResult, Event, Check, CheckStatus, Observed}

-- `safeErrorCode`
unfoldable pub safe_error_code : {A : Type 0} → Result Failure A → String
safe_error_code (ok a) = ""
safe_error_code (err (domain_error e)) = kind_text e.kind
safe_error_code (err (other_error message)) = "OPERATION_FAILED"

abbrev pub is_pass : CheckStatus → Bool
is_pass CheckStatus.pass = true
is_pass _ = false

abbrev pub pass_if : Bool → CheckStatus
pass_if true = CheckStatus.pass
pass_if false = CheckStatus.fail

abbrev pub is_ok : {A : Type 0} → Result Failure A → Bool
is_ok (ok a) = true
is_ok (err e) = false

-- A check that blocks the return.
abbrev pub blocks : Check → Bool
blocks c = c.required && not (is_pass c.status)

-- `failedCheckNames`, before they are sorted.
unfoldable pub failed_names : List Check → List String
failed_names [] = []
failed_names (c ∷ cs) = let rest = failed_names cs in if blocks c then c.name ∷ rest else rest

abbrev pub api_check : Result Failure (Unit {0}) → Check
api_check api = record {
  name = "api";
  status = pass_if (is_ok api);
  required = true;
  error_code = safe_error_code api;
  message = "Authenticated AdGuard Home management API";
}

abbrev pub collected : Result Failure (Snapshot Observed) → Bool
collected (ok s) = str_eq s.collection_status "succeeded"
collected (err e) = false

abbrev pub observation_check : Result Failure (Snapshot Observed) → Check
observation_check shot = record {
  name = "observation_capabilities";
  status = pass_if (collected shot);
  required = true;
  error_code = safe_error_code shot;
  message = "Fresh configuration observation and capability refresh";
}

abbrev pub answers_dns : DnsProbeResult × Option Failure → Bool
answers_dns (p, none) = str_eq p.status "healthy"
answers_dns (p, some e) = false

abbrev pub dns_check : DnsProbeResult × Option Failure → Check
dns_check probed = record {
  name = "dns";
  status = pass_if (answers_dns probed);
  required = true;
  error_code = probed.0.error_code;
  message = "Active DNS query over configured protocols";
}

abbrev pub is_drifted : ConvergenceStatus → Bool
is_drifted ConvergenceStatus.drifted = true
is_drifted _ = false

abbrev pub applies : Option String → Option String → Bool
applies applied none = true
applies none (some active) = false
applies (some applied) (some active) = str_eq applied active

-- The check of the configuration: it blocks only if its state is unknown.
unfoldable pub drift_check : Node → Result Failure Bool → Result Failure Cluster → Check
drift_check node (ok drift) (ok cluster) =
    if not drift
      && not (is_drifted node.convergence_status)
      && applies node.applied_revision_id cluster.active_revision_id
    then record {
      name = "convergence_drift";
      status = CheckStatus.pass;
      required = false;
      error_code = "";
      message = "No unresolved drift and the active revision is applied";
    }
    else record {
      name = "convergence_drift";
      status = CheckStatus.warning;
      required = false;
      error_code = "CONFIGURATION_RECONCILIATION_PENDING";
      message = "Configuration reconciliation is pending and will resume after maintenance";
    }
drift_check node _ _ = record {
  name = "convergence_drift";
  status = CheckStatus.fail;
  required = true;
  error_code = "CONFIGURATION_STATE_UNAVAILABLE";
  message = "Configuration and drift state could not be verified";
}

-- The check of DHCP: at most one node of the cluster runs it.
unfoldable pub dhcp_check : Bool → Result Failure ℕ → Check
dhcp_check active (err e) = record {
  name = "dhcp_safety";
  status = CheckStatus.fail;
  required = true;
  error_code = "DHCP_SAFETY_UNAVAILABLE";
  message = "DHCP responsibility could not be verified";
}
dhcp_check active (ok n) =
    if leb n 1
    then record {
      name = "dhcp_safety";
      status = CheckStatus.pass;
      required = true;
      error_code = "";
      message =
          if active
          then "Node is the single observed active DHCP node"
          else "No active DHCP responsibility observed";
    }
    else record {
      name = "dhcp_safety";
      status = CheckStatus.fail;
      required = true;
      error_code = "MULTIPLE_ACTIVE_DHCP_NODES";
      message = "Multiple active DHCP nodes were observed";
    }

abbrev pub or_unverified : Result Failure (List Check) → List Check
or_unverified (ok checks) = checks
or_unverified (err e) =
    record {
      name = "collectors";
      status = CheckStatus.fail;
      required = true;
      error_code = "COLLECTOR_VALIDATION_FAILED";
      message = "Collector state could not be verified";
    }
    ∷ []

abbrev pub to_option : {A : Type 0} → Result Failure A → Option A
to_option (ok a) = some a
to_option (err e) = none

-- `event, _ :=`: the zero value beside an error.
abbrev pub or_zero : Result Failure Event → Event
or_zero (ok event) = event
or_zero (err e) = record {
  id = "";
  cluster_id = "";
  node_id = none;
  event_type = "";
  severity = "";
  summary = "";
  details = [];
  occurred_at = 0;
}
