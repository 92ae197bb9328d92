-- ===== src/Availability/Summary.antt =====
-- internal/haoperations/service.go: `Summary`, from what it reads.
--
-- `now.Sub(at) > window` is `at + window < now`: no instant is so far that the difference of two
-- saturates.
use atlas_dns.Base.{
  ℕ, ◌+◌, ◌*◌, String, Bool, true, false, not, ◌&&◌, ◌||◌, Option, none, some, List, [], ◌∷◌,
  str_eq, ltb, leb, if◌then◌else◌,
}
use atlas_dns.Domain.{Node, is_healthy, is_converged}
use atlas_dns.Availability.Model.{
  DnsProbeResult, HaNodeStatus, HaSummary, HaState, Certificate, CertificateState, VersionState,
}

-- `DNSFreshnessWindow`: at least two minutes, in nanoseconds.
unfoldable pub dns_freshness_window : ℕ → ℕ
dns_freshness_window interval =
    if ltb (3 * interval) 120000000000 then 120000000000 else 3 * interval

-- `probeByNode[id]`: the last probe of the node.
unfoldable pub probe_of : String → List DnsProbeResult → Option DnsProbeResult
probe_of id [] = none
probe_of id (p ∷ ps) = elim (probe_of id ps) [
  | some q ↦ some q
  | none ↦ if str_eq p.node_id id then some p else none
]

-- A healthy probe that is not stale.
unfoldable pub is_fresh : ℕ → ℕ → DnsProbeResult → Bool
is_fresh now window p = str_eq p.status "healthy" && leb now (p.probed_at + window)

unfoldable pub has_fresh : ℕ → ℕ → Option DnsProbeResult → Bool
unfolding is_fresh
has_fresh now window none = false
has_fresh now window (some p) = is_fresh now window p

abbrev pub probe_state : Node → ℕ → ℕ → Option DnsProbeResult → HaNodeStatus
probe_state node now window none = record {
  node_id = node.id;
  dns_status = "unknown";
  udp_status = "unknown";
  tcp_status = "unknown";
  dns_probed_at = none;
  error_code = "";
}
probe_state node now window (some p) = record {
  node_id = node.id;
  dns_status =
      if str_eq p.status "healthy" && not (leb now (p.probed_at + window))
      then "stale"
      else p.status;
  udp_status = p.udp_status;
  tcp_status = p.tcp_status;
  dns_probed_at = some p.probed_at;
  error_code = p.error_code;
}

unfoldable pub dns_state : Node → ℕ → ℕ → Option DnsProbeResult → HaNodeStatus
dns_state node now window probe =
    let seen = probe_state node now window probe in
    if node.maintenance_mode
    then record seen { dns_status = "maintenance" }
    else if not node.enabled
    then record seen { dns_status = "disabled" }
    else seen

abbrev pub one_if : Bool → ℕ
one_if true = 1
one_if false = 0

abbrev pub empty_summary : HaSummary
empty_summary = record {
  state = HaState.at_risk;
  total_nodes = 0;
  serving_dns_nodes = 0;
  api_reachable_nodes = 0;
  converged_nodes = 0;
  maintenance_nodes = 0;
  certificate_warnings = 0;
  update_available_nodes = 0;
  nodes = [];
}

abbrev pub is_serving : ℕ → ℕ → List DnsProbeResult → Node → Bool
is_serving now window probes node =
    node.enabled && not node.maintenance_mode && has_fresh now window (probe_of node.id probes)

-- The loop over the nodes.
unfoldable pub count_nodes : ℕ → ℕ → List DnsProbeResult → List Node → HaSummary
unfolding dns_state
count_nodes now window probes [] = empty_summary
count_nodes now window probes (node ∷ nodes) =
    let rest = count_nodes now window probes nodes in
    let shown = record rest {
      nodes = dns_state node now window (probe_of node.id probes) ∷ rest.nodes;
    } in
    if not node.enabled then shown else record shown {
      total_nodes = rest.total_nodes + 1;
      maintenance_nodes = rest.maintenance_nodes + one_if node.maintenance_mode;
      api_reachable_nodes = rest.api_reachable_nodes + one_if (is_healthy node.health_status);
      converged_nodes =
          rest.converged_nodes
          + one_if (not node.maintenance_mode && is_converged node.convergence_status);
      serving_dns_nodes = rest.serving_dns_nodes + one_if (is_serving now window probes node);
    }

abbrev pub is_warning : CertificateState → Bool
is_warning CertificateState.warning = true
is_warning CertificateState.critical = true
is_warning CertificateState.expired = true
is_warning _ = false

unfoldable pub count_warnings : List Certificate → ℕ
count_warnings [] = 0
count_warnings (c ∷ cs) = count_warnings cs + one_if (is_warning c.state)

unfoldable pub count_updates : List VersionState → ℕ
count_updates [] = 0
count_updates (v ∷ vs) = count_updates vs + one_if v.update_available

-- The state of the counted nodes.
unfoldable pub summary_state : HaSummary → HaState
summary_state s =
    if ltb s.serving_dns_nodes 2
    then HaState.at_risk
    else if ltb s.api_reachable_nodes s.total_nodes
        || ltb s.converged_nodes s.total_nodes
        || ltb 0 s.maintenance_nodes
    then HaState.degraded
    else HaState.healthy

-- `Summary`, of the nodes, probes, certificates and versions that it reads.
unfoldable pub summarize :
    ℕ → ℕ → List DnsProbeResult → List Node → List Certificate → List VersionState → HaSummary
unfolding summary_state
summarize now window probes nodes certificates versions =
    let counted = count_nodes now window probes nodes in
    record counted {
      state = summary_state counted;
      certificate_warnings = count_warnings certificates;
      update_available_nodes = count_updates versions;
    }
