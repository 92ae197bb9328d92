-- ===== src/Availability/Maintenance.antt =====
-- internal/haoperations/service.go: entering maintenance and its preflight.
--
-- `Certificates` reads the clock once; the number in the message of `dns_capacity` is left out.
use atlas_dns.Base.{
  ℕ, suc, ◌-◌, String, Bool, true, false, not, ◌&&◌, ◌||◌, Option, none, some, List, [], ◌∷◌,
  str_eq, ltb, ◌==◌, if◌then◌else◌, all, any,
}
use atlas_dns.Base.Act.{Result, ok, err, ◌>>=◌, ◌>>◌, pure, fail, call, attempt}
use atlas_dns.Domain.{
  Failure, new_error, validation_error, conflict, Node, MetaValue, number, flag, is_healthy,
  is_supported,
}
use atlas_dns.Controlplane.Model.{Snapshot}
use atlas_dns.Availability.Model.{
  DnsProbeResult, Event, HaSummary, HaState, Certificate, Check, CheckStatus, MaintenancePreflight,
  Observed,
}
use atlas_dns.Availability.Summary.{dns_freshness_window, is_fresh, summarize}
use atlas_dns.Availability.Certificates.{certificates_of, return_tls_check}
use atlas_dns.Availability.Calls.{Call, Answers, Run}
use atlas_dns.Availability.Calls

abbrev pub break_glass_confirmation : String
break_glass_confirmation = "CONTINUE_WITHOUT_DNS_REDUNDANCY"

abbrev pub or_empty : {A : Type 0} → Result Failure (List A) → List A
or_empty (ok xs) = xs
or_empty (err e) = []

abbrev pub has_dhcp : Snapshot Observed → Bool
has_dhcp s = elim s.document [
  | none ↦ false
  | some document ↦ elim document.dhcp_enabled [ none ↦ false | some enabled ↦ enabled ]
]

-- The two loops over the latest successful snapshots.
unfoldable pub runs_dhcp : String → List (Snapshot Observed) → Bool
runs_dhcp node snapshots = any (λ s. str_eq s.node_id node && has_dhcp s) snapshots

unfoldable pub count_dhcp : List (Snapshot Observed) → ℕ
count_dhcp [] = 0
count_dhcp (s ∷ ss) = let rest = count_dhcp ss in if has_dhcp s then suc rest else rest

-- The first snapshot of the node, checked; TLS does not block.
unfoldable pub preflight_tls : Answers → ℕ → String → List (Snapshot Observed) → Check
unfolding return_tls_check
preflight_tls answers now node [] = record {
  name = "tls";
  status = CheckStatus.unknown;
  required = false;
  error_code = "TLS_STATE_UNAVAILABLE";
  message = "TLS configuration state is unavailable";
}
preflight_tls answers now node (s ∷ ss) =
    let rest = preflight_tls answers now node ss in
    if str_eq s.node_id node
    then record (return_tls_check answers.clocks now (some s)) { required = false }
    else rest

-- A check that passes or has another status, and its message.
abbrev pub check_of : String → Bool → Bool → CheckStatus → String → String → Check
check_of name required passes otherwise met unmet = record {
  name = name;
  status = if passes then CheckStatus.pass else otherwise;
  required = required;
  error_code = "";
  message = if passes then met else unmet;
}

abbrev pub peers_compatible : String → List Node → Bool
peers_compatible node peers =
    all
      (λ (p : Node).
        not (not (str_eq p.id node) && p.enabled && not (is_supported p.compatibility_status)))
      peers

abbrev pub healthy_probe : ℕ → ℕ → Result Failure DnsProbeResult → Bool
healthy_probe now window (ok p) = is_fresh now window p
healthy_probe now window (err e) = false

module _ (answers : Answers) where
  abbrev pub read_clock : Run ℕ
  read_clock = call Calls.clock (λ h. ok (answers.now h))

  abbrev pub window : ℕ
  window = dns_freshness_window answers.probe_interval

  unfoldable pub certificates : String → Run (List Certificate)
  unfolding certificates_of
  certificates cluster = do
    nodes ← call (Calls.list_nodes cluster) (answers.nodes cluster)
    snapshots ← call (Calls.latest_snapshots cluster) (answers.snapshots cluster)
    now ← read_clock
    pure (
        certificates_of answers.clocks answers.critical_days answers.warning_days now snapshots
          nodes)

  unfoldable pub summary : String → Run HaSummary
  unfolding summarize
  summary cluster = do
    nodes ← call (Calls.list_nodes cluster) (answers.nodes cluster)
    probes ← call (Calls.latest_probes cluster) (answers.probes cluster)
    now ← read_clock
    certified ← attempt (certificates cluster)
    versions ← attempt (call (Calls.versions cluster) answers.versions)
    pure (summarize now window probes nodes (or_empty certified) (or_empty versions))

  unfoldable pub node_active_dhcp : String → String → Run Bool
  unfolding runs_dhcp
  node_active_dhcp cluster node = do
    snapshots ←
        attempt
          (call (Calls.latest_successful_snapshots cluster) (answers.successful_snapshots cluster))
    pure (runs_dhcp node (or_empty snapshots))

  unfoldable pub active_dhcp_nodes : String → Run ℕ
  unfolding count_dhcp
  active_dhcp_nodes cluster = do
    snapshots ←
        call (Calls.latest_successful_snapshots cluster) (answers.successful_snapshots cluster)
    pure (count_dhcp snapshots)

  -- The preflight's value, of what it reads.
  unfoldable pub preflight_of :
      Node → HaSummary → Bool → Bool → Bool → Bool → Bool → Check → Bool → MaintenancePreflight
  preflight_of node s active drift dhcp leaves target tls compatible =
      let remaining : ℕ = if leaves then s.serving_dns_nodes - 1 else s.serving_dns_nodes in
      let needs_break_glass : Bool = remaining == 0 in
      record {
        node_id = node.id;
        allowed = not active && not dhcp && (ltb 0 remaining || needs_break_glass);
        break_glass_required = needs_break_glass;
        healthy_dns_nodes_remaining = remaining;
        expected_redundancy = if ltb remaining 2 then HaState.at_risk else HaState.healthy;
        active_deployment = active;
        open_drift = drift;
        active_dhcp = dhcp;
        checks =
            check_of "dns_capacity" true (ltb 0 remaining) CheckStatus.warning
              "verified DNS nodes remain" "verified DNS nodes remain"
            ∷ check_of "target_dns" false target CheckStatus.warning
                "Target currently answers the configured DNS probe"
                "Target has no fresh healthy DNS proof"
            ∷ check_of "active_deployment" true (not active) CheckStatus.fail "No active deployment"
                "An active deployment must finish first"
            ∷ check_of "drift" false (not drift) CheckStatus.warning "No open drift"
                "Open drift remains visible during maintenance"
            ∷ check_of "dhcp" true (not dhcp) CheckStatus.fail "Node is not active DHCP"
                "Complete an audited DHCP handoff before maintenance"
            ∷ tls
            ∷ check_of "peer_compatibility" false compatible CheckStatus.warning
                "Enabled peers are inside the tested controller compatibility range"
                "One or more enabled peers are outside the tested controller compatibility range"
            ∷ check_of "api" false (is_healthy node.health_status) CheckStatus.warning
                "Management API health is evaluated independently"
                "Management API health is evaluated independently"
            ∷ [];
      }

  unfoldable pub maintenance_preflight : String → Run MaintenancePreflight
  maintenance_preflight id = do
    node ← call (Calls.node_by_id id) answers.node
    s ← summary node.cluster_id
    active ←
        call (Calls.active_deployment_exists node.cluster_id)
          (answers.active_deployment node.cluster_id)
    drift ← call (Calls.open_drift_exists id) (answers.open_drift id)
    dhcp ← node_active_dhcp node.cluster_id id
    now ← read_clock
    first ← attempt (call (Calls.latest_probe id) (answers.last_probe id))
    second ← attempt (call (Calls.latest_probe id) (answers.last_probe id))
    snapshots ← attempt (
        call (Calls.latest_successful_snapshots node.cluster_id)
          (answers.successful_snapshots node.cluster_id))
    later ← read_clock
    peers ← attempt (call (Calls.list_nodes node.cluster_id) (answers.nodes node.cluster_id))
    pure (
        preflight_of (record node { id = id }) s active drift dhcp
          (not node.maintenance_mode && healthy_probe now window first)
          (healthy_probe now window second) (preflight_tls answers later id (or_empty snapshots))
          (peers_compatible id (or_empty peers)))

  unfoldable pub new_event :
      String → Option String → String → String → String → List (String × MetaValue) → ℕ → Run Event
  new_event cluster node event_type severity summary_text details at = do
    id ← call Calls.new_id answers.id
    pure (record {
      id = id;
      cluster_id = cluster;
      node_id = node;
      event_type = event_type;
      severity = severity;
      summary = summary_text;
      details = details;
      occurred_at = at;
    })

  abbrev pub set_maintenance : String → Bool → ℕ → Run Node
  set_maintenance id mode version = call (Calls.set_node_maintenance id mode version) answers.node

  -- `EnterMaintenance` after the guards.
  unfoldable pub start_maintenance : String → ℕ → MaintenancePreflight → Run Node
  unfolding new_event
  start_maintenance id version preflight = do
    node ← set_maintenance id true version
    now ← read_clock
    event ←
        new_event node.cluster_id (some id) "maintenance.started"
          (if preflight.break_glass_required then "critical" else "warning")
          "Planned maintenance started"
          (("breakGlass", flag preflight.break_glass_required)
            ∷ ("healthyDnsNodesRemaining", number preflight.healthy_dns_nodes_remaining)
            ∷ [])
          now
    call (Calls.record_ha_event event) answers.done
    pure node

  unfoldable pub enter_maintenance : String → ℕ → Bool → String → Run Node
  enter_maintenance id version break_glass confirmation = do
    node ← call (Calls.node_by_id id) answers.node
    if node.maintenance_mode then pure node else (do
      preflight ← maintenance_preflight id
      if not preflight.allowed
          then fail (new_error conflict "maintenance preflight contains a blocking check")
          else if preflight.break_glass_required
              && (not break_glass || not (str_eq confirmation break_glass_confirmation))
          then fail (validation_error "confirmation" "break-glass confirmation is required")
          else start_maintenance id version preflight)
