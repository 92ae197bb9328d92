-- ===== src/Availability/Model.antt =====
-- internal/haoperations/models.go and `TLSStatus` of internal/configuration/model.go.
use atlas_dns.Base.{ℕ, String, Bool, true, false, Option, List}
use atlas_dns.Domain.{MetaValue, Compatibility}

pub data InstallationType : Type 0 where
  native_systemd docker home_assistant custom unknown : InstallationType
  other_installation : String → InstallationType

-- `Valid`
unfoldable pub is_valid : InstallationType → Bool
is_valid (other_installation name) = false
is_valid _ = true

pub data UpgradeSupport : Type 0 where
  guided unsupported : UpgradeSupport

unfoldable pub support_for_installation : InstallationType → UpgradeSupport
support_for_installation native_systemd = guided
support_for_installation docker = guided
support_for_installation _ = unsupported

-- The process-local diagnostics of a probe are left out.
pub record DnsProbeResult : Type 0 where
  pub id : String
  pub cluster_id : String
  pub node_id : String
  pub status : String
  pub udp_status : String
  pub tcp_status : String
  pub response_code : Option ℕ
  pub latency_ms : Option ℕ
  pub address_family : String
  pub error_code : String
  pub probed_at : ℕ

pub record Event : Type 0 where
  pub id : String
  pub cluster_id : String
  pub node_id : Option String
  pub event_type : String
  pub severity : String
  pub summary : String
  pub details : List (String × MetaValue)
  pub occurred_at : ℕ

pub data CertificateState : Type 0 where
  healthy warning critical expired not_applicable unknown : CertificateState

-- A number of days before or after now.
pub data Days : Type 0 where
  ahead ago : ℕ → Days

pub record Certificate : Type 0 where
  pub node_id : String
  pub node_name : String
  pub subject : String
  pub issuer : String
  pub not_after : Option ℕ
  pub days_remaining : Option Days
  pub state : CertificateState
  pub observed_at : Option ℕ

pub record VersionState : Type 0 where
  pub node_id : String
  pub node_name : String
  pub installed_version : String
  pub latest_version : String
  pub compatibility : Compatibility
  pub installation_type : InstallationType
  pub upgrade_support : UpgradeSupport
  pub update_available : Bool
  pub release_check_stale : Bool

pub data HaState : Type 0 where
  at_risk degraded healthy : HaState

pub record HaNodeStatus : Type 0 where
  pub node_id : String
  pub dns_status : String
  pub udp_status : String
  pub tcp_status : String
  pub dns_probed_at : Option ℕ
  pub error_code : String

-- The message is a text for each state.
pub record HaSummary : Type 0 where
  pub state : HaState
  pub total_nodes : ℕ
  pub serving_dns_nodes : ℕ
  pub api_reachable_nodes : ℕ
  pub converged_nodes : ℕ
  pub maintenance_nodes : ℕ
  pub certificate_warnings : ℕ
  pub update_available_nodes : ℕ
  pub nodes : List HaNodeStatus

pub data CheckStatus : Type 0 where
  pass warning fail unknown not_applicable : CheckStatus

pub record Check : Type 0 where
  pub name : String
  pub status : CheckStatus
  pub required : Bool
  pub error_code : String
  pub message : String

pub record MaintenancePreflight : Type 0 where
  pub node_id : String
  pub allowed : Bool
  pub break_glass_required : Bool
  pub healthy_dns_nodes_remaining : ℕ
  pub expected_redundancy : HaState
  pub active_deployment : Bool
  pub open_drift : Bool
  pub active_dhcp : Bool
  pub checks : List Check

pub record ReturnValidation : Type 0 where
  pub node_id : String
  pub succeeded : Bool
  pub checks : List Check

-- What an observation tells of TLS; the ports, names and the warning are left out.
pub record TlsStatus : Type 0 where
  pub enabled : Bool
  pub valid_certificate : Bool
  pub valid_chain : Bool
  pub valid_key : Bool
  pub valid_pair : Bool
  pub subject : String
  pub issuer : String
  pub not_before : String
  pub not_after : String

-- What the operations read of an observed document: its TLS state, and whether it has active DHCP.
pub record Observed : Type 0 where
  pub tls : TlsStatus
  pub dhcp_enabled : Option Bool
