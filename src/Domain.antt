-- ===== src/Domain.antt =====
-- internal/domain/models.go and internal/domain/errors.go: the records that the services share.
--
-- An instant (`time.Time`) is its nanoseconds since the zero time. A string type with a fixed set
-- of values is a data type with the values that the database admits. Bytes are numbers. The
-- fields of an error that `errors.As` can find are kept, whatever wraps them.
use atlas_dns.Base.{ℕ, String, Bool, true, false, Option, List}

pub data ErrorKind : Type 0 where
  validation not_found conflict authentication invalid_credentials authorisation rate_limited
        node_unreachable node_auth node_tls node_response capability node_apply verification
        internal :
      ErrorKind

-- `domain.Error`.
pub record DomainError : Type 0 where
  pub kind : ErrorKind
  pub message : String
  pub field : String

-- A Go `error`: one that carries a `domain.Error`, or any other.
pub data Failure : Type 0 where
  domain_error : DomainError → Failure
  other_error : String → Failure

abbrev pub new_error : ErrorKind → String → Failure
new_error kind message = domain_error (record { kind = kind; message = message; field = "" })

-- `domain.Validation`
abbrev pub validation_error : String → String → Failure
validation_error field message =
    domain_error (record { kind = validation; message = message; field = field })

pub data NodeHealth : Type 0 where
  unknown healthy unreachable incompatible disabled : NodeHealth

pub data CertificatePolicy : Type 0 where
  system custom_ca insecure_http : CertificatePolicy

pub data Compatibility : Type 0 where
  unknown supported unsupported : Compatibility

abbrev pub is_supported : Compatibility → Bool
is_supported supported = true
is_supported _ = false

abbrev pub is_healthy : NodeHealth → Bool
is_healthy healthy = true
is_healthy _ = false

pub data ReconciliationPolicy : Type 0 where
  enforce alert manual : ReconciliationPolicy

pub data ConvergenceStatus : Type 0 where
  pending converged drifted applying verifying apply_failed observation_failed unsupported
        maintenance :
      ConvergenceStatus

abbrev pub is_converged : ConvergenceStatus → Bool
is_converged converged = true
is_converged _ = false

pub record Cluster : Type 0 where
  pub id : String
  pub name : String
  pub description : String
  pub reconciliation_policy : ReconciliationPolicy
  pub active_revision_id : Option String
  pub version : ℕ
  pub created_at : ℕ
  pub updated_at : ℕ

pub record Node : Type 0 where
  pub id : String
  pub cluster_id : String
  pub name : String
  pub base_url : String
  pub certificate_policy : CertificatePolicy
  pub enabled : Bool
  pub maintenance_mode : Bool
  pub health_status : NodeHealth
  pub compatibility_status : Compatibility
  pub version : String
  pub last_seen_at : Option ℕ
  pub last_polled_at : Option ℕ
  pub latency_ms : Option ℕ
  pub last_error_code : String
  pub applied_revision_id : Option String
  pub applied_hash : String
  pub convergence_status : ConvergenceStatus
  pub last_reconciled_at : Option ℕ
  pub record_version : ℕ
  pub created_at : ℕ
  pub updated_at : ℕ

pub record NodeCredentials : Type 0 where
  pub username : String
  pub password : String

-- `EncryptedCredentials` and `EncryptedPayload` have the same fields.
pub record EncryptedPayload : Type 0 where
  pub ciphertext : List ℕ
  pub nonce : List ℕ
  pub key_version : ℕ
  pub algorithm : String

pub record NodeSecretMaterial : Type 0 where
  pub credentials : EncryptedPayload
  pub custom_ca_pem : String

pub record NodeRecord : Type 0 where
  pub node : Node
  pub secrets : NodeSecretMaterial

pub record NodeProbeRequest : Type 0 where
  pub base_url : String
  pub certificate_policy : CertificatePolicy
  pub custom_ca_pem : String
  pub credentials : NodeCredentials

-- A value of `map[string]any` in an audit event.
pub data MetaValue : Type 0 where
  text : String → MetaValue
  number : ℕ → MetaValue
  flag : Bool → MetaValue
  texts : List String → MetaValue

-- Who acts, of which the services read the user and the request.
pub record Actor : Type 0 where
  pub user_id : String
  pub request_id : String

-- The fields that the services set; the display name, scope and cluster are filled on reading.
pub record AuditEvent : Type 0 where
  pub id : String
  pub actor_type : String
  pub actor_user_id : Option String
  pub action : String
  pub resource_type : String
  pub resource_id : Option String
  pub request_id : String
  pub metadata : List (String × MetaValue)
  pub created_at : ℕ

-- The text of an error kind, as in `string(kind)`.
abbrev pub kind_text : ErrorKind → String
kind_text validation = "VALIDATION_ERROR"
kind_text not_found = "NOT_FOUND"
kind_text conflict = "CONFLICT"
kind_text authentication = "AUTHENTICATION_REQUIRED"
kind_text invalid_credentials = "AUTHENTICATION_FAILED"
kind_text authorisation = "AUTHORISATION_DENIED"
kind_text rate_limited = "RATE_LIMITED"
kind_text node_unreachable = "NODE_UNREACHABLE"
kind_text node_auth = "NODE_AUTHENTICATION_FAILED"
kind_text node_tls = "NODE_TLS_FAILED"
kind_text node_response = "NODE_INVALID_RESPONSE"
kind_text capability = "CAPABILITY_ERROR"
kind_text node_apply = "NODE_APPLY_FAILED"
kind_text verification = "VERIFICATION_FAILED"
kind_text internal = "INTERNAL_ERROR"
