-- ===== src/Auth/Model.antt =====
-- internal/domain/models.go and internal/auth: accounts, sessions and second factors.
use atlas_dns.Base.{ℕ, String, Bool, Option, List}
use atlas_dns.Domain.{EncryptedPayload}

-- `UserRole` has one declared value; any other text is a role that no user has.
pub data UserRole : Type 0 where
  administrator : UserRole
  other_role : String → UserRole

pub record User : Type 0 where
  pub id : String
  pub email : String
  pub display_name : String
  pub password_hash : String
  pub role : UserRole
  pub enabled : Bool
  pub created_at : ℕ
  pub updated_at : ℕ
  pub last_login_at : Option ℕ
  pub mfa_enabled : Bool

pub record Session : Type 0 where
  pub id : String
  pub user_id : String
  pub token_hash : List ℕ
  pub csrf_hash : List ℕ
  pub created_at : ℕ
  pub expires_at : ℕ
  pub last_seen_at : ℕ
  pub revoked_at : Option ℕ
  pub ip_metadata : String
  pub user_agent : String

pub record UserMfa : Type 0 where
  pub user_id : String
  pub secret : EncryptedPayload
  pub enrollment_started : ℕ
  pub enrollment_expires : ℕ
  pub enabled_at : Option ℕ
  pub recovery_remaining : ℕ

pub record MfaChallenge : Type 0 where
  pub id : String
  pub user_id : String
  pub token_hash : List ℕ
  pub created_at : ℕ
  pub expires_at : ℕ
  pub consumed_at : Option ℕ
  pub failed_attempts : ℕ
  pub ip_metadata : String
  pub user_agent : String

pub record MfaRecoveryCode : Type 0 where
  pub id : String
  pub user_id : String
  pub code_hash : List ℕ
  pub created_at : ℕ
  pub used_at : Option ℕ

-- `SessionResult`: a session with its tokens, or a challenge.
pub data SessionResult : Type 0 where
  signed_in :
      (user : User) → (session : Session) → (token : String) → (csrf_token : String) → SessionResult
  challenged : (token : String) → (expires_at : ℕ) → SessionResult

pub record MfaStatus : Type 0 where
  pub enabled : Bool
  pub recovery_remaining : ℕ

pub record MfaEnrollment : Type 0 where
  pub secret : String
  pub provisioning_uri : String
  pub qr_code : List ℕ
  pub issuer : String
  pub account_label : String
  pub expires_at : ℕ

-- A recovery code is its bytes.
pub record MfaRecoveryResult : Type 0 where
  pub recovery_codes : List (List ℕ)
  pub recovery_remaining : ℕ
