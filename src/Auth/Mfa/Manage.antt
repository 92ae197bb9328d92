-- ===== src/Auth/Mfa/Manage.antt =====
-- internal/auth/mfa.go: enrolling, the recovery codes, turning second factors off, and resets.
use atlas_dns.Base.{
  ℕ, ◌+◌, ◌*◌, String, Bool, true, false, not, Option, none, some, List, [], ◌∷◌, ◌++◌, map, ltb,
  if◌then◌else◌, length,
}
use atlas_dns.Base.Act.{Result, ok, err, ◌>>=◌, ◌>>◌, pure, fail, attempt}
use atlas_dns.Domain.{
  Failure, MetaValue, number, flag, new_error, other_error, conflict, invalid_credentials,
}
use atlas_dns.Auth.Model.{
  User, UserMfa, MfaStatus, MfaEnrollment, MfaRecoveryCode, MfaRecoveryResult,
}
use atlas_dns.Auth.Platform.{Platform}
use atlas_dns.Auth.Password.{normalise_email}
use atlas_dns.Auth.Calls.{Call, Answers, Config, Run, ask, read_clock, audit_event, succeed_factor}
use atlas_dns.Auth.Service.{lift}
use atlas_dns.Auth.Recovery.{recovery_code_count}
use atlas_dns.Auth.Mfa.Steps.{
  secret_scope, factor_key, with_mfa, verify_current_password, verify_encrypted_totp,
  verify_step_up, new_recovery_codes,
}

-- `MFATOTPIssuer` and `MFAEnrollmentLifetime`.
abbrev pub totp_issuer : String
totp_issuer = "Atlas DNS"

abbrev pub enrollment_lifetime : ℕ
enrollment_lifetime = 600 * 1000000000

abbrev pub enrollment_missing : Failure
enrollment_missing = new_error conflict "MFA enrollment is missing or expired"

abbrev pub codes_metadata : List (String × MetaValue)
codes_metadata =
    ("recoveryCodesRemaining", number recovery_code_count)
    ∷ ("otherSessionsRevoked", flag true)
    ∷ []

-- The user is told the codes; the hashes are stored.
abbrev pub told : List (List ℕ × MfaRecoveryCode) → MfaRecoveryResult
told codes = record { recovery_codes = map (λ c. c.0) codes; recovery_remaining = length codes }

abbrev pub stored : List (List ℕ × MfaRecoveryCode) → List MfaRecoveryCode
stored codes = map (λ c. c.1) codes

-- Is an enrollment pending at an instant?
abbrev pub refusal : UserMfa → ℕ → Option Failure
refusal mfa now = if ltb now mfa.enrollment_expires then none else some enrollment_missing

module _ (p : Platform) (answers : Answers) (config : Config) where
  -- `MFAStatus`; beside an error no status is read.
  unfoldable pub mfa_status : String → Run MfaStatus
  mfa_status user_id = with_mfa config (do
    enabled ← ask (Call.mfa_enabled user_id) answers.enabled
    if not enabled then pure (record { enabled = false; recovery_remaining = 0 }) else (do
      mfa ← ask (Call.user_mfa user_id) (answers.mfa user_id)
      pure (record { enabled = true; recovery_remaining = mfa.recovery_remaining })))

  unfoldable pub enroll : User → Run MfaEnrollment
  enroll user = do
    key ← ask (Call.generate_key user.email) answers.key
    encrypted ← ask (Call.encrypt (secret_scope user.id) key.secret) answers.encrypted
    now ← read_clock answers
    let expires : ℕ = now + enrollment_lifetime
    ask
        (Call.upsert_pending_mfa (record {
          user_id = user.id;
          secret = encrypted;
          enrollment_started = now;
          enrollment_expires = expires;
          enabled_at = none;
          recovery_remaining = 0;
        }))
        answers.done
    image ← lift key.image
    pure (record {
      secret = key.secret;
      provisioning_uri = key.url;
      qr_code = p.bytes "data:image/png;base64," ++ p.data_url image;
      issuer = totp_issuer;
      account_label = user.email;
      expires_at = expires;
    })

  -- `StartMFAEnrollment`
  unfoldable pub start_enrollment : String → String → Run MfaEnrollment
  start_enrollment user_id password = with_mfa config (
      if not config.has_cipher
      then fail (other_error "MFA credential encryption is unavailable")
      else (do
        user ← verify_current_password p answers user_id password "mfa-enrollment-password"
        if user.mfa_enabled
            then fail (new_error conflict "MFA is already enabled")
            else enroll user))

  -- What follows a code of the new secret.
  unfoldable pub finish_enrollment : String → String → String → String → Run MfaRecoveryResult
  finish_enrollment user_id session_id request key = do
    codes ← new_recovery_codes p answers user_id
    now ← read_clock answers
    event ←
        audit_event answers "user" (some user_id) "user.mfa.enabled" "user" (some user_id) request
          codes_metadata now
    ask (Call.enable_mfa user_id session_id (stored codes) now event) answers.done
    succeed_factor answers key
    pure (told codes)

  unfoldable pub verify_pending :
      UserMfa → String → String → List ℕ → String → Run MfaRecoveryResult
  verify_pending mfa user_id session_id typed request = do
    now ← read_clock answers
    if not (ltb now mfa.enrollment_expires) then fail enrollment_missing else (do
      let key : String = factor_key user_id "mfa-enrollment-code"
      verify_encrypted_totp p answers config user_id mfa.secret typed key
      finish_enrollment user_id session_id request key)

  unfoldable pub verify_found :
      Result Failure UserMfa → String → String → List ℕ → String → Run MfaRecoveryResult
  verify_found (err e) user_id session_id typed request = fail enrollment_missing
  verify_found (ok mfa) user_id session_id typed request = elim mfa.enabled_at [
    | some at ↦ fail (new_error conflict "MFA is already enabled")
    | none ↦ verify_pending mfa user_id session_id typed request
  ]

  -- `VerifyMFAEnrollment`
  unfoldable pub verify_enrollment : String → String → List ℕ → String → Run MfaRecoveryResult
  verify_enrollment user_id session_id typed request = with_mfa config (do
    found ← attempt (ask (Call.user_mfa user_id) (answers.mfa user_id))
    verify_found found user_id session_id typed request)

  -- `RegenerateRecoveryCodes`
  unfoldable pub regenerate_recovery_codes :
      String → String → String → List ℕ → String → Run MfaRecoveryResult
  regenerate_recovery_codes user_id session_id password typed request = with_mfa config (do
    verify_step_up p answers config user_id password typed "mfa-regenerate"
    codes ← new_recovery_codes p answers user_id
    now ← read_clock answers
    event ←
        audit_event answers "user" (some user_id) "user.mfa.recovery_codes_regenerated" "user"
          (some user_id) request codes_metadata now
    ask (Call.replace_recovery_codes user_id session_id (stored codes) now event) answers.done
    pure (told codes))

  -- `DisableMFA`
  unfoldable pub disable_mfa : String → String → String → List ℕ → String → Run (Unit {0})
  disable_mfa user_id session_id password typed request = with_mfa config (do
    verify_step_up p answers config user_id password typed "mfa-disable"
    now ← read_clock answers
    event ←
        audit_event answers "user" (some user_id) "user.mfa.disabled" "user" (some user_id) request
          (("recoveryCodesInvalidated", flag true)
            ∷ ("challengesInvalidated", flag true)
            ∷ ("otherSessionsRevoked", flag true)
            ∷ [])
          now
    ask (Call.disable_mfa user_id session_id now event) answers.done)

  abbrev pub is_enabled : Result Failure UserMfa → Option UserMfa
  is_enabled (err e) = none
  is_enabled (ok mfa) = elim mfa.enabled_at [ none ↦ none | some at ↦ some mfa ]

  -- `VerifyTOTPForUser`
  unfoldable pub verify_totp_for_user : String → List ℕ → String → Run (Unit {0})
  verify_totp_for_user user_id typed operation = with_mfa config (do
    found ← attempt (ask (Call.user_mfa user_id) (answers.mfa user_id))
    elim (is_enabled found) [
      | none ↦
          fail (new_error invalid_credentials "current password or authentication code is invalid")
      | some mfa ↦
          verify_encrypted_totp p answers config user_id mfa.secret typed
            (factor_key user_id operation)
    ])

  -- `RequiresMFA`
  unfoldable pub requires_mfa : String → Run Bool
  requires_mfa user_id =
      if not config.has_mfa then pure false else ask (Call.mfa_enabled user_id) answers.enabled

  -- `ResetMFAFromHost`
  unfoldable pub reset_from_host : String → Run (User × ℕ)
  reset_from_host email = with_mfa config (do
    clean ← lift (normalise_email p email)
    now ← read_clock answers
    event ←
        audit_event answers "system" none "user.mfa.reset_from_host" "user" none "admin-cli"
          (("sessionsRevoked", flag true)
            ∷ ("recoveryCodesInvalidated", flag true)
            ∷ ("challengesInvalidated", flag true)
            ∷ [])
          now
    ask (Call.reset_mfa_from_host clean now event) answers.reset)
