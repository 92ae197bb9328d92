-- ===== src/Auth/Mfa/Steps.antt =====
-- internal/auth/mfa.go: the checks that the operations share, and new recovery codes.
--
-- The secret that is overwritten after its use is not read again.
use atlas_dns.Base.{ℕ, zero, suc, String, Bool, not, none, List, [], ◌∷◌, if◌then◌else◌}
use Prim.Native.String.{◌++◌ as append}
use atlas_dns.Base.Act.{◌>>=◌, ◌>>◌, pure, fail}
use atlas_dns.Domain.{
  EncryptedPayload, new_error, other_error, rate_limited, invalid_credentials, conflict,
}
use atlas_dns.Auth.Model.{User, UserMfa, MfaRecoveryCode}
use atlas_dns.Auth.Platform.{Platform}
use atlas_dns.Auth.Password.{verify_password}
use atlas_dns.Auth.Tokens.{hash_recovery_code}
use atlas_dns.Auth.Calls.{
  Call, Answers, Config, Run, ask, read_clock, allow_factor, fail_factor, succeed_factor,
}
use atlas_dns.Auth.Service.{lift}
use atlas_dns.Auth.Recovery.{
  hex_encode, format_recovery_code, recovery_code_random_bytes, recovery_code_count,
}

-- `mfaSecretScope`
abbrev pub secret_scope : String → String
secret_scope user_id = append "user-mfa:" user_id

-- A user's key of an operation in the limiter of second factors.
abbrev pub factor_key : String → String → String
factor_key user_id operation = append user_id (append "\0" operation)

-- Run an operation of a repository that serves second factors.
abbrev pub with_mfa : {A : Type 0} → Config → Run A → Run A
with_mfa config m = if config.has_mfa then m else fail (other_error "MFA repository is unavailable")

module _ (p : Platform) (answers : Answers) where
  -- The check of a password, and its outcome.
  unfoldable pub settle_password : String → User → Bool → Run User
  settle_password key user valid =
      if not valid
      then (do
        fail_factor answers key
        fail (new_error invalid_credentials "current password is incorrect"))
      else (do succeed_factor answers key; pure user)

  -- `verifyCurrentPassword`
  unfoldable pub verify_current_password : String → String → String → Run User
  verify_current_password user_id password operation = do
    let key : String = factor_key user_id operation
    allowed ← allow_factor answers key
    if not allowed
        then fail (new_error rate_limited "too many authentication attempts; try again later")
        else (do
          user ← ask (Call.user_by_id user_id) (answers.by_id user_id)
          valid ← lift (verify_password p user.password_hash password)
          settle_password key user valid)

  unfoldable pub settle_totp : String → Bool → Run (Unit {0})
  settle_totp key valid =
      if not valid
      then (do
        fail_factor answers key
        fail (new_error invalid_credentials "authentication code is invalid"))
      else succeed_factor answers key

  -- `verifyEncryptedTOTP`
  unfoldable pub verify_encrypted_totp :
      Config → String → EncryptedPayload → List ℕ → String → Run (Unit {0})
  verify_encrypted_totp config user_id secret typed key =
      if not config.has_cipher
      then fail (other_error "MFA credential encryption is unavailable")
      else (do
        allowed ← allow_factor answers key
        if not allowed
            then fail
                (new_error rate_limited "too many authentication-code attempts; try again later")
            else (do
              plain ← lift (p.open_payload (secret_scope user_id) secret)
              now ← read_clock answers
              valid ← lift (p.validate_totp (p.trim_bytes typed) plain now)
              settle_totp key valid))

  unfoldable pub verify_step_up_code :
      Config → User → String → List ℕ → String → Run (User × UserMfa)
  verify_step_up_code config user user_id typed operation =
      if not user.mfa_enabled then fail (new_error conflict "MFA is not enabled") else (do
        mfa ← ask (Call.user_mfa user_id) (answers.mfa user_id)
        verify_encrypted_totp config user_id mfa.secret typed
            (factor_key user_id (append operation "-code"))
        pure (user, mfa))

  -- `verifyMFAStepUp`
  unfoldable pub verify_step_up : Config → String → String → List ℕ → String → Run (User × UserMfa)
  verify_step_up config user_id password typed operation = do
    user ← verify_current_password user_id password (append operation "-password")
    verify_step_up_code config user user_id typed operation

  -- One code of `newRecoveryCodes`: what the user is told, and what is stored.
  abbrev pub recovery_code : String → ℕ → List ℕ → String → List ℕ × MfaRecoveryCode
  recovery_code user_id now raw id = (
    format_recovery_code (hex_encode raw),
    record {
      id = id;
      user_id = user_id;
      code_hash = hash_recovery_code p (hex_encode raw);
      created_at = now;
      used_at = none;
    },
  )

  -- The loop, with the codes that are still to be made.
  unfoldable pub make_codes : String → ℕ → ℕ → Run (List (List ℕ × MfaRecoveryCode))
  make_codes user_id now zero = pure []
  make_codes user_id now (suc n) = do
    raw ← ask (Call.random recovery_code_random_bytes) (answers.random recovery_code_random_bytes)
    id ← ask Call.new_id answers.id
    rest ← make_codes user_id now n
    pure (recovery_code user_id now raw id ∷ rest)

  -- `newRecoveryCodes`
  unfoldable pub new_recovery_codes : String → Run (List (List ℕ × MfaRecoveryCode))
  new_recovery_codes user_id = do
    now ← read_clock answers
    make_codes user_id now recovery_code_count
