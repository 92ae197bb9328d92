-- ===== src/Auth/Mfa/Challenge.antt =====
-- internal/auth/mfa.go: `CompleteMFAChallenge` and `CancelMFAChallenge`.
use atlas_dns.Base.{
  ℕ, ◌-◌, String, Bool, true, false, not, Option, none, some, List, [], ◌∷◌, if◌then◌else◌,
  is_empty,
}
use Prim.Native.String.{◌++◌ as append}
use atlas_dns.Base.Act.{Result, ok, err, ◌>>=◌, ◌>>◌, pure, fail, attempt}
use atlas_dns.Domain.{
  Failure, domain_error, ErrorKind, authentication, invalid_credentials, rate_limited, new_error,
  number, AuditEvent,
}
use atlas_dns.Auth.Model.{User, UserMfa, MfaChallenge, SessionResult}
use atlas_dns.Auth.Platform.{Platform}
use atlas_dns.Auth.Tokens.{hash_token, hash_recovery_code}
use atlas_dns.Auth.Calls.{
  Call, Answers, Config, Run, ask, read_clock, audit_event, allow_factor, fail_factor,
  succeed_factor,
}
use atlas_dns.Auth.Sessions.{record_failure, build_session}
use atlas_dns.Auth.Recovery.{normalize_recovery_code}
use atlas_dns.Auth.Mfa.Steps.{with_mfa, verify_encrypted_totp}

abbrev pub code_refused : Failure
code_refused = new_error invalid_credentials "authentication code is invalid or expired"

-- The errors that say that the factor was not accepted.
abbrev pub refuses_kind : ErrorKind → Bool
refuses_kind invalid_credentials = true
refuses_kind authentication = true
refuses_kind _ = false

abbrev pub refuses_factor : Failure → Bool
refuses_factor (domain_error e) = refuses_kind e.kind
refuses_factor _ = false

-- Where a challenge is answered from: the request, the address and the agent.
pub record Caller : Type 0 where
  pub request : String
  pub source_ip : String
  pub user_agent : String

module _ (p : Platform) (answers : Answers) (config : Config) where
  abbrev pub challenge_hash : String → List ℕ
  challenge_hash token = hash_token p config.secret "mfa-challenge" (p.trim token)

  abbrev pub challenge_key : Caller → MfaChallenge → String
  challenge_key caller challenge = append caller.source_ip (append "\0" challenge.id)

  -- Count a failure on the challenge; what the repository answers is not read.
  unfoldable pub fail_challenge : List ℕ → Run (Unit {0})
  fail_challenge hash = do
    now ← read_clock answers
    attempt (ask (Call.fail_mfa_challenge hash now) answers.done)
    pure tt

  unfoldable pub report_refusal : Caller → User → Run SessionResult
  report_refusal caller user = do
    attempt (
        record_failure p answers caller.request caller.source_ip user.email "invalid_second_factor")
    fail code_refused

  -- A recovery code that is not valid, or that the repository refuses.
  unfoldable pub refuse_recovery : Caller → User → List ℕ → String → Run SessionResult
  refuse_recovery caller user hash key = do
    fail_challenge hash
    fail_factor answers key
    report_refusal caller user

  unfoldable pub settle_challenge :
      Caller
      → User
      → List ℕ
      → String
      → SessionResult
      → Result Failure (Unit {0})
      → Run SessionResult
  settle_challenge caller user hash key result (ok _) = do succeed_factor answers key; pure result
  settle_challenge caller user hash key result (err e) = do
    fail_challenge hash
    fail_factor answers key
    if not (refuses_factor e) then fail e else report_refusal caller user

  -- The factor was accepted: make the session, and use the challenge up.
  unfoldable pub finish_challenge :
      Caller → User → List ℕ → String → List ℕ → Option AuditEvent → Run SessionResult
  finish_challenge caller user hash key recovery_hash event = do
    built ← build_session p answers config user caller.request caller.source_ip caller.user_agent
    now ← read_clock answers
    done ← attempt (
        ask (Call.complete_mfa_challenge hash recovery_hash now event built.1 built.2) answers.done)
    settle_challenge caller user hash key built.0 done

  -- The hash of a recovery code with the event of its use; no hash for a code that is not valid.
  unfoldable pub recovery_proof :
      Caller → User → UserMfa → Option (List ℕ) → Run (List ℕ × Option AuditEvent)
  recovery_proof caller user mfa none = pure ([], none)
  recovery_proof caller user mfa (some code) = do
    now ← read_clock answers
    event ←
        audit_event answers "user" (some user.id) "user.mfa.recovery_code_used" "user"
          (some user.id) caller.request
          (("recoveryCodesRemaining", number (mfa.recovery_remaining - 1)) ∷ []) now
    pure (hash_recovery_code p code, some event)

  unfoldable pub answer_recovery :
      Caller → User → UserMfa → List ℕ → String → List ℕ → Run SessionResult
  answer_recovery caller user mfa hash key typed = do
    proof ← recovery_proof caller user mfa (normalize_recovery_code p typed)
    if is_empty proof.0
        then refuse_recovery caller user hash key
        else finish_challenge caller user hash key proof.0 proof.1

  unfoldable pub answer_totp :
      Caller → User → UserMfa → List ℕ → String → List ℕ → Run SessionResult
  answer_totp caller user mfa hash key typed = do
    verified ← attempt (verify_encrypted_totp p answers config user.id mfa.secret typed key)
    elim verified [
      | ok _ ↦ finish_challenge caller user hash key [] none
      | err e ↦ do fail_challenge hash; report_refusal caller user
    ]

  unfoldable pub answer_challenge :
      Caller → MfaChallenge → User → UserMfa → List ℕ → Bool → List ℕ → Run SessionResult
  answer_challenge caller challenge user mfa hash recovery typed = do
    let key : String = challenge_key caller challenge
    allowed ← allow_factor answers key
    if not allowed
        then fail (new_error rate_limited "too many authentication-code attempts; try again later")
        else if recovery
        then answer_recovery caller user mfa hash key typed
        else answer_totp caller user mfa hash key typed

  -- `CompleteMFAChallenge`
  unfoldable pub complete_challenge : Caller → String → List ℕ → Bool → Run SessionResult
  complete_challenge caller token typed recovery = with_mfa config (do
    let hash : List ℕ = challenge_hash token
    now ← read_clock answers
    found ← ask (Call.mfa_challenge_by_token_hash hash now) (answers.challenge hash)
    answer_challenge caller found.0 found.1 found.2 hash recovery typed)

  -- `CancelMFAChallenge`
  unfoldable pub cancel_challenge : String → Run (Unit {0})
  cancel_challenge token = with_mfa config (do
    now ← read_clock answers
    ask (Call.consume_mfa_challenge (challenge_hash token) [] now none) answers.done)
