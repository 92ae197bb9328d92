-- ===== src/Auth/Calls.antt =====
-- The state of internal/auth/service.go, and its collaborators.
--
-- The state is the two limiters and the calls that were made, the latest one first. A method of a
-- limiter reads the clock and is then one step.
use atlas_dns.Base.{ℕ, ◌*◌, String, Bool, Option, none, some, List, [], ◌∷◌}
use atlas_dns.Base.Act.{Result, ok, Step, ◌>>=◌, pure, fail}
use atlas_dns.Domain.{Failure, EncryptedPayload, AuditEvent, MetaValue}
use atlas_dns.Auth.Limiter.{LoginLimiter, allow, failure, success, new_login_limiter}
use atlas_dns.Auth.Model.{User, Session, UserMfa, MfaChallenge, MfaRecoveryCode}
use atlas_dns.Auth.Platform.{Platform}
use atlas_dns.Auth.Password.{validate_password, hash_of, argon_salt_length}
use atlas_dns.Auth.Tokens.{token_of, token_bytes}

-- The calls of `Repository` and `MFARepository`, the clock, `domain.NewID`, `rand.Read` of so many
-- bytes, `totp.Generate` for an account, and the encryption of a payload in a scope.
pub data Call : Type 0 where
  clock new_id has_users : Call
  random : ℕ → Call
  create_initial_user : User → Session → AuditEvent → AuditEvent → Call
  user_by_email user_by_id mfa_enabled user_mfa generate_key : String → Call
  create_login_session : Session → AuditEvent → Call
  authenticated_session : List ℕ → ℕ → Call
  touch_session : String → ℕ → Call
  revoke_session : String → ℕ → AuditEvent → Call
  record_audit_event : AuditEvent → Call
  encrypt : String → String → Call
  upsert_pending_mfa : UserMfa → Call
  create_mfa_challenge : MfaChallenge → Call
  mfa_challenge_by_token_hash : List ℕ → ℕ → Call
  fail_mfa_challenge : List ℕ → ℕ → Call
  consume_mfa_challenge : List ℕ → List ℕ → ℕ → Option AuditEvent → Call
  complete_mfa_challenge : List ℕ → List ℕ → ℕ → Option AuditEvent → Session → AuditEvent → Call
  enable_mfa : String → String → List MfaRecoveryCode → ℕ → AuditEvent → Call
  replace_recovery_codes : String → String → List MfaRecoveryCode → ℕ → AuditEvent → Call
  disable_mfa : String → String → ℕ → AuditEvent → Call
  reset_mfa_from_host : String → ℕ → AuditEvent → Call

-- `otp.Key`: its secret, its URL, and the PNG image of its QR code.
pub record TotpKey : Type 0 where
  pub secret : String
  pub url : String
  pub image : Result Failure (List ℕ)

-- The answers, from what they are about and from the calls made before.
pub record Answers : Type 0 where
  pub now : List Call → ℕ
  pub id : List Call → Result Failure String
  pub random : ℕ → List Call → Result Failure (List ℕ)
  pub has_users : List Call → Result Failure Bool
  pub by_email : String → List Call → Result Failure User
  pub by_id : String → List Call → Result Failure User
  pub session : List ℕ → List Call → Result Failure (Session × User)
  pub enabled : List Call → Result Failure Bool
  pub mfa : String → List Call → Result Failure UserMfa
  pub challenge : List ℕ → List Call → Result Failure (MfaChallenge × User × UserMfa)
  pub key : List Call → Result Failure TotpKey
  pub encrypted : List Call → Result Failure EncryptedPayload
  pub reset : List Call → Result Failure (User × ℕ)
  pub done : List Call → Result Failure (Unit {0})

-- What a service is made with: the token secret, the hash that is verified for an unknown user,
-- the session duration of the moment, whether the repository serves second factors, and whether
-- there is a cipher.
pub record Config : Type 0 where
  pub secret : List ℕ
  pub dummy_hash : String
  pub session_duration : ℕ
  pub has_mfa : Bool
  pub has_cipher : Bool

pub record World : Type 0 where
  pub limiter : LoginLimiter
  pub factor_limiter : LoginLimiter
  pub calls : List Call

-- `NewService`: the limiters allow five failures in fifteen minutes.
abbrev pub new_world : World
new_world = record {
  limiter = new_login_limiter 5 (15 * 60 * 1000000000);
  factor_limiter = new_login_limiter 5 (15 * 60 * 1000000000);
  calls = [];
}

abbrev pub Run : Type 0 → Type 0
Run A = Step World Failure A

-- Make a call.
abbrev pub ask : {A : Type 0} → Call → (List Call → Result Failure A) → Run A
ask c answer w = (answer w.calls, record w { calls = c ∷ w.calls })

module _ (answers : Answers) where
  abbrev pub read_clock : Run ℕ
  read_clock = ask Call.clock (λ h. ok (answers.now h))

  -- The methods of the sign-in limiter.
  unfoldable pub allow_login : String → Run Bool
  allow_login key w =
      let r = allow w.limiter key (answers.now w.calls) in
      (ok r.0, record w { limiter = r.1; calls = Call.clock ∷ w.calls })

  unfoldable pub fail_login : String → Run (Unit {0})
  fail_login key w = (
    ok tt,
    record w {
      limiter = failure w.limiter key (answers.now w.calls);
      calls = Call.clock ∷ w.calls;
    },
  )

  unfoldable pub succeed_login : String → Run (Unit {0})
  succeed_login key w = (ok tt, record w { limiter = success w.limiter key })

  -- The methods of the limiter of second factors.
  unfoldable pub allow_factor : String → Run Bool
  allow_factor key w =
      let r = allow w.factor_limiter key (answers.now w.calls) in
      (ok r.0, record w { factor_limiter = r.1; calls = Call.clock ∷ w.calls })

  unfoldable pub fail_factor : String → Run (Unit {0})
  fail_factor key w = (
    ok tt,
    record w {
      factor_limiter = failure w.factor_limiter key (answers.now w.calls);
      calls = Call.clock ∷ w.calls;
    },
  )

  unfoldable pub succeed_factor : String → Run (Unit {0})
  succeed_factor key w = (ok tt, record w { factor_limiter = success w.factor_limiter key })

  -- `auditEvent`
  unfoldable pub audit_event :
      String
      → Option String
      → String
      → String
      → Option String
      → String
      → List (String × MetaValue)
      → ℕ
      → Run AuditEvent
  audit_event actor_type actor action resource_type resource request metadata at = do
    id ← ask Call.new_id answers.id
    pure (record {
      id = id;
      actor_type = actor_type;
      actor_user_id = actor;
      action = action;
      resource_type = resource_type;
      resource_id = resource;
      request_id = request;
      metadata = metadata;
      created_at = at;
    })

  module _ (p : Platform) where
    -- `HashPassword`
    unfoldable pub hash_password : String → Run String
    hash_password password = elim (validate_password password) [
      | some e ↦ fail e
      | none ↦ do
        salt ← ask (Call.random argon_salt_length) (answers.random argon_salt_length)
        pure (hash_of p password salt)
    ]

    -- `newToken` of a purpose, with the service's secret.
    unfoldable pub new_token : Config → String → Run (String × List ℕ)
    new_token config purpose = do
      raw ← ask (Call.random token_bytes) (answers.random token_bytes)
      pure (token_of p config.secret purpose raw)
