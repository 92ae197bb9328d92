-- ===== src/Auth/Sessions.antt =====
-- internal/auth/service.go and internal/auth/mfa.go: what makes a session or a challenge.
use atlas_dns.Base.{ℕ, ◌+◌, ◌*◌, String, not, none, some, [], ◌∷◌, leb, if◌then◌else◌, length, take}
use atlas_dns.Base.Act.{◌>>=◌, ◌>>◌, pure, fail}
use atlas_dns.Domain.{AuditEvent, other_error, text}
use atlas_dns.Auth.Model.{User, Session, MfaChallenge, SessionResult, signed_in, challenged}
use atlas_dns.Auth.Platform.{Platform}
use atlas_dns.Auth.Calls.{Call, Answers, Config, Run, ask, read_clock, audit_event, new_token}
use atlas_dns.Auth.Recovery.{hex_encode}

-- `MFAChallengeLifetime`, in nanoseconds.
abbrev pub challenge_lifetime : ℕ
challenge_lifetime = 300 * 1000000000

module _ (p : Platform) where
  -- `truncate`
  unfoldable pub truncate : String → ℕ → String
  truncate value limit =
      if leb (length (p.bytes value)) limit then value else p.of_bytes (take limit (p.bytes value))

  module _ (answers : Answers) where
    -- `recordFailure`
    unfoldable pub record_failure : String → String → String → String → Run (Unit {0})
    record_failure request source_ip email outcome = do
      now ← read_clock answers
      event ←
          audit_event answers "anonymous" none "auth.login.failed" "authentication" none request
            (("sourceIp", text (truncate source_ip 128))
              ∷ ("identifierHash", text (p.of_bytes (hex_encode (p.sha256 (p.bytes email)))))
              ∷ ("outcome", text outcome)
              ∷ [])
            now
      ask (Call.record_audit_event event) answers.done

    module _ (config : Config) where
      -- `buildSession`: the session with its tokens, and the audit event of the sign-in.
      unfoldable pub build_session :
          User → String → String → String → Run (SessionResult × Session × AuditEvent)
      build_session user request source_ip user_agent = do
        id ← ask Call.new_id answers.id
        token ← new_token answers p config "session"
        csrf ← new_token answers p config "csrf"
        now ← read_clock answers
        let session : Session = record {
          id = id;
          user_id = user.id;
          token_hash = token.1;
          csrf_hash = csrf.1;
          created_at = now;
          expires_at = now + config.session_duration;
          last_seen_at = now;
          revoked_at = none;
          ip_metadata = truncate source_ip 128;
          user_agent = truncate user_agent 512;
        }
        event ←
            audit_event answers "user" (some user.id) "auth.login.succeeded" "session" (some id)
              request (("sourceIp", text session.ip_metadata) ∷ []) now
        pure (signed_in user session token.0 csrf.0, session, event)

      -- `createSession`
      unfoldable pub create_session : User → String → String → String → Run SessionResult
      create_session user request source_ip user_agent = do
        built ← build_session user request source_ip user_agent
        ask (Call.create_login_session built.1 built.2) answers.done
        pure built.0

      -- `createMFAChallenge`
      unfoldable pub create_mfa_challenge : User → String → String → Run SessionResult
      create_mfa_challenge user source_ip user_agent = do
        id ← ask Call.new_id answers.id
        token ← new_token answers p config "mfa-challenge"
        now ← read_clock answers
        let expires : ℕ = now + challenge_lifetime
        let challenge : MfaChallenge = record {
          id = id;
          user_id = user.id;
          token_hash = token.1;
          created_at = now;
          expires_at = expires;
          consumed_at = none;
          failed_attempts = 0;
          ip_metadata = truncate source_ip 128;
          user_agent = truncate user_agent 512;
        }
        if not config.has_mfa then fail (other_error "MFA repository is unavailable") else (do
          ask (Call.create_mfa_challenge challenge) answers.done
          pure (challenged token.0 expires))
