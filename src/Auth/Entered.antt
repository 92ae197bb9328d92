-- ===== src/Auth/Entered.antt =====
-- internal/auth/service.go: who is signed in.
use atlas_dns.Base.{
  ◌+◌, String, ◌≡◌, refl, ◌⊎◌, inl, inr, Bool, true, false, none, some, List, ◌∷◌, arith,
  Bool-cases,
}
use atlas_dns.Base.Act.{ok, Result-cases}
use atlas_dns.Domain.{AuditEvent}
use atlas_dns.Auth.Limiter.{allow}
use atlas_dns.Auth.Model.{User, Session, SessionResult, MfaChallenge}
use atlas_dns.Auth.Platform.{Platform}
use atlas_dns.Auth.Password.{verify_password}
use atlas_dns.Auth.Calls.{
  Call, Answers, Config, Run, World, audit_event, new_token, allow_login, fail_login, succeed_login,
}
use atlas_dns.Auth.Calls
use atlas_dns.Auth.Sessions.{
  build_session, create_session, create_mfa_challenge, truncate, challenge_lifetime,
}
use atlas_dns.Auth.Tokens.{token_of}
use atlas_dns.Auth.Service.{
  login, login_email, login_key, verify_login, refuse_limited, refuse_credentials, admitted,
  hash_to_verify,
}
use atlas_dns.Auth.Granted.{
  Grant, granted, session_of, challenge_of, second_of, Calm, record_failure-Calm,
  build_session-Calm,
}

module _ (p : Platform) (answers : Answers) where
  module _ (config : Config) where
    pub build_session-user_id :
        (user : User) (request source_ip user_agent : String) (w : World)
        {r : SessionResult × Session × AuditEvent}
        → (build_session p answers config user request source_ip user_agent w).0 ≡ ok r
        → r.1.user_id ≡ user.id
    unfolding build_session new_token audit_event
    build_session-user_id user request source_ip user_agent w e = ground arith

    create_session-granted :
        (user : User) (request source_ip user_agent : String) (w : World)
        → let after =
            granted (create_session p answers config user request source_ip user_agent w).1.calls in
          (after ≡ granted w.calls)
          ⊎ ((s : Session) × (s.user_id ≡ user.id) × (after ≡ session_of s ∷ granted w.calls))
    unfolding create_session granted
    create_session-granted user request source_ip user_agent w =
        let built = build_session p answers config user request source_ip user_agent w in
        let quiet = build_session-Calm p answers config user request source_ip user_agent w in
        elim (Result-cases built.0) [
          | inr (e, lost) ↦ inl (ground arith)
          | inl (r, made) ↦
              inr
                (r.1, build_session-user_id user request source_ip user_agent w made, ground arith)
        ]

    create_mfa_challenge-granted :
        (user : User) (source_ip user_agent : String) (w : World)
        → let after =
            granted (create_mfa_challenge p answers config user source_ip user_agent w).1.calls in
          (after ≡ granted w.calls)
          ⊎ ((c : MfaChallenge) × (c.user_id ≡ user.id)
              × (after ≡ challenge_of c ∷ granted w.calls))
    unfolding create_mfa_challenge new_token granted
    create_mfa_challenge-granted user source_ip user_agent w =
        let made = answers.id w.calls in
        let asked = Calls.new_id ∷ w.calls in
        let random = answers.random 32 asked in
        let raw = Calls.random 32 ∷ asked in
        elim (Result-cases made) [
          | inr (e, lost) ↦ inl (ground arith)
          | inl (id, has) ↦ elim (Result-cases random) [
            | inr (e, lost) ↦ inl (ground arith)
            | inl (bytes, drawn) ↦ elim (Bool-cases config.has_mfa) [
              | inr off ↦ inl (ground arith)
              | inl on ↦
                  let token = token_of p config.secret "mfa-challenge" bytes in
                  let now = answers.now raw in
                  let challenge : MfaChallenge = record {
                    id = id;
                    user_id = user.id;
                    token_hash = token.1;
                    created_at = now;
                    expires_at = now + challenge_lifetime;
                    consumed_at = none;
                    failed_attempts = 0;
                    ip_metadata = truncate p source_ip 128;
                    user_agent = truncate p user_agent 512;
                  } in
                  inr (challenge, refl, ground arith)
            ]
          ]
        ]

    -- A grant that a sign-in made for a user.
    abbrev pub SignsIn : User → Grant → Type 0
    SignsIn user (session_of s) = (s.user_id ≡ user.id) × (user.mfa_enabled ≡ false)
    SignsIn user (challenge_of c) = (c.user_id ≡ user.id) × (user.mfa_enabled ≡ true)
    SignsIn user (second_of _ _ _) = ⊥

    -- What was seen before a sign-in granted anything.
    abbrev pub Verified : String → String → List Call → Grant → Type 0
    Verified email password before grant =
        (user : User) × (answers.by_email email before ≡ ok user)
        × (verify_password p user.password_hash password ≡ ok true)
        × (user.enabled ≡ true)
        × SignsIn user grant

    refuse_credentials-Calm :
        (key request source_ip email : String)
        → Calm granted (refuse_credentials p answers config key request source_ip email)
    unfolding refuse_credentials fail_login granted
    refuse_credentials-Calm key request source_ip email w =
        let failed = fail_login answers key w in
        let quiet =
          record_failure-Calm p answers request source_ip email "invalid_credentials" failed.1 in
        ground arith

    refuse_limited-Calm :
        (request source_ip email : String)
        → Calm granted (refuse_limited p answers config request source_ip email)
    unfolding refuse_limited granted
    refuse_limited-Calm request source_ip email w =
        let quiet = record_failure-Calm p answers request source_ip email "rate_limited" w in
        ground arith

    admitted-cases :
        (user : User) (valid : Bool)
        → ((admitted (ok user) valid ≡ some user) × (valid ≡ true) × (user.enabled ≡ true))
          ⊎ (admitted (ok user) valid ≡ none)
    admitted-cases user true = elim (Bool-cases user.enabled) [
      | inl on ↦ inl (ground arith, refl, on)
      | inr off ↦ inr (ground arith)
    ]
    admitted-cases user false = inr refl

    -- A grant is new, or there is none.
    abbrev pub Grants : (Grant → Type 0) → List Call → List Call → Type 0
    Grants Good before after =
        (granted after ≡ granted before)
        ⊎ ((g : Grant) × Good g × (granted after ≡ g ∷ granted before))

    verify_login-Grants :
        (key email password request source_ip user_agent : String) (w : World)
        → Grants
            (Verified email password w.calls)
            w.calls
            (verify_login p answers config key email password request source_ip user_agent
              w).1.calls
    unfolding verify_login granted succeed_login
    verify_login-Grants key email password request source_ip user_agent w =
        let asked : World = record w { calls = Calls.user_by_email email ∷ w.calls } in
        let found = answers.by_email email w.calls in
        let verified = verify_password p (hash_to_verify config found) password in
        let refused = refuse_credentials-Calm key request source_ip email asked in
        elim (Result-cases verified) [
          | inr (e, lost) ↦ inl (ground arith)
          | inl (valid, has) ↦ elim (Result-cases found) [
            | inr (e, unknown) ↦ inl (ground arith)
            | inl (user, known) ↦ elim (admitted-cases user valid) [
              | inr no_one ↦ inl (ground arith)
              | inl (one, fits, enabled) ↦
                  let world : World = (succeed_login answers key asked).1 in
                  elim (Bool-cases user.mfa_enabled) [
                    | inl on ↦ elim (create_mfa_challenge-granted user source_ip user_agent world) [
                      | inl same ↦ inl (ground arith)
                      | inr (c, whose, after) ↦ inr (
                        challenge_of c,
                        (user, known, ground arith, enabled, (whose, on)),
                        ground arith,
                      )
                    ]
                    | inr off ↦
                        elim (create_session-granted user request source_ip user_agent world) [
                          | inl same ↦ inl (ground arith)
                          | inr (s, whose, after) ↦ inr (
                            session_of s,
                            (user, known, ground arith, enabled, (whose, off)),
                            ground arith,
                          )
                        ]
                  ]
            ]
          ]
        ]

    -- A sign-in grants nothing, or one thing: a session of the user that has the normalised
    -- address, or, if that user has a second factor, a challenge. It then came after the limiter
    -- allowed the key of the address and the source, the password was verified against the user's
    -- hash, and the user was enabled.
    pub login-granted :
        (email password request source_ip user_agent : String) (w : World)
        → let after = (login p answers config email password request source_ip user_agent w).1 in
          let clean = login_email p email in
          (granted after.calls ≡ granted w.calls)
          ⊎ ((g : Grant) × Verified clean password (Calls.clock ∷ w.calls) g
              × ((allow w.limiter (login_key p source_ip clean) (answers.now w.calls)).0 ≡ true)
              × (granted after.calls ≡ g ∷ granted w.calls))
    unfolding login allow_login granted
    login-granted email password request source_ip user_agent w =
        let clean = login_email p email in
        let key = login_key p source_ip clean in
        let open_door = allow w.limiter key (answers.now w.calls) in
        let next = (allow_login answers key w).1 in
        elim (Bool-cases open_door.0) [
          | inr shut ↦
              let quiet = refuse_limited-Calm request source_ip clean next in inl (ground arith)
          | inl wide ↦
              elim (verify_login-Grants key clean password request source_ip user_agent next) [
                | inl same ↦ inl (ground arith)
                | inr (g, seen, after) ↦ inr (g, seen, wide, ground arith)
              ]
        ]
