-- ===== src/Auth/Service.antt =====
-- internal/auth/service.go: setting up, signing in and out, and sessions.
use atlas_dns.Base.{
  ℕ, String, Bool, true, false, not, ◌&&◌, Option, none, some, List, [], ◌∷◌, str_eq, if◌then◌else◌,
}
use Prim.Native.String.{◌++◌ as append}
use atlas_dns.Base.Act.{Result, ok, err, ◌>>=◌, ◌>>◌, pure, fail, attempt}
use atlas_dns.Domain.{
  Failure, new_error, conflict, rate_limited, invalid_credentials, authentication, text,
}
use atlas_dns.Auth.Model.{User, Session, SessionResult, administrator}
use atlas_dns.Auth.Platform.{Platform}
use atlas_dns.Auth.Password.{verify_password, normalise_email, validate_display_name}
use atlas_dns.Auth.Tokens.{hash_token, equal}
use atlas_dns.Auth.Calls.{
  Call, Answers, Config, Run, ask, read_clock, audit_event, allow_login, fail_login, succeed_login,
  hash_password,
}
use atlas_dns.Auth.Sessions.{record_failure, build_session, create_session, create_mfa_challenge}

-- A check's error, if it finds one.
abbrev pub check : Option Failure → Run (Unit {0})
check none = pure tt
check (some e) = fail e

-- A pure function's answer.
abbrev pub lift : {A : Type 0} → Result Failure A → Run A
lift r w = (r, w)

-- What the key of a sign-in is made of.
unfoldable pub login_email : Platform → String → String
login_email p email = elim (normalise_email p email) [
  | ok clean ↦ clean
  | err e ↦ p.lower (p.trim email)
]

unfoldable pub login_key : Platform → String → String → String
login_key p source_ip email = append source_ip (append "\0" email)

-- The hash that is verified, and whether the credentials are refused.
abbrev pub hash_to_verify : Config → Result Failure User → String
hash_to_verify config (ok user) = user.password_hash
hash_to_verify config (err e) = config.dummy_hash

abbrev pub admitted : Result Failure User → Bool → Option User
admitted (err e) valid = none
admitted (ok user) valid = if valid && user.enabled then some user else none

module _ (p : Platform) (answers : Answers) (config : Config) where
  -- `SetupRequired`
  unfoldable pub setup_required : Run Bool
  setup_required = do has_users ← ask Call.has_users answers.has_users; pure (not has_users)

  unfoldable pub create_initial_user :
      String → String → String → String → String → String → Run SessionResult
  create_initial_user email display_name hash request source_ip user_agent = do
    user_id ← ask Call.new_id answers.id
    now ← read_clock answers
    let user : User = record {
      id = user_id;
      email = email;
      display_name = display_name;
      password_hash = hash;
      role = administrator;
      enabled = true;
      created_at = now;
      updated_at = now;
      last_login_at = none;
      mfa_enabled = false;
    }
    user_event ←
        audit_event answers "user" (some user_id) "user.created" "user" (some user_id) request
          (("role", text "administrator") ∷ []) now
    built ← build_session p answers config user request source_ip user_agent
    ask (Call.create_initial_user user built.1 user_event built.2) answers.done
    pure built.0

  unfoldable pub setup : String → String → String → String → String → String → Run SessionResult
  setup email display_name password request source_ip user_agent = do
    required ← setup_required
    if not required
        then fail (new_error conflict "initial setup has already been completed")
        else (do
          clean ← lift (normalise_email p email)
          let name : String = p.trim display_name
          check (validate_display_name p name)
          hash ← hash_password answers p password
          create_initial_user clean name hash request source_ip user_agent)

  -- A sign-in that the limiter does not allow.
  unfoldable pub refuse_limited : String → String → String → Run SessionResult
  refuse_limited request source_ip email = do
    record_failure p answers request source_ip email "rate_limited"
    fail (new_error rate_limited "too many login attempts; try again later")

  unfoldable pub refuse_credentials : String → String → String → String → Run SessionResult
  refuse_credentials key request source_ip email = do
    fail_login answers key
    record_failure p answers request source_ip email "invalid_credentials"
    fail (new_error invalid_credentials "email or password is incorrect")

  -- The password of a sign-in that the limiter allows.
  unfoldable pub verify_login :
      String → String → String → String → String → String → Run SessionResult
  verify_login key email password request source_ip user_agent = do
    found ← attempt (ask (Call.user_by_email email) (answers.by_email email))
    valid ← lift (verify_password p (hash_to_verify config found) password)
    elim (admitted found valid) [
      | none ↦ refuse_credentials key request source_ip email
      | some user ↦ do
        succeed_login answers key
        if user.mfa_enabled
            then create_mfa_challenge p answers config user source_ip user_agent
            else create_session p answers config user request source_ip user_agent
    ]

  -- `Login`
  unfoldable pub login : String → String → String → String → String → Run SessionResult
  login email password request source_ip user_agent = do
    let clean : String = login_email p email
    let key : String = login_key p source_ip clean
    allowed ← allow_login answers key
    if not allowed
        then refuse_limited request source_ip clean
        else verify_login key clean password request source_ip user_agent

  -- `Authenticate`
  unfoldable pub authenticate : String → Run (Session × User)
  authenticate token =
      if str_eq token "" then fail (new_error authentication "authentication is required") else (do
        now ← read_clock answers
        let hash : List ℕ = hash_token p config.secret "session" token
        found ← ask (Call.authenticated_session hash now) (answers.session hash)
        at ← read_clock answers
        attempt (ask (Call.touch_session found.0.id at) answers.done)
        pure found)

  -- `ValidateCSRF`
  unfoldable pub validate_csrf : Session → String → Bool
  validate_csrf session token =
      not (str_eq token "") && equal session.csrf_hash (hash_token p config.secret "csrf" token)

  -- `Logout`
  unfoldable pub logout : Session → User → String → Run (Unit {0})
  logout session user request = do
    now ← read_clock answers
    event ←
        audit_event answers "user" (some user.id) "auth.logout" "session" (some session.id) request
          [] now
    ask (Call.revoke_session session.id now event) answers.done
