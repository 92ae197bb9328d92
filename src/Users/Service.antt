-- ===== src/Users/Service.antt =====
-- internal/useradmin/service.go: the operations on users.
use atlas_dns.Base.{
  ℕ, String, Bool, true, false, not, ◌&&◌, ◌||◌, none, List, [], ◌∷◌, str_eq, if◌then◌else◌,
}
use atlas_dns.Base.Act.{◌>>=◌, ◌>>◌, pure, fail}
use atlas_dns.Domain.{
  Actor, new_error, validation_error, conflict, authentication, rate_limited, invalid_credentials,
  text, flag,
}
use atlas_dns.Auth.Model.{User, UserRole, administrator, other_role}
use atlas_dns.Auth.Platform.{Platform}
use atlas_dns.Auth.Password.{normalise_email, validate_display_name, verify_password}
use atlas_dns.Users.Calls.{
  Call, Answers, Run, ask, lift, check, read_clock, allow_password, fail_password, succeed_password,
  hash_password, event,
}

pub record CreateInput : Type 0 where
  pub email : String
  pub display_name : String
  pub password : String
  pub role : UserRole

pub record UpdateInput : Type 0 where
  pub email : String
  pub display_name : String
  pub role : UserRole
  pub enabled : Bool

abbrev pub is_administrator : UserRole → Bool
is_administrator administrator = true
is_administrator (other_role _) = false

abbrev same_flag : Bool → Bool → Bool
same_flag a b = if a then b else not b

-- The action of the audit event of an update.
abbrev pub update_action : User → String → Bool → String
update_action current email enabled =
    if not (same_flag current.enabled enabled)
    then if enabled then "user.enabled" else "user.disabled"
    else if not (str_eq current.email email)
    then "user.login_identifier_changed"
    else "user.updated"

module _ (p : Platform) (answers : Answers) where
  -- `List`
  unfoldable pub list_users : Run (List User)
  list_users = ask Call.list_users answers.users

  -- The address and the name of an input.
  unfoldable pub check_identity : String → String → UserRole → Run (String × String)
  check_identity email display_name role = do
    clean ← lift (normalise_email p email)
    let name : String = p.trim display_name
    check (validate_display_name p name)
    if not (is_administrator role)
        then fail (validation_error "role" "must be administrator")
        else pure (clean, name)

  -- `Create`
  unfoldable pub create : Actor → CreateInput → Run User
  create actor input = do
    identity ← check_identity input.email input.display_name input.role
    hash ← hash_password answers p input.password
    id ← ask Call.new_id answers.id
    now ← read_clock answers
    let user : User = record {
      id = id;
      email = identity.0;
      display_name = identity.1;
      password_hash = hash;
      role = input.role;
      enabled = true;
      created_at = now;
      updated_at = now;
      last_login_at = none;
      mfa_enabled = false;
    }
    made ← event answers actor "user.created" id (("role", text "administrator") ∷ []) now
    ask (Call.create_user user made) answers.done
    pure user

  unfoldable pub update_checked : Actor → String → String → String → Bool → Run User
  update_checked actor target email name enabled = do
    current ← ask (Call.user_by_id target) (answers.user target)
    now ← read_clock answers
    made ←
        event answers actor (update_action current email enabled) target
          (("role", text "administrator")
            ∷ ("enabled", flag enabled)
            ∷ ("loginIdentifierChanged", flag (not (str_eq current.email email)))
            ∷ ("displayNameChanged", flag (not (str_eq current.display_name name)))
            ∷ [])
          now
    ask (Call.update_user target email name enabled now made) answers.updated

  -- `Update`
  unfoldable pub update : Actor → String → UpdateInput → Run User
  update actor target input =
      if not (p.valid_id target)
      then fail (validation_error "userId" "must be a valid identifier")
      else (do
        identity ← check_identity input.email input.display_name input.role
        if str_eq actor.user_id target && not input.enabled
            then fail (new_error conflict "you cannot disable your current account")
            else update_checked actor target identity.0 identity.1 input.enabled)

  -- `ResetPassword`
  unfoldable pub reset_password : Actor → String → String → Run (Unit {0})
  reset_password actor target password =
      if not (p.valid_id target)
      then fail (validation_error "userId" "must be a valid identifier")
      else (do
        hash ← hash_password answers p password
        now ← read_clock answers
        made ←
            event answers actor "user.password_reset" target (("sessionsRevoked", flag true) ∷ [])
              now
        ask (Call.reset_user_password target hash now made) answers.done)

  -- The second factor of the user, if there is a verifier and the user needs one.
  unfoldable pub check_factor : String → List ℕ → Run (Unit {0})
  check_factor user_id typed = if not answers.has_mfa then pure tt else (do
    required ← ask (Call.requires_mfa user_id) (answers.required user_id)
    if required
        then ask (Call.verify_totp_for_user user_id typed "password-change-code")
            (answers.totp user_id typed)
        else pure tt)

  -- The new password, after both checks.
  unfoldable pub write_password : Actor → String → String → Run (Unit {0})
  write_password actor session_id password = do
    hash ← hash_password answers p password
    now ← read_clock answers
    made ←
        event answers actor "user.password_changed" actor.user_id
          (("otherSessionsRevoked", flag true) ∷ []) now
    ask (Call.change_own_password actor.user_id session_id hash now made) answers.done
    succeed_password answers actor.user_id

  unfoldable pub change_verified : Actor → String → String → List ℕ → Bool → Run (Unit {0})
  change_verified actor session_id password typed valid =
      if not valid
      then (do
        fail_password answers actor.user_id
        fail (new_error invalid_credentials "current password is incorrect"))
      else (do check_factor actor.user_id typed; write_password actor session_id password)

  -- `ChangeOwnPassword`
  unfoldable pub change_own_password : Actor → String → String → String → List ℕ → Run (Unit {0})
  change_own_password actor session_id current password typed =
      if not (p.valid_id actor.user_id) || not (p.valid_id session_id)
      then fail (new_error authentication "authentication is required")
      else (do
        allowed ← allow_password answers actor.user_id
        if not allowed
            then fail (new_error rate_limited "too many password attempts; try again later")
            else (do
              user ← ask (Call.user_by_id actor.user_id) (answers.user actor.user_id)
              valid ← lift (verify_password p user.password_hash current)
              change_verified actor session_id password typed valid))
