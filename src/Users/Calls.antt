-- ===== src/Users/Calls.antt =====
-- The state of internal/useradmin/service.go, and its collaborators.
--
-- The state is the limiter of passwords and the calls that were made, the latest one first.
use atlas_dns.Base.{ℕ, ◌*◌, String, Bool, Option, none, some, List, [], ◌∷◌}
use atlas_dns.Base.Act.{Result, ok, Step, ◌>>=◌, ◌>>◌, pure, fail}
use atlas_dns.Domain.{Failure, AuditEvent, MetaValue, Actor}
use atlas_dns.Auth.Limiter.{LoginLimiter, allow, failure, success, new_login_limiter}
use atlas_dns.Auth.Model.{User}
use atlas_dns.Auth.Platform.{Platform}
use atlas_dns.Auth.Password.{validate_password, hash_of}

-- The calls of `Repository` and `SecondFactorVerifier`, the clock, `domain.NewID`, and `rand.Read`
-- of a salt. An update has the user, the address, the name and whether the user is enabled.
pub data Call : Type 0 where
  clock new_id random list_users : Call
  user_by_id requires_mfa : String → Call
  create_user : User → AuditEvent → Call
  update_user : String → String → String → Bool → ℕ → AuditEvent → Call
  reset_user_password : String → String → ℕ → AuditEvent → Call
  change_own_password : String → String → String → ℕ → AuditEvent → Call
  verify_totp_for_user : String → List ℕ → String → Call

-- The answers, from what they are about and from the calls made before; `has_mfa` tells whether
-- there is a verifier of second factors.
pub record Answers : Type 0 where
  pub now : List Call → ℕ
  pub id : List Call → Result Failure String
  pub salt : List Call → Result Failure (List ℕ)
  pub users : List Call → Result Failure (List User)
  pub user : String → List Call → Result Failure User
  pub required : String → List Call → Result Failure Bool
  pub totp : String → List ℕ → List Call → Result Failure (Unit {0})
  pub updated : List Call → Result Failure User
  pub done : List Call → Result Failure (Unit {0})
  pub has_mfa : Bool

pub record World : Type 0 where
  pub limiter : LoginLimiter
  pub calls : List Call

-- `NewService`: the limiter allows five failures in fifteen minutes.
abbrev pub new_world : World
new_world = record { limiter = new_login_limiter 5 (15 * 60 * 1000000000); calls = [] }

abbrev pub Run : Type 0 → Type 0
Run A = Step World Failure A

abbrev pub ask : {A : Type 0} → Call → (List Call → Result Failure A) → Run A
ask c answer w = (answer w.calls, record w { calls = c ∷ w.calls })

abbrev pub lift : {A : Type 0} → Result Failure A → Run A
lift r w = (r, w)

abbrev pub check : Option Failure → Run (Unit {0})
check none = pure tt
check (some e) = fail e

module _ (answers : Answers) where
  abbrev pub read_clock : Run ℕ
  read_clock = ask Call.clock (λ h. ok (answers.now h))

  -- The methods of `passwordLimiter`.
  unfoldable pub allow_password : String → Run Bool
  allow_password key w =
      let r = allow w.limiter key (answers.now w.calls) in
      (ok r.0, record w { limiter = r.1; calls = Call.clock ∷ w.calls })

  unfoldable pub fail_password : String → Run (Unit {0})
  fail_password key w = (
    ok tt,
    record w {
      limiter = failure w.limiter key (answers.now w.calls);
      calls = Call.clock ∷ w.calls;
    },
  )

  unfoldable pub succeed_password : String → Run (Unit {0})
  succeed_password key w = (ok tt, record w { limiter = success w.limiter key })

  -- `auth.HashPassword`
  unfoldable pub hash_password : Platform → String → Run String
  hash_password p password = do
    check (validate_password password)
    salt ← ask Call.random answers.salt
    pure (hash_of p password salt)

  -- `event`
  unfoldable pub event : Actor → String → String → List (String × MetaValue) → ℕ → Run AuditEvent
  event actor action target metadata now = do
    id ← ask Call.new_id answers.id
    pure (record {
      id = id;
      actor_type = "user";
      actor_user_id = some actor.user_id;
      action = action;
      resource_type = "user";
      resource_id = some target;
      request_id = actor.request_id;
      metadata = metadata;
      created_at = now;
    })
