-- ===== src/Auth/Granted.antt =====
-- internal/auth: what the calls made so far grant.
use atlas_dns.Base.{ℕ, String, ◌≡◌, List, [], ◌∷◌, arith}
use atlas_dns.Auth.Model.{User, Session, MfaChallenge}
use atlas_dns.Auth.Platform.{Platform}
use atlas_dns.Auth.Calls.{Call, Answers, Config, Run, World, audit_event, new_token}
use atlas_dns.Auth.Sessions.{record_failure, build_session}

-- A session after a password, a challenge, and a session after a challenge: with the hash of the
-- challenge's token and of the recovery code.
pub data Grant : Type 0 where
  session_of : Session → Grant
  challenge_of : MfaChallenge → Grant
  second_of : (hash recovery_hash : List ℕ) → Session → Grant

unfoldable pub granted : List Call → List Grant
granted [] = []
granted (Call.create_login_session session _ ∷ h) = session_of session ∷ granted h
granted (Call.create_mfa_challenge challenge ∷ h) = challenge_of challenge ∷ granted h
granted (Call.complete_mfa_challenge hash recovery _ _ session _ ∷ h) =
    second_of hash recovery session ∷ granted h
granted (_ ∷ h) = granted h

-- A read of the calls that no step of `m` changes.
abbrev pub Calm : {B : Type 0} → (List Call → B) → {A : Type 0} → Run A → Type 0
Calm view m = (w : World) → view (m w).1.calls ≡ view w.calls

module _ (p : Platform) (answers : Answers) where
  pub record_failure-Calm :
      (request source_ip email outcome : String)
      → Calm granted (record_failure p answers request source_ip email outcome)
  unfolding record_failure audit_event granted
  record_failure-Calm request source_ip email outcome w = ground arith

  pub build_session-Calm :
      (config : Config) (user : User) (request source_ip user_agent : String)
      → Calm granted (build_session p answers config user request source_ip user_agent)
  unfolding build_session new_token audit_event granted
  build_session-Calm config user request source_ip user_agent w = ground arith
