-- ===== src/Auth/Tests.antt =====
-- A user who signs in with a password, then with a recovery code, and a source that guesses.
use atlas_dns.Base.{
  ℕ, ◌+◌, ◌≤◌, String, ◌≡◌, refl, ◌↔◌, ◌⊎◌, true, false, some, List, [], ◌∷◌, arith, length, All,
}
use atlas_dns.Base.Act.{ok}
use atlas_dns.Base.Map.{lookup, insert, delete}
use atlas_dns.Auth.Limiter.{new_login_limiter, allow, failure, success}
use atlas_dns.Auth.Model.{User, UserMfa, MfaChallenge, Session}
use atlas_dns.Auth.Password.{verify_password, verify_parts, hash_of, encoded_hash, normalise_email}
use atlas_dns.Auth.Calls.{
  Call, Answers, Config, World, new_world, audit_event, allow_login, fail_login, succeed_login,
  new_token, allow_factor, fail_factor, succeed_factor,
}
use atlas_dns.Auth.Calls
use atlas_dns.Auth.Recovery.{normalize_recovery_code, format_recovery_code, hex_encode}
use atlas_dns.Auth.Service.{
  login, login_email, login_key, verify_login, refuse_limited, refuse_credentials,
}
use atlas_dns.Auth.Sessions.{
  record_failure, create_mfa_challenge, create_session, build_session, truncate,
}
use atlas_dns.Auth.Mfa.Steps.{
  verify_encrypted_totp, settle_totp, verify_step_up, verify_step_up_code, verify_current_password,
  settle_password, new_recovery_codes, make_codes,
}
use atlas_dns.Auth.Mfa.Challenge.{
  Caller, complete_challenge, answer_challenge, answer_recovery, answer_totp, recovery_proof,
  finish_challenge, settle_challenge, fail_challenge, report_refusal, refuse_recovery,
  challenge_hash, challenge_key,
}
use atlas_dns.Auth.Mfa.Manage.{disable_mfa, regenerate_recovery_codes}
use atlas_dns.Auth.Granted.{granted, Grant, second_of}
use atlas_dns.Auth.Entered.{Verified, login-granted}
use atlas_dns.Auth.SecondFactor.{Shown, complete_challenge-granted}
use atlas_dns.Auth.Lockout.{Guess, IsWrong, guess, lookups, guess-lookups}
use atlas_dns.Auth.RecoveryCodes.{normalize-format}
use atlas_dns.Auth.Hashed.{key_of, verify_password-hash_of}
use atlas_dns.Auth.Model.{MfaRecoveryCode}
use atlas_dns.Auth.Issued.{Draws, Names, IsUsable, new_recovery_codes-IsUsable}
use atlas_dns.Auth.StepUp.{Steps, weakened, verify_step_up-weakened}
use atlas_dns.Auth.Toy.{
  fill, toy, plain_laws, hash_laws, salt, toy_answers, config, start, fill-All,
}

normalize-format_example :
    normalize_recovery_code toy (format_recovery_code (hex_encode (fill 10 171)))
    ≡ some (hex_encode (fill 10 171))
normalize-format_example =
    normalize-format toy plain_laws (fill 10 171) (fill-All 10 171 (omega arith)) refl

verify_password-hash_of_example :
    ((verify_password toy (hash_of toy "good password" salt) "bad" ≡ ok true)
      ↔ (key_of toy salt "bad" ≡ key_of toy salt "good password"))
    × (verify_password toy (hash_of toy "good password" salt) "good password" ≡ ok true)
verify_password-hash_of_example =
    verify_password-hash_of toy hash_laws "good password" "bad" salt refl

opened : Unit {0}
unfolding verify_password verify_parts hash_of encoded_hash normalise_email login login_email
    login_key verify_login refuse_limited refuse_credentials record_failure audit_event allow_login
    fail_login succeed_login create_mfa_challenge create_session build_session new_token truncate
    allow failure success new_login_limiter granted lookups guess complete_challenge
    answer_challenge answer_recovery answer_totp recovery_proof finish_challenge settle_challenge
    fail_challenge report_refusal refuse_recovery allow_factor fail_factor succeed_factor
    normalize_recovery_code verify_encrypted_totp settle_totp weakened disable_mfa verify_step_up
    verify_step_up_code verify_current_password settle_password new_recovery_codes make_codes
    regenerate_recovery_codes lookup insert delete
opened = tt

-- A challenge is made for Ann, and three bytes answer it.
challenges :
    length (
      granted
        (login toy toy_answers config "ann@example.org" "good password" "r" "ip" "ua"
          start).1.calls)
    ≡ 1
unfolding opened
challenges = refl

refuses :
    length
      (granted (login toy toy_answers config "ann@example.org" "bad" "r" "ip" "ua" start).1.calls)
    ≡ 0
unfolding opened
refuses = refl

abbrev caller : Caller
caller = record { request = "r"; source_ip = "ip"; user_agent = "ua" }

enters :
    length (
      granted
        (complete_challenge toy toy_answers config caller "t" (1 ∷ 2 ∷ 3 ∷ []) false start).1.calls)
    ≡ 1
unfolding opened
enters = refl

abbrev typed_code : List ℕ
typed_code = fill 20 b'a'

recovers :
    length
      (granted (complete_challenge toy toy_answers config caller "t" typed_code true start).1.calls)
    ≡ 1
unfolding opened
recovers = refl

turns_off :
    weakened
      (disable_mfa toy toy_answers config "u1" "s1" "good password"
        (1 ∷ 2 ∷ 3 ∷ [])
        "r"
        start).1.calls
    ≡ "u1" ∷ []
unfolding opened
turns_off = refl

stays_on :
    weakened
      (disable_mfa toy toy_answers config "u1" "s1" "good password" (1 ∷ []) "r" start).1.calls
    ≡ []
unfolding opened
stays_on = refl

login-granted_example :
    let after =
      (login toy toy_answers config "ann@example.org" "good password" "r" "ip" "ua" start).1 in
    let clean = login_email toy "ann@example.org" in
    (granted after.calls ≡ [])
    ⊎ ((g : Grant) × Verified toy toy_answers config clean "good password" (Calls.clock ∷ []) g
        × ((allow start.limiter (login_key toy "ip" clean) 0).0 ≡ true)
        × (granted after.calls ≡ g ∷ []))
unfolding opened
login-granted_example =
    login-granted toy toy_answers config "ann@example.org" "good password" "r" "ip" "ua" start

complete_challenge-granted_example :
    let after = (complete_challenge toy toy_answers config caller "t" typed_code true start).1 in
    let hash = challenge_hash toy toy_answers config "t" in
    (granted after.calls ≡ [])
    ⊎ ((c : MfaChallenge) × (user : User) × (mfa : UserMfa) × (toy_answers.challenge hash
            (Calls.clock ∷ [])
          ≡ ok (c, user, mfa))
        × ((allow start.factor_limiter
              (challenge_key toy toy_answers config caller c)
              (toy_answers.now (Calls.mfa_challenge_by_token_hash hash 0 ∷ Calls.clock ∷ []))).0
            ≡ true)
        × ((recovery_hash : List ℕ) × (s : Session) × Shown toy toy_answers config user mfa true
              typed_code recovery_hash
            × (s.user_id ≡ user.id)
            × (granted after.calls ≡ second_of hash recovery_hash s ∷ [])))
unfolding opened
complete_challenge-granted_example =
    complete_challenge-granted toy toy_answers config caller "t" typed_code true start

verify_step_up-weakened_example :
    let off =
      (disable_mfa toy toy_answers config "u1" "s1" "good password" (1 ∷ 2 ∷ 3 ∷ []) "r" start).1 in
    let codes =
      (regenerate_recovery_codes toy toy_answers config "u1" "s1" "good password"
        (1 ∷ 2 ∷ 3 ∷ [])
        "r"
        start).1 in
    ((weakened off.calls ≡ [])
      ⊎ (Steps toy toy_answers config "u1" "good password" (1 ∷ 2 ∷ 3 ∷ [])
          × (weakened off.calls ≡ "u1" ∷ [])))
    × ((weakened codes.calls ≡ [])
        ⊎ (Steps toy toy_answers config "u1" "good password" (1 ∷ 2 ∷ 3 ∷ [])
            × (weakened codes.calls ≡ "u1" ∷ [])))
unfolding opened
verify_step_up-weakened_example =
    verify_step_up-weakened toy toy_answers config "u1" "s1" "good password" (1 ∷ 2 ∷ 3 ∷ []) "r"
      start

abbrev bad_guess : Guess
bad_guess = record { email = "ann@example.org"; password = "bad"; request = "r"; user_agent = "ua" }

abbrev the_key : String
the_key = login_key toy "ip" (login_email toy "ann@example.org")

wrong : IsWrong toy toy_answers config "ip" the_key bad_guess
unfolding opened
wrong = (refl, λ h. refl)

abbrev guesses : List Guess
guesses = bad_guess ∷ bad_guess ∷ bad_guess ∷ bad_guess ∷ bad_guess ∷ bad_guess ∷ []

guess-lookups_example : lookups (guess toy toy_answers config "ip" guesses start).calls ≤ 0 + 5
unfolding opened
guess-lookups_example =
    guess-lookups toy toy_answers config "ip" the_key guesses start
      (wrong, (wrong, (wrong, (wrong, (wrong, (wrong, tt)))))) refl (omega arith) (λ h. omega arith)

draws : Draws toy toy_answers
draws h = (fill 10 5, refl, fill-All 10 5 (omega arith), refl)

names : Names toy toy_answers
names h = ("id", refl)

new_recovery_codes-IsUsable_example :
    (codes : List (List ℕ × MfaRecoveryCode)) × ((new_recovery_codes toy toy_answers "u1" start).0
      ≡ ok codes)
    × (length codes ≡ 10)
    × All (IsUsable toy toy_answers "u1") codes
new_recovery_codes-IsUsable_example =
    new_recovery_codes-IsUsable toy toy_answers plain_laws draws names "u1" start
