-- ===== src/Auth/Factors.antt =====
-- internal/auth/mfa.go: what the steps of a challenge grant, and what a code shows.
use atlas_dns.Base.{ℕ, String, ◌≡◌, refl, ◌⊎◌, inl, inr, true, Option, List, ◌∷◌, arith, Bool-cases}
use atlas_dns.Base.Act.{Result, ok, err, Result-cases}
use atlas_dns.Domain.{Failure, AuditEvent, EncryptedPayload}
use atlas_dns.Auth.Model.{User, Session, SessionResult, UserMfa}
use atlas_dns.Auth.Platform.{Platform}
use atlas_dns.Auth.Calls.{
  Call, Answers, Config, Run, World, audit_event, new_token, allow_factor, fail_factor,
  succeed_factor,
}
use atlas_dns.Auth.Calls
use atlas_dns.Auth.Sessions.{build_session}
use atlas_dns.Auth.Mfa.Steps.{verify_encrypted_totp, settle_totp, secret_scope}
use atlas_dns.Auth.Mfa.Challenge.{
  Caller, fail_challenge, report_refusal, refuse_recovery, settle_challenge, finish_challenge,
  refuses_factor,
}
use atlas_dns.Auth.Granted.{granted, second_of, Calm, record_failure-Calm, build_session-Calm}
use atlas_dns.Auth.Entered.{build_session-user_id}

module _ (p : Platform) (answers : Answers) (config : Config) where
  -- The code is the one of the secret at an instant that was read.
  abbrev pub IsCurrent : String → UserMfa → List ℕ → Type 0
  IsCurrent user_id mfa typed =
      (plain : List ℕ) × (p.open_payload (secret_scope user_id) mfa.secret ≡ ok plain)
      × ((at : List Call) × (p.validate_totp (p.trim_bytes typed) plain (answers.now at) ≡ ok true))

  pub verify_encrypted_totp-Calm :
      (user_id : String) (secret : EncryptedPayload) (typed : List ℕ) (key : String)
      → Calm granted (verify_encrypted_totp p answers config user_id secret typed key)
  unfolding verify_encrypted_totp settle_totp allow_factor fail_factor succeed_factor granted
  verify_encrypted_totp-Calm user_id secret typed key w = ground arith

  pub verify_encrypted_totp-IsCurrent :
      (user_id : String) (mfa : UserMfa) (typed : List ℕ) (key : String) (w : World)
      → (verify_encrypted_totp p answers config user_id mfa.secret typed key w).0 ≡ ok tt
      → IsCurrent user_id mfa typed
  unfolding verify_encrypted_totp settle_totp allow_factor
  verify_encrypted_totp-IsCurrent user_id mfa typed key w e =
      let plain = p.open_payload (secret_scope user_id) mfa.secret in
      let at = Calls.clock ∷ w.calls in
      elim (Result-cases plain) [
        | inr (f, lost) ↦ absurd (ground arith)
        | inl (bytes, opened) ↦ (bytes, opened, (at, ground arith))
      ]

  pub fail_challenge-Calm : (hash : List ℕ) → Calm granted (fail_challenge p answers config hash)
  unfolding fail_challenge granted
  fail_challenge-Calm hash w = ground arith

  pub report_refusal-Calm :
      (caller : Caller) (user : User) → Calm granted (report_refusal p answers config caller user)
  unfolding report_refusal granted
  report_refusal-Calm caller user w =
      record_failure-Calm p answers caller.request caller.source_ip user.email
        "invalid_second_factor" w

  pub refuse_recovery-Calm :
      (caller : Caller) (user : User) (hash : List ℕ) (key : String)
      → Calm granted (refuse_recovery p answers config caller user hash key)
  unfolding refuse_recovery fail_factor fail_challenge granted
  refuse_recovery-Calm caller user hash key w =
      let counted = (fail_challenge p answers config hash w).1 in
      let last = (fail_factor answers key counted).1 in
      let quiet = report_refusal-Calm caller user last in ground arith

  settle_challenge-Calm :
      (caller : Caller) (user : User) (hash : List ℕ) (key : String) (result : SessionResult)
      (done : Result Failure (Unit {0}))
      → Calm granted (settle_challenge p answers config caller user hash key result done)
  unfolding settle_challenge fail_challenge fail_factor succeed_factor granted
  settle_challenge-Calm caller user hash key result (ok _) w = refl
  settle_challenge-Calm caller user hash key result (err e) w =
      let counted = (fail_challenge p answers config hash w).1 in
      let last = (fail_factor answers key counted).1 in
      let quiet = report_refusal-Calm caller user last in
      elim (Bool-cases (refuses_factor e)) [ inl factor ↦ ground arith | inr other ↦ ground arith ]

  -- The grant of a second factor, if there is one.
  abbrev pub Finishes : User → List ℕ → List ℕ → List Call → List Call → Type 0
  Finishes user hash recovery_hash before after =
      (granted after ≡ granted before)
      ⊎ ((s : Session) × (s.user_id ≡ user.id)
          × (granted after ≡ second_of hash recovery_hash s ∷ granted before))

  pub finish_challenge-Finishes :
      (caller : Caller) (user : User) (hash : List ℕ) (key : String) (recovery_hash : List ℕ)
      (event : Option AuditEvent) (w : World)
      → Finishes user hash recovery_hash w.calls
          (finish_challenge p answers config caller user hash key recovery_hash event w).1.calls
  unfolding finish_challenge granted
  finish_challenge-Finishes caller user hash key recovery_hash event w =
      let built =
        build_session p answers config user caller.request caller.source_ip caller.user_agent w in
      let quiet =
        build_session-Calm p answers config user caller.request caller.source_ip caller.user_agent
          w in
      elim (Result-cases built.0) [
        | inr (e, lost) ↦ inl (ground arith)
        | inl (r, made) ↦
            let ready = Calls.clock ∷ built.1.calls in
            let now = answers.now built.1.calls in
            let done = answers.done ready in
            let asked : World = record built.1 {
              calls = Calls.complete_mfa_challenge hash recovery_hash now event r.1 r.2 ∷ ready;
            } in
            let settled = settle_challenge-Calm caller user hash key r.0 done asked in
            inr (
              r.1,
              build_session-user_id p answers config user caller.request caller.source_ip
                  caller.user_agent w made,
              ground arith,
            )
      ]
