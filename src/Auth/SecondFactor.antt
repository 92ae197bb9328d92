-- ===== src/Auth/SecondFactor.antt =====
-- internal/auth/mfa.go: who is signed in by a second factor.
use atlas_dns.Base.{
  ℕ, String, ◌≡◌, refl, sym, subst, ◌⊎◌, inl, inr, Bool, true, false, Option, none, some, List, [],
  ◌∷◌, arith, Bool-cases, is_empty,
}
use atlas_dns.Base.Act.{ok, Result-cases}
use atlas_dns.Domain.{AuditEvent}
use atlas_dns.Auth.Limiter.{allow}
use atlas_dns.Auth.Model.{User, Session, MfaChallenge, UserMfa}
use atlas_dns.Auth.Platform.{Platform}
use atlas_dns.Auth.Tokens.{hash_recovery_code}
use atlas_dns.Auth.Calls.{
  Call, Answers, Config, Run, World, audit_event, new_token, allow_factor, fail_factor,
  succeed_factor,
}
use atlas_dns.Auth.Calls
use atlas_dns.Auth.Recovery.{normalize_recovery_code}
use atlas_dns.Auth.Mfa.Steps.{verify_encrypted_totp}
use atlas_dns.Auth.Mfa.Challenge.{
  Caller, fail_challenge, recovery_proof, answer_recovery, answer_totp, answer_challenge,
  complete_challenge, challenge_hash, challenge_key,
}
use atlas_dns.Auth.Granted.{granted, second_of, Calm}
use atlas_dns.Auth.Factors.{
  IsCurrent, verify_encrypted_totp-Calm, verify_encrypted_totp-IsCurrent, report_refusal-Calm,
  refuse_recovery-Calm, finish_challenge-Finishes,
}

module _ (p : Platform) (answers : Answers) (config : Config) where
  -- What showed that a second factor is the user's: a recovery code that is well formed, whose
  -- hash goes to the repository, or a code of the moment.
  abbrev pub Shown : User → UserMfa → Bool → List ℕ → List ℕ → Type 0
  Shown user mfa true typed recovery_hash =
      (code : List ℕ) × (normalize_recovery_code p typed ≡ some code)
      × (recovery_hash ≡ hash_recovery_code p code)
  Shown user mfa false typed recovery_hash =
      IsCurrent p answers config user.id mfa typed × (recovery_hash ≡ [])

  abbrev pub GrantsBy : User → UserMfa → Bool → List ℕ → List ℕ → List Call → List Call → Type 0
  GrantsBy user mfa recovery typed hash before after =
      (granted after ≡ granted before)
      ⊎ ((recovery_hash : List ℕ) × (s : Session) × Shown user mfa recovery typed recovery_hash
          × (s.user_id ≡ user.id)
          × (granted after ≡ second_of hash recovery_hash s ∷ granted before))

  answer_totp-GrantsBy :
      (caller : Caller) (user : User) (mfa : UserMfa) (hash : List ℕ) (key : String)
      (typed : List ℕ) (w : World)
      → GrantsBy user mfa false typed hash w.calls
          (answer_totp p answers config caller user mfa hash key typed w).1.calls
  unfolding answer_totp fail_challenge granted
  answer_totp-GrantsBy caller user mfa hash key typed w =
      let verified = verify_encrypted_totp p answers config user.id mfa.secret typed key w in
      let quiet = verify_encrypted_totp-Calm p answers config user.id mfa.secret typed key w in
      let counted = (fail_challenge p answers config hash verified.1).1 in
      elim (Result-cases verified.0) [
        | inr (e, lost) ↦
            let told = report_refusal-Calm p answers config caller user counted in
            inl (ground arith)
        | inl (u, fine) ↦
            elim (finish_challenge-Finishes p answers config caller user hash key [] none
              verified.1) [
                | inl same ↦ inl (ground arith)
                | inr (s, whose, after) ↦ inr (
                  [],
                  s,
                  (
                    verify_encrypted_totp-IsCurrent p answers config user.id mfa typed key w
                        (ground arith),
                    refl,
                  ),
                  whose,
                  ground arith,
                )
              ]
      ]

  recovery_proof-Calm :
      (caller : Caller) (user : User) (mfa : UserMfa) (code : Option (List ℕ))
      → Calm granted (recovery_proof p answers config caller user mfa code)
  unfolding recovery_proof audit_event granted
  recovery_proof-Calm caller user mfa none w = refl
  recovery_proof-Calm caller user mfa (some code) w = ground arith

  recovery_proof-hash :
      (caller : Caller) (user : User) (mfa : UserMfa) (code : Option (List ℕ)) (w : World)
      {r : List ℕ × Option AuditEvent}
      → (recovery_proof p answers config caller user mfa code w).0 ≡ ok r
      → (is_empty r.0 ≡ true) ⊎ ((c : List ℕ) × (code ≡ some c) × (r.0 ≡ hash_recovery_code p c))
  unfolding recovery_proof audit_event
  recovery_proof-hash caller user mfa none w e = inl (ground arith)
  recovery_proof-hash caller user mfa (some code) w e = inr (code, refl, ground arith)

  answer_recovery-GrantsBy :
      (caller : Caller) (user : User) (mfa : UserMfa) (hash : List ℕ) (key : String)
      (typed : List ℕ) (w : World)
      → GrantsBy user mfa true typed hash w.calls
          (answer_recovery p answers config caller user mfa hash key typed w).1.calls
  unfolding answer_recovery granted
  answer_recovery-GrantsBy caller user mfa hash key typed w =
      let code = normalize_recovery_code p typed in
      let proof = recovery_proof p answers config caller user mfa code w in
      let quiet = recovery_proof-Calm caller user mfa code w in
      let refused = refuse_recovery-Calm p answers config caller user hash key proof.1 in
      elim (Result-cases proof.0) [
        | inr (e, lost) ↦ inl (ground arith)
        | inl (r, made) ↦ elim (Bool-cases (is_empty r.0)) [
          | inl no_hash ↦ inl (ground arith)
          | inr has_hash ↦ elim (recovery_proof-hash caller user mfa code w made) [
            | inl no_hash ↦ absurd (ground arith)
            | inr (c, formed, hashed) ↦
                elim (finish_challenge-Finishes p answers config caller user hash key r.0 r.1
                  proof.1) [
                    | inl same ↦ inl (ground arith)
                    | inr (s, whose, after) ↦ inr (r.0, s, (c, formed, hashed), whose, ground arith)
                  ]
          ]
        ]
      ]

  -- Answering a challenge grants nothing, or one session: of the user that the repository found
  -- with the hash of the challenge's token, after the limiter allowed the key of the challenge and
  -- the source at the time that was read next. The user then typed a well-formed recovery code, whose hash goes to the repository
  -- with the session, or the code of the moment of the user's secret, and no hash goes.
  pub complete_challenge-granted :
      (caller : Caller) (token : String) (typed : List ℕ) (recovery : Bool) (w : World)
      → let after = (complete_challenge p answers config caller token typed recovery w).1 in
        let hash = challenge_hash p answers config token in
        let found = answers.challenge hash (Calls.clock ∷ w.calls) in
        let asked =
          Calls.mfa_challenge_by_token_hash hash (answers.now w.calls) ∷ Calls.clock ∷ w.calls in
        (granted after.calls ≡ granted w.calls)
        ⊎ ((challenge : MfaChallenge) × (user : User) × (mfa : UserMfa) × (found
              ≡ ok (challenge, user, mfa))
            × ((allow w.factor_limiter
                  (challenge_key p answers config caller challenge)
                  (answers.now asked)).0
                ≡ true)
            × ((recovery_hash : List ℕ) × (s : Session) × Shown user mfa recovery typed
                  recovery_hash
                × (s.user_id ≡ user.id)
                × (granted after.calls ≡ second_of hash recovery_hash s ∷ granted w.calls)))
  unfolding complete_challenge answer_challenge allow_factor granted
  complete_challenge-granted caller token typed recovery w =
      let hash = challenge_hash p answers config token in
      let asked =
        Calls.mfa_challenge_by_token_hash hash (answers.now w.calls) ∷ Calls.clock ∷ w.calls in
      let reached : World = record w { calls = asked } in
      elim (Bool-cases config.has_mfa) [
        | inr off ↦ inl (ground arith)
        | inl on ↦ elim (Result-cases (answers.challenge hash (Calls.clock ∷ w.calls))) [
          | inr (e, lost) ↦ inl (ground arith)
          | inl ((challenge, user, mfa), has) ↦
              let key = challenge_key p answers config caller challenge in
              let at = answers.now asked in
              let next = (allow_factor answers key reached).1 in
              elim (Bool-cases (allow w.factor_limiter key at).0) [
                | inr shut ↦ inl (ground arith)
                | inl wide ↦ elim (Bool-cases recovery) [
                  | inl by_code ↦
                      elim (answer_recovery-GrantsBy caller user mfa hash key typed next) [
                        | inl same ↦ inl (ground arith)
                        | inr (rh, s, shown, whose, after) ↦ inr (
                          challenge,
                          user,
                          mfa,
                          has,
                          wide,
                          (
                            rh,
                            s,
                            subst (λ b. Shown user mfa b typed rh) (sym by_code) shown,
                            whose,
                            ground arith,
                          ),
                        )
                      ]
                  | inr by_totp ↦ elim (answer_totp-GrantsBy caller user mfa hash key typed next) [
                    | inl same ↦ inl (ground arith)
                    | inr (rh, s, shown, whose, after) ↦ inr (
                      challenge,
                      user,
                      mfa,
                      has,
                      wide,
                      (
                        rh,
                        s,
                        subst (λ b. Shown user mfa b typed rh) (sym by_totp) shown,
                        whose,
                        ground arith,
                      ),
                    )
                  ]
                ]
              ]
        ]
      ]
