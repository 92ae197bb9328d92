-- ===== src/Auth/StepUp.antt =====
-- internal/auth/mfa.go: what a change of a second factor needs.
use atlas_dns.Base.{
  ℕ, zero, suc, String, ◌≡◌, refl, ◌⊎◌, inl, inr, true, List, [], ◌∷◌, arith, Bool-cases,
}
use Prim.Native.String.{◌++◌ as append}
use atlas_dns.Base.Act.{ok, Result-cases}
use atlas_dns.Domain.{EncryptedPayload}
use atlas_dns.Auth.Model.{User, UserMfa}
use atlas_dns.Auth.Platform.{Platform}
use atlas_dns.Auth.Password.{verify_password}
use atlas_dns.Auth.Calls.{
  Call, Answers, Config, Run, World, audit_event, allow_factor, fail_factor, succeed_factor,
}
use atlas_dns.Auth.Calls
use atlas_dns.Auth.Granted.{Calm}
use atlas_dns.Auth.Mfa.Steps.{
  verify_encrypted_totp, settle_totp, verify_current_password, settle_password, verify_step_up,
  verify_step_up_code, factor_key, new_recovery_codes, make_codes,
}
use atlas_dns.Auth.Mfa.Manage.{disable_mfa, regenerate_recovery_codes}
use atlas_dns.Auth.Factors.{IsCurrent, verify_encrypted_totp-IsCurrent}

-- The users whose second factor was turned off or whose recovery codes were replaced.
unfoldable pub weakened : List Call → List String
weakened [] = []
weakened (Call.disable_mfa user_id _ _ _ ∷ h) = user_id ∷ weakened h
weakened (Call.replace_recovery_codes user_id _ _ _ _ ∷ h) = user_id ∷ weakened h
weakened (_ ∷ h) = weakened h

module _ (p : Platform) (answers : Answers) where
  verify_current_password-Calm :
      (user_id password operation : String)
      → Calm weakened (verify_current_password p answers user_id password operation)
  unfolding verify_current_password settle_password allow_factor fail_factor succeed_factor weakened
  verify_current_password-Calm user_id password operation w = ground arith

  -- A password that was accepted is the one of the user that was found.
  abbrev pub Knows : String → String → User → Type 0
  Knows user_id password user =
      ((h : List Call) × (answers.by_id user_id h ≡ ok user))
      × (verify_password p user.password_hash password ≡ ok true)

  verify_current_password-Knows :
      (user_id password operation : String) (w : World) {user : User}
      → (verify_current_password p answers user_id password operation w).0 ≡ ok user
      → Knows user_id password user
  unfolding verify_current_password settle_password allow_factor
  verify_current_password-Knows user_id password operation w {user} e =
      let key = factor_key user_id operation in
      let next = (allow_factor answers key w).1 in ((next.calls, ground arith), ground arith)

  make_codes-Calm :
      (user_id : String) (now n : ℕ) → Calm weakened (make_codes p answers user_id now n)
  unfolding make_codes weakened
  make_codes-Calm user_id now zero w = refl
  make_codes-Calm user_id now (suc n) w = grind (arith, make_codes-Calm user_id now n)

  new_recovery_codes-Calm :
      (user_id : String) → Calm weakened (new_recovery_codes p answers user_id)
  unfolding new_recovery_codes weakened
  new_recovery_codes-Calm user_id w =
      make_codes-Calm user_id (answers.now w.calls) 10 (record w { calls = Calls.clock ∷ w.calls })

  module _ (config : Config) where
    verify_encrypted_totp-weakened :
        (user_id : String) (secret : EncryptedPayload) (typed : List ℕ) (key : String)
        → Calm weakened (verify_encrypted_totp p answers config user_id secret typed key)
    unfolding verify_encrypted_totp settle_totp allow_factor fail_factor succeed_factor weakened
    verify_encrypted_totp-weakened user_id secret typed key w = ground arith

    -- Both factors: the password of a user with a second factor, and a code of the moment.
    abbrev pub Steps : String → String → List ℕ → Type 0
    Steps user_id password typed =
        (user : User) × (mfa : UserMfa) × Knows user_id password user
        × (user.mfa_enabled ≡ true)
        × ((h : List Call) × (answers.mfa user_id h ≡ ok mfa))
        × IsCurrent p answers config user_id mfa typed

    verify_step_up-Calm :
        (user_id password : String) (typed : List ℕ) (operation : String)
        → Calm weakened (verify_step_up p answers config user_id password typed operation)
    unfolding verify_step_up verify_step_up_code weakened
    verify_step_up-Calm user_id password typed operation w =
        let first =
          verify_current_password p answers user_id password (append operation "-password") w in
        let quiet =
          verify_current_password-Calm user_id password (append operation "-password") w in
        elim (Result-cases first.0) [
          | inr (e, lost) ↦ ground arith
          | inl (user, known) ↦ elim (Bool-cases user.mfa_enabled) [
            | inr off ↦ ground arith
            | inl on ↦ elim (Result-cases (answers.mfa user_id first.1.calls)) [
              | inr (e, lost) ↦ ground arith
              | inl (mfa, found) ↦
                  let asked : World = record first.1 {
                    calls = Calls.user_mfa user_id ∷ first.1.calls;
                  } in
                  let key = factor_key user_id (append operation "-code") in
                  let silent = verify_encrypted_totp-weakened user_id mfa.secret typed key asked in
                  ground arith
            ]
          ]
        ]

    verify_step_up-Steps :
        (user_id password : String) (typed : List ℕ) (operation : String) (w : World)
        {r : User × UserMfa}
        → (verify_step_up p answers config user_id password typed operation w).0 ≡ ok r
        → Steps user_id password typed
    unfolding verify_step_up verify_step_up_code
    verify_step_up-Steps user_id password typed operation w e =
        let first =
          verify_current_password p answers user_id password (append operation "-password") w in
        elim (Result-cases first.0) [
          | inr (f, lost) ↦ absurd (ground arith)
          | inl (user, known) ↦ elim (Bool-cases user.mfa_enabled) [
            | inr off ↦ absurd (ground arith)
            | inl on ↦ elim (Result-cases (answers.mfa user_id first.1.calls)) [
              | inr (f, lost) ↦ absurd (ground arith)
              | inl (mfa, found) ↦
                  let asked : World = record first.1 {
                    calls = Calls.user_mfa user_id ∷ first.1.calls;
                  } in
                  let key = factor_key user_id (append operation "-code") in
                  (
                    user,
                    mfa,
                    verify_current_password-Knows user_id password (append operation "-password") w
                        known,
                    on,
                    (first.1.calls, found),
                    verify_encrypted_totp-IsCurrent p answers config user_id mfa typed key asked
                        (ground arith),
                  )
            ]
          ]
        ]

    -- A second factor is turned off, and recovery codes are replaced, only for the user who was
    -- named and only after both factors: the password was verified against the hash of that user,
    -- who has a second factor, and the code is one of the moment. Otherwise nothing is changed.
    pub verify_step_up-weakened :
        (user_id session_id password : String) (typed : List ℕ) (request : String) (w : World)
        → let off = (disable_mfa p answers config user_id session_id password typed request w).1 in
          let codes =
            (regenerate_recovery_codes p answers config user_id session_id password typed request
              w).1 in
          ((weakened off.calls ≡ weakened w.calls)
            ⊎ (Steps user_id password typed × (weakened off.calls ≡ user_id ∷ weakened w.calls)))
          × ((weakened codes.calls ≡ weakened w.calls)
              ⊎ (Steps user_id password typed
                  × (weakened codes.calls ≡ user_id ∷ weakened w.calls)))
    unfolding disable_mfa regenerate_recovery_codes audit_event weakened
    verify_step_up-weakened user_id session_id password typed request w =
        let step = λ (operation : String).
          verify_step_up p answers config user_id password typed operation w in
        let quiet =
          λ (operation : String). verify_step_up-Calm user_id password typed operation w in
        (
          elim (Bool-cases config.has_mfa) [
            | inr absent ↦ inl (ground arith)
            | inl present ↦ elim (Result-cases (step "mfa-disable").0) [
              | inr (e, lost) ↦ let same = quiet "mfa-disable" in inl (ground arith)
              | inl (r, fine) ↦
                  let same = quiet "mfa-disable" in
                  elim (Result-cases (answers.id (Calls.clock ∷ (step "mfa-disable").1.calls))) [
                    | inr (e, lost) ↦ inl (ground arith)
                    | inl (id, made) ↦ inr (
                      verify_step_up-Steps user_id password typed "mfa-disable" w fine,
                      ground arith,
                    )
                  ]
            ]
          ],
          elim (Bool-cases config.has_mfa) [
            | inr absent ↦ inl (ground arith)
            | inl present ↦ elim (Result-cases (step "mfa-regenerate").0) [
              | inr (e, lost) ↦ let same = quiet "mfa-regenerate" in inl (ground arith)
              | inl (r, fine) ↦
                  let same = quiet "mfa-regenerate" in
                  let made = new_recovery_codes p answers user_id (step "mfa-regenerate").1 in
                  let silent = new_recovery_codes-Calm user_id (step "mfa-regenerate").1 in
                  elim (Result-cases made.0) [
                    | inr (e, lost) ↦ inl (ground arith)
                    | inl (codes, drawn) ↦
                        elim (Result-cases (answers.id (Calls.clock ∷ made.1.calls))) [
                          | inr (e, lost) ↦ inl (ground arith)
                          | inl (id, named) ↦ inr (
                            verify_step_up-Steps user_id password typed "mfa-regenerate" w fine,
                            ground arith,
                          )
                        ]
                  ]
            ]
          ],
        )
