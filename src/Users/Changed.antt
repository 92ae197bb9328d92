-- ===== src/Users/Changed.antt =====
-- internal/useradmin/service.go: when a password or an account is changed.
use atlas_dns.Base.{
  ℕ, String, ◌≡◌, ◌⊎◌, inl, inr, Bool, true, false, not, ◌&&◌, ◌||◌, none, List, [], ◌∷◌, arith,
  str_eq, Bool-cases, Option-cases,
}
use atlas_dns.Base.Act.{ok, Result-cases}
use atlas_dns.Domain.{Actor}
use atlas_dns.Auth.Limiter.{allow}
use atlas_dns.Auth.Model.{User, UserRole}
use atlas_dns.Auth.Platform.{Platform}
use atlas_dns.Auth.Password.{
  validate_password, verify_password, hash_of, normalise_email, validate_display_name,
}
use atlas_dns.Users.Calls.{
  Call, Answers, Run, World, allow_password, fail_password, succeed_password, hash_password, event,
}
use atlas_dns.Users.Calls
use atlas_dns.Users.Service.{
  UpdateInput, is_administrator, check_identity, update_checked, update, check_factor,
  write_password, change_verified, change_own_password,
}

-- The passwords that users set themselves: whose, and the hash.
unfoldable pub written : List Call → List (String × String)
written [] = []
written (Call.change_own_password user_id _ hash _ _ ∷ h) = (user_id, hash) ∷ written h
written (_ ∷ h) = written h

-- The updates: of whom, to which address and name, and whether enabled.
unfoldable pub updates : List Call → List (String × String × String × Bool)
updates [] = []
updates (Call.update_user target email name enabled _ _ ∷ h) =
    (target, email, name, enabled) ∷ updates h
updates (_ ∷ h) = updates h

module _ (p : Platform) (answers : Answers) where
  write_password-written :
      (actor : Actor) (session_id password : String) (w : World)
      → let after = (write_password p answers actor session_id password w).1 in
        (written after.calls ≡ written w.calls)
        ⊎ ((salt : List ℕ) × (validate_password password ≡ none)
            × (written after.calls ≡ (actor.user_id, hash_of p password salt) ∷ written w.calls))
  unfolding write_password hash_password event succeed_password written
  write_password-written actor session_id password w =
      elim (Option-cases (validate_password password)) [
        | inr (e, bad) ↦ inl (ground arith)
        | inl good ↦ elim (Result-cases (answers.salt w.calls)) [
          | inr (e, lost) ↦ inl (ground arith)
          | inl (salt, drawn) ↦
              elim (Result-cases (answers.id (Calls.clock ∷ Calls.random ∷ w.calls))) [
                | inr (e, lost) ↦ inl (ground arith)
                | inl (id, made) ↦ inr (salt, good, ground arith)
              ]
        ]
      ]

  -- There is no verifier, the user needs no second factor, or its code was accepted.
  abbrev pub HasFactor : String → List ℕ → Type 0
  HasFactor user_id typed =
      (answers.has_mfa ≡ false)
      ⊎ ((h : List Call) × ((answers.required user_id h ≡ ok false)
            ⊎ (answers.totp user_id typed h ≡ ok tt)))

  check_factor-HasFactor :
      (user_id : String) (typed : List ℕ) (w : World)
      → (check_factor p answers user_id typed w).0 ≡ ok tt
      → HasFactor user_id typed
  unfolding check_factor
  check_factor-HasFactor user_id typed w e = elim (Bool-cases answers.has_mfa) [
    | inr off ↦ inl off
    | inl on ↦ elim (Result-cases (answers.required user_id w.calls)) [
      | inr (f, lost) ↦ absurd (ground arith)
      | inl (true, needed) ↦ inr (Calls.requires_mfa user_id ∷ w.calls, inr (ground arith))
      | inl (false, needed) ↦ inr (w.calls, inl needed)
    ]
  ]

  check_factor-quiet :
      (user_id : String) (typed : List ℕ) (w : World)
      → written (check_factor p answers user_id typed w).1.calls ≡ written w.calls
  unfolding check_factor written
  check_factor-quiet user_id typed w = ground arith

  -- A user's own password is written only after the limiter allowed an attempt, the current
  -- password was verified against the hash of that user, and the second factor was accepted, where
  -- one is needed; and what is written is a hash of a new password that is neither too short nor
  -- too long. Otherwise nothing is written.
  pub change_own_password-written :
      (actor : Actor) (session_id current password : String) (typed : List ℕ) (w : World)
      → let after = (change_own_password p answers actor session_id current password typed w).1 in
        (written after.calls ≡ written w.calls)
        ⊎ (((allow w.limiter actor.user_id (answers.now w.calls)).0 ≡ true)
            × ((user : User) × (answers.user actor.user_id (Calls.clock ∷ w.calls) ≡ ok user)
                × (verify_password p user.password_hash current ≡ ok true))
            × HasFactor actor.user_id typed
            × ((salt : List ℕ) × (validate_password password ≡ none)
                × (written after.calls
                    ≡ (actor.user_id, hash_of p password salt) ∷ written w.calls)))
  unfolding change_own_password change_verified allow_password fail_password written
  change_own_password-written actor session_id current password typed w =
      let id = actor.user_id in
      let door = (allow w.limiter id (answers.now w.calls)).0 in
      let next = (allow_password answers id w).1 in
      let asked : World = record next { calls = Calls.user_by_id id ∷ next.calls } in
      elim (Bool-cases (not (p.valid_id id) || not (p.valid_id session_id))) [
        | inl bad ↦ inl (ground arith)
        | inr good ↦ elim (Bool-cases door) [
          | inr shut ↦ inl (ground arith)
          | inl wide ↦ elim (Result-cases (answers.user id next.calls)) [
            | inr (e, lost) ↦ inl (ground arith)
            | inl (user, found) ↦
                elim (Result-cases (verify_password p user.password_hash current)) [
                  | inr (e, lost) ↦ inl (ground arith)
                  | inl (false, wrong) ↦ inl (ground arith)
                  | inl (true, right) ↦
                      let factor = check_factor p answers id typed asked in
                      let quiet = check_factor-quiet id typed asked in
                      elim (Result-cases factor.0) [
                        | inr (e, lost) ↦ inl (ground arith)
                        | inl (u, fine) ↦
                            elim (write_password-written actor session_id password factor.1) [
                              | inl same ↦ inl (ground arith)
                              | inr (salt, valid, after) ↦ inr (
                                wide,
                                (user, found, right),
                                check_factor-HasFactor id typed asked fine,
                                (salt, valid, ground arith),
                              )
                            ]
                      ]
                ]
          ]
        ]
      ]

  check_identity-same :
      (email name : String) (role : UserRole) (w : World)
      → (check_identity p answers email name role w).1 ≡ w
  unfolding check_identity
  check_identity-same email name role w = elim (Result-cases (normalise_email p email)) [
    | inr (e, lost) ↦ ground arith
    | inl (clean, fine) ↦ elim (Option-cases (validate_display_name p (p.trim name))) [
      | inr (e, bad) ↦ ground arith
      | inl good ↦ elim (Bool-cases (is_administrator role)) [
        | inl yes_role ↦ ground arith
        | inr no_role ↦ ground arith
      ]
    ]
  ]

  check_identity-ok :
      (email name : String) (role : UserRole) (w : World) {r : String × String}
      → (check_identity p answers email name role w).0 ≡ ok r
      → (normalise_email p email ≡ ok r.0) × (r.1 ≡ p.trim name) × (is_administrator role ≡ true)
  unfolding check_identity
  check_identity-ok email name role w {r} h = elim (Result-cases (normalise_email p email)) [
    | inr (e, lost) ↦ absurd (ground arith)
    | inl (clean, fine) ↦ elim (Option-cases (validate_display_name p (p.trim name))) [
      | inr (e, bad) ↦ absurd (ground arith)
      | inl good ↦ elim (Bool-cases (is_administrator role)) [
        | inl yes_role ↦ (ground arith, ground arith, yes_role)
        | inr no_role ↦ absurd (ground arith)
      ]
    ]
  ]

  update_checked-updates :
      (actor : Actor) (target email name : String) (enabled : Bool) (w : World)
      → let after = (update_checked p answers actor target email name enabled w).1 in
        (updates after.calls ≡ updates w.calls)
        ⊎ (updates after.calls ≡ (target, email, name, enabled) ∷ updates w.calls)
  unfolding update_checked event updates
  update_checked-updates actor target email name enabled w = ground arith

  -- An update writes nothing, or the user that was named, with the normalised address, the trimmed
  -- name and the state that was asked for, and the role is that of an administrator. Nobody
  -- disables the own account.
  pub update-updates :
      (actor : Actor) (target : String) (input : UpdateInput) (w : World)
      → let after = (update p answers actor target input w).1 in
        (updates after.calls ≡ updates w.calls)
        ⊎ ((email : String) × (normalise_email p input.email ≡ ok email)
            × (is_administrator input.role ≡ true)
            × ((str_eq actor.user_id target ≡ false) ⊎ (input.enabled ≡ true))
            × (updates after.calls
                ≡ (target, email, p.trim input.display_name, input.enabled) ∷ updates w.calls))
  unfolding update updates
  update-updates actor target input w =
      let identity = check_identity p answers input.email input.display_name input.role w in
      let same_world = check_identity-same input.email input.display_name input.role w in
      elim (Bool-cases (p.valid_id target)) [
        | inr bad ↦ inl (ground arith)
        | inl good ↦ elim (Result-cases identity.0) [
          | inr (e, lost) ↦ inl (ground arith)
          | inl (r, fine) ↦
              let (email, name, role) =
                check_identity-ok input.email input.display_name input.role w fine in
              elim (Bool-cases (str_eq actor.user_id target && not input.enabled)) [
                | inl own ↦ inl (ground arith)
                | inr other ↦
                    elim (update_checked-updates actor target r.0 r.1 input.enabled identity.1) [
                      | inl same ↦ inl (ground arith)
                      | inr after ↦ inr (r.0, email, role, ground arith, ground arith)
                    ]
              ]
        ]
      ]
