-- ===== src/Users/Tests.antt =====
-- An administrator who changes the own password, and another who tries to disable the own account.
use atlas_dns.Base.{ℕ, String, ◌≡◌, refl, ◌⊎◌, true, false, none, List, [], ◌∷◌, str_eq, length}
use atlas_dns.Base.Map.{lookup, insert, delete}
use atlas_dns.Base.Act.{ok}
use atlas_dns.Domain.{Actor}
use atlas_dns.Auth.Limiter.{new_login_limiter, allow, failure, success}
use atlas_dns.Auth.Model.{User, administrator}
use atlas_dns.Auth.Password.{
  validate_password, validate_display_name, verify_password, verify_parts, hash_of, encoded_hash,
  normalise_email,
}
use atlas_dns.Auth.Toy.{toy, ann, salt}
use atlas_dns.Users.Calls.{
  Call, Answers, World, new_world, allow_password, fail_password, succeed_password, hash_password,
  event,
}
use atlas_dns.Users.Calls
use atlas_dns.Users.Service.{
  UpdateInput, is_administrator, check_identity, update_checked, update, check_factor,
  write_password, change_verified, change_own_password,
}
use atlas_dns.Users.Changed.{
  written, updates, HasFactor, change_own_password-written, update-updates,
}

abbrev toy_answers : Answers
toy_answers = record {
  now = λ h. 0;
  id = λ h. ok "id";
  salt = λ h. ok salt;
  users = λ h. ok (ann ∷ []);
  user = λ id h. ok ann;
  required = λ id h. ok true;
  totp = λ id typed h. ok tt;
  updated = λ h. ok ann;
  done = λ h. ok tt;
  has_mfa = true;
}

abbrev actor : Actor
actor = record { user_id = "u1"; request_id = "r" }

abbrev start : World
start = new_world

abbrev disabling : UpdateInput
disabling = record {
  email = "ann@example.org";
  display_name = "Ann";
  role = administrator;
  enabled = false;
}

opened : Unit {0}
unfolding validate_password validate_display_name verify_password verify_parts hash_of encoded_hash
    normalise_email allow failure success new_login_limiter lookup insert delete allow_password
    fail_password succeed_password hash_password event check_identity update_checked update
    check_factor write_password change_verified change_own_password written updates
opened = tt

changes :
    length (
      written
        (change_own_password toy toy_answers actor "s1" "good password" "another password" []
          start).1.calls)
    ≡ 1
unfolding opened
changes = refl

keeps :
    written
      (change_own_password toy toy_answers actor "s1" "bad password" "another password" []
        start).1.calls
    ≡ []
unfolding opened
keeps = refl

own_account : updates (update toy toy_answers actor "u1" disabling start).1.calls ≡ []
unfolding opened
own_account = refl

other_account :
    updates (update toy toy_answers actor "u2" disabling start).1.calls
    ≡ ("u2", "ann@example.org", "Ann", false) ∷ []
unfolding opened
other_account = refl

change_own_password-written_example :
    let after =
      (change_own_password toy toy_answers actor "s1" "good password" "another password" []
        start).1 in
    (written after.calls ≡ [])
    ⊎ (((allow start.limiter "u1" 0).0 ≡ true)
        × ((user : User) × (toy_answers.user "u1" (Calls.clock ∷ []) ≡ ok user)
            × (verify_password toy user.password_hash "good password" ≡ ok true))
        × HasFactor toy toy_answers "u1" []
        × ((s : List ℕ) × (validate_password "another password" ≡ none)
            × (written after.calls ≡ ("u1", hash_of toy "another password" s) ∷ [])))
unfolding opened
change_own_password-written_example =
    change_own_password-written toy toy_answers actor "s1" "good password" "another password" []
      start

update-updates_example :
    let after = (update toy toy_answers actor "u2" disabling start).1 in
    (updates after.calls ≡ [])
    ⊎ ((email : String) × (normalise_email toy "ann@example.org" ≡ ok email)
        × (is_administrator administrator ≡ true)
        × ((str_eq "u1" "u2" ≡ false) ⊎ (false ≡ true))
        × (updates after.calls ≡ ("u2", email, "Ann", false) ∷ []))
unfolding opened
update-updates_example = update-updates toy toy_answers actor "u2" disabling start
