-- ===== src/Auth/Issued.antt =====
-- internal/auth/mfa.go: the recovery codes that are given out.
use atlas_dns.Base.{
  ℕ, zero, suc, ◌<◌, String, ◌≡◌, refl, ap, none, some, List, [], ◌∷◌, arith, length, All,
}
use atlas_dns.Base.Act.{ok}
use atlas_dns.Auth.Model.{MfaRecoveryCode}
use atlas_dns.Auth.Platform.{Platform}
use atlas_dns.Auth.Tokens.{hash_recovery_code}
use atlas_dns.Auth.Calls.{Call, Answers, World}
use atlas_dns.Auth.Calls
use atlas_dns.Auth.Recovery.{
  normalize_recovery_code, recovery_code_count, recovery_code_random_bytes, hex_encode,
}
use atlas_dns.Auth.RecoveryCodes.{PlainLaws, normalize-format}
use atlas_dns.Auth.Mfa.Steps.{new_recovery_codes, make_codes, recovery_code}

module _ (p : Platform) (answers : Answers) where
  -- `rand.Read` fills the bytes that it is asked for.
  abbrev pub Draws : Type 0
  Draws =
      (h : List Call)
      → (raw : List ℕ) × (answers.random recovery_code_random_bytes h ≡ ok raw)
        × All (λ x. x < 256) raw
        × (length raw ≡ recovery_code_random_bytes)

  abbrev pub Names : Type 0
  Names = (h : List Call) → (id : String) × (answers.id h ≡ ok id)

  -- A code that is accepted with the hash that is stored of it, for its user and unused.
  abbrev pub IsUsable : String → List ℕ × MfaRecoveryCode → Type 0
  IsUsable user_id code =
      (digits : List ℕ) × (normalize_recovery_code p code.0 ≡ some digits)
      × (code.1.code_hash ≡ hash_recovery_code p digits)
      × (code.1.user_id ≡ user_id)
      × (code.1.used_at ≡ none)

  make_codes-IsUsable :
      PlainLaws p
      → Draws
      → Names
      → (user_id : String) (now n : ℕ) (w : World)
      → (codes : List (List ℕ × MfaRecoveryCode)) × ((make_codes p answers user_id now n w).0
          ≡ ok codes)
        × (length codes ≡ n)
        × All (IsUsable user_id) codes
  unfolding make_codes
  make_codes-IsUsable laws draws names user_id now zero w = ([], refl, refl, tt)
  make_codes-IsUsable laws draws names user_id now (suc n) w =
      let (raw, drawn, bytes, ten) = draws w.calls in
      let asked = Calls.random recovery_code_random_bytes ∷ w.calls in
      let (id, named) = names asked in
      let next : World = record w { calls = Calls.new_id ∷ asked } in
      let (rest, made, many, usable) = make_codes-IsUsable laws draws names user_id now n next in
      (
        recovery_code p answers user_id now raw id ∷ rest,
        ground arith,
        ap suc many,
        ((hex_encode raw, normalize-format p laws raw bytes ten, refl, refl, refl), usable),
      )

  -- While random bytes and identifiers can be drawn, the loop ends with ten recovery codes, whatever
  -- was called before. Each code that the user is told is accepted, as the digits whose hash
  -- is stored for that user and not used.
  pub new_recovery_codes-IsUsable :
      PlainLaws p
      → Draws
      → Names
      → (user_id : String) (w : World)
      → (codes : List (List ℕ × MfaRecoveryCode)) × ((new_recovery_codes p answers user_id w).0
          ≡ ok codes)
        × (length codes ≡ recovery_code_count)
        × All (IsUsable user_id) codes
  unfolding new_recovery_codes
  new_recovery_codes-IsUsable laws draws names user_id w =
      make_codes-IsUsable laws draws names user_id (answers.now w.calls) recovery_code_count
        (record w { calls = Calls.clock ∷ w.calls })
