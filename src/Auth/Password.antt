-- ===== src/Auth/Password.antt =====
-- internal/auth/password.go and the checks of internal/domain/validation.go on an account.
--
-- A new password's salt is an argument here; `hash_password` of Calls draws it.
use atlas_dns.Base.{
  ℕ, String, Bool, true, false, not, ◌&&◌, ◌||◌, Option, none, some, List, [], ◌∷◌, str_eq, ltb,
  ◌==◌, if◌then◌else◌, length,
}
use atlas_dns.Base.Act.{Result, ok, err}
use atlas_dns.Domain.{Failure, other_error, validation_error}
use atlas_dns.Auth.Platform.{Platform}
use Prim.Native.Char.{code}
use Prim.Native.String.{len, ◌∷◌ as cons}

abbrev pub argon_memory : ℕ
argon_memory = 65536

abbrev pub argon_iterations : ℕ
argon_iterations = 3

abbrev pub argon_parallelism : ℕ
argon_parallelism = 2

abbrev pub argon_salt_length : ℕ
argon_salt_length = 16

abbrev pub argon_key_length : ℕ
argon_key_length = 32

-- `ValidatePassword`
unfoldable pub validate_password : String → Option Failure
validate_password password =
    if ltb (len password) 12
    then some (validation_error "password" "must contain at least 12 characters")
    else if ltb 1024 (len password)
    then some (validation_error "password" "must not exceed 1024 bytes")
    else none

-- `strings.Split` at a character.
abbrev pub onto_first : Prim.Native.Char.Char → List String → List String
onto_first c [] = cons c "" ∷ []
onto_first c (s ∷ rest) = cons c s ∷ rest

abbrev pub split : ℕ → String → List String
split d String.[] = "" ∷ []
split d (String.◌∷◌ c s) =
    let rest = split d s in if code c == d then "" ∷ rest else onto_first c rest

-- The parts of a formatted text, one before the other.
abbrev pub before : String → String → String
before String.[] t = t
before (String.◌∷◌ c s) t = cons c (before s t)

-- What `HashPassword` writes: the `%d` are constants.
unfoldable pub encoded_hash : Platform → List ℕ → List ℕ → String
encoded_hash p salt hash =
    before "$argon2id$v=19$m=65536,t=3,p=2$" (before (p.encode salt) (before "$" (p.encode hash)))

unfoldable pub hash_of : Platform → String → List ℕ → String
hash_of p password salt =
    encoded_hash p salt
      (p.id_key password salt argon_iterations argon_memory argon_parallelism argon_key_length)

-- `subtle.ConstantTimeCompare` is 1.
abbrev pub bytes_eq : List ℕ → List ℕ → Bool
bytes_eq [] [] = true
bytes_eq [] (y ∷ ys) = false
bytes_eq (x ∷ xs) [] = false
bytes_eq (x ∷ xs) (y ∷ ys) = x == y && bytes_eq xs ys

-- The parameters that are accepted: the memory, the iterations and the parallelism.
abbrev pub in_bounds : ℕ → ℕ → ℕ → Bool
in_bounds memory iterations parallelism = not (
    ltb memory 8192
    || ltb 1048576 memory
    || ltb iterations 1
    || ltb 20 iterations
    || ltb parallelism 1
    || ltb 16 parallelism)

module _ (p : Platform) where
  -- A decoded part whose length is not within bounds is refused.
  abbrev pub sized : ℕ → ℕ → Option (List ℕ) → Option (List ℕ)
  sized low high none = none
  sized low high (some xs) = if ltb (length xs) low || ltb high (length xs) then none else some xs

  unfoldable pub verify_parts :
      String → Option (ℕ × ℕ × ℕ) → Option (List ℕ) → Option (List ℕ) → Result Failure Bool
  verify_parts password none salt hash = err (other_error "parse password hash parameters")
  verify_parts password (some (memory, iterations, parallelism)) salt hash =
      if not (in_bounds memory iterations parallelism)
      then err (other_error "password hash parameters are outside supported bounds")
      else elim salt [
        | none ↦ err (other_error "invalid password hash salt")
        | some salt ↦ elim hash [
          | none ↦ err (other_error "invalid password hash value")
          | some expected ↦ ok (
              bytes_eq (p.id_key password salt iterations memory parallelism (length expected))
                expected)
        ]
      ]

  abbrev pub verify_split : String → List String → Result Failure Bool
  verify_split password (first ∷ algorithm ∷ version ∷ parameters ∷ salt ∷ hash ∷ []) =
      if str_eq algorithm "argon2id" && str_eq version "v=19"
      then verify_parts password (p.scan parameters) (sized 8 64 (p.decode salt))
          (sized 16 64 (p.decode hash))
      else err (other_error "unsupported password hash encoding")
  verify_split password _ = err (other_error "unsupported password hash encoding")

  -- `VerifyPassword`
  unfoldable pub verify_password : String → String → Result Failure Bool
  verify_password encoded password = verify_split password (split b'$' encoded)

  -- `NormaliseEmail`
  unfoldable pub normalise_email : String → Result Failure String
  normalise_email value =
      let clean = p.lower (p.trim value) in
      let refused : Result Failure String =
        err (validation_error "email" "enter a valid email address") in
      elim (p.parse_address clean) [
        | none ↦ refused
        | some address ↦
            if not (str_eq address clean) || ltb 254 (len clean) then refused else ok clean
      ]

  -- `ValidateDisplayName`
  unfoldable pub validate_display_name : String → Option Failure
  validate_display_name value =
      let length = p.rune_count (p.trim value) in
      if ltb length 1 || ltb 120 length
      then some (validation_error "displayName" "must contain between 1 and 120 characters")
      else none
