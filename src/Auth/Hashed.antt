-- ===== src/Auth/Hashed.antt =====
-- internal/auth/password.go: a password is verified by what was hashed.
use atlas_dns.Base.{
  ℕ, String, ◌≡◌, refl, sym, ap, ◌∙◌, ◌↔◌, Bool, true, false, some, List, [], ◌∷◌, arith, ◌==◌,
  length,
}
use atlas_dns.Base.Act.{Result, ok}
use Prim.Native.Char.{code}
use atlas_dns.Auth.Platform.{Platform}
use atlas_dns.Auth.Password.{
  before, split, bytes_eq, encoded_hash, hash_of, verify_parts, verify_password, argon_memory,
  argon_iterations, argon_parallelism, argon_salt_length, argon_key_length, sized, verify_split,
}

abbrev pub HasNo : ℕ → String → Type 0
HasNo d String.[] = Unit {0}
HasNo d (String.◌∷◌ c s) = ((code c == d) ≡ false) × HasNo d s

-- What base64, `fmt.Sscanf` and argon2 document: a decoding, an alphabet with no dollar sign, the
-- numbers read back, and a key of the length that was asked for.
pub record HashLaws (p : Platform) : Type 0 where
  pub decode-encode : (xs : List ℕ) → p.decode (p.encode xs) ≡ some xs
  pub encode-HasNo : (xs : List ℕ) → HasNo b'$' (p.encode xs)
  pub scan-numbers :
      p.scan "m=65536,t=3,p=2" ≡ some (argon_memory, argon_iterations, argon_parallelism)
  pub length-id_key :
      (password : String) (salt : List ℕ) (i m l n : ℕ)
      → length (p.id_key password salt i m l n) ≡ n

-- A text with no separator is one part.
split-HasNo : (d : ℕ) (s : String) → HasNo d s → split d s ≡ s ∷ []
split-HasNo d String.[] h = refl
split-HasNo d (String.◌∷◌ c s) h = ground (arith, split-HasNo d s h.1)

split-before :
    (s t : String) → HasNo b'$' s → split b'$' (before s (before "$" t)) ≡ s ∷ split b'$' t
split-before String.[] t h = refl
split-before (String.◌∷◌ c s) t h = ground (arith, split-before s t h.1)

bytes_eq_iff : (xs ys : List ℕ) → (bytes_eq xs ys ≡ true) ↔ (xs ≡ ys)
bytes_eq_iff [] [] = ground arith
bytes_eq_iff [] (y ∷ ys) = ground arith
bytes_eq_iff (x ∷ xs) [] = ground arith
bytes_eq_iff (x ∷ xs) (y ∷ ys) = ground (arith, bytes_eq_iff xs ys)

split-hash :
    (p : Platform)
    → HashLaws p
    → (salt hash : List ℕ)
    → split b'$' (encoded_hash p salt hash)
      ≡ "" ∷ "argon2id" ∷ "v=19" ∷ "m=65536,t=3,p=2" ∷ p.encode salt ∷ p.encode hash ∷ []
unfolding encoded_hash
split-hash p laws salt hash =
    let tail : split b'$' (before (p.encode salt) (before "$" (p.encode hash)))
        ≡ p.encode salt ∷ p.encode hash ∷ [] =
      split-before (p.encode salt) (p.encode hash) (laws.encode-HasNo salt)
      ∙ ap (λ r. p.encode salt ∷ r) (split-HasNo b'$' (p.encode hash) (laws.encode-HasNo hash)) in
    ap (λ r. "" ∷ "argon2id" ∷ "v=19" ∷ "m=65536,t=3,p=2" ∷ r) tail

ok-injective : {E : Type 0} {a b : Bool} → Path (Result E Bool) (ok a) (ok b) → a ≡ b
ok-injective e = ground arith

-- The key that argon2 makes of a password.
abbrev pub key_of : Platform → List ℕ → String → List ℕ
key_of p salt s = p.id_key s salt argon_iterations argon_memory argon_parallelism argon_key_length

verify_password-bytes_eq :
    (p : Platform)
    → HashLaws p
    → (password typed : String) (salt : List ℕ) → length salt ≡ argon_salt_length
    → verify_password p (hash_of p password salt) typed
      ≡ ok (bytes_eq (key_of p salt typed) (key_of p salt password))
unfolding verify_password hash_of verify_parts
verify_password-bytes_eq p laws password typed salt sixteen =
    let hash = key_of p salt password in
    let long : length hash ≡ 32 =
      laws.length-id_key password salt argon_iterations argon_memory argon_parallelism
        argon_key_length in
    let salted : sized p 8 64 (p.decode (p.encode salt)) ≡ some salt =
      ground (arith, laws.decode-encode salt) in
    let hashed : sized p 16 64 (p.decode (p.encode hash)) ≡ some hash =
      ground (arith, laws.decode-encode hash) in
    ap (verify_split p typed) (split-hash p laws salt hash)
    ∙ (λ i. verify_parts p typed (laws.scan-numbers i) (salted i) (hashed i))
    ∙ ap
        (λ n.
          ok
            (bytes_eq (p.id_key typed salt argon_iterations argon_memory argon_parallelism n) hash))
        long

-- A typed password is verified against a hash exactly if it has the same key, from the salt of the
-- hash: the hashed password itself is. The salt is the one that was drawn.
pub verify_password-hash_of :
    (p : Platform)
    → HashLaws p
    → (password typed : String) (salt : List ℕ) → length salt ≡ argon_salt_length
    → ((verify_password p (hash_of p password salt) typed ≡ ok true)
        ↔ (key_of p salt typed ≡ key_of p salt password))
      × (verify_password p (hash_of p password salt) password ≡ ok true)
verify_password-hash_of p laws password typed salt sixteen =
    let verified = λ (s : String). verify_password-bytes_eq p laws password s salt sixteen in
    let same = bytes_eq_iff (key_of p salt typed) (key_of p salt password) in
    let own = bytes_eq_iff (key_of p salt password) (key_of p salt password) in
    (
      (
        λ e. same.0 (ok-injective (sym (verified typed) ∙ e)),
        λ e. verified typed ∙ ap ok (same.1 e),
      ),
      verified password ∙ ap ok (own.1 refl),
    )
