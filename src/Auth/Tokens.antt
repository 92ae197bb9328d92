-- ===== src/Auth/Tokens.antt =====
-- internal/auth/token.go: the tokens and what is stored of them.
use atlas_dns.Base.{ℕ, String, List, ◌∷◌, ◌++◌, Bool}
use atlas_dns.Auth.Platform.{Platform}
use atlas_dns.Auth.Password.{bytes_eq}

abbrev pub token_bytes : ℕ
token_bytes = 32

-- What is hashed: the purpose, a zero byte and the token.
abbrev pub tagged : Platform → String → List ℕ → List ℕ
tagged p purpose token = p.bytes purpose ++ (0 ∷ token)

-- `hash`, with the manager's secret.
abbrev pub hash_token : Platform → List ℕ → String → String → List ℕ
hash_token p secret purpose token = p.hmac secret (tagged p purpose (p.bytes token))

-- `HashRecoveryCode`, which does not use the secret.
abbrev pub hash_recovery_code : Platform → List ℕ → List ℕ
hash_recovery_code p code = p.sha256 (tagged p "mfa-recovery-code" code)

-- `newToken` from its random bytes: the token and its hash.
abbrev pub token_of : Platform → List ℕ → String → List ℕ → String × List ℕ
token_of p secret purpose raw =
    let token = p.url_text raw in (token, hash_token p secret purpose token)

-- `Equal`
abbrev pub equal : List ℕ → List ℕ → Bool
equal left right = bytes_eq left right
