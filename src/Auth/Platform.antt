-- ===== src/Auth/Platform.antt =====
-- The functions of Go's standard library and of its extensions that internal/auth calls.
use atlas_dns.Base.{ℕ, String, Bool, Option, List}
use atlas_dns.Base.Act.{Result}
use atlas_dns.Domain.{Failure, EncryptedPayload}

-- `trim` and `lower` are `strings.TrimSpace` and `strings.ToLower`, on texts and on bytes;
-- `parse_address` is the address that `mail.ParseAddress` finds; `rune_count` counts the
-- characters; `bytes` and `of_bytes` convert between a text and its bytes; `url_text` is
-- `base64.RawURLEncoding`, `encode` and `decode` are `base64.RawStdEncoding`, and `data_url` is
-- `base64.StdEncoding`; `id_key` is `argon2.IDKey` of a password, a salt, the iterations, the
-- memory, the parallelism and the length; `scan` reads the numbers of `m=%d,t=%d,p=%d`;
-- `validate_totp` is `totp.ValidateCustom` of a code, a secret and an instant; `open_payload` is
-- `DecryptPayload` of a scope; and `valid_id` matches the pattern of identifiers.
pub record Platform : Type 0 where
  pub trim : String → String
  pub lower : String → String
  pub trim_bytes : List ℕ → List ℕ
  pub lower_bytes : List ℕ → List ℕ
  pub parse_address : String → Option String
  pub rune_count : String → ℕ
  pub bytes : String → List ℕ
  pub of_bytes : List ℕ → String
  pub url_text : List ℕ → String
  pub encode : List ℕ → String
  pub decode : String → Option (List ℕ)
  pub data_url : List ℕ → List ℕ
  pub hmac : List ℕ → List ℕ → List ℕ
  pub sha256 : List ℕ → List ℕ
  pub id_key : String → List ℕ → ℕ → ℕ → ℕ → ℕ → List ℕ
  pub scan : String → Option (ℕ × ℕ × ℕ)
  pub validate_totp : List ℕ → List ℕ → ℕ → Result Failure Bool
  pub open_payload : String → EncryptedPayload → Result Failure (List ℕ)
  pub valid_id : String → Bool
