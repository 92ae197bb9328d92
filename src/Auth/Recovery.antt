-- ===== src/Auth/Recovery.antt =====
-- internal/auth/mfa.go: recovery codes, as bytes.
use atlas_dns.Base.{
  ℕ, ◌+◌, ◌-◌, ◌*◌, ◌/◌, ◌%◌, Bool, not, ◌&&◌, ◌||◌, Option, none, some, List, [], ◌∷◌, ◌++◌, ltb,
  leb, ◌==◌, if◌then◌else◌, length, take, drop, all,
}
use atlas_dns.Auth.Platform.{Platform}

abbrev pub recovery_code_count : ℕ
recovery_code_count = 10

abbrev pub recovery_code_random_bytes : ℕ
recovery_code_random_bytes = 10

-- `hex.EncodeToString`
abbrev pub hex_digit : ℕ → ℕ
hex_digit n = if ltb n 10 then b'0' + n else b'a' + (n - 10)

abbrev pub hex_encode : List ℕ → List ℕ
hex_encode [] = []
hex_encode (x ∷ xs) = hex_digit (x / 16) ∷ hex_digit (x % 16) ∷ hex_encode xs

-- What `hex.DecodeString` accepts in a text of even length.
abbrev pub is_hex : ℕ → Bool
is_hex c = (leb b'0' c && leb c b'9') || (leb b'a' c && leb c b'f') || (leb b'A' c && leb c b'F')

-- `strings.ReplaceAll(value, "-", "")`
abbrev pub drop_dashes : List ℕ → List ℕ
drop_dashes [] = []
drop_dashes (c ∷ cs) = let rest = drop_dashes cs in if c == b'-' then rest else c ∷ rest

-- `normalizeRecoveryCode`, none for a code that is not valid.
unfoldable pub normalize_recovery_code : Platform → List ℕ → Option (List ℕ)
normalize_recovery_code p value =
    let clean = p.lower_bytes (drop_dashes (p.trim_bytes value)) in
    if not (length clean == recovery_code_random_bytes * 2)
    then none
    else if all is_hex clean
    then some clean
    else none

-- `formatRecoveryCode`, of a value of 20 bytes.
unfoldable pub format_recovery_code : List ℕ → List ℕ
format_recovery_code value =
    take 5 value
    ++ (b'-' ∷ take 5 (drop 5 value))
    ++ (b'-' ∷ take 5 (drop 10 value))
    ++ (b'-' ∷ take 5 (drop 15 value))
