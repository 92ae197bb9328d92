-- ===== src/Auth/Toy.antt =====
-- A service with one user, whose hashes are readable.
use atlas_dns.Base.{
  ℕ, zero, suc, ◌<◌, String, ◌≡◌, refl, ap, ◌∙◌, true, none, some, List, [], ◌∷◌, ◌++◌, str_eq,
  ◌==◌, if◌then◌else◌, length, All,
}
use Prim.Native.String
use Prim.Native.String.{◌∷◌ as cons}
use atlas_dns.Base.Act.{ok, err}
use atlas_dns.Base.Order.{codes}
use Prim.Native.Char.{code}
use atlas_dns.Base.Code.{char_t, char_f}
use atlas_dns.Domain.{other_error, EncryptedPayload}
use atlas_dns.Auth.Model.{User, UserMfa, MfaChallenge, administrator, Session}
use atlas_dns.Auth.Platform.{Platform}
use atlas_dns.Auth.Password.{hash_of}
use atlas_dns.Auth.Calls.{Answers, Config, World, new_world}
use atlas_dns.Auth.RecoveryCodes.{PlainLaws}
use atlas_dns.Auth.Hashed.{HashLaws, HasNo}

-- A number is so many letters and an end.
abbrev pub write : ℕ → String → String
write zero s = cons char_f s
write (suc n) s = cons char_t (write n s)

abbrev pub toy_encode : List ℕ → String
toy_encode [] = ""
toy_encode (x ∷ xs) = write x (toy_encode xs)

abbrev pub bump : List ℕ → List ℕ
bump [] = []
bump (x ∷ xs) = suc x ∷ xs

abbrev pub read_back : String → List ℕ
read_back String.[] = []
read_back (String.◌∷◌ c s) =
    let rest = read_back s in if code c == b'f' then 0 ∷ rest else bump rest

abbrev pub fill : ℕ → ℕ → List ℕ
fill zero x = []
fill (suc n) x = x ∷ fill n x

length-fill : (n x : ℕ) → length (fill n x) ≡ n
length-fill zero x = refl
length-fill (suc n) x = ap suc (length-fill n x)

read_back-write : (x : ℕ) (s : String) → read_back (write x s) ≡ x ∷ read_back s
read_back-write zero s = refl
read_back-write (suc n) s = ap bump (read_back-write n s)

read_back-encode : (xs : List ℕ) → read_back (toy_encode xs) ≡ xs
read_back-encode [] = refl
read_back-encode (x ∷ xs) =
    read_back-write x (toy_encode xs) ∙ ap (λ r. x ∷ r) (read_back-encode xs)

write-HasNo : (x : ℕ) (s : String) → HasNo b'$' s → HasNo b'$' (write x s)
write-HasNo zero s h = (refl, h)
write-HasNo (suc n) s h = (refl, write-HasNo n s h)

encode-HasNo : (xs : List ℕ) → HasNo b'$' (toy_encode xs)
encode-HasNo [] = tt
encode-HasNo (x ∷ xs) = write-HasNo x (toy_encode xs) (encode-HasNo xs)

-- The only password that matches is `good password`, and the only code is 1, 2, 3.
abbrev pub toy : Platform
toy = record {
  trim = λ s. s;
  lower = λ s. s;
  trim_bytes = λ s. s;
  lower_bytes = λ s. s;
  parse_address = λ s. some s;
  rune_count = λ s. String.len s;
  bytes = codes;
  of_bytes = toy_encode;
  url_text = toy_encode;
  encode = toy_encode;
  decode = λ s. some (read_back s);
  data_url = λ xs. xs;
  hmac = λ key xs. key ++ xs;
  sha256 = λ xs. xs;
  id_key = λ s salt i m l n. fill n (if str_eq s "good password" then 1 else 0);
  scan = λ s. some (65536, 3, 2);
  validate_totp = λ typed secret now. ok (length typed == 3);
  open_payload = λ scope payload. ok payload.ciphertext;
  valid_id = λ s. true;
}

pub plain_laws : PlainLaws toy
plain_laws = record { trim-plain = λ cs h. refl; lower-digits = λ cs h. refl }

pub hash_laws : HashLaws toy
hash_laws = record {
  decode-encode = λ xs. ap some (read_back-encode xs);
  encode-HasNo = encode-HasNo;
  scan-numbers = refl;
  length-id_key = λ s salt i m l n. length-fill n _;
}

abbrev pub salt : List ℕ
salt = fill 16 0

abbrev pub ann : User
ann = record {
  id = "u1";
  email = "ann@example.org";
  display_name = "Ann";
  password_hash = hash_of toy "good password" salt;
  role = administrator;
  enabled = true;
  created_at = 0;
  updated_at = 0;
  last_login_at = none;
  mfa_enabled = true;
}

abbrev pub payload : EncryptedPayload
payload = record { ciphertext = 7 ∷ []; nonce = []; key_version = 1; algorithm = "" }

abbrev pub factor : UserMfa
factor = record {
  user_id = "u1";
  secret = payload;
  enrollment_started = 0;
  enrollment_expires = 0;
  enabled_at = some 0;
  recovery_remaining = 10;
}

abbrev pub challenge : MfaChallenge
challenge = record {
  id = "c1";
  user_id = "u1";
  token_hash = [];
  created_at = 0;
  expires_at = 9;
  consumed_at = none;
  failed_attempts = 0;
  ip_metadata = "";
  user_agent = "";
}

abbrev pub session : Session
session = record {
  id = "s1";
  user_id = "u1";
  token_hash = [];
  csrf_hash = [];
  created_at = 0;
  expires_at = 0;
  last_seen_at = 0;
  revoked_at = none;
  ip_metadata = "";
  user_agent = "";
}

abbrev pub toy_answers : Answers
toy_answers = record {
  now = λ h. 0;
  id = λ h. ok "id";
  random = λ n h. ok (fill n 5);
  has_users = λ h. ok true;
  by_email = λ email h. ok ann;
  by_id = λ id h. ok ann;
  session = λ hash h. ok (session, ann);
  enabled = λ h. ok true;
  mfa = λ id h. ok factor;
  challenge = λ hash h. ok (challenge, ann, factor);
  key = λ h. err (other_error "no key");
  encrypted = λ h. ok payload;
  reset = λ h. ok (ann, 1);
  done = λ h. ok tt;
}

abbrev pub config : Config
config = record {
  secret = 1 ∷ [];
  dummy_hash = hash_of toy "other" salt;
  session_duration = 100;
  has_mfa = true;
  has_cipher = true;
}

abbrev pub start : World
start = new_world

pub fill-All : (n x : ℕ) → x < 256 → All (λ y. y < 256) (fill n x)
fill-All zero x h = tt
fill-All (suc n) x h = (h, fill-All n x h)
