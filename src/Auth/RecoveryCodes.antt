-- ===== src/Auth/RecoveryCodes.antt =====
-- internal/auth/mfa.go: a recovery code is read as it was written.
use atlas_dns.Base.{
  ℕ, ◌*◌, ◌/◌, ◌%◌, ◌≤◌, ◌<◌, ◌≡◌, refl, sym, ap, ◌∙◌, subst, ◌⊎◌, inl, inr, true, some, List, [],
  ◌∷◌, ◌++◌, append-nil, append_assoc, arith, ltb, Bool-cases, length, take, drop, all, All,
}
use atlas_dns.Base.Slices.{
  take-drop, take_all, drop-drop, length-drop_add, take-All, drop-All, append-All,
}
use atlas_dns.Auth.Platform.{Platform}
use atlas_dns.Auth.Recovery.{
  hex_digit, hex_encode, is_hex, drop_dashes, normalize_recovery_code, format_recovery_code,
  recovery_code_random_bytes,
}

-- A digit that a recovery code has.
abbrev pub IsDigit : ℕ → Type 0
IsDigit c = ((b'0' ≤ c) × (c ≤ b'9')) ⊎ ((b'a' ≤ c) × (c ≤ b'f'))

abbrev pub IsPlain : ℕ → Type 0
IsPlain c = IsDigit c ⊎ (c ≡ b'-')

-- `strings.TrimSpace` keeps a text with no white space, and `strings.ToLower` one with no capital.
pub record PlainLaws (p : Platform) : Type 0 where
  pub trim-plain : (cs : List ℕ) → All IsPlain cs → p.trim_bytes cs ≡ cs
  pub lower-digits : (cs : List ℕ) → All IsDigit cs → p.lower_bytes cs ≡ cs

hex_digit-IsDigit : (n : ℕ) → n < 16 → IsDigit (hex_digit n)
hex_digit-IsDigit n h = elim (Bool-cases (ltb n 10)) [
  | inl small ↦ inl (ground arith)
  | inr large ↦ inr (ground arith)
]

hex_encode-IsDigit : (raw : List ℕ) → All (λ x. x < 256) raw → All IsDigit (hex_encode raw)
hex_encode-IsDigit [] h = tt
hex_encode-IsDigit (x ∷ xs) h = (
  hex_digit-IsDigit (x / 16) (omega arith),
  (hex_digit-IsDigit (x % 16) (omega arith), hex_encode-IsDigit xs h.1),
)

is_hex-IsDigit : (c : ℕ) → IsDigit c → is_hex c ≡ true
is_hex-IsDigit c (inl h) = ground arith
is_hex-IsDigit c (inr h) = ground arith

all-is_hex : (cs : List ℕ) → All IsDigit cs → all is_hex cs ≡ true
all-is_hex [] h = refl
all-is_hex (c ∷ cs) h = ground (arith, is_hex-IsDigit c h.0, all-is_hex cs h.1)

-- A digit is not a dash.
drop_dashes-digit : (c : ℕ) (cs : List ℕ) → IsDigit c → drop_dashes (c ∷ cs) ≡ c ∷ drop_dashes cs
drop_dashes-digit c cs (inl h) = ground arith
drop_dashes-digit c cs (inr h) = ground arith

drop_dashes-digits :
    (cs ds : List ℕ) → All IsDigit cs → drop_dashes (cs ++ ds) ≡ cs ++ drop_dashes ds
drop_dashes-digits [] ds h = refl
drop_dashes-digits (c ∷ cs) ds h =
    drop_dashes-digit c (cs ++ ds) h.0 ∙ ap (λ r. c ∷ r) (drop_dashes-digits cs ds h.1)

drop_dashes-append : (cs ds : List ℕ) → drop_dashes (cs ++ ds) ≡ drop_dashes cs ++ drop_dashes ds
drop_dashes-append [] ds = refl
drop_dashes-append (c ∷ cs) ds = ground (arith, drop_dashes-append cs ds)

hex_encode-length : (raw : List ℕ) → length (hex_encode raw) ≡ length raw * 2
hex_encode-length [] = refl
hex_encode-length (x ∷ xs) = ground (arith, hex_encode-length xs)

All-IsPlain : (cs : List ℕ) → All IsDigit cs → All IsPlain cs
All-IsPlain [] h = tt
All-IsPlain (c ∷ cs) h = (inl h.0, All-IsPlain cs h.1)

module _ (v : List ℕ) (digits : All IsDigit v) (twenty : length v ≡ 20) where
  group-IsDigit : (n : ℕ) → All IsDigit (take 5 (drop n v))
  group-IsDigit n = take-All IsDigit 5 (drop n v) (drop-All IsDigit n v digits)

  format-IsPlain : All IsPlain (format_recovery_code v)
  unfolding format_recovery_code
  format-IsPlain =
      let group = λ (n : ℕ). All-IsPlain (take 5 (drop n v)) (group-IsDigit n) in
      append-All IsPlain _ _
        (append-All IsPlain _ _ (append-All IsPlain _ _ (group 0) (inr refl, group 5))
          (inr refl, group 10))
        (inr refl, group 15)

  drop_dashes-group : (n : ℕ) → drop_dashes (take 5 (drop n v)) ≡ take 5 (drop n v)
  drop_dashes-group n =
      let group = take 5 (drop n v) in
      let whole : drop_dashes (group ++ []) ≡ group ++ [] =
        drop_dashes-digits group [] (group-IsDigit n) in
      subst (λ xs. drop_dashes xs ≡ xs) (append-nil group) whole

  -- The groups without their dashes are the value.
  drop_dashes-format : drop_dashes (format_recovery_code v) ≡ v
  unfolding format_recovery_code
  drop_dashes-format =
      let a = take 5 v in
      let b = take 5 (drop 5 v) in
      let c = take 5 (drop 10 v) in
      let d = take 5 (drop 15 v) in
      let apart : drop_dashes (a ++ (b'-' ∷ b) ++ (b'-' ∷ c) ++ (b'-' ∷ d)) ≡ a ++ b ++ c ++ d =
        drop_dashes-append (a ++ (b'-' ∷ b) ++ (b'-' ∷ c)) (b'-' ∷ d)
        ∙ ap (λ r. r ++ drop_dashes d)
            (drop_dashes-append (a ++ (b'-' ∷ b)) (b'-' ∷ c)
              ∙ ap (λ r. r ++ drop_dashes c) (drop_dashes-append a (b'-' ∷ b)))
        ∙ (λ i.
            drop_dashes-group 0 i
            ++ drop_dashes-group 5 i
            ++ drop_dashes-group 10 i
            ++ drop_dashes-group 15 i) in
      let last : d ≡ drop 15 v =
        take_all 5 (drop 15 v) (let five = length-drop_add 15 5 v twenty in omega arith) in
      let third : c ++ drop 15 v ≡ drop 10 v =
        ap (λ r. c ++ r) (sym (drop-drop 5 10 v)) ∙ take-drop 5 (drop 10 v) in
      let second : b ++ drop 10 v ≡ drop 5 v =
        ap (λ r. b ++ r) (sym (drop-drop 5 5 v)) ∙ take-drop 5 (drop 5 v) in
      apart
      ∙ ap (λ r. a ++ b ++ c ++ r) last
      ∙ append_assoc (a ++ b) c (drop 15 v)
      ∙ ap (λ r. a ++ b ++ r) third
      ∙ append_assoc a b (drop 10 v)
      ∙ ap (λ r. a ++ r) second
      ∙ take-drop 5 v

-- A recovery code is accepted as it was given out: of ten random bytes, formatted in groups, it
-- is normalised to the digits whose hash was stored.
pub normalize-format :
    (p : Platform)
    → PlainLaws p
    → (raw : List ℕ) → All (λ x. x < 256) raw
    → length raw ≡ recovery_code_random_bytes
    → normalize_recovery_code p (format_recovery_code (hex_encode raw)) ≡ some (hex_encode raw)
unfolding normalize_recovery_code
normalize-format p laws raw bytes ten =
    let v = hex_encode raw in
    let digits = hex_encode-IsDigit raw bytes in
    let twenty : length v ≡ 20 = hex_encode-length raw ∙ ap (λ n. n * 2) ten in
    let trimmed = laws.trim-plain (format_recovery_code v) (format-IsPlain v digits twenty) in
    let bare = drop_dashes-format v digits twenty in
    let clean : p.lower_bytes (drop_dashes (p.trim_bytes (format_recovery_code v))) ≡ v =
      ap (λ s. p.lower_bytes (drop_dashes s)) trimmed
      ∙ ap p.lower_bytes bare
      ∙ laws.lower-digits v digits in
    let hexed = all-is_hex v digits in ground arith
