-- ===== src/Versions/Decimal.antt =====
-- internal/adguardcompat/compatibility.go: `decimalLess` is the order of the numbers.
use atlas_dns.Base.{
  ℕ, suc, ◌+◌, ◌-◌, ◌*◌, ◌≤◌, ◌<◌, String, ◌≡◌, refl, sym, ap, ◌∙◌, subst, ◌↔◌, ◌⊎◌, inl, inr, Bool,
  true, false, List, [], ◌∷◌, arith, ltb, ◌==◌, if◌then◌else◌, Bool-cases, length, All,
}
use Prim.Native.Nat.{compare as compare_ℕ, Ordering}
use Prim.Native.Char.{code}
use Prim.Native.String.compare
use Prim.Native.String
use atlas_dns.Base.Order.{less, is_lt, codes}
use atlas_dns.Versions.Model.{decimal_less}

abbrev IsDigit : ℕ → Type 0
IsDigit c = (b'0' ≤ c) × (c ≤ b'9')

-- The number that the digits write, after the digits of `acc`.
abbrev pub value_from : ℕ → List ℕ → ℕ
value_from acc [] = acc
value_from acc (c ∷ cs) = value_from (acc * 10 + (c - b'0')) cs

-- The order of texts.
abbrev lex : List ℕ → List ℕ → Bool
lex [] [] = false
lex [] (d ∷ ds) = true
lex (c ∷ cs) [] = false
lex (c ∷ cs) (d ∷ ds) = if ltb c d then true else if ltb d c then false else lex cs ds

then_lex :
    (c d : ℕ) (p : Ordering) (b : Bool)
    → is_lt p ≡ b
    → is_lt (String.then (compare_ℕ c d) p)
      ≡ (if ltb c d then true else if ltb d c then false else b)
then_lex c d p b h = ground arith

less-lex : (s t : String) → less s t ≡ lex (codes s) (codes t)
unfolding less
less-lex String.[] String.[] = refl
less-lex String.[] (String.◌∷◌ d t) = ap is_lt (compare.nil-cons d t)
less-lex (String.◌∷◌ c s) String.[] = ap is_lt (compare.cons-nil c s)
less-lex (String.◌∷◌ c s) (String.◌∷◌ d t) =
    ap is_lt (compare.cons-cons c d s t) ∙ then_lex (code c) (code d) _ _ (less-lex s t)

-- A number that is ahead stays ahead, with as many digits or more to follow.
ahead :
    (m n : ℕ) (cs ds : List ℕ)
    → m < n
    → length cs ≤ length ds
    → All IsDigit cs
    → All IsDigit ds
    → value_from m cs < value_from n ds
ahead m n [] [] lt le hs ks = lt
ahead m n [] (d ∷ ds) lt le hs (k, ks) =
    ahead m (n * 10 + (d - b'0')) [] ds (omega arith) (omega arith) hs ks
ahead m n (c ∷ cs) [] lt le hs ks = absurd (omega arith)
ahead m n (c ∷ cs) (d ∷ ds) lt le (h, hs) (k, ks) =
    ahead (m * 10 + (c - b'0')) (n * 10 + (d - b'0')) cs ds (omega arith) (omega arith) hs ks

-- Of numbers with as many digits, the order of the texts decides.
value_from-lex :
    (m : ℕ) (cs ds : List ℕ)
    → length cs ≡ length ds
    → All IsDigit cs
    → All IsDigit ds
    → (lex cs ds ≡ true → value_from m cs < value_from m ds)
      × (lex cs ds ≡ false → value_from m ds ≤ value_from m cs)
value_from-lex m [] [] e hs ks = (λ h. ground arith, λ h. omega arith)
value_from-lex m [] (d ∷ ds) e hs ks = absurd (omega arith)
value_from-lex m (c ∷ cs) [] e hs ks = absurd (omega arith)
value_from-lex m (c ∷ cs) (d ∷ ds) e (h, hs) (k, ks) =
    let m_c = m * 10 + (c - b'0') in
    let m_d = m * 10 + (d - b'0') in
    let (sooner, later) = value_from-lex m_c cs ds (omega arith) hs ks in
    elim (Bool-cases (ltb c d)) [
      | inl below ↦
          let first : c < d = ground arith in
          let less_now = ahead m_c m_d cs ds (omega arith) (omega arith) hs ks in
          (λ yes_less. less_now, λ not_less. absurd (ground arith))
      | inr not_below ↦ elim (Bool-cases (ltb d c)) [
        | inl above ↦
            let first : d < c = ground arith in
            let more_now = ahead m_d m_c ds cs (omega arith) (omega arith) ks hs in
            (λ yes_less. absurd (ground arith), λ not_less. omega (arith, more_now))
        | inr not_above ↦
            let same : m_c ≡ m_d = ground arith in
            (
              λ yes_less.
                  subst (λ x. value_from m_c cs < value_from x ds) same (sooner (ground arith)),
              λ not_less.
                  subst (λ x. value_from x ds ≤ value_from m_c cs) same (later (ground arith)),
            )
      ]
    ]

-- A number in decimal digits: at least one, and no 0 before others.
pub record IsDecimal (s : String) : Type 0 where
  pub digits : All IsDigit (codes s)
  pub first : ℕ
  pub others : List ℕ
  pub is_first : codes s ≡ first ∷ others
  pub canonical : (others ≡ []) ⊎ (b'1' ≤ first)

abbrev pub value : String → ℕ
value s = value_from 0 (codes s)

-- A number with more digits is greater.
longer :
    (s t : String)
    → IsDecimal s
    → IsDecimal t
    → length (codes s) < length (codes t)
    → value s < value t
longer s t a b shorter =
    let some_digit : length (codes s) ≡ suc (length a.others) = ap length a.is_first in
    let more_digits : length (codes t) ≡ suc (length b.others) = ap length b.is_first in
    let digits = subst (λ x. All IsDigit x) b.is_first b.digits in
    elim b.canonical [
      | inl single ↦ let no_more : length b.others ≡ 0 = ap length single in absurd (omega arith)
      | inr leading ↦
          subst (λ x. value s < value_from 0 x) (sym b.is_first)
            (ahead 0 (0 * 10 + (b.first - b'0')) (codes s) b.others (omega arith) (omega arith)
              a.digits digits.1)
    ]

-- `decimalLess` is the order of the numbers that two decimal texts write, however long they are.
pub decimal_less_lem :
    (s t : String) → IsDecimal s → IsDecimal t → (decimal_less s t ≡ true) ↔ (value s < value t)
unfolding decimal_less
decimal_less_lem s t a b = elim (Bool-cases (length (codes s) == length (codes t))) [
  | inl same ↦
      let (smaller, greater) =
        value_from-lex 0 (codes s) (codes t) (ground arith) a.digits b.digits in
      let order = less-lex s t in
      elim (Bool-cases (less s t)) [
        | inl before ↦ let below = smaller (sym order ∙ before) in (λ h. below, λ h. ground arith)
        | inr after ↦
            let above = greater (sym order ∙ after) in
            (λ h. absurd (ground arith), λ h. absurd (omega (arith, h, above)))
      ]
  | inr other ↦ elim (Bool-cases (ltb (length (codes s)) (length (codes t)))) [
    | inl shorter ↦ let below = longer s t a b (ground arith) in (λ h. below, λ h. ground arith)
    | inr not_shorter ↦
        let above = longer t s b a (ground arith) in
        (λ h. absurd (ground arith), λ h. absurd (omega (arith, h, above)))
  ]
]
