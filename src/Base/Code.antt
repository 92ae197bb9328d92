-- ===== src/Base/Code.antt =====
-- A writer of values as texts that tells different values apart.
use Prim.Native.Nat.{ℕ, zero, suc}
use Prim.Native.Char.{Char, code}
use native.Mathlib.Omega.{arith}
use Prim.Native.String.{String, [], ◌∷◌}
use mathlib.Core.Path.{◌≡◌, refl, ap, sym}
use mathlib.Core.Bool.{Bool, true, false}
use mathlib.Core.Option.{Option, none, some}
use text.Mathlib.TextLemmas.{head-eq_of_cons-eq, tail-eq_of_cons-eq}

-- The text of a value, put before other text, can be read back.
pub record Code (A : Type 0) : Type 0 where
  pub put : A → String → String
  pub read : (a b : A) (r s : String) → put a r ≡ put b s → (a ≡ b) × (r ≡ s)

abbrev pub char_t : Char
char_t = "t"

abbrev pub char_f : Char
char_f = "f"

pub apart : {A : Type 0} (r s : String) → (char_t ∷ r) ≡ (char_f ∷ s) → A
apart r s e =
    let codes : code char_t ≡ code char_f = ap code (head-eq_of_cons-eq e) in absurd (omega arith)

abbrev pub put_flag : Bool → String → String
put_flag true r = char_t ∷ r
put_flag false r = char_f ∷ r

pub read_flag : (a b : Bool) (r s : String) → put_flag a r ≡ put_flag b s → (a ≡ b) × (r ≡ s)
read_flag true true r s e = (refl, tail-eq_of_cons-eq e)
read_flag true false r s e = apart r s e
read_flag false true r s e = apart s r (sym e)
read_flag false false r s e = (refl, tail-eq_of_cons-eq e)

abbrev pub flag_code : Code Bool
flag_code = record { put = put_flag; read = read_flag }

abbrev pub put_number : ℕ → String → String
put_number zero r = char_f ∷ r
put_number (suc n) r = char_t ∷ put_number n r

pub read_number : (a b : ℕ) (r s : String) → put_number a r ≡ put_number b s → (a ≡ b) × (r ≡ s)
read_number zero zero r s e = (refl, tail-eq_of_cons-eq e)
read_number zero (suc n) r s e = apart (put_number n s) r (sym e)
read_number (suc m) zero r s e = apart (put_number m r) s e
read_number (suc m) (suc n) r s e =
    let (same, rest) = read_number m n r s (tail-eq_of_cons-eq e) in (ap suc same, rest)

abbrev pub number_code : Code ℕ
number_code = record { put = put_number; read = read_number }

abbrev pub put_text : String → String → String
put_text [] r = char_f ∷ r
put_text (c ∷ t) r = char_t ∷ c ∷ put_text t r

pub read_text : (a b : String) (r s : String) → put_text a r ≡ put_text b s → (a ≡ b) × (r ≡ s)
read_text [] [] r s e = (refl, tail-eq_of_cons-eq e)
read_text [] (d ∷ u) r s e = apart (d ∷ put_text u s) r (sym e)
read_text (c ∷ t) [] r s e = apart (c ∷ put_text t r) s e
read_text (c ∷ t) (d ∷ u) r s e =
    let inner = tail-eq_of_cons-eq e in
    let (same, rest) = read_text t u r s (tail-eq_of_cons-eq inner) in
    ((λ i. head-eq_of_cons-eq inner i ∷ same i), rest)

abbrev pub text_code : Code String
text_code = record { put = put_text; read = read_text }

module _ {A B : Type 0} where
  abbrev pub pair_code : Code A → Code B → Code (A × B)
  pair_code a b = record {
    put = λ p r. a.put p.0 (b.put p.1 r);
    read = λ p q r s e.
        let (first, later) = a.read p.0 q.0 (b.put p.1 r) (b.put q.1 s) e in
        let (second, rest) = b.read p.1 q.1 r s later in ((λ i. (first i, second i)), rest);
  }

  -- Values that another code's values stand for.
  abbrev pub code_by : (f : A → B) → ((a b : A) → f a ≡ f b → a ≡ b) → Code B → Code A
  code_by f injective b = record {
    put = λ x r. b.put (f x) r;
    read = λ x y r s e. let (same, rest) = b.read (f x) (f y) r s e in (injective x y same, rest);
  }

module _ {A : Type 0} (a : Code A) where
  abbrev pub put_option : Option A → String → String
  put_option none r = char_f ∷ r
  put_option (some x) r = char_t ∷ a.put x r

  pub read_option :
      (x y : Option A) (r s : String) → put_option x r ≡ put_option y s → (x ≡ y) × (r ≡ s)
  read_option none none r s e = (refl, tail-eq_of_cons-eq e)
  read_option none (some y) r s e = apart (a.put y s) r (sym e)
  read_option (some x) none r s e = apart (a.put x r) s e
  read_option (some x) (some y) r s e =
      let (same, rest) = a.read x y r s (tail-eq_of_cons-eq e) in (ap some same, rest)

  abbrev pub option_code : Code (Option A)
  option_code = record { put = put_option; read = read_option }
