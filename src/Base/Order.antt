-- ===== src/Base/Order.antt =====
-- The order of Go strings, which is the order of the texts' characters.
use Prim.Native.Nat.{ℕ, Ordering, compare as compare_ℕ}
use Prim.Native.Char.{code}
use Prim.Native.String.compare
use Prim.Native.String.{String, [], ◌∷◌, compare, then}
use mathlib.Core.List.{List}
use mathlib.Core.Path.{◌≡◌, refl, sym, ap, ◌∙◌}
use mathlib.Core.Bool.{Bool, true, false}
use native.Mathlib.Omega.{arith}

abbrev pub is_lt : Ordering → Bool
is_lt Ordering.lt = true
is_lt _ = false

-- `s < t`
unfoldable pub less : String → String → Bool
less s t = is_lt (compare s t)

-- A first character that differs decides.
then_asym :
    (m n : ℕ) (p q : Ordering)
    → (is_lt p ≡ true → is_lt q ≡ false)
    → is_lt (then (compare_ℕ m n) p) ≡ true
    → is_lt (then (compare_ℕ n m) q) ≡ false
then_asym m n p q ih h = ground arith

pub less_asym : (s t : String) → less s t ≡ true → less t s ≡ false
unfolding less
less_asym [] [] h = refl
less_asym [] (d ∷ t) h = ap is_lt (compare.cons-nil d t)
less_asym (c ∷ s) [] h = cc (sym (ap is_lt (compare.cons-nil c s)) ∙ h)
less_asym (c ∷ s) (d ∷ t) h =
    let first = sym (ap is_lt (compare.cons-cons c d s t)) ∙ h in
    ap is_lt (compare.cons-cons d c t s)
    ∙ then_asym (code c) (code d) (compare s t) (compare t s) (less_asym s t) first

-- The code points of a text: its bytes, if it is ASCII.
abbrev pub codes : String → List ℕ
codes [] = List.[]
codes (c ∷ s) = List.◌∷◌ (code c) (codes s)
