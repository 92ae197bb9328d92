-- ===== src/Base/Unique.antt =====
-- Keys that a loop checks against the keys that it has seen.
use Prim.Native.String.{String}
use mathlib.Core.Path.{◌≡◌}
use mathlib.Core.Logic.{◌≢◌}
use mathlib.Core.Bool.{Bool, false}
use mathlib.Core.List.{List, [], ◌∷◌}
use text.Mathlib.Text.{◌==◌ as str_eq}
use atlas_dns.Base.Lists.{any, All}
use atlas_dns.Base.Tests.{str_eq_self}
use mathlib.Core.Bool.{true, ◌||◌}
use mathlib.Core.Path.{refl, sym, ap, ◌∙◌}

abbrev pub AreNew : List String → List String → Type 0
AreNew seen [] = Unit
AreNew seen (k ∷ ks) = (any (λ s. str_eq s k) seen ≡ false) × AreNew (k ∷ seen) ks

-- No two of the keys are the same.
abbrev pub IsUnique : List String → Type 0
IsUnique [] = Unit
IsUnique (k ∷ ks) = All (λ j. k ≢ j) ks × IsUnique ks

or_true : (b : Bool) → (b || true) ≡ true
or_true true = refl
or_true false = refl

unlike_seen :
    (k : String) (seen ks : List String)
    → any (λ s. str_eq s k) seen ≡ true
    → AreNew seen ks
    → All (λ j. k ≢ j) ks
unlike_seen k seen [] known new = tt
unlike_seen k seen (j ∷ ks) known (fresh, new) = (
  λ same.
      let clash : true ≡ false = sym known ∙ ap (λ x. any (λ s. str_eq s x) seen) same ∙ fresh in
      cc clash,
  unlike_seen k (j ∷ seen) ks (rw known (or_true (str_eq j k))) new,
)

pub AreNew-IsUnique : (seen ks : List String) → AreNew seen ks → IsUnique ks
AreNew-IsUnique seen [] new = tt
AreNew-IsUnique seen (k ∷ ks) (fresh, new) =
    (unlike_seen k (k ∷ seen) ks (rw (str_eq_self k) refl) new, AreNew-IsUnique (k ∷ seen) ks new)
