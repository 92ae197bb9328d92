-- ===== src/Base/Sort.antt =====
-- `sort.Slice` and `sort.SliceStable` by a strict order: elements that the order does not tell
-- apart keep their places.
use mathlib.Core.Path.{◌≡◌, refl, ap, ◌∙◌}
use mathlib.Core.Logic.{inl, inr}
use mathlib.Core.Bool.{Bool, true, false}
use mathlib.Core.List.{List, [], ◌∷◌, map}
use native.Mathlib.Omega.{arith}
use atlas_dns.Base.Tests.{if◌then◌else◌, Bool-cases}
use atlas_dns.Base.Lists.{All}

module _ {A : Type 0} (before : A → A → Bool) where
  unfoldable pub insert_by : A → List A → List A
  insert_by x [] = x ∷ []
  insert_by x (y ∷ ys) = let rest = insert_by x ys in if before y x then y ∷ rest else x ∷ y ∷ ys

  unfoldable pub sort_by : List A → List A
  unfolding insert_by
  sort_by [] = []
  sort_by (x ∷ xs) = insert_by x (sort_by xs)

  -- No element comes before its predecessor.
  abbrev pub Follows : A → List A → Type 0
  Follows x [] = Unit
  Follows x (y ∷ ys) = before y x ≡ false

  abbrev pub IsSortedBy : List A → Type 0
  IsSortedBy [] = Unit
  IsSortedBy (x ∷ xs) = Follows x xs × IsSortedBy xs

  insert_by-Follows :
      (z x : A) (ys : List A) → before x z ≡ false → Follows z ys → Follows z (insert_by x ys)
  unfolding insert_by
  insert_by-Follows z x [] h f = h
  insert_by-Follows z x (y ∷ ys) h f = elim (Bool-cases (before y x)) [
    | inl b ↦ ground arith
    | inr b ↦ ground arith
  ]

  insert_by_first : (x : A) (xs : List A) → Follows x xs → insert_by x xs ≡ x ∷ xs
  unfolding insert_by
  insert_by_first x [] f = refl
  insert_by_first x (y ∷ ys) f = ground arith

  pub sort_by_fixed : (xs : List A) → IsSortedBy xs → sort_by xs ≡ xs
  unfolding sort_by
  sort_by_fixed [] s = refl
  sort_by_fixed (x ∷ xs) (f, s) = ap (insert_by x) (sort_by_fixed xs s) ∙ insert_by_first x xs f

  module _ (asym : (x y : A) → before x y ≡ true → before y x ≡ false) where
    insert_by-IsSortedBy : (x : A) (xs : List A) → IsSortedBy xs → IsSortedBy (insert_by x xs)
    unfolding insert_by
    insert_by-IsSortedBy x [] s = (tt, tt)
    insert_by-IsSortedBy x (y ∷ ys) (f, s) = elim (Bool-cases (before y x)) [
      | inl b ↦
          let after = insert_by-Follows y x ys (asym y x b) f in
          let rest = insert_by-IsSortedBy x ys s in ground arith
      | inr b ↦ ground arith
    ]

    pub sort_by-IsSortedBy : (xs : List A) → IsSortedBy (sort_by xs)
    unfolding sort_by
    sort_by-IsSortedBy [] = tt
    sort_by-IsSortedBy (x ∷ xs) = insert_by-IsSortedBy x (sort_by xs) (sort_by-IsSortedBy xs)

    pub sort_by-sort_by : (xs : List A) → sort_by (sort_by xs) ≡ sort_by xs
    sort_by-sort_by xs = sort_by_fixed (sort_by xs) (sort_by-IsSortedBy xs)

  module _ (P : A → Type 0) where
    pub insert_by-All : (x : A) (xs : List A) → P x → All P xs → All P (insert_by x xs)
    unfolding insert_by
    insert_by-All x [] p ps = (p, tt)
    insert_by-All x (y ∷ ys) p (q, qs) = elim (Bool-cases (before y x)) [
      | inl b ↦ let rest = insert_by-All x ys p qs in ground arith
      | inr b ↦ ground arith
    ]

    pub sort_by-All : (xs : List A) → All P xs → All P (sort_by xs)
    unfolding sort_by
    sort_by-All [] ps = tt
    sort_by-All (x ∷ xs) (p, ps) = insert_by-All x (sort_by xs) p (sort_by-All xs ps)

-- A map that leaves each element as it is.
pub map_fixed : {A : Type 0} (f : A → A) (xs : List A) → All (λ x. f x ≡ x) xs → map f xs ≡ xs
map_fixed f [] h = refl
map_fixed f (x ∷ xs) (h, hs) = λ i. h i ∷ map_fixed f xs hs i

pub All-map :
    {A B : Type 0} (P : B → Type 0) (f : A → B) (xs : List A)
    → ((x : A) → P (f x))
    → All P (map f xs)
All-map P f [] h = tt
All-map P f (x ∷ xs) h = (h x, All-map P f xs h)
