-- ===== src/Configuration/Sets.antt =====
-- internal/configuration/model.go: what `cleanSet` and `cleanOrdered` make of a list.
use atlas_dns.Base.{
  ℕ, suc, if◌then◌else◌, String, ◌≡◌, refl, subst, ◌∙◌, inl, inr, Bool, true, not, ◌&&◌, ◌||◌, List,
  [], ◌∷◌, map, arith, str_eq, eq_iff, Bool-cases, str_eq_self, any, All,
}
use atlas_dns.Base.Order.{less_asym}
use atlas_dns.Base.Sort.{insert_by, sort_by, sort_by-All, IsSortedBy, sort_by-IsSortedBy}
use atlas_dns.Configuration.Clean.{
  Texts, TextLaws, member, clean_ordered, first_of_each, lower_less, clean_set,
}
use atlas_dns.Configuration.Cleaned.{
  IsClean, Distinct, first_of_each_lem, sort_by-Distinct, trim-IsClean,
}

module _ {A : Type 0} (before : A → A → Bool) (p : A → Bool) where
  any-insert_by : (x : A) (ys : List A) → any p (insert_by before x ys) ≡ p x || any p ys
  unfolding insert_by
  any-insert_by x [] = refl
  any-insert_by x (y ∷ ys) = grind (arith, any-insert_by x ys)

  any-sort_by : (xs : List A) → any p (sort_by before xs) ≡ any p xs
  unfolding sort_by
  any-sort_by [] = refl
  any-sort_by (x ∷ xs) = grind (arith, any-insert_by x (sort_by before xs), any-sort_by xs)

-- How many elements pass a test.
unfoldable pub count : {A : Type 0} → (A → Bool) → List A → ℕ
count p [] = 0
count p (x ∷ xs) = let rest = count p xs in if p x then suc rest else rest

module _ {A : Type 0} (before : A → A → Bool) (p : A → Bool) where
  count-insert_by : (x : A) (ys : List A) → count p (insert_by before x ys) ≡ count p (x ∷ ys)
  unfolding insert_by count
  count-insert_by x [] = refl
  count-insert_by x (y ∷ ys) = grind (arith, count-insert_by x ys)

  pub count-sort_by : (xs : List A) → count p (sort_by before xs) ≡ count p xs
  unfolding sort_by count
  count-sort_by [] = refl
  count-sort_by (x ∷ xs) = grind (arith, count-insert_by x (sort_by before xs), count-sort_by xs)

module _ (t : Texts) where
  -- Whether a value that is not blank has the key, in any case of its letters.
  abbrev pub holds : String → String → Bool
  holds key v = not (str_eq (t.trim v) "") && str_eq (t.lower (t.trim v)) key

  abbrev pub keyed : String → String → Bool
  keyed key v = str_eq (t.lower v) key

  -- Cleaned values, no two of one key, in the order of the keys.
  abbrev pub IsTidySet : List String → Type 0
  IsTidySet ys = All (IsClean t) ys × Distinct t ys × IsSortedBy (lower_less t) ys

  -- The set of the values of a list: it has the keys of those that are not blank and no others,
  -- and each of its values is a value of the list, trimmed.
  abbrev pub IsSetOf : List String → List String → Type 0
  IsSetOf xs ys =
      IsTidySet ys
      × ((key : String) → any (keyed key) ys ≡ any (holds key) xs)
      × All (λ y. member y (map t.trim xs) ≡ true) ys

  first_of_each_keys :
      (key : String) (seen vs : List String)
      → member key seen || any (keyed key) (first_of_each t seen vs)
        ≡ member key seen || any (holds key) vs
  unfolding first_of_each
  first_of_each_keys key seen [] = refl
  first_of_each_keys key seen (v ∷ vs) =
      let skipped = first_of_each_keys key seen vs in
      let w = t.trim v in
      let taken = first_of_each_keys key (t.lower w ∷ seen) vs in
      elim (Bool-cases (str_eq w "")) [
        | inl blank ↦ ground arith
        | inr full ↦ elim (Bool-cases (str_eq (t.lower w) key)) [
          | inr other ↦ ground arith
          | inl same ↦
              let met = (eq_iff (t.lower w) key).0 same in
              elim (Bool-cases (member (t.lower w) seen)) [
                | inl before ↦
                    let known = subst (λ k. member k seen ≡ true) met before in ground arith
                | inr new ↦ ground arith
              ]
        ]
      ]

  member_more :
      (x : String) (zs ys : List String)
      → All (λ y. member y zs ≡ true) ys
      → All (λ y. member y (x ∷ zs) ≡ true) ys
  member_more x zs [] h = tt
  member_more x zs (y ∷ ys) (h, hs) = (ground arith, member_more x zs ys hs)

  first_of_each_from :
      (seen vs : List String) → All (λ y. member y (map t.trim vs) ≡ true) (first_of_each t seen vs)
  unfolding first_of_each
  first_of_each_from seen [] = tt
  first_of_each_from seen (v ∷ vs) =
      let w = t.trim v in
      elim (Bool-cases (str_eq w "" || member (t.lower w) seen)) [
        | inl skip ↦
            rw skip
              (member_more w (map t.trim vs) (first_of_each t seen vs) (first_of_each_from seen vs))
        | inr take ↦
            let seen' = t.lower w ∷ seen in
            rw take (
              ground (arith, str_eq_self w),
              member_more w (map t.trim vs) (first_of_each t seen' vs)
                  (first_of_each_from seen' vs),
            )
      ]

  module _ (laws : TextLaws t) where
    pub clean_set-IsSetOf : (xs : List String) → IsSetOf xs (clean_set t xs)
    unfolding clean_set
    clean_set-IsSetOf xs =
        let kept = first_of_each t [] xs in
        let (clean, avoids, distinct) = first_of_each_lem t laws [] xs in
        (
          (
            sort_by-All (lower_less t) (IsClean t) kept clean,
            sort_by-Distinct t laws kept distinct,
            sort_by-IsSortedBy (lower_less t) (λ a b. less_asym (t.lower a) (t.lower b)) kept,
          ),
          λ key. any-sort_by (lower_less t) (keyed key) kept ∙ first_of_each_keys key [] xs,
          sort_by-All (lower_less t) (λ y. member y (map t.trim xs) ≡ true) kept
              (first_of_each_from [] xs),
        )

    pub clean_ordered-IsClean : (xs : List String) → All (IsClean t) (clean_ordered t xs)
    unfolding clean_ordered
    clean_ordered-IsClean [] = tt
    clean_ordered-IsClean (v ∷ vs) =
        let rest = clean_ordered-IsClean vs in
        elim (Bool-cases (str_eq (t.trim v) "")) [
          | inl blank ↦ rw blank rest
          | inr full ↦ rw full (trim-IsClean t laws v full, rest)
        ]
