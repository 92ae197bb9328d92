-- ===== src/Configuration/Validate/Legacy.antt =====
-- internal/configuration/model.go: records of the first schema are not deployed.
use atlas_dns.Base.{
  ℕ, String, ◌≡◌, refl, sym, ap, ◌∙◌, inl, inr, Bool, true, false, ◌||◌, List, [], ◌∷◌, ◌++◌, arith,
  str_eq, ◌==◌, if◌then◌else◌, Bool-cases, str_eq_self, any,
}
use atlas_dns.Base.Sort.{insert_by, sort_by}
use atlas_dns.Configuration.Model.{DesiredDocument, Unsupported}
use atlas_dns.Configuration.Clean.{Texts}
use atlas_dns.Configuration.Canonical.{
  is_legacy_converted, legacy_schema_version, legacy_migration_section, current_schema_version,
  legacy_note, converted_areas, area_less, canonicalise, canonicalise_desired,
  convert_legacy_desired,
}
use atlas_dns.Configuration.Validate.Checks.{Network}
use atlas_dns.Configuration.Validate.Required.{validate_desired}
use atlas_dns.Configuration.Validate.Deployable.{validate_desired-IsDeployable}

module _ {A : Type 0} (p : A → Bool) where
  any-insert_by :
      (before : A → A → Bool) (x : A) (ys : List A)
      → any p (insert_by before x ys) ≡ (p x || any p ys)
  unfolding insert_by
  any-insert_by before x [] = refl
  any-insert_by before x (y ∷ ys) = ground (arith, any-insert_by before x ys)

  any-sort_by : (before : A → A → Bool) (xs : List A) → any p (sort_by before xs) ≡ any p xs
  unfolding sort_by
  any-sort_by before [] = refl
  any-sort_by before (x ∷ xs) =
      any-insert_by before x (sort_by before xs) ∙ ap (λ b. p x || b) (any-sort_by before xs)

  any_last : (xs : List A) (y : A) → p y ≡ true → any p (xs ++ y ∷ []) ≡ true
  any_last [] y h = ground arith
  any_last (x ∷ xs) y h = ground (arith, any_last xs y h)

legacy_section : str_eq legacy_migration_section legacy_migration_section ≡ true
legacy_section = str_eq_self legacy_migration_section

is_legacy_converted-sort_by :
    (areas : List Unsupported)
    → is_legacy_converted (sort_by area_less areas) ≡ is_legacy_converted areas
unfolding is_legacy_converted
is_legacy_converted-sort_by areas =
    any-sort_by (λ (v : Unsupported). str_eq v.section legacy_migration_section) area_less areas

legacy_noted :
    (areas : List Unsupported)
    → is_legacy_converted (converted_areas legacy_schema_version areas) ≡ true
unfolding converted_areas is_legacy_converted
legacy_noted areas = elim (Bool-cases (is_legacy_converted areas)) [
  | inl known ↦ rw known known
  | inr new ↦ rw new (
      any_last (λ (v : Unsupported). str_eq v.section legacy_migration_section) areas legacy_note
        refl)
]

legacy_kept :
    (version : ℕ) (areas : List Unsupported)
    → is_legacy_converted areas ≡ true
    → is_legacy_converted (converted_areas version areas) ≡ true
unfolding converted_areas
legacy_kept version areas known = ground arith

module _ (t : Texts) where
  converted_legacy :
      (d : DesiredDocument) → is_legacy_converted (convert_legacy_desired t d).unsupported ≡ true
  unfolding convert_legacy_desired canonicalise_desired canonicalise
  converted_legacy d =
      is_legacy_converted-sort_by (converted_areas legacy_schema_version d.unsupported)
      ∙ legacy_noted d.unsupported

  canonical_legacy :
      (d : DesiredDocument)
      → is_legacy_converted d.unsupported ≡ true
      → is_legacy_converted (canonicalise_desired t d).unsupported ≡ true
  unfolding canonicalise_desired canonicalise
  canonical_legacy d known =
      let version = if d.schema_version == 0 then current_schema_version else d.schema_version in
      is_legacy_converted-sort_by (converted_areas version d.unsupported)
      ∙ legacy_kept version d.unsupported known

  -- A desired document that is converted from the first schema does not pass the validation, for
  -- whatever nodes: `ValidateDesired` finds an issue in it.
  pub convert_legacy_desired_refused :
      (net : Network) (d : DesiredDocument) (ids : List String)
      → ¬ (validate_desired net t (convert_legacy_desired t d) ids ≡ [])
  convert_legacy_desired_refused net d ids e =
      let deployable = validate_desired-IsDeployable net t (convert_legacy_desired t d) ids e in
      let noted = canonical_legacy (convert_legacy_desired t d) (converted_legacy d) in
      let clash : true ≡ false = sym noted ∙ deployable.no_legacy in ground arith
