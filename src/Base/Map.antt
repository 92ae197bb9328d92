-- ===== src/Base/Map.antt =====
-- A Go `map[string]V` as an association list: a read, a write and a `delete`.
use Prim.Native.String.{String}
use mathlib.Core.Path.{◌≡◌, refl, subst}
use mathlib.Core.Logic.{inl, inr}
use mathlib.Core.Option.{Option, none, some}
use mathlib.Core.List.{List, [], ◌∷◌}
use native.Mathlib.Omega.{arith}
use text.Mathlib.Text.{◌==◌ as str_eq}
use text.Mathlib.TextEquality.{eq_iff}
use atlas_dns.Base.Tests.{if◌then◌else◌, Bool-cases}

module _ {ℓ} {V : Type ℓ} where
  -- Every entry of the name goes, so no hypothesis of distinct names is needed.
  unfoldable pub delete : String → List (String × V) → List (String × V)
  delete name [] = []
  delete name (entry ∷ entries) =
      let kept = delete name entries in if str_eq entry.0 name then kept else entry ∷ kept

  unfoldable pub lookup : String → List (String × V) → Option V
  lookup name [] = none
  lookup name (entry ∷ entries) =
      let later = lookup name entries in if str_eq entry.0 name then some entry.1 else later

  unfoldable pub insert : String → V → List (String × V) → List (String × V)
  insert name value [] = (name, value) ∷ []
  insert name value (entry ∷ entries) =
      let later = insert name value entries in
      if str_eq entry.0 name then (name, value) ∷ entries else entry ∷ later

  pub lookup-delete :
      (name other : String) (entries : List (String × V))
      → lookup other (delete name entries)
        ≡ (if str_eq name other then none else lookup other entries)
  unfolding lookup delete
  lookup-delete name other [] = ground arith
  lookup-delete name other (entry ∷ entries) = ground (
    arith,
    lookup-delete name other entries,
    eq_iff entry.0 other,
    eq_iff name other,
    eq_iff entry.0 name,
  )

  pub lookup-insert :
      (name other : String) (value : V) (entries : List (String × V))
      → lookup other (insert name value entries)
        ≡ (if str_eq name other then some value else lookup other entries)
  unfolding lookup insert
  lookup-insert name other value [] = refl
  lookup-insert name other value (entry ∷ entries) = ground (
    arith,
    lookup-insert name other value entries,
    eq_iff entry.0 name,
    eq_iff entry.0 other,
    eq_iff name other,
  )

module _ {ℓ κ} {V : Type ℓ} (P : String → V → Type κ) where
  -- Every entry of the map satisfies `P`.
  abbrev pub Entries : List (String × V) → Type κ
  Entries [] = Unit
  Entries ((k, v) ∷ m) = P k v × Entries m

  pub Entries-insert :
      (k : String) (v : V) (m : List (String × V)) → Entries m → P k v → Entries (insert k v m)
  unfolding insert
  Entries-insert k v [] h p = (p, tt)
  Entries-insert k v ((j, w) ∷ m) (q, h) p = elim (Bool-cases (str_eq j k)) [
    | inl same ↦ rw same (p, h)
    | inr other ↦ rw other (q, Entries-insert k v m h p)
  ]

  pub Entries-lookup :
      (k : String) (m : List (String × V)) {v : V} → Entries m → lookup k m ≡ some v → P k v
  unfolding lookup
  Entries-lookup k [] h e = cc
  Entries-lookup k ((j, w) ∷ m) {v} (q, h) e = elim (Bool-cases (str_eq j k)) [
    | inl same ↦
        let here : w ≡ v = ground arith in
        subst (λ i. P i v) ((eq_iff j k).0 same) (subst (λ u. P j u) here q)
    | inr other ↦ Entries-lookup k m h (ground arith)
  ]
