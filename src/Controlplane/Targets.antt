-- ===== src/Controlplane/Targets.antt =====
-- internal/controlplane/service.go: the nodes that a deployment is for, in their order.
use atlas_dns.Base.{
  String, ◌≡◌, refl, ap, ◌∙◌, inl, inr, Bool, true, false, not, ◌&&◌, ◌||◌, Option, none, some,
  List, [], ◌∷◌, ◌++◌, arith, leb, if◌then◌else◌, Bool-cases, is_empty,
}
use atlas_dns.Base.Map.{lookup}
use atlas_dns.Base.Sort.{insert_by, sort_by}
use atlas_dns.Domain.{Node}
use atlas_dns.Configuration.Model.{DesiredDocument, NodeSpecific}
use atlas_dns.Configuration.Clean.{member}
use atlas_dns.Configuration.Canonical.{current_schema_version}
use atlas_dns.Configuration.Validate.Required.{enables_dhcp}

abbrev pub pick : {A : Type 0} → (A → Bool) → List A → List A
pick p [] = []
pick p (x ∷ xs) = let rest = pick p xs in if p x then x ∷ rest else rest

-- Whether the document wants the node to run DHCP.
abbrev pub override_enabled : Option NodeSpecific → Bool
override_enabled none = false
override_enabled (some override) = enables_dhcp override.dhcp

abbrev pub dhcp_enabled : DesiredDocument → Node → Bool
dhcp_enabled document node = override_enabled (lookup node.id document.node_overrides)

abbrev pub is_target : List String → Node → Bool
is_target selected node = not (
    not node.enabled
    || node.maintenance_mode
    || (not (is_empty selected) && not (member node.id selected)))

abbrev pub deploys_before : DesiredDocument → Node → Node → Bool
deploys_before document a b = not (dhcp_enabled document a) && dhcp_enabled document b

-- The targets of `previewDocument`; an empty selection is every node.
unfoldable pub ordered_targets : DesiredDocument → List Node → List String → List Node
ordered_targets document nodes selected =
    let targets = pick (is_target selected) nodes in
    if leb current_schema_version document.schema_version
    then sort_by (deploys_before document) targets
    else targets

module _ {A : Type 0} (on : A → Bool) where
  abbrev off_first : A → A → Bool
  off_first a b = not (on a) && on b

  insert_off : (x : A) (ys : List A) → on x ≡ false → insert_by off_first x ys ≡ x ∷ ys
  unfolding insert_by
  insert_off x [] off = refl
  insert_off x (y ∷ ys) off = ground arith

  insert_on_first :
      (x : A) (xs : List A) → on x ≡ true → insert_by off_first x (pick on xs) ≡ x ∷ pick on xs
  unfolding insert_by
  insert_on_first x [] h = refl
  insert_on_first x (y ∷ ys) h = ground (arith, insert_on_first x ys h)

  insert_on :
      (x : A) (xs ys : List A)
      → on x ≡ true
      → insert_by off_first x (pick (λ y. not (on y)) xs ++ pick on ys)
        ≡ pick (λ y. not (on y)) xs ++ (x ∷ pick on ys)
  unfolding insert_by
  insert_on x [] ys h = insert_on_first x ys h
  insert_on x (y ∷ xs) ys h = ground (arith, insert_on x xs ys h)

  sort_by-pick : (xs : List A) → sort_by off_first xs ≡ pick (λ y. not (on y)) xs ++ pick on xs
  unfolding sort_by
  sort_by-pick [] = refl
  sort_by-pick (x ∷ xs) = elim (Bool-cases (on x)) [
    | inl h ↦ ap (insert_by off_first x) (sort_by-pick xs) ∙ rw h (insert_on x xs xs h)
    | inr h ↦ ap (insert_by off_first x) (sort_by-pick xs) ∙ rw h (insert_off x _ h)
  ]

-- Under the current schema, the targets that are not to run DHCP come first and those that are to
-- run it last, each in the order of the fleet: a DHCP server is turned off on every other target
-- before it is turned on.
pub ordered_targets-pick :
    (d : DesiredDocument) (nodes : List Node) (selected : List String)
    → leb current_schema_version d.schema_version ≡ true
    → let targets = pick (is_target selected) nodes in
      ordered_targets d nodes selected
      ≡ pick (λ n. not (dhcp_enabled d n)) targets ++ pick (dhcp_enabled d) targets
unfolding ordered_targets
ordered_targets-pick d nodes selected current =
    rw current (sort_by-pick (dhcp_enabled d) (pick (is_target selected) nodes))
