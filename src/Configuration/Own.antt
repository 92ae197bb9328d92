-- ===== src/Configuration/Own.antt =====
-- internal/configuration/model.go: the document of one node of a cluster.
use atlas_dns.Base.{
  String, ◌≡◌, refl, sym, ap, ◌∙◌, inl, inr, false, none, some, List, [], ◌∷◌, map, arith, str_eq,
  Bool-cases, Option-cases, str_eq_self,
}
use mathlib.Core.Option
use atlas_dns.Base.Map.{lookup}
use atlas_dns.Base.Act.{ok}
use atlas_dns.Configuration.Model.{Document, DesiredDocument, NodeSpecific}
use atlas_dns.Configuration.Clean.{Texts, TextLaws}
use atlas_dns.Configuration.Canonical.{
  canonical_shared, canonical_node, canonicalise, canonical_override, canonicalise_desired,
  desired_from_observation, effective, nothing_observed,
}
use atlas_dns.Configuration.Settled.{
  canonical_shared_fixed, canonical_node_fixed, canonicalise-canonicalise,
}

module _ (t : Texts) where
  lookup-map-canonical :
      (n : String) (m : List (String × NodeSpecific))
      → lookup n (map (canonical_override t) m) ≡ Option.map (canonical_node t) (lookup n m)
  unfolding lookup
  lookup-map-canonical n [] = refl
  lookup-map-canonical n ((k, v) ∷ m) = elim (Bool-cases (str_eq k n)) [
    | inl same ↦ rw same refl
    | inr other ↦ rw other (lookup-map-canonical n m)
  ]

  lookup-overrides :
      (n : String) (d : DesiredDocument)
      → lookup n (canonicalise_desired t d).node_overrides
        ≡ Option.map (canonical_node t) (lookup n d.node_overrides)
  unfolding canonicalise_desired
  lookup-overrides n d = lookup-map-canonical n d.node_overrides

  shared_of_desired :
      (d : DesiredDocument) → (canonicalise_desired t d).shared ≡ canonical_shared t d.shared
  unfolding canonicalise_desired canonicalise
  shared_of_desired d = refl

  shared_of : (d : Document) → (canonicalise t d).shared ≡ canonical_shared t d.shared
  unfolding canonicalise
  shared_of d = refl

  node_of : (d : Document) → (canonicalise t d).node_specific ≡ canonical_node t d.node_specific
  unfolding canonicalise
  node_of d = refl

  -- The document that `Effective` puts together.
  abbrev combined : DesiredDocument → NodeSpecific → Document
  combined c override = record {
    schema_version = c.schema_version;
    shared = c.shared;
    node_specific = override;
    observed_only = nothing_observed t;
    unsupported = c.unsupported;
  }

  effective_of :
      (d : DesiredDocument) (n : String) (o : NodeSpecific)
      → lookup n d.node_overrides ≡ some o
      → effective t d n
        ≡ ok (canonicalise t (combined (canonicalise_desired t d) (canonical_node t o)))
  unfolding effective
  effective_of d n o found =
      rw (effective, lookup-overrides n d ∙ ap (Option.map (canonical_node t)) found) refl

  effective_missing :
      (d : DesiredDocument) (n : String)
      → lookup n d.node_overrides ≡ none
      → ¬ ((doc : Document) × (effective t d n ≡ ok doc))
  unfolding effective
  effective_missing d n missing (doc, e) =
      let gone = lookup-overrides n d ∙ ap (Option.map (canonical_node t)) missing in ground arith

  imported_override :
      (d : Document) (n : String)
      → lookup n (desired_from_observation t n d).node_overrides
        ≡ some (canonical_node t d.node_specific)
  unfolding desired_from_observation canonicalise_desired lookup
  imported_override d n = rw (str_eq_self n) refl

  imported_other :
      (d : Document) (n m : String)
      → str_eq n m ≡ false
      → lookup m (desired_from_observation t n d).node_overrides ≡ none
  unfolding desired_from_observation canonicalise_desired lookup
  imported_other d n m other = rw other refl

  imported_shared :
      (d : Document) (n : String)
      → (desired_from_observation t n d).shared ≡ canonical_shared t d.shared
  unfolding desired_from_observation canonicalise_desired canonicalise
  imported_shared d n = refl

  module _ (laws : TextLaws t) where
    -- The document of a node is the canonical form of the cluster's shared settings and of the
    -- node's own override: no other override has a part in it.
    pub effective_own :
        (d : DesiredDocument) (n : String) (doc : Document)
        → effective t d n ≡ ok doc
        → (o : NodeSpecific) × (lookup n d.node_overrides ≡ some o)
          × (doc.node_specific ≡ canonical_node t o)
          × (doc.shared ≡ canonical_shared t d.shared)
          × (canonicalise t doc ≡ doc)
    effective_own d n doc e = elim (Option-cases (lookup n d.node_overrides)) [
      | inl missing ↦ absurd (effective_missing d n missing (doc, e))
      | inr (o, found) ↦
          let raw = combined (canonicalise_desired t d) (canonical_node t o) in
          let same : doc ≡ canonicalise t raw = cc (e, effective_of d n o found) in
          (
            o,
            found,
            ap (λ x. x.node_specific) same ∙ node_of raw ∙ canonical_node_fixed t laws o,
            ap (λ x. x.shared) same
                ∙ shared_of raw
                ∙ ap (canonical_shared t) (shared_of_desired d)
                ∙ canonical_shared_fixed t laws d.shared,
            ap (canonicalise t) same ∙ canonicalise-canonicalise t laws raw ∙ sym same,
          )
    ]

    -- The observed document of a node, imported as the desired one: the node's effective document
    -- has its shared settings and its own settings in canonical form, and no other node has one.
    pub desired_from_observation-effective :
        (d : Document) (n m : String)
        → let imported = desired_from_observation t n d in
          ((doc : Document) × (effective t imported n ≡ ok doc)
            × (doc.shared ≡ (canonicalise t d).shared)
            × (doc.node_specific ≡ (canonicalise t d).node_specific))
          × (str_eq n m ≡ false → ¬ ((doc : Document) × (effective t imported m ≡ ok doc)))
    desired_from_observation-effective d n m =
        let imported = desired_from_observation t n d in
        let own =
          effective_of imported n (canonical_node t d.node_specific) (imported_override d n) in
        let (o, found, node, shared, settled) = effective_own imported n _ own in
        (
          (
            _,
            own,
            shared
                ∙ ap (canonical_shared t) (imported_shared d n)
                ∙ canonical_shared_fixed t laws d.shared
                ∙ sym (shared_of d),
            node_of _
                ∙ canonical_node_fixed t laws _
                ∙ canonical_node_fixed t laws d.node_specific
                ∙ sym (node_of d),
          ),
          λ other. effective_missing imported m (imported_other d n m other),
        )
