-- ===== src/Controlplane/Created.antt =====
-- internal/controlplane/service.go: what a deployment is created from.
use atlas_dns.Base.{
  ℕ, ◌+◌, String, ◌≡◌, refl, sym, ap, ◌∙◌, subst, inl, inr, true, false, not, ◌&&◌, some, List, [],
  ◌∷◌, ◌++◌, map, arith, is_empty, All,
}
use atlas_dns.Base.Act.{Result, ok, Result-cases}
use atlas_dns.Base.Map.{lookup}
use atlas_dns.Domain.{Failure, Node}
use atlas_dns.Configuration.Model.{Document, DesiredDocument, NodeSpecific}
use atlas_dns.Configuration.Rows.{Kind, Value}
use atlas_dns.Configuration.Clean.{Texts}
use atlas_dns.Configuration.Canonical.{effective, canonicalise_desired}
use atlas_dns.Configuration.Validate.Checks.{ValidationIssue, Network}
use atlas_dns.Configuration.Validate.Required.{validate_desired}
use atlas_dns.Configuration.Validate.Bounds.{append-empty}
use atlas_dns.Configuration.Validate.Deployable.{
  HasListener, IsDeployable, validate_desired-IsDeployable,
}
use atlas_dns.Controlplane.Targets.{ordered_targets}
use atlas_dns.Controlplane.Preview.{PreviewNode, Preview, Item, enabled_node_ids, relabel}
use atlas_dns.Controlplane.PreviewDocument.{
  Seen, effective_item, preview_item, preview_items, preview_of, concat_issues, no_target_issues,
}
use atlas_dns.Controlplane.Planned.{
  IsPlanned, ordered_targets-All, effective_item-IsPlanned, empty_list,
}

map_nil : {A B : Type 0} (f : A → B) (xs : List A) → map f xs ≡ [] → xs ≡ []
map_nil f [] e = refl
map_nil f (x ∷ xs) e = absurd cc

some_left :
    (items : List Item) → is_empty items ≡ false → is_empty (map (λ (i : Item). i.0) items) ≡ false
some_left [] e = e
some_left (x ∷ xs) e = refl

module _ (marshal : (k : Kind) → Value k → String) (t : Texts)
    (hash : Document → Result Failure String) where
  -- The nodes of a preview are the targets, in their order and counted from `position`.
  abbrev pub ArePlanned : DesiredDocument → Seen → ℕ → List Node → List PreviewNode → Type 0
  ArePlanned d seen position [] [] = Unit
  ArePlanned d seen position [] (v ∷ vs) = ⊥
  ArePlanned d seen position (n ∷ ns) [] = ⊥
  ArePlanned d seen position (n ∷ ns) (v ∷ vs) =
      IsPlanned marshal t hash d seen n position v × ArePlanned d seen (position + 1) ns vs

  has-effective :
      (d : DesiredDocument) (id : String) (o : NodeSpecific)
      → lookup id (canonicalise_desired t d).node_overrides ≡ some o
      → (e : Document) × (effective t d id ≡ ok e)
  unfolding effective
  has-effective d id o h = elim (Result-cases (effective t d id)) [
    | inr (f, lost) ↦ absurd (ground arith)
    | inl (e, has) ↦ (e, has)
  ]

  preview_item-IsPlanned :
      (d : DesiredDocument) (seen : Seen) (node : Node) (position : ℕ) (item : Item) (e : Document)
      → effective t d node.id ≡ ok e
      → preview_item marshal t hash d seen node position ≡ ok item
      → item.1 ≡ []
      → IsPlanned marshal t hash d seen node position item.0
  unfolding preview_item
  preview_item-IsPlanned d seen node position item e has made clean = elim (Result-cases (hash e)) [
    | inr (f, lost) ↦ absurd (ground arith)
    | inl (hashed, written) ↦
        let same : effective_item marshal t hash d seen node position e hashed ≡ item =
          ground arith in
        subst (λ x. IsPlanned marshal t hash d seen node position x.0) same
          (effective_item-IsPlanned marshal t hash d seen node position e hashed has written
            (subst (λ x. x.1 ≡ []) (sym same) clean))
  ]

  preview_items-ArePlanned :
      (d : DesiredDocument) (seen : Seen) (position : ℕ) (targets : List Node) (items : List Item)
      → All (λ (n : Node). (e : Document) × (effective t d n.id ≡ ok e)) targets
      → preview_items marshal t hash d seen position targets ≡ ok items
      → concat_issues items ≡ []
      → ArePlanned d seen position targets (map (λ (item : Item). item.0) items)
  unfolding preview_items
  preview_items-ArePlanned d seen position [] items h made clean =
      let same : [] ≡ items = ground arith in
      subst (λ xs. ArePlanned d seen position [] (map (λ (item : Item). item.0) xs)) same tt
  preview_items-ArePlanned d seen position (n ∷ ns) items h made clean =
      let first = preview_item marshal t hash d seen n position in
      let later = preview_items marshal t hash d seen (position + 1) ns in
      elim (Result-cases first) [
        | inr (f, lost) ↦ absurd (ground arith)
        | inl (item, has) ↦ elim (Result-cases later) [
          | inr (f, lost) ↦ absurd (ground arith)
          | inl (rest, others) ↦
              let same : item ∷ rest ≡ items = ground arith in
              let (here, left) =
                append-empty item.1 (concat_issues rest)
                  (subst (λ xs. concat_issues xs ≡ []) (sym same) clean) in
              subst (λ xs. ArePlanned d seen position (n ∷ ns) (map (λ (i : Item). i.0) xs)) same
                (
                  preview_item-IsPlanned d seen n position item h.0.0 h.0.1 has here,
                  preview_items-ArePlanned d seen (position + 1) ns rest h.1 others left,
                )
        ]
      ]

  module _ (net : Network) where
    All-effective :
        (d : DesiredDocument) (nodes : List Node)
        → All (λ (n : Node). HasListener net t (canonicalise_desired t d).node_overrides n.id) nodes
        → All (λ (n : Node). (e : Document) × (effective t d n.id ≡ ok e)) nodes
    All-effective d [] h = tt
    All-effective d (n ∷ ns) h =
        let (o, found, sound) = h.0 in (has-effective d n.id o found, All-effective d ns h.1)

    -- A valid preview is of a document that can be deployed to all enabled nodes, and has at least
    -- one node. Its nodes are the targets, in their order and counted from 1, each valid, with the
    -- hash of its effective document, the capabilities that the document needs and a successful
    -- observation of the listener that the document wants.
    pub preview_of-ArePlanned :
        (revision : String) (d : DesiredDocument) (nodes : List Node) (selected : List String)
        (catalogue : List ValidationIssue) (seen : Seen) (preview : Preview)
        → preview_of marshal t hash net revision d nodes
            (ordered_targets d nodes selected)
            catalogue
            seen
          ≡ ok preview
        → preview.valid ≡ true
        → ArePlanned d seen 1 (ordered_targets d nodes selected) preview.nodes
          × IsDeployable net t d (enabled_node_ids nodes)
          × (is_empty preview.nodes ≡ false)
    unfolding preview_of
    preview_of-ArePlanned revision d nodes selected catalogue seen preview made valid =
        let targets = ordered_targets d nodes selected in
        elim (Result-cases (preview_items marshal t hash d seen 1 targets)) [
          | inr (f, lost) ↦ absurd (ground arith)
          | inl (items, has) ↦
              let found = validate_desired net t d (enabled_node_ids nodes) in
              let labelled = map (relabel revision nodes) found in
              let untargeted = no_target_issues marshal t hash nodes targets in
              let issues = labelled ++ catalogue ++ concat_issues items ++ untargeted in
              let whole : Preview = record {
                valid = is_empty issues && not (is_empty items);
                issues = issues;
                nodes = map (λ (i : Item). i.0) items;
              } in
              let same : whole ≡ preview = ground arith in
              let both : (is_empty issues && not (is_empty items)) ≡ true =
                ap (λ (p : Preview). p.valid) same ∙ valid in
              let quiet : issues ≡ [] = empty_list issues (ground arith) in
              let (before_targets, _) = append-empty _ _ quiet in
              let (before_items, clean) = append-empty _ _ before_targets in
              let (first, _) = append-empty _ _ before_items in
              let deployable =
                validate_desired-IsDeployable net t d (enabled_node_ids nodes)
                  (map_nil (relabel revision nodes) found first) in
              let ready = All-effective d targets (
                ordered_targets-All (HasListener net t (canonicalise_desired t d).node_overrides) d
                  nodes selected deployable.listeners) in
              let planned = preview_items-ArePlanned d seen 1 targets items ready has clean in
              subst
                (λ (p : Preview).
                  ArePlanned d seen 1 targets p.nodes
                  × IsDeployable net t d (enabled_node_ids nodes)
                  × (is_empty p.nodes ≡ false))
                same (planned, deployable, some_left items (ground arith))
        ]
