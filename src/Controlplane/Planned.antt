-- ===== src/Controlplane/Planned.antt =====
-- internal/controlplane/service.go: what a valid preview promises of its targets.
use atlas_dns.Base.{
  ℕ, String, ◌≡◌, refl, sym, ap, ◌∙◌, subst, inl, inr, true, ◌&&◌, Option, none, some, List, [],
  ◌∷◌, ◌++◌, map, arith, str_eq, leb, Bool-cases, is_empty, All,
}
use Prim.Native.String.{◌++◌ as append}
use atlas_dns.Base.Act.{Result, ok}
use atlas_dns.Base.Sort.{sort_by, insert_by, sort_by-All}
use atlas_dns.Base.Order.{less}
use atlas_dns.Domain.{Failure, Node}
use atlas_dns.Configuration.Model.{Document, DesiredDocument}
use atlas_dns.Configuration.Rows.{Kind, Value}
use atlas_dns.Configuration.Clean.{Texts}
use atlas_dns.Configuration.Canonical.{effective, project_document, current_schema_version}
use atlas_dns.Configuration.Compared.{documents}
use atlas_dns.Configuration.Validate.Checks.{issue}
use atlas_dns.Configuration.Validate.Bounds.{append-empty}
use atlas_dns.Controlplane.Model.{Snapshot, immutable_node_differences}
use atlas_dns.Controlplane.Targets.{pick, is_target, ordered_targets, deploys_before}
use atlas_dns.Operations.Selection.{CapabilityProfile}
use atlas_dns.Controlplane.Preview.{
  PreviewNode, Item, enabled_node_ids, last_of, missing_features, observed_document,
  observation_fault, with_fault, with_capabilities, is_compatible, capability_warning,
}
use atlas_dns.Controlplane.PreviewDocument.{Seen, new_item, effective_item}

insert_by-rest :
    (P : String → Type 0) (x : String) (xs : List String)
    → All P (insert_by less x xs)
    → P x × All P xs
unfolding insert_by
insert_by-rest P x [] h = h
insert_by-rest P x (y ∷ ys) h = elim (Bool-cases (less y x)) [
  | inl later ↦
      let same : insert_by less x (y ∷ ys) ≡ y ∷ insert_by less x ys = ground arith in
      let (here, rest) = subst (All P) same h in
      let (mine, others) = insert_by-rest P x ys rest in (mine, (here, others))
  | inr first ↦
      let same : insert_by less x (y ∷ ys) ≡ x ∷ y ∷ ys = ground arith in subst (All P) same h
]

sort_by-rest : (P : String → Type 0) (xs : List String) → All P (sort_by less xs) → All P xs
unfolding sort_by
sort_by-rest P [] h = tt
sort_by-rest P (x ∷ xs) h =
    let (here, rest) = insert_by-rest P x (sort_by less xs) h in (here, sort_by-rest P xs rest)

-- What holds of the enabled nodes holds of the targets.
enabled-target :
    (P : String → Type 0) (selected : List String) (nodes : List Node)
    → All P (map (λ (n : Node). n.id) (pick (λ (n : Node). n.enabled) nodes))
    → All (λ (n : Node). P n.id) (pick (is_target selected) nodes)
enabled-target P selected [] h = tt
enabled-target P selected (n ∷ ns) h = elim (Bool-cases n.enabled) [
  | inr off ↦
      let same : pick (λ (m : Node). m.enabled) (n ∷ ns) ≡ pick (λ (m : Node). m.enabled) ns =
        ground arith in
      let left : pick (is_target selected) (n ∷ ns) ≡ pick (is_target selected) ns = ground arith in
      subst (All (λ (m : Node). P m.id)) (sym left)
        (enabled-target P selected ns (subst (λ ms. All P (map (λ (m : Node). m.id) ms)) same h))
  | inl on ↦
      let same : pick (λ (m : Node). m.enabled) (n ∷ ns) ≡ n ∷ pick (λ (m : Node). m.enabled) ns =
        ground arith in
      let (here, rest) = subst (λ ms. All P (map (λ (m : Node). m.id) ms)) same h in
      let later = enabled-target P selected ns rest in
      elim (Bool-cases (is_target selected n)) [
        | inl aimed ↦
            let left : pick (is_target selected) (n ∷ ns) ≡ n ∷ pick (is_target selected) ns =
              ground arith in
            subst (All (λ (m : Node). P m.id)) (sym left) (here, later)
        | inr other ↦
            let left : pick (is_target selected) (n ∷ ns) ≡ pick (is_target selected) ns =
              ground arith in
            subst (All (λ (m : Node). P m.id)) (sym left) later
      ]
]

pub ordered_targets-All :
    (P : String → Type 0) (d : DesiredDocument) (nodes : List Node) (selected : List String)
    → All P (enabled_node_ids nodes)
    → All (λ (n : Node). P n.id) (ordered_targets d nodes selected)
unfolding ordered_targets enabled_node_ids
ordered_targets-All P d nodes selected h =
    let chosen = enabled-target P selected nodes (sort_by-rest P _ h) in
    elim (Bool-cases (leb current_schema_version d.schema_version)) [
      | inl current ↦ rw current (
          sort_by-All (deploys_before d) (λ (n : Node). P n.id) (pick (is_target selected) nodes)
            chosen)
      | inr legacy ↦ rw legacy chosen
    ]

pub empty_list : {A : Type 0} (xs : List A) → is_empty xs ≡ true → xs ≡ []
empty_list [] e = refl
empty_list (x ∷ xs) e = absurd cc

no_snoc : {A : Type 0} (xs : List A) (x : A) → xs ++ (x ∷ []) ≡ [] → ⊥
no_snoc xs x e = let (_, last) = append-empty xs (x ∷ []) e in cc

module _ (marshal : (k : Kind) → Value k → String) (t : Texts)
    (hash : Document → Result Failure String) where
  -- A target is ready: its capabilities are those that the document needs, and its last
  -- observation succeeded and has the listener of the effective document.
  abbrev pub IsReady : DesiredDocument → Seen → String → Document → Type 0
  IsReady d seen id e =
      let profile = last_of (λ (p : CapabilityProfile). str_eq p.node_id id) seen.profiles in
      let snapshot = last_of (λ (s : Snapshot Document). str_eq s.node_id id) seen.snapshots in
      (is_compatible profile ≡ true)
      × (missing_features profile d e ≡ [])
      × ((o : Document) × (observed_document snapshot ≡ some o)
          × (immutable_node_differences (documents marshal t) e
                (project_document t o d.schema_version)
              ≡ []))

  with_capabilities-clean :
      (item : Item) (profile : Option CapabilityProfile) (names : List String)
      → (with_capabilities marshal t item profile names).1 ≡ []
      → (is_compatible profile ≡ true)
        × (names ≡ [])
        × ((with_capabilities marshal t item profile names).0 ≡ item.0)
  unfolding with_capabilities
  with_capabilities-clean item profile names e =
      let i = issue (append "nodes." item.0.node_id) (capability_warning profile names) in
      elim (Bool-cases (is_compatible profile && is_empty names)) [
        | inl fine ↦
            let none_left : names ≡ [] = empty_list names (ground arith) in
            (ground arith, none_left, ground arith)
        | inr bad ↦
            let left : item.1 ++ (i ∷ []) ≡ [] = ground arith in absurd (no_snoc item.1 i left)
      ]

  with_fault-clean :
      (item : Item) (fault : Option (String × String))
      → (with_fault marshal t item fault).1 ≡ []
      → (fault ≡ none) × (item.1 ≡ [])
  with_fault-clean item none e = (refl, e)
  with_fault-clean item (some (field, warning)) e = absurd (no_snoc item.1 (issue field warning) e)

  observation_fault-none :
      (d : DesiredDocument) (e : Document) (id : String) (o : Option Document)
      → observation_fault marshal t d e id o ≡ none
      → (x : Document) × (o ≡ some x)
        × (immutable_node_differences
              (documents marshal t)
              e
              (project_document t x d.schema_version)
            ≡ [])
  unfolding observation_fault
  observation_fault-none d e id none h = absurd cc
  observation_fault-none d e id (some x) h =
      let differences =
        immutable_node_differences (documents marshal t) e
          (project_document t x d.schema_version) in
      elim (Bool-cases (is_empty differences)) [
        | inl same ↦ (x, refl, empty_list differences same)
        | inr other ↦ absurd (ground arith)
      ]

  -- A node of a valid preview: the target at its position, with the hash of its effective document.
  abbrev pub IsPlanned : DesiredDocument → Seen → Node → ℕ → PreviewNode → Type 0
  IsPlanned d seen node position v =
      (v.node_id ≡ node.id)
      × (v.position ≡ position)
      × (v.valid ≡ true)
      × ((e : Document) × (effective t d node.id ≡ ok e)
          × (hash e ≡ ok v.effective_hash)
          × IsReady d seen node.id e)

  pub effective_item-IsPlanned :
      (d : DesiredDocument) (seen : Seen) (node : Node) (position : ℕ) (e : Document)
      (hashed : String)
      → effective t d node.id ≡ ok e
      → hash e ≡ ok hashed
      → (effective_item marshal t hash d seen node position e hashed).1 ≡ []
      → IsPlanned d seen node position
          (effective_item marshal t hash d seen node position e hashed).0
  unfolding effective_item
  effective_item-IsPlanned d seen node position e hashed has made clean =
      let profile = last_of (λ (p : CapabilityProfile). str_eq p.node_id node.id) seen.profiles in
      let snapshot = last_of (λ (s : Snapshot Document). str_eq s.node_id node.id) seen.snapshots in
      let fresh = new_item node.id position hashed in
      let names = missing_features profile d e in
      let able = with_capabilities marshal t fresh profile names in
      let fault = observation_fault marshal t d e node.id (observed_document snapshot) in
      let (sound, quiet) = with_fault-clean able fault clean in
      let (fine, complete, same) = with_capabilities-clean fresh profile names quiet in
      let (x, observed, listener) =
        observation_fault-none d e node.id (observed_document snapshot) sound in
      let whole : (with_fault marshal t able fault).0 ≡ fresh.0 =
        ap (λ f. (with_fault marshal t able f).0) sound ∙ same in
      (
        ap (λ v. v.node_id) whole,
        ap (λ v. v.position) whole,
        ap (λ v. v.valid) whole,
        (
          e,
          has,
          made ∙ ap ok (sym (ap (λ v. v.effective_hash) whole)),
          (fine, complete, (x, observed, listener)),
        ),
      )
