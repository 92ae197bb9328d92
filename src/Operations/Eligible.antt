-- ===== src/Operations/Eligible.antt =====
-- internal/operations/service.go: who is selected for an operational command.
use atlas_dns.Base.{
  ◌<◌, String, ◌≡◌, refl, sym, subst, inl, inr, true, false, not, ◌&&◌, List, [], ◌∷◌, ◌++◌, arith,
  str_eq, Bool-cases, length, is_empty, All,
}
use atlas_dns.Domain.{Node, kind_text, capability}
use atlas_dns.Base.Act.{ok, Result-cases}
use atlas_dns.Operations.Model.{Target}
use atlas_dns.Operations.Selection.{
  CapabilityProfile, profile_of, supports, exclusion_code, Selection, on_node, select_node,
  select_nodes, selection, IsEligible,
}

All-append :
    {A : Type 0} (P : A → Type 0) (xs : List A) {y : A} → All P xs → P y → All P (xs ++ y ∷ [])
All-append P [] a b = (b, tt)
All-append P (x ∷ xs) a b = (a.0, All-append P xs a.1 b)

not_empty_length : {A : Type 0} (xs : List A) → is_empty xs ≡ false → 0 < length xs
not_empty_length [] e = ground arith
not_empty_length (x ∷ xs) e = omega arith

absurd_code : {P : Type 0} (code : String) → str_eq code "" ≡ false → str_eq code "" ≡ true → P
absurd_code code a b = ground arith

exclusion_code-supports :
    (feature : String) (profiles : List CapabilityProfile) (node : Node)
    → str_eq (exclusion_code feature profiles node) "" ≡ true
    → (node.maintenance_mode ≡ false) × (supports feature node (profile_of node.id profiles) ≡ true)
unfolding exclusion_code
exclusion_code-supports feature profiles node e =
    let code = exclusion_code feature profiles node in
    let can = supports feature node (profile_of node.id profiles) in
    elim (Bool-cases node.maintenance_mode) [
      | inl resting ↦
          let same : code ≡ "NODE_IN_MAINTENANCE" = ground arith in
          absurd_code "NODE_IN_MAINTENANCE" refl (subst (λ c. str_eq c "" ≡ true) same e)
      | inr serving ↦ elim (Bool-cases can) [
        | inl able ↦ (serving, able)
        | inr unable ↦
            let same : code ≡ kind_text capability = ground arith in
            absurd_code (kind_text capability) refl (subst (λ c. str_eq c "" ≡ true) same e)
      ]
    ]

module _ (target : Target) (feature : String) (profiles : List CapabilityProfile) where
  select_node-IsEligible :
      (node : Node) (s next : Selection)
      → All (IsEligible target feature profiles) s.selected
      → select_node target feature profiles node s ≡ ok next
      → All (IsEligible target feature profiles) next.selected
  unfolding select_node
  select_node-IsEligible node s next good e =
      let eligible = IsEligible target feature profiles in
      let codes = exclusion_code-supports feature profiles node in
      elim (Bool-cases (
        not (on_node target && not (str_eq node.id target.node_id))
        && node.enabled
        && str_eq (exclusion_code feature profiles node) "")) [
          | inl taken ↦
              let (out, can) = exclusion_code-supports feature profiles node (ground arith) in
              let own : IsEligible target feature profiles node =
                (ground arith, out, can, λ on. ground arith) in
              let same : next.selected ≡ s.selected ++ node ∷ [] = ground arith in
              subst (λ nodes. All eligible nodes) (sym same)
                (All-append eligible s.selected good own)
          | inr left ↦
              let same : next.selected ≡ s.selected = ground arith in
              subst (λ nodes. All eligible nodes) (sym same) good
        ]

  select_nodes-IsEligible :
      (nodes : List Node) (s result : Selection)
      → All (IsEligible target feature profiles) s.selected
      → select_nodes target feature profiles nodes s ≡ ok result
      → All (IsEligible target feature profiles) result.selected
  unfolding select_nodes
  select_nodes-IsEligible [] s result good e =
      let same : s ≡ result = ground arith in
      subst (λ (x : Selection). All (IsEligible target feature profiles) x.selected) same good
  select_nodes-IsEligible (node ∷ nodes) s result good e =
      elim (Result-cases (select_node target feature profiles node s)) [
        | inr (failure, lost) ↦ ground arith
        | inl (next, got) ↦
            select_nodes-IsEligible nodes next result (select_node-IsEligible node s next good got)
              (ground arith)
      ]

  -- A command is only ever selected for nodes that are enabled, out of maintenance and whose
  -- latest profile shows, for the node's version, support of the feature; with a target of node
  -- scope only for that node; and always for at least one.
  pub selection-IsEligible :
      (nodes : List Node) (result : Selection)
      → selection target feature profiles nodes ≡ ok result
      → All (IsEligible target feature profiles) result.selected × (0 < length result.selected)
  unfolding selection
  selection-IsEligible nodes result e =
      let start : Selection = record {
        selected = [];
        excluded = [];
        found = not (on_node target);
      } in
      elim (Result-cases (select_nodes target feature profiles nodes start)) [
        | inr (failure, lost) ↦ ground arith
        | inl (made, got) ↦
            let same : made ≡ result = ground arith in
            let some_of : is_empty result.selected ≡ false = ground arith in
            (
              subst (λ (x : Selection). All (IsEligible target feature profiles) x.selected) same
                  (select_nodes-IsEligible nodes start made tt got),
              not_empty_length result.selected some_of,
            )
      ]
