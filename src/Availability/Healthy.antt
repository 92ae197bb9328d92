-- ===== src/Availability/Healthy.antt =====
-- internal/haoperations/service.go: what the state of a summary says of the nodes.
use atlas_dns.Base.{
  ℕ, ◌+◌, ◌≤◌, ◌≡◌, refl, ◌↔◌, ◌⊎◌, inl, inr, true, false, List, [], ◌∷◌, arith, if◌then◌else◌,
  ltb→lt, lt→ltb, Bool-cases, length, All,
}
use atlas_dns.Domain.{Node, is_healthy, is_converged}
use atlas_dns.Availability.Model.{DnsProbeResult, HaState, Certificate, VersionState}
use atlas_dns.Availability.Summary.{count_nodes, summary_state, summarize, is_serving}

-- The serving nodes, counted by themselves.
abbrev pub serving : ℕ → ℕ → List DnsProbeResult → List Node → List Node
serving now window probes [] = []
serving now window probes (node ∷ nodes) =
    let rest = serving now window probes nodes in
    if is_serving now window probes node then node ∷ rest else rest

-- An enabled node that needs no attention.
abbrev pub IsSettled : Node → Type 0
IsSettled node =
    (node.enabled ≡ false)
    ⊎ ((node.maintenance_mode ≡ false)
        × (is_healthy node.health_status ≡ true)
        × (is_converged node.convergence_status ≡ true))

module _ (now window : ℕ) (probes : List DnsProbeResult) where
  count_nodes-bounds :
      (nodes : List Node)
      → let s = count_nodes now window probes nodes in
        (s.serving_dns_nodes + s.maintenance_nodes ≤ s.total_nodes)
        × (s.converged_nodes + s.maintenance_nodes ≤ s.total_nodes)
        × (s.api_reachable_nodes ≤ s.total_nodes)
  unfolding count_nodes
  count_nodes-bounds [] = ground arith
  count_nodes-bounds (node ∷ nodes) = ground (arith, count_nodes-bounds nodes)

  count_nodes-serving :
      (nodes : List Node)
      → (count_nodes now window probes nodes).serving_dns_nodes
        ≡ length (serving now window probes nodes)
  unfolding count_nodes
  count_nodes-serving [] = refl
  count_nodes-serving (node ∷ nodes) = ground (arith, count_nodes-serving nodes)

  count_nodes-IsSettled :
      (nodes : List Node)
      → let s = count_nodes now window probes nodes in
        s.api_reachable_nodes ≡ s.total_nodes
        → s.converged_nodes ≡ s.total_nodes
        → All IsSettled nodes
  unfolding count_nodes
  count_nodes-IsSettled [] a c = tt
  count_nodes-IsSettled (node ∷ nodes) a c =
      let bounds = count_nodes-bounds nodes in
      elim (Bool-cases node.enabled) [
        | inr off ↦ (ground arith, count_nodes-IsSettled nodes (ground arith) (ground arith))
        | inl on ↦ (ground arith, count_nodes-IsSettled nodes (ground arith) (ground arith))
      ]

  IsSettled-count_nodes :
      (nodes : List Node)
      → All IsSettled nodes
      → let s = count_nodes now window probes nodes in
        (s.api_reachable_nodes ≡ s.total_nodes)
        × (s.converged_nodes ≡ s.total_nodes)
        × (s.maintenance_nodes ≡ 0)
  unfolding count_nodes
  IsSettled-count_nodes [] good = (refl, refl, refl)
  IsSettled-count_nodes (node ∷ nodes) good =
      let rest = IsSettled-count_nodes nodes good.1 in
      let own = good.0 in (ground arith, ground arith, ground arith)

  -- A cluster is reported healthy exactly if at least two of its nodes serve DNS, that is, are
  -- enabled and out of maintenance with a healthy probe that is not stale, and each of its enabled
  -- nodes is out of maintenance, reached and converged.
  pub summarize_healthy :
      (nodes : List Node) (certificates : List Certificate) (versions : List VersionState)
      → ((summarize now window probes nodes certificates versions).state ≡ HaState.healthy)
        ↔ ((2 ≤ length (serving now window probes nodes)) × All IsSettled nodes)
  unfolding summarize summary_state
  summarize_healthy nodes certificates versions =
      let counted = count_nodes now window probes nodes in
      let bounds = count_nodes-bounds nodes in
      let served = count_nodes-serving nodes in
      (
        (λ e.
            let enough : 2 ≤ counted.serving_dns_nodes = grind (arith, ltb→lt, lt→ltb) in
            let api : counted.api_reachable_nodes ≡ counted.total_nodes =
              grind (arith, ltb→lt, lt→ltb) in
            let converged : counted.converged_nodes ≡ counted.total_nodes =
              grind (arith, ltb→lt, lt→ltb) in
            (omega arith, count_nodes-IsSettled nodes api converged)),
        (λ good.
            let counts = IsSettled-count_nodes nodes good.1 in
            let enough : 2 ≤ counted.serving_dns_nodes = omega (arith, good.0) in
            grind (arith, ltb→lt, lt→ltb)),
      )
