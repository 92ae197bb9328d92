-- ===== src/Availability/Changes.antt =====
-- internal/haoperations/service.go: when the maintenance of a node is changed.
use atlas_dns.Base.{
  ℕ, ◌<◌, String, ◌≡◌, sym, subst, ◌⊎◌, inl, inr, Bool, true, false, not, ◌&&◌, ◌||◌, List, [], ◌∷◌,
  ◌++◌, arith, str_eq, eq_iff, ltb→lt, lt→ltb, Bool-cases,
}
use atlas_dns.Base.Act.{ok, Result-cases, Quiet}
use atlas_dns.Domain.{Node}
use atlas_dns.Availability.Model.{HaSummary, Check, MaintenancePreflight}
use atlas_dns.Availability.Calls.{Call, Answers, Run}
use atlas_dns.Availability.Calls
use atlas_dns.Availability.Maintenance.{
  certificates, summary, node_active_dhcp, preflight_of, healthy_probe, runs_dhcp, or_empty, window,
  preflight_tls, peers_compatible, maintenance_preflight, new_event, start_maintenance,
  enter_maintenance, break_glass_confirmation,
}

-- The changes of a node's maintenance that were asked for: the node, the mode and the version
-- that the node is expected to have.
unfoldable pub changed : List Call → List (String × Bool × ℕ)
changed [] = []
changed (Calls.set_node_maintenance id mode version ∷ h) = changed h ++ (id, mode, version) ∷ []
changed (_ ∷ h) = changed h

module _ (answers : Answers) where
  summary-Quiet : (cluster : String) → Quiet changed (summary answers cluster)
  unfolding summary certificates changed
  summary-Quiet cluster h = ground arith

  maintenance_preflight-Quiet : (id : String) → Quiet changed (maintenance_preflight answers id)
  unfolding maintenance_preflight node_active_dhcp changed
  maintenance_preflight-Quiet id h = grind (arith, summary-Quiet)

  -- The call of the latest successful snapshots in a preflight, after the summary, from `h` on.
  abbrev pub counted : String → Node → List Call → List Call
  counted id target h =
      Calls.open_drift_exists id
      ∷ Calls.active_deployment_exists target.cluster_id
      ∷ (summary answers target.cluster_id h).1

  -- The node's last probe is fresh and healthy, by the answers of the preflight.
  abbrev pub proven : String → Node → List Call → Bool
  proven id target h =
      let shot = Calls.latest_successful_snapshots target.cluster_id ∷ counted id target h in
      healthy_probe (answers.now shot) (window answers) (answers.last_probe id (Calls.clock ∷ shot))

  -- The summary of the target's cluster was answered, no deployment was active in the cluster
  -- and no successful snapshot showed DHCP on the node.
  abbrev pub CanLeave : String → Node → HaSummary → List Call → Type 0
  CanLeave id target s h =
      let summed = summary answers target.cluster_id h in
      (summed.0 ≡ ok s)
      × (answers.active_deployment target.cluster_id summed.1 ≡ ok false)
      × (runs_dhcp id
            (or_empty (answers.successful_snapshots target.cluster_id (counted id target h)))
          ≡ false)

  -- A DNS node is left that the summary counts as serving, the target not counted.
  abbrev pub Remains : String → Node → HaSummary → List Call → Type 0
  Remains id target s h =
      ((target.maintenance_mode ≡ false) × (proven id target h ≡ true) × (1 < s.serving_dns_nodes))
      ⊎ (((target.maintenance_mode ≡ true) ⊎ (proven id target h ≡ false))
          × (0 < s.serving_dns_nodes))

  preflight_of_remains :
      (node : Node) (s : HaSummary) (active drift dhcp leaves target : Bool) (tls : Check)
      (compatible : Bool)
      → let p = preflight_of answers node s active drift dhcp leaves target tls compatible in
        p.allowed ≡ true
        → (active ≡ false)
          × (dhcp ≡ false)
          × ((p.break_glass_required ≡ true)
              ⊎ (((leaves ≡ true) × (1 < s.serving_dns_nodes))
                  ⊎ ((leaves ≡ false) × (0 < s.serving_dns_nodes))))
  unfolding preflight_of
  preflight_of_remains node s active drift dhcp true target tls compatible allowed =
      grind (arith, ltb→lt, lt→ltb)
  preflight_of_remains node s active drift dhcp false target tls compatible allowed =
      grind (arith, ltb→lt, lt→ltb)

  preflight_allows :
      (id : String) (h : List Call) (p : MaintenancePreflight)
      → (maintenance_preflight answers id h).0 ≡ ok p
      → p.allowed ≡ true
      → let looked = Calls.node_by_id id ∷ h in
        (target : Node) × (s : HaSummary) × (answers.node h ≡ ok target)
        × CanLeave id target s looked
        × ((p.break_glass_required ≡ true) ⊎ Remains id target s looked)
  unfolding maintenance_preflight node_active_dhcp
  preflight_allows id h p e allowed =
      let looked = Calls.node_by_id id ∷ h in
      elim (Result-cases (answers.node h)) [
        | inr (f, lost) ↦ absurd (ground arith)
        | inl (target, found) ↦
            let summed = summary answers target.cluster_id looked in
            elim (Result-cases summed.0) [
              | inr (f, lost) ↦ absurd (ground arith)
              | inl (s, known) ↦
                  let first = Calls.active_deployment_exists target.cluster_id ∷ summed.1 in
                  elim (Result-cases (answers.active_deployment target.cluster_id summed.1)) [
                    | inr (f, lost) ↦ absurd (ground arith)
                    | inl (active, deployed) ↦ elim (Result-cases (answers.open_drift id first)) [
                      | inr (f, lost) ↦ absurd (ground arith)
                      | inl (drift, drifted) ↦
                          let shot =
                            Calls.latest_successful_snapshots target.cluster_id
                            ∷ counted id target looked in
                          let once = Calls.latest_probe id ∷ Calls.clock ∷ shot in
                          let twice = Calls.latest_probe id ∷ once in
                          let timed = Calls.latest_successful_snapshots target.cluster_id ∷ twice in
                          let certified = answers.successful_snapshots target.cluster_id twice in
                          let peers = answers.nodes target.cluster_id (Calls.clock ∷ timed) in
                          let dhcp = runs_dhcp id (
                            or_empty (
                              answers.successful_snapshots target.cluster_id
                                (counted id target looked))) in
                          let leaves = not target.maintenance_mode && proven id target looked in
                          let second =
                            healthy_probe (answers.now shot) (window answers)
                              (answers.last_probe id once) in
                          let tls =
                            preflight_tls answers (answers.now timed) id (or_empty certified) in
                          let compatible = peers_compatible id (or_empty peers) in
                          let made : preflight_of answers (record target { id = id }) s active drift
                                dhcp leaves second tls compatible
                              ≡ p =
                            ground arith in
                          let (idle, no_dhcp, capacity) =
                            preflight_of_remains (record target { id = id }) s active drift dhcp
                              leaves second tls compatible
                              (subst (λ q. q.allowed ≡ true) (sym made) allowed) in
                          (target, s, found, (known, ground arith, no_dhcp), ground arith)
                    ]
                  ]
            ]
      ]

  start_maintenance-changed :
      (id : String) (version : ℕ) (p : MaintenancePreflight) (h : List Call)
      → changed (start_maintenance answers id version p h).1 ≡ changed h ++ (id, true, version) ∷ []
  unfolding start_maintenance new_event changed
  start_maintenance-changed id version p h = ground arith

  -- Maintenance of a node is asked for at most once, and only of a node that is out of it. The
  -- repository then answered that no deployment is active in the node's cluster, and no
  -- latest successful snapshot shows DHCP enabled on the node, as far as they could be read. The
  -- summary of the cluster counts a serving DNS node beside this one, which counts as one of them
  -- if it is out of maintenance and its last probe is fresh and healthy; or else the break-glass
  -- text was confirmed.
  pub enter_maintenance-changed :
      (id : String) (version : ℕ) (break_glass : Bool) (confirmation : String) (h : List Call)
      → let after = (enter_maintenance answers id version break_glass confirmation h).1 in
        (changed after ≡ changed h)
        ⊎ ((node : Node) × (target : Node) × (s : HaSummary) × (answers.node h ≡ ok node)
            × (node.maintenance_mode ≡ false)
            × (answers.node (Calls.node_by_id id ∷ h) ≡ ok target)
            × CanLeave id target s (Calls.node_by_id id ∷ Calls.node_by_id id ∷ h)
            × (Remains id target s (Calls.node_by_id id ∷ Calls.node_by_id id ∷ h)
                ⊎ ((break_glass ≡ true) × (confirmation ≡ break_glass_confirmation)))
            × (changed after ≡ changed h ++ (id, true, version) ∷ []))
  unfolding enter_maintenance changed
  enter_maintenance-changed id version break_glass confirmation h =
      let asked = Calls.node_by_id id ∷ h in
      let looked = maintenance_preflight answers id asked in
      let quiet = maintenance_preflight-Quiet id asked in
      elim (Result-cases (answers.node h)) [
        | inr (e, lost) ↦ inl (ground arith)
        | inl (node, found) ↦ elim (Bool-cases node.maintenance_mode) [
          | inl already ↦ inl (ground arith)
          | inr serving ↦ elim (Result-cases looked.0) [
            | inr (e, lost) ↦ inl (ground arith)
            | inl (p, got) ↦
                elim (Bool-cases (
                  p.allowed
                  && not (
                      p.break_glass_required
                      && (not break_glass
                          || not (str_eq confirmation break_glass_confirmation))))) [
                            | inr refused ↦ inl (ground arith)
                            | inl go ↦
                                let (target, s, again, can_leave, capacity) =
                                  preflight_allows id asked p got (ground arith) in
                                inr (
                                  node,
                                  target,
                                  s,
                                  found,
                                  serving,
                                  again,
                                  can_leave,
                                  elim capacity [
                                    | inl alone ↦ inr (
                                      ground arith,
                                      ground (arith, eq_iff confirmation break_glass_confirmation),
                                    )
                                    | inr remains ↦ inl remains
                                  ],
                                  ground (arith, start_maintenance-changed id version p looked.1),
                                )
                          ]
          ]
        ]
      ]
