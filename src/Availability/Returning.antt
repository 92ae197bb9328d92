-- ===== src/Availability/Returning.antt =====
-- internal/haoperations/service.go: when a node is returned to service.
use atlas_dns.Base.{
  ℕ, String, ◌≡◌, subst, ◌⊎◌, inl, inr, true, false, none, some, List, [], ◌∷◌, ◌++◌, arith, str_eq,
  Bool-cases, Option-cases, any, All,
}
use atlas_dns.Base.Act.{ok, Result-cases, Quiet}
use atlas_dns.Domain.{NodeRecord, Actor}
use atlas_dns.Controlplane.Model.{Snapshot}
use atlas_dns.Availability.Model.{DnsProbeResult, Check, CheckStatus, Observed}
use atlas_dns.Availability.Certificates.{return_tls_check}
use atlas_dns.Availability.Validity.{IsValidAt, return_tls_check_passes}
use atlas_dns.Availability.Calls.{Call, Answers, Run}
use atlas_dns.Availability.Calls
use atlas_dns.Availability.Maintenance.{
  node_active_dhcp, active_dhcp_nodes, new_event, runs_dhcp, or_empty,
}
use atlas_dns.Availability.Return.{
  probe_api, run_checks, refuse_return, end_maintenance, return_to_service,
}
use atlas_dns.Availability.Checks.{
  blocks, or_unverified, api_check, observation_check, dns_check, drift_check, dhcp_check,
  to_option,
}
use atlas_dns.Availability.Changes.{changed}

abbrev pub Passes : Check → Type 0
Passes c = (c.required ≡ false) ⊎ (c.status ≡ CheckStatus.pass)

any-Passes : (cs : List Check) → any blocks cs ≡ false → All Passes cs
any-Passes [] e = tt
any-Passes (c ∷ cs) e = (ground arith, any-Passes cs (ground arith))

module _ (answers : Answers) where
  probe_api-Quiet : (id : String) (found : NodeRecord) → Quiet changed (probe_api answers id found)
  unfolding probe_api changed
  probe_api-Quiet id found h = ground arith

  node_active_dhcp-Quiet :
      (cluster id : String) → Quiet changed (node_active_dhcp answers cluster id)
  unfolding node_active_dhcp changed
  node_active_dhcp-Quiet cluster id h = ground arith

  active_dhcp_nodes-Quiet : (cluster : String) → Quiet changed (active_dhcp_nodes answers cluster)
  unfolding active_dhcp_nodes changed
  active_dhcp_nodes-Quiet cluster h = ground arith

  run_checks-Quiet :
      (id : String) (found : NodeRecord) → Quiet changed (run_checks answers id found)
  unfolding run_checks changed
  run_checks-Quiet id found h =
      grind (arith, probe_api-Quiet, node_active_dhcp-Quiet, active_dhcp_nodes-Quiet)

  refuse_return-Quiet :
      (actor : Actor) (id : String) (found : NodeRecord) (checks : List Check)
      → Quiet changed (refuse_return answers actor id found checks)
  unfolding refuse_return new_event changed
  refuse_return-Quiet actor id found checks h = ground arith

  end_maintenance-changed :
      (id : String) (version : ℕ) (checks : List Check) (h : List Call)
      → changed (end_maintenance answers id version checks h).1
        ≡ changed h ++ (id, false, version) ∷ []
  unfolding end_maintenance new_event changed
  end_maintenance-changed id version checks h = ground arith

  -- What was seen of the node when none of the checks blocks: its API answers, its observation
  -- succeeded and shows TLS disabled or in force, and it answers its DNS probe.
  abbrev pub Proved : String → NodeRecord → List Call → Type 0
  Proved id found h =
      let api = probe_api answers id found h in
      (api.0 ≡ ok tt)
      × ((shot : Snapshot Observed) × (document : Observed) × (answers.snapshot api.1 ≡ ok shot)
          × (str_eq shot.collection_status "succeeded" ≡ true)
          × (shot.document ≡ some document)
          × ((document.tls.enabled ≡ false)
              ⊎ ((at : List Call) × IsValidAt answers.clocks (answers.now at) document.tls)))
      × ((p : DnsProbeResult) × (answers.probe (Calls.observe id ∷ api.1) ≡ (p, none))
          × (str_eq p.status "healthy" ≡ true))

  run_checks-Proved :
      (id : String) (found : NodeRecord) (h : List Call) (checks : List Check)
      → (run_checks answers id found h).0 ≡ ok checks
      → any blocks checks ≡ false
      → Proved id found h
  unfolding run_checks node_active_dhcp
  run_checks-Proved id found h checks e free =
      let api = probe_api answers id found h in
      let seen = Calls.observe id ∷ api.1 in
      let cluster = found.node.cluster_id in
      let counting =
        Calls.latest_successful_snapshots cluster
        ∷ Calls.cluster_by_id cluster
        ∷ Calls.open_drift_exists id
        ∷ Calls.probe_node id
        ∷ seen in
      let counted = active_dhcp_nodes answers cluster counting in
      let shot = answers.snapshot api.1 in
      let tls = return_tls_check answers.clocks (answers.now counted.1) (to_option shot) in
      let probed = answers.probe seen in
      let told = Calls.probe_node id ∷ seen in
      let drift = answers.open_drift id told in
      let snapshots =
        answers.successful_snapshots cluster
          (Calls.cluster_by_id cluster ∷ Calls.open_drift_exists id ∷ told) in
      let collectors = answers.collector_checks (Calls.clock ∷ counted.1) in
      let list : List Check =
        api_check api.0
        ∷ observation_check shot
        ∷ dns_check probed
        ∷ drift_check found.node drift (answers.cluster (Calls.open_drift_exists id ∷ told))
        ∷ dhcp_check (runs_dhcp id (or_empty snapshots)) counted.0
        ∷ tls
        ∷ or_unverified collectors in
      let same_list : checks ≡ list = ground arith in
      let free_list : any blocks list ≡ false =
        subst (λ cs. any blocks cs ≡ false) same_list free in
      let tls_fine : (tls.required ≡ false) ⊎ (tls.status ≡ CheckStatus.pass) = ground arith in
      let api_fine : api.0 ≡ ok tt = elim (Result-cases api.0) [
        | inr (e, lost) ↦ ground arith
        | inl (u, fine) ↦ ground arith
      ] in
      elim (Result-cases shot) [
        | inr (e, lost) ↦ ground arith
        | inl (s, got) ↦ elim (Option-cases probed.1) [
          | inr (e, lost) ↦ absurd (ground arith)
          | inl answered ↦
              let (shot', document, same, has, valid) =
                return_tls_check_passes answers.clocks (answers.now counted.1) (to_option shot)
                  tls_fine in
              (
                api_fine,
                (
                  s,
                  document,
                  got,
                  ground arith,
                  ground arith,
                  elim valid [ inl off ↦ inl off | inr inforce ↦ inr (counted.1, inforce) ],
                ),
                (probed.0, (λ i. (probed.0, answered i)), ground arith),
              )
        ]
      ]

  -- A node's maintenance is ended only after checks of which none blocks: of a node that was in
  -- maintenance, whose API answered, whose observation then succeeded and showed TLS disabled or
  -- its certificate, chain and key valid, a pair and in force, and whose DNS probe was healthy. It
  -- is ended at most once, and with the version that was given.
  pub return_to_service-changed :
      (actor : Actor) (id : String) (version : ℕ) (h : List Call)
      → let after = (return_to_service answers actor id version h).1 in
        (changed after ≡ changed h)
        ⊎ ((found : NodeRecord) × (checks : List Check) × (answers.node_record h ≡ ok found)
            × (found.node.maintenance_mode ≡ true)
            × ((run_checks answers id found (Calls.node_record_by_id id ∷ h)).0 ≡ ok checks)
            × All Passes checks
            × Proved id found (Calls.node_record_by_id id ∷ h)
            × (changed after ≡ changed h ++ (id, false, version) ∷ []))
  unfolding return_to_service changed
  return_to_service-changed actor id version h =
      let asked = Calls.node_record_by_id id ∷ h in
      elim (Result-cases (answers.node_record h)) [
        | inr (e, lost) ↦ inl (ground arith)
        | inl (found, got) ↦
            let ran = run_checks answers id found asked in
            let quiet = run_checks-Quiet id found asked in
            elim (Bool-cases found.node.maintenance_mode) [
              | inr serving ↦ inl (ground arith)
              | inl resting ↦ elim (Result-cases ran.0) [
                | inr (e, lost) ↦ inl (ground arith)
                | inl (checks, saw) ↦ elim (Bool-cases (any blocks checks)) [
                  | inl blocked ↦
                      inl (ground (arith, refuse_return-Quiet actor id found checks ran.1))
                  | inr free ↦ inr (
                    found,
                    checks,
                    got,
                    resting,
                    saw,
                    any-Passes checks free,
                    run_checks-Proved id found asked checks saw free,
                    ground (arith, end_maintenance-changed id version checks ran.1),
                  )
                ]
              ]
            ]
      ]
