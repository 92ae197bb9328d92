-- ===== src/Controlplane/Outcome.antt =====
-- What a whole run of a deployment writes, and how it is reported.
use atlas_dns.Base.{
  ℕ, suc, ◌+◌, ◌≤◌, ◌<◌, String, ◌≡◌, refl, ◌⊎◌, inl, inr, false, not, ◌||◌, Option, some, List, [],
  ◌∷◌, ◌++◌, map, append-nil, append_assoc, arith, str_eq, Bool-cases, length, take, drop, All,
}
use atlas_dns.Base.Act.{ok, Result-cases}
use atlas_dns.Domain.{Failure}
use atlas_dns.Controlplane.Model.{
  Configuration, Revision, DeploymentNode, Deployment, DeploymentStatus,
}
use atlas_dns.Controlplane.Executor.Calls.{
  Call, deployment_by_id, revision_by_id, set_deployment_running, Answers,
}
use atlas_dns.Controlplane.Executor.Tasks.{PreparedNode, NodeOutcome, broke, applied, is_cancelling}
use atlas_dns.Controlplane.Executor.Nodes.{prepare, apply_node}
use atlas_dns.Controlplane.Executor.Writes.{
  written, target_of, cancel-Quiet, prepare-Quiet, fail_before_mutation-Quiet, fail_node-Quiet,
  finish_succeeded-Quiet, apply_node_writes,
}
use atlas_dns.Controlplane.Executor.Reports.{
  finished, Reports, prepare_unreported, apply_node_unreported, cancel-Reports,
  fail_before_mutation-Reports, fail_node-Reports, finish_succeeded-Reports,
}
use atlas_dns.Controlplane.Executor.Plan.{IsPlan, Checked-cases, prepare-IsPlan}
use atlas_dns.Controlplane.Executor.Readback.{IsVerified, apply_node-IsVerified}
use atlas_dns.Controlplane.Executor.{apply_nodes, deploy, execute}

module _ (c : Configuration) where
  -- How a run that writes `k` of the prepared nodes, after `n` others, may be reported. A success
  -- is reported only with evidence that each node was verified.
  abbrev pub Verdict :
      Deployment → ℕ → ℕ → ℕ → Type 0 → List (Call c.Document) → List (Call c.Document) → Type 0
  Verdict d total n k AllVerified h after =
      (finished after ≡ finished h)
      ⊎ ((finished after
            ≡ finished h
              ++ (DeploymentStatus.succeeded, not (str_eq d.origin "reconciliation")) ∷ [])
          × (k ≡ total)
          × AllVerified)
      ⊎ ((finished after ≡ finished h ++ (DeploymentStatus.failed, false) ∷ []) × (n ≡ 0) × (k ≤ 1))
      ⊎ ((finished after ≡ finished h ++ (DeploymentStatus.partially_succeeded, false) ∷ [])
          × (0 < n + k))
      ⊎ (finished after ≡ finished h ++ (DeploymentStatus.cancelled, false) ∷ [])

-- An outcome, with its equation.
pub NodeOutcome-cases :
    (o : NodeOutcome)
    → (o ≡ applied)
      ⊎ ((task : DeploymentNode) × (code : String) × (cause : Option Failure) × (o
            ≡ broke task code cause))
NodeOutcome-cases (broke task code cause) = inr (task, code, cause, refl)
NodeOutcome-cases applied = inl refl

module _ (c : Configuration) (answers : Answers c) where
  -- What a list of writes and a verdict say together, for `k` writes.
  abbrev pub Outcome :
      Deployment
      → Revision c.Desired
      → List (PreparedNode c.Document)
      → ℕ
      → List (Call c.Document)
      → List (Call c.Document)
      → Type 0
  Outcome d r items n h after =
      (k : ℕ) × (written after ≡ written h ++ take k (map target_of items))
      × (k ≤ length items)
      × Verdict c d (length items) n k (All (IsVerified c answers r) items) h after

  -- The loop writes a prefix of the prepared nodes, in their order.
  pub apply_nodes-Outcome :
      (d : Deployment) (r : Revision c.Desired) (items : List (PreparedNode c.Document)) (i n : ℕ)
      (h : List (Call c.Document))
      → Outcome d r items n h (apply_nodes c answers d r items i n h).1
  unfolding apply_nodes
  apply_nodes-Outcome d r [] i n h = (
    0,
    ground (arith, finish_succeeded-Quiet c answers d h, append-nil (written h)),
    omega arith,
    ground (arith, finish_succeeded-Reports c answers d h),
  )
  apply_nodes-Outcome d r (item ∷ items) i n h =
      let asked = deployment_by_id d.id ∷ h in
      let step = apply_node c answers r item asked in
      let unreported = apply_node_unreported c answers r item asked in
      elim (Result-cases (answers.deployment h d.id)) [
        | inr (e, lost) ↦ (0, ground (arith, append-nil (written h)), omega arith, ground arith)
        | inl (fresh, found) ↦ elim (Bool-cases fresh.cancel_requested) [
          | inl stop ↦ (
            0,
            ground (
              arith,
              append-nil (written h),
              cancel-Quiet c answers fresh (drop i fresh.nodes) asked,
            ),
            omega arith,
            ground (arith, cancel-Reports c answers fresh (drop i fresh.nodes) asked),
          )
          | inr go ↦ elim (Result-cases step.0) [
            | inr (e, lost) ↦ elim (apply_node_writes c answers r item asked) [
              | inl one ↦ (1, ground arith, omega arith, ground arith)
              | inr (zero_writes, not_applied) ↦
                  (0, ground (arith, append-nil (written h)), omega arith, ground arith)
            ]
            | inl (outcome, got) ↦ elim (NodeOutcome-cases outcome) [
              | inl good ↦
                  let (k, wrote, bound, verdict) =
                    apply_nodes-Outcome d r items (i + 1) (n + 1) step.1 in
                  let verified = apply_node-IsVerified c answers r item asked (ground arith) in
                  (
                    suc k,
                    ground (
                      arith,
                      append_assoc (written h) (target_of item ∷ []) (take k (map target_of items)),
                      apply_node_writes c answers r item asked,
                    ),
                    omega arith,
                    ground arith,
                  )
              | inr (task, code, cause, bad) ↦
                  let later = map (λ (j : PreparedNode c.Document). j.task) items in
                  let quiet = fail_node-Quiet c answers d task later n code cause step.1 in
                  let report = fail_node-Reports c answers d task later n code cause step.1 in
                  elim (apply_node_writes c answers r item asked) [
                    | inl one ↦ (1, ground arith, omega arith, ground arith)
                    | inr (zero_writes, not_applied) ↦
                        (0, ground (arith, append-nil (written h)), omega arith, ground arith)
                  ]
            ]
          ]
        ]
      ]

  -- What `deploy` does: nothing is written and the report, if one is made, is a failure, or the
  -- loop runs over a plan.
  deploy-Outcome :
      (d : Deployment) (r : Revision c.Desired) (h : List (Call c.Document))
      → let after = (deploy c answers d r h).1 in
        ((written after ≡ written h) × Reports (DeploymentStatus.failed, false) h after)
        ⊎ ((items : List (PreparedNode c.Document)) × IsPlan c answers r d.nodes h items
            × Outcome d r items 0 h after)
  unfolding deploy
  deploy-Outcome d r h =
      let checks = prepare c answers r d.nodes h in
      let quiet = prepare-Quiet c answers r d.nodes h in
      let unreported = prepare_unreported c answers r d.nodes h in
      elim (Result-cases checks.0) [
        | inr (e, lost) ↦ inl (ground arith, ground arith)
        | inl (checked, got) ↦ elim (Checked-cases checked) [
          | inr (code, cause, no_go) ↦ inl (
            ground (arith, fail_before_mutation-Quiet c answers d code cause checks.1),
            ground (arith, fail_before_mutation-Reports c answers d code cause checks.1),
          )
          | inl (items, go) ↦
              let running = set_deployment_running d.id ∷ checks.1 in
              let plan = prepare-IsPlan c answers r d.nodes h items (ground arith) in
              let (k, wrote, bound, verdict) = apply_nodes-Outcome d r items 0 0 running in
              elim (Result-cases (answers.done checks.1)) [
                | inr (e, lost) ↦ inl (ground arith, ground arith)
                | inl (u, started) ↦ inr (items, plan, (k, ground arith, bound, ground arith))
              ]
        ]
      ]

  -- A run of a deployment, whatever the collaborators answer and whoever changes what they answer
  -- in between, is one of two. Either nothing is written to any node, and the deployment is
  -- reported cancelled or failed if it is reported at all; or it was not cancelled, every one of
  -- its tasks passed the checks that come first, each on what was answered then (the node may be
  -- changed, it was observed, and no field differs that a deployment may not change), and a prefix of the tasks is written in their
  -- order, each with the node's own effective document. Then the report, at most one, is
  -- succeeded only if all are written and each was then read
  -- back without a difference in a managed field; failed only if at most the first is; partially succeeded
  -- only if at least one is; else it is cancelled. Only a success can activate the revision, and
  -- only where the deployment's origin is not a reconciliation.
  pub execute-Outcome :
      (id : String) (h : List (Call c.Document))
      → let after = (execute c answers id h).1 in
        ((written after ≡ written h)
          × (Reports (DeploymentStatus.cancelled, false) h after
              ⊎ Reports (DeploymentStatus.failed, false) h after))
        ⊎ ((d : Deployment) × (r : Revision c.Desired) × (items : List (PreparedNode c.Document))
            × (answers.deployment h id ≡ ok d)
            × (d.cancel_requested ≡ false)
            × (answers.revision (deployment_by_id id ∷ h) d.revision_id ≡ ok r)
            × IsPlan c answers r d.nodes
                (revision_by_id d.revision_id ∷ deployment_by_id id ∷ h)
                items
            × Outcome d r items 0 h after)
  unfolding execute
  execute-Outcome id h =
      let asked = deployment_by_id id ∷ h in
      elim (Result-cases (answers.deployment h id)) [
        | inr (e, lost) ↦ inl (ground arith, ground arith)
        | inl (d, found) ↦ elim (Bool-cases (d.cancel_requested || is_cancelling d.status)) [
          | inl stop ↦ inl (
            ground (arith, cancel-Quiet c answers d d.nodes asked),
            ground (arith, cancel-Reports c answers d d.nodes asked),
          )
          | inr go ↦
              let searched = revision_by_id d.revision_id ∷ asked in
              elim (Result-cases (answers.revision asked d.revision_id)) [
                | inr (e, lost) ↦ inl (
                  ground (
                    arith,
                    fail_before_mutation-Quiet c answers d "REVISION_UNAVAILABLE" (some e) searched,
                  ),
                  ground (
                    arith,
                    fail_before_mutation-Reports c answers d "REVISION_UNAVAILABLE" (some e)
                        searched,
                  ),
                )
                | inl (r, got) ↦ elim (deploy-Outcome d r searched) [
                  | inl (quiet, report) ↦ inl (ground arith, ground arith)
                  | inr (items, plan, (k, wrote, bound, verdict)) ↦ inr (
                    d,
                    r,
                    items,
                    found,
                    ground arith,
                    got,
                    plan,
                    (k, ground arith, bound, ground arith),
                  )
                ]
              ]
        ]
      ]
