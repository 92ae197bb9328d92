-- ===== src/Controlplane/Executor/Reports.antt =====
-- How a deployment is reported at its end, and what was written by then.
use atlas_dns.Base.{
  ℕ, String, ◌≡◌, refl, ◌⊎◌, Bool, false, not, Option, List, [], ◌∷◌, ◌++◌, arith, str_eq, ltb,
  if◌then◌else◌,
}
use atlas_dns.Base.Act.{Quiet}
use atlas_dns.Domain.{Failure}
use atlas_dns.Controlplane.Model.{
  Configuration, Revision, DeploymentNode, Deployment, DeploymentStatus,
}
use atlas_dns.Controlplane.Executor.Calls.{Call, finish_deployment, Answers}
use atlas_dns.Controlplane.Executor.Tasks.{PreparedNode}
use atlas_dns.Controlplane.Executor.Endings.{
  update_tasks, fail_before_mutation, fail_node, cancel_tasks, cancel, finish_succeeded,
}
use atlas_dns.Controlplane.Executor.Nodes.{prepare_node, prepare, verify_node, apply_node}

-- The reports of a deployment's end: its status, and whether the revision is to be activated.
abbrev pub finished : {Document : Type 0} → List (Call Document) → List (DeploymentStatus × Bool)
finished [] = []
finished (finish_deployment d activate event ∷ h) = finished h ++ (d.status, activate) ∷ []
finished (_ ∷ h) = finished h

-- At most one report more than before, and then this one.
abbrev pub Reports :
    {Document : Type 0}
    → (DeploymentStatus × Bool)
    → List (Call Document)
    → List (Call Document)
    → Type 0
Reports report h after =
    (finished after ≡ finished h) ⊎ (finished after ≡ finished h ++ report ∷ [])

module _ (c : Configuration) (answers : Answers c) where
  update_tasks_unreported :
      (tasks : List DeploymentNode) → Quiet finished (update_tasks c answers tasks)
  unfolding update_tasks
  update_tasks_unreported [] h = refl
  update_tasks_unreported (task ∷ tasks) h = grind (arith, update_tasks_unreported tasks)

  cancel_tasks_unreported :
      (now : ℕ) (tasks : List DeploymentNode) → Quiet finished (cancel_tasks c answers now tasks)
  unfolding cancel_tasks
  cancel_tasks_unreported now [] h = refl
  cancel_tasks_unreported now (task ∷ tasks) h = grind (arith, cancel_tasks_unreported now tasks)

  pub prepare_node_unreported :
      (r : Revision c.Desired) (task : DeploymentNode)
      → Quiet finished (prepare_node c answers r task)
  unfolding prepare_node
  prepare_node_unreported r task h = ground arith

  pub prepare_unreported :
      (r : Revision c.Desired) (tasks : List DeploymentNode)
      → Quiet finished (prepare c answers r tasks)
  unfolding prepare
  prepare_unreported r [] h = refl
  prepare_unreported r (task ∷ tasks) h =
      grind (arith, prepare_node_unreported, prepare_unreported r tasks)

  verify_node_unreported :
      (r : Revision c.Desired) (item : PreparedNode c.Document) (task : DeploymentNode)
      → Quiet finished (verify_node c answers r item task)
  unfolding verify_node
  verify_node_unreported r item task h = ground arith

  pub apply_node_unreported :
      (r : Revision c.Desired) (item : PreparedNode c.Document)
      → Quiet finished (apply_node c answers r item)
  unfolding apply_node
  apply_node_unreported r item h = grind (arith, verify_node_unreported)

  pub cancel-Reports :
      (d : Deployment) (tasks : List DeploymentNode) (h : List (Call c.Document))
      → Reports (DeploymentStatus.cancelled, false) h (cancel c answers d tasks h).1
  unfolding cancel
  cancel-Reports d tasks h = grind (arith, cancel_tasks_unreported)

  pub fail_before_mutation-Reports :
      (d : Deployment) (code : String) (cause : Option Failure) (h : List (Call c.Document))
      → Reports (DeploymentStatus.failed, false) h (fail_before_mutation c answers d code cause h).1
  unfolding fail_before_mutation
  fail_before_mutation-Reports d code cause h = grind (arith, update_tasks_unreported)

  -- A failure is partial exactly if a node had succeeded.
  pub fail_node-Reports :
      (d : Deployment) (task : DeploymentNode) (later : List DeploymentNode) (n : ℕ) (code : String)
      (cause : Option Failure) (h : List (Call c.Document))
      → Reports
          (
            (if ltb 0 n then DeploymentStatus.partially_succeeded else DeploymentStatus.failed),
            false,
          )
          h
          (fail_node c answers d task later n code cause h).1
  unfolding fail_node
  fail_node-Reports d task later n code cause h = grind (arith, update_tasks_unreported)

  pub finish_succeeded-Reports :
      (d : Deployment) (h : List (Call c.Document))
      → Reports
          (DeploymentStatus.succeeded, not (str_eq d.origin "reconciliation"))
          h
          (finish_succeeded c answers d h).1
  unfolding finish_succeeded
  finish_succeeded-Reports d h = ground arith
