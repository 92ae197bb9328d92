-- ===== src/Controlplane/Executor/Writes.antt =====
-- What is written to the nodes: in which order, how much, and what is never written.
use atlas_dns.Base.{ℕ, String, ◌≡◌, refl, ◌≢◌, ◌⊎◌, Option, List, [], ◌∷◌, ◌++◌, arith}
use atlas_dns.Base.Act.{ok, Quiet}
use atlas_dns.Domain.{Failure}
use atlas_dns.Controlplane.Model.{Configuration, Revision, DeploymentNode, Deployment}
use atlas_dns.Controlplane.Executor.Calls.{Call, apply_configuration, Answers}
use atlas_dns.Controlplane.Executor.Tasks.{PreparedNode, applied}
use atlas_dns.Controlplane.Executor.Endings.{
  update_tasks, fail_before_mutation, fail_node, cancel_tasks, cancel, finish_succeeded,
}
use atlas_dns.Controlplane.Executor.Nodes.{prepare_node, prepare, verify_node, apply_node}

-- The configurations written, in the order of the writes, each with the node's address.
abbrev pub written : {Document : Type 0} → List (Call Document) → List (String × Document)
written [] = []
written (apply_configuration request document ∷ h) = written h ++ (request.base_url, document) ∷ []
written (_ ∷ h) = written h

-- What is to be written to a prepared node.
abbrev pub target_of : {Document : Type 0} → PreparedNode Document → String × Document
target_of item = (item.record_of_node.node.base_url, item.effective)

module _ (c : Configuration) (answers : Answers c) where
  pub update_tasks-Quiet :
      (tasks : List DeploymentNode) → Quiet written (update_tasks c answers tasks)
  unfolding update_tasks
  update_tasks-Quiet [] h = refl
  update_tasks-Quiet (task ∷ tasks) h = grind (arith, update_tasks-Quiet tasks)

  pub cancel_tasks-Quiet :
      (now : ℕ) (tasks : List DeploymentNode) → Quiet written (cancel_tasks c answers now tasks)
  unfolding cancel_tasks
  cancel_tasks-Quiet now [] h = refl
  cancel_tasks-Quiet now (task ∷ tasks) h = grind (arith, cancel_tasks-Quiet now tasks)

  pub cancel-Quiet :
      (d : Deployment) (tasks : List DeploymentNode) → Quiet written (cancel c answers d tasks)
  unfolding cancel
  cancel-Quiet d tasks h = grind (arith, cancel_tasks-Quiet)

  pub prepare_node-Quiet :
      (r : Revision c.Desired) (task : DeploymentNode)
      → Quiet written (prepare_node c answers r task)
  unfolding prepare_node
  prepare_node-Quiet r task h = ground arith

  pub fail_before_mutation-Quiet :
      (d : Deployment) (code : String) (cause : Option Failure)
      → Quiet written (fail_before_mutation c answers d code cause)
  unfolding fail_before_mutation
  fail_before_mutation-Quiet d code cause h = grind (arith, update_tasks-Quiet)

  pub fail_node-Quiet :
      (d : Deployment) (task : DeploymentNode) (later : List DeploymentNode) (n : ℕ) (code : String)
      (cause : Option Failure)
      → Quiet written (fail_node c answers d task later n code cause)
  unfolding fail_node
  fail_node-Quiet d task later n code cause h = grind (arith, update_tasks-Quiet)

  pub finish_succeeded-Quiet : (d : Deployment) → Quiet written (finish_succeeded c answers d)
  unfolding finish_succeeded
  finish_succeeded-Quiet d h = ground arith

  pub prepare-Quiet :
      (r : Revision c.Desired) (tasks : List DeploymentNode)
      → Quiet written (prepare c answers r tasks)
  unfolding prepare
  prepare-Quiet r [] h = refl
  prepare-Quiet r (task ∷ tasks) h = grind (arith, prepare_node-Quiet, prepare-Quiet r tasks)

  pub verify_node-Quiet :
      (r : Revision c.Desired) (item : PreparedNode c.Document) (task : DeploymentNode)
      → Quiet written (verify_node c answers r item task)
  unfolding verify_node
  verify_node-Quiet r item task h = ground arith

  -- The work on one node writes its target once, or nothing; it goes on to the next only if it
  -- wrote it.
  pub apply_node_writes :
      (r : Revision c.Desired) (item : PreparedNode c.Document) (h : List (Call c.Document))
      → let (result, after) = apply_node c answers r item h in
        (written after ≡ written h ++ target_of item ∷ [])
        ⊎ ((written after ≡ written h) × (result ≢ ok applied))
  unfolding apply_node
  apply_node_writes r item h = grind (arith, verify_node-Quiet)
