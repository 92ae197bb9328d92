-- ===== src/Controlplane/Executor/Readback.antt =====
-- A node counts as done only after its configuration was read back and found equal.
use atlas_dns.Base.{
  ◌+◌, String, ◌≡◌, refl, inl, inr, some, List, [], ◌∷◌, ◌++◌, arith, Option-cases,
}
use atlas_dns.Base.Act.{ok, Result-cases}
use atlas_dns.Domain
use atlas_dns.Domain.{NodeRecord, NodeProbeRequest, Failure}
use atlas_dns.Controlplane.Model.{
  Configuration, Revision, DeploymentNode, TaskStatus, Snapshot, managed_differences,
}
use atlas_dns.Controlplane.Executor.Calls.{
  Call, clock, update_deployment_node, update_node_convergence, apply_configuration, decrypt,
  Answers,
}
use atlas_dns.Controlplane.Executor.Tasks.{PreparedNode, applied, request_for}
use atlas_dns.Controlplane.Executor.Nodes.{verify_node, apply_node}
use atlas_dns.Controlplane.Executor.Writes.{written, target_of}

module _ (c : Configuration) (answers : Answers c) where
  -- The calls made when the snapshot is taken.
  abbrev at_observation : DeploymentNode → List (Call c.Document) → List (Call c.Document)
  at_observation task h =
      let told = update_deployment_node (record task { status = TaskStatus.verifying }) ∷ h in
      update_node_convergence task.node_id Domain.verifying (answers.now told) ∷ clock ∷ told

  -- A snapshot of the node that was taken after its target was written, and shows no difference
  -- in a managed field.
  pub record IsVerified (r : Revision c.Desired) (item : PreparedNode c.Document) : Type 0 where
    pub history : List (Call c.Document)
    pub earlier : List (String × c.Document)
    pub snapshot : Snapshot c.Document
    pub document : c.Document
    pub written_before : written history ≡ earlier ++ target_of item ∷ []
    pub taken : answers.snapshot history item.task.node_id ≡ ok snapshot
    pub has_document : snapshot.document ≡ some document
    pub equal : managed_differences c item.effective (c.project document r.schema_version) ≡ []

  verify_node_applied :
      (r : Revision c.Desired) (item : PreparedNode c.Document) (task : DeploymentNode)
      (h : List (Call c.Document))
      → (verify_node c answers r item task h).0 ≡ ok applied
      → (s : Snapshot c.Document) × (d : c.Document) × (answers.snapshot
            (at_observation task h)
            task.node_id
          ≡ ok s)
        × (s.document ≡ some d)
        × (managed_differences c item.effective (c.project d r.schema_version) ≡ [])
  unfolding verify_node
  verify_node_applied r item task h e =
      elim (Result-cases (answers.snapshot (at_observation task h) task.node_id)) [
        | inr (f, lost) ↦ absurd (ground arith)
        | inl (s, taken) ↦ elim (Option-cases s.document) [
          | inl nothing ↦ absurd (ground arith)
          | inr (d, something) ↦ (s, d, taken, something, ground arith)
        ]
      ]

  -- A node is done only if its target was written, and a snapshot of the node taken after that has
  -- a document that differs from the target in no managed field.
  pub apply_node-IsVerified :
      (r : Revision c.Desired) (item : PreparedNode c.Document) (h : List (Call c.Document))
      → (apply_node c answers r item h).0 ≡ ok applied
      → IsVerified r item
  unfolding apply_node
  apply_node-IsVerified r item h e =
      let task : DeploymentNode = record (item.task) {
        status = TaskStatus.applying;
        attempt_count = item.task.attempt_count + 1;
        started_at = some (answers.now h);
      } in
      let told = update_deployment_node task ∷ clock ∷ h in
      let shown = update_node_convergence task.node_id Domain.applying (answers.now h) ∷ told in
      let sealed = item.record_of_node.secrets.credentials in
      let opened = decrypt task.node_id sealed ∷ shown in
      elim (Result-cases (answers.credentials shown sealed)) [
        | inr (f, lost) ↦ absurd (ground arith)
        | inl (credentials, found) ↦
            let sent =
              apply_configuration (request_for item.record_of_node credentials) item.effective
              ∷ opened in
            let (s, d, taken, something, equal) =
              verify_node_applied r item task sent (ground arith) in
            record {
              history = at_observation task sent;
              earlier = written h;
              snapshot = s;
              document = d;
              written_before = refl;
              taken = taken;
              has_document = something;
              equal = equal;
            }
      ]
