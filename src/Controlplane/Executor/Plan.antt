-- ===== src/Controlplane/Executor/Plan.antt =====
-- What has passed when all targets of a deployment are prepared.
use atlas_dns.Base.{
  String, ◌≡◌, refl, ◌⊎◌, inl, inr, true, false, Option, none, some, List, [], ◌∷◌, arith,
  Option-cases, is_empty,
}
use atlas_dns.Base.Act.{Result, ok, Result-cases}
use atlas_dns.Domain.{Failure}
use atlas_dns.Controlplane.Model.{
  Configuration, Revision, DeploymentNode, Snapshot, immutable_node_differences,
}
use atlas_dns.Controlplane.Executor.Calls.{Call, Answers, node_record_by_id}
use atlas_dns.Controlplane.Executor.Tasks.{
  PreparedNode, Checked, refused, passed, is_mutable, missing, seen, observation,
}
use atlas_dns.Controlplane.Executor.Nodes.{prepare_node, prepare}

pub Checked-cases :
    {A : Type 0} (o : Checked A)
    → ((a : A) × (o ≡ passed a))
      ⊎ ((code : String) × (cause : Option Failure) × (o ≡ refused code cause))
Checked-cases (refused code cause) = inr (code, cause, refl)
Checked-cases (passed a) = inl (a, refl)

module _ (c : Configuration) (answers : Answers c) where
  -- The node could be changed at `h`, the revision is no legacy record, the document to write is
  -- the node's effective one, and the node was observed then, with the same values in each field
  -- that no deployment may change.
  abbrev pub Passes :
      Revision c.Desired
      → DeploymentNode
      → List (Call c.Document)
      → PreparedNode c.Document
      → Type 0
  Passes r task h item =
      (item.task ≡ task)
      × (answers.node_record h task.node_id ≡ ok item.record_of_node)
      × (is_mutable item.record_of_node ≡ true)
      × (c.is_legacy_converted r.document ≡ false)
      × (c.effective r.document task.node_id ≡ ok item.effective)
      × ((shot : Snapshot c.Document) × (observed : c.Document) × (answers.snapshot
              (node_record_by_id task.node_id ∷ h) task.node_id
            ≡ ok shot)
          × (shot.document ≡ some observed)
          × (is_empty
                (immutable_node_differences c item.effective (c.project observed r.schema_version))
              ≡ true))

  -- The prepared nodes are the deployment's tasks in their order, and each passed the checks that
  -- come before the first change, made one after the other from `h` on.
  abbrev pub IsPlan :
      Revision c.Desired
      → List DeploymentNode
      → List (Call c.Document)
      → List (PreparedNode c.Document)
      → Type 0
  IsPlan r [] h [] = Unit
  IsPlan r (task ∷ tasks) h (item ∷ items) =
      Passes r task h item × IsPlan r tasks (prepare_node c answers r task h).1 items
  IsPlan r _ h _ = ⊥

  observation-cases :
      (shot : Result Failure (Snapshot c.Document))
      → ((cause : Option Failure) × (observation shot ≡ missing cause))
        ⊎ ((s : Snapshot c.Document) × (d : c.Document) × (shot ≡ ok s)
            × (s.document ≡ some d)
            × (observation shot ≡ seen s d))
  observation-cases shot = elim (Result-cases shot) [
    | inr (e, lost) ↦ inl (some e, ground arith)
    | inl (s, taken) ↦ elim (Option-cases s.document) [
      | inl nothing ↦ inl (none, ground arith)
      | inr (d, has) ↦ inr (s, d, taken, has, ground arith)
    ]
  ]

  prepare_node-Passes :
      (r : Revision c.Desired) (task : DeploymentNode) (h : List (Call c.Document))
      (item : PreparedNode c.Document)
      → (prepare_node c answers r task h).0 ≡ ok (passed item)
      → Passes r task h item
  unfolding prepare_node
  prepare_node-Passes r task h item e =
      elim (observation-cases
        (answers.snapshot (node_record_by_id task.node_id ∷ h) task.node_id)) [
          | inl (cause, lost) ↦ absurd (ground arith)
          | inr (s, d, taken, has, shown) ↦ (
            ground arith,
            ground arith,
            ground arith,
            ground arith,
            ground arith,
            (s, d, taken, has, ground arith),
          )
        ]

  pub prepare-IsPlan :
      (r : Revision c.Desired) (tasks : List DeploymentNode) (h : List (Call c.Document))
      (items : List (PreparedNode c.Document))
      → (prepare c answers r tasks h).0 ≡ ok (passed items)
      → IsPlan r tasks h items
  unfolding prepare
  prepare-IsPlan r [] h [] e = tt
  prepare-IsPlan r [] h (item ∷ items) e = cc
  prepare-IsPlan r (task ∷ tasks) h [] e = ground arith
  prepare-IsPlan r (task ∷ tasks) h (item ∷ items) e =
      let step = prepare_node c answers r task h in
      let rest = prepare c answers r tasks step.1 in
      let here : step.0 ≡ ok (passed item) = ground arith in
      let later : rest.0 ≡ ok (passed items) = ground arith in
      (prepare_node-Passes r task h item here, prepare-IsPlan r tasks step.1 items later)
