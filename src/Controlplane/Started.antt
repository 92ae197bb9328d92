-- ===== src/Controlplane/Started.antt =====
-- internal/controlplane/service.go: when a deployment is created, and which.
use atlas_dns.Base.{
  ℕ, String, ◌≡◌, refl, sym, subst, ◌⊎◌, inl, inr, true, false, not, ◌&&◌, ◌||◌, Option, none, List,
  [], ◌∷◌, arith, str_eq, Bool-cases, length, is_empty,
}
use atlas_dns.Base.Act.{ok, Result-cases, Quiet}
use atlas_dns.Domain.{Actor, Node, MetaValue, text, number}
use atlas_dns.Configuration.Model.{DesiredDocument}
use atlas_dns.Configuration.Validate.Checks.{ValidationIssue}
use atlas_dns.Configuration.Validate.Deployable.{IsDeployable}
use atlas_dns.Controlplane.Model.{
  Revision, Deployment, DeploymentNode, DeploymentStatus, TaskStatus,
}
use atlas_dns.Controlplane.Targets.{ordered_targets}
use atlas_dns.Controlplane.Preview.{PreviewNode, Preview, enabled_node_ids}
use atlas_dns.Controlplane.PreviewDocument.{Seen, preview_of}
use atlas_dns.Controlplane.Starting.{
  Call, Answers, Documents, Run, task_of, audit, catalogue_issues, preview_document, make_tasks,
  build_deployment, find_revision, request_for, user_of, deployment_action, start_valid,
  start_known, start_deployment,
}
use atlas_dns.Controlplane.Starting
use atlas_dns.Controlplane.Created.{ArePlanned, preview_of-ArePlanned}

unfoldable pub created : List Call → List Deployment
created [] = []
created (Call.create_deployment d _ ∷ h) = d ∷ created h
created (_ ∷ h) = created h

module _ (c : Documents) (answers : Answers) where
  -- The task does to a node what the preview says of it, and waits.
  abbrev pub TaskOf : DeploymentNode → PreviewNode → Type 0
  TaskOf task v =
      (task.node_id ≡ v.node_id)
      × (task.position ≡ v.position)
      × (task.effective_hash ≡ v.effective_hash)
      × (task.status ≡ TaskStatus.pending)

  abbrev pub TasksOf : List DeploymentNode → List PreviewNode → Type 0
  TasksOf [] [] = Unit
  TasksOf [] (v ∷ vs) = ⊥
  TasksOf (task ∷ tasks) [] = ⊥
  TasksOf (task ∷ tasks) (v ∷ vs) = TaskOf task v × TasksOf tasks vs

  make_tasks-Quiet :
      (id : String) (vs : List PreviewNode) → Quiet created (make_tasks c answers id vs)
  unfolding make_tasks created
  make_tasks-Quiet id [] h = refl
  make_tasks-Quiet id (v ∷ vs) h = grind (arith, make_tasks-Quiet id vs)

  make_tasks-TasksOf :
      (id : String) (vs : List PreviewNode) (h : List Call) (tasks : List DeploymentNode)
      → (make_tasks c answers id vs h).0 ≡ ok tasks
      → TasksOf tasks vs
  unfolding make_tasks
  make_tasks-TasksOf id [] h [] e = tt
  make_tasks-TasksOf id [] h (x ∷ xs) e = ground arith
  make_tasks-TasksOf id (v ∷ vs) h tasks e =
      let later = make_tasks c answers id vs (Starting.new_id ∷ h) in
      elim (Result-cases (answers.id h)) [
        | inr (f, lost) ↦ absurd (ground arith)
        | inl (i, named) ↦ elim (Result-cases later.0) [
          | inr (f, lost) ↦ absurd (ground arith)
          | inl (rest, made) ↦
              let others = make_tasks-TasksOf id vs (Starting.new_id ∷ h) rest made in
              let same : task_of id v i ∷ rest ≡ tasks = ground arith in
              subst (λ xs. TasksOf xs (v ∷ vs)) same ((refl, refl, refl, refl), others)
        ]
      ]

  audit-Quiet :
      (actor : Option Actor) (action resource_type resource request : String)
      (metadata : List (String × MetaValue)) (at : ℕ)
      → Quiet created (audit c answers actor action resource_type resource request metadata at)
  unfolding audit created
  audit-Quiet actor action resource_type resource request metadata at h = ground arith

  preview_document-Quiet :
      (cluster revision : String) (d : DesiredDocument) (selected : List String)
      → Quiet created (preview_document c answers cluster revision d selected)
  unfolding preview_document catalogue_issues created
  preview_document-Quiet cluster revision d selected h = ground arith

  -- The deployment that was asked for, with one task for each node of the preview, in their order.
  abbrev pub Builds : Option Actor → String → String → Preview → Deployment → Type 0
  Builds actor cluster revision preview d =
      (d.cluster_id ≡ cluster)
      × (d.revision_id ≡ revision)
      × (d.status ≡ DeploymentStatus.queued)
      × TasksOf d.nodes preview.nodes

  build_deployment-Builds :
      (actor : Option Actor) (cluster revision origin : String) (rollback_of : Option String)
      (preview : Preview) (h : List Call)
      → let after =
          (build_deployment c answers actor cluster revision origin rollback_of preview h).1 in
        (created after ≡ created h)
        ⊎ ((d : Deployment) × Builds actor cluster revision preview d
            × (created after ≡ d ∷ created h))
  unfolding build_deployment created
  build_deployment-Builds actor cluster revision origin rollback_of preview h =
      elim (Result-cases (answers.id h)) [
        | inr (f, lost) ↦ inl (ground arith)
        | inl (id, named) ↦
            let timed = Starting.clock ∷ Starting.new_id ∷ h in
            elim (Result-cases (answers.id timed)) [
              | inr (f, lost) ↦ inl (ground arith)
              | inl (fresh, drawn) ↦
                  let ready = Starting.new_id ∷ timed in
                  let made = make_tasks c answers id preview.nodes ready in
                  let quiet = make_tasks-Quiet id preview.nodes ready in
                  elim (Result-cases made.0) [
                    | inr (f, lost) ↦ inl (ground arith)
                    | inl (tasks, all_made) ↦
                        let now = answers.now (Starting.new_id ∷ h) in
                        let request = request_for actor fresh in
                        let metadata =
                          ("clusterId", text cluster)
                          ∷ ("revisionId", text revision)
                          ∷ ("targetCount", number (length tasks))
                          ∷ [] in
                        let told =
                          audit c answers actor (deployment_action origin) "deployment" id request
                            metadata now made.1 in
                        let silent =
                          audit-Quiet actor (deployment_action origin) "deployment" id request
                            metadata now made.1 in
                        let d : Deployment = record {
                          id = id;
                          cluster_id = cluster;
                          revision_id = revision;
                          status = DeploymentStatus.queued;
                          strategy = "sequential";
                          failure_policy = "stop";
                          origin = origin;
                          rollback_of_revision_id = rollback_of;
                          requested_by = user_of actor;
                          request_id = request;
                          cancel_requested = false;
                          error_code = "";
                          requested_at = now;
                          started_at = none;
                          completed_at = none;
                          archived_at = none;
                          archived_by = none;
                          nodes = tasks;
                        } in
                        elim (Result-cases told.0) [
                          | inr (f, lost) ↦ inl (ground arith)
                          | inl (event, written) ↦ inr (
                            d,
                            (
                              refl,
                              refl,
                              refl,
                              make_tasks-TasksOf id preview.nodes ready tasks all_made,
                            ),
                            ground arith,
                          )
                        ]
                  ]
            ]
      ]

  -- What a preview of the document reads from `h` on: the nodes of the cluster, and after the
  -- catalogue was asked the latest snapshots and the profiles of the same cluster.
  abbrev pub Saw : String → DesiredDocument → List Call → List Node → Seen → Type 0
  Saw cluster document h nodes seen =
      let asked = catalogue_issues c answers cluster document (Starting.list_nodes cluster ∷ h) in
      (answers.nodes cluster h ≡ ok nodes)
      × (answers.snapshots cluster asked.1 ≡ ok seen.snapshots)
      × (answers.profiles cluster (Starting.latest_snapshots cluster ∷ asked.1) ≡ ok seen.profiles)

  -- A preview that was made is made of the nodes and of what was seen of them.
  preview_document-of :
      (cluster revision : String) (d : DesiredDocument) (selected : List String) (h : List Call)
      (preview : Preview)
      → (preview_document c answers cluster revision d selected h).0 ≡ ok preview
      → (nodes : List Node) × (catalogue : List ValidationIssue) × (seen : Seen) × Saw cluster d h
          nodes seen
        × (preview_of c.marshal c.texts c.hash c.net revision d nodes
              (ordered_targets d nodes selected)
              catalogue
              seen
            ≡ ok preview)
  unfolding preview_document
  preview_document-of cluster revision d selected h preview e =
      let listed = Starting.list_nodes cluster ∷ h in
      let asked = catalogue_issues c answers cluster d listed in
      let shot = Starting.latest_snapshots cluster ∷ asked.1 in
      elim (Result-cases (answers.nodes cluster h)) [
        | inr (f, lost) ↦ absurd (ground arith)
        | inl (nodes, has_nodes) ↦ elim (Result-cases asked.0) [
          | inr (f, lost) ↦ absurd (ground arith)
          | inl (catalogue, checked) ↦ elim (Result-cases (answers.snapshots cluster asked.1)) [
            | inr (f, lost) ↦ absurd (ground arith)
            | inl (snapshots, taken) ↦ elim (Result-cases (answers.profiles cluster shot)) [
              | inr (f, lost) ↦ absurd (ground arith)
              | inl (profiles, known) ↦ (
                nodes,
                catalogue,
                record { snapshots = snapshots; profiles = profiles },
                (has_nodes, taken, known),
                ground arith,
              )
            ]
          ]
        ]
      ]

  -- What a deployment of a document to the selected nodes is based on, by the reads from `h` on.
  abbrev pub Based : DesiredDocument → List String → List Call → Deployment → Type 0
  Based document selected h d =
      (nodes : List Node) × (seen : Seen) × (preview : Preview) × Saw d.cluster_id document h nodes
        seen
      × IsDeployable c.net c.texts document (enabled_node_ids nodes)
      × ArePlanned c.marshal c.texts c.hash document seen 1
          (ordered_targets document nodes selected) preview.nodes
      × TasksOf d.nodes preview.nodes
      × (is_empty preview.nodes ≡ false)

  start_valid-Based :
      (actor : Option Actor) (cluster revision origin : String) (rollback_of : Option String)
      (document : DesiredDocument) (selected : List String) (h : List Call) (preview : Preview)
      → (preview_document c answers cluster revision document selected h).0 ≡ ok preview
      → let before = (preview_document c answers cluster revision document selected h).1 in
        let after =
          (start_valid c answers actor cluster revision origin rollback_of preview before).1 in
        (created after ≡ created before)
        ⊎ ((d : Deployment) × (d.cluster_id ≡ cluster)
            × (d.revision_id ≡ revision)
            × (d.status ≡ DeploymentStatus.queued)
            × Based document selected h d
            × (created after ≡ d ∷ created before))
  unfolding start_valid
  start_valid-Based actor cluster revision origin rollback_of document selected h preview made =
      let before = (preview_document c answers cluster revision document selected h).1 in
      elim (Bool-cases (not preview.valid || is_empty preview.nodes)) [
        | inl refused ↦ inl (ground arith)
        | inr fine ↦
            elim (build_deployment-Builds actor cluster revision origin rollback_of preview
              before) [
                | inl same ↦ inl (ground arith)
                | inr (d, (in_cluster, of_revision, waits, tasks), after) ↦
                    let (nodes, catalogue, seen, saw, seen_so) =
                      preview_document-of cluster revision document selected h preview made in
                    let (planned, deployable, some_nodes) =
                      preview_of-ArePlanned c.marshal c.texts c.hash c.net revision document nodes
                        selected catalogue seen preview seen_so (ground arith) in
                    inr (
                      d,
                      in_cluster,
                      of_revision,
                      waits,
                      (
                        nodes,
                        seen,
                        preview,
                        subst (λ k. Saw k document h nodes seen) (sym in_cluster) saw,
                        deployable,
                        planned,
                        tasks,
                        some_nodes,
                      ),
                      ground arith,
                    )
              ]
      ]

  -- Starting a deployment creates nothing, or one deployment of the revision that was found, which
  -- is of the cluster. The document of the revision can then be deployed to all enabled nodes of
  -- the cluster, and the tasks are one for each target, in the order of the targets, each with
  -- the hash of the document that is effective for its node, which is capable of it and was
  -- observed, by the snapshots and profiles of the cluster that were read after the revision. There is at least one task. Targets are selected by a reconciliation only.
  pub start_deployment-created :
      (actor : Option Actor) (cluster revision origin : String) (rollback_of : Option String)
      (targets : List String) (h : List Call)
      → let after =
          (start_deployment c answers actor cluster revision origin rollback_of targets h).1 in
        (created after ≡ created h)
        ⊎ ((r : Revision DesiredDocument) × (answers.revision revision h ≡ ok r)
            × ((d : Deployment) × (d.cluster_id ≡ cluster)
                × (d.revision_id ≡ revision)
                × (d.status ≡ DeploymentStatus.queued)
                × Based r.document targets (Starting.revision_by_id revision ∷ h) d
                × (created after ≡ d ∷ created h))
            × (str_eq r.cluster_id cluster ≡ true)
            × ((str_eq origin "reconciliation" ≡ true) ⊎ (is_empty targets ≡ true)))
  unfolding start_deployment start_known find_revision created
  start_deployment-created actor cluster revision origin rollback_of targets h =
      let asked = Starting.revision_by_id revision ∷ h in
      elim (Bool-cases (
        not
          (str_eq origin "manual" || str_eq origin "rollback" || str_eq origin "reconciliation"))) [
            | inl bad ↦ inl (ground arith)
            | inr known ↦
                elim (Bool-cases (not (str_eq origin "reconciliation") && not (is_empty targets))) [
                  | inl bad ↦ inl (ground arith)
                  | inr fine ↦ elim (Bool-cases (answers.valid_id revision)) [
                    | inr bad ↦ inl (ground arith)
                    | inl valid ↦ elim (Result-cases (answers.revision revision h)) [
                      | inr (f, lost) ↦ inl (ground arith)
                      | inl (r, found) ↦ elim (Bool-cases (str_eq r.cluster_id cluster)) [
                        | inr other ↦ inl (ground arith)
                        | inl own ↦
                            let made =
                              preview_document c answers cluster revision r.document targets
                                asked in
                            let quiet =
                              preview_document-Quiet cluster revision r.document targets asked in
                            elim (Result-cases made.0) [
                              | inr (f, lost) ↦ inl (ground arith)
                              | inl (preview, has) ↦
                                  elim (start_valid-Based actor cluster revision origin rollback_of
                                    r.document targets asked preview has) [
                                      | inl same ↦ inl (ground arith)
                                      | inr (d, in_cluster, of_revision, waits, based, after) ↦
                                          inr (
                                            r,
                                            found,
                                            (
                                              d,
                                              in_cluster,
                                              of_revision,
                                              waits,
                                              based,
                                              ground arith,
                                            ),
                                            own,
                                            ground arith,
                                          )
                                    ]
                            ]
                      ]
                    ]
                  ]
                ]
          ]
