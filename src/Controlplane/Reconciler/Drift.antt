-- ===== src/Controlplane/Reconciler/Drift.antt =====
-- internal/controlplane/reconciler.go: when a reconciliation is started.
use atlas_dns.Base.{
  ℕ, String, ◌≡◌, ◌⊎◌, inl, inr, true, false, some, List, [], ◌∷◌, arith, str_eq, Bool-cases,
  Option-cases, is_empty,
}
use atlas_dns.Base.Act.{ok}
use atlas_dns.Domain.{ConvergenceStatus, is_supported}
use atlas_dns.Controlplane.Model.{managed_differences}
use atlas_dns.Controlplane.Reconciler.Calls.{clock, observe}
use atlas_dns.Controlplane.Reconciler.Node.{show_status, resolve_drift, compare_node, evaluate_node}
use atlas_dns.Controlplane.Reconciler.Run.{visit_node}
use atlas_dns.Base.Act.{Result-cases, Quiet}
use atlas_dns.Controlplane.Reconciler.Node.{drift_item, audit_event, drift_metadata}
use atlas_dns.Domain.{MetaValue, AuditEvent}
use atlas_dns.Base.Act.{Result-cases, Quiet}
use atlas_dns.Domain
use atlas_dns.Domain.{Failure, Cluster, Node, ConvergenceStatus, is_supported}
use atlas_dns.Controlplane.Model.{Configuration, Difference, Revision, Snapshot}
use atlas_dns.Controlplane.Reconciler.Calls.{
  Call, new_id, update_node_convergence, upsert_drift_event, start_reconciliation, DriftEvent,
  Answers,
}
use atlas_dns.Controlplane.Reconciler.Node.{
  drift_audit, resolve_drift, enforce_policy, record_drift, is_enforced,
}

-- The reconciliations that were started: cluster, revision and node.
unfoldable pub started : List Call → List (String × String × String)
started [] = []
started (start_reconciliation cluster revision node ∷ h) = (cluster, revision, node) ∷ started h
started (_ ∷ h) = started h

module _ (c : Configuration) (answers : Answers c) where
  -- Nothing is started, or the one reconciliation of the node is, under a policy that enforces it.
  abbrev pub Starts : Cluster → Revision c.Desired → Node → List Call → List Call → Type 0
  Starts cl r n h after =
      (started after ≡ started h)
      ⊎ ((started after ≡ (cl.id, r.id, n.id) ∷ started h)
          × (is_enforced cl.reconciliation_policy ≡ true))

  resolve_drift-Quiet :
      (cl : Cluster) (r : Revision c.Desired) (n : Node) (request_id : String) (now : ℕ)
      → Quiet started (resolve_drift c answers cl r n request_id now)
  unfolding resolve_drift drift_audit started
  resolve_drift-Quiet cl r n request_id now h = ground arith

  enforce_policy-Starts :
      (cl : Cluster) (r : Revision c.Desired) (n : Node) (stored : DriftEvent) (h : List Call)
      → Starts cl r n h (enforce_policy c answers cl r n stored h).1
  unfolding enforce_policy started
  enforce_policy-Starts cl r n stored h = elim (Bool-cases (is_enforced cl.reconciliation_policy)) [
    | inr other ↦ inl (ground arith)
    | inl enforced ↦ elim (Bool-cases (str_eq stored.reconciliation_status "pending")) [
      | inr other ↦ inl (ground arith)
      | inl pending ↦ inr (ground arith, enforced)
    ]
  ]

  record_drift-Starts :
      (cl : Cluster) (r : Revision c.Desired) (n : Node) (hash : String) (s : Snapshot c.Document)
      (ds : List Difference) (request_id : String) (now : ℕ) (h : List Call)
      → Starts cl r n h (record_drift c answers cl r n hash s ds request_id now h).1
  unfolding record_drift drift_audit started
  record_drift-Starts cl r n hash s ds request_id now h =
      let told = update_node_convergence n.id Domain.drifted now ∷ h in
      elim (Result-cases (answers.done h)) [
        | inr (f, lost) ↦ inl (ground arith)
        | inl (u, shown) ↦ elim (Result-cases (answers.id told)) [
          | inr (f, lost) ↦ inl (ground arith)
          | inl (id, named) ↦ elim (Result-cases (answers.id (new_id ∷ told))) [
            | inr (f, lost) ↦ inl (ground arith)
            | inl (event_id, audited) ↦
                let item = drift_item c answers cl r n hash s ds now id in
                let before = new_id ∷ new_id ∷ told in
                elim (Result-cases (answers.stored before item)) [
                  | inr (f, lost) ↦ inl (ground arith)
                  | inl (stored, kept) ↦
                      let event =
                        audit_event c answers "drift.detected" "drift_event" id request_id
                          (drift_metadata c answers cl r n ds) now event_id in
                      elim (enforce_policy-Starts cl r n stored
                        (upsert_drift_event item event ∷ before)) [
                          | inl same ↦ inl (ground arith)
                          | inr (one, enforced) ↦ inr (ground arith, enforced)
                        ]
                ]
          ]
        ]
      ]

  -- A snapshot of the node that shows a difference from what the revision wants of it.
  pub record IsDrift (r : Revision c.Desired) (n : Node) : Type 0 where
    pub history : List Call
    pub snapshot : Snapshot c.Document
    pub effective : c.Document
    pub document : c.Document
    pub own : c.effective r.document n.id ≡ ok effective
    pub taken : answers.snapshot history n.id ≡ ok snapshot
    pub has_document : snapshot.document ≡ some document
    pub differs :
        is_empty (managed_differences c effective (c.project document r.schema_version)) ≡ false

  compare_node-Starts :
      (cl : Cluster) (r : Revision c.Desired) (n : Node) (effective : c.Document) (hash : String)
      (s : Snapshot c.Document) (d : c.Document) (h : List Call)
      → let after = (compare_node c answers cl r n effective hash s d h).1 in
        (started after ≡ started h)
        ⊎ ((started after ≡ (cl.id, r.id, n.id) ∷ started h)
            × (is_enforced cl.reconciliation_policy ≡ true)
            × (is_empty (managed_differences c effective (c.project d r.schema_version)) ≡ false))
  unfolding compare_node started
  compare_node-Starts cl r n effective hash s d h =
      let ds = managed_differences c effective (c.project d r.schema_version) in
      elim (Result-cases (answers.id h)) [
        | inr (f, lost) ↦ inl (ground arith)
        | inl (request_id, named) ↦
            let before = clock ∷ new_id ∷ h in
            let now = answers.now (new_id ∷ h) in
            elim (Bool-cases (is_empty ds)) [
              | inl same ↦
                  let quiet = resolve_drift-Quiet cl r n request_id now before in inl (ground arith)
              | inr differs ↦ elim (record_drift-Starts cl r n hash s ds request_id now before) [
                | inl same ↦ inl (ground arith)
                | inr (one, enforced) ↦ inr (ground arith, enforced, differs)
              ]
            ]
      ]

  evaluate_node-Starts :
      (cl : Cluster) (r : Revision c.Desired) (n : Node) (h : List Call)
      → let after = (evaluate_node c answers cl r n h).1 in
        (started after ≡ started h)
        ⊎ ((started after ≡ (cl.id, r.id, n.id) ∷ started h)
            × (is_enforced cl.reconciliation_policy ≡ true)
            × IsDrift r n)
  unfolding evaluate_node show_status started
  evaluate_node-Starts cl r n h = elim (Result-cases (c.effective r.document n.id)) [
    | inr (f, lost) ↦ inl (ground arith)
    | inl (effective, own) ↦ elim (Result-cases (answers.hash effective)) [
      | inr (f, lost) ↦ inl (ground arith)
      | inl (hash, hashed) ↦ elim (Result-cases (answers.snapshot h n.id)) [
        | inr (f, lost) ↦ inl (ground arith)
        | inl (s, taken) ↦ elim (Option-cases s.document) [
          | inl nothing ↦ inl (ground arith)
          | inr (d, something) ↦
              elim (compare_node-Starts cl r n effective hash s d (observe n.id ∷ h)) [
                | inl same ↦ inl (ground arith)
                | inr (one, enforced, differs) ↦ inr (
                  ground arith,
                  enforced,
                  record {
                    history = h;
                    snapshot = s;
                    effective = effective;
                    document = d;
                    own = own;
                    taken = taken;
                    has_document = something;
                    differs = differs;
                  },
                )
              ]
        ]
      ]
    ]
  ]

  -- A node on which a reconciliation to the revision may be started: the cluster's policy enforces
  -- it, the node is enabled, out of maintenance and of a supported version, the revision is no
  -- legacy record, and a snapshot of the node differs from what the revision wants.
  pub record MayStart (cl : Cluster) (r : Revision c.Desired) (n : Node) : Type 0 where
    pub enforced : is_enforced cl.reconciliation_policy ≡ true
    pub enabled : n.enabled ≡ true
    pub serving : n.maintenance_mode ≡ false
    pub supported : is_supported n.compatibility_status ≡ true
    pub fresh : c.is_legacy_converted r.document ≡ false
    pub drift : IsDrift r n

  pub visit_node-MayStart :
      (cl : Cluster) (r : Revision c.Desired) (n : Node) (h : List Call)
      → let after = (visit_node c answers cl r n h).1 in
        (started after ≡ started h)
        ⊎ ((started after ≡ (cl.id, r.id, n.id) ∷ started h) × MayStart cl r n)
  unfolding visit_node show_status started
  visit_node-MayStart cl r n h = elim (Bool-cases n.enabled) [
    | inr off ↦ inl (ground arith)
    | inl enabled ↦ elim (Bool-cases n.maintenance_mode) [
      | inl away ↦ inl (ground arith)
      | inr serving ↦ elim (Bool-cases (is_supported n.compatibility_status)) [
        | inr other ↦ inl (ground arith)
        | inl supported ↦ elim (Bool-cases (c.is_legacy_converted r.document)) [
          | inl legacy ↦ inl (ground arith)
          | inr fresh ↦ elim (evaluate_node-Starts cl r n h) [
            | inl same ↦ inl (ground arith)
            | inr (one, enforced, drift) ↦ inr (
              ground arith,
              record {
                enforced = enforced;
                enabled = enabled;
                serving = serving;
                supported = supported;
                fresh = fresh;
                drift = drift;
              },
            )
          ]
        ]
      ]
    ]
  ]
