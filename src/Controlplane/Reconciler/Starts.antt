-- ===== src/Controlplane/Reconciler/Starts.antt =====
-- internal/controlplane/reconciler.go: all reconciliations that a run starts.
use atlas_dns.Base.{
  String, ◌≡◌, refl, sym, ap, ◌∙◌, subst, ◌⊎◌, inl, inr, false, some, List, [], ◌∷◌, arith,
  Bool-cases, Option-cases, All,
}
use atlas_dns.Domain.{Cluster}
use atlas_dns.Controlplane.Reconciler.Run.{visit_cluster, visit_clusters, run_once}
use atlas_dns.Controlplane.Reconciler.Calls.{
  list_clusters, cluster_has_active_deployment, revision_by_id, list_nodes,
}
use atlas_dns.Base.Act.{ok, Result-cases, then_ok, then_err}
use atlas_dns.Controlplane.Reconciler.Run.{visit_active}
use atlas_dns.Controlplane.Model.{Configuration, Revision}
use mathlib.Core.List.{Memᴰ}
use mathlib.Core.List.Memᴰ.{head, tail}
use atlas_dns.Base.Act.{ok, Result-cases}
use atlas_dns.Domain.{Cluster, Node}
use atlas_dns.Controlplane.Model.{Configuration, Revision}
use atlas_dns.Controlplane.Reconciler.Calls.{
  Call, list_clusters, cluster_has_active_deployment, revision_by_id, list_nodes, Answers,
}
use atlas_dns.Controlplane.Reconciler.Run.{
  visit_node, visit_nodes, visit_cluster, visit_clusters, run_once,
}
use atlas_dns.Controlplane.Reconciler.Drift.{started, MayStart, visit_node-MayStart}

module _ (c : Configuration) (answers : Answers c) where
  visit_nodes-All :
      (Q : String × String × String → Type 0) (cl : Cluster) (r : Revision c.Desired)
      (nodes : List Node) (h : List Call)
      → ((n : Node) → Memᴰ n nodes → MayStart c answers cl r n → Q (cl.id, r.id, n.id))
      → All Q (started h)
      → All Q (started (visit_nodes c answers cl r nodes h).1)
  unfolding visit_nodes
  visit_nodes-All Q cl r [] h may qs = qs
  visit_nodes-All Q cl r (n ∷ nodes) h may qs =
      let one = visit_node c answers cl r n in
      let others = visit_nodes c answers cl r nodes in
      let step = one h in
      let rest = λ (m : Node) (i : Memᴰ m nodes). may m (tail i) in
      let sound : All Q (started step.1) = elim (visit_node-MayStart c answers cl r n h) [
        | inl same ↦ subst (λ x. All Q x) (sym same) qs
        | inr (new, allowed) ↦ subst (λ x. All Q x) (sym new) (may n (head refl) allowed, qs)
      ] in
      elim (Result-cases step.0) [
        | inl (u, went) ↦
            subst (λ x. All Q (started x)) (sym (then_ok one others h went))
              (visit_nodes-All Q cl r nodes step.1 rest sound)
        | inr (f, broke) ↦ subst (λ x. All Q (started x)) (sym (then_err one others h broke)) sound
      ]

  -- A reconciliation that may be started: of a cluster that is listed, without a deployment that is
  -- under way, to its active revision, on one of its nodes.
  pub record IsAllowed (clusters : List Cluster) (s : String × String × String) : Type 0 where
    pub cluster : Cluster
    pub revision : Revision c.Desired
    pub node : Node
    pub is_it : s ≡ (cluster.id, revision.id, node.id)
    pub listed : Memᴰ cluster clusters
    pub history : List Call
    pub idle : answers.is_deploying history cluster.id ≡ ok false
    pub active : String
    pub is_active : cluster.active_revision_id ≡ some active
    pub loaded :
        answers.revision (cluster_has_active_deployment cluster.id ∷ history) active ≡ ok revision
    pub nodes : List Node
    pub nodes_listed :
        answers.nodes
          (revision_by_id active ∷ cluster_has_active_deployment cluster.id ∷ history)
          cluster.id
        ≡ ok nodes
    pub has_node : Memᴰ node nodes
    pub may_start : MayStart c answers cluster revision node

  visit_active-All :
      (clusters : List Cluster) (cl : Cluster) (active : String) (h : List Call)
      → Memᴰ cl clusters
      → cl.active_revision_id ≡ some active
      → All (IsAllowed clusters) (started h)
      → All (IsAllowed clusters) (started (visit_active c answers cl active h).1)
  unfolding visit_active started
  visit_active-All clusters cl active h listed is_active qs =
      elim (Result-cases (answers.is_deploying h cl.id)) [
        | inr (f, lost) ↦ rw lost qs
        | inl (deploying, known) ↦ elim (Bool-cases deploying) [
          | inl busy ↦ rw (known, busy) qs
          | inr idle ↦
              let asked = cluster_has_active_deployment cl.id ∷ h in
              elim (Result-cases (answers.revision asked active)) [
                | inr (f, lost) ↦ rw (known, idle, lost) qs
                | inl (r, loaded) ↦
                    let read = revision_by_id active ∷ asked in
                    elim (Result-cases (answers.nodes read cl.id)) [
                      | inr (f, lost) ↦ rw (known, idle, loaded, lost) qs
                      | inl (nodes, nodes_listed) ↦
                          rw (known, idle, loaded, nodes_listed)
                            (visit_nodes-All (IsAllowed clusters) cl r nodes
                              (list_nodes cl.id ∷ read)
                              (λ n i may. record {
                                cluster = cl;
                                revision = r;
                                node = n;
                                is_it = refl;
                                listed = listed;
                                history = h;
                                idle = known ∙ ap ok idle;
                                active = active;
                                is_active = is_active;
                                loaded = loaded;
                                nodes = nodes;
                                nodes_listed = nodes_listed;
                                has_node = i;
                                may_start = may;
                              })
                              qs)
                    ]
              ]
        ]
      ]

  visit_cluster-All :
      (clusters : List Cluster) (cl : Cluster) (h : List Call)
      → Memᴰ cl clusters
      → All (IsAllowed clusters) (started h)
      → All (IsAllowed clusters) (started (visit_cluster c answers cl h).1)
  unfolding visit_cluster
  visit_cluster-All clusters cl h listed qs = elim (Option-cases cl.active_revision_id) [
    | inl nothing ↦
        let same : visit_cluster c answers cl h ≡ (ok tt, h) = ground arith in
        subst (λ x. All (IsAllowed clusters) (started x.1)) (sym same) qs
    | inr (active, is_active) ↦
        let same : visit_cluster c answers cl h ≡ visit_active c answers cl active h =
          ground arith in
        subst (λ x. All (IsAllowed clusters) (started x.1)) (sym same)
          (visit_active-All clusters cl active h listed is_active qs)
  ]

  visit_clusters-All :
      (clusters rest : List Cluster) (h : List Call)
      → ((cl : Cluster) → Memᴰ cl rest → Memᴰ cl clusters)
      → All (IsAllowed clusters) (started h)
      → All (IsAllowed clusters) (started (visit_clusters c answers rest h).1)
  unfolding visit_clusters
  visit_clusters-All clusters [] h listed qs = qs
  visit_clusters-All clusters (cl ∷ rest) h listed qs =
      let one = visit_cluster c answers cl in
      let others = visit_clusters c answers rest in
      let step = one h in
      let sound = visit_cluster-All clusters cl h (listed cl (head refl)) qs in
      elim (Result-cases step.0) [
        | inl (u, went) ↦
            subst (λ x. All (IsAllowed clusters) (started x)) (sym (then_ok one others h went))
              (visit_clusters-All clusters rest step.1 (λ m i. listed m (tail i)) sound)
        | inr (f, broke) ↦
            subst (λ x. All (IsAllowed clusters) (started x)) (sym (then_err one others h broke))
              sound
      ]

  -- A run starts a reconciliation only of a listed cluster whose policy enforces it and which has no
  -- deployment under way, to its active revision, on a listed node that is enabled, out of
  -- maintenance and of a supported version, and of which a snapshot differs from the revision. If
  -- the clusters cannot be listed, nothing is started.
  pub run_once-IsAllowed :
      (h : List Call)
      → started h ≡ []
      → ((clusters : List Cluster) × (answers.clusters h ≡ ok clusters)
          × All (IsAllowed clusters) (started (run_once c answers h).1))
        ⊎ (started (run_once c answers h).1 ≡ [])
  unfolding run_once started
  run_once-IsAllowed h empty = elim (Result-cases (answers.clusters h)) [
    | inr (f, lost) ↦ inr (rw lost empty)
    | inl (clusters, known) ↦ inl (
      clusters,
      known,
      rw known (
          visit_clusters-All clusters clusters (list_clusters ∷ h) (λ m i. i)
            (subst (λ x. All (IsAllowed clusters) x) (sym empty) tt)),
    )
  ]
