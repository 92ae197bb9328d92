-- ===== src/Controlplane/PlannedTests.antt =====
-- A deployment to two nodes, which is created, and one without observations, which is not.
use atlas_dns.Base.{
  ℕ, String, ◌≡◌, refl, ◌⊎◌, true, false, none, some, List, [], ◌∷◌, map, str_eq, length, is_empty,
}
use atlas_dns.Base.Sort.{insert_by}
use atlas_dns.Base.Act.{Result, ok, err}
use atlas_dns.Domain.{Failure, Actor, Cluster, Node, other_error}
use atlas_dns.Domain
use atlas_dns.Configuration.Model.{Document, DesiredDocument}
use atlas_dns.Configuration.Canonical.{nothing_observed, effective, project_document}
use atlas_dns.Configuration.Diff.{diff, differing}
use atlas_dns.Configuration.Tests.{letters}
use atlas_dns.Configuration.Validate.Tests.{small, two_nodes, settings, node, dhcp}
use atlas_dns.Configuration.Validate.Tests
use atlas_dns.Configuration.Validate.Deployable.{IsDeployable}
use atlas_dns.Controlplane.Model.{
  Snapshot, Revision, Deployment, DeploymentNode, DeploymentStatus, immutable_node_differences,
  node_specific_differences, select,
}
use atlas_dns.Controlplane.Tests.{node_of}
use atlas_dns.Controlplane.Targets.{ordered_targets}
use atlas_dns.Operations.Selection.{CapabilityProfile}
use atlas_dns.Controlplane.Preview.{
  Preview, enabled_node_ids, required_features, setting_features, missing_features,
  capability_warning, relabel, observation_fault, with_capabilities,
}
use atlas_dns.Controlplane.PreviewDocument.{
  Seen, preview_of, preview_items, preview_item, effective_item,
}
use atlas_dns.Controlplane.Starting
use atlas_dns.Controlplane.Starting.{
  Answers, Documents, audit, catalogue_issues, preview_document, make_tasks, build_deployment,
  find_revision, start_valid, start_known, start_deployment,
}
use atlas_dns.Controlplane.Created.{ArePlanned, preview_of-ArePlanned}
use atlas_dns.Controlplane.Started.{created, Based, start_deployment-created}

-- The listener is compared, and nothing else differs.
abbrev toy : Documents
toy = record { marshal = λ k v. ""; texts = letters; hash = λ d. ok "hash"; net = small }

abbrev fleet : List Node
fleet = (node_of "n1").node ∷ (node_of "n2").node ∷ []

abbrev shot : String → Snapshot Document
shot id = record {
  id = id;
  node_id = id;
  observed_at = 0;
  schema_version = 2;
  document = some (record {
    schema_version = 2;
    shared = settings;
    node_specific = node none;
    observed_only = nothing_observed letters;
    unsupported = [];
  });
  canonical_hash = "";
  node_version = "";
  collection_status = "succeeded";
  error_code = "";
}

abbrev profile : String → CapabilityProfile
profile id = record {
  node_id = id;
  product_version = "";
  compatibility = Domain.Compatibility.supported;
  features =
      map (λ (s : String). (s, true))
        ("dns" ∷ "filtering" ∷ "clients" ∷ "rewrites" ∷ "blocked_services" ∷ "safety" ∷ "query_log"
          ∷ "statistics" ∷ "tls" ∷ "dhcp" ∷ "safe_search_ecosia" ∷ "filter_interval_arbitrary"
          ∷ "cache_toggle" ∷ "upstream_timeout" ∷ "rewrite_toggle" ∷ "ignored_lists_toggle" ∷ []);
}

abbrev seen : Seen
seen = record {
  snapshots = shot "n1" ∷ shot "n2" ∷ [];
  profiles = profile "n1" ∷ profile "n2" ∷ [];
}

opened : Unit {0}
unfolding Tests.opened ordered_targets effective select immutable_node_differences project_document
    node_specific_differences diff differing enabled_node_ids required_features setting_features
    missing_features capability_warning relabel observation_fault with_capabilities preview_of
    preview_items preview_item effective_item audit catalogue_issues preview_document make_tasks
    build_deployment find_revision start_valid start_known start_deployment created insert_by
opened = tt

abbrev of_fleet : Result Failure Preview
of_fleet =
    preview_of toy.marshal letters toy.hash small "r" two_nodes fleet
      (ordered_targets two_nodes fleet []) [] seen

count : Result Failure Preview → ℕ × ℕ
count (ok p) = (length p.issues, length p.nodes)
count (err e) = (9, 9)

counts : count of_fleet ≡ (0, 2)
unfolding opened count
counts = refl

abbrev made : Preview
made = elim (of_fleet) as (λ _. Preview) [
  | ok p ↦ p
  | err e ↦ record { valid = false; issues = []; nodes = [] }
]

preview_of-ArePlanned_example :
    ArePlanned toy.marshal letters toy.hash two_nodes seen 1
      (ordered_targets two_nodes fleet [])
      made.nodes
    × IsDeployable small letters two_nodes (enabled_node_ids fleet)
    × (is_empty made.nodes ≡ false)
unfolding opened
preview_of-ArePlanned_example =
    preview_of-ArePlanned toy.marshal letters toy.hash small "r" two_nodes fleet [] [] seen made
      refl refl

abbrev revision : Revision DesiredDocument
revision = record {
  id = "r";
  cluster_id = "c";
  revision_number = 1;
  schema_version = 2;
  document = two_nodes;
  canonical_hash = "";
  summary = "";
  created_by = "";
  created_at = 0;
  active = false;
  archived_at = none;
  archived_by = none;
}

abbrev toy_answers : Answers
toy_answers = record {
  now = λ h. 0;
  id = λ h. ok "id";
  revision = λ id h. ok revision;
  cluster = λ id h. err (other_error "unknown");
  nodes = λ id h. ok fleet;
  snapshots = λ id h. ok seen.snapshots;
  profiles = λ id h. ok seen.profiles;
  catalogue = λ ids h. ok [];
  deployment = λ id h. err (other_error "unknown");
  drift = λ id h. err (other_error "unknown");
  done = λ h. ok tt;
  has_validator = true;
  valid_id = λ s. true;
}

-- The node that runs DHCP is written last.
creates :
    map
      (λ (d : Deployment). map (λ (n : DeploymentNode). n.node_id) d.nodes)
      (created (start_deployment toy toy_answers none "c" "r" "manual" none [] []).1)
    ≡ ("n2" ∷ "n1" ∷ []) ∷ []
unfolding opened
creates = refl

unseen :
    created
      (start_deployment toy
        (record toy_answers { snapshots = λ id h. ok [] })
        none
        "c"
        "r"
        "manual"
        none
        []
        []).1
    ≡ []
unfolding opened
unseen = refl

start_deployment-created_example :
    let after = (start_deployment toy toy_answers none "c" "r" "manual" none [] []).1 in
    (created after ≡ [])
    ⊎ ((r : Revision DesiredDocument) × (toy_answers.revision "r" [] ≡ ok r)
        × ((d : Deployment) × (d.cluster_id ≡ "c")
            × (d.revision_id ≡ "r")
            × (d.status ≡ DeploymentStatus.queued)
            × Based toy toy_answers r.document [] (Starting.revision_by_id "r" ∷ []) d
            × (created after ≡ d ∷ []))
        × (str_eq r.cluster_id "c" ≡ true)
        × ((str_eq "manual" "reconciliation" ≡ true) ⊎ (is_empty {A = String} [] ≡ true)))
unfolding opened
start_deployment-created_example =
    start_deployment-created toy toy_answers none "c" "r" "manual" none [] []
