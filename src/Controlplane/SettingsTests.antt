-- ===== src/Controlplane/SettingsTests.antt =====
-- A node to which the sample document is written, and which shows it.
use atlas_dns.Base.{◌+◌, ◌≡◌, refl, true, none, some, [], if◌then◌else◌, length, is_empty}
use atlas_dns.Base.Map.{lookup}
use atlas_dns.Base.Sort.{sort_by}
use atlas_dns.Base.Order.{less}
use atlas_dns.Base.Act.{ok}
use atlas_dns.Controlplane.Model.{Revision, managed_differences, select}
use atlas_dns.Controlplane.Executor.Calls.{Answers}
use atlas_dns.Controlplane.Executor.Tasks.{PreparedNode}
use atlas_dns.Controlplane.Executor.Nodes.{apply_node, verify_node}
use atlas_dns.Controlplane.Executor.Writes.{written}
use atlas_dns.Controlplane.Executor.Readback.{IsVerified}
use atlas_dns.Controlplane.Tests.{node_of, task_of, two_nodes}
use atlas_dns.Controlplane.Settings.{apply_node-settings}
use atlas_dns.Configuration.Model.{Document, DesiredDocument, NodeSpecific}
use atlas_dns.Configuration.Clean.{clean_ordered, clean_set, canonical_schedule}
use atlas_dns.Configuration.Canonical.{
  canonical_shared, canonical_node, canonicalise, desired_from_observation, effective,
  is_legacy_converted,
}
use atlas_dns.Configuration.Compared.{documents}
use atlas_dns.Configuration.Diff.{diff}
use atlas_dns.Configuration.Canonical.{project_document}
use atlas_dns.Configuration.Encoding.{write, write_injective}
use atlas_dns.Configuration.Tests.{letters, letters_laws, sample, imported, first_document}

abbrev revision : Revision DesiredDocument
revision = record {
  id = "r";
  cluster_id = "c";
  revision_number = 1;
  schema_version = 2;
  document = imported;
  canonical_hash = "";
  summary = "";
  created_by = "u";
  created_at = 0;
  active = true;
  archived_at = none;
  archived_by = none;
}

abbrev node : Answers (documents write letters)
node = record {
  now = λ h. length h + 1;
  id = λ h. ok "id";
  claimed = λ h. ok "d";
  interrupted = λ h. ok tt;
  deployment = λ h id. ok two_nodes;
  revision = λ h id. ok revision;
  node_record = λ h id. ok (node_of id);
  snapshot = λ h id. ok (record {
    id = "s";
    node_id = id;
    observed_at = 0;
    schema_version = 2;
    document = if is_empty (written h) then none else some sample;
    canonical_hash = "";
    node_version = "";
    collection_status = "succeeded";
    error_code = "";
  });
  credentials = λ h p. ok (record { username = ""; password = "" });
  done = λ h. ok tt;
}

abbrev item : PreparedNode Document
item = record { task = task_of "n1"; record_of_node = node_of "n1"; effective = first_document }

apply_node-settings_example :
    (v : IsVerified (documents write letters) node revision item) × (o : NodeSpecific) × (lookup
        "n1" imported.node_overrides
      ≡ some o)
    × (canonical_shared letters v.document.shared ≡ canonical_shared letters imported.shared)
    × (canonical_node letters v.document.node_specific ≡ canonical_node letters o)
unfolding effective desired_from_observation canonicalise lookup clean_ordered clean_set sort_by
    canonical_schedule is_legacy_converted less apply_node verify_node managed_differences select
    diff project_document
apply_node-settings_example =
    apply_node-settings write letters letters_laws write_injective node revision item [] refl refl
