-- ===== src/Controlplane/Settings.antt =====
-- What the read-back of a node shows of its settings: internal/controlplane/executor.go with the
-- documents of internal/configuration.
use atlas_dns.Base.{ℕ, String, ◌≡◌, sym, ap, ◌∙◌, some, List}
use atlas_dns.Base.Map.{lookup}
use atlas_dns.Base.Act.{ok}
use atlas_dns.Controlplane.Model.{Revision}
use atlas_dns.Controlplane.Executor.Calls.{Call, Answers}
use atlas_dns.Controlplane.Executor.Tasks.{PreparedNode, applied}
use atlas_dns.Controlplane.Executor.Nodes.{apply_node}
use atlas_dns.Controlplane.Executor.Readback.{IsVerified, apply_node-IsVerified}
use atlas_dns.Configuration.Model.{Document, DesiredDocument, NodeSpecific}
use atlas_dns.Configuration.Clean.{Texts, TextLaws}
use atlas_dns.Configuration.Canonical.{
  canonical_shared, canonical_node, canonicalise, effective, project_document,
}
use atlas_dns.Configuration.Settled.{canonical_shared_fixed, canonical_node_fixed}
use atlas_dns.Configuration.Own.{effective_own}
use atlas_dns.Configuration.Rows.{Kind, Value}
use atlas_dns.Configuration.Compared.{documents, managed_differences-documents}

module _ (marshal : (k : Kind) → Value k → String) (t : Texts) where
  module _ (laws : TextLaws t) where
    projected_shared :
        (d : Document) (v : ℕ)
        → canonical_shared t (project_document t d v).shared ≡ canonical_shared t d.shared
    unfolding project_document canonicalise
    projected_shared d v = canonical_shared_fixed t laws d.shared

    projected_node :
        (d : Document) (v : ℕ)
        → canonical_node t (project_document t d v).node_specific ≡ canonical_node t d.node_specific
    unfolding project_document canonicalise
    projected_node d v = canonical_node_fixed t laws d.node_specific

    module _ (injective : (k : Kind) (a b : Value k) → marshal k a ≡ marshal k b → a ≡ b)
        (answers : Answers (documents marshal t)) where
      -- A task whose document is the effective one of its revision is done only if a snapshot of
      -- the node, taken after the write, has a document whose shared settings are those of the
      -- revision and whose own settings are those of the node's override, in canonical form.
      pub apply_node-settings :
          (r : Revision DesiredDocument) (item : PreparedNode Document) (h : List (Call Document))
          → effective t r.document item.task.node_id ≡ ok item.effective
          → (apply_node (documents marshal t) answers r item h).0 ≡ ok applied
          → (v : IsVerified (documents marshal t) answers r item) × (o : NodeSpecific) × (lookup
                item.task.node_id r.document.node_overrides
              ≡ some o)
            × (canonical_shared t v.document.shared ≡ canonical_shared t r.document.shared)
            × (canonical_node t v.document.node_specific ≡ canonical_node t o)
      apply_node-settings r item h own done =
          let v = apply_node-IsVerified (documents marshal t) answers r item h done in
          let (o, found, node, shared, settled) =
            effective_own t laws r.document item.task.node_id item.effective own in
          let (same_shared, same_node) =
            managed_differences-documents marshal t injective item.effective
              (project_document t v.document r.schema_version) v.equal in
          (
            v,
            o,
            found,
            sym (projected_shared v.document r.schema_version)
                ∙ sym same_shared
                ∙ ap (canonical_shared t) shared
                ∙ canonical_shared_fixed t laws r.document.shared,
            sym (projected_node v.document r.schema_version)
                ∙ sym same_node
                ∙ ap (canonical_node t) node
                ∙ canonical_node_fixed t laws o,
          )
