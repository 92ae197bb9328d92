-- ===== src/Configuration/Tests.antt =====
-- A small document on which the canonical form and the comparison run.
use atlas_dns.Base.{
  String, ◌≡◌, refl, true, false, none, some, [], ◌∷◌, map, arith, str_eq, eq_iff, if◌then◌else◌,
}
use atlas_dns.Base.Map.{lookup}
use atlas_dns.Base.Int.{pos}
use atlas_dns.Base.Act.{ok}
use atlas_dns.Base.Sort.{sort_by}
use atlas_dns.Base.Order.{less}
use atlas_dns.Configuration.Clean.{clean_set, clean_ordered}
use atlas_dns.Configuration.Canonical.{is_legacy_converted}
use atlas_dns.Configuration.Clean.{canonical_schedule}
use atlas_dns.Controlplane.Model.{managed_differences}
use atlas_dns.Configuration.Model.{Document, DesiredDocument, NodeSpecific, Shared, Rewrite}
use atlas_dns.Configuration.Canonical.{
  canonicalise, canonical_shared, canonical_node, nothing_observed, desired_from_observation,
  effective,
}
use atlas_dns.Configuration.InOrder.{InOrder, canonicalise-InOrder}
use atlas_dns.Configuration.Own.{effective_own, desired_from_observation-effective}
use atlas_dns.Configuration.Diff.{no_shared, diff_desired, diff, differing}
use atlas_dns.Configuration.Rows.{rows}
use atlas_dns.Controlplane.Model.{Difference, select}
use atlas_dns.Configuration.Compared.{managed_differences-documents}
use atlas_dns.Configuration.Encoding.{write, write_injective}
use atlas_dns.Configuration.Clean.{Texts, TextLaws}

-- Texts of which only " a" has a space around it, and only "A" is in upper case.
abbrev pub letters : Texts
letters = record {
  trim = λ s. if str_eq s " a" then "a" else s;
  lower = λ s. if str_eq s "A" then "a" else s;
  equal_fold = λ a b. str_eq (if str_eq a "A" then "a" else a) (if str_eq b "A" then "a" else b);
}

str_eq_sym : (a b : String) → str_eq a b ≡ str_eq b a
str_eq_sym a b = ground (arith, eq_iff a b, eq_iff b a)

pub letters_laws : TextLaws letters
letters_laws = record {
  trim-trim = λ s. ground (arith, eq_iff s " a");
  lower-lower = λ s. ground (arith, eq_iff s "A");
  trim-lower-trim = λ s. ground (arith, eq_iff s " a", eq_iff s "A");
  equal_fold_sym = λ a b. str_eq_sym _ _;
}

abbrev pub sample_shared : Shared
sample_shared = record (no_shared write letters) {
  dns = record (no_shared write letters).dns { upstream_dns = " a" ∷ "" ∷ "b" ∷ [] };
  filtering = record (no_shared write letters).filtering { filter_urls = "b" ∷ " a" ∷ "A" ∷ [] };
  rewrites =
      record { domain = "b"; answer = "1"; enabled = true }
      ∷ record { domain = " a"; answer = "2"; enabled = true }
      ∷ [];
}

abbrev pub sample_node : NodeSpecific
sample_node = record { bind_hosts = "b" ∷ " a" ∷ []; dns_port = pos 53; dhcp = none }

abbrev pub sample : Document
sample = record {
  schema_version = 2;
  shared = sample_shared;
  node_specific = sample_node;
  observed_only = nothing_observed letters;
  unsupported = [];
}

-- The texts are cleaned, double entries go, and the rest is in order.
sample_cleaned :
    let s = (canonicalise letters sample).shared in
    (s.dns.upstream_dns ≡ "a" ∷ "b" ∷ [])
    × (s.filtering.filter_urls ≡ "a" ∷ "b" ∷ [])
    × (map (λ (r : Rewrite). r.domain) s.rewrites ≡ "a" ∷ "b" ∷ [])
unfolding canonicalise clean_ordered clean_set sort_by less
sample_cleaned = (refl, refl, refl)

canonicalise-InOrder_example :
    let c = canonicalise letters sample in (canonicalise letters c ≡ c) × InOrder letters sample c
canonicalise-InOrder_example = canonicalise-InOrder letters letters_laws sample

abbrev pub imported : DesiredDocument
imported = desired_from_observation letters "n1" sample

abbrev pub first_document : Document
first_document = record (canonicalise letters sample) { observed_only = nothing_observed letters }

effective_own_example :
    (o : NodeSpecific) × (lookup "n1" imported.node_overrides ≡ some o)
    × (first_document.node_specific ≡ canonical_node letters o)
    × (first_document.shared ≡ canonical_shared letters imported.shared)
    × (canonicalise letters first_document ≡ first_document)
unfolding effective desired_from_observation canonicalise lookup clean_ordered clean_set sort_by
    canonical_schedule is_legacy_converted less
effective_own_example = effective_own letters letters_laws imported "n1" first_document refl

desired_from_observation-effective_example :
    ((doc : Document) × (effective letters imported "n1" ≡ ok doc)
      × (doc.shared ≡ (canonicalise letters sample).shared)
      × (doc.node_specific ≡ (canonicalise letters sample).node_specific))
    × (str_eq "n1" "n2" ≡ false → ¬ ((doc : Document) × (effective letters imported "n2" ≡ ok doc)))
desired_from_observation-effective_example =
    desired_from_observation-effective letters letters_laws sample "n1" "n2"

managed_differences-documents_example :
    (canonical_shared letters sample.shared ≡ canonical_shared letters first_document.shared)
    × (canonical_node letters sample.node_specific
        ≡ canonical_node letters first_document.node_specific)
unfolding canonicalise clean_ordered clean_set sort_by canonical_schedule less managed_differences
    diff differing rows select
managed_differences-documents_example =
    managed_differences-documents write letters write_injective sample first_document refl

abbrev other_port : DesiredDocument
other_port = record imported {
  node_overrides = ("n1", record sample_node { dns_port = pos 54 }) ∷ ("n2", sample_node) ∷ [];
}

port_shown :
    map (λ (d : Difference). d.summary) (diff_desired write letters imported other_port)
    ≡ "DNS port differs for n1" ∷ "node override differs for n2" ∷ []
unfolding desired_from_observation canonicalise lookup clean_ordered clean_set sort_by
    canonical_schedule is_legacy_converted less diff_desired select
port_shown = refl
