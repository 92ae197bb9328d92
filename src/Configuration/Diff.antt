-- ===== src/Configuration/Diff.antt =====
-- internal/configuration/model.go: the differences of two documents.
use atlas_dns.Base.{
  String, false, ◌||◌, Option, some, List, [], ◌∷◌, ◌++◌, map, str_eq, leb, if◌then◌else◌,
}
use Prim.Native.String.{◌++◌ as append}
use atlas_dns.Base.Int.{pos}
use atlas_dns.Base.Order.{less}
use atlas_dns.Base.Sort.{sort_by}
use atlas_dns.Base.Map.{lookup}
use atlas_dns.Controlplane.Model.{Difference, Ownership, is_node_managed, select}
use atlas_dns.Configuration.Model.{Document, DesiredDocument, SafeSearch, NodeSpecific, Shared}
use atlas_dns.Configuration.Clean.{Texts, member}
use atlas_dns.Configuration.Canonical.{
  canonicalise, canonicalise_desired, current_schema_version, no_node, nothing_observed,
}
use atlas_dns.Configuration.Rows.{Kind, Value, Row, rows}

-- `json.Marshal`, which does not fail on these values.
module _ (marshal : (k : Kind) → Value k → String) where
  abbrev pub difference_of : Row → Difference
  difference_of r = record {
    section = r.section;
    field = r.field;
    scope = r.scope;
    summary = append r.field " differs";
  }

  unfoldable pub differing : List Row → List Difference
  differing [] = []
  differing (r ∷ rs) =
      let later = differing rs in
      if str_eq (marshal r.kind r.left) (marshal r.kind r.right)
      then later
      else difference_of r ∷ later

  module _ (t : Texts) where
    unfoldable pub diff : Document → Document → List Difference
    unfolding rows differing
    diff left right =
        let a = canonicalise t left in
        let b = canonicalise t right in
        let fresh =
          leb current_schema_version a.schema_version
          || leb current_schema_version b.schema_version in
        differing (rows fresh a b)

    abbrev pub no_search : SafeSearch
    no_search = record {
      enabled = false;
      bing = false;
      duckduckgo = false;
      ecosia = false;
      google = false;
      pixabay = false;
      yandex = false;
      youtube = false;
    }

    -- The zero value of `SharedConfiguration`.
    abbrev pub no_shared : Shared
    no_shared = record {
      dns = record {
        upstream_dns = [];
        bootstrap_dns = [];
        fallback_dns = [];
        private_reverse_dns = [];
        protection_enabled = false;
        rate_limit = pos 0;
        rate_limit_ipv4 = pos 0;
        rate_limit_ipv6 = pos 0;
        rate_limit_allowlist = [];
        blocking_mode = "";
        blocking_ipv4 = "";
        blocking_ipv6 = "";
        blocked_response_ttl = pos 0;
        edns_client_subnet = false;
        edns_use_custom = false;
        edns_custom_ip = "";
        disable_ipv6 = false;
        dnssec_enabled = false;
        cache_size = pos 0;
        cache_enabled = false;
        cache_ttl_min = pos 0;
        cache_ttl_max = pos 0;
        cache_optimistic = false;
        upstream_mode = "";
        use_private_reverse = false;
        resolve_clients = false;
        upstream_timeout = pos 0;
      };
      filtering = record {
        enabled = false;
        update_interval = pos 0;
        filter_urls = [];
        whitelist_urls = [];
        user_rules = [];
      };
      clients = [];
      rewrites_enabled = false;
      rewrites = [];
      services = record {
        blocked_service_ids = [];
        blocked_schedule = record { time_zone = ""; days = [] };
        safe_browsing = false;
        parental_control = false;
        safe_search = no_search;
      };
      query_log = record {
        enabled = false;
        interval_millis = pos 0;
        anonymize_client_ip = false;
        ignored = [];
        ignored_enabled = false;
      };
      statistics = record {
        enabled = false;
        interval_millis = pos 0;
        ignored = [];
        ignored_enabled = false;
      };
    }

    abbrev pub shared_only : DesiredDocument → Document
    shared_only d = record {
      schema_version = 0;
      shared = d.shared;
      node_specific = no_node t;
      observed_only = nothing_observed t;
      unsupported = d.unsupported;
    }

    abbrev pub node_only : NodeSpecific → Document
    node_only n = record {
      schema_version = 0;
      shared = no_shared;
      node_specific = n;
      observed_only = nothing_observed t;
      unsupported = [];
    }

    -- The nodes of either document, each once.
    unfoldable pub other_ids :
        List (String × NodeSpecific) → List (String × NodeSpecific) → List String
    other_ids known [] = []
    other_ids known (entry ∷ entries) =
        let later = other_ids known entries in
        if member entry.0 (map (λ (e : String × NodeSpecific). e.0) known)
        then later
        else entry.0 ∷ later

    unfoldable pub ordered_ids : DesiredDocument → DesiredDocument → List String
    unfolding other_ids
    ordered_ids left right = sort_by less (
        map (λ (e : String × NodeSpecific). e.0) left.node_overrides
        ++ other_ids left.node_overrides right.node_overrides)

    abbrev pub missing_override : String → Difference
    missing_override id = record {
      section = "DNS";
      field = "Node override";
      scope = Ownership.node_managed;
      summary = append "node override differs for " id;
    }

    abbrev pub for_node : String → Difference → Difference
    for_node id d = record d { summary = append d.summary (append " for " id) }

    unfoldable pub override_differences :
        Option NodeSpecific → Option NodeSpecific → String → List Difference
    unfolding diff
    override_differences (some a) (some b) id =
        map (for_node id) (select (λ d. is_node_managed d.scope) (diff (node_only a) (node_only b)))
    override_differences _ _ id = missing_override id ∷ []

    unfoldable pub node_differences :
        DesiredDocument → DesiredDocument → List String → List Difference
    unfolding override_differences
    node_differences left right [] = []
    node_differences left right (id ∷ ids) =
        override_differences (lookup id left.node_overrides) (lookup id right.node_overrides) id
        ++ node_differences left right ids

    unfoldable pub diff_desired : DesiredDocument → DesiredDocument → List Difference
    unfolding diff node_differences ordered_ids
    diff_desired left right =
        let a = canonicalise_desired t left in
        let b = canonicalise_desired t right in
        diff (shared_only a) (shared_only b) ++ node_differences a b (ordered_ids a b)
