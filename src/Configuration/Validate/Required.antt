-- ===== src/Configuration/Validate/Required.antt =====
-- internal/configuration/model.go: the validation of a desired document for the enabled nodes.
use atlas_dns.Base.{
  ℕ, ◌+◌, String, Bool, false, not, Option, none, some, List, [], ◌∷◌, ◌++◌, ltb, ◌==◌,
  if◌then◌else◌,
}
use Prim.Native.String.{◌++◌ as append}
use atlas_dns.Base.Map.{lookup}
use atlas_dns.Configuration.Model.{DesiredDocument, NodeSpecific, DhcpConfig}
use atlas_dns.Configuration.Clean.{Texts}
use atlas_dns.Configuration.Canonical.{
  canonicalise_desired, current_schema_version, is_legacy_converted,
}
use atlas_dns.Configuration.Validate.Checks.{
  ValidationIssue, Network, issue, when, each_index, valid_http_url, validate_node_specific,
}
use atlas_dns.Configuration.Validate.Leases.{validate_dhcp}
use atlas_dns.Configuration.Validate.Settings.{is_out_of, validate_v2_shared}

abbrev pub enables_dhcp : Option DhcpConfig → Bool
enables_dhcp none = false
enables_dhcp (some config) = config.enabled

module _ (net : Network) (t : Texts) where
  abbrev pub validate_option : String → Option DhcpConfig → List ValidationIssue
  validate_option prefix none = []
  validate_option prefix (some config) = validate_dhcp net t prefix config

  unfoldable pub validate_override : String → Option NodeSpecific → List ValidationIssue
  unfolding validate_node_specific
  validate_override id none =
      issue (append "nodeOverrides." id) "is required for every enabled node" ∷ []
  validate_override id (some override) =
      validate_node_specific net (append "nodeOverrides." id) override
      ++ validate_option (append "nodeOverrides." (append id ".dhcp")) override.dhcp

  -- The issues of the nodes' overrides.
  unfoldable pub validate_overrides :
      List (String × NodeSpecific) → List String → List ValidationIssue
  unfolding validate_override
  validate_overrides overrides [] = []
  validate_overrides overrides (id ∷ ids) =
      validate_override id (lookup id overrides) ++ validate_overrides overrides ids

  abbrev pub runs_dhcp : Option NodeSpecific → Bool
  runs_dhcp none = false
  runs_dhcp (some override) = enables_dhcp override.dhcp

  -- `enabledDHCP` after the loop.
  unfoldable pub enabled_dhcp : List (String × NodeSpecific) → List String → ℕ
  enabled_dhcp overrides [] = 0
  enabled_dhcp overrides (id ∷ ids) =
      (if runs_dhcp (lookup id overrides) then 1 else 0) + enabled_dhcp overrides ids

  unfoldable pub validate_desired : DesiredDocument → List String → List ValidationIssue
  validate_desired provided ids =
      let document = canonicalise_desired t provided in
      when (not (provided.schema_version == current_schema_version))
        (issue "schemaVersion" "must be 2")
      ++ when (is_out_of 8760 document.shared.filtering.update_interval)
          (issue "shared.filtering.updateIntervalHours" "must be between 0 and 8760")
      ++ when (is_legacy_converted document.unsupported) (
          issue "unsupported"
            "legacy schema-1 records must be imported and published as a fresh schema-2 revision before deployment")
      ++ each_index net (valid_http_url net) "shared.filtering.filterUrls"
          "must be an absolute HTTP or HTTPS URL" 0 document.shared.filtering.filter_urls
      ++ each_index net (valid_http_url net) "shared.filtering.whitelistUrls"
          "must be an absolute HTTP or HTTPS URL" 0 document.shared.filtering.whitelist_urls
      ++ validate_v2_shared net t document.shared
      ++ validate_overrides document.node_overrides ids
      ++ when (ltb 1 (enabled_dhcp document.node_overrides ids))
          (issue "nodeOverrides" "DHCP may be enabled on at most one node")
