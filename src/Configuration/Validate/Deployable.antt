-- ===== src/Configuration/Validate/Deployable.antt =====
-- internal/configuration/model.go: what holds of a desired document without issues.
use atlas_dns.Base.{
  ℕ, ◌≤◌, String, ◌≡◌, refl, sym, ◌∙◌, inl, inr, true, false, not, some, List, [], ◌∷◌, arith, ltb,
  ◌==◌, Bool-cases, Option-cases, All,
}
use Prim.Native.String.{◌++◌ as append_text}
use atlas_dns.Configuration.Validate.Required.{validate_option}
use atlas_dns.Base.Int.{ℤ, pos, negsuc}
use atlas_dns.Base.Map.{lookup}
use atlas_dns.Configuration.Model.{DesiredDocument, NodeSpecific}
use atlas_dns.Configuration.Clean.{Texts}
use atlas_dns.Configuration.Canonical.{
  canonicalise_desired, canonicalise, canonical_shared, current_schema_version, is_legacy_converted,
}
use atlas_dns.Configuration.Validate.Checks.{
  Network, when, validate_node_specific, each_index, valid_http_url, issue,
}
use atlas_dns.Configuration.Validate.Settings.{is_out_of, validate_v2_shared}
use atlas_dns.Configuration.Validate.Required.{
  validate_override, validate_overrides, runs_dhcp, enabled_dhcp, validate_desired,
}
use atlas_dns.Configuration.Validate.Bounds.{
  append-empty, when-empty, IsListener, validate_node_specific-IsListener,
}

sane_interval : (z : ℤ) → is_out_of 8760 z ≡ false → (n : ℕ) × (z ≡ pos n) × (n ≤ 8760)
sane_interval (pos n) e = (n, refl, ground arith)
sane_interval (negsuc n) e = absurd (ground arith)

at_most_one : (n : ℕ) → ltb 1 n ≡ false → n ≤ 1
at_most_one n e = ground arith

module _ (net : Network) (t : Texts) where
  -- The node has an override whose listener may be kept.
  abbrev pub HasListener : List (String × NodeSpecific) → String → Type 0
  HasListener overrides id = (o : NodeSpecific) × (lookup id overrides ≡ some o) × IsListener net o

  -- Of the nodes, at most one runs DHCP.
  abbrev pub IsExclusive : List (String × NodeSpecific) → List String → Type 0
  IsExclusive overrides [] = Unit
  IsExclusive overrides (id ∷ ids) =
      (runs_dhcp net t (lookup id overrides) ≡ true
        → All (λ j. runs_dhcp net t (lookup j overrides) ≡ false) ids)
      × IsExclusive overrides ids

  no_dhcp :
      (overrides : List (String × NodeSpecific)) (ids : List String)
      → enabled_dhcp net t overrides ids ≡ 0
      → All (λ j. runs_dhcp net t (lookup j overrides) ≡ false) ids
  unfolding enabled_dhcp
  no_dhcp overrides [] e = tt
  no_dhcp overrides (id ∷ ids) e = elim (Bool-cases (runs_dhcp net t (lookup id overrides))) [
    | inl runs ↦ absurd (ground arith)
    | inr other ↦ (other, no_dhcp overrides ids (ground arith))
  ]

  enabled_dhcp-IsExclusive :
      (overrides : List (String × NodeSpecific)) (ids : List String)
      → enabled_dhcp net t overrides ids ≤ 1
      → IsExclusive overrides ids
  unfolding enabled_dhcp
  enabled_dhcp-IsExclusive overrides [] h = tt
  enabled_dhcp-IsExclusive overrides (id ∷ ids) h = (
    λ runs. no_dhcp overrides ids (ground arith),
    enabled_dhcp-IsExclusive overrides ids (ground arith),
  )

  validate_override-HasListener :
      (overrides : List (String × NodeSpecific)) (id : String)
      → validate_override net t id (lookup id overrides) ≡ []
      → HasListener overrides id
  unfolding validate_override
  validate_override-HasListener overrides id e = elim (Option-cases (lookup id overrides)) [
    | inl missing ↦ absurd (ground arith)
    | inr (o, found) ↦
        let listener = validate_node_specific net (append_text "nodeOverrides." id) o in
        let dhcp =
          validate_option net t (append_text "nodeOverrides." (append_text id ".dhcp")) o.dhcp in
        let (sound, rest) = append-empty listener dhcp (ground arith) in
        (o, found, validate_node_specific-IsListener net (append_text "nodeOverrides." id) o sound)
  ]

  validate_overrides-All :
      (overrides : List (String × NodeSpecific)) (ids : List String)
      → validate_overrides net t overrides ids ≡ []
      → All (HasListener overrides) ids
  unfolding validate_overrides
  validate_overrides-All overrides [] e = tt
  validate_overrides-All overrides (id ∷ ids) e =
      let (here, later) =
        append-empty (validate_override net t id (lookup id overrides))
          (validate_overrides net t overrides ids) e in
      (validate_override-HasListener overrides id here, validate_overrides-All overrides ids later)

  -- What a document without issues is.
  pub record IsDeployable (d : DesiredDocument) (ids : List String) : Type 0 where
    pub is_current : d.schema_version ≡ current_schema_version
    pub no_legacy : is_legacy_converted (canonicalise_desired t d).unsupported ≡ false
    pub interval : ℕ
    pub is_interval : d.shared.filtering.update_interval ≡ pos interval
    pub at_most : interval ≤ 8760
    pub listeners : All (HasListener (canonicalise_desired t d).node_overrides) ids
    pub exclusive : IsExclusive (canonicalise_desired t d).node_overrides ids

  interval_of :
      (d : DesiredDocument)
      → (canonicalise_desired t d).shared.filtering.update_interval
        ≡ d.shared.filtering.update_interval
  unfolding canonicalise_desired canonicalise canonical_shared
  interval_of d = refl

  -- A desired document in which the validation for the enabled nodes finds no issue is of the
  -- current schema and no legacy record, its update interval is at most a year, every one of the
  -- nodes has an override with a port from 1 to 65535 and addresses to listen on, and at most one
  -- of the nodes runs DHCP.
  pub validate_desired-IsDeployable :
      (d : DesiredDocument) (ids : List String)
      → validate_desired net t d ids ≡ []
      → IsDeployable d ids
  unfolding validate_desired
  validate_desired-IsDeployable d ids e =
      let c = canonicalise_desired t d in
      let current =
        when (not (d.schema_version == current_schema_version))
          (issue "schemaVersion" "must be 2") in
      let updates =
        when (is_out_of 8760 c.shared.filtering.update_interval)
          (issue "shared.filtering.updateIntervalHours" "must be between 0 and 8760") in
      let legacy = when (is_legacy_converted c.unsupported) (
        issue "unsupported"
          "legacy schema-1 records must be imported and published as a fresh schema-2 revision before deployment") in
      let filters =
        each_index net (valid_http_url net) "shared.filtering.filterUrls"
          "must be an absolute HTTP or HTTPS URL" 0 c.shared.filtering.filter_urls in
      let allowed =
        each_index net (valid_http_url net) "shared.filtering.whitelistUrls"
          "must be an absolute HTTP or HTTPS URL" 0 c.shared.filtering.whitelist_urls in
      let settings = validate_v2_shared net t c.shared in
      let overrides = validate_overrides net t c.node_overrides ids in
      let single =
        when (ltb 1 (enabled_dhcp net t c.node_overrides ids))
          (issue "nodeOverrides" "DHCP may be enabled on at most one node") in
      let (to_overrides, single_ok) = append-empty _ single e in
      let (to_settings, overrides_ok) = append-empty _ overrides to_overrides in
      let (to_allowed, settings_ok) = append-empty _ settings to_settings in
      let (to_filters, allowed_ok) = append-empty _ allowed to_allowed in
      let (to_legacy, filters_ok) = append-empty _ filters to_filters in
      let (to_updates, legacy_ok) = append-empty _ legacy to_legacy in
      let (current_ok, updates_ok) = append-empty current updates to_updates in
      let same : not (d.schema_version == current_schema_version) ≡ false =
        when-empty _ _ current_ok in
      let (n, is_interval, at_most) =
        sane_interval c.shared.filtering.update_interval (when-empty _ _ updates_ok) in
      record {
        is_current = ground arith;
        no_legacy = when-empty _ _ legacy_ok;
        interval = n;
        is_interval = sym (interval_of d) ∙ is_interval;
        at_most = at_most;
        listeners = validate_overrides-All c.node_overrides ids overrides_ok;
        exclusive =
            enabled_dhcp-IsExclusive c.node_overrides ids
              (at_most_one (enabled_dhcp net t c.node_overrides ids) (when-empty _ _ single_ok));
      }
