-- ===== src/Configuration/Clean.antt =====
-- internal/configuration/model.go: the cleaning of lists, schedules and DHCP settings.
use atlas_dns.Base.{String, ◌≡◌, Bool, ◌||◌, List, [], ◌∷◌, map, str_eq, if◌then◌else◌, any}
use atlas_dns.Base.Order.{less}
use atlas_dns.Base.Sort.{sort_by}
use atlas_dns.Configuration.Model.{DhcpConfig, DhcpStaticLease, Schedule}

-- `strings.TrimSpace`, `strings.ToLower` and `strings.EqualFold`.
pub record Texts : Type 0 where
  pub trim : String → String
  pub lower : String → String
  pub equal_fold : String → String → Bool

-- What the code relies on: trimming and lowering change nothing a second time, and the text in
-- lower case of a trimmed one is trimmed.
pub record TextLaws (t : Texts) : Type 0 where
  pub trim-trim : (s : String) → t.trim (t.trim s) ≡ t.trim s
  pub lower-lower : (s : String) → t.lower (t.lower s) ≡ t.lower s
  pub trim-lower-trim : (s : String) → t.trim (t.lower (t.trim s)) ≡ t.lower (t.trim s)
  pub equal_fold_sym : (a b : String) → t.equal_fold a b ≡ t.equal_fold b a

abbrev pub member : String → List String → Bool
member key keys = any (λ k. str_eq k key) keys

module _ (t : Texts) where
  unfoldable pub clean_ordered : List String → List String
  clean_ordered [] = []
  clean_ordered (v ∷ vs) =
      let rest = clean_ordered vs in if str_eq (t.trim v) "" then rest else t.trim v ∷ rest

  -- The loop of `cleanSet`, with the keys `seen`.
  unfoldable pub first_of_each : List String → List String → List String
  first_of_each seen [] = []
  first_of_each seen (v ∷ vs) =
      let w = t.trim v in
      let skipping = first_of_each seen vs in
      let taking = first_of_each (t.lower w ∷ seen) vs in
      if str_eq w "" || member (t.lower w) seen then skipping else w ∷ taking

  abbrev pub lower_less : String → String → Bool
  lower_less a b = less (t.lower a) (t.lower b)

  unfoldable pub clean_set : List String → List String
  unfolding first_of_each
  clean_set values = sort_by lower_less (first_of_each [] values)

  unfoldable pub canonical_schedule : Schedule → Schedule
  canonical_schedule schedule = record schedule { time_zone = t.trim schedule.time_zone }

  unfoldable pub canonical_lease : DhcpStaticLease → DhcpStaticLease
  canonical_lease lease = record {
    mac = t.lower (t.trim lease.mac);
    ip = t.trim lease.ip;
    hostname = t.trim lease.hostname;
  }

  abbrev pub lease_less : DhcpStaticLease → DhcpStaticLease → Bool
  lease_less a b = less a.mac b.mac

  unfoldable pub canonicalise_dhcp : DhcpConfig → DhcpConfig
  unfolding canonical_lease
  canonicalise_dhcp config = record config {
    interface_name = t.trim config.interface_name;
    static_leases = sort_by lease_less (map canonical_lease config.static_leases);
  }
