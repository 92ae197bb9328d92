-- ===== src/Configuration/InOrder.antt =====
-- internal/configuration/model.go: the lists of a document in canonical form.
use mathlib.Core.Option
use atlas_dns.Base.{◌≡◌, Bool, true, false, Option, none, some, List, map, All}
use atlas_dns.Base.Order.{less_asym}
use atlas_dns.Base.Sort.{sort_by, sort_by-All, IsSortedBy, sort_by-IsSortedBy, All-map}
use atlas_dns.Configuration.Model.{Document, Shared, PersistentClient, DhcpConfig}
use atlas_dns.Configuration.Clean.{Texts, TextLaws, canonical_lease, lease_less, canonicalise_dhcp}
use atlas_dns.Configuration.Cleaned.{IsClean}
use atlas_dns.Configuration.Sets.{
  IsTidySet, IsSetOf, clean_set-IsSetOf, clean_ordered-IsClean, count, count-sort_by,
}
use atlas_dns.Configuration.Canonical.{
  area_less, converted_areas, canonical_client, client_less, canonical_rewrite, rewrite_less,
  canonical_dns, canonical_shared, canonical_node, canonicalise,
}
use atlas_dns.Configuration.Settled.{area_less_asym, rewrite_less_asym, canonicalise-canonicalise}

-- The elements of a list, each as often as there, in the order of the test.
abbrev pub Sorts : {A : Type 0} → (A → A → Bool) → List A → List A → Type 0
Sorts {A} before xs ys = IsSortedBy before ys × ((p : A → Bool) → count p ys ≡ count p xs)

sort_by-Sorts :
    {A : Type 0} (before : A → A → Bool)
    → ((x y : A) → before x y ≡ true → before y x ≡ false)
    → (xs : List A) → Sorts before xs (sort_by before xs)
sort_by-Sorts before asym xs = (sort_by-IsSortedBy before asym xs, λ p. count-sort_by before p xs)

module _ (t : Texts) where
  -- The lists of a client, of the client as it was.
  abbrev pub ClientIsClean : PersistentClient → Type 0
  ClientIsClean c =
      (t.trim c.name ≡ c.name)
      × IsTidySet t c.ids
      × IsTidySet t c.blocked_services
      × IsTidySet t c.tags
      × All (IsClean t) c.upstreams

  abbrev pub SharedInOrder : Shared → Shared → Type 0
  SharedInOrder s c =
      (IsSetOf t s.dns.bootstrap_dns c.dns.bootstrap_dns
        × IsSetOf t s.dns.private_reverse_dns c.dns.private_reverse_dns
        × IsSetOf t s.dns.rate_limit_allowlist c.dns.rate_limit_allowlist
        × All (IsClean t) c.dns.upstream_dns
        × All (IsClean t) c.dns.fallback_dns)
      × (IsSetOf t s.filtering.filter_urls c.filtering.filter_urls
          × IsSetOf t s.filtering.whitelist_urls c.filtering.whitelist_urls
          × All (IsClean t) c.filtering.user_rules)
      × IsSetOf t s.services.blocked_service_ids c.services.blocked_service_ids
      × IsSetOf t s.query_log.ignored c.query_log.ignored
      × IsSetOf t s.statistics.ignored c.statistics.ignored
      × All ClientIsClean c.clients
      × Sorts (client_less t) (map (canonical_client t) s.clients) c.clients
      × Sorts (rewrite_less t) (map (canonical_rewrite t) s.rewrites) c.rewrites

  abbrev pub DhcpInOrder : Option DhcpConfig → Option DhcpConfig → Type 0
  DhcpInOrder none none = Unit
  DhcpInOrder (some d) (some c) =
      Sorts (lease_less t) (map (canonical_lease t) d.static_leases) c.static_leases
  DhcpInOrder _ _ = ⊥

  -- The lists of the second document are those of the first, cleaned and in order.
  abbrev pub InOrder : Document → Document → Type 0
  InOrder d c =
      SharedInOrder d.shared c.shared
      × IsSetOf t d.node_specific.bind_hosts c.node_specific.bind_hosts
      × DhcpInOrder d.node_specific.dhcp c.node_specific.dhcp
      × IsSetOf t d.observed_only.tls.dns_names c.observed_only.tls.dns_names
      × Sorts area_less (converted_areas d.schema_version d.unsupported) c.unsupported

  module _ (laws : TextLaws t) where
    canonical_client-ClientIsClean : (c : PersistentClient) → ClientIsClean (canonical_client t c)
    unfolding canonical_client
    canonical_client-ClientIsClean c = (
      laws.trim-trim c.name,
      (clean_set-IsSetOf t laws c.ids).0,
      (clean_set-IsSetOf t laws c.blocked_services).0,
      (clean_set-IsSetOf t laws c.tags).0,
      clean_ordered-IsClean t laws c.upstreams,
    )

    canonical_shared-SharedInOrder : (s : Shared) → SharedInOrder s (canonical_shared t s)
    unfolding canonical_shared canonical_dns
    canonical_shared-SharedInOrder s =
        let set = clean_set-IsSetOf t laws in
        let ordered = clean_ordered-IsClean t laws in
        let clients = map (canonical_client t) s.clients in
        (
          (
            set s.dns.bootstrap_dns,
            set s.dns.private_reverse_dns,
            set s.dns.rate_limit_allowlist,
            ordered s.dns.upstream_dns,
            ordered s.dns.fallback_dns,
          ),
          (
            set s.filtering.filter_urls,
            set s.filtering.whitelist_urls,
            ordered s.filtering.user_rules,
          ),
          set s.services.blocked_service_ids,
          set s.query_log.ignored,
          set s.statistics.ignored,
          sort_by-All (client_less t) ClientIsClean clients
              (All-map ClientIsClean (canonical_client t) s.clients canonical_client-ClientIsClean),
          sort_by-Sorts (client_less t) (λ a b. less_asym (t.lower a.name) (t.lower b.name))
              clients,
          sort_by-Sorts (rewrite_less t) (rewrite_less_asym t laws)
              (map (canonical_rewrite t) s.rewrites),
        )

    canonicalise_dhcp-DhcpInOrder :
        (d : Option DhcpConfig) → DhcpInOrder d (Option.map (canonicalise_dhcp t) d)
    unfolding canonicalise_dhcp
    canonicalise_dhcp-DhcpInOrder none = tt
    canonicalise_dhcp-DhcpInOrder (some d) =
        sort_by-Sorts (lease_less t) (λ a b. less_asym a.mac b.mac)
          (map (canonical_lease t) d.static_leases)

    -- `Canonicalise` leaves a document in canonical form as it is, and its lists are cleaned and
    -- in order. Those cleaned as sets have trimmed values that are not blank, no two the same but
    -- for the case of letters, in the order of their lower case, and just the values that the
    -- list had; those whose order matters have trimmed values that are not blank; and the clients,
    -- rewrites, static leases and notes are those of the document, each in canonical form, sorted.
    pub canonicalise-InOrder :
        (d : Document) → let c = canonicalise t d in (canonicalise t c ≡ c) × InOrder d c
    unfolding canonicalise canonical_node
    canonicalise-InOrder d = (
      canonicalise-canonicalise t laws d,
      (
        canonical_shared-SharedInOrder d.shared,
        clean_set-IsSetOf t laws d.node_specific.bind_hosts,
        canonicalise_dhcp-DhcpInOrder d.node_specific.dhcp,
        clean_set-IsSetOf t laws d.observed_only.tls.dns_names,
        sort_by-Sorts area_less area_less_asym (converted_areas d.schema_version d.unsupported),
      ),
    )
