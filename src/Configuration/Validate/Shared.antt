-- ===== src/Configuration/Validate/Shared.antt =====
-- internal/configuration/model.go: what holds of shared settings without issues.
use atlas_dns.Base.{
  ℕ, ◌+◌, ◌≤◌, String, ◌≡◌, refl, ◌⊎◌, Bool, false, ◌||◌, List, [], ◌∷◌, ◌++◌, map, arith, str_eq,
}
use atlas_dns.Base.Int.{ℤ, pos, negsuc}
use atlas_dns.Base.Unique.{IsUnique, AreNew-IsUnique}
use atlas_dns.Configuration.Model.{Shared}
use atlas_dns.Configuration.Validate.Checks.{validate_schedule}
use atlas_dns.Configuration.Validate.Settings.{validate_v2_shared, is_bad_interval}
use atlas_dns.Base.Int.{ℤ, pos, negsuc}
use atlas_dns.Base.Unique.{AreNew, IsUnique, AreNew-IsUnique}
use atlas_dns.Configuration.Model.{Shared, PersistentClient, Rewrite}
use atlas_dns.Configuration.Clean.{Texts, member}
use atlas_dns.Configuration.Validate.Checks.{ValidationIssue, Network, validate_schedule}
use atlas_dns.Configuration.Validate.Settings.{
  check_ids, seen_ids, validate_clients, rewrite_key, validate_rewrites, validate_v2_shared,
  is_bad_interval,
}
use atlas_dns.Configuration.Validate.Bounds.{append-empty, when-empty}

-- No interval, or one between an hour and a year in milliseconds.
abbrev pub IsInterval : ℤ → Type 0
IsInterval z = (n : ℕ) × (z ≡ pos n) × ((n ≡ 0) ⊎ ((3600000 ≤ n) × (n ≤ 31536000000)))

sane-IsInterval : (z : ℤ) → is_bad_interval z ≡ false → IsInterval z
sane-IsInterval (pos n) e = (n, refl, ground arith)
sane-IsInterval (negsuc n) e = absurd (ground arith)

module _ (net : Network) (t : Texts) where
  abbrev pub lower_names : List PersistentClient → List String
  lower_names clients = map (λ (c : PersistentClient). t.lower c.name) clients

  -- The identifiers of all clients, in lower case.
  abbrev pub lower_ids : List PersistentClient → List String
  lower_ids [] = []
  lower_ids (c ∷ clients) = map t.lower c.ids ++ lower_ids clients

  -- Identifiers that are new, before others that are new after them.
  check_ids-AreNew :
      (repeated : ValidationIssue) (seen ids rest : List String)
      → check_ids net t repeated seen ids ≡ []
      → AreNew (seen_ids net t seen ids) rest
      → AreNew seen (map t.lower ids ++ rest)
  unfolding check_ids
  check_ids-AreNew repeated seen [] rest e new = new
  check_ids-AreNew repeated seen (id ∷ ids) rest e new =
      let (here, later) = append-empty _ _ e in
      (when-empty _ _ here, check_ids-AreNew repeated (t.lower id ∷ seen) ids rest later new)

  or_false : (a b : Bool) → (a || b) ≡ false → b ≡ false
  or_false a b e = ground arith

  last_false : (a b c : Bool) → (a || b || c) ≡ false → c ≡ false
  last_false a b c e = ground arith

  validate_clients-AreNew :
      (index : ℕ) (names ids : List String) (clients : List PersistentClient)
      → validate_clients net t index names ids clients ≡ []
      → AreNew names (lower_names clients) × AreNew ids (lower_ids clients)
  unfolding validate_clients
  validate_clients-AreNew index names ids [] e = (tt, tt)
  validate_clients-AreNew index names ids (c ∷ clients) e =
      let rest =
        validate_clients net t (index + 1) (t.lower c.name ∷ names) (seen_ids net t ids c.ids)
          clients in
      let (to_schedule, rest_ok) = append-empty _ rest e in
      let (to_size, schedule_ok) = append-empty _ _ to_schedule in
      let (to_ids, size_ok) = append-empty _ _ to_size in
      let (to_some, ids_ok) = append-empty _ _ to_ids in
      let (name_ok, some_ok) = append-empty _ _ to_some in
      let (new_names, new_ids) =
        validate_clients-AreNew (index + 1) (t.lower c.name ∷ names) (seen_ids net t ids c.ids)
          clients rest_ok in
      (
        (
          or_false (str_eq c.name "") (member (t.lower c.name) names) (when-empty _ _ name_ok),
          new_names,
        ),
        check_ids-AreNew _ ids c.ids (lower_ids clients) ids_ok new_ids,
      )

  validate_rewrites-AreNew :
      (index : ℕ) (seen : List String) (rewrites : List Rewrite)
      → validate_rewrites net t index seen rewrites ≡ []
      → AreNew seen (map (rewrite_key net t) rewrites)
  unfolding validate_rewrites
  validate_rewrites-AreNew index seen [] e = tt
  validate_rewrites-AreNew index seen (r ∷ rewrites) e =
      let (here, later) = append-empty _ _ e in
      (
        last_false (str_eq r.domain "") (str_eq r.answer "") (member (rewrite_key net t r) seen)
            (when-empty _ _ here),
        validate_rewrites-AreNew (index + 1) (rewrite_key net t r ∷ seen) rewrites later,
      )

  -- Shared settings in which the validation finds no issue: no two clients have the same name, no
  -- identifier stands twice, also not in two clients, no two rewrites are the same (all in lower
  -- case), and the query log and the statistics are kept for no time or an hour to a year.
  pub validate_v2_shared-IsUnique :
      (s : Shared)
      → validate_v2_shared net t s ≡ []
      → IsUnique (lower_names s.clients)
        × IsUnique (lower_ids s.clients)
        × IsUnique (map (rewrite_key net t) s.rewrites)
        × IsInterval s.query_log.interval_millis
        × IsInterval s.statistics.interval_millis
  unfolding validate_v2_shared
  validate_v2_shared-IsUnique s e =
      let schedule =
        validate_schedule net "shared.services.blockedSchedule" s.services.blocked_schedule in
      let rewrites = validate_rewrites net t 0 [] s.rewrites in
      let clients = validate_clients net t 0 [] [] s.clients in
      let (to_log_set, statistics_set_ok) = append-empty _ _ e in
      let (to_statistics, log_set_ok) = append-empty _ _ to_log_set in
      let (to_log, statistics_ok) = append-empty _ _ to_statistics in
      let (to_schedule, log_ok) = append-empty _ _ to_log in
      let (to_rewrites, schedule_ok) = append-empty _ schedule to_schedule in
      let (to_clients, rewrites_ok) = append-empty _ rewrites to_rewrites in
      let (dns_ok, clients_ok) = append-empty _ clients to_clients in
      let (names, ids) = validate_clients-AreNew 0 [] [] s.clients clients_ok in
      (
        AreNew-IsUnique [] _ names,
        AreNew-IsUnique [] _ ids,
        AreNew-IsUnique [] _ (validate_rewrites-AreNew 0 [] s.rewrites rewrites_ok),
        sane-IsInterval s.query_log.interval_millis (when-empty _ _ log_ok),
        sane-IsInterval s.statistics.interval_millis (when-empty _ _ statistics_ok),
      )
