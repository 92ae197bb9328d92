-- ===== src/Availability/Validity.antt =====
-- internal/haoperations/service.go: what `returnTLSCheck` lets pass.
use atlas_dns.Base.{
  ℕ, ◌≤◌, ◌<◌, ◌≡◌, refl, ◌⊎◌, inl, inr, true, false, ◌&&◌, Option, none, some, arith, str_eq,
  eq_iff, ltb→lt, lt→ltb, Bool-cases, Option-cases,
}
use atlas_dns.Controlplane.Model.{Snapshot}
use atlas_dns.Availability.Model.{CheckStatus, TlsStatus, Observed}
use atlas_dns.Availability.Certificates.{
  Clocks, parse_certificate_time, check_not_after, check_times, check_tls, return_tls_check,
}

module _ (clocks : Clocks) where
  -- TLS needs no attention at a time.
  abbrev pub IsValidAt : ℕ → TlsStatus → Type 0
  IsValidAt now tls =
      (tls.valid_certificate ≡ true)
      × (tls.valid_chain ≡ true)
      × (tls.valid_key ≡ true)
      × (tls.valid_pair ≡ true)
      × ((clocks.trim tls.not_before ≡ "")
          ⊎ ((start : ℕ) × (parse_certificate_time clocks tls.not_before ≡ some start)
              × (start ≤ now)))
      × ((expiry : ℕ) × (parse_certificate_time clocks tls.not_after ≡ some expiry)
          × (now < expiry))

  check_not_after_passes :
      (now : ℕ) (tls : TlsStatus)
      → (check_not_after clocks now tls).status ≡ CheckStatus.pass
      → (expiry : ℕ) × (parse_certificate_time clocks tls.not_after ≡ some expiry) × (now < expiry)
  unfolding check_not_after
  check_not_after_passes now tls e =
      elim (Option-cases (parse_certificate_time clocks tls.not_after)) [
        | inl missing ↦ ground arith
        | inr (expiry, found) ↦ (expiry, found, grind (arith, ltb→lt, lt→ltb))
      ]

  check_times_passes :
      (now : ℕ) (tls : TlsStatus)
      → (check_times clocks now tls).status ≡ CheckStatus.pass
      → ((clocks.trim tls.not_before ≡ "")
          ⊎ ((start : ℕ) × (parse_certificate_time clocks tls.not_before ≡ some start)
              × (start ≤ now)))
        × ((check_not_after clocks now tls).status ≡ CheckStatus.pass)
  unfolding check_times
  check_times_passes now tls e = elim (Bool-cases (str_eq (clocks.trim tls.not_before) "")) [
    | inl blank ↦ (inl (ground (arith, eq_iff (clocks.trim tls.not_before) "")), ground arith)
    | inr given ↦ elim (Option-cases (parse_certificate_time clocks tls.not_before)) [
      | inl missing ↦ ground arith
      | inr (start, found) ↦ (inr (start, found, grind (arith, ltb→lt, lt→ltb)), ground arith)
    ]
  ]

  check_times_required : (now : ℕ) (tls : TlsStatus) → (check_times clocks now tls).required ≡ true
  unfolding check_times check_not_after
  check_times_required now tls = ground arith

  check_tls_passes :
      (now : ℕ) (tls : TlsStatus)
      → ((check_tls clocks now tls).required ≡ false)
        ⊎ ((check_tls clocks now tls).status ≡ CheckStatus.pass)
      → (tls.enabled ≡ false) ⊎ IsValidAt now tls
  unfolding check_tls
  check_tls_passes now tls e =
      let required = check_times_required now tls in
      elim (Bool-cases (
        tls.enabled && tls.valid_certificate && tls.valid_chain && tls.valid_key
        && tls.valid_pair)) [
          | inr lacking ↦ inl (ground arith)
          | inl sound ↦
              let passed : (check_times clocks now tls).status ≡ CheckStatus.pass = ground arith in
              let (started, ends) = check_times_passes now tls passed in
              inr (
                ground arith,
                ground arith,
                ground arith,
                ground arith,
                started,
                check_not_after_passes now tls ends,
              )
        ]

  -- The check of TLS on a return to service does not block only if the observation shows TLS
  -- disabled, or the certificate, its chain and its key valid, a pair, and in force now.
  pub return_tls_check_passes :
      (now : ℕ) (s : Option (Snapshot Observed))
      → ((return_tls_check clocks now s).required ≡ false)
        ⊎ ((return_tls_check clocks now s).status ≡ CheckStatus.pass)
      → (shot : Snapshot Observed) × (document : Observed) × (s ≡ some shot)
        × (shot.document ≡ some document)
        × ((document.tls.enabled ≡ false) ⊎ IsValidAt now document.tls)
  unfolding return_tls_check
  return_tls_check_passes now none e = ground arith
  return_tls_check_passes now (some shot) e =
      elim (Bool-cases (str_eq shot.collection_status "succeeded")) [
        | inr other ↦ ground arith
        | inl collected ↦ elim (Option-cases shot.document) [
          | inl missing ↦ ground arith
          | inr (document, found) ↦
              (shot, document, refl, found, check_tls_passes now document.tls (ground arith))
        ]
      ]
