-- ===== src/Availability/Certificates.antt =====
-- internal/haoperations/service.go: what the observed TLS state of a node says of its certificate.
--
-- The hours of `Sub` are counted without the rounding of `float64`.
use atlas_dns.Base.{
  ℕ, ◌-◌, ◌/◌, String, Bool, true, false, not, ◌&&◌, Option, none, some, List, [], ◌∷◌, map, str_eq,
  ltb, leb, if◌then◌else◌,
}
use Prim.Native.String
use atlas_dns.Domain.{Node}
use atlas_dns.Controlplane.Model.{Snapshot}
use atlas_dns.Availability.Model.{
  Certificate, CertificateState, Days, ahead, ago, Check, CheckStatus, TlsStatus, Observed,
}

-- `strings.TrimSpace`, `time.Parse` of a trimmed value by a layout, and `Format` as a date.
pub record Clocks : Type 0 where
  pub trim : String → String
  pub parse : String → String → Option ℕ
  pub format_date : ℕ → String

-- A day in nanoseconds.
abbrev pub day : ℕ
day = 86400000000000

unfoldable pub days_between : ℕ → ℕ → Days
days_between now expiry =
    if ltb expiry now then ago ((now - expiry) / day) else ahead ((expiry - now) / day)

abbrev pub within : Days → ℕ → Bool
within (ago n) limit = true
within (ahead n) limit = leb n limit

-- The `switch` over the days that remain.
unfoldable pub certificate_state : ℕ → ℕ → ℕ → ℕ → CertificateState
unfolding days_between
certificate_state critical_days warning_days now expiry =
    let days = days_between now expiry in
    if not (ltb now expiry)
    then CertificateState.expired
    else if within days critical_days
    then CertificateState.critical
    else if within days warning_days
    then CertificateState.warning
    else CertificateState.healthy

-- `byNode[id]`: the last snapshot of the node.
unfoldable pub snapshot_of : String → List (Snapshot Observed) → Option (Snapshot Observed)
snapshot_of id [] = none
snapshot_of id (s ∷ ss) = elim (snapshot_of id ss) [
  | some t ↦ some t
  | none ↦ if str_eq s.node_id id then some s else none
]

module _ (clocks : Clocks) where
  unfoldable pub parse_certificate_time : String → Option ℕ
  parse_certificate_time value = elim (clocks.parse "RFC3339" (clocks.trim value)) [
    | some at ↦ some at
    | none ↦ elim (clocks.parse "2006-01-02T15:04:05Z07:00" (clocks.trim value)) [
      | some at ↦ some at
      | none ↦ clocks.parse "2006-01-02 15:04:05Z07:00" (clocks.trim value)
    ]
  ]

  unfoldable pub tls_certificate : ℕ → ℕ → ℕ → TlsStatus → Certificate → Certificate
  unfolding certificate_state parse_certificate_time
  tls_certificate critical_days warning_days now tls c =
      let named = record c { subject = tls.subject; issuer = tls.issuer } in
      if not tls.enabled
      then record c { state = CertificateState.not_applicable }
      else if not tls.valid_certificate
      then named
      else elim (parse_certificate_time tls.not_after) [
        | none ↦ named
        | some expiry ↦ record named {
          not_after = some expiry;
          days_remaining = some (days_between now expiry);
          state = certificate_state critical_days warning_days now expiry;
        }
      ]

  -- The body of the loop of `Certificates`.
  unfoldable pub node_certificate : ℕ → ℕ → ℕ → List (Snapshot Observed) → Node → Certificate
  unfolding tls_certificate snapshot_of
  node_certificate critical_days warning_days now snapshots node =
      let c : Certificate = record {
        node_id = node.id;
        node_name = node.name;
        subject = "";
        issuer = "";
        not_after = none;
        days_remaining = none;
        state = CertificateState.unknown;
        observed_at = none;
      } in
      elim (snapshot_of node.id snapshots) [
        | none ↦ c
        | some s ↦
            let seen = record c { observed_at = some s.observed_at } in
            if not (str_eq s.collection_status "") && not (str_eq s.collection_status "succeeded")
            then seen
            else elim s.document [
              | none ↦ seen
              | some document ↦ tls_certificate critical_days warning_days now document.tls seen
            ]
      ]

  unfoldable pub certificates_of :
      ℕ → ℕ → ℕ → List (Snapshot Observed) → List Node → List Certificate
  unfolding node_certificate
  certificates_of critical_days warning_days now snapshots nodes =
      map (node_certificate critical_days warning_days now snapshots) nodes

  abbrev pub tls_failure : String → String → Check
  tls_failure code message = record {
    name = "tls";
    status = CheckStatus.fail;
    required = true;
    error_code = code;
    message = message;
  }

  abbrev pub tls_unknown : Check
  tls_unknown = record {
    name = "tls";
    status = CheckStatus.unknown;
    required = true;
    error_code = "TLS_STATE_UNAVAILABLE";
    message = "TLS configuration state could not be verified from the fresh observation";
  }

  -- `returnTLSCheck`, on the end of the validity.
  unfoldable pub check_not_after : ℕ → TlsStatus → Check
  unfolding parse_certificate_time
  check_not_after now tls =
      if str_eq (clocks.trim tls.not_after) ""
      then tls_failure "TLS_CERTIFICATE_TIME_INVALID" "TLS certificate expiry was not reported"
      else elim (parse_certificate_time tls.not_after) [
        | none ↦
            tls_failure "TLS_CERTIFICATE_TIME_INVALID"
              "TLS certificate expiry could not be interpreted"
        | some at ↦
            if not (ltb now at)
            then tls_failure "TLS_CERTIFICATE_EXPIRED"
                (String.◌++◌ "TLS certificate expired on " (clocks.format_date at))
            else record {
              name = "tls";
              status = CheckStatus.pass;
              required = true;
              error_code = "";
              message =
                  "TLS encryption is enabled and AdGuard Home reports valid certificate metadata";
            }
      ]

  -- On the validity from its start on.
  unfoldable pub check_times : ℕ → TlsStatus → Check
  unfolding parse_certificate_time
  check_times now tls =
      if str_eq (clocks.trim tls.not_before) ""
      then check_not_after now tls
      else elim (parse_certificate_time tls.not_before) [
        | none ↦
            tls_failure "TLS_CERTIFICATE_TIME_INVALID"
              "TLS certificate start time could not be interpreted"
        | some at ↦
            if ltb now at
            then tls_failure "TLS_CERTIFICATE_NOT_YET_VALID"
                (String.◌++◌ "TLS certificate is not valid before " (clocks.format_date at))
            else check_not_after now tls
      ]

  unfoldable pub check_tls : ℕ → TlsStatus → Check
  check_tls now tls =
      if not tls.enabled
      then record {
        name = "tls";
        status = CheckStatus.not_applicable;
        required = false;
        error_code = "";
        message = "TLS encryption is not enabled on this node; check is not applicable";
      }
      else if not tls.valid_certificate
      then tls_failure "TLS_CERTIFICATE_INVALID"
          "AdGuard Home reports that the TLS certificate is missing or invalid"
      else if not tls.valid_chain
      then tls_failure "TLS_CERTIFICATE_CHAIN_INVALID"
          "AdGuard Home reports that the TLS certificate chain is invalid"
      else if not tls.valid_key
      then tls_failure "TLS_PRIVATE_KEY_INVALID"
          "AdGuard Home reports that the TLS private key is invalid"
      else if not tls.valid_pair
      then tls_failure "TLS_CERTIFICATE_KEY_MISMATCH"
          "AdGuard Home reports that the TLS certificate and private key do not match"
      else check_times now tls

  -- `returnTLSCheck`: `none` is an observation that failed.
  unfoldable pub return_tls_check : ℕ → Option (Snapshot Observed) → Check
  return_tls_check now none = tls_unknown
  return_tls_check now (some s) =
      if not (str_eq s.collection_status "succeeded")
      then tls_unknown
      else elim s.document [ none ↦ tls_unknown | some document ↦ check_tls now document.tls ]
