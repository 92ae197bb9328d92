-- ===== src/Configuration/Validate/Checks.antt =====
-- internal/configuration/model.go: the checks of single values, and what they need of Go's library.
use atlas_dns.Base.{
  ℕ, ◌+◌, String, Bool, true, false, not, ◌&&◌, ◌||◌, Option, none, some, List, [], ◌∷◌, ◌++◌,
  str_eq, ltb, leb, ◌==◌, if◌then◌else◌, length, is_empty, all,
}
use atlas_dns.Base.Order.{codes}
use Prim.Native.String.{◌++◌ as append}
use atlas_dns.Base.Int.{pos, is_negative, is_above, ltb_ℤ}
use atlas_dns.Configuration.Model.{Schedule, DayRange, NodeSpecific}

pub record ValidationIssue : Type 0 where
  pub field : String
  pub message : String

-- `url.Parse`, as far as it is read: the host, the user and the scheme.
pub record Url : Type 0 where
  pub host : String
  pub has_user : Bool
  pub scheme : String

-- The functions of Go's net, netip, url, time and strconv packages that the validation calls; an
-- error is `none` or `false`.
pub record Network : Type 1 where
  pub Address : Type 0
  -- `netip.ParseAddr`, `Is4`, `Is6`, `Less` and `String`.
  pub parse_address : String → Option Address
  pub is4 : Address → Bool
  pub is6 : Address → Bool
  pub precedes : Address → Address → Bool
  pub address_text : Address → String
  -- Whether `netip.ParsePrefix` succeeds.
  pub is_prefix : String → Bool
  -- `net.IPMask(net.ParseIP(mask).To4()).Size()`: the ones and the bits, both 0 for no mask.
  pub mask_size : String → ℕ × ℕ
  -- `netip.PrefixFrom(gateway, ones).Masked().Contains(a)`
  pub contains : Address → ℕ → Address → Bool
  -- `net.ParseMAC` and its `String`.
  pub parse_mac : String → Option String
  pub parse_url : String → Option Url
  -- Whether `time.LoadLocation` succeeds.
  pub is_location : String → Bool
  -- `%d` of an index.
  pub digits : ℕ → String

unfoldable pub when : Bool → ValidationIssue → List ValidationIssue
when b issue = if b then issue ∷ [] else []

abbrev pub issue : String → String → ValidationIssue
issue field message = record { field = field; message = message }

abbrev pub is_none {ℓ} : {A : Type ℓ} → Option A → Bool
is_none none = true
is_none (some a) = false

-- `!errorFree || !test(value)` of a parsed value.
abbrev pub fails {ℓ} : {A : Type ℓ} → (A → Bool) → Option A → Bool
fails test none = true
fails test (some a) = not (test a)

abbrev prepend : ℕ → List (List ℕ) → List (List ℕ)
prepend c [] = (c ∷ []) ∷ []
prepend c (label ∷ labels) = (c ∷ label) ∷ labels

-- `strings.Split(value, ".")`
unfoldable pub split_dots : List ℕ → List (List ℕ)
split_dots [] = [] ∷ []
split_dots (c ∷ cs) = let rest = split_dots cs in if c == b'.' then [] ∷ rest else prepend c rest

abbrev pub is_host_character : ℕ → Bool
is_host_character c =
    (leb b'a' c && leb c b'z')
    || (leb b'A' c && leb c b'Z')
    || (leb b'0' c && leb c b'9')
    || c == b'-'

abbrev pub starts_with_dash : List ℕ → Bool
starts_with_dash [] = false
starts_with_dash (c ∷ cs) = c == b'-'

abbrev pub ends_with_dash : List ℕ → Bool
ends_with_dash [] = false
ends_with_dash (c ∷ []) = c == b'-'
ends_with_dash (c ∷ d ∷ cs) = ends_with_dash (d ∷ cs)

abbrev pub is_label : List ℕ → Bool
is_label label =
    not (is_empty label || ltb 63 (length label) || starts_with_dash label || ends_with_dash label)
    && all is_host_character label

-- Lengths count characters: a text in which bytes would differ has one that is refused.
unfoldable pub valid_dhcp_hostname : String → Bool
unfolding split_dots
valid_dhcp_hostname value =
    let cs = codes value in not (is_empty cs || ltb 253 (length cs)) && all is_label (split_dots cs)

abbrev pub is_day : String → Bool
is_day day =
    str_eq day "sun"
    || str_eq day "mon"
    || str_eq day "tue"
    || str_eq day "wed"
    || str_eq day "thu"
    || str_eq day "fri"
    || str_eq day "sat"

module _ (net : Network) where
  abbrev pub valid_address : String → Bool
  valid_address value = not (is_none (net.parse_address value))

  abbrev pub is_http : Url → Bool
  is_http u =
      not (str_eq u.host "")
      && not u.has_user
      && (str_eq u.scheme "http" || str_eq u.scheme "https")

  unfoldable pub valid_http_url : String → Bool
  valid_http_url raw = not (fails is_http (net.parse_url raw))

  abbrev pub indexed : String → ℕ → String
  indexed field index = append field (append "[" (append (net.digits index) "]"))

  -- The issue of each value that a test does not accept, named by its index.
  unfoldable pub each_index :
      (String → Bool) → String → String → ℕ → List String → List ValidationIssue
  each_index test field message index [] = []
  each_index test field message index (value ∷ values) =
      when (not (test value)) (issue (indexed field index) message)
      ++ each_index test field message (index + 1) values

  abbrev pub is_period : String → DayRange → Bool
  is_period day period = not (
      not (is_day day)
      || is_negative period.start
      || is_above 86400000 period.end
      || not (ltb_ℤ period.start period.end))

  -- The days are visited in the order of their keys here, in any order in Go.
  unfoldable pub validate_days : String → List (String × DayRange) → List ValidationIssue
  validate_days prefix [] = []
  validate_days prefix ((day, period) ∷ days) =
      when (not (is_period day period)) (
        issue (append prefix (append ".days." day))
          "must be a valid day with start before end within 24 hours")
      ++ validate_days prefix days

  unfoldable pub validate_schedule : String → Schedule → List ValidationIssue
  unfolding validate_days
  validate_schedule prefix schedule =
      when
        (not (str_eq schedule.time_zone "")
          && not (str_eq schedule.time_zone "Local")
          && not (net.is_location schedule.time_zone))
        (issue (append prefix ".timeZone") "must be Local or an IANA time zone")
      ++ validate_days prefix schedule.days

  unfoldable pub validate_node_specific : String → NodeSpecific → List ValidationIssue
  unfolding each_index
  validate_node_specific prefix listener =
      when (ltb_ℤ listener.dns_port (pos 1) || is_above 65535 listener.dns_port)
        (issue (append prefix ".dnsPort") "must be between 1 and 65535")
      ++ when (is_empty listener.bind_hosts)
          (issue (append prefix ".bindHosts") "must include at least one address")
      ++ each_index valid_address (append prefix ".bindHosts") "must be an IP address" 0
          listener.bind_hosts
