-- ===== src/Versions/Model.antt =====
-- internal/adguardcompat/compatibility.go: the order of versions and the adapter they need.
use atlas_dns.Base.{
  String, Bool, false, not, ◌&&◌, ◌||◌, Option, none, some, str_eq, ltb, ◌==◌, if◌then◌else◌,
  length,
}
use atlas_dns.Base.Order.{less, codes}
use atlas_dns.Domain.{Compatibility, unknown, supported, unsupported, is_supported}

pub data ApiGeneration : Type 0 where
  unknown_generation legacy_control : ApiGeneration

pub record ProductVersion : Type 0 where
  pub major : String
  pub minor : String
  pub patch : String
  pub prerelease : String

unfoldable pub decimal_less : String → String → Bool
decimal_less left right =
    let m = length (codes left) in
    let n = length (codes right) in if m == n then less left right else ltb m n

-- `parse`: the groups that the version pattern finds in the trimmed text.
module _ (parse : String → Option ProductVersion) where
  abbrev pub is_known_major : ProductVersion → Bool
  is_known_major v = str_eq v.major "0" || str_eq v.major "1"

  abbrev pub is_before_0_107_78 : ProductVersion → Bool
  is_before_0_107_78 v =
      str_eq v.major "0"
      && (decimal_less v.minor "107"
          || (str_eq v.minor "107"
              && (decimal_less v.patch "78"
                  || (str_eq v.patch "78" && not (str_eq v.prerelease "")))))

  unfoldable pub generation : String → ApiGeneration
  generation version = elim (parse version) [
    | none ↦ unknown_generation
    | some v ↦ if is_known_major v then legacy_control else unknown_generation
  ]

  unfoldable pub compatibility : String → Compatibility
  unfolding decimal_less
  compatibility version = elim (parse version) [
    | none ↦ unknown
    | some v ↦
        if not (is_known_major v)
        then unknown
        else if is_before_0_107_78 v
        then unsupported
        else supported
  ]

  abbrev pub is_tested : ProductVersion → Bool
  is_tested v =
      str_eq v.major "0"
      && str_eq v.minor "107"
      && (str_eq v.patch "78" || str_eq v.patch "79")
      && str_eq v.prerelease ""

  abbrev pub no_version : ProductVersion
  no_version = record { major = ""; minor = ""; patch = ""; prerelease = "" }

  abbrev pub parsed : Option ProductVersion → ProductVersion
  parsed none = no_version
  parsed (some v) = v

  unfoldable pub is_provisionally_compatible : String → Bool
  unfolding compatibility
  is_provisionally_compatible version =
      if not (is_supported (compatibility version))
      then false
      else not (is_tested (parsed (parse version)))
