-- ===== src/Versions/Tests.antt =====
-- Versions at the border of what is supported.
use atlas_dns.Base.{
  ◌<◌, String, ◌≡◌, refl, ◌↔◌, inr, true, false, Option, none, some, [], ◌∷◌, arith, str_eq,
  if◌then◌else◌,
}
use atlas_dns.Base.Order.{less}
use atlas_dns.Domain.{unknown, supported, unsupported}
use atlas_dns.Versions.Model.{
  ProductVersion, decimal_less, compatibility, generation, legacy_control,
  is_provisionally_compatible,
}
use atlas_dns.Versions.Decimal.{value, decimal_less_lem}

abbrev version : String → String → ProductVersion
version minor patch = record { major = "0"; minor = minor; patch = patch; prerelease = "" }

abbrev parse : String → Option ProductVersion
parse text =
    if str_eq text "0.107.77"
    then some (version "107" "77")
    else if str_eq text "0.107.80"
    then some (version "107" "80")
    else if str_eq text "0.107.78"
    then some (version "107" "78")
    else none

border :
    (compatibility parse "0.107.77" ≡ unsupported)
    × (compatibility parse "0.107.78" ≡ supported)
    × (compatibility parse "latest" ≡ unknown)
    × (generation parse "0.107.80" ≡ legacy_control)
    × (is_provisionally_compatible parse "0.107.80" ≡ true)
    × (is_provisionally_compatible parse "0.107.78" ≡ false)
unfolding compatibility generation is_provisionally_compatible decimal_less less
border = (refl, refl, refl, refl, refl, refl)

decimal_less_lem_example : (decimal_less "99" "107" ≡ true) ↔ (value "99" < value "107")
decimal_less_lem_example =
    decimal_less_lem "99" "107"
      (record {
        digits = ((omega arith, omega arith), ((omega arith, omega arith), tt));
        first = b'9';
        others = b'9' ∷ [];
        is_first = refl;
        canonical = inr (omega arith);
      })
      (record {
        digits = (
          (omega arith, omega arith),
          ((omega arith, omega arith), ((omega arith, omega arith), tt)),
        );
        first = b'1';
        others = b'0' ∷ b'7' ∷ [];
        is_first = refl;
        canonical = inr (omega arith);
      })
