-- ===== src/Configuration/Validate/Bounds.antt =====
-- internal/configuration/model.go: what holds of a desired document without issues.
use atlas_dns.Base.{
  ℕ, ◌+◌, ◌≤◌, String, ◌≡◌, refl, Bool, true, false, not, ◌||◌, List, [], ◌∷◌, ◌++◌, arith,
  is_empty, All,
}
use Prim.Native.String.{◌++◌ as append}
use atlas_dns.Base.Int.{ℤ, pos, negsuc, ltb_ℤ, is_above}
use atlas_dns.Configuration.Model.{NodeSpecific}
use atlas_dns.Configuration.Validate.Checks.{
  ValidationIssue, Network, when, each_index, valid_address, validate_node_specific,
}

pub append-empty : {A : Type 0} (xs ys : List A) → xs ++ ys ≡ [] → (xs ≡ []) × (ys ≡ [])
append-empty [] ys e = (refl, e)
append-empty (x ∷ xs) ys e = cc

pub when-empty : (b : Bool) (i : ValidationIssue) → when b i ≡ [] → b ≡ false
unfolding when
when-empty true i e = cc
when-empty false i e = refl

unnegated : (b : Bool) → not b ≡ false → b ≡ true
unnegated true e = refl
unnegated false e = cc

module _ (net : Network) where
  each_index-All :
      (test : String → Bool) (field message : String) (index : ℕ) (values : List String)
      → each_index net test field message index values ≡ []
      → All (λ v. test v ≡ true) values
  unfolding each_index
  each_index-All test field message index [] e = tt
  each_index-All test field message index (v ∷ vs) e =
      let (here, later) = append-empty _ _ e in
      (
        let refused = when-empty _ _ here in ground arith,
        each_index-All test field message (index + 1) vs later,
      )

  -- A listener that may be kept for a node.
  pub record IsListener (n : NodeSpecific) : Type 0 where
    pub port : ℕ
    pub is_port : n.dns_port ≡ pos port
    pub at_least : 1 ≤ port
    pub at_most : port ≤ 65535
    pub some_host : is_empty n.bind_hosts ≡ false
    pub addresses : All (λ h. valid_address net h ≡ true) n.bind_hosts

  port_bounds :
      (z : ℤ)
      → (ltb_ℤ z (pos 1) || is_above 65535 z) ≡ false
      → (n : ℕ) × (z ≡ pos n) × (1 ≤ n) × (n ≤ 65535)
  port_bounds (pos n) e = (n, refl, ground arith, ground arith)
  port_bounds (negsuc n) e = absurd (ground arith)

  pub validate_node_specific-IsListener :
      (prefix : String) (n : NodeSpecific) → validate_node_specific net prefix n ≡ [] → IsListener n
  unfolding validate_node_specific when
  validate_node_specific-IsListener prefix n e =
      let first : (ltb_ℤ n.dns_port (pos 1) || is_above 65535 n.dns_port) ≡ false = ground arith in
      let some_host : is_empty n.bind_hosts ≡ false = ground arith in
      let third : each_index net (valid_address net) (append prefix ".bindHosts")
            "must be an IP address" 0 n.bind_hosts
          ≡ [] =
        ground arith in
      let (port, is_port, low, high) = port_bounds n.dns_port first in
      record {
        port = port;
        is_port = is_port;
        at_least = low;
        at_most = high;
        some_host = some_host;
        addresses = each_index-All (valid_address net) _ _ 0 n.bind_hosts third;
      }
