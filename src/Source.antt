-- ===== src/Source.antt =====
-- source/: the sources that combine others, and the endpoints of a host name. An endpoint that a
-- source returns is used by the next one alone, so the model has endpoints as values.
pub mod Targets
pub mod Filter
pub mod Dedup
pub mod Annotations
pub mod Kube
pub mod Node
pub mod Pod
pub mod Gateway
pub mod Ingress
pub mod Istio
pub mod ServiceEntry
pub mod DnsEndpoint
pub mod TargetNet
use dns_sync.Base.{
  Bool, true, false, ◌&&◌, ◌||◌, not, Option, none, some, List, [], ◌∷◌, ◌++◌, Str, codes, ◌==◌,
  str_eq, map, keep, any, join, insert, ℤ, if◌then◌else◌,
}
use dns_sync.Attempt.{Attempt, failed, returned}
use dns_sync.Endpoint.{
  Endpoint, Labels, ProviderSpecificProperty, record_type_a, record_type_aaaa, record_type_cname,
  resource_label_key, new_endpoint_with_ttl,
}

-- What `net.ParseIP` tells of a text: an address has four bytes or does not.
pub data Ip : Type 0 where
  ipv4 ipv6 : Ip

abbrev pub is_empty {ℓ} : {A : Type ℓ} → List A → Bool
is_empty [] = true
is_empty (x ∷ xs) = false

abbrev pub type_of : Option Ip → Str
type_of none = record_type_cname
type_of (some ipv4) = record_type_a
type_of (some ipv6) = record_type_aaaa

abbrev pub is_ipv6 : Option Ip → Bool
is_ipv6 none = false
is_ipv6 (some ipv4) = false
is_ipv6 (some ipv6) = true

module _ (parse_ip : Str → Option Ip) where
  -- `SuitableType`
  unfoldable pub suitable_type : Str → Str
  suitable_type target = type_of (parse_ip target)

  -- `isIPv6String`
  unfoldable pub is_ipv6_string : Str → Bool
  is_ipv6_string target = is_ipv6 (parse_ip target)

  -- The loop of `EndpointsForHostname`: the targets of each type
  unfoldable pub a_targets : List Str → List Str
  a_targets targets = keep (λ t. suitable_type t == record_type_a && not (is_ipv6_string t)) targets

  unfoldable pub aaaa_targets : List Str → List Str
  aaaa_targets targets = keep (λ t. suitable_type t == record_type_aaaa && is_ipv6_string t) targets

  unfoldable pub cname_targets : List Str → List Str
  cname_targets targets =
      keep (λ t. not (suitable_type t == record_type_a || suitable_type t == record_type_aaaa))
        targets

  -- What the three blocks of `EndpointsForHostname` do with an endpoint that is not nil
  abbrev pub filled : List ProviderSpecificProperty → Str → Str → Option Endpoint → List Endpoint
  filled provider_specific set_identifier resource none = []
  filled provider_specific set_identifier resource (some e) =
      record e {
        provider_specific = provider_specific;
        set_identifier = set_identifier;
        labels = some (if is_empty resource then [] else (resource_label_key, resource) ∷ []);
      }
      ∷ []

  unfoldable pub endpoints_of_type :
      Str → Str → List Str → ℤ → List ProviderSpecificProperty → Str → Str → List Endpoint
  endpoints_of_type record_type hostname targets ttl provider_specific set_identifier resource =
      if is_empty targets
      then []
      else filled provider_specific set_identifier resource
          (new_endpoint_with_ttl hostname record_type ttl targets)

  -- `EndpointsForHostname`
  unfoldable pub endpoints_for_hostname :
      Str → List Str → ℤ → List ProviderSpecificProperty → Str → Str → List Endpoint
  endpoints_for_hostname hostname targets ttl provider_specific set_identifier resource =
      endpoints_of_type record_type_a hostname (a_targets targets) ttl provider_specific
        set_identifier resource
      ++ (endpoints_of_type record_type_aaaa hostname (aaaa_targets targets) ttl provider_specific
            set_identifier resource
          ++ endpoints_of_type record_type_cname hostname (cname_targets targets) ttl
              provider_specific set_identifier resource)

  -- The endpoints that `multiSource` makes of one, with default targets
  unfoldable pub retarget : List Str → List Endpoint → List Endpoint
  retarget defaults [] = []
  retarget defaults (e ∷ es) =
      map (λ (ep : Endpoint). record ep { labels = e.labels })
        (endpoints_for_hostname e.dns_name defaults e.record_ttl e.provider_specific
          e.set_identifier [])
      ++ retarget defaults es

  module _ {E : Type 0} where
    -- `multiSource.Endpoints`, on what its children return
    unfoldable pub multi_endpoints :
        List Str → List (Attempt E (List Endpoint)) → Attempt E (List Endpoint)
    multi_endpoints defaults [] = returned []
    multi_endpoints defaults (failed e ∷ children) = failed e
    multi_endpoints defaults (returned es ∷ children) = elim (multi_endpoints defaults children) [
      | failed e ↦ failed e
      | returned rest ↦ returned ((if is_empty defaults then es else retarget defaults es) ++ rest)
    ]

-- The identifier of `dedupSource`: the name, the set identifier and the targets, with separators
unfoldable pub identifier : Endpoint → Str
identifier e =
    e.dns_name ++ (codes " / " ++ (e.set_identifier ++ (codes " / " ++ join (codes ";") e.targets)))

-- The loop of `dedupSource.Endpoints`, with the identifiers collected so far
unfoldable pub dedup_from : List Str → List Endpoint → List Endpoint
dedup_from collected [] = []
dedup_from collected (e ∷ es) =
    let again = dedup_from collected es in
    let first = e ∷ dedup_from (identifier e ∷ collected) es in
    if any (λ i. i == identifier e) collected then again else first

unfoldable pub dedup_endpoints : List Endpoint → List Endpoint
dedup_endpoints es = dedup_from [] es

-- `targetFilterSource.Endpoints`, for a filter of targets
unfoldable pub filter_targets : (Str → Bool) → List Endpoint → List Endpoint
filter_targets match [] = []
filter_targets match (e ∷ es) =
    let rest = filter_targets match es in
    if not (e.record_type == record_type_a) && not (e.record_type == record_type_aaaa)
    then e ∷ rest
    else if is_empty (keep match e.targets)
    then rest
    else record e { targets = keep match e.targets } ∷ rest
