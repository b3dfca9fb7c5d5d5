-- ===== src/Source/Gateway.antt =====
-- source/gateway.go: endpoints for the hosts of the listeners of gateways.
pub mod Unique
pub mod Hosts
use dns_sync.Base.{
  Bool, true, false, Option, none, some, List, [], ◌∷◌, ◌++◌, Str, codes, ◌==◌, str_eq, map, ltb,
  length, append_to, sort_by, str_ltb, pos, if◌then◌else◌, concat_map,
}
use dns_sync.Attempt.{Attempt, failed, returned, continue}
use dns_sync.Endpoint.{Endpoint}
use dns_sync.Source.{Ip, is_empty, endpoints_for_hostname}
use dns_sync.Source.Kube.{Meta, resource_name}

-- What the source reads of a gateway: the hosts of its listeners, where they have one, and the
-- values of the addresses of its specification and its status
pub record Gateway : Type 0 where
  pub meta : Meta
  pub listeners : List (Option Str)
  pub spec_addresses : List Str
  pub status_addresses : List Str

abbrev pub HostTargets : Type 0
HostTargets = List (Str × List Str)

-- The loop of `uniqueTargets` over a sorted list, after the item `prev`
unfoldable pub drop_repeated : Str → List Str → List Str
drop_repeated prev [] = []
drop_repeated prev (v ∷ vs) = if v == prev then drop_repeated prev vs else v ∷ drop_repeated v vs

abbrev pub keep_first : List Str → List Str
keep_first [] = []
keep_first (v ∷ vs) = v ∷ drop_repeated v vs

-- `uniqueTargets`
unfoldable pub unique_targets : List Str → List Str
unique_targets targets =
    if ltb (length targets) 2 then targets else keep_first (sort_by str_ltb targets)

-- The loop over the addresses, for a host
unfoldable pub add_host : Str → List Str → HostTargets → HostTargets
add_host host [] m = m
add_host host (addr ∷ addrs) m = add_host host addrs (append_to host (addr ∷ []) m)

-- The addresses that count for a gateway
abbrev pub gateway_addresses : Gateway → List Str
gateway_addresses gw = if is_empty gw.spec_addresses then gw.status_addresses else gw.spec_addresses

-- What an iteration over the listeners does
abbrev pub add_listener : Gateway → Option Str → HostTargets → HostTargets
add_listener gw none m = m
add_listener gw (some host) m = if is_empty host then m else add_host host (gateway_addresses gw) m

unfoldable pub add_listeners : Gateway → List (Option Str) → HostTargets → HostTargets
add_listeners gw [] m = m
add_listeners gw (lis ∷ listeners) m = add_listeners gw listeners (add_listener gw lis m)

-- `resolveGateway`, which returns no error
unfoldable pub resolve_gateway : Gateway → HostTargets
resolve_gateway gw = map (λ t. (t.0, unique_targets t.1)) (add_listeners gw gw.listeners [])

module _ (parse_ip : Str → Option Ip) where
  -- The iteration of `Endpoints` over the gateways
  unfoldable pub gateway_endpoints : Gateway → List Endpoint
  gateway_endpoints gw =
      concat_map
        (λ t.
          endpoints_for_hostname parse_ip t.0 t.1 (pos 0) [] []
            (resource_name (codes "gateway") gw.meta))
        (resolve_gateway gw)

  -- `gatewayRouteSource.Endpoints`, from what the listers of gateways and namespaces return
  unfoldable pub all_gateway_endpoints :
      {E N : Type 0} → Attempt E (List Gateway) → Attempt E N → Attempt E (List Endpoint)
  all_gateway_endpoints gateways namespaces =
      continue gateways
        (λ gws. continue namespaces (λ nss. returned (concat_map gateway_endpoints gws)))
