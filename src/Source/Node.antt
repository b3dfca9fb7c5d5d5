-- ===== src/Source/Node.antt =====
-- source/node.go: an endpoint for each node and type of its addresses.
pub mod Addresses
use dns_sync.Base.{
  Bool, true, false, ◌&&◌, not, Option, none, some, List, [], ◌∷◌, ◌++◌, Str, codes, ◌==◌, str_eq,
  map, keep, lookup, insert, ensure, modify, ℤ, pos, if◌then◌else◌,
}
use dns_sync.Attempt.{Attempt, failed, returned, continue}
use dns_sync.Endpoint.{Endpoint, EndpointKey, endpoint_key_eq, record_type_aaaa}
use dns_sync.Source.{Ip, is_empty, suitable_type}
use dns_sync.Source.Annotations.{Numbers, get_ttl_from_annotations}
use dns_sync.Source.Kube.{Node, NodeAddress, node_external_ip, node_internal_ip}

-- The error of the lister, or a node without an address
pub data NodeError (E : Type 0) : Type 0 where
  not_listed : E → NodeError E
  no_address : Str → NodeError E

-- The endpoints of `Endpoints`, by their keys
abbrev pub EndpointMap : Type 0
EndpointMap = List (EndpointKey × Endpoint)

-- The addresses of one type
unfoldable pub of_type : Str → List NodeAddress → List Str
of_type type addresses = map (λ a. a.address) (keep (λ a. a.type == type) addresses)

module _ (parse_ip : Str → Option Ip) where
  -- `ipv6Addresses`
  unfoldable pub internal_ipv6 : List NodeAddress → List Str
  internal_ipv6 addresses =
      map (λ a. a.address)
        (keep
          (λ a. a.type == node_internal_ip && suitable_type parse_ip a.address == record_type_aaaa)
          addresses)

  -- `nodeAddresses`, with `none` for its error
  unfoldable pub node_addresses : Node → Option (List Str)
  node_addresses node =
      if not (is_empty (of_type node_external_ip node.addresses))
      then some (of_type node_external_ip node.addresses ++ internal_ipv6 node.addresses)
      else if not (is_empty (of_type node_internal_ip node.addresses))
      then some (of_type node_internal_ip node.addresses)
      else none

  -- The key of an address
  abbrev pub address_key : Str → Str → EndpointKey
  address_key dns_name addr = record {
    dns_name = dns_name;
    record_type = suitable_type parse_ip addr;
    set_identifier = [];
  }

  -- A new endpoint of the map
  abbrev pub blank : EndpointKey → ℤ → Endpoint
  blank k ttl = record {
    dns_name = k.dns_name;
    targets = [];
    record_type = k.record_type;
    set_identifier = [];
    record_ttl = ttl;
    labels = some [];
    provider_specific = [];
  }

  abbrev pub add_target : Str → Endpoint → Endpoint
  add_target addr e = record e { targets = e.targets ++ addr ∷ [] }

  -- The loop over the addresses of a node
  unfoldable pub add_addresses : Str → ℤ → EndpointMap → List Str → EndpointMap
  add_addresses dns_name ttl m [] = m
  add_addresses dns_name ttl m (addr ∷ addrs) =
      let k = address_key dns_name addr in
      add_addresses dns_name ttl (modify k (add_target addr) (ensure k (blank k ttl) m)) addrs

  module _ (numbers : Numbers) {E : Type 0} where
    -- What an iteration does with the map, where the node has addresses
    abbrev pub add_node :
        Str → EndpointMap → Node → Option (List Str) → Attempt (NodeError E) EndpointMap
    add_node suffix m node none = failed (no_address node.meta.name)
    add_node suffix m node (some addrs) = returned (
        add_addresses (node.meta.name ++ suffix)
          (get_ttl_from_annotations numbers node.meta.annotations) m addrs)

    -- The loop over the nodes, with the suffix of the names
    unfoldable pub add_nodes : Str → EndpointMap → List Node → Attempt (NodeError E) EndpointMap
    add_nodes suffix m [] = returned m
    add_nodes suffix m (node ∷ nodes) =
        continue (add_node suffix m node (node_addresses node)) (λ n. add_nodes suffix n nodes)

    abbrev pub values : Attempt (NodeError E) EndpointMap → Attempt (NodeError E) (List Endpoint)
    values (failed e) = failed e
    values (returned m) = returned (map (λ t. t.1) m)

    -- `nodeSource.Endpoints`, on the nodes that the lister returns; the slice has the order in which
    -- Go visits the map.
    unfoldable pub node_endpoints :
        Str → Attempt E (List Node) → Attempt (NodeError E) (List Endpoint)
    node_endpoints suffix (failed e) = failed (not_listed e)
    node_endpoints suffix (returned nodes) = values (add_nodes suffix [] nodes)
