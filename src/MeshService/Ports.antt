-- ===== src/MeshService/Ports.antt =====
-- pkg/sources/dnsmesh/meshservice.go: targets and SRV records of services with node ports.
use dns_sync.Base.{
  Bool, ◌&&◌, not, Option, none, some, List, [], ◌∷◌, ◌++◌, Str, codes, ◌==◌, str_eq, keep, any,
  ltb, to_lower, concat_map, decimal, ℤ, if◌then◌else◌,
}
use dns_sync.Attempt.{Attempt, failed, returned, continue}
use dns_sync.Endpoint.{
  Endpoint, record_type_aaaa, new_endpoint_with_ttl, new_endpoint, is_configured,
}
use dns_sync.Source.{Ip, is_empty, suitable_type}
use dns_sync.Source.Annotations.{get_access_from_annotations}
use dns_sync.Source.Kube.{Node, node_external_ip, node_internal_ip}
use dns_sync.Source.Node.{of_type}
use dns_sync.MeshService.{Service, ServicePort, Pod, MeshSource, is_pod_status_ready}

-- The nodes with running pods, those with ready pods, those of them that do not terminate; a node
-- counts with the first of its pods that is running.
pub record LocalNodes : Type 0 where
  pub running : List Node
  pub ready : List Node
  pub serving : List Node

abbrev pub no_nodes : LocalNodes
no_nodes = record { running = []; ready = []; serving = [] }

abbrev pub add_local : Pod → Node → LocalNodes → LocalNodes
add_local pod node acc = record {
  running = acc.running ++ node ∷ [];
  ready = if is_pod_status_ready pod then acc.ready ++ node ∷ [] else acc.ready;
  serving =
      if is_pod_status_ready pod && not pod.terminating
      then acc.serving ++ node ∷ []
      else acc.serving;
}

-- The lister returns one node for a name, which Go tells by its pointer.
abbrev pub same_node : Node → Node → Bool
same_node a b = a.meta.name == b.meta.name

abbrev pub add_found : Pod → Option Node → LocalNodes → LocalNodes
add_found pod none acc = acc
add_found pod (some node) acc =
    if any (same_node node) acc.running then acc else add_local pod node acc

-- The loop over the pods
unfoldable pub local_nodes : (Str → Option Node) → LocalNodes → List Pod → LocalNodes
local_nodes get_node acc [] = acc
local_nodes get_node acc (pod ∷ pods) =
    local_nodes get_node
      (if pod.phase == codes "Running" then add_found pod (get_node pod.node_name) acc else acc)
      pods

abbrev pub preferred : LocalNodes → List Node
preferred found =
    if not (is_empty found.serving)
    then found.serving
    else if not (is_empty found.ready)
    then found.ready
    else found.running

module _ (parse_ip : Str → Option Ip) where
  -- The addresses of nodes: of one type, and the internal ones of IPv6
  unfoldable pub addresses_of : Str → List Node → List Str
  addresses_of type nodes = concat_map (λ n. of_type type n.addresses) nodes

  unfoldable pub ipv6_addresses : List Node → List Str
  ipv6_addresses nodes =
      keep (λ a. suitable_type parse_ip a == record_type_aaaa) (addresses_of node_internal_ip nodes)

  -- The choice by the access that a service asks for
  unfoldable pub by_access : Str → List Node → List Str
  by_access access nodes =
      let external = addresses_of node_external_ip nodes in
      if access == codes "public"
      then external ++ ipv6_addresses nodes
      else if access == codes "private"
      then addresses_of node_internal_ip nodes
      else if not (is_empty external)
      then external ++ ipv6_addresses nodes
      else addresses_of node_internal_ip nodes

  module _ {E : Type 0} (sc : MeshSource E) where
    abbrev pub selected_pods : Service → Option E → Attempt E (List Pod)
    selected_pods svc (some e) = failed e
    selected_pods svc none = sc.pods svc.meta.namespace svc.selector

    abbrev pub port_nodes : Service → Attempt E (List Node)
    port_nodes svc =
        if svc.external_traffic_policy == codes "Local"
        then continue (selected_pods svc (sc.selector_error svc.selector))
            (λ pods. returned (preferred (local_nodes sc.node no_nodes pods)))
        else sc.nodes

    -- `extractNodePortTargets`
    unfoldable pub extract_node_port_targets : Service → Attempt E (List Str)
    extract_node_port_targets svc =
        continue (port_nodes svc)
          (λ nodes. returned (by_access (get_access_from_annotations svc.meta.annotations) nodes))

-- An endpoint with a TTL where it is configured, and none where the name is too long
unfoldable pub endpoint_with : Str → Str → ℤ → List Str → List Endpoint
endpoint_with name record_type ttl targets =
    elim (if is_configured ttl
      then new_endpoint_with_ttl name record_type ttl targets
      else new_endpoint name record_type targets) [ none ↦ [] | some ep ↦ ep ∷ [] ]

abbrev pub protocol_of : Str → Str
protocol_of protocol = if is_empty protocol then codes "tcp" else to_lower protocol

unfoldable pub srv_target : ServicePort → Str → Str
srv_target port hostname = codes "0 50 " ++ (decimal port.node_port ++ (codes " " ++ hostname))

unfoldable pub srv_name : Str → ServicePort → Str → Str
srv_name service_name port hostname =
    codes "_"
    ++ (service_name ++ (codes "._" ++ (protocol_of port.protocol ++ (codes "." ++ hostname))))

-- `extractNodePortEndpoints`
unfoldable pub extract_node_port_endpoints : Service → Str → ℤ → List Endpoint
extract_node_port_endpoints svc hostname ttl =
    concat_map
      (λ port.
        if ltb 0 port.node_port
        then endpoint_with (srv_name svc.meta.name port hostname) (codes "SRV") ttl
            (srv_target port hostname ∷ [])
        else [])
      svc.ports
