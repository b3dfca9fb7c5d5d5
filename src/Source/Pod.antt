-- ===== src/Source/Pod.antt =====
-- source/pod.go: endpoints for the names in the annotations of pods that use their host's network.
pub mod Claims
use dns_sync.Base.{
  Bool, true, false, ◌&&◌, ◌||◌, not, Option, none, some, List, [], ◌∷◌, ◌++◌, Str, ◌==◌, str_eq,
  map, keep, lookup, append_to, if◌then◌else◌,
}
use dns_sync.Attempt.{Attempt, failed, returned, continue}
use dns_sync.Endpoint.{Endpoint, EndpointKey, endpoint_key_eq, record_type_aaaa, new_endpoint}
use dns_sync.Source.{Ip, is_empty, suitable_type}
use dns_sync.Source.Annotations.{
  get_targets_from_target_annotation, get_hostnames_from_annotations,
  get_internal_hostnames_from_annotations,
}
use dns_sync.Source.Kube.{Meta, Node, NodeAddress, node_external_ip, node_internal_ip}

-- What the source reads of a pod
pub record Pod : Type 0 where
  pub meta : Meta
  pub host_network : Bool
  pub pod_ip : Str
  pub node_name : Str

abbrev pub TargetMap : Type 0
TargetMap = List (EndpointKey × List Str)

-- The error of the lister, or the panic on a node that is not there: the source drops the error of
-- the node's lister.
pub data PodError (E : Type 0) : Type 0 where
  not_listed : E → PodError E
  nil_node : Str → PodError E

-- The loop over the map, in the order in which Go visits it: `NewEndpoint` may return nil.
unfoldable pub new_endpoints : TargetMap → List (Option Endpoint)
new_endpoints [] = []
new_endpoints ((k, targets) ∷ m) = new_endpoint k.dns_name k.record_type targets ∷ new_endpoints m

module _ (parse_ip : Str → Option Ip) where
  -- The key under which a target of a domain stands
  abbrev pub target_key : Str → Str → EndpointKey
  target_key domain target = record {
    dns_name = domain;
    record_type = suitable_type parse_ip target;
    set_identifier = [];
  }

  -- The calls of `addToEndpointMap` with the targets of a domain
  unfoldable pub add_to_endpoint_map : Str → List Str → TargetMap → TargetMap
  add_to_endpoint_map domain [] m = m
  add_to_endpoint_map domain (target ∷ targets) m =
      add_to_endpoint_map domain targets (append_to (target_key domain target) (target ∷ []) m)

  -- The addresses of a node under which its pods are reached
  unfoldable pub external_addresses : Node → List Str
  external_addresses node =
      map (λ a. a.address)
        (keep
          (λ a.
            a.type == node_external_ip
            || (a.type == node_internal_ip && suitable_type parse_ip a.address == record_type_aaaa))
          node.addresses)

  -- The loop over the domains of the internal annotation
  unfoldable pub add_internal : Pod → List Str → List Str → TargetMap → TargetMap
  add_internal pod targets [] m = m
  add_internal pod targets (domain ∷ domains) m =
      add_internal pod targets domains
        (add_to_endpoint_map domain (if is_empty targets then pod.pod_ip ∷ [] else targets) m)

  module _ {E : Type 0} (get_node : Str → Option Node) where
    -- The targets of a domain of the other annotation
    abbrev pub node_targets : Pod → Option Node → Attempt (PodError E) (List Str)
    node_targets pod none = failed (nil_node pod.node_name)
    node_targets pod (some node) = returned (external_addresses node)

    abbrev pub domain_targets : Pod → List Str → Attempt (PodError E) (List Str)
    domain_targets pod targets =
        if is_empty targets then node_targets pod (get_node pod.node_name) else returned targets

    -- The loop over its domains
    unfoldable pub add_external :
        Pod → List Str → List Str → TargetMap → Attempt (PodError E) TargetMap
    add_external pod targets [] m = returned m
    add_external pod targets (domain ∷ domains) m =
        continue (domain_targets pod targets)
          (λ ts. add_external pod targets domains (add_to_endpoint_map domain ts m))

    -- What an iteration over the pods does with the map
    unfoldable pub add_pod : Pod → TargetMap → Attempt (PodError E) TargetMap
    add_pod pod m =
        let targets = get_targets_from_target_annotation pod.meta.annotations in
        if pod.host_network
        then add_external pod targets (get_hostnames_from_annotations pod.meta.annotations) (
            add_internal pod targets (get_internal_hostnames_from_annotations pod.meta.annotations)
              m)
        else returned m

    unfoldable pub add_pods : List Pod → TargetMap → Attempt (PodError E) TargetMap
    add_pods [] m = returned m
    add_pods (pod ∷ pods) m = continue (add_pod pod m) (λ n. add_pods pods n)

    abbrev pub pods_listed : Attempt E (List Pod) → Attempt (PodError E) (List Pod)
    pods_listed (failed e) = failed (not_listed e)
    pods_listed (returned pods) = returned pods

    -- `podSource.Endpoints`, from what the lister of pods returns
    unfoldable pub pod_endpoints :
        Attempt E (List Pod) → Attempt (PodError E) (List (Option Endpoint))
    pod_endpoints listed =
        continue (pods_listed listed)
          (λ pods. continue (add_pods pods []) (λ m. returned (new_endpoints m)))
