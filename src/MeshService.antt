-- ===== src/MeshService.antt =====
-- pkg/sources/dnsmesh/meshservice.go: endpoints for the services of a mesh. This file has what the
-- source reads of the cluster and the targets that it finds there.
pub mod Ports
pub mod Headless
pub mod Merge
pub mod Merged
use dns_sync.Base.{
  Bool, true, false, ◌&&◌, ◌||◌, not, Option, none, some, List, [], ◌∷◌, ◌++◌, ℕ, Str, codes, ◌==◌,
  str_eq, map, keep, any, if◌then◌else◌,
}
use dns_sync.Attempt.{Attempt, failed, returned, continue}
use dns_sync.Source.{is_empty}
use dns_sync.Source.Annotations.{Annotations}
use dns_sync.Source.Kube.{Meta, LoadBalancerIngress, Node, Selector}

pub record ServicePort : Type 0 where
  pub node_port : ℕ
  pub protocol : Str

-- What the source reads of a service
pub record Service : Type 0 where
  pub meta : Meta
  pub type : Str
  pub cluster_ip : Str
  pub external_ips : List Str
  pub external_name : Str
  pub external_traffic_policy : Str
  pub publish_not_ready_addresses : Bool
  pub selector : Annotations
  pub ports : List ServicePort
  pub load_balancer : List LoadBalancerIngress

-- What it reads of a pod; its conditions are pairs of a type and a status.
pub record Pod : Type 0 where
  pub meta : Meta
  pub hostname : Str
  pub node_name : Str
  pub host_ip : Str
  pub phase : Str
  pub conditions : List (Str × Str)
  pub terminating : Bool

-- The target of an address and its fields apiVersion, kind and name
pub record Reference : Type 0 where
  pub api_version : Str
  pub kind : Str
  pub name : Str

pub record Address : Type 0 where
  pub ip : Str
  pub target_ref : Option Reference

pub record Subset : Type 0 where
  pub addresses : List Address
  pub not_ready_addresses : List Address

-- The fields of `serviceSource`, and what the listers and the resolver answer: the pods of a
-- namespace that a service's selector picks (or an error of the selector), all nodes, a node, the
-- endpoints object of a service, the addresses of a host.
pub record MeshSource (E : Type 0) : Type 0 where
  pub annotation_selector : Attempt E Selector
  pub service_type_filter : List Str
  pub internal_domain : Str
  pub sync_id : Str
  pub publish_internal : Bool
  pub publish_host_ip : Bool
  pub always_publish_not_ready_addresses : Bool
  pub resolve_load_balancer_hostname : Bool
  pub selector_error : Annotations → Option E
  pub pods : Str → Annotations → Attempt E (List Pod)
  pub nodes : Attempt E (List Node)
  pub node : Str → Option Node
  pub endpoints_object : Str → Str → Option (List Subset)
  pub lookup_ip : Str → Option (List Str)

abbrev pub cluster_ip_none : Str
cluster_ip_none = codes "None"

-- `filterByServiceType`
unfoldable pub filter_by_service_type : List Str → List Service → List Service
filter_by_service_type types services = keep (λ svc. any (λ t. t == svc.type) types) services

-- `extractServiceIps`
unfoldable pub extract_service_ips : Service → List Str
extract_service_ips svc = if svc.cluster_ip == cluster_ip_none then [] else svc.cluster_ip ∷ []

-- `extractServiceExternalName`
unfoldable pub extract_service_external_name : Service → List Str
extract_service_external_name svc =
    if is_empty svc.external_ips then svc.external_name ∷ [] else svc.external_ips

-- The targets of a host name of a load balancer, resolved or not
abbrev resolved : Option (List Str) → List Str
resolved none = []
resolved (some ips) = ips

unfoldable pub balancer_targets :
    Bool → (Str → Option (List Str)) → List LoadBalancerIngress → List Str
balancer_targets resolve lookup_ip [] = []
balancer_targets resolve lookup_ip (lb ∷ lbs) =
    (if is_empty lb.ip then [] else lb.ip ∷ [])
    ++ ((if is_empty lb.hostname
          then []
          else if resolve
          then resolved (lookup_ip lb.hostname)
          else lb.hostname ∷ [])
        ++ balancer_targets resolve lookup_ip lbs)

-- `extractLoadBalancerTargets`
unfoldable pub extract_load_balancer_targets : Bool → (Str → Option (List Str)) → Service → List Str
extract_load_balancer_targets resolve lookup_ip svc =
    if is_empty svc.external_ips
    then balancer_targets resolve lookup_ip svc.load_balancer
    else svc.external_ips

-- `getPodConditionFromList` and `isPodStatusReady`
unfoldable pub get_pod_condition_from_list : Str → List (Str × Str) → Option (Str × Str)
get_pod_condition_from_list type [] = none
get_pod_condition_from_list type (condition ∷ conditions) =
    if condition.0 == type then some condition else get_pod_condition_from_list type conditions

abbrev is_true : Option (Str × Str) → Bool
is_true none = false
is_true (some condition) = condition.1 == codes "True"

unfoldable pub is_pod_status_ready : Pod → Bool
is_pod_status_ready pod = is_true (get_pod_condition_from_list (codes "Ready") pod.conditions)
