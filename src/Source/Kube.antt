-- ===== src/Source/Kube.antt =====
-- What the sources read of Kubernetes objects. Parsing a selector is the client library's: it is an
-- error, or a selector with its test on a map.
use dns_sync.Base.{
  Bool, Option, List, [], ◌∷◌, ◌++◌, Str, codes, keep, str_eq, map, ℤ, if◌then◌else◌,
}
use dns_sync.Attempt.{Attempt, failed, returned}
use dns_sync.Endpoint.{Endpoint, ProviderSpecificProperty}
use dns_sync.Targets.{NetIp, sort_targets}
use dns_sync.Source.{Ip, is_empty, endpoints_for_hostname}
use dns_sync.Source.Annotations.{Annotations}

-- The fields of an object's metadata
pub record Meta : Type 0 where
  pub namespace : Str
  pub name : Str
  pub annotations : Annotations

-- An entry of `Status.LoadBalancer.Ingress`
pub record LoadBalancerIngress : Type 0 where
  pub ip : Str
  pub hostname : Str

-- An entry of a node's `Status.Addresses`, with the constants for its type
pub record NodeAddress : Type 0 where
  pub type : Str
  pub address : Str

abbrev pub node_external_ip : Str
node_external_ip = codes "ExternalIP"

abbrev pub node_internal_ip : Str
node_internal_ip = codes "InternalIP"

pub record Node : Type 0 where
  pub meta : Meta
  pub addresses : List NodeAddress

pub record Selector : Type 0 where
  pub is_void : Bool
  pub matches : Annotations → Bool

-- `kind/namespace/name`, the text of the resource label
abbrev pub resource_name : Str → Meta → Str
resource_name kind m = kind ++ (codes "/" ++ (m.namespace ++ (codes "/" ++ m.name)))

-- The `filterByAnnotations` of the sources: a void selector keeps every object.
unfoldable pub filter_by_annotations {ℓ} :
    {E : Type 0} {A : Type ℓ} → (A → Annotations) → Attempt E Selector → List A → Attempt E (List A)
filter_by_annotations annotations (failed e) objects = failed e
filter_by_annotations annotations (returned s) objects =
    returned (if s.is_void then objects else keep (λ o. s.matches (annotations o)) objects)

-- The targets of a load balancer, its address before its name
unfoldable pub load_balancer_targets : List LoadBalancerIngress → List Str
load_balancer_targets [] = []
load_balancer_targets (lb ∷ lbs) =
    (if is_empty lb.ip then [] else lb.ip ∷ [])
    ++ ((if is_empty lb.hostname then [] else lb.hostname ∷ []) ++ load_balancer_targets lbs)

-- The targets of a load balancer, its name only where it has no address
unfoldable pub first_targets : List LoadBalancerIngress → List Str
first_targets [] = []
first_targets (lb ∷ lbs) =
    (if is_empty lb.ip then (if is_empty lb.hostname then [] else lb.hostname ∷ []) else lb.ip ∷ [])
    ++ first_targets lbs

-- What every endpoint of an object has in common: its targets and what its annotations say
pub record Described : Type 0 where
  pub targets : List Str
  pub ttl : ℤ
  pub provider_specific : List ProviderSpecificProperty
  pub set_identifier : Str
  pub resource : Str

-- `EndpointsForHostname` with these
abbrev pub hosted : (Str → Option Ip) → Described → Str → List Endpoint
hosted parse_ip d hostname =
    endpoints_for_hostname parse_ip hostname d.targets d.ttl d.provider_specific d.set_identifier
      d.resource

-- `sort.Sort(ep.Targets)` on every endpoint
abbrev pub with_sorted_targets : NetIp → Endpoint → Endpoint
with_sorted_targets net ep = record ep { targets = sort_targets net ep.targets }

unfoldable pub sort_each : NetIp → List Endpoint → List Endpoint
sort_each net eps = map (with_sorted_targets net) eps
