-- ===== src/MeshService/Headless.antt =====
-- pkg/sources/dnsmesh/meshservice.go: endpoints of headless services, from their endpoints objects.
use dns_sync.Base.{
  Bool, ◌||◌, not, Option, none, some, List, [], ◌∷◌, ◌++◌, Str, codes, ◌==◌, str_eq, str_ltb, map,
  any, sort_by, lookup, or_default, concat_map, ℤ, if◌then◌else◌,
}
use dns_sync.Attempt.{Attempt, failed, returned}
use dns_sync.Endpoint.{Endpoint, EndpointKey, endpoint_key_eq}
use dns_sync.Source.{Ip, is_empty}
use dns_sync.Source.Annotations.{
  get_targets_from_target_annotation, get_endpoints_type_from_annotations,
}
use dns_sync.Source.Kube.{Node}
use dns_sync.Source.Pod.{TargetMap, add_to_endpoint_map, external_addresses}
use dns_sync.MeshService.{Service, Pod, Reference, Address, Subset, MeshSource}
use dns_sync.MeshService.Ports.{endpoint_with}

-- The order of the keys
abbrev pub key_less : EndpointKey → EndpointKey → Bool
key_less a b =
    if not (a.dns_name == b.dns_name)
    then str_ltb a.dns_name b.dns_name
    else str_ltb a.record_type b.record_type

-- The targets without those that were there before
unfoldable pub deduplicated : List Str → List Str → List Str
deduplicated seen [] = []
deduplicated seen (t ∷ ts) =
    if any (λ s. s == t) seen then deduplicated seen ts else t ∷ deduplicated (t ∷ seen) ts

-- The endpoints of the map, in the order of its keys
unfoldable pub headless_endpoints : ℤ → TargetMap → List Endpoint
headless_endpoints ttl m =
    concat_map
      (λ k.
        endpoint_with k.dns_name k.record_type ttl (deduplicated [] (or_default [] (lookup k m))))
      (sort_by key_less (map (λ t. t.0) m))

-- The first pod with a name
unfoldable pub pod_named : Str → List Pod → Option Pod
pod_named name [] = none
pod_named name (pod ∷ pods) = if pod.meta.name == name then some pod else pod_named name pods

-- The pod that an address stands for
abbrev pub pod_of : List Pod → Option Reference → Option Pod
pod_of pods none = none
pod_of pods (some ref) =
    if not (is_empty ref.api_version) || not (ref.kind == codes "Pod")
    then none
    else pod_named ref.name pods

abbrev pub headless_domains : Str → Pod → List Str
headless_domains hostname pod =
    hostname
    ∷ (if is_empty pod.hostname then [] else (pod.hostname ++ (codes "." ++ hostname)) ∷ [])

module _ (parse_ip : Str → Option Ip) {E : Type 0} (sc : MeshSource E) where
  abbrev pub outer_addresses : Option Node → Option (List Str)
  outer_addresses none = none
  outer_addresses (some node) = some (external_addresses parse_ip node)

  -- The targets of an address of a pod; `none` where the node is not found, which ends the function
  unfoldable pub headless_targets : Str → Pod → Str → Option (List Str)
  headless_targets endpoints_type pod ip =
      let targets = get_targets_from_target_annotation pod.meta.annotations in
      if not (is_empty targets)
      then some targets
      else if endpoints_type == codes "NodeExternalIP"
      then outer_addresses (sc.node pod.node_name)
      else if endpoints_type == codes "HostIP" || sc.publish_host_ip
      then some (pod.host_ip ∷ [])
      else some (ip ∷ [])

  -- The loop over the domains, with the targets
  unfoldable pub add_domains : List Str → List Str → TargetMap → TargetMap
  add_domains targets [] m = m
  add_domains targets (domain ∷ domains) m =
      add_domains targets domains (add_to_endpoint_map parse_ip domain targets m)

  abbrev pub add_targets : List Str → Option (List Str) → TargetMap → Option TargetMap
  add_targets domains none m = none
  add_targets domains (some targets) m = some (add_domains targets domains m)

  -- An iteration over the addresses: one that stands for no pod is skipped.
  abbrev pub add_address : Str → Str → Str → Option Pod → TargetMap → Option TargetMap
  add_address hostname endpoints_type ip none m = some m
  add_address hostname endpoints_type ip (some pod) m =
      add_targets (headless_domains hostname pod) (headless_targets endpoints_type pod ip) m

  abbrev pub and_next : (TargetMap → Option TargetMap) → Option TargetMap → Option TargetMap
  and_next f none = none
  and_next f (some m) = f m

  -- The loops over the addresses of the subsets
  unfoldable pub add_addresses : Str → Str → List Pod → List Address → TargetMap → Option TargetMap
  add_addresses hostname endpoints_type pods [] m = some m
  add_addresses hostname endpoints_type pods (a ∷ addresses) m =
      and_next (add_addresses hostname endpoints_type pods addresses)
        (add_address hostname endpoints_type a.ip (pod_of pods a.target_ref) m)

  abbrev pub published : Service → Subset → List Address
  published svc subset =
      subset.addresses
      ++ (if svc.publish_not_ready_addresses || sc.always_publish_not_ready_addresses
          then subset.not_ready_addresses
          else [])

  abbrev subsets_of : Option (List Subset) → List Subset
  subsets_of none = []
  subsets_of (some subsets) = subsets

  -- The pods, none where their list has an error
  abbrev listed : Attempt E (List Pod) → List Pod
  listed (failed e) = []
  listed (returned pods) = pods

  abbrev finished : ℤ → Option TargetMap → List Endpoint
  finished ttl none = []
  finished ttl (some m) = headless_endpoints ttl m

  abbrev pub headless_of : Service → Str → ℤ → Option E → List Endpoint
  headless_of svc hostname ttl (some e) = []
  headless_of svc hostname ttl none = finished ttl (
      add_addresses hostname (get_endpoints_type_from_annotations svc.meta.annotations)
        (listed (sc.pods svc.meta.namespace svc.selector))
        (concat_map (published svc)
          (subsets_of (sc.endpoints_object svc.meta.namespace svc.meta.name)))
        [])

  -- `extractHeadlessEndpoints`
  unfoldable pub extract_headless_endpoints : Service → Str → ℤ → List Endpoint
  extract_headless_endpoints svc hostname ttl =
      headless_of svc hostname ttl (sc.selector_error svc.selector)
