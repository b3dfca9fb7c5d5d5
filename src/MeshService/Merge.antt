-- ===== src/MeshService/Merge.antt =====
-- pkg/sources/dnsmesh/meshservice.go: the endpoints of a service, and those of all services merged.
use mathlib.Core.Option
use dns_sync.Base.{
  Bool, true, ◌&&◌, ◌||◌, not, Option, none, some, List, [], ◌∷◌, ◌++◌, Str, codes, ◌==◌, str_eq,
  str_ltb, map, insert, lookup, sort_by, trim_suffix, ℤ, int_beq, if◌then◌else◌,
}
use dns_sync.Attempt.{Attempt, failed, returned, continue}
use dns_sync.Endpoint.{
  Endpoint, Labels, ProviderSpecificProperty, resource_label_key, value_or_empty,
}
use dns_sync.Targets.{NetIp}
use dns_sync.Source.{Ip, is_empty, endpoints_for_hostname}
use dns_sync.Source.Annotations.{
  Numbers, get_ttl_from_annotations, get_targets_from_target_annotation,
}
use dns_sync.Source.Kube.{resource_name, filter_by_annotations, sort_each}
use dns_sync.MeshService.{
  Service, MeshSource, cluster_ip_none, filter_by_service_type, extract_service_ips,
  extract_service_external_name, extract_load_balancer_targets,
}
use dns_sync.MeshService.Ports.{extract_node_port_targets, extract_node_port_endpoints}
use dns_sync.MeshService.Headless.{extract_headless_endpoints}

-- Two endpoints that are merged
unfoldable pub mergeable : Endpoint → Endpoint → Bool
mergeable a b =
    a.dns_name == b.dns_name
    && (a.record_type == b.record_type
        && (a.set_identifier == b.set_identifier && int_beq a.record_ttl b.record_ttl))

abbrev pub with_target : Endpoint → Str → Endpoint
with_target e target = record e { targets = e.targets ++ target ∷ [] }

-- An endpoint with the first target of another, which is missing where that has none
abbrev pub with_first : Endpoint → List Str → Option Endpoint
with_first e [] = none
with_first e (t ∷ ts) = some (with_target e t)

abbrev pub and_merge :
    (Endpoint → Option (List Endpoint)) → Option Endpoint → Option (List Endpoint)
and_merge f none = none
and_merge f (some e) = f e

abbrev pub after : Endpoint → Option (List Endpoint) → Option (List Endpoint)
after e none = none
after e (some es) = some (e ∷ es)

-- The loop that merges, with the endpoint that was merged last: the first target of each endpoint
-- is taken over, with a panic (`none`) where there is none.
unfoldable pub merge_after : Endpoint → List Endpoint → Option (List Endpoint)
merge_after last [] = some (last ∷ [])
merge_after last (e ∷ es) =
    let apart = after last (merge_after e es) in
    let joined = and_merge (λ l. merge_after l es) (with_first last e.targets) in
    if mergeable last e then joined else apart

-- The two sorts before
abbrev pub resource_of : Option Labels → Str
resource_of none = []
resource_of (some labels) = value_or_empty (lookup resource_label_key labels)

abbrev pub resource_less : Endpoint → Endpoint → Bool
resource_less a b = str_ltb (resource_of a.labels) (resource_of b.labels)

abbrev pub name_less : Endpoint → Endpoint → Bool
name_less a b =
    if not (a.dns_name == b.dns_name)
    then str_ltb a.dns_name b.dns_name
    else str_ltb a.record_type b.record_type

abbrev pub merge_sorted : List Endpoint → Option (List Endpoint)
merge_sorted [] = some []
merge_sorted (e ∷ es) = merge_after e es

unfoldable pub merge_endpoints : List Endpoint → Option (List Endpoint)
merge_endpoints endpoints = merge_sorted (sort_by name_less (sort_by resource_less endpoints))

module _ (parse_ip : Str → Option Ip) (numbers : Numbers) {E : Type 0} (sc : MeshSource E) where
  -- What a service without a target annotation has: endpoints of its own and the targets of its
  -- name; on an error of its node ports neither.
  abbrev port_answer : Service → Str → ℤ → Attempt E (List Str) → List Endpoint × List Str
  port_answer svc hostname ttl (failed e) = ([], [])
  port_answer svc hostname ttl (returned targets) =
      (extract_node_port_endpoints svc hostname ttl, targets)

  unfoldable pub by_type : Service → Str → ℤ → Bool → List Endpoint × List Str
  by_type svc hostname ttl use_cluster_ip =
      if svc.type == codes "LoadBalancer"
      then (
        [],
        if use_cluster_ip
            then extract_service_ips svc
            else extract_load_balancer_targets sc.resolve_load_balancer_hostname sc.lookup_ip svc,
      )
      else if svc.type == codes "ClusterIP"
      then (if svc.cluster_ip == cluster_ip_none
          then (extract_headless_endpoints parse_ip sc svc hostname ttl, [])
          else ([], if use_cluster_ip || sc.publish_internal then extract_service_ips svc else []))
      else if svc.type == codes "NodePort"
      then port_answer svc hostname ttl (extract_node_port_targets parse_ip sc svc)
      else if svc.type == codes "ExternalName"
      then ([], extract_service_external_name svc)
      else ([], [])

  abbrev pub specific : List ProviderSpecificProperty → Str → Endpoint → Endpoint
  specific properties set_id e = record e {
    provider_specific = properties;
    set_identifier = set_id;
  }

  -- `generateEndpoints`
  unfoldable pub generate_endpoints :
      Service → Str → List ProviderSpecificProperty → Str → Bool → List Endpoint
  generate_endpoints svc hostname properties set_id use_cluster_ip =
      let name = trim_suffix b'.' hostname in
      let ttl = get_ttl_from_annotations numbers svc.meta.annotations in
      let annotated = get_targets_from_target_annotation svc.meta.annotations in
      let found =
        if is_empty annotated then by_type svc name ttl use_cluster_ip else ([], annotated) in
      map (specific properties set_id) found.0
      ++ endpoints_for_hostname parse_ip name found.1 ttl properties set_id
          (resource_name (codes "service") svc.meta)

  -- `serviceSource.endpoints`
  unfoldable pub endpoints : Service → List Endpoint
  endpoints svc =
      if is_empty svc.cluster_ip
      then []
      else generate_endpoints svc
          (svc.meta.name ++ (codes "." ++ (svc.meta.namespace ++ sc.internal_domain))) [] [] true

  -- The labels that `Endpoints` and `setResourceLabel` set; they are not nil.
  abbrev pub labelled : Service → Endpoint → Endpoint
  labelled svc e = record e {
    labels =
        Option.map
          (λ labels.
            insert resource_label_key (resource_name (codes "service") svc.meta)
              (insert (codes "m") sc.sync_id (insert (codes "ns") svc.meta.namespace labels)))
          e.labels;
  }

  -- The loop over the services
  unfoldable pub all_endpoints : List Service → List Endpoint
  all_endpoints [] = []
  all_endpoints (svc ∷ services) = map (labelled svc) (endpoints svc) ++ all_endpoints services

  abbrev pub typed : List Service → List Service
  typed services =
      if is_empty sc.service_type_filter
      then services
      else filter_by_service_type sc.service_type_filter services

  -- `serviceSource.Endpoints`, from what the lister returns; `none` is a panic.
  unfoldable pub mesh_endpoints :
      NetIp → Attempt E (List Service) → Attempt E (Option (List Endpoint))
  mesh_endpoints net listed = continue listed (λ services.
      continue (filter_by_annotations (λ svc. svc.meta.annotations) sc.annotation_selector services)
        (λ kept.
          returned (Option.map (sort_each net) (merge_endpoints (all_endpoints (typed kept))))))
