-- ===== src/Source/Istio.antt =====
-- source/istio_gateway.go: endpoints for the hosts of Istio's gateways.
pub mod Hosts
use dns_sync.Base.{
  Bool, true, false, ◌&&◌, ◌||◌, not, Option, none, some, List, [], ◌∷◌, ◌++◌, Str, codes, ◌==◌,
  str_eq, map, lookup, split, concat_map, if◌then◌else◌,
}
use dns_sync.Attempt.{Attempt, failed, returned, continue, gather}
use dns_sync.Endpoint.{Endpoint}
use dns_sync.Targets.{NetIp}
use dns_sync.Source.{Ip, is_empty}
use dns_sync.Source.Annotations.{
  Annotations, Numbers, get_ttl_from_annotations, get_targets_from_target_annotation,
  get_hostnames_from_annotations, get_provider_specific_annotations, is_responsible, exec_template,
}
use dns_sync.Source.Kube.{
  Meta, LoadBalancerIngress, Selector, hosted, resource_name, filter_by_annotations, first_targets,
  sort_each,
}

abbrev pub istio_gateway_ingress_source : Str
istio_gateway_ingress_source = codes "external-dns.alpha.kubernetes.io/ingress"

-- What the source reads of a gateway (the hosts of each of its servers) and of a service
pub record IstioGateway : Type 0 where
  pub meta : Meta
  pub selector : Annotations
  pub servers : List (List Str)

pub record GatewayService : Type 0 where
  pub selector : Annotations
  pub external_ips : List Str
  pub load_balancer : List LoadBalancerIngress

-- The errors of the source: the API server's, or a name of an ingress that is none
pub data IstioError (E : Type 0) : Type 0 where
  api : E → IstioError E
  invalid_ingress : Str → IstioError E

-- The fields of `gatewaySource` and what the API server answers
pub record IstioSource (E : Type 0) : Type 0 where
  pub annotation_selector : Attempt (IstioError E) Selector
  pub fqdn_template : Option (IstioGateway → Attempt (IstioError E) Str)
  pub combine_fqdn_annotation : Bool
  pub ignore_hostname_annotation : Bool
  pub ingress : Str → Str → Attempt (IstioError E) (List LoadBalancerIngress)
  pub services : Attempt (IstioError E) (List GatewayService)

-- `parseIngress`: the namespace, which may be empty, and the name
abbrev pub namespace_and_name : List Str → Option (Str × Str)
namespace_and_name (name ∷ []) = some ([], name)
namespace_and_name (namespace ∷ name ∷ []) = some (namespace, name)
namespace_and_name _ = none

unfoldable pub parse_ingress : Str → Option (Str × Str)
parse_ingress ingress = namespace_and_name (split b'/' ingress)

-- `gatewaySelectorMatchesServiceSelector`
abbrev pub has_value : Option Str → Str → Bool
has_value none v = false
has_value (some lbl) v = lbl == v

unfoldable pub gateway_selector_matches_service_selector : Annotations → Annotations → Bool
gateway_selector_matches_service_selector [] svc = true
gateway_selector_matches_service_selector ((k, v) ∷ gw) svc =
    has_value (lookup k svc) v && gateway_selector_matches_service_selector gw svc

-- The host of a server without its namespace
abbrev pub second_of : Str → List Str → Str
second_of host (namespace ∷ name ∷ []) = name
second_of host _ = host

unfoldable pub host_of : Str → List Str
host_of host =
    if is_empty host
    then []
    else let name = second_of host (split b'/' host) in if name == codes "*" then [] else name ∷ []

-- `hostNamesFromGateway`, which returns no error
unfoldable pub host_names_from_gateway : Bool → IstioGateway → List Str
host_names_from_gateway ignore_hostname_annotation gw =
    concat_map (concat_map host_of) gw.servers
    ++ (if ignore_hostname_annotation
        then []
        else get_hostnames_from_annotations gw.meta.annotations)

-- The loop of `targetsFromGateway` over the services
unfoldable pub service_targets : Annotations → List GatewayService → List Str
service_targets selector [] = []
service_targets selector (svc ∷ services) =
    (if gateway_selector_matches_service_selector selector svc.selector
      then if is_empty svc.external_ips then first_targets svc.load_balancer else svc.external_ips
      else [])
    ++ service_targets selector services

module _ {E : Type 0} (sc : IstioSource E) where
  -- `targetsFromIngress`
  abbrev pub ingress_of :
      IstioGateway → Str → Option (Str × Str) → Attempt (IstioError E) (List Str)
  ingress_of gw ingress none = failed (invalid_ingress ingress)
  ingress_of gw ingress (some (namespace, name)) =
      continue (sc.ingress (if is_empty namespace then gw.meta.namespace else namespace) name)
        (λ lbs. returned (first_targets lbs))

  unfoldable pub targets_from_ingress : Str → IstioGateway → Attempt (IstioError E) (List Str)
  targets_from_ingress ingress gw = ingress_of gw ingress (parse_ingress ingress)

  abbrev pub targets_from_services : IstioGateway → Attempt (IstioError E) (List Str)
  targets_from_services gw =
      continue sc.services (λ services. returned (service_targets gw.selector services))

  abbrev pub targets_from_annotation : IstioGateway → Option Str → Attempt (IstioError E) (List Str)
  targets_from_annotation gw none = targets_from_services gw
  targets_from_annotation gw (some ingress) =
      if is_empty ingress then targets_from_services gw else targets_from_ingress ingress gw

  -- `targetsFromGateway`
  unfoldable pub targets_from_gateway : IstioGateway → Attempt (IstioError E) (List Str)
  targets_from_gateway gw =
      let targets = get_targets_from_target_annotation gw.meta.annotations in
      if is_empty targets
      then targets_from_annotation gw (lookup istio_gateway_ingress_source gw.meta.annotations)
      else returned targets

  module _ (parse_ip : Str → Option Ip) (numbers : Numbers) where
    -- `endpointsFromGateway`
    unfoldable pub endpoints_from_gateway :
        List Str → IstioGateway → Attempt (IstioError E) (List Endpoint)
    endpoints_from_gateway hostnames gw =
        let (specific, set_id) = get_provider_specific_annotations gw.meta.annotations in
        let targets = get_targets_from_target_annotation gw.meta.annotations in
        continue (if is_empty targets then targets_from_gateway gw else returned targets) (λ ts.
          returned (
            concat_map
              (hosted parse_ip (record {
                targets = ts;
                ttl = get_ttl_from_annotations numbers gw.meta.annotations;
                provider_specific = specific;
                set_identifier = set_id;
                resource = resource_name (codes "gateway") gw.meta;
              }))
              hostnames))

    -- The host names, with those of the template where it is applied
    abbrev pub with_names :
        Option (IstioGateway → Attempt (IstioError E) Str)
        → IstioGateway
        → List Str
        → Attempt (IstioError E) (List Str)
    with_names none gw hostnames = returned hostnames
    with_names (some template) gw hostnames =
        if sc.combine_fqdn_annotation || is_empty hostnames
        then continue (exec_template (template gw))
            (λ names. returned (if sc.combine_fqdn_annotation then hostnames ++ names else names))
        else returned hostnames

    -- The iteration of `Endpoints`
    unfoldable pub istio_gateway_endpoints : IstioGateway → Attempt (IstioError E) (List Endpoint)
    istio_gateway_endpoints gw =
        if is_responsible gw.meta.annotations
        then continue
            (with_names sc.fqdn_template gw
              (host_names_from_gateway sc.ignore_hostname_annotation gw))
            (λ hostnames.
              if is_empty hostnames then returned [] else endpoints_from_gateway hostnames gw)
        else returned []

    -- `gatewaySource.Endpoints`, from what the client lists
    unfoldable pub all_istio_gateway_endpoints :
        NetIp → Attempt (IstioError E) (List IstioGateway) → Attempt (IstioError E) (List Endpoint)
    all_istio_gateway_endpoints net listed = continue listed (λ gws.
        continue (filter_by_annotations (λ gw. gw.meta.annotations) sc.annotation_selector gws)
          (λ kept.
            continue (gather istio_gateway_endpoints kept)
              (λ endpoints. returned (sort_each net endpoints))))
