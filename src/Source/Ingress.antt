-- ===== src/Source/Ingress.antt =====
-- source/ingress.go: endpoints for the hosts of ingresses.
pub mod Hosts
use dns_sync.Base.{
  Bool, true, false, ◌&&◌, ◌||◌, not, Option, none, some, List, [], ◌∷◌, ◌++◌, Str, codes, ◌==◌,
  str_eq, map, keep, any, lookup, insert, to_lower, concat_map, if◌then◌else◌,
}
use mathlib.Core.Option
use dns_sync.Attempt.{Attempt, failed, returned, continue, gather}
use dns_sync.Endpoint.{Endpoint}
use dns_sync.Targets.{NetIp}
use dns_sync.Source.{Ip, is_empty}
use dns_sync.Source.Annotations.{
  Annotations, Numbers, get_ttl_from_annotations, get_targets_from_target_annotation,
  get_hostnames_from_annotations, get_provider_specific_annotations, ingress_hostname_source_key,
  is_responsible, exec_template,
}
use dns_sync.Source.Kube.{
  Meta, LoadBalancerIngress, Selector, Described, hosted, resource_name, filter_by_annotations,
  load_balancer_targets, sort_each,
}

abbrev pub alb_dualstack_annotation_key : Str
alb_dualstack_annotation_key = codes "alb.ingress.kubernetes.io/ip-address-type"

abbrev pub alb_dualstack_annotation_value : Str
alb_dualstack_annotation_value = codes "dualstack"

abbrev pub annotation_only : Str
annotation_only = codes "annotation-only"

abbrev pub defined_hosts_only : Str
defined_hosts_only = codes "defined-hosts-only"

abbrev pub dualstack_label_key : Str
dualstack_label_key = codes "dualstack"

-- What the source reads of an ingress: the hosts of its rules and of its TLS entries too
pub record Ingress : Type 0 where
  pub meta : Meta
  pub ingress_class_name : Option Str
  pub rules : List Str
  pub tls : List (List Str)
  pub load_balancer : List LoadBalancerIngress

-- The fields of `ingressSource`; an absent template is nil, a present one gives the text that it
-- writes on an ingress.
pub record IngressSource (E : Type 0) : Type 0 where
  pub annotation_selector : Attempt E Selector
  pub ingress_class_names : List Str
  -- The selector for an annotation of one of the class names
  pub class_selector : Attempt E Selector
  pub fqdn_template : Option (Ingress → Attempt E Str)
  pub combine_fqdn_annotation : Bool
  pub ignore_hostname_annotation : Bool
  pub ignore_ingress_tls_spec : Bool
  pub ignore_ingress_rules_spec : Bool

-- Whether a class name fits an ingress
unfoldable pub class_matches : Selector → Ingress → Str → Bool
class_matches selector ing name_filter = elim ing.ingress_class_name [
  | none ↦ selector.matches ing.meta.annotations
  | some name ↦ if is_empty name then selector.matches ing.meta.annotations else name_filter == name
]

-- `filterByIngressClass`
unfoldable pub filter_by_ingress_class :
    {E : Type 0} → IngressSource E → List Ingress → Attempt E (List Ingress)
filter_by_ingress_class sc ingresses =
    if is_empty sc.ingress_class_names
    then returned ingresses
    else continue sc.class_selector (λ selector.
      returned (keep (λ ing. any (class_matches selector ing) sc.ingress_class_names) ingresses))

-- The targets of an ingress
abbrev pub ingress_targets : Ingress → List Str
ingress_targets ing =
    let targets = get_targets_from_target_annotation ing.meta.annotations in
    if is_empty targets then load_balancer_targets ing.load_balancer else targets

unfoldable pub described : Numbers → Ingress → Described
described numbers ing =
    let (specific, set_id) = get_provider_specific_annotations ing.meta.annotations in
    record {
      targets = ingress_targets ing;
      ttl = get_ttl_from_annotations numbers ing.meta.annotations;
      provider_specific = specific;
      set_identifier = set_id;
      resource = resource_name (codes "ingress") ing.meta;
    }

module _ (parse_ip : Str → Option Ip) (numbers : Numbers) where
  -- The loops over hosts, which skip the empty ones
  unfoldable pub endpoints_of_hosts : Described → List Str → List Endpoint
  endpoints_of_hosts d [] = []
  endpoints_of_hosts d (host ∷ hosts) =
      (if is_empty host then [] else hosted parse_ip d host) ++ endpoints_of_hosts d hosts

  unfoldable pub endpoints_of_tls : Described → List (List Str) → List Endpoint
  endpoints_of_tls d [] = []
  endpoints_of_tls d (hosts ∷ tls) = endpoints_of_hosts d hosts ++ endpoints_of_tls d tls

  -- The choice by the annotation on the source of host names
  abbrev pub chosen : Option Str → List Endpoint → List Endpoint → List Endpoint
  chosen none defined annotated = defined ++ annotated
  chosen (some source) defined annotated =
      (if to_lower source == defined_hosts_only then defined else [])
      ++ (if to_lower source == annotation_only then annotated else [])

  -- `endpointsFromIngress`
  unfoldable pub endpoints_from_ingress : Ingress → Bool → Bool → Bool → List Endpoint
  endpoints_from_ingress ing ignore_hostname_annotation ignore_tls ignore_rules =
      let d = described numbers ing in
      chosen (lookup ingress_hostname_source_key ing.meta.annotations)
        ((if ignore_rules then [] else endpoints_of_hosts d ing.rules)
          ++ (if ignore_tls then [] else endpoints_of_tls d ing.tls))
        (if ignore_hostname_annotation
          then []
          else concat_map (hosted parse_ip d) (get_hostnames_from_annotations ing.meta.annotations))

  -- `setDualstackLabel`; the labels of these endpoints are not nil.
  abbrev pub add_dualstack : Endpoint → Endpoint
  add_dualstack ep = record ep {
    labels = Option.map (insert dualstack_label_key (codes "true")) ep.labels;
  }

  unfoldable pub set_dualstack_label : Ingress → List Endpoint → List Endpoint
  set_dualstack_label ing endpoints =
      elim (lookup alb_dualstack_annotation_key ing.meta.annotations) [
        | none ↦ endpoints
        | some val ↦
            if val == alb_dualstack_annotation_value then map add_dualstack endpoints else endpoints
      ]

  module _ {E : Type 0} (sc : IngressSource E) where
    -- `endpointsFromTemplate`
    unfoldable pub endpoints_from_template :
        (Ingress → Attempt E Str) → Ingress → Attempt E (List Endpoint)
    endpoints_from_template template ing =
        continue (exec_template (template ing))
          (λ hostnames. returned (concat_map (hosted parse_ip (described numbers ing)) hostnames))

    -- The endpoints of an ingress with those of the template, where there is one to apply
    abbrev pub with_template :
        Option (Ingress → Attempt E Str) → Ingress → List Endpoint → Attempt E (List Endpoint)
    with_template none ing endpoints = returned endpoints
    with_template (some template) ing endpoints =
        if sc.combine_fqdn_annotation || is_empty endpoints
        then continue (endpoints_from_template template ing) (λ more. returned (endpoints ++ more))
        else returned endpoints

    -- The iteration of `Endpoints`
    unfoldable pub ingress_endpoints : Ingress → Attempt E (List Endpoint)
    ingress_endpoints ing =
        if is_responsible ing.meta.annotations
        then continue
            (with_template sc.fqdn_template ing (
              endpoints_from_ingress ing sc.ignore_hostname_annotation sc.ignore_ingress_tls_spec
                sc.ignore_ingress_rules_spec))
            (λ endpoints. returned (set_dualstack_label ing endpoints))
        else returned []

    -- `ingressSource.Endpoints`, from what the lister returns
    unfoldable pub all_ingress_endpoints :
        NetIp → Attempt E (List Ingress) → Attempt E (List Endpoint)
    all_ingress_endpoints net listed = continue listed (λ ingresses.
        continue
          (filter_by_annotations (λ ing. ing.meta.annotations) sc.annotation_selector ingresses)
          (λ annotated. continue (filter_by_ingress_class sc annotated) (λ classed.
            continue (gather ingress_endpoints classed)
              (λ endpoints. returned (sort_each net endpoints)))))
