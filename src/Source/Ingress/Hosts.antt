-- ===== src/Source/Ingress/Hosts.antt =====
-- Which hosts of an ingress get endpoints, and which ingresses are kept.
use dns_sync.Base.{
  str_beq, str_beq_iff, subst, Bool, true, false, not, Option, none, some, List, [], ◌∷◌, ◌++◌, Str,
  ◌==◌, str_eq, keep, lookup, to_lower, concat_map, concat_map-append, ap_if, ◌≡◌, refl, ap, sym,
  ◌∙◌, if◌then◌else◌,
}
use mathlib.Core.List.{append-nil}
use dns_sync.Endpoint.{Endpoint}
use dns_sync.Source.{Ip, is_empty}
use dns_sync.Source.Annotations.{
  Numbers, get_hostnames_from_annotations, ingress_hostname_source_key,
}
use dns_sync.Source.Kube.{Described, hosted}
use dns_sync.Source.Ingress.{
  Ingress, annotation_only, defined_hosts_only, described, endpoints_of_hosts, endpoints_of_tls,
  chosen, endpoints_from_ingress,
}

abbrev pub named : Str → Bool
named host = not (is_empty host)

-- The hosts that the specification defines, and those of the annotation
abbrev pub defined_hosts : Ingress → Bool → Bool → List Str
defined_hosts ing ignore_tls ignore_rules =
    (if ignore_rules then [] else keep named ing.rules)
    ++ (if ignore_tls then [] else concat_map (keep named) ing.tls)

abbrev pub annotated_hosts : Ingress → Bool → List Str
annotated_hosts ing ignore_hostname_annotation =
    if ignore_hostname_annotation then [] else get_hostnames_from_annotations ing.meta.annotations

-- The hosts that count: those of both, but the ones of one alone where the annotation on the source
-- names it, and none where the annotation names neither.
abbrev pub select_hosts : Option Str → List Str → List Str → List Str
select_hosts none defined annotated = defined ++ annotated
select_hosts (some source) defined annotated =
    if to_lower source == defined_hosts_only
    then defined
    else if to_lower source == annotation_only
    then annotated
    else []

apart : (defined_hosts_only == annotation_only) ≡ false
unfolding str_beq
apart = refl

choose :
    (f : Str → List Endpoint) (defined annotated : List Str) (a b : Bool)
    → (a ≡ true → b ≡ false)
    → (if a then concat_map f defined else []) ++ (if b then concat_map f annotated else [])
      ≡ concat_map f (if a then defined else if b then annotated else [])
choose f defined annotated true b apart = rw (apart refl) (append-nil (concat_map f defined))
choose f defined annotated false true apart = refl
choose f defined annotated false false apart = refl

module _ (parse_ip : Str → Option Ip) (numbers : Numbers) where
  endpoints_of_hosts-keep :
      (d : Described) (hosts : List Str)
      → endpoints_of_hosts parse_ip numbers d hosts
        ≡ concat_map (hosted parse_ip d) (keep named hosts)
  unfolding endpoints_of_hosts
  endpoints_of_hosts-keep d [] = refl
  endpoints_of_hosts-keep d ([] ∷ hosts) = endpoints_of_hosts-keep d hosts
  endpoints_of_hosts-keep d ((c ∷ host) ∷ hosts) =
      ap (λ es. hosted parse_ip d (c ∷ host) ++ es) (endpoints_of_hosts-keep d hosts)

  endpoints_of_tls-keep :
      (d : Described) (tls : List (List Str))
      → endpoints_of_tls parse_ip numbers d tls
        ≡ concat_map (hosted parse_ip d) (concat_map (keep named) tls)
  unfolding endpoints_of_tls
  endpoints_of_tls-keep d [] = refl
  endpoints_of_tls-keep d (hosts ∷ tls) =
      ap (λ es. es ++ endpoints_of_tls parse_ip numbers d tls) (endpoints_of_hosts-keep d hosts)
      ∙ ap (λ es. concat_map (hosted parse_ip d) (keep named hosts) ++ es)
          (endpoints_of_tls-keep d tls)
      ∙ sym (concat_map-append (hosted parse_ip d) (keep named hosts) (concat_map (keep named) tls))

  chosen-select_hosts :
      (f : Str → List Endpoint) (o : Option Str) (defined annotated : List Str)
      → chosen parse_ip numbers o (concat_map f defined) (concat_map f annotated)
        ≡ concat_map f (select_hosts o defined annotated)
  chosen-select_hosts f none defined annotated = sym (concat_map-append f defined annotated)
  chosen-select_hosts f (some s) defined annotated =
      choose f defined annotated (to_lower s == defined_hosts_only) (to_lower s == annotation_only)
        (λ first.
          subst (λ t. (t == annotation_only) ≡ false)
            (sym ((str_beq_iff (to_lower s) defined_hosts_only).0 first)) apart)

  defined_hosts-endpoints :
      (d : Described) (ing : Ingress) (ignore_tls ignore_rules : Bool)
      → (if ignore_rules then [] else endpoints_of_hosts parse_ip numbers d ing.rules)
          ++ (if ignore_tls then [] else endpoints_of_tls parse_ip numbers d ing.tls)
        ≡ concat_map (hosted parse_ip d) (defined_hosts ing ignore_tls ignore_rules)
  defined_hosts-endpoints d ing true true = refl
  defined_hosts-endpoints d ing true false =
      ap (λ es. es ++ []) (endpoints_of_hosts-keep d ing.rules)
      ∙ sym (concat_map-append (hosted parse_ip d) (keep named ing.rules) [])
  defined_hosts-endpoints d ing false true = endpoints_of_tls-keep d ing.tls
  defined_hosts-endpoints d ing false false =
      ap (λ es. es ++ endpoints_of_tls parse_ip numbers d ing.tls)
        (endpoints_of_hosts-keep d ing.rules)
      ∙ ap (λ es. concat_map (hosted parse_ip d) (keep named ing.rules) ++ es)
          (endpoints_of_tls-keep d ing.tls)
      ∙ sym (
          concat_map-append (hosted parse_ip d) (keep named ing.rules)
            (concat_map (keep named) ing.tls))

  -- The endpoints of an ingress are those of the hosts that count for it, one host after the other:
  -- the hosts that are not empty in its rules and its TLS entries and the names in its annotation,
  -- each kind unless it is ignored, but those of the specification alone or of the annotation alone
  -- where the annotation on the source of host names says so in any case, and none where that
  -- annotation says something else.
  pub endpoints_from_ingress-hosts :
      (ing : Ingress) (ignore_hostname_annotation ignore_tls ignore_rules : Bool)
      → endpoints_from_ingress parse_ip numbers ing ignore_hostname_annotation ignore_tls
          ignore_rules
        ≡ concat_map (hosted parse_ip (described numbers ing)) (
            select_hosts
              (lookup ingress_hostname_source_key ing.meta.annotations)
              (defined_hosts ing ignore_tls ignore_rules)
              (annotated_hosts ing ignore_hostname_annotation))
  unfolding endpoints_from_ingress
  endpoints_from_ingress-hosts ing ignore_hostname_annotation ignore_tls ignore_rules =
      ap
        (λ es. chosen parse_ip numbers source es (
          if ignore_hostname_annotation
          then []
          else concat_map (hosted parse_ip d)
              (get_hostnames_from_annotations ing.meta.annotations)))
        (defined_hosts-endpoints d ing ignore_tls ignore_rules)
      ∙ ap
          (chosen parse_ip numbers source
            (concat_map (hosted parse_ip d) (defined_hosts ing ignore_tls ignore_rules)))
          (sym (
            ap_if (concat_map (hosted parse_ip d)) ignore_hostname_annotation []
              (get_hostnames_from_annotations ing.meta.annotations)))
      ∙ chosen-select_hosts (hosted parse_ip d) source (defined_hosts ing ignore_tls ignore_rules)
          (annotated_hosts ing ignore_hostname_annotation)
    where
      d : Described
      d = described numbers ing

      source : Option Str
      source = lookup ingress_hostname_source_key ing.meta.annotations
