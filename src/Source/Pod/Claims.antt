-- ===== src/Source/Pod/Claims.antt =====
-- Which targets of the pods end up under which key of the map.
use dns_sync.Base.{
  Bool, true, false, Option, none, some, List, [], ◌∷◌, ◌++◌, Str, ◌==◌, keep, lookup, map, All,
  ◌≡◌, refl, ap, sym, ◌∙◌, inl, inr, Option-cases, is_some, or_default, append_each,
  append_each-append, lookup-append_each, concat_map, if◌then◌else◌, append_to,
}
use dns_sync.Attempt.{returned, continue}
use dns_sync.Endpoint.{EndpointKey, endpoint_key_eq}
use dns_sync.Source.{Ip, is_empty}
use dns_sync.Source.Annotations.{
  get_targets_from_target_annotation, get_hostnames_from_annotations,
  get_internal_hostnames_from_annotations,
}
use dns_sync.Source.Kube.{Node}
use dns_sync.Source.Pod.{
  Pod, TargetMap, target_key, add_to_endpoint_map, external_addresses, add_internal, domain_targets,
  add_external, add_pod, add_pods, new_endpoints, pod_endpoints,
}

abbrev pub Claim : Type 0
Claim = EndpointKey × Str

module _ (parse_ip : Str → Option Ip) where
  -- What a pod claims for a domain, from its targets
  abbrev pub domain_claims : List Str → Str → List Claim
  domain_claims targets domain = map (λ t. (target_key parse_ip domain t, t)) targets

  add_to_endpoint_map-each :
      (domain : Str) (targets : List Str) (m : TargetMap)
      → add_to_endpoint_map parse_ip domain targets m ≡ append_each (domain_claims targets domain) m
  unfolding add_to_endpoint_map
  add_to_endpoint_map-each domain [] m = refl
  add_to_endpoint_map-each domain (t ∷ ts) m =
      add_to_endpoint_map-each domain ts (append_to (target_key parse_ip domain t) (t ∷ []) m)

  abbrev pub or_these : List Str → List Str → List Str
  or_these these targets = if is_empty targets then these else targets

  add_internal-each :
      (pod : Pod) (targets domains : List Str) (m : TargetMap)
      → add_internal parse_ip pod targets domains m
        ≡ append_each (concat_map (domain_claims (or_these (pod.pod_ip ∷ []) targets)) domains) m
  unfolding add_internal
  add_internal-each pod targets [] m = refl
  add_internal-each pod targets (d ∷ ds) m =
      add_internal-each pod targets ds (add_to_endpoint_map parse_ip d ts m)
      ∙ ap (append_each (concat_map (domain_claims ts) ds)) (add_to_endpoint_map-each d ts m)
      ∙ sym (append_each-append (domain_claims ts d) (concat_map (domain_claims ts) ds) m)
    where
      ts : List Str
      ts = or_these (pod.pod_ip ∷ []) targets

  -- The addresses of a node that may be missing
  abbrev pub addresses_of : Option Node → List Str
  addresses_of none = []
  addresses_of (some node) = external_addresses parse_ip node

  -- What a pod claims: nothing without its host's network. Else each name of the internal annotation
  -- for the targets of its target annotation, by default its own address, and each name of the
  -- hostname annotation for these targets, by default the outer addresses of its node.
  abbrev pub pod_claims : (Str → Option Node) → Pod → List Claim
  pod_claims get_node pod =
      let targets = get_targets_from_target_annotation pod.meta.annotations in
      if pod.host_network
      then concat_map (domain_claims (or_these (pod.pod_ip ∷ []) targets))
          (get_internal_hostnames_from_annotations pod.meta.annotations)
        ++ concat_map (domain_claims (or_these (addresses_of (get_node pod.node_name)) targets))
            (get_hostnames_from_annotations pod.meta.annotations)
      else []

  module _ {E : Type 0} (get_node : Str → Option Node) where
    domain_targets-known :
        (pod : Pod) (targets : List Str)
        → is_some (get_node pod.node_name) ≡ true
        → domain_targets parse_ip {E = E} get_node pod targets
          ≡ returned (or_these (addresses_of (get_node pod.node_name)) targets)
    domain_targets-known pod [] known = elim (Option-cases (get_node pod.node_name)) [
      | inl missing ↦ cc
      | inr (node, found) ↦ rw found refl
    ]
    domain_targets-known pod (t ∷ ts) known = refl

    add_external-each :
        (pod : Pod) (targets domains : List Str) (m : TargetMap)
        → is_some (get_node pod.node_name) ≡ true
        → add_external parse_ip {E = E} get_node pod targets domains m
          ≡ returned (
              append_each
                (concat_map
                  (domain_claims (or_these (addresses_of (get_node pod.node_name)) targets))
                  domains)
                m)
    unfolding add_external
    add_external-each pod targets [] m known = refl
    add_external-each pod targets (d ∷ ds) m known =
        ap
          (λ r. continue r (λ us.
            add_external parse_ip {E = E} get_node pod targets ds
              (add_to_endpoint_map parse_ip d us m)))
          (domain_targets-known pod targets known)
        ∙ add_external-each pod targets ds (add_to_endpoint_map parse_ip d ts m) known
        ∙ ap (λ n. returned (append_each (concat_map (domain_claims ts) ds) n))
            (add_to_endpoint_map-each d ts m)
        ∙ ap returned
            (sym (append_each-append (domain_claims ts d) (concat_map (domain_claims ts) ds) m))
      where
        ts : List Str
        ts = or_these (addresses_of (get_node pod.node_name)) targets

    add_pod-each :
        (pod : Pod) (m : TargetMap)
        → is_some (get_node pod.node_name) ≡ true
        → add_pod parse_ip {E = E} get_node pod m
          ≡ returned (append_each (pod_claims get_node pod) m)
    unfolding add_pod
    add_pod-each pod m known = by_host pod.host_network
      where
        targets : List Str
        targets = get_targets_from_target_annotation pod.meta.annotations

        internal : List Str
        internal = get_internal_hostnames_from_annotations pod.meta.annotations

        outer : List Claim
        outer =
            concat_map (domain_claims (or_these (addresses_of (get_node pod.node_name)) targets))
              (get_hostnames_from_annotations pod.meta.annotations)

        inner : List Claim
        inner = concat_map (domain_claims (or_these (pod.pod_ip ∷ []) targets)) internal

        by_host :
            (b : Bool)
            → (if b
                then add_external parse_ip {E = E} get_node pod targets
                    (get_hostnames_from_annotations pod.meta.annotations)
                    (add_internal parse_ip pod targets internal m)
                else returned m)
              ≡ returned (append_each (if b then inner ++ outer else []) m)
        by_host false = refl
        by_host true =
            add_external-each pod targets (get_hostnames_from_annotations pod.meta.annotations)
              (add_internal parse_ip pod targets internal m) known
            ∙ ap (λ n. returned (append_each outer n)) (add_internal-each pod targets internal m)
            ∙ ap returned (sym (append_each-append inner outer m))

    add_pods-each :
        (pods : List Pod) (m : TargetMap)
        → All (λ p. is_some (get_node p.node_name) ≡ true) pods
        → add_pods parse_ip {E = E} get_node pods m
          ≡ returned (append_each (concat_map (pod_claims get_node) pods) m)
    unfolding add_pods
    add_pods-each [] m h = refl
    add_pods-each (pod ∷ pods) m (known, h) =
        ap (λ r. continue r (λ n. add_pods parse_ip {E = E} get_node pods n))
          (add_pod-each pod m known)
        ∙ add_pods-each pods (append_each (pod_claims get_node pod) m) h
        ∙ ap returned (
            sym (
              append_each-append (pod_claims get_node pod) (concat_map (pod_claims get_node) pods)
                m))

    pub pod_endpoints-claims :
        (pods : List Pod)
        → All (λ p. is_some (get_node p.node_name) ≡ true) pods
        → (m : TargetMap) × ((pod_endpoints parse_ip {E = E} get_node (returned pods)
              ≡ returned (new_endpoints m))
            × ((k : EndpointKey)
                → or_default [] (lookup k m)
                  ≡ map (λ c. c.1) (keep (λ c. c.0 == k) (concat_map (pod_claims get_node) pods))))
    unfolding pod_endpoints lookup
    pod_endpoints-claims pods h = (
      append_each (concat_map (pod_claims get_node) pods) [],
      (
        ap (λ r. continue r (λ m. returned (new_endpoints m))) (add_pods-each pods [] h),
        λ k. lookup-append_each k (concat_map (pod_claims get_node) pods) [],
      ),
    )
