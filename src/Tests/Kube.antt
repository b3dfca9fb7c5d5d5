-- ===== src/Tests/Kube.antt =====
-- The sources of Kubernetes objects on small inputs.
use dns_sync.Base.{
  ◌≡◌, ◌↔◌, ◌⊎◌, refl, true, false, none, some, Option, List, [], ◌∷◌, ◌++◌, Str, codes, map, keep,
  concat_map, lookup, or_default, Entries, Memᴰ, StrictlyAscending, str_ltb, str_beq, str_eq, pos,
  ◌==◌,
}
use dns_sync.Attempt.{returned}
use dns_sync.Endpoint.{EndpointKey, endpoint_key_eq, record_type_a}
use dns_sync.Source.Annotations.{
  Annotations, Numbers, ttl_annotation_key, hostname_annotation_key, get_ttl_from_annotations,
  internal_hostname_annotation_key, ingress_hostname_source_key,
}
use dns_sync.Source.Annotations.Bounds.{IsTtl, get_ttl_from_annotations-IsTtl}
use dns_sync.Source.Kube.{Meta, Node, node_external_ip, node_internal_ip, hosted}
use dns_sync.Source.Node.{EndpointMap, node_addresses, of_type, node_endpoints}
use dns_sync.Source.Node.Addresses.{Keyed, targets_at, addresses_at, node_endpoints-Grouped}
use dns_sync.Source.Pod.{Pod, TargetMap, new_endpoints, pod_endpoints}
use dns_sync.Source.Pod.Claims.{pod_claims, pod_endpoints-claims}
use dns_sync.Source.Gateway.{Gateway, gateway_addresses, resolve_gateway}
use dns_sync.Source.Gateway.Hosts.{targets_for, resolve_gateway-targets}
use dns_sync.Source.Ingress.{Ingress, described, endpoints_from_ingress}
use dns_sync.Source.Ingress.Hosts.{
  defined_hosts, annotated_hosts, select_hosts, endpoints_from_ingress-hosts,
}
use dns_sync.Source.Istio.{GatewayService, service_targets}
use dns_sync.Source.Istio.Hosts.{Gives, service_targets-Gives}
use dns_sync.Source.ServiceEntry.{
  ServiceEntry, mesh_external, mesh_internal, external_records, internal_records,
}
use dns_sync.Source.ServiceEntry.Resolved.{External, Internal}
use dns_sync.Source.ServiceEntry.Records.{Recorded, service_entry_records-Recorded}
use dns_sync.Tests.Planner.{record_of}
use dns_sync.Tests.Source.{parse_sample}

abbrev no_numbers : Numbers
no_numbers = record { parse_duration = λ s. none; parse_int = λ s. some (pos 300) }

abbrev pub meta_of : Str → Annotations → Meta
meta_of name annotations = record { namespace = codes "ns"; name = name; annotations = annotations }

get_ttl_from_annotations-IsTtl_example :
    IsTtl (get_ttl_from_annotations no_numbers ((ttl_annotation_key, codes "300") ∷ []))
get_ttl_from_annotations-IsTtl_example =
    get_ttl_from_annotations-IsTtl no_numbers ((ttl_annotation_key, codes "300") ∷ [])

abbrev node_of : Str → Node
node_of name = record {
  meta = meta_of name [];
  addresses =
      record { type = node_external_ip; address = codes "1.1.1.1" }
      ∷ record { type = node_internal_ip; address = codes "::1" }
      ∷ [];
}

abbrev two_nodes : List Node
two_nodes = node_of (codes "a") ∷ node_of (codes "b") ∷ []

node_endpoints-Grouped_example :
    (m : EndpointMap) × ((node_endpoints parse_sample no_numbers {E = Str}
          (codes ".x")
          (returned two_nodes)
        ≡ returned (map (λ t. t.1) m))
      × (Entries Keyed m
          × ((k : EndpointKey)
              → targets_at k m ≡ addresses_at parse_sample k (codes ".x") two_nodes)))
unfolding node_addresses of_type str_beq
node_endpoints-Grouped_example =
    node_endpoints-Grouped parse_sample no_numbers {E = Str} (codes ".x") two_nodes
      (refl, (refl, tt))

abbrev sample_pod : Pod
sample_pod = record {
  meta = meta_of (codes "p") (
      (hostname_annotation_key, codes "a.b")
      ∷ (internal_hostname_annotation_key, codes "c.b")
      ∷ []);
  host_network = true;
  pod_ip = codes "1.1.1.1";
  node_name = codes "a";
}

abbrev get_sample : Str → Option Node
get_sample name = some (node_of name)

pod_endpoints-claims_example :
    (m : TargetMap) × ((pod_endpoints parse_sample {E = Str} get_sample (returned (sample_pod ∷ []))
        ≡ returned (new_endpoints m))
      × ((k : EndpointKey)
          → or_default [] (lookup k m)
            ≡ map
                (λ c. c.1)
                (keep
                  (λ c. c.0 == k)
                  (concat_map (pod_claims parse_sample get_sample) (sample_pod ∷ [])))))
pod_endpoints-claims_example =
    pod_endpoints-claims parse_sample {E = Str} get_sample (sample_pod ∷ []) (refl, tt)

abbrev sample_gateway : Gateway
sample_gateway = record {
  meta = meta_of (codes "g") [];
  listeners = some (codes "a.b") ∷ none ∷ some (codes "a.b") ∷ [];
  spec_addresses = codes "2" ∷ codes "1" ∷ [];
  status_addresses = [];
}

resolve_gateway-targets_example :
    StrictlyAscending str_ltb (targets_for (codes "a.b") (resolve_gateway sample_gateway))
    × ((a : Str)
        → Memᴰ a (targets_for (codes "a.b") (resolve_gateway sample_gateway)) ↔ (
            Memᴰ (some (codes "a.b")) sample_gateway.listeners
            × ((false ≡ false) × Memᴰ a (gateway_addresses sample_gateway))))
resolve_gateway-targets_example = resolve_gateway-targets sample_gateway (codes "a.b")

abbrev sample_ingress : Ingress
sample_ingress = record {
  meta = meta_of (codes "i") (
      (hostname_annotation_key, codes "h.b")
      ∷ (ingress_hostname_source_key, codes "Defined-Hosts-Only")
      ∷ []);
  ingress_class_name = none;
  rules = codes "a.b" ∷ [] ∷ [];
  tls = (codes "c.b" ∷ []) ∷ [];
  load_balancer = record { ip = codes "1.1.1.1"; hostname = [] } ∷ [];
}

endpoints_from_ingress-hosts_example :
    endpoints_from_ingress parse_sample no_numbers sample_ingress false false false
    ≡ concat_map (hosted parse_sample (described no_numbers sample_ingress)) (
        select_hosts
          (lookup ingress_hostname_source_key sample_ingress.meta.annotations)
          (defined_hosts sample_ingress false false)
          (annotated_hosts sample_ingress false))
endpoints_from_ingress-hosts_example =
    endpoints_from_ingress-hosts parse_sample no_numbers sample_ingress false false false

abbrev sample_services : List GatewayService
sample_services =
    record {
      selector = (codes "app", codes "gw") ∷ [];
      external_ips = [];
      load_balancer = record { ip = codes "1.1.1.1"; hostname = codes "x" } ∷ [];
    }
    ∷ []

service_targets-Gives_example :
    Memᴰ (codes "1.1.1.1") (service_targets ((codes "app", codes "gw") ∷ []) sample_services)
    ↔ Gives ((codes "app", codes "gw") ∷ []) sample_services (codes "1.1.1.1")
service_targets-Gives_example =
    service_targets-Gives ((codes "app", codes "gw") ∷ []) sample_services (codes "1.1.1.1")

abbrev external_entry : ServiceEntry
external_entry = record {
  meta = meta_of (codes "s") [];
  location = mesh_external;
  hosts = codes "a.b" ∷ codes "*" ∷ [];
  addresses = [];
  protocols = codes "http" ∷ [];
}

abbrev internal_entry : ServiceEntry
internal_entry = record external_entry {
  location = mesh_internal;
  addresses = codes "1.1.1.1" ∷ [];
}

abbrev sample_entries : List ServiceEntry
sample_entries = external_entry ∷ internal_entry ∷ []

service_entry_records-Recorded_example :
    Memᴰ (record_of (codes "a.b") record_type_a (codes "1.1.1.1") none) (
      external_records parse_sample no_numbers (codes "1.1.1.1") sample_entries
      ++ internal_records parse_sample no_numbers sample_entries)
    ↔ (Recorded parse_sample no_numbers
          (External (codes "1.1.1.1"))
          sample_entries
          (record_of (codes "a.b") record_type_a (codes "1.1.1.1") none)
        ⊎ Recorded parse_sample no_numbers Internal sample_entries
            (record_of (codes "a.b") record_type_a (codes "1.1.1.1") none))
service_entry_records-Recorded_example =
    service_entry_records-Recorded parse_sample no_numbers (codes "1.1.1.1") sample_entries
      sample_entries (record_of (codes "a.b") record_type_a (codes "1.1.1.1") none)
