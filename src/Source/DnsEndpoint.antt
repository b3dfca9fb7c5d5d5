-- ===== src/Source/DnsEndpoint.antt =====
-- source/dnsendpoint.go: the endpoints that custom resources list.
pub mod Labelled
pub mod Legal
use dns_sync.Base.{
  Bool, true, ◌&&◌, ◌||◌, not, some, List, [], ◌∷◌, ◌++◌, ℕ, nat_beq, Str, codes, ◌==◌, str_eq, map,
  keep, any, insert, or_default, has_suffix, if◌then◌else◌,
}
use dns_sync.Attempt.{Attempt, returned, continue}
use dns_sync.Endpoint.{
  Endpoint, record_type_a, record_type_aaaa, record_type_cname, resource_label_key,
}
use dns_sync.Source.{is_empty}
use dns_sync.Source.Kube.{Meta, Selector, resource_name, filter_by_annotations}

-- What the source reads of a resource, and the field of its status that it writes
pub record DnsEndpoint : Type 0 where
  pub meta : Meta
  pub endpoints : List Endpoint
  pub generation : ℕ
  pub observed_generation : ℕ

-- An endpoint of an address or an alias without targets
abbrev pub lacks_targets : Endpoint → Bool
lacks_targets ep =
    (ep.record_type == record_type_cname
      || (ep.record_type == record_type_a || ep.record_type == record_type_aaaa))
    && is_empty ep.targets

-- The loop over the targets: those of NAPTR end in a dot, and others do not.
abbrev pub is_illegal : Str → Str → Bool
is_illegal record_type target =
    if record_type == codes "NAPTR"
    then not (has_suffix target (codes "."))
    else has_suffix target (codes ".")

unfoldable pub illegal_target : Endpoint → Bool
illegal_target ep = any (is_illegal ep.record_type) ep.targets

-- `setResourceLabel`, with a new map where there is none
abbrev pub with_resource_label : DnsEndpoint → Endpoint → Endpoint
with_resource_label crd ep = record ep {
  labels =
      some (
        insert resource_label_key (resource_name (codes "crd") crd.meta) (or_default [] ep.labels));
}

-- The endpoints of a resource
unfoldable pub crd_endpoints : DnsEndpoint → List Endpoint
crd_endpoints crd =
    map (with_resource_label crd)
      (keep (λ ep. not (lacks_targets ep) && not (illegal_target ep)) crd.endpoints)

-- A resource as `UpdateStatus` is given it
abbrev pub observed : DnsEndpoint → DnsEndpoint
observed crd = record crd { observed_generation = crd.generation }

-- The loop over the resources: the endpoints, and the calls of `UpdateStatus`, whose errors are
-- logged
unfoldable pub crd_loop : List DnsEndpoint → List Endpoint × List DnsEndpoint
crd_loop [] = ([], [])
crd_loop (crd ∷ crds) =
    let (endpoints, updates) = crd_loop crds in
    (
      crd_endpoints crd ++ endpoints,
      if nat_beq crd.observed_generation crd.generation then updates else observed crd ∷ updates,
    )

-- `crdSource.Endpoints`, from what the API server lists
unfoldable pub all_crd_endpoints :
    {E : Type 0}
    → Attempt E Selector
    → Attempt E (List DnsEndpoint)
    → Attempt E (List Endpoint × List DnsEndpoint)
all_crd_endpoints selector listed = continue listed (λ crds.
    continue (filter_by_annotations (λ crd. crd.meta.annotations) selector crds)
      (λ kept. returned (crd_loop kept)))
