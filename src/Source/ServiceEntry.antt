-- ===== src/Source/ServiceEntry.antt =====
-- source/istio_serviceentry.go: endpoints for the hosts of Istio's service entries.
pub mod Resolved
pub mod Records
use dns_sync.Base.{
  Bool, true, false, ◌&&◌, ◌||◌, not, List, [], ◌∷◌, ◌++◌, Option, Str, codes, ◌==◌, str_eq, all,
  map, keep, concat_map, if◌then◌else◌,
}
use dns_sync.Attempt.{Attempt, failed, returned, continue}
use dns_sync.Endpoint.{Endpoint}
use dns_sync.Targets.{NetIp}
use dns_sync.Source.{Ip, is_empty}
use dns_sync.Source.Annotations.{Numbers, get_ttl_from_annotations}
use dns_sync.Source.Kube.{Meta, Described, hosted, resource_name, sort_each}

-- `ServiceEntry_MESH_EXTERNAL` and `ServiceEntry_MESH_INTERNAL`
pub data Location : Type 0 where
  mesh_external mesh_internal : Location

-- What the source reads of an entry, with the protocols of its ports
pub record ServiceEntry : Type 0 where
  pub meta : Meta
  pub location : Location
  pub hosts : List Str
  pub addresses : List Str
  pub protocols : List Str

abbrev pub is_external : Location → Bool
is_external mesh_external = true
is_external mesh_internal = false

abbrev pub is_http : Str → Bool
is_http protocol = protocol == codes "http" || protocol == codes "https"

-- The hosts that are skipped
abbrev pub is_no_name : Str → Bool
is_no_name host = is_empty host || host == codes "*"

-- The targets of an external entry: the address for HTTP where it has none of its own
unfoldable pub external_targets : Str → ServiceEntry → List Str
external_targets http_vip se =
    if is_empty se.addresses && not (is_empty http_vip) && all is_http se.protocols
    then http_vip ∷ []
    else se.addresses

module _ (parse_ip : Str → Option Ip) (numbers : Numbers) where
  abbrev pub entry_described : ServiceEntry → List Str → Described
  entry_described se targets = record {
    targets = targets;
    ttl = get_ttl_from_annotations numbers se.meta.annotations;
    provider_specific = [];
    set_identifier = [];
    resource = resource_name (codes "serviceentry") se.meta;
  }

  -- The iteration over the hosts of an entry, with its targets
  abbrev pub host_records : ServiceEntry → List Str → Str → List Endpoint
  host_records se targets host =
      if is_no_name host || is_empty targets
      then []
      else hosted parse_ip (entry_described se targets) host

  -- `dnsRecordsFromServiceEntry` and `dnsRecordsFromExtServiceEntry`, which return no error
  unfoldable pub dns_records_from_service_entry : ServiceEntry → List Endpoint
  dns_records_from_service_entry se = concat_map (host_records se se.addresses) se.hosts

  unfoldable pub dns_records_from_ext_service_entry : Str → ServiceEntry → List Endpoint
  dns_records_from_ext_service_entry http_vip se =
      concat_map (host_records se (external_targets http_vip se)) se.hosts

  -- The loops of `Endpoints`
  unfoldable pub external_records : Str → List ServiceEntry → List Endpoint
  external_records http_vip entries =
      concat_map
        (λ se.
          if is_external se.location then dns_records_from_ext_service_entry http_vip se else [])
        entries

  unfoldable pub internal_records : List ServiceEntry → List Endpoint
  internal_records entries =
      concat_map (λ se. if is_external se.location then [] else dns_records_from_service_entry se)
        entries

  -- `ServiceEntrySource.Endpoints`, from what the lister returns for the namespace of external
  -- entries and for all namespaces
  unfoldable pub service_entry_endpoints :
      {E : Type 0}
      → NetIp
      → Str
      → Attempt E (List ServiceEntry)
      → Attempt E (List ServiceEntry)
      → Attempt E (List Endpoint)
  service_entry_endpoints net http_vip external everywhere = continue external (λ entries.
      continue everywhere (λ entries_int.
        returned
          (sort_each net (external_records http_vip entries ++ internal_records entries_int))))
