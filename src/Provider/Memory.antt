-- ===== src/Provider/Memory.antt =====
-- pkg/mem/inmemory.go: the provider that keeps its records in memory, a map for each zone. The
-- callbacks and the log lines have no effect on the records.
pub mod Batch
pub mod Zone
use dns_sync.Base.{
  ℕ, suc, ◌+◌, ◌≡◌, Bool, true, false, ◌&&◌, not, Option, none, some, List, [], ◌∷◌, ◌++◌, Str,
  codes, ◌==◌, str_eq, leb, length, has_suffix, lookup, insert, delete, any, map, is_some,
  if◌then◌else◌,
}
use dns_sync.Endpoint.{
  Endpoint, EndpointKey, endpoint_key_eq, key, new_endpoint_with_ttl, with_set_identifier,
}

-- The errors that the package declares, and the panic of an index into an empty list.
pub data Error : Type 0 where
  zone_already_exists zone_not_found record_already_exists record_not_found duplicate_record : Error
  index_out_of_range : Error

pub data Result (A : Type 0) : Type 0 where
  err : Error → Result A
  ok : A → Result A

infixl 5 ◌>>=◌
abbrev pub ◌>>=◌ : {A B : Type 0} (m : Result A) (next : A → Result B) → Result B
err e >>= next = err e
ok a >>= next = next a

-- `zoneRecords`
abbrev pub ZoneRecords : Type 0
ZoneRecords = List (EndpointKey × Endpoint)

abbrev pub Zones : Type 0
Zones = List (Str × ZoneRecords)

-- `endpoint.Changes`
pub record Changes : Type 0 where
  pub create : List Endpoint
  pub update_old : List Endpoint
  pub update_new : List Endpoint
  pub delete : List Endpoint

abbrev pub Mesh : Type 0
Mesh = List EndpointKey

-- `updateMesh`: the keys that the batch has named so far, with one more.
unfoldable pub update_mesh : Mesh → Endpoint → Result Mesh
update_mesh mesh e = if any (λ j. j == key e) mesh then err duplicate_record else ok (key e ∷ mesh)

-- The loops of `validateChangeBatch`: a record to create must not exist,
unfoldable pub check_creates : ZoneRecords → Mesh → List Endpoint → Result Mesh
check_creates zone mesh [] = ok mesh
check_creates zone mesh (e ∷ es) =
    if is_some (lookup (key e) zone)
    then err record_already_exists
    else do mesh' ← update_mesh mesh e; check_creates zone mesh' es

-- a record to update must exist,
unfoldable pub check_updates : ZoneRecords → Mesh → List Endpoint → Result Mesh
check_updates zone mesh [] = ok mesh
check_updates zone mesh (e ∷ es) =
    if not (is_some (lookup (key e) zone))
    then err record_not_found
    else do mesh' ← update_mesh mesh e; check_updates zone mesh' es

abbrev pub first_target : Endpoint → Result Str
first_target e = elim e.targets [ [] ↦ err index_out_of_range | t ∷ ts ↦ ok t ]

-- `!exists || rec.Targets[0] != e.Targets[0]` as a check, on the record that the zone has
unfoldable pub check_first : Option Endpoint → Endpoint → Result (Unit {0})
check_first none e = err record_not_found
check_first (some rec) e = do
  a ← first_target rec
  b ← first_target e
  if a == b then ok tt else err record_not_found

unfoldable pub check_present : ZoneRecords → Endpoint → Result (Unit {0})
check_present zone e = check_first (lookup (key e) zone) e

-- the old part of an update must exist with its first target,
unfoldable pub check_olds : ZoneRecords → List Endpoint → Result (Unit {0})
check_olds zone [] = ok tt
check_olds zone (e ∷ es) = check_present zone e >>= λ _. check_olds zone es

-- and so must a record to delete.
unfoldable pub check_deletes : ZoneRecords → Mesh → List Endpoint → Result Mesh
check_deletes zone mesh [] = ok mesh
check_deletes zone mesh (e ∷ es) =
    check_present zone e >>= λ _. do mesh' ← update_mesh mesh e; check_deletes zone mesh' es

-- `validateChangeBatch`, on the records of a zone that is there
unfoldable pub validate_change_batch : ZoneRecords → Changes → Result Mesh
validate_change_batch zone changes = do
  created ← check_creates zone [] changes.create
  updated ← check_updates zone created changes.update_new
  check_olds zone changes.update_old >>= λ _. check_deletes zone updated changes.delete

-- The loops that write into the zone
unfoldable pub put_all : ZoneRecords → List Endpoint → ZoneRecords
put_all zone [] = zone
put_all zone (e ∷ es) = put_all (insert (key e) e zone) es

unfoldable pub delete_all : ZoneRecords → List Endpoint → ZoneRecords
delete_all zone [] = zone
delete_all zone (e ∷ es) = delete_all (delete (key e) zone) es

unfoldable pub write_batch : ZoneRecords → Changes → ZoneRecords
write_batch zone changes =
    delete_all (put_all (put_all zone changes.create) changes.update_new) changes.delete

-- `ApplyChangesZone`: the error, if any, and the zones afterwards
unfoldable pub apply_changes_zone : Str → Changes → Zones → Result (Unit {0}) × Zones
apply_changes_zone zone_id changes zones = elim (lookup zone_id zones) [
  | none ↦ (err zone_not_found, zones)
  | some zone ↦ elim (validate_change_batch zone changes) [
    | err e ↦ (err e, zones)
    | ok mesh ↦ (ok tt, insert zone_id (write_batch zone changes) zones)
  ]
]

-- `CreateZone`
unfoldable pub create_zone : Str → Zones → Result (Unit {0}) × Zones
create_zone zone_id zones = elim (lookup zone_id zones) [
  | none ↦ (ok tt, insert zone_id [] zones)
  | some zone ↦ (err zone_already_exists, zones)
]

-- `RecordsZone`
unfoldable pub records_zone : Str → Zones → Result (List Endpoint)
records_zone zone_id zones = elim (lookup zone_id zones) [
  | none ↦ err zone_not_found
  | some zone ↦ ok (map (λ t. t.1) zone)
]

-- The loop of `EndpointZoneID` over the zones and their domains, with the best match so far. A later
-- domain of the same length wins.
unfoldable pub zone_id_from : Str → Str × Str → List (Str × Str) → Str
zone_id_from name (best_id, best) [] = best_id
zone_id_from name (best_id, best) ((id, domain) ∷ zones) =
    let matches = has_suffix name domain && leb (length best) (length domain) in
    zone_id_from name (if matches then (id, domain) else (best_id, best)) zones

-- `EndpointZoneID`, with the empty text where no zone matches
unfoldable pub endpoint_zone_id : Endpoint → List (Str × Str) → Str
endpoint_zone_id e zones = zone_id_from e.dns_name ([], []) zones

-- What the calls of `EndpointZoneID` return for a list. Each call visits the map of domains in an order
-- of its own, so the orders are numbered by the calls, from the given number on.
unfoldable pub zoned : (ℕ → List (Str × Str)) → ℕ → List Endpoint → List (Str × Endpoint)
zoned orders n [] = []
zoned orders n (e ∷ es) = (endpoint_zone_id e (orders n), e) ∷ zoned orders (suc n) es

-- The changes of one zone, in the loops of `ApplyChanges`
unfoldable pub for_zone : Str → List (Str × Endpoint) → List Endpoint
for_zone zone_id [] = []
for_zone zone_id ((id, e) ∷ es) =
    let rest = for_zone zone_id es in if not (id == []) && id == zone_id then e ∷ rest else rest

-- `perZoneChanges[zoneID]` after the four loops, in their order
unfoldable pub zone_changes : (ℕ → List (Str × Str)) → Str → Changes → Changes
zone_changes orders zone_id changes =
    let created = length changes.create in
    let updated = created + length changes.update_new in
    let old = updated + length changes.update_old in
    record {
      create = for_zone zone_id (zoned orders 0 changes.create);
      update_new = for_zone zone_id (zoned orders created changes.update_new);
      update_old = for_zone zone_id (zoned orders updated changes.update_old);
      delete = for_zone zone_id (zoned orders old changes.delete);
    }

-- `ApplyChanges`: zone after zone, in the order in which the map of the changes is visited, up to the
-- first error.
unfoldable pub apply_to_zones :
    (ℕ → List (Str × Str)) → Changes → List Str → Zones → Result (Unit {0}) × Zones
apply_to_zones orders changes [] zones = (ok tt, zones)
apply_to_zones orders changes (zone_id ∷ visit) zones =
    let (r, zones') = apply_changes_zone zone_id (zone_changes orders zone_id changes) zones in
    let rest = apply_to_zones orders changes visit zones' in
    elim r [ err e ↦ (err e, zones') | ok _ ↦ rest ]

unfoldable pub apply_changes :
    (ℕ → List (Str × Str)) → List Str → Changes → Zones → Result (Unit {0}) × Zones
apply_changes orders visit changes zones = apply_to_zones orders changes visit zones

-- `copyEndpoints`, for one endpoint; `none` where NewEndpointWithTTL gives nil, whose use panics.
unfoldable pub copy_endpoint : Endpoint → Option Endpoint
copy_endpoint e = elim (new_endpoint_with_ttl e.dns_name e.record_type e.record_ttl e.targets) [
  | none ↦ none
  | some c ↦ some (record (with_set_identifier e.set_identifier c) {
    labels = some (elim e.labels [ none ↦ [] | some m ↦ m ]);
    provider_specific = e.provider_specific;
  })
]
