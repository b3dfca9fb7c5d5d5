-- ===== src/Tests/Memory.antt =====
-- A zone with two records, and batches for it.
use dns_sync.Base.{
  false, List, has_suffix, All, ◌⊎◌, ◌≡◌, ◌↔◌, refl, some, [], ◌∷◌, Str, codes, pos, lookup,
  str_beq, str_eq,
}
use dns_sync.Endpoint.{Endpoint, key, record_type_a}
use dns_sync.Provider.Memory.{
  Error, Result, ok, err, ZoneRecords, Zones, Changes, Mesh, update_mesh, check_creates,
  check_updates, check_first, check_present, check_olds, check_deletes, validate_change_batch,
  apply_changes_zone, endpoint_zone_id,
}
use dns_sync.Provider.Memory.Zone.{IsLongest, endpoint_zone_id_lem}
use dns_sync.Provider.Memory.Batch.Sound.{IsValidBatch}
use dns_sync.Provider.Memory.Batch.Accepted.{validate_change_batch_iff}
use dns_sync.Provider.Memory.Batch.Applied.{
  IsDone, IsRefused, apply_changes_zone_ok, apply_changes_zone-IsRefused_iff,
}

abbrev host : Str → Str → Endpoint
host name target = record {
  dns_name = name;
  targets = target ∷ [];
  record_type = record_type_a;
  set_identifier = [];
  record_ttl = pos 0;
  labels = some [];
  provider_specific = [];
}

abbrev zone_of_two : ZoneRecords
zone_of_two =
    (key (host (codes "a") (codes "1")), host (codes "a") (codes "1"))
    ∷ (key (host (codes "b") (codes "2")), host (codes "b") (codes "2"))
    ∷ []

abbrev zones : Zones
zones = (codes "z", zone_of_two) ∷ []

-- A new record, an update of the first and the deletion of the second
abbrev batch : Changes
batch = record {
  create = host (codes "c") (codes "3") ∷ [];
  update_old = host (codes "a") (codes "1") ∷ [];
  update_new = host (codes "a") (codes "9") ∷ [];
  delete = host (codes "b") (codes "2") ∷ [];
}

-- A create of a name that is taken
abbrev bad_batch : Changes
bad_batch = record {
  create = host (codes "a") (codes "3") ∷ [];
  update_old = [];
  update_new = [];
  delete = [];
}

validate : ZoneRecords → Changes → Result Mesh
unfolding lookup str_beq update_mesh check_creates check_updates check_first check_present
    check_olds check_deletes validate_change_batch
validate zone c = validate_change_batch zone c

batch_mesh : Mesh
batch_mesh =
    key (host (codes "b") (codes "2"))
    ∷ key (host (codes "a") (codes "9"))
    ∷ key (host (codes "c") (codes "3"))
    ∷ []

batch_accepted : validate_change_batch zone_of_two batch ≡ ok batch_mesh
unfolding validate batch_mesh
batch_accepted = refl

batch_IsValid : IsValidBatch zone_of_two batch
batch_IsValid = (validate_change_batch_iff zone_of_two batch).0 (batch_mesh, batch_accepted)

validate_change_batch_iff_example :
    ((m : Mesh) × (validate_change_batch zone_of_two batch ≡ ok m)) ↔ IsValidBatch zone_of_two batch
validate_change_batch_iff_example = validate_change_batch_iff zone_of_two batch

found : lookup (codes "z") zones ≡ some zone_of_two
unfolding lookup str_beq
found = refl

apply_changes_zone_ok_example :
    ((apply_changes_zone (codes "z") batch zones).0 ≡ ok tt)
    × IsDone (codes "z") batch zones (apply_changes_zone (codes "z") batch zones).1 zone_of_two
apply_changes_zone_ok_example =
    apply_changes_zone_ok (codes "z") batch zones zone_of_two found batch_IsValid

refused : (apply_changes_zone (codes "z") bad_batch zones).0 ≡ err Error.record_already_exists
unfolding validate apply_changes_zone
refused = refl

apply_changes_zone-IsRefused_iff_example :
    (((e : Error) × ((apply_changes_zone (codes "z") bad_batch zones).0 ≡ err e))
      ↔ IsRefused (codes "z") bad_batch zones)
    × (IsRefused (codes "z") bad_batch zones
        ↔ ((e : Error) × (apply_changes_zone (codes "z") bad_batch zones ≡ (err e, zones))))
apply_changes_zone-IsRefused_iff_example =
    apply_changes_zone-IsRefused_iff (codes "z") bad_batch zones

abbrev zone_sample : Endpoint
zone_sample = host (codes "x.a.org") (codes "1")

abbrev zone_other : Endpoint
zone_other = host (codes "ba.org") (codes "1")

abbrev two_zones : List (Str × Str)
two_zones = (codes "1", codes "org") ∷ (codes "2", codes "a.org") ∷ []

endpoint_zone_id_lem_example :
    ((endpoint_zone_id zone_sample two_zones ≡ [])
      × All (λ z. has_suffix zone_sample.dns_name z.1 ≡ false) two_zones)
    ⊎ ((best : Str × Str) × (endpoint_zone_id zone_sample two_zones ≡ best.0)
        × IsLongest zone_sample.dns_name two_zones best)
endpoint_zone_id_lem_example = endpoint_zone_id_lem zone_sample two_zones

-- A domain is a suffix of names that are not below it.
other_domain : endpoint_zone_id zone_other two_zones ≡ codes "2"
unfolding endpoint_zone_id has_suffix str_beq dns_sync.Provider.Memory.zone_id_from
other_domain = refl
