-- ===== src/Tests/Registry.antt =====
-- The registry on a batch of one record.
use dns_sync.Base.{
  ◌≡◌, refl, none, some, List, [], ◌∷◌, ◌++◌, map, Str, codes, All, lookup, str_eq, str_beq, split,
  trim_suffix,
}
use dns_sync.Endpoint.{Endpoint, record_type_a, owner_label_key}
use dns_sync.Provider.Memory.{Changes}
use dns_sync.Registry.{made, records, generate_all, claim, registry_changes}
use dns_sync.Registry.Written.{bare, IsStorable}
use dns_sync.Registry.Restore.{AreRestored, DistinctNames, records-AreRestored}
use dns_sync.Registry.Ownership.{IsOwnedFrom, registry_changes_owned}
use dns_sync.Registry.Created.{creation, deletion, registry_changes-created}
use dns_sync.Labels.RoundTrip.{IsPlain}
use dns_sync.Tests.Planner.{record_of, owned}

abbrev me : Str
me = codes "me"

me-IsPlain : IsPlain me
me-IsPlain = ((refl, (refl, tt)), (refl, (refl, tt)), (refl, (refl, tt)))

abbrev batch : List Endpoint
batch =
    record_of (codes "a.b") record_type_a (codes "1.1.1.1") none
    ∷ record_of (codes "c") record_type_a (codes "1.1.1.2") none
    ∷ []

batch-IsStorable : All IsStorable batch
unfolding str_beq split trim_suffix
batch-IsStorable = (
  record { not_text = refl; plain = tt; short = refl; no_dot = refl },
  (record { not_text = refl; plain = tt; short = refl; no_dot = refl }, tt),
)

batch-DistinctNames : DistinctNames batch
unfolding str_beq
batch-DistinctNames = ((refl, tt), (tt, tt))

records-AreRestored_example :
    (rs : List Endpoint) × (records me (map bare batch ++ generate_all (map (claim me) batch))
      ≡ some rs)
    × AreRestored me batch rs
records-AreRestored_example =
    records-AreRestored me batch me-IsPlain batch-IsStorable batch-DistinctNames

batch_unowned : All (λ (e : Endpoint). lookup owner_label_key (made e.labels) ≡ none) batch
unfolding lookup
batch_unowned = (refl, (refl, tt))

registry_changes-created_example :
    (rs : List Endpoint) × (records me (map bare (registry_changes me (creation batch)).create)
      ≡ some rs)
    × AreRestored me batch rs
    × ((registry_changes me (deletion rs)).delete ≡ [])
registry_changes-created_example =
    registry_changes-created me batch me-IsPlain batch-IsStorable batch-DistinctNames batch_unowned

abbrev deleting : Changes
deleting = deletion (record_of (codes "d") record_type_a (codes "1.1.1.1") owned ∷ batch)

registry_changes_owned_example :
    All (IsOwnedFrom me deleting.delete) (registry_changes me deleting).delete
    × All (IsOwnedFrom me deleting.update_old) (registry_changes me deleting).update_old
    × All (IsOwnedFrom me deleting.update_new) (registry_changes me deleting).update_new
registry_changes_owned_example = registry_changes_owned me deleting
