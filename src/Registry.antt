-- ===== src/Registry.antt =====
-- pkg/sources/dnsmesh/txt.go: the registry that keeps the labels of records in TXT records beside
-- them. The endpoints of a batch are distinct objects, so the model has them as values.
pub mod Merge
pub mod Written
pub mod Restore
pub mod Ownership
pub mod Created
use dns_sync.Base.{
  true, Option, none, some, List, [], ◌∷◌, ◌++◌, Str, codes, ◌==◌, str_eq, map, lookup, insert,
  split, join, if◌then◌else◌,
}
use dns_sync.Endpoint.{
  Endpoint, Labels, record_type_txt, owned_record_label_key, value_or_empty, new_endpoint,
  with_set_identifier, filter_endpoints_by_owner_id,
}
use dns_sync.Labels.{new_labels_from_string_plain, serialize_plain}
use dns_sync.Provider.Memory.{Changes}

abbrev pub mesh_label_key : Str
mesh_label_key = codes "mesh"

-- The labels of each name that has a TXT record of this registry
abbrev pub LabelMap : Type 0
LabelMap = List (Str × Labels)

-- The first loop of `Records`: the endpoints that stay, and the map. `none` is the panic of
-- `record.Targets[0]` on a TXT record without targets.
unfoldable pub own_labels : Str → List Str → Option (Option Labels)
own_labels owner_id [] = none
own_labels owner_id (t ∷ ts) =
    let labels = new_labels_from_string_plain t in
    if value_or_empty (lookup mesh_label_key labels) == owner_id
    then some (some labels)
    else some none

-- One record in that loop, with the rest of the loop to run on the endpoints and the map so far
unfoldable pub collect_one :
    Endpoint → List Endpoint → LabelMap → Option (Option Labels) → Option (List Endpoint × LabelMap)
collect_one record_ endpoints m none = none
collect_one record_ endpoints m (some none) = some (endpoints ++ record_ ∷ [], m)
collect_one record_ endpoints m (some (some labels)) =
    some (endpoints, insert record_.dns_name labels m)

-- What the loop does with a record: a TXT record of this registry goes into the map.
unfoldable pub kind : Str → Endpoint → Option (Option Labels)
kind owner_id r =
    if r.record_type == record_type_txt then own_labels owner_id r.targets else some none

abbrev pub and_then : {A B : Type 0} → (A → Option B) → Option A → Option B
and_then f none = none
and_then f (some a) = f a

unfoldable pub collect :
    Str → List Endpoint → LabelMap → List Endpoint → Option (List Endpoint × LabelMap)
collect owner_id endpoints m [] = some (endpoints, m)
collect owner_id endpoints m (r ∷ rs) =
    and_then (λ t. collect owner_id t.0 t.1 rs) (collect_one r endpoints m (kind owner_id r))

-- `for k, v := range labels { ep.Labels[k] = v }`
unfoldable pub put_labels : Labels → Labels → Labels
put_labels m [] = m
put_labels m ((k, v) ∷ l) = put_labels (insert k v m) l

abbrev pub made : Option Labels → Labels
made none = []
made (some m) = m

abbrev pub merged : Labels → Option Labels → Labels
merged m none = m
merged m (some l) = put_labels m l

-- One round of the second loop of `Records`
unfoldable pub add_labels : LabelMap → Endpoint → Endpoint
add_labels m ep =
    let dns_name = join (codes ".") (split b'.' ep.dns_name) in
    record ep { labels = some (merged (made ep.labels) (lookup dns_name m)) }

-- `im.Records(ctx)`, on the records of the provider
unfoldable pub records : Str → List Endpoint → Option (List Endpoint)
records owner_id rs = and_then (λ t. some (map (add_labels t.1) t.0)) (collect owner_id [] [] rs)

-- `im.generateTXTRecord(r)`, from the endpoint that `NewEndpoint` returns
abbrev pub text_for : Endpoint → Option Endpoint → List Endpoint
text_for r none = []
text_for r (some txt) =
    record (with_set_identifier r.set_identifier txt) {
      labels = some (insert owned_record_label_key r.dns_name (made txt.labels));
    }
    ∷ []

unfoldable pub generate_txt_record : Endpoint → List Endpoint
generate_txt_record r =
    text_for r (new_endpoint r.dns_name record_type_txt (serialize_plain true (made r.labels) ∷ []))

unfoldable pub generate_all : List Endpoint → List Endpoint
generate_all [] = []
generate_all (r ∷ rs) = generate_txt_record r ++ generate_all rs

-- `r.Labels["mesh"] = im.ownerID`
unfoldable pub claim : Str → Endpoint → Endpoint
claim owner_id r = record r { labels = some (insert mesh_label_key owner_id (made r.labels)) }

-- The batch that `im.ApplyChanges` gives to the provider
unfoldable pub registry_changes : Str → Changes → Changes
registry_changes owner_id c =
    let created = map (claim owner_id) c.create in
    let new = filter_endpoints_by_owner_id (λ e. e) owner_id c.update_new in
    let old = filter_endpoints_by_owner_id (λ e. e) owner_id c.update_old in
    let deleted = filter_endpoints_by_owner_id (λ e. e) owner_id c.delete in
    record {
      create = created ++ generate_all created;
      update_old = old ++ generate_all old;
      update_new = new ++ generate_all new;
      delete = deleted ++ generate_all deleted;
    }
