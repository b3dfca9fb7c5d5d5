-- ===== src/Plan/Calculate.antt =====
-- plan/plan.go, `Calculate`. Go visits a map in any order: the order of each visit is a parameter.
pub mod Exclusive
pub mod Filled
pub mod Sound
pub mod Planned
use dns_sync.Base.{
  Bool, true, false, ◌&&◌, ◌||◌, not, Option, none, some, List, [], ◌∷◌, ◌++◌, Str, ◌==◌, str_eq,
  Permᴰ, lookup, insert, delete, all, int_beq, if◌then◌else◌,
}
use dns_sync.Endpoint
use dns_sync.Endpoint.{
  Endpoint, ProviderSpecificProperty, label_in, value_or_empty, owner_label_key, is_owned_by,
  filter_endpoints_by_owner_id, remove_duplicates,
}
use dns_sync.Targets.{NetIp}
use dns_sync.Store.{Ref, Store, St, ◌>>=◌, ◌>>◌, pure, read, change, same}
use dns_sync.DomainFilter.{DomainFilter, is_nil}
use dns_sync.Plan.Table.{
  DomainEndpoints, PlanTableRow, Records, Rows, add_current, add_candidate, filter_records_for_plan,
}
use dns_sync.Plan.Policy.{Changes, no_changes, Policy, apply_all}
use dns_sync.Plan.Conflict.{resolve_create, resolve_update, resolve_record_types}

-- How the loops over maps visit their entries: each entry once, in some order.
pub record MapOrder : Type 0 where
  pub rows : Rows → Rows
  pub records : Records → Records
  pub rows-perm : (m : Rows) → Permᴰ m (rows m)
  pub records-perm : (m : Records) → Permᴰ m (records m)

pub record Plan : Type 0 where
  pub current : List Ref
  pub desired : List Ref
  pub policies : List Policy
  pub domain_filter : List (Option DomainFilter)
  pub managed_records : Option (List Str)
  pub exclude_records : List Str
  pub owner_id : Str

-- `inheritOwner(from, to)`: nil maps of labels are made empty ones first.
abbrev pub made : Option Endpoint.Labels → Endpoint.Labels
made none = []
made (some m) = m

unfoldable pub inherit_owner : Ref → Ref → St (Unit {0})
inherit_owner from to = do
  change to (λ e. record e { labels = some (made e.labels) })
  change from (λ e. record e { labels = some (made e.labels) })
  e ← read from
  change to (λ t. record t {
    labels = some (
        insert owner_label_key (value_or_empty (label_in owner_label_key e.labels))
          (made t.labels));
  })

-- `shouldUpdateTTL`
unfoldable pub should_update_ttl : Endpoint → Endpoint → Bool
should_update_ttl desired current =
    if Endpoint.is_configured desired.record_ttl
    then not (int_beq desired.record_ttl current.record_ttl)
    else false

-- The map of the desired properties: the last of a name wins.
unfoldable pub properties_of : List (Str × Str) → List ProviderSpecificProperty → List (Str × Str)
unfolding insert
properties_of m [] = m
properties_of m (d ∷ ds) = properties_of (insert d.name d.value m) ds

-- The loop over the current properties, and the test on what is left.
unfoldable pub properties_differ : List (Str × Str) → List ProviderSpecificProperty → Bool
unfolding lookup delete
properties_differ m [] = not (is_nil m)
properties_differ m (c ∷ cs) =
    let rest = properties_differ (delete c.name m) cs in
    elim (lookup c.name m) [ none ↦ true | some v ↦ if c.value == v then rest else true ]

-- `shouldUpdateProviderSpecific`
unfoldable pub should_update_provider_specific : Endpoint → Endpoint → Bool
unfolding properties_of properties_differ
should_update_provider_specific desired current =
    properties_differ (properties_of [] desired.provider_specific) current.provider_specific

abbrev pub push : List Ref → Option Ref → List Ref
push rs none = rs
push rs (some r) = rs ++ r ∷ []

-- The two loops that fill the table
unfoldable pub add_currents : Store → Rows → List Ref → Rows
add_currents s rows [] = rows
add_currents s rows (r ∷ rs) = add_currents s (add_current s rows r) rs

unfoldable pub add_candidates : Store → Rows → List Ref → Rows
add_candidates s rows [] = rows
add_candidates s rows (r ∷ rs) = add_candidates s (add_candidate s rows r) rs

-- The records that the plan's filters let in
unfoldable pub relevant : Plan → Store → List Ref → List Ref
relevant p s = filter_records_for_plan s p.domain_filter p.managed_records p.exclude_records

-- The table that `Calculate` works on
unfoldable pub table : Plan → Store → Rows
table p s = add_candidates s (add_currents s [] (relevant p s p.current)) (relevant p s p.desired)

-- `ownersMatch`
unfoldable pub owners_match : Str → List Ref → Store → Bool
unfolding is_owned_by
owners_match owner_id current s = all (λ r. is_nil owner_id || is_owned_by (s r) owner_id) current

-- The creates for a taken name, which go in only under an ownership claim.
unfoldable pub add_creates : Str → List Ref → Changes → List Ref → Store → Changes × Store
unfolding owners_match
add_creates owner_id current changes creates s =
    if not (is_nil creates) && owners_match owner_id current s
    then (record changes { create = changes.create ++ creates }, s)
    else (changes, s)

-- The last filter, for the sync's own records
unfoldable pub filter_owned : Str → Store → Changes → Changes
unfolding filter_endpoints_by_owner_id remove_duplicates
filter_owned owner_id s changes = if is_nil owner_id then changes else record changes {
  delete = remove_duplicates s (filter_endpoints_by_owner_id s owner_id changes.delete);
  update_old = filter_endpoints_by_owner_id s owner_id changes.update_old;
  update_new = filter_endpoints_by_owner_id s owner_id changes.update_new;
}

module _ (net : NetIp) where
  -- The condition of an update. `||` stops early, and only `targetChanged` sorts.
  unfoldable pub needs_update : Ref → Ref → St Bool
  needs_update update current = do
    u ← read update
    c ← read current
    if should_update_ttl u c then pure true else do
      equal ← same net update current
      u' ← read update
      c' ← read current
      pure (not equal || should_update_provider_specific u' c')

  -- One record type of a name that is not taken
  unfoldable pub create_group : Changes → Str × DomainEndpoints → St Changes
  create_group changes (type, records) = if is_nil records.candidates then pure changes else do
    r ← resolve_create net records.candidates
    pure (record changes { create = push changes.create r })

  unfoldable pub create_groups : Changes → Records → St Changes
  create_groups changes [] = pure changes
  create_groups changes (g ∷ gs) = do changes' ← create_group changes g; create_groups changes' gs

  -- The update of an existing record; `resolve_update` finds a candidate where there is one.
  unfoldable pub update_existing : Changes → Ref → Option Ref → St Changes
  update_existing changes current none = pure changes
  update_existing changes current (some update) = do
    needed ← needs_update update current
    if needed
        then (do
          inherit_owner current update
          pure (record changes {
            update_new = changes.update_new ++ update ∷ [];
            update_old = changes.update_old ++ current ∷ [];
          }))
        else pure changes

  -- One record type of a name that is taken and desired, with the creates put aside: a type with
  -- no current record,
  unfoldable pub new_type : Changes × List Ref → DomainEndpoints → St (Changes × List Ref)
  new_type (changes, creates) records =
      if is_nil records.candidates
      then pure (changes, creates)
      else do r ← resolve_create net records.candidates; pure (changes, push creates r)

  -- a type with one,
  unfoldable pub known_type : Changes × List Ref → DomainEndpoints → Ref → St (Changes × List Ref)
  known_type (changes, creates) records current =
      if is_nil records.candidates
      then pure (record changes { delete = changes.delete ++ current ∷ [] }, creates)
      else do
        r ← resolve_update net current records.candidates
        changes' ← update_existing changes current r
        pure (changes', creates)

  -- and the choice between them, on the group's current record.
  unfoldable pub update_group :
      Changes × List Ref → DomainEndpoints → Option Ref → St (Changes × List Ref)
  update_group acc records none = new_type acc records
  update_group acc records (some current) = known_type acc records current

  unfoldable pub update_groups : Changes × List Ref → Records → St (Changes × List Ref)
  update_groups acc [] = pure acc
  update_groups acc ((type, g) ∷ gs) = do acc' ← update_group acc g g.current; update_groups acc' gs

  module _ (order : MapOrder) where
    -- One round of the loop over the rows
    unfoldable pub plan_row : Str → Changes → PlanTableRow → St Changes
    plan_row owner_id changes row s =
        if is_nil row.current
        then create_groups changes (order.records (resolve_record_types s row)) s
        else if is_nil row.candidates
        then (record changes { delete = changes.delete ++ row.current }, s)
        else (do
          acc ← update_groups (changes, []) (order.records (resolve_record_types s row))
          add_creates owner_id row.current acc.0 acc.1)
            s

    unfoldable pub plan_rows : Str → Changes → Rows → St Changes
    plan_rows owner_id changes [] = pure changes
    plan_rows owner_id changes ((key, row) ∷ rows) = do
      changes' ← plan_row owner_id changes row
      plan_rows owner_id changes' rows

    -- `p.Calculate()`: the changes, and the store that it leaves.
    unfoldable pub calculate : Plan → St Changes
    calculate p s =
        let (changes, s') = plan_rows p.owner_id no_changes (order.rows (table p s)) s in
        (filter_owned p.owner_id s' (apply_all p.policies changes), s')
