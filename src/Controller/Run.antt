-- ===== src/Controller/Run.antt =====
-- controller/controller.go: one reconciliation. What the registry and the source return is a
-- parameter, and so is the equality of the package cmp that HasChanges asks.
use dns_sync.Base.{
  ℕ, Bool, true, ◌||◌, ◌&&◌, Option, none, some, List, [], ◌∷◌, ◌+◌, Str, not, ◌==◌, str_eq, nat_eq,
  if◌then◌else◌, length, any, ltb,
}
use dns_sync.Attempt.{Attempt, failed, returned}
use dns_sync.Endpoint.{record_type_a, record_type_aaaa}
use dns_sync.Targets.{NetIp}
use dns_sync.Store.{Ref, Store}
use dns_sync.DomainFilter.{DomainFilter}
use dns_sync.Plan.Policy.{Policy, Changes}
use dns_sync.Plan.Calculate.{Plan, MapOrder, calculate}

-- The fields of the controller that a run reads
pub record Controller : Type 0 where
  pub policy : Policy
  pub domain_filter : DomainFilter
  pub managed_record_types : Option (List Str)
  pub exclude_record_types : List Str
  pub owner : Str

-- The registry and the source: the endpoints that `Source.Endpoints` returns may depend on the
-- records, which it finds in its context.
pub record World (E : Type 0) : Type 0 where
  pub records : Attempt E (List Ref)
  pub endpoints : List Ref → Attempt E (List Ref)
  pub adjust_endpoints : List Ref → Attempt E (List Ref)
  pub get_domain_filter : DomainFilter
  pub apply_changes : Changes → Store → Option E
  -- `cmp.Equal(c.UpdateNew, c.UpdateOld)`
  pub equal : Store → List Ref → List Ref → Bool

-- `changes.HasChanges()`
unfoldable pub has_changes : (Store → List Ref → List Ref → Bool) → Store → Changes → Bool
has_changes equal s c =
    if ltb 0 (length c.create) || ltb 0 (length c.delete)
    then true
    else not (equal s c.update_new c.update_old)

-- `countAddressRecords`: the A records and the AAAA records
unfoldable pub count_address_records : Store → List Ref → ℕ × ℕ
count_address_records s [] = (0, 0)
count_address_records s (r ∷ rs) =
    let (a, aaaa) = count_address_records s rs in
    if (s r).record_type == record_type_a
    then (a + 1, aaaa)
    else if (s r).record_type == record_type_aaaa
    then (a, aaaa + 1)
    else (a, aaaa)

-- The map of `countMatchingAddressRecords`, as the list of its pairs of a name and a record type
unfoldable pub records_map : Store → List Ref → List (Str × Str)
records_map s [] = []
records_map s (r ∷ rs) = ((s r).dns_name, (s r).record_type) ∷ records_map s rs

-- `countMatchingAddressRecords`
unfoldable pub count_matching : Store → List (Str × Str) → List Ref → ℕ × ℕ
count_matching s m [] = (0, 0)
count_matching s m (r ∷ rs) =
    let (a, aaaa) = count_matching s m rs in
    if any (λ t. t.0 == (s r).dns_name && t.1 == (s r).record_type) m
    then (if (s r).record_type == record_type_a
        then (a + 1, aaaa)
        else if (s r).record_type == record_type_aaaa
        then (a, aaaa + 1)
        else (a, aaaa))
    else (a, aaaa)

unfoldable pub count_matching_address_records : Store → List Ref → List Ref → ℕ × ℕ
unfolding records_map count_matching
count_matching_address_records s endpoints records =
    count_matching s (records_map s records) endpoints

-- What a run leaves: its error, the batches that it sent, and the endpoints.
pub record Outcome (E : Type 0) : Type 0 where
  pub error : Option E
  pub sent : List Changes
  pub store : Store

-- The plan of a run
unfoldable pub plan_of : Controller → DomainFilter → List Ref → List Ref → Plan
plan_of c registry_filter current desired = record {
  current = current;
  desired = desired;
  policies = c.policy ∷ [];
  domain_filter = some c.domain_filter ∷ some registry_filter ∷ [];
  managed_records = c.managed_record_types;
  exclude_records = c.exclude_record_types;
  owner_id = c.owner;
}

module _ (net : NetIp) (order : MapOrder) {E : Type 0} (w : World E) where
  -- The end of a run, from the changes of the plan on
  unfoldable pub send : Changes × Store → Outcome E
  send (changes, s) =
      if has_changes w.equal s changes
      then record { error = w.apply_changes changes s; sent = changes ∷ []; store = s }
      else record { error = none; sent = []; store = s }

  abbrev pub stopped : E → Store → Outcome E
  stopped e s = record { error = some e; sent = []; store = s }

  -- RunOnce wraps an error of AdjustEndpoints into one more text, which the model leaves out.
  unfoldable pub run_adjusted : Controller → List Ref → Attempt E (List Ref) → Store → Outcome E
  run_adjusted c records (failed e) s = stopped e s
  run_adjusted c records (returned endpoints) s =
      send (calculate net order (plan_of c w.get_domain_filter records endpoints) s)

  unfoldable pub run_endpoints : Controller → List Ref → Attempt E (List Ref) → Store → Outcome E
  run_endpoints c records (failed e) s = stopped e s
  run_endpoints c records (returned endpoints) s =
      run_adjusted c records (w.adjust_endpoints endpoints) s

  unfoldable pub run_records : Controller → Attempt E (List Ref) → Store → Outcome E
  run_records c (failed e) s = stopped e s
  run_records c (returned records) s = run_endpoints c records (w.endpoints records) s

  -- `c.RunOnce(ctx)`
  unfoldable pub run_once : Controller → Store → Outcome E
  run_once c s = run_records c w.records s
