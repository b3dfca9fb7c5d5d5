-- ===== src/Tests/Planner.antt =====
-- Plans over a small store: one name taken by a record of the owner "me", one by a foreign record,
-- and the records desired for them.
use mathlib.Core.List.Permᴰ
use dns_sync.Base.{
  zero, suc, ◌≡◌, ◌≢◌, refl, Option, none, some, [], ◌∷◌, Str, codes, pos, Memᴰ, All, Entries, true,
  ◌==◌, nat_eq, str_eq, if◌then◌else◌, str_beq, lookup, insert, delete, modify, ensure, to_lower,
  trim_space, has_suffix, sort_by,
}
use dns_sync.Endpoint.{
  Endpoint, Labels, record_type_a, record_type_cname, label, label_in, owner_label_key,
  filter_endpoints_by_owner_id, remove_duplicates,
}
use dns_sync.Targets.{NetIp, Addr, same_sorted, is_less_sorted, sort_targets}
use dns_sync.Store.{Store, ◌>>=◌, ◌>>◌, pure, read, change, sort_in_place, sort_both, same, is_less}
use dns_sync.DomainFilter.{match_all}
use dns_sync.Plan.Table.{
  normalize_dns_name, plan_key, new_plan_key, add_current, add_candidate, filter_records_for_plan,
  is_managed_record,
}
use dns_sync.Plan.Policy.{sync_policy, upsert_only_policy, create_only_policy, apply_all, Changes}
use dns_sync.Plan.Policy.Cuts.{KeepsAll, OnlyCreates}
use dns_sync.Plan.Conflict.{
  min_from, resolve_create, insert_candidate, sort_candidates, find_resource, or_create,
  resolve_update, resource, resolve_record_types,
}
use dns_sync.Plan.Calculate.{
  MapOrder, Plan, inherit_owner, should_update_ttl, should_update_provider_specific, add_currents,
  add_candidates, relevant, table, owners_match, add_creates, filter_owned, needs_update,
  create_group, create_groups, update_existing, new_type, known_type, update_group, update_groups,
  plan_row, plan_rows, calculate,
}
use dns_sync.Plan.Calculate.Filled.{IsCurrent, IsDesired, Replaces}
use dns_sync.Plan.Calculate.Planned.{
  calculate-create, calculate_owned, calculate-Aligned, calculate-upsert_only,
  calculate-create_only,
}
use dns_sync.Plan.Calculate.Exclusive.{table-IsExclusive}
use dns_sync.Plan.Conflict.Exclusive.{IsExclusive}
use dns_sync.Plan.Calculate.Sound.{Aligned}

-- A parser that knows two spellings of one IPv6 address.
abbrev parse_sample : Str → Option Addr
parse_sample s =
    if s == codes "::1"
    then some (record { bit_len = 128; bits = 1; zone = [] })
    else if s == codes "0:0:0:0:0:0:0:1"
    then some (record { bit_len = 128; bits = 1; zone = [] })
    else none

abbrev pub sample_net : NetIp
sample_net = record { parse_addr = parse_sample; show_addr = λ a. codes "::1" }

abbrev pub in_order : MapOrder
in_order = record {
  rows = λ m. m;
  records = λ m. m;
  rows-perm = λ m. Permᴰ.refl m;
  records-perm = λ m. Permᴰ.refl m;
}

abbrev pub record_of : Str → Str → Str → Option Labels → Endpoint
record_of name type target labels = record {
  dns_name = name;
  targets = target ∷ [];
  record_type = type;
  set_identifier = [];
  record_ttl = pos 0;
  labels = labels;
  provider_specific = [];
}

abbrev pub owned : Option Labels
owned = some ((owner_label_key, codes "me") ∷ [])

abbrev pub sample_store : Store
sample_store zero = record_of (codes "a.org") record_type_a (codes "1.1.1.1") owned
sample_store (suc zero) = record_of (codes "b.org") record_type_a (codes "2.2.2.2") none
sample_store (suc (suc zero)) = record_of (codes "A.org.") record_type_a (codes "1.1.1.9") none
sample_store (suc (suc (suc zero))) =
    record_of (codes "b.org") record_type_cname (codes "x.org") none
sample_store (suc (suc (suc (suc zero)))) =
    record_of (codes "c.org") record_type_a (codes "3.3.3.3") none
sample_store _ = record_of (codes "d.org") record_type_a (codes "4.4.4.4") owned

abbrev sample_plan : Plan
sample_plan = record {
  current = 0 ∷ 1 ∷ 5 ∷ [];
  desired = 2 ∷ 3 ∷ 4 ∷ [];
  policies = sync_policy ∷ [];
  domain_filter = none ∷ [];
  managed_records = some (record_type_a ∷ record_type_cname ∷ []);
  exclude_records = [];
  owner_id = codes "me";
}

abbrev unowned_plan : Plan
unowned_plan = record sample_plan { owner_id = [] }

abbrev careful_plan : Plan
careful_plan = record sample_plan { policies = sync_policy ∷ upsert_only_policy ∷ [] }

abbrev timid_plan : Plan
timid_plan = record sample_plan { policies = create_only_policy ∷ [] }

-- Every function of the planner, so that a run can open them by one name.
run : Plan → Changes
unfolding str_beq lookup insert delete modify ensure to_lower trim_space has_suffix sort_by
    same_sorted is_less_sorted sort_targets ◌>>=◌ ◌>>◌ pure read change sort_in_place sort_both same
    is_less label_in filter_endpoints_by_owner_id remove_duplicates match_all normalize_dns_name
    plan_key new_plan_key add_current add_candidate filter_records_for_plan is_managed_record
    apply_all min_from resolve_create insert_candidate sort_candidates find_resource or_create
    resolve_update resource resolve_record_types inherit_owner should_update_ttl
    should_update_provider_specific add_currents add_candidates relevant table owners_match
    add_creates filter_owned needs_update create_group create_groups update_existing new_type
    known_type update_group update_groups plan_row plan_rows calculate
run p = (calculate sample_net in_order p sample_store).0

-- The owned record is updated, the free name is created, the unwanted record of the owner is
-- deleted, and nothing is put under the foreign name.
run_owned :
    run sample_plan
    ≡ record { create = 4 ∷ []; update_old = 0 ∷ []; update_new = 2 ∷ []; delete = 5 ∷ [] }
unfolding run
run_owned = refl

run_unowned :
    run unowned_plan
    ≡ record { create = 3 ∷ 4 ∷ []; update_old = 0 ∷ []; update_new = 2 ∷ []; delete = 1 ∷ 5 ∷ [] }
unfolding run
run_unowned = refl

calculate-create_example :
    All
      (IsDesired sample_plan sample_store)
      (calculate sample_net in_order sample_plan sample_store).0.create
calculate-create_example = calculate-create sample_net in_order sample_plan sample_store

owner_set : sample_plan.owner_id ≢ []
owner_set h = cc

calculate_owned_example :
    All
      (λ r.
        IsCurrent sample_plan sample_store r
        × (label owner_label_key ((calculate sample_net in_order sample_plan sample_store).1 r)
            ≡ some (codes "me")))
      (calculate sample_net in_order sample_plan sample_store).0.delete
    × All
        (λ r.
          IsCurrent sample_plan sample_store r
          × (label owner_label_key ((calculate sample_net in_order sample_plan sample_store).1 r)
              ≡ some (codes "me")))
        (calculate sample_net in_order sample_plan sample_store).0.update_old
    × All
        (λ r.
          IsDesired sample_plan sample_store r
          × (label owner_label_key ((calculate sample_net in_order sample_plan sample_store).1 r)
              ≡ some (codes "me")))
        (calculate sample_net in_order sample_plan sample_store).0.update_new
calculate_owned_example = calculate_owned sample_net in_order sample_plan sample_store owner_set

calculate-Aligned_example :
    Aligned
      (Replaces unowned_plan sample_store)
      (calculate sample_net in_order unowned_plan sample_store).0.update_old
      (calculate sample_net in_order unowned_plan sample_store).0.update_new
calculate-Aligned_example = calculate-Aligned sample_net in_order unowned_plan sample_store refl

calculate-upsert_only_example : KeepsAll (calculate sample_net in_order careful_plan sample_store).0
calculate-upsert_only_example =
    calculate-upsert_only sample_net in_order careful_plan sample_store (Memᴰ.tail (Memᴰ.head refl))

calculate-create_only_example :
    OnlyCreates (calculate sample_net in_order timid_plan sample_store).0
calculate-create_only_example =
    calculate-create_only sample_net in_order timid_plan sample_store (Memᴰ.head refl)

table-IsExclusive_example :
    Entries
      (λ k row. IsExclusive (resolve_record_types sample_store row))
      (table sample_plan sample_store)
table-IsExclusive_example = table-IsExclusive sample_plan sample_store

-- The comparison of targets ends at the first pair that differs in its text.
same_ends_early :
    same_sorted sample_net (codes "0:0:0:0:0:0:0:1" ∷ codes "a" ∷ []) (codes "::1" ∷ codes "b" ∷ [])
    ≡ true
unfolding same_sorted str_beq
same_ends_early = refl
