-- ===== src/Plan/Table.antt =====
-- plan/plan.go, the plan table: a row for each name and set identifier, with its current records,
-- the candidates, and both grouped by record type. A pointer in a map is its value, changed by
-- `modify`; no two maps share one.
pub mod Origin
pub mod Scope
use dns_sync.Base.{
  ◌≡◌, ◌↔◌, Bool, true, false, ◌&&◌, Option, none, some, List, [], ◌∷◌, ◌++◌, Str, codes, ◌==◌,
  EqTest, str_eq, ensure, modify, to_lower, trim_space, has_suffix, any, if◌then◌else◌, arith,
}
use dns_sync.Endpoint.{Endpoint}
use dns_sync.Store.{Ref, Store}
use dns_sync.DomainFilter.{DomainFilter, match_all}

pub record PlanKey : Type 0 where
  pub dns_name : Str
  pub set_identifier : Str

abbrev pub plan_key_beq : PlanKey → PlanKey → Bool
plan_key_beq a b = a.dns_name == b.dns_name && a.set_identifier == b.set_identifier

pub plan_key_beq_iff : (a b : PlanKey) → (plan_key_beq a b ≡ true) ↔ (a ≡ b)
plan_key_beq_iff a b =
    ground (
      arith,
      str_eq.beq_iff a.dns_name b.dns_name,
      str_eq.beq_iff a.set_identifier b.set_identifier,
    )

instance abbrev pub plan_key_eq : EqTest PlanKey
plan_key_eq = record { beq = plan_key_beq; beq_iff = plan_key_beq_iff }

pub record DomainEndpoints : Type 0 where
  pub current : Option Ref
  pub candidates : List Ref

abbrev pub Records : Type 0
Records = List (Str × DomainEndpoints)

pub record PlanTableRow : Type 0 where
  pub current : List Ref
  pub candidates : List Ref
  pub records : Records

abbrev pub Rows : Type 0
Rows = List (PlanKey × PlanTableRow)

abbrev pub empty_group : DomainEndpoints
empty_group = record { current = none; candidates = [] }

abbrev pub empty_row : PlanTableRow
empty_row = record { current = []; candidates = []; records = [] }

-- `normalizeDNSName`
unfoldable pub normalize_dns_name : Str → Str
unfolding to_lower trim_space has_suffix
normalize_dns_name dns_name =
    let s = trim_space (to_lower dns_name) in if has_suffix s (codes ".") then s else s ++ codes "."

unfoldable pub plan_key : Endpoint → PlanKey
unfolding normalize_dns_name
plan_key e = record { dns_name = normalize_dns_name e.dns_name; set_identifier = e.set_identifier }

-- `t.newPlanKey(e)`: the table with a row for the key and a group for the type. The key is
-- `plan_key e`.
unfoldable pub new_plan_key : Endpoint → Rows → Rows
new_plan_key e rows =
    modify (plan_key e)
      (λ row. record row { records = ensure e.record_type empty_group row.records })
      (ensure (plan_key e) empty_row rows)

-- `t.addCurrent(e)`
unfoldable pub add_current : Store → Rows → Ref → Rows
add_current s rows r =
    let e = s r in
    modify (plan_key e)
      (λ row. record row {
        current = row.current ++ r ∷ [];
        records = modify e.record_type (λ g. record g { current = some r }) row.records;
      })
      (new_plan_key e rows)

-- `t.addCandidate(e)`
unfoldable pub add_candidate : Store → Rows → Ref → Rows
add_candidate s rows r =
    let e = s r in
    modify (plan_key e)
      (λ row. record row {
        candidates = row.candidates ++ r ∷ [];
        records =
            modify e.record_type (λ g. record g { candidates = g.candidates ++ r ∷ [] })
              row.records;
      })
      (new_plan_key e rows)

-- `IsManagedRecord`; a nil list of managed types is `none`.
unfoldable pub is_managed_record : Str → Option (List Str) → List Str → Bool
is_managed_record type none excluded = if any (λ r. type == r) excluded then false else true
is_managed_record type (some managed) excluded =
    if any (λ r. type == r) excluded then false else any (λ r. type == r) managed

-- `filterRecordsForPlan`
unfoldable pub filter_records_for_plan :
    Store → List (Option DomainFilter) → Option (List Str) → List Str → List Ref → List Ref
unfolding match_all is_managed_record
filter_records_for_plan s filter managed excluded [] = []
filter_records_for_plan s filter managed excluded (r ∷ rs) =
    let rest = filter_records_for_plan s filter managed excluded rs in
    if match_all filter (s r).dns_name
    then (if is_managed_record (s r).record_type managed excluded then r ∷ rest else rest)
    else rest
