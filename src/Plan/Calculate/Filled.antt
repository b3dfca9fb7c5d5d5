-- ===== src/Plan/Calculate/Filled.antt =====
-- plan/plan.go: what the table of a plan holds, and that policies and the last filter keep it.
use dns_sync.Base.{
  ◌≡◌, ◌≢◌, refl, false, Option, none, some, List, [], ◌∷◌, Str, All, OptAll, All-map, All-perm,
  All-members, All-mem, Entries, Memᴰ, sym, ◌∙◌,
}
use dns_sync.Endpoint.{label, owner_label_key, filter_endpoints_by_owner_id}
use dns_sync.Endpoint.Owner.{mem-filter_endpoints_by_owner_id}
use dns_sync.Targets.{NetIp}
use dns_sync.Store.{Ref, Store}
use dns_sync.DomainFilter.{is_nil}
use dns_sync.Plan.Table.{
  PlanKey, DomainEndpoints, Records, Rows, plan_key, add_current, add_candidate,
}
use dns_sync.Plan.Table.Origin.{
  Typed, GroupFits, RowFits, add_current-RowFits, add_candidate-RowFits,
}
use dns_sync.Plan.Table.Scope.{InScope, mem-filter_records_for_plan}
use dns_sync.Plan.Policy.{
  Changes, no_changes, Policy, sync_policy, upsert_only_policy, create_only_policy, apply,
  apply_all,
}
use dns_sync.Plan.Calculate.{
  MapOrder, Plan, add_currents, add_candidates, relevant, table, plan_rows,
}
use dns_sync.Plan.Calculate.Sound.{Aligned, GroupOk, RowOk, ChangesOk, plan_rows-Ensures}

pub is_nil-false : (id : Str) → id ≢ [] → is_nil id ≡ false
is_nil-false [] h = absurd (h refl)
is_nil-false (c ∷ id) h = refl

-- The current and the desired records of the plan that are in scope
abbrev pub Scoped : Plan → Store → Ref → Type 0
Scoped p s r = InScope s p.domain_filter p.managed_records p.exclude_records r

abbrev pub IsCurrent : Plan → Store → Ref → Type 0
IsCurrent p s r = Memᴰ r p.current × Scoped p s r

abbrev pub IsDesired : Plan → Store → Ref → Type 0
IsDesired p s r = Memᴰ r p.desired × Scoped p s r

-- One name, set identifier and record type
abbrev pub SameRecord : Store → Ref → Ref → Type 0
SameRecord s o n = (plan_key (s o) ≡ plan_key (s n)) × ((s o).record_type ≡ (s n).record_type)

-- A current record and a desired record that takes its place
abbrev pub Replaces : Plan → Store → Ref → Ref → Type 0
Replaces p s o n = IsCurrent p s o × IsDesired p s n × SameRecord s o n

module _ (p : Plan) (s : Store) where
  pub relevant-All : (rs : List Ref) → All (λ r. Memᴰ r rs × Scoped p s r) (relevant p s rs)
  unfolding relevant
  relevant-All rs =
      All-map
        (λ r m.
          (mem-filter_records_for_plan s p.domain_filter p.managed_records p.exclude_records rs r).0
            m)
        (relevant p s rs) (All-members (relevant p s rs))

  pub add_currents-RowFits :
      (rows : Rows) (rs : List Ref)
      → All (IsCurrent p s) rs
      → Entries (RowFits s (IsCurrent p s) (IsDesired p s)) rows
      → Entries (RowFits s (IsCurrent p s) (IsDesired p s)) (add_currents s rows rs)
  unfolding add_currents
  add_currents-RowFits rows [] h k = k
  add_currents-RowFits rows (r ∷ rs) (q, h) k =
      add_currents-RowFits (add_current s rows r) rs h
        (add_current-RowFits s (IsCurrent p s) (IsDesired p s) rows r q k)

  pub add_candidates-RowFits :
      (rows : Rows) (rs : List Ref)
      → All (IsDesired p s) rs
      → Entries (RowFits s (IsCurrent p s) (IsDesired p s)) rows
      → Entries (RowFits s (IsCurrent p s) (IsDesired p s)) (add_candidates s rows rs)
  unfolding add_candidates
  add_candidates-RowFits rows [] h k = k
  add_candidates-RowFits rows (r ∷ rs) (q, h) k =
      add_candidates-RowFits (add_candidate s rows r) rs h
        (add_candidate-RowFits s (IsCurrent p s) (IsDesired p s) rows r q k)

  pub table-RowFits : Entries (RowFits s (IsCurrent p s) (IsDesired p s)) (table p s)
  unfolding table relevant
  table-RowFits =
      add_candidates-RowFits _ _ (relevant-All p.desired)
        (add_currents-RowFits [] _ (relevant-All p.current) tt)

  pub group_ok :
      (k : PlanKey) (type : Str) (g : DomainEndpoints) (o : Option Ref)
      → OptAll (Typed s (IsCurrent p s) (IsDesired p s) (IsCurrent p s) k type) o
      → All (Typed s (IsCurrent p s) (IsDesired p s) (IsDesired p s) k type) g.candidates
      → OptAll (λ c. IsCurrent p s c × All (Replaces p s c) g.candidates) o
  group_ok k type g none h l = tt
  group_ok k type g (some c) (q, ek, et) l =
      (q, All-map (λ d t. (q, t.0, (ek ∙ sym t.1, et ∙ sym t.2))) g.candidates l)

  pub records_ok :
      (k : PlanKey) (m : Records)
      → Entries (GroupFits s (IsCurrent p s) (IsDesired p s) k) m
      → All (λ t. GroupOk (IsCurrent p s) (IsDesired p s) (Replaces p s) t.1) m
  records_ok k [] h = tt
  records_ok k ((type, g) ∷ m) ((a, b), h) =
      ((group_ok k type g g.current a b, All-map (λ d t. t.0) g.candidates b), records_ok k m h)

  pub rows_ok :
      (rows : Rows)
      → Entries (RowFits s (IsCurrent p s) (IsDesired p s)) rows
      → All (λ t. RowOk (IsCurrent p s) (IsDesired p s) (Replaces p s) t.1) rows
  rows_ok [] h = tt
  rows_ok ((k, row) ∷ rows) (f, h) = (
    record {
      current = All-map (λ c t. t.0) row.current f.current;
      records = records_ok k row.records f.records;
    },
    rows_ok rows h,
  )

  -- The changes before the policies and the last filter, in the store that the loops leave
  module _ (net : NetIp) (order : MapOrder) where
    pub raw_ok :
        ChangesOk
          (IsCurrent p s)
          (IsDesired p s)
          (Replaces p s)
          (plan_rows net order p.owner_id no_changes (order.rows (table p s)) s).0
    raw_ok =
        ((plan_rows-Ensures (IsCurrent p s) (IsDesired p s) (Replaces p s) {I = λ s'. Unit} net
            (λ r s' h. tt) (λ c d q s' h. tt) order p.owner_id no_changes (order.rows (table p s))
            (record { created = tt; updated = tt; deleted = tt })
            (All-perm _ (order.rows-perm (table p s)) (rows_ok (table p s) table-RowFits))).run
          s tt).0

module _ (Cur Des : Ref → Type 0) (Pair : Ref → Ref → Type 0) where
  pub apply-ChangesOk :
      (q : Policy) (c : Changes) → ChangesOk Cur Des Pair c → ChangesOk Cur Des Pair (apply q c)
  unfolding apply
  apply-ChangesOk sync_policy c h = h
  apply-ChangesOk upsert_only_policy c h = record {
    created = h.created;
    updated = h.updated;
    deleted = tt;
  }
  apply-ChangesOk create_only_policy c h = record {
    created = h.created;
    updated = tt;
    deleted = tt;
  }

  pub apply_all-ChangesOk :
      (qs : List Policy) (c : Changes)
      → ChangesOk Cur Des Pair c
      → ChangesOk Cur Des Pair (apply_all qs c)
  unfolding apply_all
  apply_all-ChangesOk [] c h = h
  apply_all-ChangesOk (q ∷ qs) c h = apply_all-ChangesOk qs (apply q c) (apply-ChangesOk q c h)

pub Aligned-old :
    (Cur : Ref → Type 0) (Pair : Ref → Ref → Type 0) (os ns : List Ref)
    → ((o n : Ref) → Pair o n → Cur o)
    → Aligned Pair os ns
    → All Cur os
Aligned-old Cur Pair [] ns f h = tt
Aligned-old Cur Pair (o ∷ os) [] f h = absurd h
Aligned-old Cur Pair (o ∷ os) (n ∷ ns) f (q, h) = (f o n q, Aligned-old Cur Pair os ns f h)

pub Aligned-new :
    (Des : Ref → Type 0) (Pair : Ref → Ref → Type 0) (os ns : List Ref)
    → ((o n : Ref) → Pair o n → Des n)
    → Aligned Pair os ns
    → All Des ns
Aligned-new Des Pair os [] f h = tt
Aligned-new Des Pair [] (n ∷ ns) f h = absurd h
Aligned-new Des Pair (o ∷ os) (n ∷ ns) f (q, h) = (f o n q, Aligned-new Des Pair os ns f h)

-- The filter keeps what holds, and adds the owner.
pub owned-All :
    (s' : Store) (id : Str) (P : Ref → Type 0) (rs : List Ref)
    → All P rs
    → All
        (λ r. P r × (label owner_label_key (s' r) ≡ some id))
        (filter_endpoints_by_owner_id s' id rs)
owned-All s' id P rs h =
    All-map
      (λ r m.
        let (a, b) = (mem-filter_endpoints_by_owner_id s' id rs r).0 m in (All-mem P rs h a, b))
      (filter_endpoints_by_owner_id s' id rs) (All-members (filter_endpoints_by_owner_id s' id rs))
