-- ===== src/Plan/Table/Origin.antt =====
-- What the plan table holds: each record stands in the row of its name and set identifier, in the
-- group of its type.
use dns_sync.Base.{
  ◌≡◌, refl, Str, All, OptAll, All-snoc, Entries, Entries-modify, Entries-ensure, ensure, str_eq,
}
use dns_sync.Endpoint.{Endpoint}
use dns_sync.Store.{Ref, Store}
use dns_sync.Plan.Table.{
  PlanKey, DomainEndpoints, PlanTableRow, Rows, empty_group, empty_row, plan_key, plan_key_eq,
  new_plan_key, add_current, add_candidate,
}

module _ (s : Store) (Cur Des : Ref → Type 0) where
  -- A record of the name
  abbrev pub Named : (Ref → Type 0) → PlanKey → Ref → Type 0
  Named P k r = P r × (plan_key (s r) ≡ k)

  -- A record of the name and the type
  abbrev pub Typed : (Ref → Type 0) → PlanKey → Str → Ref → Type 0
  Typed P k type r = P r × (plan_key (s r) ≡ k) × ((s r).record_type ≡ type)

  abbrev pub GroupFits : PlanKey → Str → DomainEndpoints → Type 0
  GroupFits k type g = OptAll (Typed Cur k type) g.current × All (Typed Des k type) g.candidates

  pub record RowFits (k : PlanKey) (row : PlanTableRow) : Type 0 where
    pub current : All (Named Cur k) row.current
    pub candidates : All (Named Des k) row.candidates
    pub records : Entries (GroupFits k) row.records

  new_plan_key-RowFits :
      (e : Endpoint) (rows : Rows) → Entries RowFits rows → Entries RowFits (new_plan_key e rows)
  unfolding new_plan_key
  new_plan_key-RowFits e rows h =
      Entries-modify RowFits (plan_key e) _ (ensure (plan_key e) empty_row rows)
        (λ row f. record {
          current = f.current;
          candidates = f.candidates;
          records =
              Entries-ensure (GroupFits (plan_key e)) e.record_type empty_group row.records (tt, tt)
                f.records;
        })
        (Entries-ensure RowFits (plan_key e) empty_row rows
          (record { current = tt; candidates = tt; records = tt }) h)

  pub add_current-RowFits :
      (rows : Rows) (r : Ref)
      → Cur r
      → Entries RowFits rows
      → Entries RowFits (add_current s rows r)
  unfolding add_current
  add_current-RowFits rows r p h =
      Entries-modify RowFits (plan_key (s r)) _ (new_plan_key (s r) rows)
        (λ row f. record {
          current = All-snoc (Named Cur (plan_key (s r))) row.current r f.current (p, refl);
          candidates = f.candidates;
          records =
              Entries-modify (GroupFits (plan_key (s r))) (s r).record_type _ row.records
                (λ g k. ((p, refl, refl), k.1)) f.records;
        })
        (new_plan_key-RowFits (s r) rows h)

  pub add_candidate-RowFits :
      (rows : Rows) (r : Ref)
      → Des r
      → Entries RowFits rows
      → Entries RowFits (add_candidate s rows r)
  unfolding add_candidate
  add_candidate-RowFits rows r p h =
      Entries-modify RowFits (plan_key (s r)) _ (new_plan_key (s r) rows)
        (λ row f. record {
          current = f.current;
          candidates =
              All-snoc (Named Des (plan_key (s r))) row.candidates r f.candidates (p, refl);
          records =
              Entries-modify (GroupFits (plan_key (s r))) (s r).record_type _ row.records
                (λ g k. (
                  k.0,
                  All-snoc (Typed Des (plan_key (s r)) (s r).record_type) g.candidates r k.1
                      (p, refl, refl),
                ))
                f.records;
        })
        (new_plan_key-RowFits (s r) rows h)
