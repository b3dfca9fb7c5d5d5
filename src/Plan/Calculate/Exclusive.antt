-- ===== src/Plan/Calculate/Exclusive.antt =====
-- plan/plan.go: what the resolver is given for each row of the table, and what it leaves.
use dns_sync.Base.{
  refl, List, [], ◌∷◌, ◌++◌, All-map, All-snoc, Memᴰ, Entries, Entries-modify, Entries-ensure,
  str_eq,
}
use dns_sync.Endpoint.{Endpoint}
use dns_sync.Store.{Ref, Store}
use dns_sync.Plan.Table.{
  plan_key_eq, Records, Rows, empty_group, empty_row, plan_key, new_plan_key, add_current,
  add_candidate,
}
use dns_sync.Plan.Conflict.{resolve_record_types}
use dns_sync.Plan.Conflict.Exclusive.{
  GroupOf, IsGrouped, IsExclusive, resolve_record_types-IsExclusive,
}
use dns_sync.Plan.Calculate.{Plan, add_currents, add_candidates, table}

module _ (s : Store) where
  abbrev RowsGrouped : Rows → Type 0
  RowsGrouped rows = Entries (λ k row. IsGrouped s row) rows

  new_plan_key-RowsGrouped :
      (e : Endpoint) (rows : Rows) → RowsGrouped rows → RowsGrouped (new_plan_key e rows)
  unfolding new_plan_key
  new_plan_key-RowsGrouped e rows h =
      Entries-modify (λ k row. IsGrouped s row) (plan_key e) _ _
        (λ row f.
          Entries-ensure (GroupOf s row.candidates) e.record_type empty_group row.records tt f)
        (Entries-ensure (λ k row. IsGrouped s row) (plan_key e) empty_row rows tt h)

  add_current-RowsGrouped :
      (rows : Rows) (r : Ref) → RowsGrouped rows → RowsGrouped (add_current s rows r)
  unfolding add_current
  add_current-RowsGrouped rows r h =
      Entries-modify (λ k row. IsGrouped s row) (plan_key (s r)) _ _
        (λ row f.
          Entries-modify (GroupOf s row.candidates) (s r).record_type _ row.records (λ g k. k) f)
        (new_plan_key-RowsGrouped (s r) rows h)

  mem-snoc : (x r : Ref) (cs : List Ref) → Memᴰ x cs → Memᴰ x (cs ++ r ∷ [])
  mem-snoc x r [] m = elim m [ ]
  mem-snoc x r (c ∷ cs) (Memᴰ.head e) = Memᴰ.head e
  mem-snoc x r (c ∷ cs) (Memᴰ.tail m) = Memᴰ.tail (mem-snoc x r cs m)

  mem_last : (r : Ref) (cs : List Ref) → Memᴰ r (cs ++ r ∷ [])
  mem_last r [] = Memᴰ.head refl
  mem_last r (c ∷ cs) = Memᴰ.tail (mem_last r cs)

  more_candidates :
      (cs : List Ref) (r : Ref) (recs : Records)
      → Entries (GroupOf s cs) recs
      → Entries (GroupOf s (cs ++ r ∷ [])) recs
  more_candidates cs r [] h = tt
  more_candidates cs r ((type, g) ∷ recs) (p, h) =
      (All-map (λ x q. (mem-snoc x r cs q.0, q.1)) g.candidates p, more_candidates cs r recs h)

  add_candidate-RowsGrouped :
      (rows : Rows) (r : Ref) → RowsGrouped rows → RowsGrouped (add_candidate s rows r)
  unfolding add_candidate
  add_candidate-RowsGrouped rows r h =
      Entries-modify (λ k row. IsGrouped s row) (plan_key (s r)) _ _
        (λ row f.
          Entries-modify (GroupOf s (row.candidates ++ r ∷ [])) (s r).record_type _ row.records
            (λ g k. All-snoc _ g.candidates r k (mem_last r row.candidates, refl))
            (more_candidates row.candidates r row.records f))
        (new_plan_key-RowsGrouped (s r) rows h)

  add_currents-RowsGrouped :
      (rows : Rows) (rs : List Ref) → RowsGrouped rows → RowsGrouped (add_currents s rows rs)
  unfolding add_currents
  add_currents-RowsGrouped rows [] h = h
  add_currents-RowsGrouped rows (r ∷ rs) h =
      add_currents-RowsGrouped (add_current s rows r) rs (add_current-RowsGrouped rows r h)

  add_candidates-RowsGrouped :
      (rows : Rows) (rs : List Ref) → RowsGrouped rows → RowsGrouped (add_candidates s rows rs)
  unfolding add_candidates
  add_candidates-RowsGrouped rows [] h = h
  add_candidates-RowsGrouped rows (r ∷ rs) h =
      add_candidates-RowsGrouped (add_candidate s rows r) rs (add_candidate-RowsGrouped rows r h)

  Exclusive-rows :
      (rows : Rows)
      → RowsGrouped rows
      → Entries (λ k row. IsExclusive (resolve_record_types s row)) rows
  Exclusive-rows [] h = tt
  Exclusive-rows ((k, row) ∷ rows) (p, h) =
      (resolve_record_types-IsExclusive s row p, Exclusive-rows rows h)

-- In each row of the table of a plan the resolver leaves candidates for a CNAME record or for records
-- of other types, never for both.
pub table-IsExclusive :
    (p : Plan) (s : Store) → Entries (λ k row. IsExclusive (resolve_record_types s row)) (table p s)
unfolding table
table-IsExclusive p s =
    Exclusive-rows s _ (add_candidates-RowsGrouped s _ _ (add_currents-RowsGrouped s [] _ tt))
