-- ===== src/Plan/Calculate/Planned.antt =====
-- What `Calculate` plans: where each change comes from, whose records it touches, and how the
-- policies cut it down.
use dns_sync.Base.{◌≡◌, ◌≢◌, some, [], All, Memᴰ, if_both, ap}
use dns_sync.Endpoint.{label, owner_label_key, filter_endpoints_by_owner_id, remove_duplicates}
use dns_sync.Endpoint.Owner.{remove_duplicates-All}
use dns_sync.Targets.{NetIp}
use dns_sync.Store.{Store}
use dns_sync.DomainFilter.{is_nil}
use dns_sync.Plan.Policy.Cuts.{KeepsAll, OnlyCreates, upsert_only-KeepsAll, create_only-OnlyCreates}
use dns_sync.Plan.Policy.{Changes, no_changes, upsert_only_policy, create_only_policy, apply_all}
use dns_sync.Plan.Calculate.{MapOrder, Plan, table, plan_rows, filter_owned, calculate}
use dns_sync.Plan.Calculate.Sound.{Aligned, ChangesOk}
use dns_sync.Plan.Calculate.Filled.{
  is_nil-false, IsCurrent, IsDesired, Replaces, raw_ok, apply_all-ChangesOk, Aligned-old,
  Aligned-new, owned-All,
}

module _ (net : NetIp) (order : MapOrder) (p : Plan) (s : Store) where
  cut_ok : ChangesOk (IsCurrent p s) (IsDesired p s) (Replaces p s) (
      apply_all p.policies (plan_rows net order p.owner_id no_changes (order.rows (table p s)) s).0)
  cut_ok =
      apply_all-ChangesOk (IsCurrent p s) (IsDesired p s) (Replaces p s) p.policies _
        (raw_ok p s net order)

  -- Every record that is created stands in the desired list, its name passes every filter, and its
  -- type is managed.
  pub calculate-create : All (IsDesired p s) (calculate net order p s).0.create
  unfolding calculate filter_owned
  calculate-create =
      if_both (λ (c : Changes). All (IsDesired p s) c.create) (is_nil p.owner_id) cut_ok.created
        cut_ok.created

  -- Where the plan has an owner, each record that is deleted, or is the old or the new part of an
  -- update, carries this owner's label in the store that is left; deletions and old parts are
  -- current records in scope, and new parts desired records in scope.
  pub calculate_owned :
      p.owner_id ≢ []
      → All
          (λ r.
            IsCurrent p s r
            × (label owner_label_key ((calculate net order p s).1 r) ≡ some p.owner_id))
          (calculate net order p s).0.delete
        × All
            (λ r.
              IsCurrent p s r
              × (label owner_label_key ((calculate net order p s).1 r) ≡ some p.owner_id))
            (calculate net order p s).0.update_old
        × All
            (λ r.
              IsDesired p s r
              × (label owner_label_key ((calculate net order p s).1 r) ≡ some p.owner_id))
            (calculate net order p s).0.update_new
  unfolding calculate filter_owned
  calculate_owned set =
      let s' = (plan_rows net order p.owner_id no_changes (order.rows (table p s)) s).1 in
      let ok = cut_ok in
      rw (is_nil-false p.owner_id set) (
        remove_duplicates-All s' _ _ (owned-All s' p.owner_id (IsCurrent p s) _ ok.deleted),
        owned-All s' p.owner_id (IsCurrent p s) _
            (Aligned-old (IsCurrent p s) (Replaces p s) _ _ (λ o n q. q.0) ok.updated),
        owned-All s' p.owner_id (IsDesired p s) _
            (Aligned-new (IsDesired p s) (Replaces p s) _ _ (λ o n q. q.1) ok.updated),
      )

  -- Without an owner, updates come in pairs: each old part is a current record in scope, and the new
  -- part at its place is a desired record in scope of the same name, set identifier and type.
  pub calculate-Aligned :
      p.owner_id ≡ []
      → Aligned
          (Replaces p s)
          (calculate net order p s).0.update_old
          (calculate net order p s).0.update_new
  unfolding calculate filter_owned
  calculate-Aligned none_set = rw (ap is_nil none_set) cut_ok.updated

  filtered_delete :
      (c : Changes) → KeepsAll c → (s' : Store) → KeepsAll (filter_owned p.owner_id s' c)
  unfolding filter_owned filter_endpoints_by_owner_id remove_duplicates
  filtered_delete c e s' = if_both KeepsAll (is_nil p.owner_id) e (rw e)

  filtered_creates :
      (c : Changes) → OnlyCreates c → (s' : Store) → OnlyCreates (filter_owned p.owner_id s' c)
  unfolding filter_owned filter_endpoints_by_owner_id remove_duplicates
  filtered_creates c (d, o, n) s' =
      if_both OnlyCreates (is_nil p.owner_id) (d, o, n) (rw d, rw o, rw n)

  -- With the upsert-only policy among its policies a plan deletes nothing.
  pub calculate-upsert_only :
      Memᴰ upsert_only_policy p.policies → KeepsAll (calculate net order p s).0
  unfolding calculate
  calculate-upsert_only m = filtered_delete _ (upsert_only-KeepsAll p.policies _ m) _

  -- With the create-only policy among its policies a plan deletes nothing and updates nothing.
  pub calculate-create_only :
      Memᴰ create_only_policy p.policies → OnlyCreates (calculate net order p s).0
  unfolding calculate
  calculate-create_only m = filtered_creates _ (create_only-OnlyCreates p.policies _ m) _
