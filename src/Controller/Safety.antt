-- ===== src/Controller/Safety.antt =====
-- controller/controller.go: whose records a reconciliation changes.
use dns_sync.Base.{◌≡◌, ◌≢◌, some, List, [], Str, inl, inr, All, All-map, Bool-cases, str_eq}
use dns_sync.Attempt.{Attempt, failed, returned}
use dns_sync.Endpoint.{label, owner_label_key}
use dns_sync.Targets.{NetIp}
use dns_sync.Store.{Ref, Store}
use dns_sync.Plan.Policy.{Changes}
use dns_sync.Plan.Calculate.{MapOrder, calculate}
use dns_sync.Plan.Calculate.Planned.{calculate_owned}
use dns_sync.Controller.Run.{
  Controller, World, Outcome, has_changes, send, stopped, run_adjusted, run_endpoints, run_records,
  run_once, plan_of,
}

-- What a batch deletes or updates carries the label of the owner.
abbrev pub BatchOwned : Str → Store → Changes → Type 0
BatchOwned owner s c =
    All (λ r. label owner_label_key (s r) ≡ some owner) c.delete
    × All (λ r. label owner_label_key (s r) ≡ some owner) c.update_old
    × All (λ r. label owner_label_key (s r) ≡ some owner) c.update_new

module _ (net : NetIp) (order : MapOrder) {E : Type 0} (w : World E) where
  -- A run stops at an error of one of its three calls, or sends what the plan of their results gives.
  run_once_cases :
      (c : Controller) (s : Store) (P : Outcome E → Type 0)
      → ((e : E) → P (stopped net order w e s))
      → ((records endpoints : List Ref)
          → P (
              send net order w
                (calculate net order (plan_of c w.get_domain_filter records endpoints) s)))
      → P (run_once net order w c s)
  unfolding run_once run_adjusted run_endpoints run_records
  run_once_cases c s P stop go = at_records w.records
    where
      at_adjusted :
          (rs : List Ref) (a : Attempt E (List Ref)) → P (run_adjusted net order w c rs a s)
      at_adjusted rs (failed e) = stop e
      at_adjusted rs (returned es) = go rs es

      at_endpoints :
          (rs : List Ref) (a : Attempt E (List Ref)) → P (run_endpoints net order w c rs a s)
      at_endpoints rs (failed e) = stop e
      at_endpoints rs (returned es) = at_adjusted rs (w.adjust_endpoints es)

      at_records : (a : Attempt E (List Ref)) → P (run_records net order w c a s)
      at_records (failed e) = stop e
      at_records (returned rs) = at_endpoints rs (w.endpoints rs)

  send-All :
      (owner : Str) (c : Changes) (s : Store)
      → BatchOwned owner s c
      → All (BatchOwned owner (send net order w (c, s)).store) (send net order w (c, s)).sent
  unfolding send
  send-All owner c s h = elim (Bool-cases (has_changes w.equal s c)) [
    | inl changed ↦ rw changed (h, tt)
    | inr same ↦ rw same tt
  ]

  -- A controller with an owner sends no deletion and no part of an update that does not carry its
  -- label.
  pub run_once-BatchOwned :
      (c : Controller) (s : Store)
      → c.owner ≢ []
      → All (BatchOwned c.owner (run_once net order w c s).store) (run_once net order w c s).sent
  unfolding plan_of
  run_once-BatchOwned c s set =
      run_once_cases c s (λ o. All (BatchOwned c.owner o.store) o.sent) (λ e. tt)
        (λ rs es.
          let p = plan_of c w.get_domain_filter rs es in
          let (d, o, n) = calculate_owned net order p s set in
          send-All c.owner (calculate net order p s).0 (calculate net order p s).1
            (All-map (λ r q. q.1) _ d, All-map (λ r q. q.1) _ o, All-map (λ r q. q.1) _ n))
