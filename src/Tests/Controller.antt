-- ===== src/Tests/Controller.antt =====
-- Reconciliations of a registry and a source that work, and schedules with events and ticks.
use dns_sync.Base.{
  false, ℕ, ◌≡◌, ◌≢◌, ◌≤◌, refl, none, some, [], ◌∷◌, ◌++◌, codes, All, Memᴰ, arith,
}
use dns_sync.Attempt.{returned}
use dns_sync.Endpoint.{record_type_a, record_type_aaaa}
use dns_sync.DomainFilter.{DomainFilter}
use dns_sync.Plan.Policy.{sync_policy}
use dns_sync.Controller.Run.{Controller, World, run_once, count_matching_address_records}
use dns_sync.Controller.Safety.{BatchOwned, run_once-BatchOwned}
use dns_sync.Controller.Reports.{IsReported, run_once-IsReported}
use dns_sync.Controller.Verified.{Counted, IsVerified, count_matching_address_records-Counted}
use dns_sync.Controller.Schedule.{Times, tick, event, run, should_run_once, schedule_run_once}
use dns_sync.Controller.Spacing.{IsSpaced, run-IsSpaced, run-event}
use dns_sync.Tests.Planner.{sample_net, in_order, sample_store}

abbrev every_name : DomainFilter
every_name = record { filters = []; exclude = []; regex = none; regex_exclusion = none }

abbrev sample_controller : Controller
sample_controller = record {
  policy = sync_policy;
  domain_filter = every_name;
  managed_record_types = some (record_type_a ∷ []);
  exclude_record_types = [];
  owner = codes "me";
}

abbrev sample_world : World (Unit {0})
sample_world = record {
  records = returned (0 ∷ 1 ∷ 5 ∷ []);
  endpoints = λ rs. returned (2 ∷ 4 ∷ []);
  adjust_endpoints = λ es. returned es;
  get_domain_filter = every_name;
  apply_changes = λ c s. none;
  equal = λ s a b. false;
}

owner_set : sample_controller.owner ≢ []
owner_set h = cc

run_once-BatchOwned_example :
    All
      (BatchOwned
        (codes "me")
        (run_once sample_net in_order sample_world sample_controller sample_store).store)
      (run_once sample_net in_order sample_world sample_controller sample_store).sent
run_once-BatchOwned_example =
    run_once-BatchOwned sample_net in_order sample_world sample_controller sample_store owner_set

run_once-IsReported_example :
    IsReported sample_net in_order sample_world sample_controller sample_store
      (run_once sample_net in_order sample_world sample_controller sample_store)
run_once-IsReported_example =
    run_once-IsReported sample_net in_order sample_world sample_controller sample_store

count_matching_address_records-Counted_example :
    let (a, aaaa) = count_matching_address_records sample_store (2 ∷ 4 ∷ []) (0 ∷ 4 ∷ []) in
    Counted (IsVerified sample_store (0 ∷ 4 ∷ []) record_type_a) (2 ∷ 4 ∷ []) a
    × Counted (IsVerified sample_store (0 ∷ 4 ∷ []) record_type_aaaa) (2 ∷ 4 ∷ []) aaaa
count_matching_address_records-Counted_example =
    count_matching_address_records-Counted sample_store (2 ∷ 4 ∷ []) (0 ∷ 4 ∷ [])

abbrev sample_times : Times
sample_times = record { interval = 60; min_event_sync_interval = 5 }

-- An event between two ticks brings the next run forward to the end of its window.
run_events : run sample_times 0 (tick 1 ∷ event 20 ∷ tick 22 ∷ tick 25 ∷ tick 26 ∷ []) ≡ 1 ∷ 25 ∷ []
unfolding run should_run_once schedule_run_once
run_events = refl

run-IsSpaced_example :
    IsSpaced 5 1 (run sample_times 0 (tick 1 ∷ event 20 ∷ tick 22 ∷ tick 25 ∷ []))
run-IsSpaced_example =
    run-IsSpaced sample_times 5 1 0 (tick 1 ∷ event 20 ∷ tick 22 ∷ tick 25 ∷ []) (omega arith)
      (omega arith) (omega arith, (omega arith, (omega arith, (omega arith, tt))))

run-event_example :
    (r : ℕ) × Memᴰ r (run sample_times 61 (event 20 ∷ (tick 22 ∷ [] ++ tick 25 ∷ [])))
    × (20 ≤ r)
    × (r ≤ 25)
run-event_example =
    run-event sample_times 61 20 25 (tick 22 ∷ []) [] (omega arith) (omega arith, (omega arith, tt))
