-- ===== src/Tests/SupervisorCases.antt =====
-- The properties of the supervisor at concrete runs, over the in-memory repository.
use engineering_with_effect.Prelude.{All, List, [], arith, length, ok, refl, some, ◌∷◌, ◌≡◌, ◌≤◌}
use engineering_with_effect.Services.{ClaimedDelivery}
use engineering_with_effect.Memory.History.{memory}
use engineering_with_effect.Admission.{make_gate}
use engineering_with_effect.Worker.{Job}
use engineering_with_effect.Supervisor
use engineering_with_effect.Supervisor.{
  Work, resume_claimed, Steps, offers, pulls, dispatches, ends, done, later, make_supervisor,
  offer_claimed, idle, job_of,
}
use engineering_with_effect.Model.Results.{DeliveryResult}
use engineering_with_effect.Memory.Claimed.{IsEntry}
use engineering_with_effect.Reconciler.{reconcile_once}
use engineering_with_effect.Reconciler.Passes.{scan, Turns, reconcile_once-Turns}
use engineering_with_effect.Supervisor.Dispatch.{IsOrderly, dispatched_in_order}
use engineering_with_effect.Supervisor.Offers.{Handled, offer_claimed-Handled}
use engineering_with_effect.Tests.Samples.{
  destination, other_worker, result, delivery, claim, event, route,
}
use engineering_with_effect.Tests.Permits.{take_permit, permits, capacities}
use engineering_with_effect.Tests.MemoryCases.{accepted_store, accepted_store-IsValid}
use engineering_with_effect.Tests.WorkerCases.{memory-Admits, job}

abbrev claimed : ClaimedDelivery
claimed = record {
  claim = claim;
  claim_lag_millis = 0;
  delivery = delivery;
  event = event;
  next_attempt_ordinal = 1;
  route = some route;
}

-- A queue of two jobs that is full.
abbrev full : Supervisor.Supervisor memory permits capacities
full = record {
  store = accepted_store;
  admission = make_gate permits capacities;
  requests = job ∷ job ∷ [];
  pulled = [];
  dispatch_permits = 2;
  deliveries = [];
}

offer_claimed-Handled_example :
    Handled memory memory-Admits permits capacities claimed job.destination full
      (offer_claimed memory permits capacities claimed job.destination full)
offer_claimed-Handled_example =
    offer_claimed-Handled memory memory-Admits permits capacities claimed job.destination full
      accepted_store-IsValid

-- The job is offered, pulled, dispatched, and ends.
abbrev start : Supervisor.World memory permits capacities
start = idle memory permits capacities accepted_store

abbrev offered : Job
offered = job_of claimed job.destination

-- It runs under the first of the two permits.
abbrev running : Supervisor.World memory permits capacities
running = record {
  supervisor = record (make_supervisor memory permits capacities accepted_store) {
    dispatch_permits = 1;
    deliveries = offered ∷ [];
  };
  offered = offered ∷ [];
  started = offered ∷ [];
  ended = [];
}

steps : Steps memory permits capacities start running
unfolding make_supervisor offer_claimed take_permit
steps =
    later (later (later done (offers claimed job.destination)) (pulls 1 refl))
      (dispatches offered [] 1 refl refl)

dispatched_in_order_example : IsOrderly memory permits capacities running
dispatched_in_order_example =
    dispatched_in_order memory permits capacities accepted_store running steps

-- Another worker's lease has run out, and jobs that are awaited end at once.
abbrev at_once : Job → Work memory permits capacities DeliveryResult
at_once j s = (ok result, s)

reconcile_once-Turns_example :
    let start = make_supervisor memory permits capacities accepted_store in
    let claim_all =
      scan memory-Admits permits capacities at_once job.destination 1700 other_worker destination 10
        500 in
    let resume = resume_claimed memory permits capacities at_once job.destination in
    (claims : List ClaimedDelivery) × ((reconcile_once resume claim_all start).0
      ≡ ok (length claims))
    × (length claims ≤ 10)
    × All (IsEntry 1700 other_worker destination 10 500 (claim_all start).1.store) claims
    × Turns memory-Admits permits capacities at_once job.destination claims
        (claim_all start).1
        (reconcile_once resume claim_all start).1
unfolding make_supervisor
reconcile_once-Turns_example =
    reconcile_once-Turns memory-Admits permits capacities at_once job.destination (λ j s v. v) 1700
      other_worker destination 10 500 (make_supervisor memory permits capacities accepted_store)
      accepted_store-IsValid (omega arith)
