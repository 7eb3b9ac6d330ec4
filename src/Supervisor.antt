-- ===== src/Supervisor.antt =====
-- src/deliverySupervisor.ts: claimed deliveries are offered to a bounded queue, dispatched in its order
-- under a bounded number of permits, and a submission is admitted before it is stored. The jobs
-- themselves are Worker's; hooks, logs and gauges are left out.
pub mod Offers
pub mod Dispatch
use engineering_with_effect.Prelude.{
  ℕ, ◌≡◌, not, Option, none, some, List, [], ◌∷◌, ◌++◌, ltb, if◌then◌else◌, length, take, drop,
  Text, Result, ok, err, Action,
}
use engineering_with_effect.Model.Ids.{DeliveryId, DestinationId}
use engineering_with_effect.Model.Event.{RelayEvent, Destination}
use engineering_with_effect.Model.Results.{DeliveryResult}
use engineering_with_effect.Errors.{RepositoryFailure, IntakeFailure}
use engineering_with_effect.Services.{ClaimedDelivery, ClaimRequest}
use engineering_with_effect.Contract.Calls.{releases}
use engineering_with_effect.Contract.Repository.{Repository}
use engineering_with_effect.Admission.{
  Semaphores, Capacities, global_admission, Overloaded, Gate, make_gate, overload, begin_admit,
  end_admit,
}
use engineering_with_effect.Worker.{Job}

-- `DeliveryOverloaded | DeliveryClaimFailure`: what an offer can fail with.
pub data OfferFailure : Type 0 where
  overloaded : Overloaded → OfferFailure
  claim_failed : RepositoryFailure → OfferFailure

-- `DeliveryFailure`
pub data DeliveryFailure : Type 0 where
  invalid_event : Text → DeliveryFailure
  delivery_identity : DestinationId → DeliveryFailure
  store_failed : IntakeFailure → DeliveryFailure
  offer_failed : OfferFailure → DeliveryFailure

-- `destinationFor`: the route that was kept, under the configured authorization.
unfoldable pub destination_for : ClaimedDelivery → Destination → Destination
destination_for claimed fallback = elim claimed.route [
  | none ↦ fallback
  | some route ↦ record {
    id = route.destination_id;
    endpoint = route.endpoint;
    authorization = fallback.authorization;
  }
]

abbrev pub job_of : ClaimedDelivery → Destination → Job
job_of claimed destination = record {
  claim = claimed.claim;
  delivery_id = claimed.delivery.id;
  destination = destination;
  event = claimed.event;
  next_attempt_ordinal = claimed.next_attempt_ordinal;
}

module _ (repo : Repository) (sems : Semaphores) (k : Capacities) where
  open repo use {State, perform}
  open sems use {Semaphore, make, take_one, release_one}

  -- The repository, the gate of admissions, the queue of requests, the jobs that the stream has pulled
  -- from it, the permits of dispatch, and the running jobs.
  pub record Supervisor : Type 0 where
    pub store : State
    pub admission : Gate sems
    pub requests : List Job
    pub pulled : List Job
    pub dispatch_permits : Semaphore
    pub deliveries : List Job

  abbrev pub Work : Type 0 → Type 0
  Work A = Action Supervisor OfferFailure A

  unfoldable pub make_supervisor : State → Supervisor
  make_supervisor store = record {
    store = store;
    admission = make_gate sems k;
    requests = [];
    pulled = [];
    dispatch_permits = make k.total;
    deliveries = [];
  }

  -- `admission.reject`
  abbrev reject : DestinationId → Work (Unit {0})
  reject id s =
      let (r, gate) = overload sems k id global_admission s.admission in
      (elim r [ ok u ↦ ok tt | err o ↦ err (overloaded o) ], record s { admission = gate })

  -- `offerClaimed`: where the queue is full, the claim is released and the delivery rejected.
  unfoldable pub offer_claimed : ClaimedDelivery → Destination → Work (Unit {0})
  offer_claimed claimed destination s =
      if ltb (length s.requests) k.total
      then (ok tt, record s { requests = s.requests ++ job_of claimed destination ∷ [] })
      else (let (r, store) = perform (releases claimed.delivery.id claimed.claim) s.store in
          elim r [
            | err e ↦ (err (claim_failed e), record s { store = store })
            | ok u ↦ reject destination.id (record s { store = store })
          ])

  -- `enqueueClaimed` does not mind an overload.
  unfoldable pub enqueue_claimed :
      Destination → ClaimedDelivery → Action Supervisor RepositoryFailure (Unit {0})
  unfolding offer_claimed destination_for
  enqueue_claimed configured claimed s =
      let (r, s') = offer_claimed claimed (destination_for claimed configured) s in
      (elim r [ ok u ↦ ok tt | err (overloaded o) ↦ ok tt | err (claim_failed e) ↦ err e ], s')

  -- The waiting on a job's deferred result is the host's: other fibers run, and the job ends.
  module _ (await : Job → Work DeliveryResult) where
    -- Only a job that was queued is awaited.
    unfoldable pub awaited :
        Job
        → Result OfferFailure (Unit {0}) × Supervisor
        → Result OfferFailure DeliveryResult × Supervisor
    awaited job (err e, s) = (err e, s)
    awaited job (ok u, s) = await job s

    unfoldable pub submit_claimed : ClaimedDelivery → Destination → Work DeliveryResult
    unfolding offer_claimed awaited
    submit_claimed claimed destination s =
        awaited (job_of claimed destination) (offer_claimed claimed destination s)

    -- `resumeClaimed`
    unfoldable pub resume_claimed : Destination → ClaimedDelivery → Work DeliveryResult
    unfolding submit_claimed destination_for
    resume_claimed configured claimed = submit_claimed claimed (destination_for claimed configured)

    module _ {C : Type 0} (decode : C → Result Text RelayEvent)
        (save_pending : RelayEvent
          → DeliveryId
          → DestinationId
          → ClaimRequest
          → Action State IntakeFailure ClaimedDelivery)
        (request : ClaimRequest) where
      -- The admitted task of `deliverTo`, with the identifier that is generated for it, if one could be.
      unfoldable store_and_submit :
          Option DeliveryId → C → Destination → Action Supervisor DeliveryFailure DeliveryResult
      unfolding submit_claimed
      store_and_submit generated candidate destination s = elim (decode candidate) [
        | err summary ↦ (err (invalid_event summary), s)
        | ok event ↦ elim generated [
          | none ↦ (err (delivery_identity destination.id), s)
          | some id ↦
              let (r, store) = save_pending event id destination.id request s.store in
              elim r [
                | err e ↦ (err (store_failed e), record s { store = store })
                | ok claimed ↦
                    let (x, s') = submit_claimed claimed destination (record s { store = store }) in
                    (elim x [ err e ↦ err (offer_failed e) | ok result ↦ ok result ], s')
              ]
        ]
      ]

      -- `deliverTo`: the task holds its admission until it ends, however it ends.
      unfoldable deliver_to :
          Option DeliveryId → C → Destination → Action Supervisor DeliveryFailure DeliveryResult
      unfolding store_and_submit
      deliver_to generated candidate destination s =
          let (r, gate) = begin_admit sems k destination.id s.admission in
          elim r [
            | err o ↦ (err (offer_failed (overloaded o)), record s { admission = gate })
            | ok u ↦
                let (x, s') =
                  store_and_submit generated candidate destination
                    (record s { admission = gate }) in
                (x, record s' { admission = end_admit sems destination.id s'.admission })
          ]

  -- The supervisor, with the jobs that its queue has taken, those dispatched, and those ended, in order.
  pub record World : Type 0 where
    pub supervisor : Supervisor
    pub offered : List Job
    pub started : List Job
    pub ended : List Job

  abbrev pub idle : State → World
  idle store = record { supervisor = make_supervisor store; offered = []; started = []; ended = [] }

  -- The fibers of the supervisor: the stream pulls requests and dispatches them one after another, each
  -- under a permit that its job gives back; nothing else touches the queue, the permits and the jobs.
  pub data Step (w : World) : World → Type 0 where
    offers :
        (claimed : ClaimedDelivery) (destination : Destination)
        → Step w (record w {
          supervisor = (offer_claimed claimed destination w.supervisor).1;
          offered =
              if ltb (length w.supervisor.requests) k.total
              then w.offered ++ job_of claimed destination ∷ []
              else w.offered;
        })
    pulls :
        (n : ℕ)
        → w.supervisor.pulled ≡ []
        → Step w (record w {
          supervisor = record w.supervisor {
            pulled = take n w.supervisor.requests;
            requests = drop n w.supervisor.requests;
          };
        })
    dispatches :
        (job : Job) (rest : List Job) (permits : Semaphore)
        → w.supervisor.pulled ≡ job ∷ rest
        → take_one w.supervisor.dispatch_permits ≡ some permits
        → Step w (record w {
          supervisor = record w.supervisor {
            pulled = rest;
            dispatch_permits = permits;
            deliveries = job ∷ w.supervisor.deliveries;
          };
          started = w.started ++ job ∷ [];
        })
    ends :
        (before : List Job) (job : Job) (later : List Job)
        → w.supervisor.deliveries ≡ before ++ job ∷ later
        → Step w (record w {
          supervisor = record w.supervisor {
            deliveries = before ++ later;
            dispatch_permits = release_one w.supervisor.dispatch_permits;
          };
          ended = w.ended ++ job ∷ [];
        })
    elsewhere :
        (store : State) (gate : Gate sems)
        → Step w (record w { supervisor = record w.supervisor { store = store; admission = gate } })

  pub data Steps (w : World) : World → Type 0 where
    done : Steps w w
    later : {v u : World} → Steps w v → Step v u → Steps w u
