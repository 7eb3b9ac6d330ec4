-- ===== src/Admission/Concurrency.antt =====
-- `withCapacity` of src/deliveryAdmission.ts: an attempt waits for a permit of its destination, then
-- for a shared one, and runs under both. A taker that finds no permit waits, which is no step.
pub mod Permits
pub mod Limits
use engineering_with_effect.Prelude.{◌<◌, ◌≡◌, Option, none, some, List, [], ◌∷◌}
use engineering_with_effect.Prelude.Maps
use engineering_with_effect.Model.Ids.{DestinationId}
use engineering_with_effect.Admission.{
  Semaphores, Capacities, Counts, up, down, adjust, semaphore_for,
}
use engineering_with_effect.Admission.Bounds.{count_of, without}

module _ (sems : Semaphores) (k : Capacities) where
  open sems use {Semaphore, available, make, take_one, release_one}

  -- The semaphores of attempts, and the counters of those that run.
  pub record Pool : Type 0 where
    pub global_capacity : Semaphore
    pub destination_capacities : Maps.Map Semaphore
    pub active : Counts

  unfoldable pub make_pool : Pool
  make_pool = record {
    global_capacity = make k.total;
    destination_capacities = [];
    active = record { total = 0; by_destination = [] };
  }

  -- A permit of the destination, where one is left.
  unfoldable pub take_destination : DestinationId → Pool → Option Pool
  unfolding semaphore_for
  take_destination d p =
      let (own, registry) = semaphore_for sems p.destination_capacities d k.per_destination in
      elim (take_one own) [
        | none ↦ none
        | some own' ↦ some (record p { destination_capacities = Maps.set registry d own' })
      ]

  -- A shared permit, where one is left, and the attempt starts.
  unfoldable pub start_attempt : DestinationId → Pool → Option Pool
  unfolding adjust
  start_attempt d p = elim (take_one p.global_capacity) [
    | none ↦ none
    | some rest ↦ some (record p { global_capacity = rest; active = adjust d up p.active })
  ]

  unfoldable pub release_destination : DestinationId → Pool → Pool
  release_destination d p = record p {
    destination_capacities = elim (Maps.get p.destination_capacities d) [
      | none ↦ p.destination_capacities
      | some own ↦ Maps.set p.destination_capacities d (release_one own)
    ];
  }

  -- However the attempt ended.
  unfoldable pub end_attempt : DestinationId → Pool → Pool
  unfolding adjust release_destination
  end_attempt d p = release_destination d (record p {
    active = adjust d down p.active;
    global_capacity = release_one p.global_capacity;
  })

  -- The pool, the attempts that hold a permit of their destination only, and those that run.
  pub record World : Type 0 where
    pub pool : Pool
    pub holding : List DestinationId
    pub running : List DestinationId

  abbrev pub idle : World
  idle = record { pool = make_pool; holding = []; running = [] }

  pub data Step (w : World) : World → Type 0 where
    holds :
        (d : DestinationId) (p : Pool)
        → take_destination d w.pool ≡ some p
        → Step w (record w { pool = p; holding = d ∷ w.holding })
    starts :
        (d : DestinationId) (p : Pool)
        → 0 < count_of d w.holding
        → start_attempt d w.pool ≡ some p
        → Step w (record { pool = p; holding = without d w.holding; running = d ∷ w.running })
    -- Interrupted while it waits for the shared permit.
    gives_up :
        (d : DestinationId)
        → 0 < count_of d w.holding
        → Step w (record w { pool = release_destination d w.pool; holding = without d w.holding })
    ends :
        (d : DestinationId)
        → 0 < count_of d w.running
        → Step w (record w { pool = end_attempt d w.pool; running = without d w.running })

  pub data Steps (w : World) : World → Type 0 where
    done : Steps w w
    later : {v u : World} → Steps w v → Step v u → Steps w u
