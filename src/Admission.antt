-- ===== src/Admission.antt =====
-- src/deliveryAdmission.ts: which deliveries are admitted, and how many attempts run at once. The
-- semaphores of the library effect are a parameter.
pub mod Bounds
pub mod Histories
pub mod Concurrency
use engineering_with_effect.Prelude.{
  ℕ, ◌+◌, ◌-◌, ◌<◌, ◌≡◌, Option, none, some, [], ◌==◌, if◌then◌else◌, or_else, Result, ok, err,
}
use engineering_with_effect.Prelude.Maps
use engineering_with_effect.Model.Ids.{DestinationId}

-- `Semaphore`, with what its documentation says: it holds permits, of which a taker gets one where
-- one is left, and which a release gives back.
pub record Semaphores : Type 1 where
  pub Semaphore : Type 0
  pub make : ℕ → Semaphore
  pub available : Semaphore → ℕ
  pub take_one : Semaphore → Option Semaphore
  pub release_one : Semaphore → Semaphore
  pub available-make : (n : ℕ) → available (make n) ≡ n
  pub take_one-empty : (s : Semaphore) → available s ≡ 0 → take_one s ≡ none
  pub take_one-left :
      (s : Semaphore)
      → 0 < available s
      → (t : Semaphore) × (take_one s ≡ some t) × (available t + 1 ≡ available s)
  pub available-release_one : (s : Semaphore) → available (release_one s) ≡ available s + 1

-- The two limits, and the two kinds of overload.
pub record Capacities : Type 0 where
  pub total : ℕ
  pub per_destination : ℕ

pub data Limit : Type 0 where
  global_admission destination_admission : Limit

-- `DeliveryOverloaded`
pub record Overloaded : Type 0 where
  pub admission_capacity : ℕ
  pub destination_id : DestinationId
  pub limit : Limit

-- A count that is changed by one; a count of none is deleted.
pub data Adjustment : Type 0 where
  up down : Adjustment

abbrev adjusted : ℕ → Adjustment → ℕ
adjusted n up = n + 1
adjusted n down = n - 1

pub record Counts : Type 0 where
  pub total : ℕ
  pub by_destination : Maps.Map ℕ

-- `adjustAdmitted`, and `adjustActive` word for word.
unfoldable pub adjust : DestinationId → Adjustment → Counts → Counts
adjust d a c =
    let count = adjusted (or_else (Maps.get c.by_destination d) 0) a in
    record {
      total = adjusted c.total a;
      by_destination =
          if count == 0 then Maps.delete c.by_destination d else Maps.set c.by_destination d count;
    }

module _ (sems : Semaphores) where
  open sems use {Semaphore, make, take_one, release_one}

  -- The two semaphores of admissions (or of attempts), and their counters.
  pub record Gate : Type 0 where
    pub shared : Semaphore
    pub destinations : Maps.Map Semaphore
    pub counts : Counts
    pub rejected : ℕ

  unfoldable pub make_gate : Capacities → Gate
  make_gate k = record {
    shared = make k.total;
    destinations = [];
    counts = record { total = 0; by_destination = [] };
    rejected = 0;
  }

  -- `semaphoreFor`: the registered semaphore, or a new one that is registered.
  unfoldable pub semaphore_for :
      Maps.Map Semaphore → DestinationId → ℕ → Semaphore × Maps.Map Semaphore
  semaphore_for registry d permits = elim (Maps.get registry d) [
    | some existing ↦ (existing, registry)
    | none ↦ (make permits, Maps.set registry d (make permits))
  ]

  unfoldable pub overload :
      Capacities → DestinationId → Limit → Gate → Result Overloaded (Unit {0}) × Gate
  overload k d limit g = (
    err (record {
      admission_capacity = elim limit [
        | global_admission ↦ k.total
        | destination_admission ↦ k.per_destination
      ];
      destination_id = d;
      limit = limit;
    }),
    record g { rejected = g.rejected + 1 },
  )

  -- `admit` up to its task: one permit of the destination, then a shared one, then the count. Without
  -- a shared permit the destination's goes back.
  unfoldable pub begin_admit :
      Capacities → DestinationId → Gate → Result Overloaded (Unit {0}) × Gate
  unfolding semaphore_for overload adjust
  begin_admit k d g =
      let (own, registry) = semaphore_for g.destinations d k.per_destination in
      let registered = record g { destinations = registry } in
      elim (take_one own) [
        | none ↦ overload k d destination_admission registered
        | some own' ↦ elim (take_one g.shared) [
          | none ↦
              overload k d global_admission
                (record registered { destinations = Maps.set registry d (release_one own') })
          | some shared' ↦ (
            ok tt,
            record registered {
              shared = shared';
              destinations = Maps.set registry d own';
              counts = adjust d up g.counts;
            },
          )
        ]
      ]

  -- After the task, however it ended.
  unfoldable pub end_admit : DestinationId → Gate → Gate
  unfolding adjust
  end_admit d g = record g {
    counts = adjust d down g.counts;
    shared = release_one g.shared;
    destinations = elim (Maps.get g.destinations d) [
      | none ↦ g.destinations
      | some own ↦ Maps.set g.destinations d (release_one own)
    ];
  }
