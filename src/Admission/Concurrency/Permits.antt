-- ===== src/Admission/Concurrency/Permits.antt =====
-- `withCapacity` of src/deliveryAdmission.ts: what taking and releasing a permit changes.
use engineering_with_effect.Prelude.{
  ℕ, ◌+◌, ◌<◌, ◌≡◌, subst, inl, inr, some, arith, ◌==◌, if◌then◌else◌, Bool-cases, Option-cases,
  same_text, same_text_iff,
}
use engineering_with_effect.Prelude.Maps
use engineering_with_effect.Prelude.Maps.{map_laws}
use engineering_with_effect.Model.Ids.{DestinationId}
use engineering_with_effect.Admission.{Semaphores, Capacities, up, adjust, semaphore_for}
use engineering_with_effect.Admission.Bounds.{free_in}
use engineering_with_effect.Admission.Concurrency

module _ (sems : Semaphores) (k : Capacities) where
  open sems use {Semaphore, available, make, take_one, release_one}

  abbrev pub Pool : Type 0
  Pool = Concurrency.Pool sems k

  abbrev World : Type 0
  World = Concurrency.World sems k

  abbrev pub free : Pool → DestinationId → ℕ
  free p d = free_in sems k (Maps.get p.destination_capacities d)

  pub took : (s t : Semaphore) → take_one s ≡ some t → available t + 1 ≡ available s
  took s t h = elim (Bool-cases (available s == 0)) [
    | inl y ↦ absurd (ground (arith, sems.take_one-empty s (ground arith)))
    | inr n ↦
        let (u, e, q) = sems.take_one-left s (ground arith) in
        let same : u ≡ t = ground (arith, e, h) in subst (λ x. available x + 1 ≡ available s) same q
  ]

  pub record HasTaken (d : DestinationId) (p q : Pool) : Type 0 where
    pub global_capacity : q.global_capacity ≡ p.global_capacity
    pub active : q.active ≡ p.active
    pub own : (j : DestinationId) → free q j + (if same_text d j then 1 else 0) ≡ free p j

  pub take_destination-HasTaken :
      (d : DestinationId) (p q : Pool)
      → Concurrency.take_destination sems k d p ≡ some q
      → HasTaken d p q
  unfolding Concurrency.take_destination semaphore_for
  take_destination-HasTaken d p q h = elim (Option-cases (Maps.get p.destination_capacities d)) [
    | inl n ↦ elim (Option-cases (take_one (make k.per_destination))) [
      | inl m ↦ absurd (ground arith)
      | inr (t, e) ↦ record {
        global_capacity = ground arith;
        active = ground arith;
        own = λ j. grind (
          arith,
          map_laws,
          same_text_iff,
          took (make k.per_destination) t e,
          sems.available-make k.per_destination,
        );
      }
    ]
    | inr (s, f) ↦ elim (Option-cases (take_one s)) [
      | inl m ↦ absurd (ground arith)
      | inr (t, e) ↦ record {
        global_capacity = ground arith;
        active = ground arith;
        own = λ j. grind (arith, map_laws, same_text_iff, took s t e);
      }
    ]
  ]

  pub record HasStarted (d : DestinationId) (p q : Pool) : Type 0 where
    pub global_capacity : available q.global_capacity + 1 ≡ available p.global_capacity
    pub active : q.active ≡ adjust d up p.active
    pub destination_capacities : q.destination_capacities ≡ p.destination_capacities

  pub start_attempt-HasStarted :
      (d : DestinationId) (p q : Pool)
      → Concurrency.start_attempt sems k d p ≡ some q
      → HasStarted d p q
  unfolding Concurrency.start_attempt
  start_attempt-HasStarted d p q h = elim (Option-cases (take_one p.global_capacity)) [
    | inl m ↦ absurd (ground arith)
    | inr (t, e) ↦ record {
      global_capacity = ground (arith, took p.global_capacity t e);
      active = ground arith;
      destination_capacities = ground arith;
    }
  ]

  -- A permit that is held goes back to its destination.
  pub release_destination-free :
      (d j : DestinationId) (p : Pool)
      → free p d < k.per_destination
      → free (Concurrency.release_destination sems k d p) j
        ≡ free p j + (if same_text d j then 1 else 0)
  unfolding Concurrency.release_destination
  release_destination-free d j p h = elim (Option-cases (Maps.get p.destination_capacities d)) [
    | inl n ↦ absurd (ground arith)
    | inr (s, e) ↦ grind (arith, map_laws, same_text_iff, sems.available-release_one s)
  ]
