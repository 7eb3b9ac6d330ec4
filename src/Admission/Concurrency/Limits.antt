-- ===== src/Admission/Concurrency/Limits.antt =====
-- `withCapacity` of src/deliveryAdmission.ts: its limits hold, its counters are exact, and no permit is
-- lost.
use engineering_with_effect.Prelude.{
  ◌+◌, ◌-◌, ◌≤◌, ◌≡◌, refl, inl, inr, arith, ltb, ◌==◌, Bool-cases, or_else, is_some, length,
  same_text_iff,
}
use engineering_with_effect.Prelude.Maps
use engineering_with_effect.Model.Ids.{DestinationId}
use engineering_with_effect.Admission.{Semaphores, Capacities, Counts, up, down, adjust}
use engineering_with_effect.Admission.Bounds.{
  count_of, adjust-up, adjust-down, count_of-without, length-without,
}
use engineering_with_effect.Admission.Concurrency
use engineering_with_effect.Admission.Concurrency.{holds, starts, gives_up, ends, done, later}
use engineering_with_effect.Admission.Concurrency.Permits.{
  free, take_destination-HasTaken, start_attempt-HasStarted, release_destination-free,
}

module _ (sems : Semaphores) (k : Capacities) where
  open sems use {available, release_one}

  abbrev World : Type 0
  World = Concurrency.World sems k

  pub record IsBalanced (w : World) : Type 0 where
    pub total : w.pool.active.total ≡ length w.running
    pub counted :
        (d : DestinationId)
        → or_else (Maps.get w.pool.active.by_destination d) 0 ≡ count_of d w.running
    pub shared : available w.pool.global_capacity + length w.running ≡ k.total
    pub own :
        (d : DestinationId)
        → free sems k w.pool d + count_of d w.holding + count_of d w.running ≡ k.per_destination

  adjust-total :
      (d : DestinationId) (c : Counts)
      → ((adjust d up c).total ≡ c.total + 1) × ((adjust d down c).total ≡ c.total - 1)
  unfolding adjust
  adjust-total d c = (refl, refl)

  moved-IsBalanced : (w v : World) → Concurrency.Step sems k w v → IsBalanced w → IsBalanced v
  unfolding count_of Concurrency.end_attempt
  moved-IsBalanced w _ (holds d p h) b =
      let t = take_destination-HasTaken sems k d w.pool p h in
      record {
        total = ground (arith, b.total, t.active);
        counted = λ j. ground (arith, b.counted j, t.active);
        shared = ground (arith, b.shared, t.global_capacity);
        own = λ j. ground (arith, b.own j, t.own j);
      }
  moved-IsBalanced w _ (starts d p c h) b =
      let t = start_attempt-HasStarted sems k d w.pool p h in
      record {
        total = ground (arith, b.total, t.active, adjust-total d w.pool.active);
        counted = λ j. ground (
          arith,
          b.counted j,
          b.counted d,
          t.active,
          adjust-up d j w.pool.active,
          same_text_iff d j,
        );
        shared = ground (arith, b.shared, t.global_capacity);
        own = λ j. ground (
          arith,
          b.own j,
          t.destination_capacities,
          count_of-without d j w.holding c,
          same_text_iff d j,
        );
      }
  moved-IsBalanced w _ (gives_up d c) b = record {
    total = b.total;
    counted = b.counted;
    shared = b.shared;
    own = λ j. ground (
      arith,
      b.own j,
      b.own d,
      release_destination-free sems k d j w.pool (omega (arith, b.own d, c)),
      count_of-without d j w.holding c,
      same_text_iff d j,
    );
  }
  moved-IsBalanced w _ (ends d c) b =
      let q : Concurrency.Pool sems k = record w.pool {
        active = adjust d down w.pool.active;
        global_capacity = release_one w.pool.global_capacity;
      } in
      record {
        total = ground (arith, b.total, adjust-total d w.pool.active, length-without d w.running c);
        counted = λ j. ground (
          arith,
          b.counted j,
          b.counted d,
          adjust-down d j w.pool.active,
          count_of-without d j w.running c,
          same_text_iff d j,
        );
        shared = ground (
          arith,
          b.shared,
          sems.available-release_one w.pool.global_capacity,
          length-without d w.running c,
        );
        own = λ j. ground (
          arith,
          b.own j,
          b.own d,
          release_destination-free sems k d j q (omega (arith, b.own d, c)),
          count_of-without d j w.running c,
          same_text_iff d j,
        );
      }

  idle-IsBalanced : IsBalanced (Concurrency.idle sems k)
  unfolding Concurrency.make_pool count_of Maps.get
  idle-IsBalanced = record {
    total = refl;
    counted = λ d. refl;
    shared = ground (arith, sems.available-make k.total);
    own = λ d. omega arith;
  }

  reached-IsBalanced : (w v : World) → Concurrency.Steps sems k w v → IsBalanced w → IsBalanced v
  reached-IsBalanced w _ done b = b
  reached-IsBalanced w v (later {v = u} s t) b = moved-IsBalanced u v t (reached-IsBalanced w u s b)

  -- In whatever order attempts wait, start, give up and end, those that run are never more than the
  -- shared limit, nor those for one destination more than its own, and the counters count exactly the
  -- attempts that run.
  pub attempts_bounded :
      (w : World) (d : DestinationId)
      → Concurrency.Steps sems k (Concurrency.idle sems k) w
      → (length w.running ≤ k.total)
        × (count_of d w.running ≤ k.per_destination)
        × (w.pool.active.total ≡ length w.running)
        × (or_else (Maps.get w.pool.active.by_destination d) 0 ≡ count_of d w.running)
  attempts_bounded w d s =
      let b = reached-IsBalanced (Concurrency.idle sems k) w s idle-IsBalanced in
      (omega (arith, b.shared), omega (arith, b.own d), b.total, b.counted d)

  -- No permit is lost: after every order of waiting, starting, giving up and ending an
  -- attempt that asks for the shared permit starts exactly when fewer attempts run than the shared
  -- limit allows.
  pub start_attempt_iff :
      (w : World) (d : DestinationId)
      → Concurrency.Steps sems k (Concurrency.idle sems k) w
      → is_some (Concurrency.start_attempt sems k d w.pool) ≡ ltb (length w.running) k.total
  unfolding Concurrency.start_attempt
  start_attempt_iff w d s =
      let b = reached-IsBalanced (Concurrency.idle sems k) w s idle-IsBalanced in
      elim (Bool-cases (available w.pool.global_capacity == 0)) [
        | inl y ↦
            ground (arith, b.shared, sems.take_one-empty w.pool.global_capacity (ground arith))
        | inr n ↦
            let (t, e, q) = sems.take_one-left w.pool.global_capacity (ground arith) in
            ground (arith, b.shared, e)
      ]
