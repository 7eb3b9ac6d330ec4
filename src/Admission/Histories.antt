-- ===== src/Admission/Histories.antt =====
-- src/deliveryAdmission.ts: deliveries come and go in any order.
use engineering_with_effect.Prelude.{
  ◌+◌, ◌-◌, ◌≤◌, ◌<◌, ◌≡◌, refl, inl, inr, List, [], ◌∷◌, arith, ◌==◌, if◌then◌else◌, Bool-cases,
  Option-cases, or_else, length, same_text_iff, Result, ok, err,
}
use engineering_with_effect.Prelude.Maps
use engineering_with_effect.Model.Ids.{DestinationId}
use engineering_with_effect.Admission.{
  Semaphores, Capacities, Limit, global_admission, destination_admission, Overloaded, Counts, up,
  down, adjust, Gate, make_gate, begin_admit, end_admit,
}
use engineering_with_effect.Admission.Bounds.{
  count_of, without, adjust-up, adjust-down, count_of-without, length-without, free, IsRefused,
  IsAdmitted, begin_admit-IsRefused-own, begin_admit-IsRefused-shared, begin_admit-IsAdmitted,
}

-- A delivery asks to be admitted, or one that was admitted has ended.
pub data Event : Type 0 where
  arrives : DestinationId → Event
  leaves : DestinationId → Event

module _ (sems : Semaphores) (k : Capacities) where
  open sems use {available}

  -- The gate, and the destinations of the deliveries that it has admitted.
  pub record World : Type 0 where
    pub gate : Gate sems
    pub running : List DestinationId

  abbrev pub start : World
  start = record { gate = make_gate sems k; running = [] }

  unfoldable advance : Event → World → World
  unfolding without count_of
  advance (arrives d) w =
      let r = begin_admit sems k d w.gate in
      record { gate = r.1; running = elim r.0 [ ok u ↦ d ∷ w.running | err e ↦ w.running ] }
  advance (leaves d) w =
      if count_of d w.running == 0
      then w
      else record { gate = end_admit sems d w.gate; running = without d w.running }

  unfoldable pub history : List Event → World → World
  unfolding advance
  history [] w = w
  history (e ∷ es) w = history es (advance e w)

  -- The counters count the running deliveries, and each of them holds its two permits.
  pub record IsBalanced (w : World) : Type 0 where
    pub total : w.gate.counts.total ≡ length w.running
    pub counted :
        (d : DestinationId)
        → or_else (Maps.get w.gate.counts.by_destination d) 0 ≡ count_of d w.running
    pub shared : available w.gate.shared + length w.running ≡ k.total
    pub own : (d : DestinationId) → free sems k w.gate d + count_of d w.running ≡ k.per_destination

  start-IsBalanced : IsBalanced start
  unfolding make_gate count_of Maps.get
  start-IsBalanced = record {
    total = refl;
    counted = λ d. refl;
    shared = ground (arith, sems.available-make k.total);
    own = λ d. omega arith;
  }

  adjust-total :
      (d : DestinationId) (c : Counts)
      → ((adjust d up c).total ≡ c.total + 1) × ((adjust d down c).total ≡ c.total - 1)
  unfolding adjust
  adjust-total d c = (refl, refl)

  refused-IsBalanced :
      (w : World) (d : DestinationId) (limit : Limit)
      → IsBalanced w
      → IsRefused sems k d limit w.gate (begin_admit sems k d w.gate)
      → IsBalanced (advance (arrives d) w)
  unfolding advance
  refused-IsBalanced w d limit b r = record {
    total = ground (arith, b.total, r.answer, r.counts);
    counted = λ j. ground (arith, b.counted j, r.answer, r.counts);
    shared = ground (arith, b.shared, r.answer, r.shared);
    own = λ j. ground (arith, b.own j, r.answer, r.own j);
  }

  admitted-IsBalanced :
      (w : World) (d : DestinationId)
      → IsBalanced w
      → IsAdmitted sems k d w.gate (begin_admit sems k d w.gate)
      → IsBalanced (advance (arrives d) w)
  unfolding advance count_of
  admitted-IsBalanced w d b r = record {
    total = ground (arith, b.total, r.answer, r.counts, adjust-total d w.gate.counts);
    counted = λ j. ground (
      arith,
      b.counted j,
      b.counted d,
      r.answer,
      r.counts,
      adjust-up d j w.gate.counts,
      same_text_iff d j,
    );
    shared = ground (arith, b.shared, r.answer, r.shared);
    own = λ j. ground (arith, b.own j, b.own d, r.answer, r.own j, same_text_iff d j);
  }

  -- A delivery that ends gives its destination's permit back.
  released :
      (w : World) (d j : DestinationId)
      → IsBalanced w
      → 0 < count_of d w.running
      → free sems k (end_admit sems d w.gate) j + count_of j (without d w.running)
        ≡ k.per_destination
  unfolding end_admit
  released w d j b h = elim (Option-cases (Maps.get w.gate.destinations d)) [
    | inl n ↦ absurd (ground (arith, b.own d))
    | inr (s, e) ↦ ground (
      arith,
      b.own j,
      b.own d,
      Maps.get-set w.gate.destinations d j (sems.release_one s),
      sems.available-release_one s,
      count_of-without d j w.running h,
      same_text_iff d j,
    )
  ]

  left-IsBalanced :
      (w : World) (d : DestinationId) → IsBalanced w → IsBalanced (advance (leaves d) w)
  unfolding advance end_admit
  left-IsBalanced w d b = elim (Bool-cases (count_of d w.running == 0)) [
    | inl y ↦ rw y b
    | inr n ↦
        let h : 0 < count_of d w.running = ground arith in
        rw n (record {
          total =
              ground (arith, b.total, adjust-total d w.gate.counts, length-without d w.running h);
          counted = λ j. ground (
            arith,
            b.counted j,
            b.counted d,
            adjust-down d j w.gate.counts,
            count_of-without d j w.running h,
            same_text_iff d j,
          );
          shared = ground (
            arith,
            b.shared,
            sems.available-release_one w.gate.shared,
            length-without d w.running h,
          );
          own = λ j. released w d j b h;
        })
  ]

  advance-IsBalanced : (e : Event) (w : World) → IsBalanced w → IsBalanced (advance e w)
  advance-IsBalanced (leaves d) w b = left-IsBalanced w d b
  advance-IsBalanced (arrives d) w b = elim (Bool-cases (free sems k w.gate d == 0)) [
    | inl y ↦
        refused-IsBalanced w d destination_admission b
          (begin_admit-IsRefused-own sems k d w.gate (ground arith))
    | inr n ↦ elim (Bool-cases (available w.gate.shared == 0)) [
      | inl y ↦
          refused-IsBalanced w d global_admission b
            (begin_admit-IsRefused-shared sems k d w.gate (ground arith) (ground arith))
      | inr m ↦
          admitted-IsBalanced w d b
            (begin_admit-IsAdmitted sems k d w.gate (ground arith) (ground arith))
    ]
  ]

  history-IsBalanced : (es : List Event) (w : World) → IsBalanced w → IsBalanced (history es w)
  unfolding history
  history-IsBalanced [] w b = b
  history-IsBalanced (e ∷ es) w b = history-IsBalanced es (advance e w) (advance-IsBalanced e w b)

  -- In whatever order deliveries come and go, those that run are never more than the shared capacity,
  -- nor those for one destination more than its own; the counters are exactly the numbers of those
  -- that run, in total and for each destination.
  pub history_bounds :
      (es : List Event) (d : DestinationId)
      → let w = history es start in
        (length w.running ≤ k.total)
        × (count_of d w.running ≤ k.per_destination)
        × (w.gate.counts.total ≡ length w.running)
        × (or_else (Maps.get w.gate.counts.by_destination d) 0 ≡ count_of d w.running)
  history_bounds es d =
      let b = history-IsBalanced es start start-IsBalanced in
      (omega (arith, b.shared), omega (arith, b.own d), b.total, b.counted d)

  -- What a delivery that arrives is answered.
  abbrev pub decision : DestinationId → World → Result Overloaded (Unit {0})
  decision d w =
      if count_of d w.running == k.per_destination
      then err (record {
        admission_capacity = k.per_destination;
        destination_id = d;
        limit = destination_admission;
      })
      else if length w.running == k.total
      then err
          (record { admission_capacity = k.total; destination_id = d; limit = global_admission })
      else ok tt

  decides :
      (w : World) (d : DestinationId)
      → IsBalanced w
      → let r = begin_admit sems k d w.gate in
        (r.0 ≡ decision d w)
        × (r.1.rejected
            ≡ elim (decision d w) [ ok u ↦ w.gate.rejected | err e ↦ w.gate.rejected + 1 ])
  decides w d b = elim (Bool-cases (free sems k w.gate d == 0)) [
    | inl y ↦
        let r = begin_admit-IsRefused-own sems k d w.gate (ground arith) in
        (ground (arith, r.answer, b.own d), ground (arith, r.rejected, b.own d))
    | inr n ↦ elim (Bool-cases (available w.gate.shared == 0)) [
      | inl y ↦
          let r = begin_admit-IsRefused-shared sems k d w.gate (ground arith) (ground arith) in
          (
            ground (arith, r.answer, b.own d, b.shared),
            ground (arith, r.rejected, b.own d, b.shared),
          )
      | inr m ↦
          let r = begin_admit-IsAdmitted sems k d w.gate (ground arith) (ground arith) in
          (
            ground (arith, r.answer, b.own d, b.shared),
            ground (arith, r.rejected, b.own d, b.shared),
          )
    ]
  ]

  -- After every history a delivery is refused for its destination's capacity exactly when that many
  -- run for the destination, otherwise for the shared capacity exactly when that many run at all, and
  -- otherwise admitted; only a refusal is counted as one.
  begin_admit_decides :
      (es : List Event) (d : DestinationId)
      → let w = history es start in
        let r = begin_admit sems k d w.gate in
        (r.0 ≡ decision d w)
        × (r.1.rejected
            ≡ elim (decision d w) [ ok u ↦ w.gate.rejected | err e ↦ w.gate.rejected + 1 ])
  begin_admit_decides es d =
      decides (history es start) d (history-IsBalanced es start start-IsBalanced)
