-- ===== src/Engine/Bounds.antt =====
-- What a step of the retry schedule of src/deliveryEngine.ts gives.
use engineering_with_effect.Prelude.{
  ℕ, zero, suc, ◌+◌, ◌-◌, ◌*◌, ◌/◌, ◌≤◌, ◌<◌, max, min, ◌≡◌, refl, inl, inr, true, none, some,
  arith, if◌then◌else◌, Bool-cases, Option-cases,
}
use engineering_with_effect.Engine.Schedule.{
  Schedules, Step, jitter, honour_retry_after, cap_at_deadline, within_deadline, limited,
  retry_after_of, nanos_per_milli, fraction_unit,
}

-- A cap that the delay reaches leaves no time, so the delay that is kept is a whole number of
-- milliseconds.
cap_not_reached :
    (x y cap now deadline : ℕ)
    → cap ≤ now
    → now + min (max (1000000 * x) (1000000 * y)) (deadline - cap) < deadline
    → min (max (1000000 * x) (1000000 * y)) (deadline - cap) ≡ 1000000 * max x y
cap_not_reached x y cap now deadline c h = omega arith

module _ (lib : Schedules) where
  open lib use {
    Schedule, step, modify_delay, up_to, while_holds, modify_delay_done, modify_delay_step,
    up_to_zero, up_to_done, up_to_step, while_done, while_step,
  }

  abbrev final_delay : ℕ → ℕ → Step → ℕ
  final_delay deadline d i = cap_at_deadline deadline (honour_retry_after (jitter d i) i) i

  -- With no recurrence left, or no backoff, a step is done.
  limited_zero : (deadline : ℕ) (b : Schedule) (i : Step) → step (limited lib deadline 0 b) i ≡ none
  unfolding limited
  limited_zero deadline b i = while_done _ _ i (up_to_zero _ i)

  limited_done :
      (deadline n : ℕ) (b : Schedule) (i : Step)
      → step b i ≡ none
      → step (limited lib deadline n b) i ≡ none
  unfolding limited
  limited_done deadline n b i h = while_done _ _ i (
      up_to_done n _ i
        (modify_delay_done _ _ i (modify_delay_done _ _ i (modify_delay_done _ _ i h))))

  limited_step :
      (deadline n : ℕ) (b b' : Schedule) (i : Step) (d : ℕ)
      → step b i ≡ some (d, b')
      → step (limited lib deadline (suc n) b) i ≡ (
          if within_deadline deadline (final_delay deadline d i) i
          then some (final_delay deadline d i, limited lib deadline n b')
          else none)
  unfolding limited
  limited_step deadline n b b' i d h = while_step _ _ _ i _ (
      up_to_step n _ _ i _
        (modify_delay_step _ _ _ i _ (modify_delay_step _ _ _ i _ (modify_delay_step _ _ _ i d h))))

  -- What a scheduled delay meets.
  pub record IsScheduled (deadline n : ℕ) (b : Schedule) (i : Step) (d : ℕ) (next : Schedule)
      : Type 0 where
    pub in_time : i.reading.checked_at_nanos + d < deadline
    pub honours : nanos_per_milli * retry_after_of i.input.outcome ≤ d
    pub whole : (millis : ℕ) × (d ≡ nanos_per_milli * millis)
    pub counted : (m : ℕ) × (b' : Schedule) × (n ≡ suc m) × (next ≡ limited lib deadline m b')

  final_delay_facts :
      (deadline d : ℕ) (i : Step)
      → i.reading.capped_at_nanos ≤ i.reading.checked_at_nanos
      → within_deadline deadline (final_delay deadline d i) i ≡ true
      → (i.reading.checked_at_nanos + final_delay deadline d i < deadline)
        × (nanos_per_milli * retry_after_of i.input.outcome ≤ final_delay deadline d i)
        × ((millis : ℕ) × (final_delay deadline d i ≡ nanos_per_milli * millis))
  unfolding within_deadline cap_at_deadline honour_retry_after jitter
  final_delay_facts deadline d i c h =
      let x = d * i.reading.fraction / (nanos_per_milli * fraction_unit) in
      let y = retry_after_of i.input.outcome in
      let t : i.reading.checked_at_nanos + final_delay deadline d i < deadline = ground arith in
      let e : final_delay deadline d i ≡ nanos_per_milli * max x y =
        cap_not_reached x y i.reading.capped_at_nanos i.reading.checked_at_nanos deadline c t in
      (t, rw e (omega arith), (max x y, e))

  -- Where the step's second reading of the clock is no earlier than its first: a delay that the retry
  -- schedule gives ends before the deadline, is no shorter than what the destination asked for, is a
  -- whole number of milliseconds, and uses up one recurrence.
  pub limited-IsScheduled :
      (deadline n : ℕ) (b next : Schedule) (i : Step) (d : ℕ)
      → i.reading.capped_at_nanos ≤ i.reading.checked_at_nanos
      → step (limited lib deadline n b) i ≡ some (d, next)
      → IsScheduled deadline n b i d next
  limited-IsScheduled deadline zero b next i d c h =
      absurd (ground (arith, limited_zero deadline b i))
  limited-IsScheduled deadline (suc n) b next i d c h = elim (Option-cases (step b i)) [
    | inl e ↦ absurd (ground (arith, limited_done deadline (suc n) b i e))
    | inr ((d', b'), e) ↦ scheduled d' b' e
  ]
    where
      scheduled :
          (d' : ℕ) (b' : Schedule)
          → step b i ≡ some (d', b')
          → IsScheduled deadline (suc n) b i d next
      scheduled d' b' e =
          let q = limited_step deadline n b b' i d' e in
          elim (Bool-cases (within_deadline deadline (final_delay deadline d' i) i)) [
            | inl y ↦
                let (t, r, w) = final_delay_facts deadline d' i c y in
                let p : final_delay deadline d' i ≡ d = ground (arith, q) in
                record {
                  in_time = rw (← p) t;
                  honours = rw (← p) r;
                  whole = rw (← p) w;
                  counted = (n, b', refl, ground (arith, q));
                }
            | inr y ↦ absurd (ground (arith, q))
          ]
