-- ===== src/Metrics/Counts.antt =====
-- What the counters, histograms and limits of src/deliveryMetrics.ts show after any recordings.
use engineering_with_effect.Prelude.{
  ℕ, ◌+◌, ◌≡◌, refl, ◌∙◌, Bool, true, false, List, [], ◌∷◌, arith, if◌then◌else◌, Text,
}
use engineering_with_effect.Model.State.{DeadLetterReason}
use engineering_with_effect.Model.Outcome.{ℤ, DeliveryOutcome}
use engineering_with_effect.Model.Attempt.{
  DeliveryAttempt, DeliveryAttemptDecision, outcome_tag, decision_tag,
}
use engineering_with_effect.Metrics.{
  DeliverySaturationSnapshot, Series, MetricKind, metric_kind, Amount, difference, Meters,
  same_series, initialize, record_admission_rejection, record_attempt, record_dead_letter,
  record_fencing_rejection, set_active_attempts, set_admitted_deliveries, set_saturation,
}
use engineering_with_effect.Metrics.Recordings.{Recording, tally, picks, is_current, perform, run}

same_dead_letters :
    (reason : DeadLetterReason) (t : Series)
    → same_series (Series.dead_letters reason) t ≡ picks t (Recording.dead_letter reason)
same_dead_letters reason t = ground arith

same_fencing :
    (o : Text) (t : Series)
    → same_series (Series.fencing_rejections o) t ≡ picks t (Recording.fencing_rejection o)
same_fencing o t = ground arith

same_rejections :
    (t : Series) → same_series Series.admission_rejections t ≡ picks t Recording.admission_rejection
same_rejections t = ground arith

current_apart :
    (s t : Series) → is_current s ≡ true → is_current t ≡ false → same_series s t ≡ false
current_apart s t hs ht = ground arith

module _ (host : Meters) where
  open host use {Registry, update, reading}

  -- The readings under `t` grow by one with each recording that `p` picks.
  Tallies : Series → (Recording → Bool) → Type 0
  Tallies t p =
      (x : Recording) (r : Registry)
      → reading (perform host x r) t ≡ reading r t + (if p x then 1 else 0)

  run-tally :
      (t : Series) (p : Recording → Bool)
      → Tallies t p
      → (xs : List Recording) (r : Registry) → reading (run host xs r) t ≡ reading r t + tally p xs
  unfolding Tallies
  run-tally t p h [] r = omega arith
  run-tally t p h (x ∷ xs) r = omega (arith, h x r, run-tally t p h xs (perform host x r))

  module _ (t : Series) (apart : is_current t ≡ false) where
    -- One more where a counter is updated by one, and nothing else.
    counter-grows :
        (s : Series) (r : Registry)
        → metric_kind s ≡ MetricKind.counter
        → reading (update s (Amount.whole 1) r) t ≡ reading r t + (if same_series s t then 1 else 0)
    counter-grows s r k = grind (arith, host.counted s 1 r t k)

    histogram-grows :
        (s : Series) (amount : Amount) (r : Registry)
        → metric_kind s ≡ MetricKind.histogram
        → reading (update s amount r) t ≡ reading r t + (if same_series s t then 1 else 0)
    histogram-grows s amount r k = grind (arith, host.observed s amount r t k)

    gauge-stays :
        (s : Series) (n : ℕ) (r : Registry)
        → metric_kind s ≡ MetricKind.gauge
        → is_current s ≡ true
        → reading (update s (Amount.whole n) r) t ≡ reading r t
    gauge-stays s n r k c = grind (arith, host.gauged s n r t k, current_apart s t c apart)

    module _ (ordinal started completed : ℕ) (outcome : DeliveryOutcome) where
      attempt_of : DeliveryAttemptDecision → DeliveryAttempt
      attempt_of d = record {
        ordinal = ordinal;
        started_at_millis = started;
        completed_at_millis = completed;
        outcome = outcome;
        decision = d;
      }

      -- The first two updates of `recordAttempt`.
      both : DeliveryAttemptDecision → Registry → Registry
      both d r =
          update (Series.attempt_duration (outcome_tag outcome))
            (Amount.seconds (difference completed started))
            (update (Series.attempts (decision_tag d) (outcome_tag outcome)) (Amount.whole 1) r)

      both-grows :
          (d : DeliveryAttemptDecision) (r : Registry)
          → reading (both d r) t
            ≡ reading r t
              + (if same_series (Series.attempts (decision_tag d) (outcome_tag outcome)) t
                  then 1
                  else 0)
              + (if same_series (Series.attempt_duration (outcome_tag outcome)) t then 1 else 0)
      unfolding both
      both-grows d r = grind (
        arith,
        histogram-grows (Series.attempt_duration (outcome_tag outcome))
            (Amount.seconds (difference completed started))
            (update (Series.attempts (decision_tag d) (outcome_tag outcome)) (Amount.whole 1) r)
            refl,
        counter-grows (Series.attempts (decision_tag d) (outcome_tag outcome)) r refl,
      )

      record_attempt-grows :
          (d : DeliveryAttemptDecision) (r : Registry)
          → reading (record_attempt host (attempt_of d) r) t
            ≡ reading r t + (if picks t (Recording.attempt (attempt_of d)) then 1 else 0)
      unfolding record_attempt attempt_of both
      record_attempt-grows DeliveryAttemptDecision.terminal r =
          both-grows DeliveryAttemptDecision.terminal r ∙ ground arith
      record_attempt-grows (DeliveryAttemptDecision.retry_scheduled n) r =
          histogram-grows (Series.retry_delay (outcome_tag outcome)) (Amount.seconds (ℤ.pos n))
            (both (DeliveryAttemptDecision.retry_scheduled n) r) refl
          ∙ grind (arith, both-grows (DeliveryAttemptDecision.retry_scheduled n) r)
      record_attempt-grows DeliveryAttemptDecision.exhausted r =
          both-grows DeliveryAttemptDecision.exhausted r ∙ ground arith

    perform-grows : Tallies t (picks t)
    unfolding Tallies perform attempt_of record_dead_letter record_fencing_rejection
        record_admission_rejection set_active_attempts set_admitted_deliveries set_saturation
    perform-grows (Recording.attempt a) r =
        record_attempt-grows a.ordinal a.started_at_millis a.completed_at_millis a.outcome
          a.decision r
    perform-grows (Recording.dead_letter reason) r =
        rw (counter-grows (Series.dead_letters reason) r refl, same_dead_letters reason t)
    perform-grows (Recording.fencing_rejection o) r =
        rw (counter-grows (Series.fencing_rejections o) r refl, same_fencing o t)
    perform-grows Recording.admission_rejection r =
        rw (counter-grows Series.admission_rejections r refl, same_rejections t)
    perform-grows (Recording.active_attempts n) r =
        grind (arith, gauge-stays Series.active_attempts n r refl refl)
    perform-grows (Recording.admitted_deliveries n) r =
        grind (arith, gauge-stays Series.admitted_deliveries n r refl refl)
    perform-grows (Recording.saturation snapshot) r =
        let r1 = set_active_attempts host snapshot.active_attempts r in
        let r2 = set_admitted_deliveries host snapshot.admitted_deliveries r1 in
        grind (
          arith,
          gauge-stays Series.active_attempts snapshot.active_attempts r refl refl,
          gauge-stays Series.admitted_deliveries snapshot.admitted_deliveries r1 refl refl,
          gauge-stays Series.request_queue_depth snapshot.request_queue_depth r2 refl refl,
        )

  -- What a series shows before any recording.
  abbrev pub starts : DeliverySaturationSnapshot → Registry → Series → ℕ
  starts snapshot r Series.admission_capacity = snapshot.admission_capacity
  starts snapshot r Series.active_attempt_limit = snapshot.active_attempt_limit
  starts snapshot r Series.request_queue_capacity = snapshot.request_queue_capacity
  starts snapshot r t = reading r t

  initialize-starts :
      (snapshot : DeliverySaturationSnapshot) (r : Registry) (t : Series)
      → is_current t ≡ false
      → reading (initialize host snapshot r) t ≡ starts snapshot r t
  unfolding initialize
  initialize-starts snapshot r t apart =
      let r1 = update Series.admission_rejections (Amount.whole 0) r in
      let r2 = update Series.admission_capacity (Amount.whole snapshot.admission_capacity) r1 in
      let r3 = update Series.active_attempt_limit (Amount.whole snapshot.active_attempt_limit) r2 in
      let r4 =
        update Series.request_queue_capacity (Amount.whole snapshot.request_queue_capacity) r3 in
      let r5 = update Series.admitted_deliveries (Amount.whole snapshot.admitted_deliveries) r4 in
      let r6 = update Series.active_attempts (Amount.whole snapshot.active_attempts) r5 in
      gauge-stays t apart Series.request_queue_depth snapshot.request_queue_depth r6 refl refl
      ∙ gauge-stays t apart Series.active_attempts snapshot.active_attempts r5 refl refl
      ∙ gauge-stays t apart Series.admitted_deliveries snapshot.admitted_deliveries r4 refl refl
      ∙ grind (
        arith,
        host.counted Series.admission_rejections 0 r t refl,
        host.gauged Series.admission_capacity snapshot.admission_capacity r1 t refl,
        host.gauged Series.active_attempt_limit snapshot.active_attempt_limit r2 t refl,
        host.gauged Series.request_queue_capacity snapshot.request_queue_capacity r3 t refl,
      )

  -- After the metrics are initialized and any recordings are made, a series that is not one of the
  -- three current gauges shows what it did before, or the snapshot's limit where it is a limit, and
  -- one more for each recording of its own: an attempt counts under its decision and outcome, its
  -- duration under its outcome, and a retry's delay exactly where the attempt schedules a retry.
  pub run-initialize :
      (snapshot : DeliverySaturationSnapshot) (xs : List Recording) (r : Registry) (t : Series)
      → is_current t ≡ false
      → reading (run host xs (initialize host snapshot r)) t
        ≡ starts snapshot r t + tally (picks t) xs
  run-initialize snapshot xs r t apart = rw (
    run-tally t (picks t) (perform-grows t apart) xs (initialize host snapshot r),
    initialize-starts snapshot r t apart,
  )
