-- ===== src/Metrics/Gauges.antt =====
-- What the current gauges of src/deliveryMetrics.ts show after any recordings.
use engineering_with_effect.Prelude.{
  ℕ, ◌≡◌, refl, ◌∙◌, true, Option, none, some, List, [], ◌∷◌, arith, or_else,
}
use engineering_with_effect.Model.Attempt.{
  DeliveryAttempt, DeliveryAttemptDecision, AttemptOutcome, AttemptDecision, outcome_tag,
}
use engineering_with_effect.Model.Outcome.{ℤ, DeliveryOutcome}
use engineering_with_effect.Metrics.{
  Series, MetricKind, metric_kind, Amount, difference, Meters, record_admission_rejection,
  record_attempt, record_dead_letter, record_fencing_rejection, set_active_attempts,
  set_admitted_deliveries, set_saturation,
}
use engineering_with_effect.Metrics.Recordings.{Recording, is_current, perform, run}

-- The value that a recording gives a gauge, if it sets it.
abbrev pub sets : Series → Recording → Option ℕ
sets Series.active_attempts (Recording.active_attempts n) = some n
sets Series.active_attempts (Recording.saturation snapshot) = some snapshot.active_attempts
sets Series.admitted_deliveries (Recording.admitted_deliveries n) = some n
sets Series.admitted_deliveries (Recording.saturation snapshot) = some snapshot.admitted_deliveries
sets Series.request_queue_depth (Recording.saturation snapshot) = some snapshot.request_queue_depth
sets _ _ = none

-- The value that was set last, or `n`.
abbrev pub latest : Series → List Recording → ℕ → ℕ
latest t [] n = n
latest t (x ∷ xs) n = latest t xs (or_else (sets t x) n)

module _ (host : Meters) where
  open host use {Registry, update, reading}

  module _ (t : Series) (current : is_current t ≡ true) where
    counter-stays :
        (s : Series) (n : ℕ) (r : Registry)
        → metric_kind s ≡ MetricKind.counter
        → reading (update s (Amount.whole n) r) t ≡ reading r t
    counter-stays s n r k = ground (arith, host.counted s n r t k)

    histogram-stays :
        (s : Series) (a : Amount) (r : Registry)
        → metric_kind s ≡ MetricKind.histogram
        → reading (update s a r) t ≡ reading r t
    histogram-stays s a r k = ground (arith, host.observed s a r t k)

    module _ (started completed : ℕ) (d : AttemptDecision) (o : AttemptOutcome) where
      -- The first two updates of `recordAttempt`.
      both : Registry → Registry
      both r =
          update (Series.attempt_duration o) (Amount.seconds (difference completed started))
            (update (Series.attempts d o) (Amount.whole 1) r)

      both-stays : (r : Registry) → reading (both r) t ≡ reading r t
      unfolding both
      both-stays r =
          histogram-stays (Series.attempt_duration o)
            (Amount.seconds (difference completed started))
            (update (Series.attempts d o) (Amount.whole 1) r) refl
          ∙ counter-stays (Series.attempts d o) 1 r refl

    record_attempt-stays :
        (ordinal started completed : ℕ) (outcome : DeliveryOutcome) (d : DeliveryAttemptDecision)
        (r : Registry)
        → let a : DeliveryAttempt = record {
          ordinal = ordinal;
          started_at_millis = started;
          completed_at_millis = completed;
          outcome = outcome;
          decision = d;
        } in
          reading (record_attempt host a r) t ≡ reading r t
    unfolding record_attempt both
    record_attempt-stays ordinal started completed outcome DeliveryAttemptDecision.terminal r =
        both-stays started completed AttemptDecision.terminal (outcome_tag outcome) r
    record_attempt-stays ordinal started completed outcome
          (DeliveryAttemptDecision.retry_scheduled n) r =
        histogram-stays (Series.retry_delay (outcome_tag outcome)) (Amount.seconds (ℤ.pos n))
          (both started completed AttemptDecision.retry_scheduled (outcome_tag outcome) r) refl
        ∙ both-stays started completed AttemptDecision.retry_scheduled (outcome_tag outcome) r
    record_attempt-stays ordinal started completed outcome DeliveryAttemptDecision.exhausted r =
        both-stays started completed AttemptDecision.exhausted (outcome_tag outcome) r

    perform-sets :
        (x : Recording) (r : Registry)
        → reading (perform host x r) t ≡ or_else (sets t x) (reading r t)
    unfolding perform record_dead_letter record_fencing_rejection record_admission_rejection
        set_active_attempts set_admitted_deliveries set_saturation
    perform-sets (Recording.attempt a) r = ground (
      arith,
      record_attempt-stays a.ordinal a.started_at_millis a.completed_at_millis a.outcome a.decision
          r,
    )
    perform-sets (Recording.dead_letter reason) r =
        ground (arith, counter-stays (Series.dead_letters reason) 1 r refl)
    perform-sets (Recording.fencing_rejection o) r =
        ground (arith, counter-stays (Series.fencing_rejections o) 1 r refl)
    perform-sets Recording.admission_rejection r =
        ground (arith, counter-stays Series.admission_rejections 1 r refl)
    perform-sets (Recording.active_attempts n) r =
        ground (arith, host.gauged Series.active_attempts n r t refl)
    perform-sets (Recording.admitted_deliveries n) r =
        ground (arith, host.gauged Series.admitted_deliveries n r t refl)
    perform-sets (Recording.saturation snapshot) r =
        let r1 = set_active_attempts host snapshot.active_attempts r in
        let r2 = set_admitted_deliveries host snapshot.admitted_deliveries r1 in
        ground (
          arith,
          host.gauged Series.active_attempts snapshot.active_attempts r t refl,
          host.gauged Series.admitted_deliveries snapshot.admitted_deliveries r1 t refl,
          host.gauged Series.request_queue_depth snapshot.request_queue_depth r2 t refl,
        )

    pub run-latest :
        (xs : List Recording) (r : Registry) → reading (run host xs r) t ≡ latest t xs (reading r t)
    run-latest [] r = refl
    run-latest (x ∷ xs) r = run-latest xs (perform host x r) ∙ rw (perform-sets x r)
