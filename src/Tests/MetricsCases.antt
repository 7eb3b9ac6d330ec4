-- ===== src/Tests/MetricsCases.antt =====
-- The metrics on concrete recordings.
use engineering_with_effect.Tests.Samples.{destination}
use engineering_with_effect.Prelude.{ℕ, ◌+◌, ◌≡◌, List, [], ◌∷◌, if◌then◌else◌}
use engineering_with_effect.Metrics.{
  DeliverySaturationSnapshot, Series, MetricKind, metric_kind, Amount, Meters, same_series,
}
use engineering_with_effect.Metrics.Recordings.{Recording, run}
use engineering_with_effect.Metrics.Shown.{run-shown}
use engineering_with_effect.Metrics.{initialize}
use engineering_with_effect.Model.State.{DeadLetterReason}
use engineering_with_effect.Model.Outcome.{DeliveryOutcome}
use engineering_with_effect.Model.Attempt.{DeliveryAttempt, DeliveryAttemptDecision, AttemptOutcome}

-- A registry as a function from the series to its reading.
abbrev amended : MetricKind → Amount → ℕ → ℕ
amended MetricKind.counter (Amount.whole n) x = x + n
amended MetricKind.gauge (Amount.whole n) x = n
amended MetricKind.histogram a x = x + 1
amended _ _ x = x

abbrev readings : Meters
readings = record {
  Registry = Series → ℕ;
  update = λ s a r t. if same_series s t then amended (metric_kind s) a (r t) else r t;
  reading = λ r t. r t;
  counted = λ s n r t k. rw (k);
  gauged = λ s n r t k. rw (k);
  observed = λ s a r t k. rw (k);
}

abbrev limits : DeliverySaturationSnapshot
limits = record {
  active_attempts = 0;
  active_attempt_limit = 8;
  admitted_deliveries = 0;
  admission_capacity = 32;
  request_queue_depth = 0;
  request_queue_capacity = 16;
}

abbrev timed_out_attempt : DeliveryAttempt
timed_out_attempt = record {
  ordinal = 1;
  started_at_millis = 100;
  completed_at_millis = 350;
  outcome = DeliveryOutcome.timed_out destination;
  decision = DeliveryAttemptDecision.retry_scheduled 500;
}

abbrev recordings : List Recording
recordings =
    Recording.attempt timed_out_attempt
    ∷ Recording.saturation limits
    ∷ Recording.attempt
        (record timed_out_attempt { ordinal = 2; decision = DeliveryAttemptDecision.exhausted })
    ∷ Recording.dead_letter DeadLetterReason.retry_budget_exhausted
    ∷ []

run-shown_example :
    readings.reading
      (run readings recordings (initialize readings limits (λ t. 0)))
      (Series.attempt_duration AttemptOutcome.timed_out)
    ≡ 2
run-shown_example =
    run-shown readings limits recordings (λ t. 0) (Series.attempt_duration AttemptOutcome.timed_out)
