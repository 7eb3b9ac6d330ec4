-- ===== src/Metrics.antt =====
-- src/deliveryMetrics.ts: the series of `makeDeliveryMetrics` and what each recorder updates.
-- `Metric` of the host is a parameter; `Metric.withAttributes` picks the series of the attributes.
pub mod Recordings
pub mod Counts
pub mod Gauges
pub mod Shown
use engineering_with_effect.Prelude.{
  ℕ, zero, suc, ◌+◌, ◌-◌, ◌*◌, ◌/◌, ◌%◌, ◌^◌, ◌≤◌, ◌<◌, max, min, ◌≡◌, refl, sym, ap, subst, ◌∙◌,
  ◌≢◌, ◌↔◌, ◌⊎◌, inl, inr, Bool, true, false, not, ◌&&◌, ◌||◌, Option, none, some, List, [], ◌∷◌,
  ◌++◌, map, arith, ltb, leb, ◌==◌, if◌then◌else◌, Bool-cases, Option-cases, or_else, is_some,
  length, length-append, length-map, All-mapped, take, drop, length-take-le, any, All, All-append,
  All-map, All-take, All-select, All-sort_by, sort_by, select, Text, codes, same_text,
  same_text_refl, eq_of_same_text, same_text_iff, Result, ok, err, Action, Result-cases,
}
use engineering_with_effect.Model.State.{DeadLetterReason}
use engineering_with_effect.Model.Outcome.{ℤ}
use engineering_with_effect.Model.Attempt.{
  DeliveryAttempt, DeliveryAttemptDecision, AttemptOutcome, AttemptDecision, outcome_tag,
  decision_tag,
}

pub record DeliverySaturationSnapshot : Type 0 where
  pub active_attempts : ℕ
  pub active_attempt_limit : ℕ
  pub admitted_deliveries : ℕ
  pub admission_capacity : ℕ
  pub request_queue_depth : ℕ
  pub request_queue_capacity : ℕ

pub data Series : Type 0 where
  admission_rejections admitted_deliveries admission_capacity active_attempts : Series
  active_attempt_limit request_queue_depth request_queue_capacity : Series
  attempts : AttemptDecision → AttemptOutcome → Series
  dead_letters : DeadLetterReason → Series
  fencing_rejections : Text → Series
  attempt_duration retry_delay : AttemptOutcome → Series

pub data MetricKind : Type 0 where
  counter gauge histogram : MetricKind

-- `Metric.counter`, `Metric.gauge` or `Metric.histogram`
abbrev pub metric_kind : Series → MetricKind
metric_kind Series.admission_rejections = MetricKind.counter
metric_kind (Series.attempts d o) = MetricKind.counter
metric_kind (Series.dead_letters r) = MetricKind.counter
metric_kind (Series.fencing_rejections o) = MetricKind.counter
metric_kind (Series.attempt_duration o) = MetricKind.histogram
metric_kind (Series.retry_delay o) = MetricKind.histogram
metric_kind _ = MetricKind.gauge

abbrev pub same_outcome : AttemptOutcome → AttemptOutcome → Bool
same_outcome AttemptOutcome.delivered AttemptOutcome.delivered = true
same_outcome AttemptOutcome.rejected AttemptOutcome.rejected = true
same_outcome AttemptOutcome.retryable AttemptOutcome.retryable = true
same_outcome AttemptOutcome.protocol_failure AttemptOutcome.protocol_failure = true
same_outcome AttemptOutcome.transport_failure AttemptOutcome.transport_failure = true
same_outcome AttemptOutcome.timed_out AttemptOutcome.timed_out = true
same_outcome _ _ = false

abbrev pub same_decision : AttemptDecision → AttemptDecision → Bool
same_decision AttemptDecision.terminal AttemptDecision.terminal = true
same_decision AttemptDecision.retry_scheduled AttemptDecision.retry_scheduled = true
same_decision AttemptDecision.exhausted AttemptDecision.exhausted = true
same_decision _ _ = false

abbrev pub same_reason : DeadLetterReason → DeadLetterReason → Bool
same_reason DeadLetterReason.provider_protocol_failure DeadLetterReason.provider_protocol_failure =
    true
same_reason DeadLetterReason.retry_budget_exhausted DeadLetterReason.retry_budget_exhausted = true
same_reason _ _ = false

abbrev pub same_series : Series → Series → Bool
same_series Series.admission_rejections Series.admission_rejections = true
same_series Series.admitted_deliveries Series.admitted_deliveries = true
same_series Series.admission_capacity Series.admission_capacity = true
same_series Series.active_attempts Series.active_attempts = true
same_series Series.active_attempt_limit Series.active_attempt_limit = true
same_series Series.request_queue_depth Series.request_queue_depth = true
same_series Series.request_queue_capacity Series.request_queue_capacity = true
same_series (Series.attempts d o) (Series.attempts d' o') = same_decision d d' && same_outcome o o'
same_series (Series.dead_letters r) (Series.dead_letters r') = same_reason r r'
same_series (Series.fencing_rejections o) (Series.fencing_rejections o') = same_text o o'
same_series (Series.attempt_duration o) (Series.attempt_duration o') = same_outcome o o'
same_series (Series.retry_delay o) (Series.retry_delay o') = same_outcome o o'
same_series _ _ = false

-- `l - r`
abbrev pub difference : ℕ → ℕ → ℤ
difference l r = if leb r l then ℤ.pos (l - r) else ℤ.negsuc (r - l - 1)

-- A number of things, or of seconds: so many milliseconds `/ 1_000`.
pub data Amount : Type 0 where
  whole : ℕ → Amount
  seconds : ℤ → Amount

-- The host's metrics. `reading` is the count of a counter or of a histogram's observations, and the
-- value of a gauge.
pub record Meters : Type 1 where
  pub Registry : Type 0
  pub update : Series → Amount → Registry → Registry
  pub reading : Registry → Series → ℕ
  pub counted :
      (s : Series) (n : ℕ) (r : Registry) (t : Series)
      → metric_kind s ≡ MetricKind.counter
      → reading (update s (whole n) r) t
        ≡ (if same_series s t then reading r t + n else reading r t)
  pub gauged :
      (s : Series) (n : ℕ) (r : Registry) (t : Series)
      → metric_kind s ≡ MetricKind.gauge
      → reading (update s (whole n) r) t ≡ (if same_series s t then n else reading r t)
  pub observed :
      (s : Series) (a : Amount) (r : Registry) (t : Series)
      → metric_kind s ≡ MetricKind.histogram
      → reading (update s a r) t ≡ (if same_series s t then reading r t + 1 else reading r t)

module _ (host : Meters) where
  open host use {Registry, update}

  unfoldable pub initialize : DeliverySaturationSnapshot → Registry → Registry
  initialize snapshot r =
      let r1 = update Series.admission_rejections (whole 0) r in
      let r2 = update Series.admission_capacity (whole snapshot.admission_capacity) r1 in
      let r3 = update Series.active_attempt_limit (whole snapshot.active_attempt_limit) r2 in
      let r4 = update Series.request_queue_capacity (whole snapshot.request_queue_capacity) r3 in
      let r5 = update Series.admitted_deliveries (whole snapshot.admitted_deliveries) r4 in
      let r6 = update Series.active_attempts (whole snapshot.active_attempts) r5 in
      update Series.request_queue_depth (whole snapshot.request_queue_depth) r6

  unfoldable pub record_admission_rejection : Registry → Registry
  record_admission_rejection = update Series.admission_rejections (whole 1)

  unfoldable pub record_attempt : DeliveryAttempt → Registry → Registry
  record_attempt attempt r =
      let outcome = outcome_tag attempt.outcome in
      let duration_seconds =
        seconds (difference attempt.completed_at_millis attempt.started_at_millis) in
      let r1 = update (Series.attempts (decision_tag attempt.decision) outcome) (whole 1) r in
      let r2 = update (Series.attempt_duration outcome) duration_seconds r1 in
      elim attempt.decision [
        | DeliveryAttemptDecision.terminal ↦ r2
        | DeliveryAttemptDecision.retry_scheduled delay_millis ↦
            update (Series.retry_delay outcome) (seconds (ℤ.pos delay_millis)) r2
        | DeliveryAttemptDecision.exhausted ↦ r2
      ]

  unfoldable pub record_dead_letter : DeadLetterReason → Registry → Registry
  record_dead_letter reason = update (Series.dead_letters reason) (whole 1)

  unfoldable pub record_fencing_rejection : Text → Registry → Registry
  record_fencing_rejection operation = update (Series.fencing_rejections operation) (whole 1)

  unfoldable pub set_active_attempts : ℕ → Registry → Registry
  set_active_attempts value = update Series.active_attempts (whole value)

  unfoldable pub set_admitted_deliveries : ℕ → Registry → Registry
  set_admitted_deliveries value = update Series.admitted_deliveries (whole value)

  unfoldable pub set_saturation : DeliverySaturationSnapshot → Registry → Registry
  unfolding set_active_attempts set_admitted_deliveries
  set_saturation snapshot r =
      update Series.request_queue_depth (whole snapshot.request_queue_depth) (
        set_admitted_deliveries snapshot.admitted_deliveries
          (set_active_attempts snapshot.active_attempts r))
