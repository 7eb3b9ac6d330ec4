-- ===== src/Model/Attempt.antt =====
-- src/model.ts: delivery attempts, their durable records and the checks on a record.
use engineering_with_effect.Prelude.{
  ℕ, Bool, true, false, not, ◌&&◌, Option, none, some, ltb, leb, if◌then◌else◌, is_some, Text,
}
use engineering_with_effect.Model.Ids.{DeliveryId, WorkerId, is_trace_hex}
use engineering_with_effect.Model.Event.{DeliveryClaim}
use engineering_with_effect.Model.Outcome.{DeliveryOutcome}

pub data DeliveryAttemptDecision : Type 0 where
  terminal : DeliveryAttemptDecision
  retry_scheduled : ℕ → DeliveryAttemptDecision
  exhausted : DeliveryAttemptDecision

pub record DeliveryAttempt : Type 0 where
  pub ordinal : ℕ
  pub started_at_millis : ℕ
  pub completed_at_millis : ℕ
  pub outcome : DeliveryOutcome
  pub decision : DeliveryAttemptDecision

pub data AttemptOutcome : Type 0 where
  delivered rejected retryable protocol_failure transport_failure timed_out : AttemptOutcome

pub data AttemptDecision : Type 0 where
  terminal retry_scheduled exhausted : AttemptDecision

pub record DeliveryAttemptRecord : Type 0 where
  pub delivery_id : DeliveryId
  pub ordinal : ℕ
  pub worker_id : WorkerId
  pub claim_generation : ℕ
  pub started_at_millis : ℕ
  pub completed_at_millis : ℕ
  pub outcome : AttemptOutcome
  pub decision : AttemptDecision
  pub status : Option ℕ
  pub retry_delay_millis : Option ℕ
  pub trace_id : Option Text
  pub span_id : Option Text

pub record AttemptTraceCorrelation : Type 0 where
  pub trace_id : Option Text
  pub span_id : Option Text

abbrev pub carries_status : AttemptOutcome → Bool
carries_status AttemptOutcome.delivered = true
carries_status AttemptOutcome.rejected = true
carries_status AttemptOutcome.retryable = true
carries_status AttemptOutcome.protocol_failure = true
carries_status _ = false

abbrev pub is_retryable_tag : AttemptOutcome → Bool
is_retryable_tag AttemptOutcome.retryable = true
is_retryable_tag AttemptOutcome.transport_failure = true
is_retryable_tag AttemptOutcome.timed_out = true
is_retryable_tag _ = false

abbrev pub is_retry_scheduled : AttemptDecision → Bool
is_retry_scheduled AttemptDecision.retry_scheduled = true
is_retry_scheduled _ = false

abbrev pub is_terminal : AttemptDecision → Bool
is_terminal AttemptDecision.terminal = true
is_terminal _ = false

-- `===` on Booleans
abbrev same_bool : Bool → Bool → Bool
same_bool true b = b
same_bool false b = not b

-- The filter of the record's schema.
unfoldable pub is_consistent : DeliveryAttemptRecord → Bool
is_consistent a =
    leb a.started_at_millis a.completed_at_millis
    && same_bool (is_some a.trace_id) (is_some a.span_id)
    && same_bool (carries_status a.outcome) (is_some a.status)
    && same_bool (is_retry_scheduled a.decision) (is_some a.retry_delay_millis)
    && (if is_terminal a.decision
        then not (is_retryable_tag a.outcome)
        else is_retryable_tag a.outcome)

abbrev optionally : (Text → Bool) → Option Text → Bool
optionally p none = true
optionally p (some t) = p t

-- The checks of the schema's fields, but for the patterns of the branded identifiers, which a
-- value of their types has met.
unfoldable pub has_valid_fields : DeliveryAttemptRecord → Bool
has_valid_fields a =
    ltb 0 a.ordinal
    && ltb 0 a.claim_generation
    && optionally (is_trace_hex 32) a.trace_id
    && optionally (is_trace_hex 16) a.span_id

-- `outcome._tag`, `decision._tag`, and the fields that depend on the case.
abbrev pub outcome_tag : DeliveryOutcome → AttemptOutcome
outcome_tag (DeliveryOutcome.delivered d s) = AttemptOutcome.delivered
outcome_tag (DeliveryOutcome.rejected d s) = AttemptOutcome.rejected
outcome_tag (DeliveryOutcome.retryable d s r m) = AttemptOutcome.retryable
outcome_tag (DeliveryOutcome.protocol_failure d s) = AttemptOutcome.protocol_failure
outcome_tag (DeliveryOutcome.transport_failure d) = AttemptOutcome.transport_failure
outcome_tag (DeliveryOutcome.timed_out d) = AttemptOutcome.timed_out

abbrev pub decision_tag : DeliveryAttemptDecision → AttemptDecision
decision_tag DeliveryAttemptDecision.terminal = AttemptDecision.terminal
decision_tag (DeliveryAttemptDecision.retry_scheduled d) = AttemptDecision.retry_scheduled
decision_tag DeliveryAttemptDecision.exhausted = AttemptDecision.exhausted

abbrev outcome_status : DeliveryOutcome → Option ℕ
outcome_status (DeliveryOutcome.delivered d s) = some s
outcome_status (DeliveryOutcome.rejected d s) = some s
outcome_status (DeliveryOutcome.retryable d s r m) = some s
outcome_status (DeliveryOutcome.protocol_failure d s) = some s
outcome_status _ = none

abbrev decision_delay : DeliveryAttemptDecision → Option ℕ
decision_delay (DeliveryAttemptDecision.retry_scheduled d) = some d
decision_delay _ = none

-- What `makeDeliveryAttemptRecord` hands to the schema.
abbrev pub attempt_fields :
    DeliveryId → DeliveryClaim → DeliveryAttempt → AttemptTraceCorrelation → DeliveryAttemptRecord
attempt_fields delivery_id claim attempt trace = record {
  delivery_id = delivery_id;
  ordinal = attempt.ordinal;
  worker_id = claim.owner_id;
  claim_generation = claim.generation;
  started_at_millis = attempt.started_at_millis;
  completed_at_millis = attempt.completed_at_millis;
  outcome = outcome_tag attempt.outcome;
  decision = decision_tag attempt.decision;
  status = outcome_status attempt.outcome;
  retry_delay_millis = decision_delay attempt.decision;
  trace_id = trace.trace_id;
  span_id = trace.span_id;
}

-- `none`: the schema's `make` throws.
unfoldable pub make_delivery_attempt_record :
    DeliveryId
    → DeliveryClaim
    → DeliveryAttempt
    → AttemptTraceCorrelation
    → Option DeliveryAttemptRecord
unfolding is_consistent has_valid_fields
make_delivery_attempt_record delivery_id claim attempt trace =
    let a = attempt_fields delivery_id claim attempt trace in
    if has_valid_fields a && is_consistent a then some a else none
