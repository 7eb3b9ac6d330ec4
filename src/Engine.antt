-- ===== src/Engine.antt =====
-- src/deliveryEngine.ts: one delivery's attempts under the retry policy. Durations and the monotonic
-- clock are in nanoseconds, the wall clock in milliseconds. What the host does in a round (its
-- clocks, the random draw, the attempt, and the recording as an action on a state) is a `Round`.
pub mod Schedule
pub mod Bounds
pub mod Endings
pub mod Run
pub mod Recorded
pub mod Responses
use engineering_with_effect.Prelude.{
  ℕ, ◌+◌, ◌-◌, ◌/◌, Bool, true, false, none, some, List, [], ◌∷◌, ◌++◌, ok, err, Action,
}
use engineering_with_effect.Model.Ids.{DeliveryId, DestinationId}
use engineering_with_effect.Model.Outcome.{DeliveryOutcome}
use engineering_with_effect.Model.Attempt.{DeliveryAttempt, DeliveryAttemptDecision}
use engineering_with_effect.Model.Results.{DeliveryResult, DeliveryResultFields}
use Schedule.{
  AttemptObservation, Resilience, Schedules, Reading, make_retry_schedule, nanos_per_milli,
}

unfoldable pub with_decision : AttemptObservation → DeliveryAttemptDecision → DeliveryAttempt
with_decision a decision = record {
  ordinal = a.ordinal;
  started_at_millis = a.started_at_millis;
  completed_at_millis = a.completed_at_millis;
  outcome = a.outcome;
  decision = decision;
}

unfoldable pub is_retryable : DeliveryOutcome → Bool
is_retryable (DeliveryOutcome.retryable d s r m) = true
is_retryable (DeliveryOutcome.transport_failure d) = true
is_retryable (DeliveryOutcome.timed_out d) = true
is_retryable _ = false

abbrev pub fields_of : DeliveryId → DestinationId → List DeliveryAttempt → DeliveryResultFields
fields_of delivery_id destination_id attempts = record {
  delivery_id = delivery_id;
  destination_id = destination_id;
  attempts = attempts;
}

unfoldable pub terminal_result :
    DeliveryId → DestinationId → DeliveryOutcome → List DeliveryAttempt → DeliveryResult
terminal_result id destination (DeliveryOutcome.delivered d status) attempts =
    DeliveryResult.delivered (fields_of id destination attempts) status
terminal_result id destination (DeliveryOutcome.rejected d status) attempts =
    DeliveryResult.rejected (fields_of id destination attempts) status
terminal_result id destination (DeliveryOutcome.protocol_failure d status) attempts =
    DeliveryResult.protocol_failure (fields_of id destination attempts) status
terminal_result id destination outcome attempts =
    DeliveryResult.exhausted (fields_of id destination attempts) outcome

-- How `send` under its timeout ended.
pub data Sent : Type 0 where
  answered : DeliveryOutcome → Sent
  timeout_error : Sent
  transport_error : Sent

unfoldable observed_outcome : DestinationId → Sent → DeliveryOutcome
observed_outcome destination_id (answered outcome) = outcome
observed_outcome destination_id timeout_error = DeliveryOutcome.timed_out destination_id
observed_outcome destination_id transport_error = DeliveryOutcome.transport_failure destination_id

unfoldable pub observe_delivery_attempt : ℕ → DestinationId → ℕ → Sent → ℕ → AttemptObservation
unfolding observed_outcome
observe_delivery_attempt ordinal destination_id started sent completed = record {
  ordinal = ordinal;
  started_at_millis = started;
  completed_at_millis = completed;
  outcome = observed_outcome destination_id sent;
}

-- What the host does in one round of `run`; recording acts on a state `S`, and may fail with an `E`.
pub record Round (S E : Type 0) : Type 0 where
  pub attempt_started_at_nanos : ℕ
  pub execute_attempt : ℕ → ℕ → AttemptObservation
  pub on_attempt : DeliveryAttempt → Action S E (Unit {0})
  pub reading : Reading

-- How far the loop got with the rounds that it was given, and the state then.
pub data Ending (S E : Type 0) : Type 0 where
  finished : DeliveryResult → S → Ending S E
  failed : E → S → Ending S E
  running : List DeliveryAttempt → S → Ending S E

module _ (lib : Schedules) {S E : Type 0} (delivery_id : DeliveryId)
    (destination_id : DestinationId) (deadline : ℕ) where
  -- `append`: the history has the attempt before it is recorded.
  abbrev pub then_record : Round S E → DeliveryAttempt → (S → Ending S E) → S → Ending S E
  then_record round attempt next s =
      let (r, s') = round.on_attempt attempt s in elim r [ ok _ ↦ next s' | err e ↦ failed e s' ]

  -- `run`, over the rounds that the host provides.
  unfoldable pub attempts_from :
      List (Round S E) → ℕ → List DeliveryAttempt → lib.Schedule → S → Ending S E
  unfolding with_decision is_retryable terminal_result
  attempts_from [] next history schedule s = running history s
  attempts_from (round ∷ rounds) next history schedule s =
      let ordinal = next + 1 in
      let attempt = round.execute_attempt ordinal (deadline - round.attempt_started_at_nanos) in
      elim (is_retryable attempt.outcome) [
        | false ↦
            let done = with_decision attempt DeliveryAttemptDecision.terminal in
            let attempts = history ++ done ∷ [] in
            then_record round done
              (finished (terminal_result delivery_id destination_id attempt.outcome attempts)) s
        | true ↦ elim (lib.step schedule (record { input = attempt; reading = round.reading })) [
          | none ↦
              let done = with_decision attempt DeliveryAttemptDecision.exhausted in
              let attempts = history ++ done ∷ [] in
              then_record round done
                (finished (
                  DeliveryResult.exhausted (fields_of delivery_id destination_id attempts)
                    attempt.outcome))
                s
          | some (delay, schedule') ↦
              let again =
                with_decision attempt
                  (DeliveryAttemptDecision.retry_scheduled (delay / nanos_per_milli)) in
              then_record round again
                (attempts_from rounds ordinal (history ++ again ∷ []) schedule') s
        ]
      ]

module _ (lib : Schedules) {S E : Type 0} where
  unfoldable pub run_delivery_with_retry :
      DeliveryId → DestinationId → Resilience → ℕ → ℕ → List (Round S E) → S → Ending S E
  unfolding attempts_from
  run_delivery_with_retry delivery_id destination_id resilience started_at_nanos first_ordinal
        rounds s =
      attempts_from lib delivery_id destination_id (started_at_nanos + resilience.max_elapsed)
        rounds (first_ordinal - 1) [] (make_retry_schedule lib resilience started_at_nanos) s
