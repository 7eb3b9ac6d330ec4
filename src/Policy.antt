-- ===== src/Policy.antt =====
-- src/deliveryPolicy.ts: the truth table from results and recorded attempts to delivery states.
pub mod Parity
use engineering_with_effect.Prelude.{ℕ, Option, none, some}
use engineering_with_effect.Model.State.{
  DeliveryState, provider_protocol_failure, retry_budget_exhausted,
}
use engineering_with_effect.Model.Attempt.{AttemptOutcome, AttemptDecision, DeliveryAttemptRecord}
use engineering_with_effect.Model.Results.{DeliveryResult}

unfoldable pub delivery_state_from_result : DeliveryResult → DeliveryState
delivery_state_from_result (DeliveryResult.delivered f status) = DeliveryState.delivered status
delivery_state_from_result (DeliveryResult.rejected f status) = DeliveryState.rejected status
delivery_state_from_result (DeliveryResult.protocol_failure f status) =
    DeliveryState.dead_lettered provider_protocol_failure
delivery_state_from_result (DeliveryResult.exhausted f outcome) =
    DeliveryState.dead_lettered retry_budget_exhausted

-- The `switch` on the outcome of a terminal attempt; `undefined` is `none`.
terminal_outcome_state : AttemptOutcome → Option ℕ → Option DeliveryState
terminal_outcome_state AttemptOutcome.delivered none = none
terminal_outcome_state AttemptOutcome.delivered (some status) =
    some (DeliveryState.delivered status)
terminal_outcome_state AttemptOutcome.rejected none = none
terminal_outcome_state AttemptOutcome.rejected (some status) = some (DeliveryState.rejected status)
terminal_outcome_state AttemptOutcome.protocol_failure status =
    some (DeliveryState.dead_lettered provider_protocol_failure)
terminal_outcome_state _ status = none

decided_state : AttemptDecision → AttemptOutcome → Option ℕ → Option DeliveryState
unfolding terminal_outcome_state
decided_state AttemptDecision.exhausted outcome status =
    some (DeliveryState.dead_lettered retry_budget_exhausted)
decided_state AttemptDecision.terminal outcome status = terminal_outcome_state outcome status
decided_state AttemptDecision.retry_scheduled outcome status = none

unfoldable pub terminal_state_from_attempt : DeliveryAttemptRecord → Option DeliveryState
unfolding decided_state
terminal_state_from_attempt a = decided_state a.decision a.outcome a.status
