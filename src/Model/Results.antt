-- ===== src/Model/Results.antt =====
-- src/model.ts: `DeliveryResult` and `transitionDeliveryState`.
use engineering_with_effect.Prelude.{ℕ, List}
use engineering_with_effect.Model.Ids.{DeliveryId, DestinationId}
use engineering_with_effect.Model.State.{DeliveryState}
use engineering_with_effect.Model.Outcome.{DeliveryOutcome}
use engineering_with_effect.Model.Attempt.{DeliveryAttempt}

pub record DeliveryResultFields : Type 0 where
  pub delivery_id : DeliveryId
  pub destination_id : DestinationId
  pub attempts : List DeliveryAttempt

pub data DeliveryResult : Type 0 where
  delivered : DeliveryResultFields → ℕ → DeliveryResult
  rejected : DeliveryResultFields → ℕ → DeliveryResult
  protocol_failure : DeliveryResultFields → ℕ → DeliveryResult
  exhausted : DeliveryResultFields → DeliveryOutcome → DeliveryResult

abbrev pub result_fields : DeliveryResult → DeliveryResultFields
result_fields (DeliveryResult.delivered f s) = f
result_fields (DeliveryResult.rejected f s) = f
result_fields (DeliveryResult.protocol_failure f s) = f
result_fields (DeliveryResult.exhausted f o) = f

unfoldable transition_delivery_state : DeliveryState → DeliveryOutcome → DeliveryState
transition_delivery_state DeliveryState.pending (DeliveryOutcome.delivered d status) =
    DeliveryState.delivered status
transition_delivery_state DeliveryState.pending (DeliveryOutcome.rejected d status) =
    DeliveryState.rejected status
transition_delivery_state current outcome = current
