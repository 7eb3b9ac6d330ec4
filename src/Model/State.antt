-- ===== src/Model/State.antt =====
-- src/model.ts: `DeliveryState` and `Delivery`.
use engineering_with_effect.Prelude.{ℕ, Bool, true, false}
use engineering_with_effect.Model.Ids.{EventId, DeliveryId, DestinationId}

pub data DeadLetterReason : Type 0 where
  provider_protocol_failure retry_budget_exhausted : DeadLetterReason

pub data DeliveryState : Type 0 where
  pending : DeliveryState
  delivered : ℕ → DeliveryState
  rejected : ℕ → DeliveryState
  dead_lettered : DeadLetterReason → DeliveryState
  terminated : DeliveryState

pub record Delivery : Type 0 where
  pub id : DeliveryId
  pub event_id : EventId
  pub destination_id : DestinationId
  pub state : DeliveryState

-- `state._tag === "Pending"`, `state._tag === "DeadLettered"`
abbrev pub is_pending : DeliveryState → Bool
is_pending DeliveryState.pending = true
is_pending _ = false

abbrev pub is_dead_lettered : DeliveryState → Bool
is_dead_lettered (DeliveryState.dead_lettered r) = true
is_dead_lettered _ = false
