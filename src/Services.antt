-- ===== src/Services.antt =====
-- src/services.ts: what the persistence services take and return.
use engineering_with_effect.Prelude.{ℕ, Option, List}
use engineering_with_effect.Model.Ids.{DeliveryId, WorkerId, IngestionKey, RequestFingerprint}
use engineering_with_effect.Model.Event.{DeliveryClaim, RelayEvent, DeliveryRouteSnapshot}
use engineering_with_effect.Model.State.{Delivery}
use engineering_with_effect.Model.Attempt.{DeliveryAttemptRecord}

pub record ClaimedDelivery : Type 0 where
  pub claim : DeliveryClaim
  pub delivery : Delivery
  pub event : RelayEvent
  pub claim_lag_millis : ℕ
  pub next_attempt_ordinal : ℕ
  pub route : Option DeliveryRouteSnapshot

pub record DeliveryStatus : Type 0 where
  pub delivery : Delivery
  pub attempts : List DeliveryAttemptRecord

pub record ClaimRequest : Type 0 where
  pub owner_id : WorkerId
  pub lease_duration_millis : ℕ

pub record IntakeRecord : Type 0 where
  pub ingestion_key : IngestionKey
  pub request_fingerprint : RequestFingerprint
  pub event : RelayEvent
  pub delivery_id : DeliveryId
  pub route : DeliveryRouteSnapshot
  pub accepted_at_millis : ℕ
  pub claim : ClaimRequest

pub record IntakeDecisionFields : Type 0 where
  pub event : RelayEvent
  pub delivery : Delivery
  pub route : DeliveryRouteSnapshot
  pub accepted_at_millis : ℕ

pub data IntakeDecision : Type 0 where
  accepted : IntakeDecisionFields → DeliveryClaim → IntakeDecision
  replay : IntakeDecisionFields → IntakeDecision

abbrev pub decision_fields : IntakeDecision → IntakeDecisionFields
decision_fields (accepted f c) = f
decision_fields (replay f) = f
