-- ===== src/Model/Event.antt =====
-- src/model.ts: events, claims, routes, destinations and requests; src/services.ts: intake data.
use engineering_with_effect.Prelude.{ℕ, Bool, Text}
use engineering_with_effect.Model.Ids.{EventId, DeliveryId, WorkerId, DestinationId, InvoiceId, Url}

pub record DeliveryClaim : Type 0 where
  pub owner_id : WorkerId
  pub generation : ℕ
  pub lease_expires_at_millis : ℕ

-- The one event type.
pub data EventType : Type 0 where
  invoice_created : EventType

pub record RelayEvent : Type 0 where
  pub id : EventId
  pub event_type : EventType
  pub invoice_id : InvoiceId
  pub amount_cents : ℕ

pub record EventSubmission : Type 0 where
  pub topic : EventType
  pub invoice_id : InvoiceId
  pub amount_cents : ℕ

pub record DeliveryRouteSnapshot : Type 0 where
  pub destination_id : DestinationId
  pub endpoint : Url
  pub configuration_version : ℕ

pub record EventAcceptance : Type 0 where
  pub event_id : EventId
  pub delivery_id : DeliveryId
  pub accepted_at_millis : ℕ
  pub replayed : Bool

pub record Destination : Type 0 where
  pub id : DestinationId
  pub endpoint : Url
  pub authorization : Text
